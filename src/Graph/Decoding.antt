-- ===== src/Graph/Decoding.antt =====
-- The mapping from addresses to vaults.
use v3_keeper.Base.{
  ℕ, ◌≡◌, refl, Bool, List, [], ◌∷◌, Option, none, some, Text, text_eq, put, All, All-put, done,
  Post, Post-then_do, Post-any, Post-done,
}
use v3_keeper.Graph.{
  Codec, Vault, VaultItem, VaultQuery, GraphNode, from_graph, add_vaults, fetch_vault_map,
  graph_get_vaults,
}

abbrev pub IsKeyed : Text × Vault → Type 0
IsKeyed e = e.0 ≡ e.1.address

module _ {W : Type 0} (codec : Codec) (node : GraphNode W) where
  add_vaults-IsKeyed :
      (items : List VaultItem) (vaults : List (Text × Vault)) (w : W)
      → All IsKeyed vaults
      → Post (λ m _. All IsKeyed m) (λ _ _. Unit {0}) (add_vaults codec node items vaults w)
  unfolding add_vaults
  add_vaults-IsKeyed [] vaults w h = h
  add_vaults-IsKeyed (item ∷ items) vaults w h =
      Post-then_do (λ _ _. Unit {0}) (λ m _. All IsKeyed m) (λ _ _. Unit {0})
        (from_graph codec item w)
        (λ vault. add_vaults codec node items (put vault.address vault vaults))
        (Post-any (from_graph codec item w))
        (λ vault v _.
          add_vaults-IsKeyed items (put vault.address vault vaults) v
            (All-put IsKeyed vault.address vault vaults refl h))

  fetched-IsKeyed :
      (query : VaultQuery) (w : W)
      → Post (λ m _. All IsKeyed m) (λ _ _. Unit {0}) (fetch_vault_map codec node query w)
  fetched-IsKeyed query w =
      Post-then_do (λ _ _. Unit {0}) (λ m _. All IsKeyed m) (λ _ _. Unit {0})
        (node.fetch_vaults query w) (λ response. add_vaults codec node response [])
        (Post-any (node.fetch_vaults query w)) (λ response v _. add_vaults-IsKeyed response [] v tt)

  -- Whatever the graph answers, each vault of the mapping stands under its own address.
  pub graph_get_vaults-IsKeyed :
      (vaults : Option (List Text)) (is_meta_vault : Option Bool) (block_number : Option ℕ)
      (w v : W) (m : List (Text × Vault))
      → graph_get_vaults codec node vaults is_meta_vault block_number w ≡ done m v
      → All IsKeyed m
  unfolding graph_get_vaults
  graph_get_vaults-IsKeyed (some []) is_meta_vault block_number w v m h =
      Post-done (λ m _. All IsKeyed m) (λ _ _. Unit {0}) (done [] w) m v tt h
  graph_get_vaults-IsKeyed none is_meta_vault block_number w v m h =
      Post-done (λ m _. All IsKeyed m) (λ _ _. Unit {0}) _ m v (fetched-IsKeyed _ w) h
  graph_get_vaults-IsKeyed (some (a ∷ vaults)) is_meta_vault block_number w v m h =
      Post-done (λ m _. All IsKeyed m) (λ _ _. Unit {0}) _ m v (fetched-IsKeyed _ w) h
