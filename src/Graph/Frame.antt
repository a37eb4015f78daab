-- ===== src/Graph/Frame.antt =====
-- What the calls of the graph keep, its readers keep.
use v3_keeper.Base.{
  ℕ, List, [], ◌∷◌, Option, none, some, Text, Bool, settle, value, failure, Keeps, Keeps-then,
  Keeps-settle, Keeps-pure, Keeps-raise, keeps_rules,
}
use v3_keeper.Graph.{
  Codec, GraphNode, Vault, VaultItem, VaultQuery, BlockIdentifier, number, tag, from_graph,
  add_vaults, fetch_vault_map, graph_get_vaults, execution_block, compare_blocks,
  check_for_graph_node_sync_to_block,
}

-- The calls of the graph and of the node keep `R`.
pub record Kept {W : Type 0} (R : W → Type 0) (node : GraphNode W) : Type 0 where
  pub fetch_vaults : (query : VaultQuery) → Keeps R (node.fetch_vaults query)
  pub latest_block : Keeps R node.latest_block
  pub block_at : (name : Text) → Keeps R (node.block_at name)

module _ {W : Type 0} {R : W → Type 0} (codec : Codec) (node : GraphNode W)
    (kept : Kept R node) where
  from_graph-Keeps : (item : VaultItem) → Keeps R (from_graph codec item)
  unfolding from_graph
  from_graph-Keeps item = search keeps_rules depth 20

  add_vaults-Keeps :
      (items : List VaultItem) (vaults : List (Text × Vault))
      → Keeps R (add_vaults codec node items vaults)
  unfolding add_vaults
  add_vaults-Keeps [] vaults = Keeps-pure vaults
  add_vaults-Keeps (item ∷ items) vaults =
      Keeps-then (from_graph codec item) _ (from_graph-Keeps item)
        (λ vault. add_vaults-Keeps items _)

  vault_map-Keeps : (query : VaultQuery) → Keeps R (fetch_vault_map codec node query)
  vault_map-Keeps query = search (keeps_rules, Kept.fetch_vaults, add_vaults-Keeps)

  pub graph_get_vaults-Keeps :
      (vaults : Option (List Text)) (is_meta_vault : Option Bool) (block_number : Option ℕ)
      → Keeps R (graph_get_vaults codec node vaults is_meta_vault block_number)
  unfolding graph_get_vaults
  graph_get_vaults-Keeps none is_meta_vault block_number = vault_map-Keeps _
  graph_get_vaults-Keeps (some []) is_meta_vault block_number = Keeps-pure []
  graph_get_vaults-Keeps (some (v ∷ vaults)) is_meta_vault block_number = vault_map-Keeps _

module _ {W : Type 0} {R : W → Type 0} (node : GraphNode W) (kept : Kept R node) where
  execution_block-Keeps : (block : BlockIdentifier) → Keeps R (execution_block node block)
  execution_block-Keeps (number n) = Keeps-pure n
  execution_block-Keeps (tag t) = kept.block_at t

  compare-Keeps :
      (graph_block execution_number : ℕ)
      → Keeps R (compare_blocks node graph_block execution_number)
  compare-Keeps graph_block execution_number = search keeps_rules

  pub sync-Keeps :
      (block : BlockIdentifier) → Keeps R (check_for_graph_node_sync_to_block node block)
  unfolding check_for_graph_node_sync_to_block
  sync-Keeps block =
      Keeps-then (settle node.latest_block) _ (Keeps-settle node.latest_block kept.latest_block)
        (elim [
          | failure e ↦ Keeps-raise _
          | value graph_block ↦
              Keeps-then (execution_block node block) _ (execution_block-Keeps block)
                (λ n. compare-Keeps graph_block n)
        ])
