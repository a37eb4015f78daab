-- ===== src/Graph/Examples.antt =====
-- A subgraph with one vault, at block 7.
use v3_keeper.Base.{ℕ, ◌≡◌, refl, false, [], ◌∷◌, none, some, pos, negsuc, int_of, All, done}
use v3_keeper.Graph.{Codec, Vault, VaultItem, GraphNode, zeros, from_graph, graph_get_vaults}
use v3_keeper.Graph.Decoding.{IsKeyed, graph_get_vaults-IsKeyed}

abbrev codec : Codec
codec = record { to_checksum_address = λ t. some t; to_bytes = λ t. some t }

abbrev item : VaultItem
item = record {
  id = 5 ∷ [];
  is_meta_vault = false;
  sub_vaults = [];
  can_harvest = false;
  proof = none;
  proof_reward = some (b'-' ∷ b'4' ∷ b'2' ∷ []);
  proof_unlocked_mev_reward = none;
  rewards_root = none;
}

abbrev node : GraphNode ℕ
node = record {
  fetch_vaults = λ query w. done (item ∷ []) w;
  latest_block = λ w. done 7 w;
  block_at = λ t w. done 5 w;
}

abbrev vault : Vault
vault = record {
  address = 5 ∷ [];
  can_harvest = false;
  rewards_root = zeros 32;
  proof_reward = negsuc 41;
  proof_unlocked_mev_reward = pos 0;
  proof = [];
  is_meta_vault = false;
  sub_vaults = [];
}

fetched :
    graph_get_vaults codec node (some ((5 ∷ []) ∷ [])) none none 0 ≡ done ((5 ∷ [], vault) ∷ []) 0
unfolding graph_get_vaults int_of from_graph
fetched = refl

graph_get_vaults-IsKeyed_example : All IsKeyed ((5 ∷ [], vault) ∷ [])
graph_get_vaults-IsKeyed_example =
    graph_get_vaults-IsKeyed codec node (some ((5 ∷ []) ∷ [])) none none 0 0 ((5 ∷ [], vault) ∷ [])
      fetched
