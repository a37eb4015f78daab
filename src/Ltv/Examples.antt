-- ===== src/Ltv/Examples.antt =====
-- Two vaults' users, of whom one changed, and a run while the graph node is behind.
use v3_keeper.Base.{
  ℕ, suc, ◌+◌, ◌≡◌, refl, text_beq, if◌then◌else◌, List, [], ◌∷◌, none, some, Sys, done, raised,
  connection_error, Text,
}
use v3_keeper.State.{AppState}
use v3_keeper.Graph.{Codec, GraphNode, check_for_graph_node_sync_to_block}
use v3_keeper.Ltv.{
  VaultMaxLtvUser, LtvGraph, Tracker, Chain, update_ltv, process_vault_max_ltv_user,
}

abbrev codec : Codec
codec = record { to_checksum_address = λ t. some t; to_bytes = λ t. some t }

abbrev node : GraphNode ℕ
node = record {
  fetch_vaults = λ query w. done [] w;
  latest_block = λ w. done 7 w;
  block_at = λ t w. done 9 w;
}

abbrev graph : LtvGraph ℕ
graph = record { networks = λ block w. done [] w; allocators = λ vault block w. done [] w }

abbrev tracker : Tracker ℕ
tracker = record {
  get_vault_max_ltv = λ vault params w. done 5 w;
  get_max_ltv_user = λ vault w. done [] w;
  update_vault_max_ltv_user = λ vault user params w. done (some (1 ∷ [])) (suc w);
}

abbrev chain : Chain ℕ
chain = record { time = λ w. done 1000 w; finalized_block = λ w. done 9 w }

abbrev user_of : Text → VaultMaxLtvUser
user_of address = record {
  ltv = 5;
  address = address;
  prev_address = 1 ∷ [];
  vault = 3 ∷ [];
  harvest_params = none;
}

abbrev start : Sys AppState ℕ
start = record {
  mem = record {
    last_price_updated_timestamp = none;
    force_exits_updated_timestamp = none;
    ltv_updated_timestamp = some 10;
  };
  env = 0;
}

-- A contract that holds a user for each vault and counts the updates.
record Contract : Type 0 where
  users : Text → Text
  updates : ℕ

abbrev put : Text → Text → Contract → Contract
put vault user w = record {
  users = λ t. if text_beq t vault then user else w.users t;
  updates = w.updates + 1;
}

abbrev contract : Tracker Contract
contract = record {
  get_vault_max_ltv = λ vault params w. done 5 w;
  get_max_ltv_user = λ vault w. done (w.users vault) w;
  update_vault_max_ltv_user = λ vault user params w. done (some (1 ∷ [])) (put vault user w);
}

abbrev contract_node : GraphNode Contract
contract_node = record {
  fetch_vaults = λ query w. done [] w;
  latest_block = λ w. done 7 w;
  block_at = λ t w. done 9 w;
}

abbrev contract_graph : LtvGraph Contract
contract_graph = record { networks = λ block w. done [] w; allocators = λ vault block w. done [] w }

-- Each vault has user 1.
abbrev fresh : Contract
fresh = record { users = λ t. 1 ∷ []; updates = 0 }

abbrev two_users : List VaultMaxLtvUser
two_users = user_of (1 ∷ []) ∷ record (user_of (2 ∷ [])) { vault = 4 ∷ [] } ∷ []

behind :
    process_vault_max_ltv_user codec node graph tracker chain 100 start
    ≡ raised (connection_error "The graph node is not synced to the block") start
unfolding process_vault_max_ltv_user update_ltv check_for_graph_node_sync_to_block
behind = refl
