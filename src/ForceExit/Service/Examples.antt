-- ===== src/ForceExit/Service/Examples.antt =====
-- One leverage position, one osToken exit request, and a run while the graph node is behind.
use v3_keeper.Base.{
  ℕ, ◌≡◌, refl, contains, text_eq, if◌then◌else◌, suc, [], ◌∷◌, false, true, none, some, pos,
  int_of, All, Sys, done, raised, connection_error,
}
use v3_keeper.Votes.Counter.Laws.{count}
use v3_keeper.State.{AppState}
use v3_keeper.Graph.{Codec, GraphNode, check_for_graph_node_sync_to_block}
use v3_keeper.ForceExit.{
  ExitRequest, LeveragePosition, OsTokenExitRequest, ExitRequestItem, position_id, from_graph,
}
use v3_keeper.ForceExit.Queries.{
  Floats, ForceGraph, OsTokenItem, graph_ostoken_exit_requests, graph_get_exit_requests_by_ids,
}
use v3_keeper.ForceExit.Queries.Claims.{IsJoined, graph_ostoken_exit_requests-IsJoined}
use v3_keeper.ForceExit.Execution.{Contracts}
use v3_keeper.ForceExit.Service.{
  Registry, Chain, join_positions, handle_leverage_position, run_force_exits, process_force_exits,
}
use v3_keeper.ForceExit.Service.Recheck.{handle_once, handle_leverage_position-handle_once}
use v3_keeper.ForceExit.Service.Selection.{ids, count-join_positions}
use v3_keeper.ForceExit.Service.Timestamp.{process_force_exits_raised}

abbrev codec : Codec
codec = record { to_checksum_address = λ t. some t; to_bytes = λ t. some t }

abbrev node : GraphNode ℕ
node = record {
  fetch_vaults = λ query w. done [] w;
  latest_block = λ w. done 7 w;
  block_at = λ t w. done 9 w;
}

abbrev floats : Floats ℕ
floats = record {
  of_text = λ t. some 9;
  of_wad = λ n. 8;
  gt = λ a b. true;
  sub = λ a b. a;
  mul = λ a b. a;
  str = λ a. [];
}

abbrev exit_item : ExitRequestItem
exit_item = record {
  id = 4 ∷ [];
  vault = 3 ∷ [];
  position_ticket = b'1' ∷ [];
  timestamp = b'2' ∷ [];
  exit_queue_index = none;
  is_claimed = false;
  is_claimable = true;
  exited_assets = b'5' ∷ [];
  total_assets = b'5' ∷ [];
}

abbrev ostoken_item : OsTokenItem
ostoken_item = record { id = 4 ∷ []; owner = 2 ∷ []; ltv = []; vault = 3 ∷ [] }

abbrev graph : ForceGraph ℕ
graph = record {
  positions = λ block w. done [] w;
  allocators = λ ltv addresses block w. done [] w;
  ostoken_exit_requests = λ ltv block w. done (ostoken_item ∷ []) w;
  exit_requests = λ ids block w. done (exit_item ∷ []) w;
  owners = λ proxy w. done [] w;
}

abbrev contracts : Contracts ℕ
contracts = record {
  can_harvest = λ vault block w. done false w;
  aggregate = λ calls block w. done ((1 ∷ []) ∷ []) w;
  transact = λ calls w. done (some (6 ∷ [])) (suc w);
  to_int = λ t. 1;
}

abbrev registry : Registry ℕ
registry = record {
  borrow_ltv_percent = λ w. done (pos 9) w;
  vault_ltv_percent = λ w. done (pos 9) w;
  liq_threshold_percent = λ w. done (pos 9) w;
  owner = λ proxy w. done (8 ∷ []) w;
}

abbrev chain : Chain ℕ
chain = record { time = λ w. done 1000 w; finalized_block = λ w. done 9 w }

abbrev request : ExitRequest
request = record {
  id = 4 ∷ [];
  vault = 3 ∷ [];
  position_ticket = pos 1;
  timestamp = pos 2;
  exit_queue_index = none;
  is_claimed = false;
  is_claimable = true;
  exited_assets = pos 5;
  total_assets = pos 5;
}

abbrev position : LeveragePosition ℕ
position = record {
  user = 1 ∷ [];
  vault = 3 ∷ [];
  proxy = 2 ∷ [];
  borrow_ltv = 9;
  exit_request = some request;
}

abbrev start : Sys AppState ℕ
start = record {
  mem = record {
    last_price_updated_timestamp = none;
    force_exits_updated_timestamp = some 10;
    ltv_updated_timestamp = none;
  };
  env = 0;
}

handle_leverage_position-handle_once_example :
    handle_leverage_position codec contracts registry 9 position none 0
    ≡ handle_once codec contracts registry 9 position none 0
handle_leverage_position-handle_once_example =
    handle_leverage_position-handle_once codec contracts registry 9 (λ vault. false)
      (λ calls. (1 ∷ []) ∷ []) (λ vault w. refl) (λ calls w. refl) position none 0

count-join_positions_example :
    count (position_id position) (ids (join_positions (position ∷ []) (position ∷ []))) ≡ (
      if contains (position_id position) (ids (position ∷ []))
      then count (position_id position) (ids (position ∷ []))
      else count (position_id position) (ids (position ∷ [])))
count-join_positions_example =
    count-join_positions (position_id position) (position ∷ []) (position ∷ [])

abbrev joined : OsTokenExitRequest
joined = record { id = 4 ∷ []; vault = 3 ∷ []; owner = 2 ∷ []; ltv = []; exit_request = request }

fetched : graph_ostoken_exit_requests codec floats graph 8 9 0 ≡ done (joined ∷ []) 0
unfolding graph_ostoken_exit_requests graph_get_exit_requests_by_ids int_of from_graph
fetched = refl

graph_ostoken_exit_requests-IsJoined_example : All IsJoined (joined ∷ [])
graph_ostoken_exit_requests-IsJoined_example =
    graph_ostoken_exit_requests-IsJoined codec floats graph 8 9 0 0 (joined ∷ []) fetched

behind :
    process_force_exits codec node floats graph contracts registry chain 8 100 start
    ≡ raised (connection_error "The graph node is not synced to the block") start
unfolding process_force_exits run_force_exits check_for_graph_node_sync_to_block
behind = refl

process_force_exits_raised_example : start.mem ≡ start.mem
process_force_exits_raised_example =
    process_force_exits_raised codec node floats graph contracts registry chain 8 100 start start
      (connection_error "The graph node is not synced to the block") behind
