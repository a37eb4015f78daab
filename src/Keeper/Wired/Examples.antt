-- ===== src/Keeper/Wired/Examples.antt =====
-- The wrappers over a node whose pending nonce is ahead, under the loop of the other examples.
use v3_keeper.Base.{◌≤◌, arith, All, ℕ, refl, [], ◌∷◌, none, some, true, Text, Sys, done, after}
use v3_keeper.Networks.{PriceNetworkConfig}
use v3_keeper.Transaction.Fees.{TxParams}
use v3_keeper.Transaction.Manager.{Manager, Node}
use v3_keeper.Transaction.Manager.Soundness.{IsSafe}
use v3_keeper.Contracts.Wrappers.{ContractCall, Views}
use v3_keeper.Keeper.{Memory, main}
use v3_keeper.Keeper.Examples.{outside, settings, start}
use v3_keeper.Clients.{Handles}
use v3_keeper.Keeper.Wired.Closing.{Disconnects, AreClosed, main_closed}
use v3_keeper.Keeper.Wired.{Peers, wired}
use v3_keeper.Keeper.Wired.Safety.{main-IsSafe}

abbrev text : Text
text = 1 ∷ []

abbrev views : Views ℕ
views = record {
  rewards_nonce = λ w. done 1 w;
  can_update_rewards = λ w. done true w;
  can_harvest = λ vault block w. done true w;
  aggregate = λ calls block w. done [] w;
  rewards_root = λ w. done [] w;
  nonce = λ w. done 4 w;
  rewards_min_oracles = λ w. done 1 w;
  next_rewards_root_update_timestamp = λ w. done 10 w;
  owner = λ proxy w. done text w;
  liq_threshold_percent = λ w. done 9 w;
  vault_ltv_percent = λ w. done text w;
  borrow_ltv_percent = λ w. done text w;
  vault_to_user = λ vault w. done text w;
  vault_max_ltv = λ vault params w. done 9 w;
  latest_timestamp = λ w. done 1 w;
  quote_rate_sync = λ chain w. done 9 w;
  to_int = λ t. 0;
  to_hex = λ t. t;
  hash_to_hex = λ n. n ∷ [];
  to_bytes = λ t. some t;
  to_checksum_address = λ t. some t;
}

abbrev params : TxParams
params = record {
  sender = none;
  amount = none;
  nonce = none;
  max_fee_per_gas = some 20;
  max_priority_fee_per_gas = some 10;
}

abbrev node : Node ContractCall ℕ
node = record {
  latest_count = λ w. done 5 w;
  pending_count = λ w. done 6 w;
  high_priority_tx_params = λ w. done params w;
  estimate_gas = λ call p w. done tt w;
  send = λ call p w. done 77 w;
  wait_for_receipt = λ h w. done (record { status = true; transaction_hash = h }) w;
  sleep = λ w. done tt w;
}

abbrev manager_settings : v3_keeper.Transaction.Manager.Settings
manager_settings = record { ceiling = 1000; attempts = 2 }

abbrev manager : Manager
manager = record { records = []; sent = [] }

abbrev price_config : PriceNetworkConfig
price_config = record {
  target_chain = 23;
  target_address = text;
  target_price_feed_contract_address = text;
  price_feed_sender_contract_address = text;
}

-- A number below 100 is a world with open clients; the last disconnect leaves 100.
abbrev handles : Handles ℕ
handles = record {
  inject_signer = λ w. done tt w;
  set_default_account = λ w. done tt w;
  setup_graph = λ w. done tt w;
  disconnect_consensus = λ w. done tt 98;
  disconnect_execution = λ w. done tt 99;
  disconnect_graph = λ w. done tt 100;
}

abbrev peers : Peers ℕ ℕ ℕ ℕ ℕ
peers = record {
  chain = outside.chain;
  rewards_http = outside.rewards_http;
  distributor_fetch = outside.distributor_fetch;
  exits_http = outside.exits_http;
  consensus = outside.consensus;
  curve = outside.curve;
  codec = outside.codec;
  graph_node = outside.graph_node;
  floats = outside.floats;
  force_graph = outside.force_graph;
  force_chain = outside.force_chain;
  ltv_graph = outside.ltv_graph;
  ltv_chain = outside.ltv_chain;
  clients = outside.clients;
  handles = handles;
  metrics_server = outside.metrics_server;
  interrupted = outside.interrupted;
  time = outside.time;
  handler_sleep = outside.handler_sleep;
  set_balance = outside.set_balance;
}

abbrev wired_start : Sys (Memory ℕ) (Sys Manager ℕ)
wired_start = record { mem = start.mem; env = record { mem = manager; env = 0 } }

main-IsSafe_example :
    All
      (IsSafe 1000)
      (after (
        main
          (wired peers views node manager_settings price_config 7)
          settings
          4
          wired_start)).env.mem.sent
main-IsSafe_example =
    main-IsSafe peers views node manager_settings price_config 7 settings 4 wired_start refl refl

disconnects : Disconnects (λ w. 98 ≤ w) (λ w. 99 ≤ w) (λ w. 100 ≤ w) handles
disconnects = record {
  consensus = λ v. (98, refl, omega arith);
  execution = λ v a. (99, refl, omega arith, omega arith);
  graph = λ v a b. (100, refl, omega arith, omega arith, omega arith);
}

main_closed_example :
    AreClosed
      (λ w. 98 ≤ w)
      (λ w. 99 ≤ w)
      (λ w. 100 ≤ w)
      (after (
        main
          (wired peers views node manager_settings price_config 7)
          settings
          4
          wired_start)).env.env
main_closed_example =
    main_closed (λ w. 98 ≤ w) (λ w. 99 ≤ w) (λ w. 100 ≤ w) peers disconnects views node
      manager_settings price_config 7 settings 4 wired_start
