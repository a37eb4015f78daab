-- ===== src/Price/Examples.antt =====
-- Two runs of the price service, with a clock that ticks when it is read.
use v3_keeper.Base.{ℕ, suc, ◌+◌, ◌≡◌, refl, Option, none, some, arith, Sys, done}
use v3_keeper.State.{AppState}
use v3_keeper.Price.{Settings, Feed, process_layer_two_oseth_price}
use v3_keeper.Price.Waiting.{process_layer_two_oseth_price_once}

abbrev feed : Option ℕ → Feed ℕ ℕ
feed receipt = record {
  latest_timestamp = λ w. done 100 w;
  time = λ w. done (1000 + w) (suc w);
  quote_rate = λ w. done 7 w;
  sync_rate = λ rate w. done receipt w;
}

abbrev settings : Settings
settings = record { update_interval = 50; max_waiting_time = 500 }

abbrev start : Sys AppState ℕ
start = record {
  mem = record {
    last_price_updated_timestamp = none;
    force_exits_updated_timestamp = none;
    ltv_updated_timestamp = none;
  };
  env = 0;
}

abbrev synced : AppState
synced = record {
  last_price_updated_timestamp = some 1001;
  force_exits_updated_timestamp = none;
  ltv_updated_timestamp = none;
}

process_layer_two_oseth_price_once_example :
    (process_layer_two_oseth_price (feed (some 3)) settings start
      ≡ done tt (record { mem = synced; env = 2 }))
    × (process_layer_two_oseth_price (feed (some 3)) settings (record { mem = synced; env = 2 })
        ≡ done tt (record { mem = synced; env = 3 }))
process_layer_two_oseth_price_once_example =
    process_layer_two_oseth_price_once (feed (some 3)) settings start 100 1000 7 1001 100 1002 3 0 1
      1 1 2 2 3 refl refl (omega arith) refl refl refl refl (λ h. absurd (omega arith)) refl refl
      (omega arith)
