-- ===== src/Price/Frame.antt =====
-- What the calls of the price feeds keep, a run of the price's service keeps.
use v3_keeper.Base.{ℕ, Option, none, some, Keeps, Keeps-raise, OnEnv, keeps_rules}
use v3_keeper.State.{AppState}
use v3_keeper.Price.{Feed, Settings, finish, sync, wait_or_sync, process_layer_two_oseth_price}

-- The calls of the feeds and of the clock keep `R`.
pub record Kept {T W : Type 0} (R : W → Type 0) (feed : Feed T W) : Type 0 where
  pub latest_timestamp : Keeps R feed.latest_timestamp
  pub time : Keeps R feed.time
  pub quote_rate : Keeps R feed.quote_rate
  pub sync_rate : (rate : ℕ) → Keeps R (feed.sync_rate rate)

module _ {T W : Type 0} {R : W → Type 0} (feed : Feed T W) (kept : Kept R feed)
    (settings : Settings) where
  finish-Keeps :
      (receipt : Option T) → Keeps (OnEnv {P = AppState} R) (finish feed settings receipt)
  unfolding finish
  finish-Keeps none = Keeps-raise _
  finish-Keeps (some receipt) = search keeps_rules depth 20

  sync-Keeps : Keeps (OnEnv {P = AppState} R) (sync feed settings)
  unfolding sync
  sync-Keeps = search (keeps_rules, Kept.sync_rate, finish-Keeps) depth 20

  -- What each call of the feeds and of the clock keeps, a run keeps.
  pub process_price-Keeps :
      Keeps (OnEnv {P = AppState} R) (process_layer_two_oseth_price feed settings)
  unfolding process_layer_two_oseth_price wait_or_sync
  process_price-Keeps = search (keeps_rules, sync-Keeps) depth 20
