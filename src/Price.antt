-- ===== src/Price.antt =====
-- price/service.py: the sync of the osETH price to another network. The price feeds, the transaction manager
-- and the clock are parameters.
pub mod Waiting
pub mod Frame
mod Examples
use v3_keeper.Base.{
  ℕ, ◌+◌, ltb, ◌==◌, Bool, false, if◌then◌else◌, Option, none, some, M, Sys, ext, gets, modify,
  pure, raise, ◌>>=◌, ◌>>◌, then_do, with_mem, runtime_error,
}
use v3_keeper.State.{AppState}

-- PRICE_UPDATE_INTERVAL and PRICE_MAX_WAITING_TIME.
pub record Settings : Type 0 where
  pub update_interval : ℕ
  pub max_waiting_time : ℕ

-- `R` is the type of receipts. `sync_rate` is `tx_manager.transact` with the rate as the value.
pub record Feed (R W : Type 0) : Type 0 where
  pub latest_timestamp : M W ℕ
  pub time : M W ℕ
  pub quote_rate : M W ℕ
  pub sync_rate : ℕ → M W (Option R)

-- A timestamp of 0 counts as none.
abbrev pub is_waiting : ℕ → ℕ → Option ℕ → Bool
is_waiting max_waiting_time current_time none = false
is_waiting max_waiting_time current_time (some t) =
    if t == 0 then false else ltb current_time (t + max_waiting_time)

abbrev pub expire : Option ℕ → Option ℕ
expire none = none
expire (some t) = if t == 0 then some t else none

abbrev pub set_price : Option ℕ → AppState → AppState
set_price o state = record state { last_price_updated_timestamp = o }

module _ {R W : Type 0} (feed : Feed R W) (settings : Settings) where
  -- The end of step 4.
  pub finish : Option R → M (Sys AppState W) (Unit {0})
  finish none = raise (runtime_error "Sync transaction failed")
  finish (some receipt) = do now ← ext feed.time; modify (set_price (some now))

  -- Steps 3 and 4.
  pub sync : M (Sys AppState W) (Unit {0})
  unfolding finish
  sync = do
    current_rate ← ext feed.quote_rate
    tx_receipt ← ext (feed.sync_rate current_rate)
    finish tx_receipt

  -- From step 2 on.
  pub wait_or_sync : ℕ → M (Sys AppState W) (Unit {0})
  unfolding sync
  wait_or_sync current_time = do
    last ← gets (λ a. a.last_price_updated_timestamp)
    if is_waiting settings.max_waiting_time current_time last
        then pure tt
        else do modify (set_price (expire last)); sync

  unfoldable pub process_layer_two_oseth_price : M (Sys AppState W) (Unit {0})
  unfolding wait_or_sync
  process_layer_two_oseth_price = do
    latest ← ext feed.latest_timestamp
    current_time ← ext feed.time
    if ltb current_time (latest + settings.update_interval)
        then pure tt
        else wait_or_sync current_time
