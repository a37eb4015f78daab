-- ===== src/Price/Waiting.antt =====
-- When the price is synced, and when the service waits.
use v3_keeper.Base.{
  ℕ, ◌+◌, ◌≤◌, ◌<◌, ◌≡◌, ◌≢◌, refl, ltb, ◌==◌, true, false, Option, none, some, done, raised, Sys,
  runtime_error, arith, Bool-cases, inl, inr,
}
use v3_keeper.State.{AppState}
use v3_keeper.Price.{
  Settings, Feed, is_waiting, expire, set_price, finish, sync, wait_or_sync,
  process_layer_two_oseth_price,
}

is_waiting-expire :
    (max_waiting_time later : ℕ) (last : Option ℕ)
    → is_waiting max_waiting_time later (expire last) ≡ false
is_waiting-expire max_waiting_time later none = refl
is_waiting-expire max_waiting_time later (some t) = elim (Bool-cases (t == 0)) [
  | inl zeroed ↦ rw (zeroed, zeroed) refl
  | inr set ↦ rw set refl
]

module _ {R W : Type 0} (feed : Feed R W) (settings : Settings) where
  -- While a sync is waited for, a run only reads the target's timestamp and the clock.
  process_layer_two_oseth_price_waiting :
      (s : Sys AppState W) (latest now t : ℕ) (v w : W)
      → feed.latest_timestamp s.env ≡ done latest v
      → feed.time v ≡ done now w
      → s.mem.last_price_updated_timestamp ≡ some t
      → t ≢ 0
      → now < t + settings.max_waiting_time
      → process_layer_two_oseth_price feed settings s ≡ done tt (record s { env = w })
  unfolding process_layer_two_oseth_price wait_or_sync
  process_layer_two_oseth_price_waiting s latest now t v w read clock last nonzero early =
      let set : (t == 0) ≡ false = ground arith in
      let soon : ltb now (t + settings.max_waiting_time) ≡ true = ground arith in
      rw (read, clock)
        (elim (Bool-cases (ltb now (latest + settings.update_interval))) [
          | inl fresh ↦ rw fresh refl
          | inr due ↦ rw (due, last, set, soon) refl
        ])

  -- A run that is due, waits for no sync and gets a receipt records the time of the clock after it.
  process_layer_two_oseth_price_synced :
      (s : Sys AppState W) (latest now rate t : ℕ) (receipt : R) (v w x y z : W)
      → feed.latest_timestamp s.env ≡ done latest v
      → feed.time v ≡ done now w
      → latest + settings.update_interval ≤ now
      → is_waiting settings.max_waiting_time now s.mem.last_price_updated_timestamp ≡ false
      → feed.quote_rate w ≡ done rate x
      → feed.sync_rate rate x ≡ done (some receipt) y
      → feed.time y ≡ done t z
      → process_layer_two_oseth_price feed settings s
        ≡ done tt (record { mem = set_price (some t) s.mem; env = z })
  unfolding process_layer_two_oseth_price wait_or_sync sync finish
  process_layer_two_oseth_price_synced s latest now rate t receipt v w x y z read clock due idle
        quoted sent after =
      let due_test : ltb now (latest + settings.update_interval) ≡ false = ground arith in
      rw (read, clock, due_test, idle, quoted, sent, after) refl

  -- If a run is due, waits for no sync and gets a receipt, then it records the time `t` of the clock and
  -- changes nothing else of the state, and if `t` is not 0, a second run within the waiting time from `t` on,
  -- where both reads answer, only reads the target's timestamp and the clock, whatever the timestamp is by then.
  pub process_layer_two_oseth_price_once :
      (s : Sys AppState W) (latest now rate t latest2 now2 : ℕ) (receipt : R) (v w x y z v2 w2 : W)
      → feed.latest_timestamp s.env ≡ done latest v
      → feed.time v ≡ done now w
      → latest + settings.update_interval ≤ now
      → is_waiting settings.max_waiting_time now s.mem.last_price_updated_timestamp ≡ false
      → feed.quote_rate w ≡ done rate x
      → feed.sync_rate rate x ≡ done (some receipt) y
      → feed.time y ≡ done t z
      → t ≢ 0
      → feed.latest_timestamp z ≡ done latest2 v2
      → feed.time v2 ≡ done now2 w2
      → now2 < t + settings.max_waiting_time
      → let mem : AppState = record s.mem { last_price_updated_timestamp = some t } in
        (process_layer_two_oseth_price feed settings s ≡ done tt (record { mem = mem; env = z }))
        × (process_layer_two_oseth_price feed settings (record { mem = mem; env = z })
            ≡ done tt (record { mem = mem; env = w2 }))
  process_layer_two_oseth_price_once s latest now rate t latest2 now2 receipt v w x y z v2 w2 read
        clock due idle quoted sent after nonzero read2 clock2 early =
      let u : Sys AppState W = record { mem = set_price (some t) s.mem; env = z } in
      (
        process_layer_two_oseth_price_synced s latest now rate t receipt v w x y z read clock due
            idle quoted sent after,
        process_layer_two_oseth_price_waiting u latest2 now2 t v2 w2 read2 clock2 refl nonzero
            early,
      )

  -- If a run is due, waits for no sync and gets no receipt, it raises and waits for nothing, so that the
  -- next run that is due tries again.
  pub process_layer_two_oseth_price_failed :
      (s : Sys AppState W) (latest now rate : ℕ) (v w x y : W)
      → feed.latest_timestamp s.env ≡ done latest v
      → feed.time v ≡ done now w
      → latest + settings.update_interval ≤ now
      → is_waiting settings.max_waiting_time now s.mem.last_price_updated_timestamp ≡ false
      → feed.quote_rate w ≡ done rate x
      → feed.sync_rate rate x ≡ done none y
      → (u : Sys AppState W) × (process_layer_two_oseth_price feed settings s
          ≡ raised (runtime_error "Sync transaction failed") u)
        × ((later : ℕ)
            → is_waiting settings.max_waiting_time later u.mem.last_price_updated_timestamp ≡ false)
  unfolding process_layer_two_oseth_price wait_or_sync sync finish
  process_layer_two_oseth_price_failed s latest now rate v w x y read clock due idle quoted failed =
      let due_test : ltb now (latest + settings.update_interval) ≡ false = ground arith in
      let last = s.mem.last_price_updated_timestamp in
      (
        record { mem = set_price (expire last) s.mem; env = y },
        rw (read, clock, due_test, idle, quoted, failed) refl,
        λ later. is_waiting-expire settings.max_waiting_time later last,
      )
