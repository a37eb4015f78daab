-- ===== src/State.antt =====
-- common/app_state.py: what the services remember between the runs of the main loop.
use v3_keeper.Base.{ℕ, ◌+◌, ltb, ◌==◌, Bool, false, if◌then◌else◌, Option, none, some}

pub record AppState : Type 0 where
  pub last_price_updated_timestamp : Option ℕ
  pub force_exits_updated_timestamp : Option ℕ
  pub ltv_updated_timestamp : Option ℕ

-- The test by which a service waits for its interval; a timestamp of 0 counts as none.
abbrev pub is_recent : ℕ → ℕ → Option ℕ → Bool
is_recent interval current_time none = false
is_recent interval current_time (some t) = if t == 0 then false else ltb current_time (t + interval)
