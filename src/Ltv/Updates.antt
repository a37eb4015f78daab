-- ===== src/Ltv/Updates.antt =====
-- When the time of an update is recorded.
use v3_keeper.Base.{ℕ, ◌≡◌, Exn, raised, Sys, arith}
use v3_keeper.State.{AppState}
use v3_keeper.Graph.{Codec, GraphNode}
use v3_keeper.Ltv.{LtvGraph, Tracker, Chain, update_ltv, process_vault_max_ltv_user}

module _ {W : Type 0} (codec : Codec) (node : GraphNode W) (graph : LtvGraph W)
    (tracker : Tracker W) where
  -- A run that raises records no time, so that the next run tries again.
  pub process_vault_max_ltv_user_raised :
      (chain : Chain W) (interval : ℕ) (s t : Sys AppState W) (x : Exn)
      → process_vault_max_ltv_user codec node graph tracker chain interval s ≡ raised x t
      → t.mem ≡ s.mem
  unfolding process_vault_max_ltv_user update_ltv
  process_vault_max_ltv_user_raised chain interval s t x h = ground arith
