-- ===== src/ForceExit/Service/Timestamp.antt =====
-- When a run of `process_force_exits` counts as done.
use v3_keeper.Base.{ℕ, ◌≡◌, Exn, raised, Sys, arith}
use v3_keeper.State.{AppState}
use v3_keeper.Graph.{Codec, GraphNode}
use v3_keeper.ForceExit.Queries.{Floats, ForceGraph}
use v3_keeper.ForceExit.Execution.{Contracts}
use v3_keeper.ForceExit.Service.{Registry, Chain, run_force_exits, process_force_exits}

module _ {F W : Type 0} (codec : Codec) (node : GraphNode W) (floats : Floats F)
    (graph : ForceGraph W) (contracts : Contracts W) (registry : Registry W) where
  -- A run that raises records no time, so that the next run tries again.
  pub process_force_exits_raised :
      (chain : Chain W) (delta : F) (interval : ℕ) (s t : Sys AppState W) (x : Exn)
      → process_force_exits codec node floats graph contracts registry chain delta interval s
        ≡ raised x t
      → t.mem ≡ s.mem
  unfolding process_force_exits run_force_exits
  process_force_exits_raised chain delta interval s t x h = ground arith
