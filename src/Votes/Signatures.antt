-- ===== src/Votes/Signatures.antt =====
-- The loop that collects signatures: over the sorted votes, those for the winner, until there are as
-- many as the threshold (rewards/service.py lines 93-101, distributor/service.py lines 63-70).
pub mod Laws
use v3_keeper.Base.{ℕ, ◌+◌, leb, Bool, if◌then◌else◌, List, [], ◌∷◌, ◌++◌}

module _ {V : Type 0} (for_winner : V → Bool) where
  -- The votes whose signatures are taken, in order, after `taken` others.
  pub collect : ℕ → ℕ → List V → List V
  collect threshold taken [] = []
  collect threshold taken (v ∷ votes) =
      let kept = v ∷ collect threshold (taken + 1) votes in
      let passed = collect threshold taken votes in
      if leb threshold taken then [] else if for_winner v then kept else passed
