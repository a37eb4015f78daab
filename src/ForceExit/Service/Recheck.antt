-- ===== src/ForceExit/Service/Recheck.antt =====
-- The second check of `handle_leverage_position` reads the same block as the first.
use v3_keeper.Base.{
  ℕ, ◌==◌, not, ◌≡◌, refl, ◌⊎◌, inl, inr, Bool, true, false, Bool-cases, if◌then◌else◌, List, [],
  ◌∷◌, ◌++◌, Option, none, some, Text, Exn, index_error, done, raised, M, pure, then_do_ext, ◌>>=◌,
}
use v3_keeper.Graph.{HarvestParams, Codec}
use v3_keeper.ForceExit.{ExitRequest, LeveragePosition, is_fully_claimable}
use v3_keeper.ForceExit.Execution.{
  StrategyCall, update_vault_state, can_force_enter, Contracts, last_answer, update_calls,
  can_force_enter_exit_queue, claim_exited_assets, force_enter_exit_queue,
}
use v3_keeper.ForceExit.Service.{
  Registry, get_leverage_strategy_contract, recheck_and_enter, after_claim, claim_and_enter,
  handle_leverage_position,
}

-- A read at a fixed block: it raises, or it answers the same whatever the world.
abbrev Settles : {A W : Type 0} → M W A → W → Type 0
Settles {A} {W} m w = ((e : Exn) × (m w ≡ raised e w)) ⊎ ((a : A) × ((v : W) → m v ≡ done a v))

last_answer-Settles :
    {W : Type 0} (updates : List (Text × StrategyCall)) (response : List Text) (w : W)
    → Settles (last_answer updates response) w
last_answer-Settles updates [] w = inl (index_error, refl)
last_answer-Settles [] (a ∷ response) w = inr (a, λ v. refl)
last_answer-Settles (u ∷ updates) (a ∷ []) w = inl (index_error, refl)
last_answer-Settles (u ∷ updates) (a ∷ b ∷ response) w = inr (b, λ v. refl)

module _ {W : Type 0} (codec : Codec) (contracts : Contracts W) (registry : Registry W)
    (block_number : ℕ) where
  -- `handle_leverage_position` with no second check.
  abbrev enter : Text → Text → Text → Option HarvestParams → M W (Unit {0})
  enter strategy vault user params = do
    tx_hash ← force_enter_exit_queue contracts block_number strategy vault user params
    pure tt

  abbrev claim_then_enter :
      Text → Text → Text → Option ExitRequest → Option HarvestParams → M W (Unit {0})
  claim_then_enter strategy vault user none params = enter strategy vault user params
  claim_then_enter strategy vault user (some request) params =
      if is_fully_claimable request
      then (do
        tx_hash ← claim_exited_assets contracts block_number strategy vault user request params
        after_claim codec contracts registry block_number (enter strategy vault user params)
            tx_hash)
      else enter strategy vault user params

  abbrev pub handle_once : {F : Type 0} → LeveragePosition F → Option HarvestParams → M W (Unit {0})
  handle_once position params = do
    strategy ← get_leverage_strategy_contract codec contracts registry block_number position.proxy
    can ←
        can_force_enter_exit_queue contracts block_number strategy position.vault position.user
          params
    if can
        then claim_then_enter strategy position.vault position.user position.exit_request params
        else pure tt

module _ {W : Type 0} (codec : Codec) (contracts : Contracts W) (registry : Registry W)
    (block_number : ℕ) (harvest : Text → Bool) (answers : List (Text × StrategyCall) → List Text)
    (harvests : (vault : Text) (w : W)
      → contracts.can_harvest vault block_number w ≡ done (harvest vault) w)
    (reads : (calls : List (Text × StrategyCall)) (w : W)
      → contracts.aggregate calls block_number w ≡ done (answers calls) w) where
  update_calls_reads :
      (strategy vault : Text) (params : Option HarvestParams)
      → (updates : List (Text × StrategyCall)) × ((w : W)
          → update_calls contracts block_number strategy vault params w ≡ done updates w)
  unfolding update_calls
  update_calls_reads strategy vault none = ([], λ w. refl)
  update_calls_reads strategy vault (some params) = (
    if harvest vault then (strategy, update_vault_state vault params) ∷ [] else [],
    λ w. rw (harvests vault w) refl,
  )

  can_force-Settles :
      (strategy vault user : Text) (params : Option HarvestParams) (w : W)
      → Settles (can_force_enter_exit_queue contracts block_number strategy vault user params) w
  unfolding can_force_enter_exit_queue
  can_force-Settles strategy vault user params w =
      let (updates, same) = update_calls_reads strategy vault params in
      let calls = updates ++ ((strategy, can_force_enter vault user) ∷ []) in
      elim (last_answer-Settles updates (answers calls) w) [
        | inl (e, fails) ↦ inl (e, rw (same w, reads calls w, fails) refl)
        | inr (a, answered) ↦
            inr (not (contracts.to_int a == 0), λ v. rw (same v, reads calls v, answered v) refl)
      ]

  recheck-enter :
      (strategy vault user : Text) (params : Option HarvestParams) (w : W)
      → can_force_enter_exit_queue contracts block_number strategy vault user params w ≡ done true w
      → recheck_and_enter codec contracts registry block_number strategy vault user params w
        ≡ enter codec contracts registry block_number strategy vault user params w
  unfolding recheck_and_enter
  recheck-enter strategy vault user params w granted = rw granted refl

  after_claim-granted :
      (strategy vault user : Text) (params : Option HarvestParams)
      → ((w : W)
          → can_force_enter_exit_queue contracts block_number strategy vault user params w
            ≡ done true w)
      → (tx_hash : Option Text) (w : W)
      → after_claim codec contracts registry block_number
          (recheck_and_enter codec contracts registry block_number strategy vault user params)
          tx_hash
          w
        ≡ after_claim codec contracts registry block_number
            (enter codec contracts registry block_number strategy vault user params)
            tx_hash
            w
  after_claim-granted strategy vault user params granted none w = refl
  after_claim-granted strategy vault user params granted (some h) w =
      recheck-enter strategy vault user params w (granted w)

  claim_and_enter-claim_then_enter :
      (strategy vault user : Text) (request : Option ExitRequest) (params : Option HarvestParams)
      (w : W)
      → ((w : W)
          → can_force_enter_exit_queue contracts block_number strategy vault user params w
            ≡ done true w)
      → claim_and_enter codec contracts registry block_number strategy vault user request params w
        ≡ claim_then_enter codec contracts registry block_number strategy vault user request params
            w
  unfolding claim_and_enter
  claim_and_enter-claim_then_enter strategy vault user none params w granted =
      recheck-enter strategy vault user params w (granted w)
  claim_and_enter-claim_then_enter strategy vault user (some request) params w granted =
      elim (Bool-cases (is_fully_claimable request)) [
        | inl full ↦ rw full (
            then_do_ext
              (claim_exited_assets contracts block_number strategy vault user request params w) _ _
              (after_claim-granted strategy vault user params granted))
        | inr part ↦ rw part (recheck-enter strategy vault user params w (granted w))
      ]

  -- If the node answers a read at the run's block by the block alone, the second check of a position
  -- decides nothing: the code is equal to the code without it, whatever the claim has changed.
  pub handle_leverage_position-handle_once :
      {F : Type 0} (position : LeveragePosition F) (params : Option HarvestParams) (w : W)
      → handle_leverage_position codec contracts registry block_number position params w
        ≡ handle_once codec contracts registry block_number position params w
  unfolding handle_leverage_position
  handle_leverage_position-handle_once position params w =
      then_do_ext
        (get_leverage_strategy_contract codec contracts registry block_number position.proxy w) _ _
        (λ strategy v. elim (can_force-Settles strategy position.vault position.user params v) [
          | inl (e, fails) ↦ rw fails refl
          | inr (can, answered) ↦ rw (answered v) (branch strategy can answered v)
        ])
    where
      branch :
          (strategy : Text) (can : Bool)
          → ((v : W)
              → can_force_enter_exit_queue contracts block_number strategy position.vault
                  position.user params v
                ≡ done can v)
          → (v : W)
          → (if can
                then claim_and_enter codec contracts registry block_number strategy position.vault
                    position.user position.exit_request params
                else pure tt)
              v
            ≡ (if can
                  then claim_then_enter codec contracts registry block_number strategy
                      position.vault position.user position.exit_request params
                  else pure tt)
                v
      branch strategy true granted v =
          claim_and_enter-claim_then_enter strategy position.vault position.user
            position.exit_request params v granted
      branch strategy false granted v = refl
