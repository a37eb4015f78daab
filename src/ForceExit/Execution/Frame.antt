-- ===== src/ForceExit/Execution/Frame.antt =====
-- What the calls of the contracts keep, the checks and the transactions of the strategies keep.
use v3_keeper.Base.{
  ℕ, List, [], ◌∷◌, Option, none, some, Text, is_exception, settle, value, failure, Keeps,
  Keeps-then, Keeps-settle, Keeps-pure, Keeps-raise, Keeps-if, keeps_rules,
}
use v3_keeper.Graph.{HarvestParams}
use v3_keeper.ForceExit.{ExitRequest}
use v3_keeper.ForceExit.Execution.{
  StrategyCall, Contracts, last_answer, update_calls, can_force_enter_exit_queue, send,
  claim_exited_assets, force_enter_exit_queue,
}

-- The calls of the contracts keep `R`.
pub record ContractsKept {W : Type 0} (R : W → Type 0) (contracts : Contracts W) : Type 0 where
  pub can_harvest :
      (vault : Text) (block_number : ℕ) → Keeps R (contracts.can_harvest vault block_number)
  pub aggregate :
      (calls : List (Text × StrategyCall)) (block_number : ℕ)
      → Keeps R (contracts.aggregate calls block_number)
  pub transact : (calls : List (Text × StrategyCall)) → Keeps R (contracts.transact calls)

module _ {W : Type 0} {R : W → Type 0} (contracts : Contracts W)
    (contracts_kept : ContractsKept R contracts) (block_number : ℕ) where
  last_answer-Keeps :
      (updates : List (Text × StrategyCall)) (answers : List Text)
      → Keeps R (last_answer updates answers)
  last_answer-Keeps updates [] = Keeps-raise _
  last_answer-Keeps [] (a ∷ answers) = Keeps-pure a
  last_answer-Keeps (u ∷ updates) (a ∷ []) = Keeps-raise _
  last_answer-Keeps (u ∷ updates) (a ∷ b ∷ answers) = Keeps-pure b

  updates-Keeps :
      (strategy vault : Text) (params : Option HarvestParams)
      → Keeps R (update_calls contracts block_number strategy vault params)
  unfolding update_calls
  updates-Keeps strategy vault none = Keeps-pure []
  updates-Keeps strategy vault (some params) = search (keeps_rules, ContractsKept.can_harvest)

  pub can_enter-Keeps :
      (strategy vault user : Text) (params : Option HarvestParams)
      → Keeps R (can_force_enter_exit_queue contracts block_number strategy vault user params)
  unfolding can_force_enter_exit_queue
  can_enter-Keeps strategy vault user params =
      search (keeps_rules, updates-Keeps, ContractsKept.aggregate, last_answer-Keeps) depth 20

  send-Keeps : (calls : List (Text × StrategyCall)) → Keeps R (send contracts block_number calls)
  unfolding send
  send-Keeps calls =
      Keeps-then (settle (contracts.transact calls)) _
        (Keeps-settle (contracts.transact calls) (contracts_kept.transact calls))
        (elim [
          | value hash ↦ Keeps-pure hash
          | failure e ↦ Keeps-if (is_exception e) _ _ (Keeps-pure none) (Keeps-raise e)
        ])

  pub claim-Keeps :
      (strategy vault user : Text) (request : ExitRequest) (params : Option HarvestParams)
      → Keeps R (claim_exited_assets contracts block_number strategy vault user request params)
  unfolding claim_exited_assets
  claim-Keeps strategy vault user request params = search (keeps_rules, updates-Keeps, send-Keeps)

  pub enter-Keeps :
      (strategy vault user : Text) (params : Option HarvestParams)
      → Keeps R (force_enter_exit_queue contracts block_number strategy vault user params)
  unfolding force_enter_exit_queue
  enter-Keeps strategy vault user params = search (keeps_rules, updates-Keeps, send-Keeps)
