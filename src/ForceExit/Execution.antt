-- ===== src/ForceExit/Execution.antt =====
-- force_exit/execution.py: the checks and the transactions of the leverage strategies. A call that is encoded
-- for a contract is a value of `StrategyCall`.
pub mod Frame
use v3_keeper.Base.{
  ℕ, ◌==◌, not, Bool, List, [], ◌∷◌, ◌++◌, Option, none, some, ℤ, Text, is_exception, M, pure,
  raise, ◌>>=◌, settle, value, failure, index_error, if◌then◌else◌,
}
use v3_keeper.Graph.{HarvestParams}
use v3_keeper.ForceExit.{ExitRequest}

-- `encode_abi` of a leverage strategy: the function and its arguments.
pub data StrategyCall : Type 0 where
  update_vault_state : Text → HarvestParams → StrategyCall
  can_force_enter : Text → Text → StrategyCall
  claim_exited : Text → Text → ℤ → ℤ → Option ℤ → StrategyCall
  force_enter : Text → Text → StrategyCall

-- The keeper contract, the multicall contract and the transaction manager. `aggregate` reads at a block,
-- `transact` sends the calls in one transaction and returns the hash of its receipt; `to_int` is
-- `Web3.to_int` of the bytes of an answer.
pub record Contracts (W : Type 0) : Type 0 where
  pub can_harvest : Text → ℕ → M W Bool
  pub aggregate : List (Text × StrategyCall) → ℕ → M W (List Text)
  pub transact : List (Text × StrategyCall) → M W (Option Text)
  pub to_int : Text → ℕ

-- `response.pop(0)` for the update, if there was one, and then the answer.
abbrev pub last_answer : {W : Type 0} → List (Text × StrategyCall) → List Text → M W Text
last_answer updates [] = raise index_error
last_answer [] (a ∷ response) = pure a
last_answer (u ∷ updates) (a ∷ []) = raise index_error
last_answer (u ∷ updates) (a ∷ b ∷ response) = pure b

module _ {W : Type 0} (contracts : Contracts W) (block_number : ℕ) where
  -- The calls that bring the vault's state up to date, if it can be harvested.
  unfoldable pub update_calls :
      Text → Text → Option HarvestParams → M W (List (Text × StrategyCall))
  update_calls strategy vault none = pure []
  update_calls strategy vault (some params) = do
    due ← contracts.can_harvest vault block_number
    pure (if due then (strategy, update_vault_state vault params) ∷ [] else [])

  unfoldable pub can_force_enter_exit_queue : Text → Text → Text → Option HarvestParams → M W Bool
  unfolding update_calls
  can_force_enter_exit_queue strategy vault user harvest_params = do
    updates ← update_calls strategy vault harvest_params
    response ←
        contracts.aggregate (updates ++ ((strategy, can_force_enter vault user) ∷ [])) block_number
    answer ← last_answer updates response
    pure (not (contracts.to_int answer == 0))

  -- `except Exception` returns `None`, and so does a transaction that is not confirmed.
  pub send : List (Text × StrategyCall) → M W (Option Text)
  send calls = do
    result ← settle (contracts.transact calls)
    elim result [
      | value hash ↦ pure hash
      | failure e ↦ if is_exception e then pure none else raise e
    ]

  unfoldable pub claim_exited_assets :
      Text → Text → Text → ExitRequest → Option HarvestParams → M W (Option Text)
  unfolding update_calls send
  claim_exited_assets strategy vault user request harvest_params = do
    updates ← update_calls strategy vault harvest_params
    send (
        updates
        ++ ((
          strategy,
          claim_exited vault user request.position_ticket request.timestamp
              request.exit_queue_index,
        )
            ∷ []))

  unfoldable pub force_enter_exit_queue :
      Text → Text → Text → Option HarvestParams → M W (Option Text)
  unfolding update_calls send
  force_enter_exit_queue strategy vault user harvest_params = do
    updates ← update_calls strategy vault harvest_params
    send (updates ++ ((strategy, force_enter vault user) ∷ []))
