-- ===== src/Exits.antt =====
-- exits/service.py, crypto.py and typings.py: the exits that the oracles have signed, and the signatures that are
-- combined of their shares. The consensus node, HTTP, the curve and the chain's head are parameters.
pub mod Shares
pub mod Exited
pub mod Frame
mod Examples
use v3_keeper.Base.{
  batched_onto, ℕ, zero, suc, ◌+◌, ◌-◌, ◌*◌, ◌%◌, ltb, ◌==◌, Bool, true, false, length,
  if◌then◌else◌, List, [], ◌∷◌, ◌++◌, map, Option, none, some, Text, Exn, response_error,
  is_exception, lookup, insert, erase, keys, M, pure, raise, or_raise, ◌>>=◌, ◌>>◌, then_do,
  traverse, for_each, gather, settle, settle_task, Settled, value, failure, runtime_error,
  value_error, key_error,
}
use v3_keeper.Config.{Oracle}
use v3_keeper.Rewards.Fetch.{successes}

pub record ValidatorExitShare : Type 0 where
  pub validator_index : ℕ
  pub exit_signature_share : Text
  pub share_index : ℕ

-- An entry of an oracle's answer, `none` for a missing key.
pub record ExitItem : Type 0 where
  pub index : Option ℕ
  pub exit_signature_share : Option Text

pub record Http (W : Type 0) : Type 0 where
  pub fetch : Text → M W (List ExitItem)
  pub to_bytes : Text → Option Text

module _ {W : Type 0} (http : Http W) where
  pub read_share : ℕ → ExitItem → M W ValidatorExitShare
  read_share oracle_index item = go item.index item.exit_signature_share
    where
      go : Option ℕ → Option Text → M W ValidatorExitShare
      go (some index) (some share) = do
        bytes ← or_raise (value_error "Non-hexadecimal digit found") (http.to_bytes share)
        pure (record {
          validator_index = index;
          exit_signature_share = bytes;
          share_index = oracle_index;
        })
      go _ _ = raise (runtime_error "Invalid response from endpoint")

  pub fetch_exit_shares_from_endpoint : ℕ → Text → M W (List ValidatorExitShare)
  unfolding read_share
  fetch_exit_shares_from_endpoint oracle_index endpoint = do
    answer ← http.fetch endpoint
    traverse (read_share oracle_index) answer

  -- The first answer that is not empty.
  pub first_shares : List (Settled (List ValidatorExitShare)) → M W (List ValidatorExitShare)
  first_shares [] = pure []
  first_shares (value [] ∷ results) = first_shares results
  first_shares (value (s ∷ shares) ∷ results) = pure (s ∷ shares)
  first_shares (failure e ∷ results) = if is_exception e then first_shares results else raise e

  pub fetch_exit_shares_from_oracle : ℕ × Oracle → M W (List ValidatorExitShare)
  unfolding fetch_exit_shares_from_endpoint first_shares
  fetch_exit_shares_from_oracle (oracle_index, oracle) = do
    results ←
        gather (λ endpoint. settle_task (fetch_exit_shares_from_endpoint oracle_index endpoint))
          oracle.endpoints
    first_shares results

-- `enumerate(xs)`, from a number on.
pub enumerate_from {ℓ} : {A : Type ℓ} → ℕ → List A → List (ℕ × A)
enumerate_from n [] = []
enumerate_from n (x ∷ xs) = (n, x) ∷ enumerate_from (n + 1) xs

abbrev pub or_nil : {A : Type 0} → Option (List A) → List A
or_nil none = []
or_nil (some xs) = xs

-- `validator_exits[validator_exit.validator_index].append(validator_exit)` on a `defaultdict(list)`.
abbrev pub add_share :
    ValidatorExitShare → List (ℕ × List ValidatorExitShare) → List (ℕ × List ValidatorExitShare)
add_share s exits =
    insert s.validator_index (or_nil (lookup s.validator_index exits) ++ (s ∷ [])) exits

pub add_shares :
    List ValidatorExitShare
    → List (ℕ × List ValidatorExitShare)
    → List (ℕ × List ValidatorExitShare)
add_shares [] exits = exits
add_shares (s ∷ shares) exits = add_shares shares (add_share s exits)

pub add_results :
    List (List ValidatorExitShare)
    → List (ℕ × List ValidatorExitShare)
    → List (ℕ × List ValidatorExitShare)
unfolding add_shares
add_results [] exits = exits
add_results (shares ∷ results) exits = add_results results (add_shares shares exits)

unfoldable pub fetch_validator_exits :
    {W : Type 0} → Http W → List Oracle → M W (List (ℕ × List ValidatorExitShare))
unfolding fetch_exit_shares_from_oracle successes add_results enumerate_from
fetch_validator_exits http oracles = do
  results ←
      gather (λ o. settle_task (fetch_exit_shares_from_oracle http o)) (enumerate_from 0 oracles)
  shares ← successes results
  pure (add_results shares [])

-- `ValidatorStatus`, with the statuses of EXITING_STATUSES by name.
pub data Status : Type 0 where
  active_exiting : Status
  exited_unslashed : Status
  exited_slashed : Status
  withdrawal_possible : Status
  withdrawal_done : Status
  another : Status

abbrev pub is_exiting : Status → Bool
is_exiting another = false
is_exiting status = true

-- An entry of the consensus node's answer, its index as a number.
pub record Validator : Type 0 where
  pub index : ℕ
  pub status : Status

-- `consensus_client`; `head_slot` is the slot of `get_chain_latest_head`.
pub record Consensus (W : Type 0) : Type 0 where
  pub head_slot : M W ℕ
  pub get_validators_by_ids : List ℕ → ℕ → M W (List Validator)
  pub submit_voluntary_exit : ℕ → Text → M W (Unit {0})

-- What py_ecc gives: the points of the curve, and `difference_inv i j`, the inverse of `i - j` modulo PRIME.
pub record Curve (G : Type 0) : Type 0 where
  pub prime : ℕ
  pub infinity : G
  pub add : G → G → G
  pub multiply : G → ℕ → G
  pub difference_inv : ℕ → ℕ → ℕ
  pub signature_to_point : Text → Option G
  pub point_to_signature : G → Text

-- `-a % p`
abbrev pub neg_mod : ℕ → ℕ → ℕ
neg_mod p a = (p - a % p) % p

module _ {G : Type 0} (curve : Curve G) where
  -- The inner loop of `reconstruct_shared_bls_signature`.
  pub coefficient : ℕ → ℕ → List ℕ → ℕ
  coefficient i coef [] = coef
  coefficient i coef (j ∷ js) =
      coefficient i
        (if j == i then coef else neg_mod curve.prime (coef * (j + 1) * curve.difference_inv i j))
        js

  -- The outer loop.
  pub combine : {W : Type 0} → List ℕ → G → List (ℕ × Text) → M W G
  unfolding coefficient
  combine js r [] = pure r
  combine js r ((i, sig) ∷ signatures) = do
    sig_point ← or_raise (value_error "invalid signature") (curve.signature_to_point sig)
    combine js (curve.add r (curve.multiply sig_point (coefficient i 1 js))) signatures

  unfoldable pub reconstruct_shared_bls_signature : {W : Type 0} → List (ℕ × Text) → M W Text
  unfolding combine
  reconstruct_shared_bls_signature signatures = do
    r ← combine (keys signatures) curve.infinity signatures
    pure (curve.point_to_signature r)

-- The dictionary of the shares' signatures by their index, onto what is there.
pub signatures_onto : List (ℕ × Text) → List ValidatorExitShare → List (ℕ × Text)
signatures_onto signatures [] = signatures
signatures_onto signatures (s ∷ shares) =
    signatures_onto (insert s.share_index s.exit_signature_share signatures) shares

module _ {W : Type 0} (consensus : Consensus W) where
  -- `del validator_exits[index]` for each validator that is exiting.
  pub remove_exiting :
      List Validator → List (ℕ × List ValidatorExitShare) → M W (List (ℕ × List ValidatorExitShare))
  remove_exiting [] exits = pure exits
  remove_exiting (v ∷ validators) exits = do
    rest ←
        if is_exiting v.status
        then (do shares ← or_raise key_error (lookup v.index exits); pure (erase v.index exits))
        else pure exits
    remove_exiting validators rest

  pub remove_batches :
      ℕ
      → List (List ℕ)
      → List (ℕ × List ValidatorExitShare)
      → M W (List (ℕ × List ValidatorExitShare))
  unfolding remove_exiting
  remove_batches slot [] exits = pure exits
  remove_batches slot (batch ∷ batches) exits = do
    validators ← consensus.get_validators_by_ids batch slot
    rest ← remove_exiting validators exits
    remove_batches slot batches rest

  unfoldable pub drop_exited :
      ℕ → ℕ → List (ℕ × List ValidatorExitShare) → M W (List (ℕ × List ValidatorExitShare))
  unfolding remove_batches batched_onto
  drop_exited chunk_size slot exits =
      if chunk_size == 0
      then raise (value_error "n must be at least one")
      else remove_batches slot (batched_onto chunk_size [] (keys exits)) exits

  abbrev pub is_response_error : Exn → Bool
  is_response_error response_error = true
  is_response_error e = false

  -- The answer only decides what is logged; `aiohttp.ClientResponseError` is handled.
  pub submit_signature : ℕ → Text → M W Bool
  submit_signature validator_index exit_signature = do
    result ← settle (consensus.submit_voluntary_exit validator_index exit_signature)
    elim result [
      | value done ↦ pure true
      | failure e ↦ if is_response_error e then pure false else raise e
    ]

module _ {G W : Type 0} (curve : Curve G) (consensus : Consensus W) where
  -- A round of the loop of `process_exits`.
  pub process_exit : ℕ → ℕ × List ValidatorExitShare → M W (Unit {0})
  unfolding submit_signature signatures_onto
  process_exit threshold (validator_index, shares) =
      if ltb (length shares) threshold then pure tt else (do
        exit_signature ← reconstruct_shared_bls_signature curve (signatures_onto [] shares)
        submitted ← submit_signature consensus validator_index exit_signature
        pure tt)

  unfoldable pub process_exits : Http W → ℕ → ℕ → List Oracle → M W (Unit {0})
  unfolding process_exit
  process_exits http chunk_size threshold oracles = do
    slot ← consensus.head_slot
    validator_exits ← fetch_validator_exits http oracles
    waiting ← drop_exited consensus chunk_size slot validator_exits
    for_each (process_exit threshold) waiting
