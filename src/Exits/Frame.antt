-- ===== src/Exits/Frame.antt =====
-- What the calls of the exits' service keep, a run of the service keeps.
use v3_keeper.Base.{
  or_raise, value_error, key_error, lookup, erase, pure, ◌>>=◌, if◌then◌else◌, Keeps-or_raise, ℕ,
  List, [], ◌∷◌, Option, none, some, Text, is_exception, settle, Settled, value, failure, Keeps,
  Keeps-then, Keeps-pure, Keeps-raise, Keeps-if, Keeps-settle, keeps_rules,
}
use v3_keeper.Config.{Oracle}
use v3_keeper.Rewards.Fetch.Frame.{successes-Keeps}
use v3_keeper.Exits.{
  ValidatorExitShare, ExitItem, Http, Validator, Consensus, Curve, is_response_error, is_exiting,
  read_share, fetch_exit_shares_from_endpoint, first_shares, fetch_exit_shares_from_oracle,
  fetch_validator_exits, coefficient, combine, reconstruct_shared_bls_signature, remove_exiting,
  remove_batches, drop_exited, submit_signature, process_exit, process_exits,
}

-- The calls of the endpoints keep `R`.
pub record HttpKept {W : Type 0} (R : W → Type 0) (http : Http W) : Type 0 where
  pub fetch : (url : Text) → Keeps R (http.fetch url)

-- Those of the consensus node do.
pub record ConsensusKept {W : Type 0} (R : W → Type 0) (consensus : Consensus W) : Type 0 where
  pub head_slot : Keeps R consensus.head_slot
  pub get_validators_by_ids :
      (ids : List ℕ) (slot : ℕ) → Keeps R (consensus.get_validators_by_ids ids slot)
  pub submit_voluntary_exit :
      (index : ℕ) (signature : Text) → Keeps R (consensus.submit_voluntary_exit index signature)

module _ {W : Type 0} {R : W → Type 0} (http : Http W) (http_kept : HttpKept R http) where
  fields-Keeps :
      (oracle_index : ℕ) (index : Option ℕ) (share : Option Text)
      → Keeps R
          (read_share http oracle_index (record { index = index; exit_signature_share = share }))
  unfolding read_share
  fields-Keeps oracle_index none share = Keeps-raise _
  fields-Keeps oracle_index (some index) none = Keeps-raise _
  fields-Keeps oracle_index (some index) (some share) = search keeps_rules depth 20

  read_share-Keeps :
      (oracle_index : ℕ) (item : ExitItem) → Keeps R (read_share http oracle_index item)
  read_share-Keeps oracle_index item =
      fields-Keeps oracle_index item.index item.exit_signature_share

  endpoint-Keeps :
      (oracle_index : ℕ) (endpoint : Text)
      → Keeps R (fetch_exit_shares_from_endpoint http oracle_index endpoint)
  unfolding fetch_exit_shares_from_endpoint
  endpoint-Keeps oracle_index endpoint =
      search (keeps_rules, HttpKept.fetch, read_share-Keeps) depth 20

  first_shares-Keeps :
      (results : List (Settled (List ValidatorExitShare))) → Keeps R (first_shares http results)
  unfolding first_shares
  first_shares-Keeps [] = Keeps-pure []
  first_shares-Keeps (value [] ∷ results) = first_shares-Keeps results
  first_shares-Keeps (value (s ∷ shares) ∷ results) = Keeps-pure (s ∷ shares)
  first_shares-Keeps (failure e ∷ results) =
      Keeps-if (is_exception e) _ _ (first_shares-Keeps results) (Keeps-raise e)

  oracle-Keeps : (o : ℕ × Oracle) → Keeps R (fetch_exit_shares_from_oracle http o)
  unfolding fetch_exit_shares_from_oracle
  oracle-Keeps (oracle_index, oracle) =
      search (keeps_rules, endpoint-Keeps, first_shares-Keeps) depth 20

  fetch-Keeps : (oracles : List Oracle) → Keeps R (fetch_validator_exits http oracles)
  unfolding fetch_validator_exits
  fetch-Keeps oracles = search (keeps_rules, oracle-Keeps, successes-Keeps) depth 20

module _ {G W : Type 0} {R : W → Type 0} (curve : Curve G) where
  combine-Keeps :
      (js : List ℕ) (r : G) (signatures : List (ℕ × Text)) → Keeps R (combine curve js r signatures)
  unfolding combine
  combine-Keeps js r [] = Keeps-pure r
  combine-Keeps js r ((i, sig) ∷ signatures) =
      Keeps-then (or_raise (value_error "invalid signature") (curve.signature_to_point sig)) _
        (Keeps-or_raise _ _)
        (λ sig_point.
          combine-Keeps js (curve.add r (curve.multiply sig_point (coefficient curve i 1 js)))
            signatures)

  reconstruct-Keeps :
      (signatures : List (ℕ × Text)) → Keeps R (reconstruct_shared_bls_signature curve signatures)
  unfolding reconstruct_shared_bls_signature
  reconstruct-Keeps signatures = search (keeps_rules, combine-Keeps)

module _ {W : Type 0} {R : W → Type 0} (consensus : Consensus W)
    (consensus_kept : ConsensusKept R consensus) where
  removal-Keeps :
      (v : Validator) (exits : List (ℕ × List ValidatorExitShare))
      → Keeps R (
          if is_exiting v.status
          then (do shares ← or_raise key_error (lookup v.index exits); pure (erase v.index exits))
          else pure exits)
  removal-Keeps v exits = search keeps_rules depth 20

  remove_exiting-Keeps :
      (validators : List Validator) (exits : List (ℕ × List ValidatorExitShare))
      → Keeps R (remove_exiting consensus validators exits)
  unfolding remove_exiting
  remove_exiting-Keeps [] exits = Keeps-pure exits
  remove_exiting-Keeps (v ∷ validators) exits =
      Keeps-then _ _ (removal-Keeps v exits) (λ rest. remove_exiting-Keeps validators rest)

  remove_batches-Keeps :
      (slot : ℕ) (batches : List (List ℕ)) (exits : List (ℕ × List ValidatorExitShare))
      → Keeps R (remove_batches consensus slot batches exits)
  unfolding remove_batches
  remove_batches-Keeps slot [] exits = Keeps-pure exits
  remove_batches-Keeps slot (batch ∷ batches) exits =
      Keeps-then (consensus.get_validators_by_ids batch slot) _
        (consensus_kept.get_validators_by_ids batch slot)
        (λ validators.
          Keeps-then (remove_exiting consensus validators exits) _
            (remove_exiting-Keeps validators exits)
            (λ rest. remove_batches-Keeps slot batches rest))

  drop_exited-Keeps :
      (chunk_size slot : ℕ) (exits : List (ℕ × List ValidatorExitShare))
      → Keeps R (drop_exited consensus chunk_size slot exits)
  unfolding drop_exited
  drop_exited-Keeps chunk_size slot exits = search (keeps_rules, remove_batches-Keeps)

  submit_signature-Keeps :
      (index : ℕ) (signature : Text) → Keeps R (submit_signature consensus index signature)
  unfolding submit_signature
  submit_signature-Keeps index signature =
      Keeps-then (settle (consensus.submit_voluntary_exit index signature)) _
        (Keeps-settle (consensus.submit_voluntary_exit index signature)
          (consensus_kept.submit_voluntary_exit index signature))
        (elim [
          | value done ↦ Keeps-pure _
          | failure e ↦ Keeps-if (is_response_error consensus e) _ _ (Keeps-pure _) (Keeps-raise e)
        ])

  module _ {G : Type 0} (curve : Curve G) where
    process_exit-Keeps :
        (threshold : ℕ) (e : ℕ × List ValidatorExitShare)
        → Keeps R (process_exit curve consensus threshold e)
    unfolding process_exit
    process_exit-Keeps threshold (index, shares) =
        search (keeps_rules, reconstruct-Keeps, submit_signature-Keeps) depth 20

    module _ (http : Http W) (http_kept : HttpKept R http) where
      -- What each call of the endpoints and of the consensus node keeps, a run keeps.
      pub process_exits-Keeps :
          (chunk_size threshold : ℕ) (oracles : List Oracle)
          → Keeps R (process_exits curve consensus http chunk_size threshold oracles)
      unfolding process_exits
      process_exits-Keeps chunk_size threshold oracles =
          search (keeps_rules, fetch-Keeps, drop_exited-Keeps, process_exit-Keeps) depth 20
