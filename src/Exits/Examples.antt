-- ===== src/Exits/Examples.antt =====
-- Two oracles that sign the exits of validator 7, and one that signs that of validator 9, which exits already.
use v3_keeper.Base.{
  ℕ, ◌+◌, ◌*◌, ◌%◌, NodupKeys, last?, then_do, Text, Option, none, some, ◌==◌, ◌≡◌, refl,
  if◌then◌else◌, filter, concat, List, [], ◌∷◌, map, lookup, arith, done,
}
use v3_keeper.Exits.{
  ValidatorExitShare, Status, another, exited_slashed, Validator, Consensus, or_nil, add_results,
  Curve, reconstruct_shared_bls_signature, submit_signature, process_exit, drop_exited,
}
use v3_keeper.Exits.Shares.{is_for, add_results-filter, signatures_at, process_exit-last?}
use v3_keeper.Exits.Exited.{stays, drop_exited-filter}

abbrev share : ℕ → ℕ → ValidatorExitShare
share validator oracle = record {
  validator_index = validator;
  exit_signature_share = oracle ∷ [];
  share_index = oracle;
}

abbrev results : List (List ValidatorExitShare)
results = (share 7 0 ∷ share 9 0 ∷ []) ∷ (share 7 1 ∷ []) ∷ []

abbrev status_of : ℕ → Status
status_of i = if i == 9 then exited_slashed else another

abbrev validator_of : ℕ → Validator
validator_of i = record { index = i; status = status_of i }

abbrev consensus : Consensus ℕ
consensus = record {
  head_slot = λ w. done 3 w;
  get_validators_by_ids = λ ids slot w. done (map validator_of ids) w;
  submit_voluntary_exit = λ i sig w. done tt w;
}

add_results-filter_example :
    or_nil (lookup 7 (add_results results [])) ≡ filter (is_for 7) (concat results)
add_results-filter_example = add_results-filter 7 results

abbrev head? : Text → Option ℕ
head? [] = none
head? (c ∷ t) = some c

-- A toy curve: the field with 11 elements, a signature is one number.
abbrev curve : Curve ℕ
curve = record {
  prime = 11;
  infinity = 0;
  add = λ p q. (p + q) % 11;
  multiply = λ p n. (p * n) % 11;
  difference_inv = λ i j. 1;
  signature_to_point = head?;
  point_to_signature = λ p. p ∷ [];
}

-- Oracle 0 lists validator 7 twice.
abbrev doubled : List ValidatorExitShare
doubled = share 7 0 ∷ share 7 1 ∷ record (share 7 0) { exit_signature_share = 5 ∷ [] } ∷ []

process_exit-last?_example :
    (signatures : List (ℕ × Text)) × NodupKeys signatures
    × ((k : ℕ) → lookup k signatures ≡ last? (signatures_at k doubled))
    × (process_exit curve consensus 3 (7, doubled) 0
        ≡ then_do (reconstruct_shared_bls_signature curve signatures 0) (λ signature v.
          then_do (submit_signature consensus 7 signature v) (λ submitted u. done tt u)))
process_exit-last?_example = process_exit-last? curve consensus 3 7 doubled 0 (omega arith)

drop_exited-filter_example :
    drop_exited consensus 2 3 (add_results results []) 0
    ≡ done (filter (stays status_of) (add_results results [])) 0
drop_exited-filter_example =
    drop_exited-filter consensus status_of 3 2 results 0 (λ ids w. refl)
      (λ h. absurd (omega (arith, h)))
