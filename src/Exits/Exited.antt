-- ===== src/Exits/Exited.antt =====
-- Which validators are left after those that exit already are dropped.
use v3_keeper.Base.{
  ℕ, ◌==◌, ==_iff, ◌≡◌, ◌≢◌, refl, sym, ◌∙◌, ap, Bool, false, not, Bool-cases, inl, inr,
  if◌then◌else◌, filter, batched_onto, concat, concat-batched_onto, List, [], ◌∷◌, ◌++◌, map, none,
  some, lookup, lookup-erase_ne, subst, then_do_ext, then_do_assoc, ◌>>=◌, erase, keys, NodupKeys,
  Outcome, done, or_raise, key_error, then_do, pure, arith,
}
use mathlib.Core.List.{append_assoc, map-append}
use v3_keeper.Exits.{
  ValidatorExitShare, Status, Validator, Consensus, is_exiting, remove_exiting, remove_batches,
  drop_exited, add_results,
}
use v3_keeper.Exits.Shares.{add_results-NodupKeys}

abbrev Exits : Type 0
Exits = List (ℕ × List ValidatorExitShare)

-- A validator that is not exiting.
abbrev pub stays : (ℕ → Status) → ℕ × List ValidatorExitShare → Bool
stays status e = not (is_exiting (status e.0))

abbrev answer_of : (ℕ → Status) → ℕ → Validator
answer_of status i = record { index = i; status = status i }

-- The entry after a part with other keys is found, and erased.
NodupKeys-middle :
    (before : Exits) (k : ℕ) (v : List ValidatorExitShare) (rest : Exits)
    → NodupKeys (before ++ ((k, v) ∷ rest))
    → (lookup k (before ++ ((k, v) ∷ rest)) ≡ some v)
      × (erase k (before ++ ((k, v) ∷ rest)) ≡ before ++ rest)
      × NodupKeys (before ++ rest)
NodupKeys-middle [] k v rest (fresh, h) = (ground arith, ground arith, h)
NodupKeys-middle ((j, w) ∷ before) k v rest (fresh, h) =
    let (found, erased, nodup) = NodupKeys-middle before k v rest h in
    elim (Bool-cases (j == k)) [
      | inl same ↦
          let here : lookup j (before ++ ((k, v) ∷ rest)) ≡ some v =
            rw ((==_iff j k).0 same) found in
          absurd (ground (arith, here, fresh))
      | inr differ ↦ rw differ (
        found,
        ap (λ m. (j, w) ∷ m) erased,
        (
          subst (λ m. lookup j m ≡ none) erased
              (lookup-erase_ne k j (before ++ ((k, v) ∷ rest)) (ground (arith, ==_iff j k, differ))
                ∙ fresh),
          nodup,
        ),
      )
    ]

module _ {W : Type 0} (consensus : Consensus W) (status : ℕ → Status) where
  remove_exiting-append :
      (vs us : List Validator) (exits : Exits) (w : W)
      → remove_exiting consensus (vs ++ us) exits w
        ≡ then_do (remove_exiting consensus vs exits w) (λ rest. remove_exiting consensus us rest)
  unfolding remove_exiting
  remove_exiting-append [] us exits w = refl
  remove_exiting-append (v ∷ vs) us exits w =
      let first : Outcome W Exits =
        (if is_exiting v.status
            then (do shares ← or_raise key_error (lookup v.index exits); pure (erase v.index exits))
            else pure exits)
          w in
      then_do_ext first _ _ (λ rest t. remove_exiting-append vs us rest t)
      ∙ sym (
          then_do_assoc first (λ rest. remove_exiting consensus vs rest)
            (λ rest. remove_exiting consensus us rest))

  -- The loop over the validators of `rest`, with those before them dropped already.
  remove_exiting-filter :
      (before rest : Exits) (w : W)
      → NodupKeys (before ++ rest)
      → remove_exiting consensus (map (answer_of status) (keys rest)) (before ++ rest) w
        ≡ done (before ++ filter (stays status) rest) w
  unfolding remove_exiting
  remove_exiting-filter before [] w h = refl
  remove_exiting-filter before ((k, v) ∷ rest) w h =
      let (found, erased, nodup) = NodupKeys-middle before k v rest h in
      elim (Bool-cases (is_exiting (status k))) [
        | inl exits ↦ rw (exits, found, erased) (remove_exiting-filter before rest w nodup)
        | inr waits ↦ rw waits (
            rw
              (
                ← append_assoc before ((k, v) ∷ []) rest,
                ← append_assoc before ((k, v) ∷ []) (filter (stays status) rest),
              )
              (remove_exiting-filter (before ++ ((k, v) ∷ [])) rest w
                (subst NodupKeys (sym (append_assoc before ((k, v) ∷ []) rest)) h)))
      ]

  -- The loop over the batches is the loop over all their answers.
  remove_batches-concat :
      (slot : ℕ)
      → ((ids : List ℕ) (w : W)
          → consensus.get_validators_by_ids ids slot w ≡ done (map (answer_of status) ids) w)
      → (batches : List (List ℕ)) (exits : Exits) (w : W)
      → remove_batches consensus slot batches exits w
        ≡ remove_exiting consensus (map (answer_of status) (concat batches)) exits w
  unfolding remove_batches remove_exiting
  remove_batches-concat slot answers [] exits w = refl
  remove_batches-concat slot answers (batch ∷ batches) exits w =
      rw (answers batch w, map-append (answer_of status) batch (concat batches))
        (then_do_ext (remove_exiting consensus (map (answer_of status) batch) exits w) _ _
            (λ rest t. remove_batches-concat slot answers batches rest t)
          ∙ sym (
              remove_exiting-append (map (answer_of status) batch)
                (map (answer_of status) (concat batches)) exits w))

  -- If the consensus node answers each batch with the status of each validator, then for a chunk size of at
  -- least 1 exactly the fetched validators that are not exiting are left, in their order, and no `KeyError`
  -- is raised.
  pub drop_exited-filter :
      (slot chunk_size : ℕ) (results : List (List ValidatorExitShare)) (w : W)
      → ((ids : List ℕ) (w : W)
          → consensus.get_validators_by_ids ids slot w ≡ done (map (answer_of status) ids) w)
      → chunk_size ≢ 0
      → drop_exited consensus chunk_size slot (add_results results []) w
        ≡ done (filter (stays status) (add_results results [])) w
  unfolding drop_exited
  drop_exited-filter slot chunk_size results w answers positive =
      let exits = add_results results [] in
      let c : (chunk_size == 0) ≡ false = ground arith in
      rw
        (
          c,
          remove_batches-concat slot answers (batched_onto chunk_size [] (keys exits)) exits w,
          concat-batched_onto chunk_size [] (keys exits),
        )
        (remove_exiting-filter [] exits w (add_results-NodupKeys results [] tt))
