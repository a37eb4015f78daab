-- ===== src/Exits/Shares.antt =====
-- The shares of a validator, and the signatures that are combined of them.
use v3_keeper.Base.{
  ℕ, ◌≤◌, ◌==◌, ==_iff, ◌≡◌, refl, sym, ◌∙◌, ap, Bool, Bool-cases, inl, inr, length, filter,
  filter-append, concat, List, [], ◌∷◌, ◌++◌, none, lookup, insert, lookup-insert, NodupKeys,
  insert-NodupKeys, last?, map, Option, some, false, ltb, then_do, done, Text, arith,
}
use mathlib.Core.List.{append-nil, append_assoc}
use v3_keeper.Exits.{
  ValidatorExitShare, Curve, Consensus, or_nil, add_share, add_shares, add_results, signatures_onto,
  reconstruct_shared_bls_signature, submit_signature, process_exit,
}

abbrev pub is_for : ℕ → ValidatorExitShare → Bool
is_for i s = s.validator_index == i

abbrev Exits : Type 0
Exits = List (ℕ × List ValidatorExitShare)

add_share-lookup :
    (i : ℕ) (s : ValidatorExitShare) (exits : Exits)
    → or_nil (lookup i (add_share s exits)) ≡ or_nil (lookup i exits) ++ filter (is_for i) (s ∷ [])
add_share-lookup i s exits =
    rw
      (lookup-insert s.validator_index i (or_nil (lookup s.validator_index exits) ++ (s ∷ []))
        exits)
      (elim (Bool-cases (s.validator_index == i)) [
        | inl same ↦
            rw same
              (ap (λ k. or_nil (lookup k exits) ++ (s ∷ [])) ((==_iff s.validator_index i).0 same))
        | inr differ ↦ rw differ (sym (append-nil (or_nil (lookup i exits))))
      ])

add_shares-lookup :
    (i : ℕ) (shares : List ValidatorExitShare) (exits : Exits)
    → or_nil (lookup i (add_shares shares exits))
      ≡ or_nil (lookup i exits) ++ filter (is_for i) shares
unfolding add_shares
add_shares-lookup i [] exits = sym (append-nil (or_nil (lookup i exits)))
add_shares-lookup i (s ∷ shares) exits =
    add_shares-lookup i shares (add_share s exits)
    ∙ ap (λ l. l ++ filter (is_for i) shares) (add_share-lookup i s exits)
    ∙ append_assoc (or_nil (lookup i exits)) (filter (is_for i) (s ∷ [])) (filter (is_for i) shares)
    ∙ ap (λ l. or_nil (lookup i exits) ++ l) (sym (filter-append (is_for i) (s ∷ []) shares))

add_results-lookup :
    (i : ℕ) (results : List (List ValidatorExitShare)) (exits : Exits)
    → or_nil (lookup i (add_results results exits))
      ≡ or_nil (lookup i exits) ++ filter (is_for i) (concat results)
unfolding add_results
add_results-lookup i [] exits = sym (append-nil (or_nil (lookup i exits)))
add_results-lookup i (shares ∷ results) exits =
    add_results-lookup i results (add_shares shares exits)
    ∙ ap (λ l. l ++ filter (is_for i) (concat results)) (add_shares-lookup i shares exits)
    ∙ append_assoc (or_nil (lookup i exits)) (filter (is_for i) shares)
        (filter (is_for i) (concat results))
    ∙ ap (λ l. or_nil (lookup i exits) ++ l)
        (sym (filter-append (is_for i) shares (concat results)))

-- Under a validator's index stand exactly the shares for it, in the order of the oracles and of their
-- answers.
pub add_results-filter :
    (i : ℕ) (results : List (List ValidatorExitShare))
    → or_nil (lookup i (add_results results [])) ≡ filter (is_for i) (concat results)
add_results-filter i results = add_results-lookup i results []

add_shares-NodupKeys :
    (shares : List ValidatorExitShare) (exits : Exits)
    → NodupKeys exits
    → NodupKeys (add_shares shares exits)
unfolding add_shares
add_shares-NodupKeys [] exits h = h
add_shares-NodupKeys (s ∷ shares) exits h =
    add_shares-NodupKeys shares (add_share s exits) (insert-NodupKeys s.validator_index _ exits h)

pub add_results-NodupKeys :
    (results : List (List ValidatorExitShare)) (exits : Exits)
    → NodupKeys exits
    → NodupKeys (add_results results exits)
unfolding add_results
add_results-NodupKeys [] exits h = h
add_results-NodupKeys (shares ∷ results) exits h =
    add_results-NodupKeys results (add_shares shares exits) (add_shares-NodupKeys shares exits h)

-- The signatures of the shares with an index, in their order.
abbrev pub signatures_at : ℕ → List ValidatorExitShare → List Text
signatures_at k shares = map (λ s. s.exit_signature_share) (filter (λ s. s.share_index == k) shares)

-- The last element, or what there is without one.
abbrev last_or : Option Text → List Text → Option Text
last_or o [] = o
last_or o (t ∷ ts) = last_or (some t) ts

last_or-last? : (o : Option Text) (t : Text) (ts : List Text) → last_or o (t ∷ ts) ≡ last? (t ∷ ts)
last_or-last? o t [] = refl
last_or-last? o t (u ∷ ts) = last_or-last? (some t) u ts

last_or-none : (ts : List Text) → last_or none ts ≡ last? ts
last_or-none [] = refl
last_or-none (t ∷ ts) = last_or-last? none t ts

lookup-signatures_onto :
    (k : ℕ) (signatures : List (ℕ × Text)) (shares : List ValidatorExitShare)
    → lookup k (signatures_onto signatures shares)
      ≡ last_or (lookup k signatures) (signatures_at k shares)
unfolding signatures_onto
lookup-signatures_onto k signatures [] = refl
lookup-signatures_onto k signatures (s ∷ shares) =
    let next = insert s.share_index s.exit_signature_share signatures in
    rw
      (
        lookup-signatures_onto k next shares,
        lookup-insert s.share_index k s.exit_signature_share signatures,
      )
      (elim (Bool-cases (s.share_index == k)) [
        | inl same ↦ rw same refl
        | inr differ ↦ rw differ refl
      ])

signatures_onto-NodupKeys :
    (signatures : List (ℕ × Text)) (shares : List ValidatorExitShare)
    → NodupKeys signatures
    → NodupKeys (signatures_onto signatures shares)
unfolding signatures_onto
signatures_onto-NodupKeys signatures [] h = h
signatures_onto-NodupKeys signatures (s ∷ shares) h =
    signatures_onto-NodupKeys (insert s.share_index s.exit_signature_share signatures) shares
      (insert-NodupKeys s.share_index s.exit_signature_share signatures h)

module _ {G W : Type 0} (curve : Curve G) (consensus : Consensus W) where
  -- If a validator has at least as many shares as the threshold, then the exit is submitted with the
  -- signature that is combined from a dictionary with one entry for each index among the shares: the
  -- signature of the last share with that index.
  pub process_exit-last? :
      (threshold validator : ℕ) (shares : List ValidatorExitShare) (w : W)
      → threshold ≤ length shares
      → (signatures : List (ℕ × Text)) × NodupKeys signatures
        × ((k : ℕ) → lookup k signatures ≡ last? (signatures_at k shares))
        × (process_exit curve consensus threshold (validator, shares) w
            ≡ then_do (reconstruct_shared_bls_signature curve signatures w) (λ signature v.
              then_do
                (submit_signature consensus validator signature v)
                (λ submitted u. done tt u)))
  unfolding process_exit
  process_exit-last? threshold validator shares w enough =
      let reached : ltb (length shares) threshold ≡ false = ground (arith, enough) in
      (
        signatures_onto [] shares,
        signatures_onto-NodupKeys [] shares tt,
        λ k. lookup-signatures_onto k [] shares ∙ last_or-none (signatures_at k shares),
        rw reached refl,
      )
