-- ===== src/ForceExit/Service/Selection.antt =====
-- How often a position is selected.
use v3_keeper.Base.{
  ◌+◌, ◌≡◌, refl, sym, true, false, not, Bool-cases, inl, inr, contains, filter, if◌then◌else◌,
  List, [], ◌∷◌, ◌++◌, map, Text, text_eq, ◌≟◌, ≟→eq, ≟_sym, arith, ap, subst,
}
use v3_keeper.Votes.Counter.Laws.{count}
use v3_keeper.ForceExit.{LeveragePosition, position_id}
use v3_keeper.ForceExit.Service.{join_positions}

other_text :
    (t u : Text) (seen : List Text)
    → contains t seen ≡ false
    → contains u seen ≡ true
    → (t ≟ u) ≡ false
other_text t u seen h k = elim (Bool-cases (t ≟ u)) [
  | inl same ↦
      let there : contains t seen ≡ true =
        subst (λ v. contains v seen ≡ true) (sym (≟→eq t u same)) k in
      absurd (ground (arith, there, h))
  | inr differ ↦ differ
]

count-absent : (t : Text) (xs : List Text) → contains t xs ≡ false → count t xs ≡ 0
count-absent t [] h = refl
count-absent t (x ∷ xs) h = ground (arith, count-absent t xs)

module _ {F : Type 0} where
  abbrev pub ids : List (LeveragePosition F) → List Text
  ids = map position_id

  abbrev rest_of : List Text → List (LeveragePosition F) → List (LeveragePosition F)
  rest_of seen = filter (λ p. not (contains (position_id p) seen))

  count-append :
      (t : Text) (ps qs : List (LeveragePosition F))
      → count t (ids (ps ++ qs)) ≡ count t (ids ps) + count t (ids qs)
  count-append t [] qs = omega arith
  count-append t (p ∷ ps) qs = omega (arith, count-append t ps qs)

  count-rest_of_new :
      (t : Text) (seen : List Text) (qs : List (LeveragePosition F))
      → contains t seen ≡ false
      → count t (ids (rest_of seen qs)) ≡ count t (ids qs)
  count-rest_of_new t seen [] h = refl
  count-rest_of_new t seen (q ∷ qs) h = elim (Bool-cases (contains (position_id q) seen)) [
    | inl old ↦
        rw (old, other_text t (position_id q) seen h old)
          (omega (arith, count-rest_of_new t seen qs h))
    | inr new ↦
        rw new (ap (λ n. (if t ≟ position_id q then 1 else 0) + n) (count-rest_of_new t seen qs h))
  ]

  count-rest_of_old :
      (t : Text) (seen : List Text) (qs : List (LeveragePosition F))
      → contains t seen ≡ true
      → count t (ids (rest_of seen qs)) ≡ 0
  count-rest_of_old t seen [] h = refl
  count-rest_of_old t seen (q ∷ qs) h = elim (Bool-cases (contains (position_id q) seen)) [
    | inl old ↦ rw old (count-rest_of_old t seen qs h)
    | inr new ↦
        rw (new, ≟_sym (position_id q) t (other_text (position_id q) t seen new h))
          (omega (arith, count-rest_of_old t seen qs h))
  ]

  -- A position is selected as often as it is a borrow position, or, if it is none, as often as it is
  -- a vault position.
  pub count-join_positions :
      (t : Text) (borrow_positions vault_positions : List (LeveragePosition F))
      → count t (ids (join_positions borrow_positions vault_positions)) ≡ (
          if contains t (ids borrow_positions)
          then count t (ids borrow_positions)
          else count t (ids vault_positions))
  unfolding join_positions
  count-join_positions t bs vs = elim (Bool-cases (contains t (ids bs))) [
    | inl old ↦ rw old (
        omega (arith, count-append t bs (rest_of (ids bs) vs), count-rest_of_old t (ids bs) vs old))
    | inr new ↦ rw new (
        omega (
          arith,
          count-append t bs (rest_of (ids bs) vs),
          count-rest_of_new t (ids bs) vs new,
          count-absent t (ids bs) new,
        ))
  ]
