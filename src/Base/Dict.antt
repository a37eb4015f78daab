-- ===== src/Base/Dict.antt =====
-- A Python dictionary with integer keys, as an association list in insertion order. Writing to a
-- key that is there keeps its place.
use Prim.Native.Nat.{ℕ, ◌+◌, ◌≤◌, suc}
use mathlib.Core.Path.{◌≡◌, refl, subst, sym}
use mathlib.Core.Logic.{◌≢◌, inl, inr}
use mathlib.Core.Bool.{Bool, true, false}
use mathlib.Core.List.{List, [], ◌∷◌, map}
use mathlib.Core.Option.{Option, none, some}
use native.Mathlib.Omega.{arith}
use v3_keeper.Base.Tests.{if◌then◌else◌, ◌==◌, Bool-cases, ==_iff}
use v3_keeper.Base.Lists.{All, All-map, length, filter}

module _ {V : Type 0} where
  abbrev pub lookup : ℕ → List (ℕ × V) → Option V
  lookup k [] = none
  lookup k ((j, v) ∷ m) = if j == k then some v else lookup k m

  abbrev pub insert : ℕ → V → List (ℕ × V) → List (ℕ × V)
  insert k v [] = (k, v) ∷ []
  insert k v ((j, w) ∷ m) = if j == k then (j, v) ∷ m else (j, w) ∷ insert k v m

  -- `del d[k]` where the key is there
  abbrev pub erase : ℕ → List (ℕ × V) → List (ℕ × V)
  erase k [] = []
  erase k ((j, w) ∷ m) = if j == k then m else (j, w) ∷ erase k m

  abbrev pub keys : List (ℕ × V) → List ℕ
  keys = map (λ e. e.0)

  pub lookup-insert :
      (k j : ℕ) (v : V) (m : List (ℕ × V))
      → lookup j (insert k v m) ≡ (if k == j then some v else lookup j m)
  lookup-insert k j v [] = refl
  lookup-insert k j v ((i, w) ∷ m) = ground (arith, lookup-insert k j v m)

  pub lookup-erase_ne : (k j : ℕ) (m : List (ℕ × V)) → k ≢ j → lookup j (erase k m) ≡ lookup j m
  lookup-erase_ne k j [] h = refl
  lookup-erase_ne k j ((i, w) ∷ m) h = ground (arith, lookup-erase_ne k j m)

  -- No key is listed twice.
  abbrev pub NodupKeys : List (ℕ × V) → Type 0
  NodupKeys [] = Unit
  NodupKeys ((j, v) ∷ m) = (lookup j m ≡ none) × NodupKeys m

  pub insert-NodupKeys : (k : ℕ) (v : V) (m : List (ℕ × V)) → NodupKeys m → NodupKeys (insert k v m)
  insert-NodupKeys k v [] h = (refl, tt)
  insert-NodupKeys k v ((j, w) ∷ m) (fresh, h) =
      ground (arith, lookup-insert k j v m, insert-NodupKeys k v m)

  pub lookup-erase_self : (k : ℕ) (m : List (ℕ × V)) → NodupKeys m → lookup k (erase k m) ≡ none
  lookup-erase_self k [] h = refl
  lookup-erase_self k ((j, w) ∷ m) (fresh, h) = ground (arith, lookup-erase_self k m)

  pub erase-NodupKeys : (k : ℕ) (m : List (ℕ × V)) → NodupKeys m → NodupKeys (erase k m)
  erase-NodupKeys k [] h = tt
  erase-NodupKeys k ((j, w) ∷ m) (fresh, h) =
      ground (arith, lookup-erase_ne k j m, erase-NodupKeys k m)

  pub length-insert-le : (k : ℕ) (v : V) (m : List (ℕ × V)) → length (insert k v m) ≤ length m + 1
  length-insert-le k v [] = omega arith
  length-insert-le k v ((j, w) ∷ m) = ground (arith, length-insert-le k v m)

  pub length-erase :
      (k : ℕ) {v : V} (m : List (ℕ × V)) → lookup k m ≡ some v → suc (length (erase k m)) ≡ length m
  length-erase k [] h = absurd (ground arith)
  length-erase k {v} ((j, w) ∷ m) h = ground (arith, length-erase k {v = v} m)

  -- A predicate on entries.
  pub All-insert :
      (P : ℕ × V → Type 0) (k : ℕ) (v : V) (m : List (ℕ × V))
      → ((j : ℕ) → j ≡ k → P (j, v))
      → All P m
      → All P (insert k v m)
  All-insert P k v [] hv h = (hv k refl, tt)
  All-insert P k v ((j, w) ∷ m) hv (hj, h) = elim (Bool-cases (j == k)) [
    | inl e ↦ rw e (hv j ((==_iff j k).0 e), h)
    | inr e ↦ rw e (hj, All-insert P k v m hv h)
  ]

  pub lookup-filter :
      (p : ℕ → Bool) (k : ℕ) (m : List (ℕ × V))
      → p k ≡ true
      → lookup k (filter (λ e. p e.0) m) ≡ lookup k m
  lookup-filter p k [] h = refl
  lookup-filter p k ((j, w) ∷ m) h = elim (Bool-cases (j == k)) [
    | inl e ↦ let same : p j ≡ true = rw ((==_iff j k).0 e) h in rw (same, e) refl
    | inr e ↦ elim (Bool-cases (p j)) [
      | inl kept ↦ rw (kept, e) (lookup-filter p k m h)
      | inr gone ↦ rw (gone, e) (lookup-filter p k m h)
    ]
  ]

  pub All-lookup :
      (P : ℕ × V → Type 0) (k : ℕ) (m : List (ℕ × V)) {v : V}
      → All P m
      → lookup k m ≡ some v
      → P (k, v)
  All-lookup P k [] h e = absurd (ground arith)
  All-lookup P k ((j, w) ∷ m) (hj, h) e = elim (Bool-cases (j == k)) [
    | inl c ↦ let same : (j, w) ≡ (k, _) = ground arith in subst P same hj
    | inr c ↦ All-lookup P k m h (ground arith)
  ]

  pub All-erase : (P : ℕ × V → Type 0) (k : ℕ) (m : List (ℕ × V)) → All P m → All P (erase k m)
  All-erase P k [] h = tt
  All-erase P k ((j, w) ∷ m) (hj, h) = elim (Bool-cases (j == k)) [
    | inl c ↦ rw c h
    | inr c ↦ rw c (hj, All-erase P k m h)
  ]

  -- Each entry is found under its key.
  pub lookup-All : (d : List (ℕ × V)) → NodupKeys d → All (λ e. lookup e.0 d ≡ some e.1) d
  lookup-All [] h = tt
  lookup-All ((j, v) ∷ d) (fresh, h) = (
    ground (arith, ==_iff j j),
    All-map (λ e. lookup e.0 d ≡ some e.1) (λ e. lookup e.0 ((j, v) ∷ d) ≡ some e.1) d
        (λ e found.
          let other : (j == e.0) ≡ false = elim (Bool-cases (j == e.0)) [
            | inl same ↦
                let at : lookup j d ≡ some e.1 =
                  subst (λ k. lookup k d ≡ some e.1) (sym ((==_iff j e.0).0 same)) found in
                absurd (ground (arith, at, fresh))
            | inr differ ↦ differ
          ] in
          rw other found)
        (lookup-All d h),
  )
