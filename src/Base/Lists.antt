-- ===== src/Base/Lists.antt =====
-- Lists measured by native numbers, Python's `in` and comprehensions over a Boolean test, and
-- predicates on all elements.
use Prim.Native.Nat.{ℕ, suc, ◌+◌, ◌≤◌}
use mathlib.Core.Path.{◌≡◌, refl}
use mathlib.Core.Bool.{Bool, true, false}
use mathlib.Core.List.{List, [], ◌∷◌, ◌++◌}
use mathlib.Core.Option.{Option, none, some}
use native.Mathlib.Omega.{arith}
use v3_keeper.Base.Tests.{if◌then◌else◌, Bool-cases}
use mathlib.Core.Logic.{inl, inr, ◌⊎◌}

module _ {ℓ} {A : Type ℓ} where
  abbrev pub length : List A → ℕ
  length [] = 0
  length (x ∷ xs) = suc (length xs)

  -- `[x for x in xs if p(x)]`
  abbrev pub filter : (A → Bool) → List A → List A
  filter p [] = []
  filter p (x ∷ xs) = if p x then x ∷ filter p xs else filter p xs

  abbrev pub last? : List A → Option A
  last? [] = none
  last? (x ∷ []) = some x
  last? (x ∷ y ∷ xs) = last? (y ∷ xs)

  pub length-append : (xs ys : List A) → length (xs ++ ys) ≡ length xs + length ys
  length-append [] ys = omega arith
  length-append (x ∷ xs) ys = omega (arith, length-append xs ys)

  pub length-filter-le : (p : A → Bool) (xs : List A) → length (filter p xs) ≤ length xs
  length-filter-le p [] = omega arith
  length-filter-le p (x ∷ xs) = ground (arith, length-filter-le p xs)

  pub filter-append :
      (p : A → Bool) (xs ys : List A) → filter p (xs ++ ys) ≡ filter p xs ++ filter p ys
  filter-append p [] ys = refl
  filter-append p (x ∷ xs) ys = ground (arith, filter-append p xs ys)

-- A predicate by recursion computes to tuples, which the tactics read and build.
module _ {ℓ κ} {A : Type ℓ} where
  abbrev pub All : (A → Type κ) → List A → Type κ
  All P [] = Unit
  All P (x ∷ xs) = P x × All P xs

  pub All-append : (P : A → Type κ) (xs ys : List A) → All P xs → All P ys → All P (xs ++ ys)
  All-append P [] ys hx hy = hy
  All-append P (x ∷ xs) ys hx hy = (hx.0, All-append P xs ys hx.1 hy)

  pub All-filter : (P : A → Type κ) (p : A → Bool) (xs : List A) → All P xs → All P (filter p xs)
  All-filter P p [] h = tt
  All-filter P p (x ∷ xs) (hx, h) = elim (Bool-cases (p x)) [
    | inl e ↦ rw e (hx, All-filter P p xs h)
    | inr e ↦ rw e (All-filter P p xs h)
  ]

  -- What holds of the elements that pass a test.
  pub filter-All :
      (Q : A → Type κ) (p : A → Bool) (xs : List A)
      → All Q (filter p xs)
      → All (λ x. (p x ≡ false) ⊎ Q x) xs
  filter-All Q p [] = λ h. tt
  filter-All Q p (x ∷ xs) = elim (Bool-cases (p x)) [
    | inl e ↦ rw e (λ h. (inr h.0, filter-All Q p xs h.1))
    | inr e ↦ rw e (λ h. (inl refl, filter-All Q p xs h))
  ]

  pub All-map : (P Q : A → Type κ) (xs : List A) → ((x : A) → P x → Q x) → All P xs → All Q xs
  All-map P Q [] f h = tt
  All-map P Q (x ∷ xs) f (hx, h) = (f x hx, All-map P Q xs f h)

module _ {ℓ κ} {A : Type ℓ} where
  pub All-zip :
      (P Q R : A → Type κ) (xs : List A)
      → ((x : A) → P x → Q x → R x)
      → All P xs
      → All Q xs
      → All R xs
  All-zip P Q R [] f h k = tt
  All-zip P Q R (x ∷ xs) f (hx, h) (kx, k) = (f x hx kx, All-zip P Q R xs f h k)

module _ {ℓ} {A : Type ℓ} where
  -- The first of two optional values that is there.
  abbrev pub prefer : Option A → Option A → Option A
  prefer (some y) o = some y
  prefer none o = o

  last?-cons : (x y : A) (ys : List A) → last? (y ∷ ys) ≡ prefer (last? (y ∷ ys)) (some x)
  last?-cons x y [] = refl
  last?-cons x y (z ∷ ys) = last?-cons x z ys

  pub last?-append : (xs ys : List A) → last? (xs ++ ys) ≡ prefer (last? ys) (last? xs)
  last?-append [] [] = refl
  last?-append [] (y ∷ []) = refl
  last?-append [] (y ∷ z ∷ ys) = last?-append [] (z ∷ ys)
  last?-append (x ∷ []) [] = refl
  last?-append (x ∷ []) (y ∷ ys) = last?-cons x y ys
  last?-append (x ∷ x' ∷ xs) ys = last?-append (x' ∷ xs) ys

  pub filter-passes : (p : A → Bool) (xs : List A) → All (λ x. p x ≡ true) (filter p xs)
  filter-passes p [] = tt
  filter-passes p (x ∷ xs) = elim (Bool-cases (p x)) [
    | inl e ↦ rw e (e, filter-passes p xs)
    | inr e ↦ rw e (filter-passes p xs)
  ]
