-- ===== src/Base/Equality.antt =====
-- Python's `==` and `in` on values whose equality is decided by a Boolean function, and texts as
-- lists of code points.
use Prim.Native.Nat.{ℕ}
use mathlib.Core.Path.{◌≡◌, refl}
use mathlib.Core.Logic.{◌↔◌, inl, inr}
use mathlib.Core.Bool.{Bool, true, false, ◌&&◌, ◌||◌}
use mathlib.Core.List.{List, [], ◌∷◌}
use native.Mathlib.Omega.{arith}
use v3_keeper.Base.Tests.{◌==◌, ==_iff, Bool-cases}

pub record Eq (A : Type 0) : Type 0 where
  pub beq : A → A → Bool
  pub beq_iff : (a b : A) → (beq a b ≡ true) ↔ (a ≡ b)

infix 50 ◌≟◌
abbrev pub ◌≟◌ : {A : Type 0} ⦃e : Eq A⦄ → A → A → Bool
◌≟◌ ⦃e⦄ = e.beq

instance abbrev pub nat_eq : Eq ℕ
nat_eq = record { beq = ◌==◌; beq_iff = ==_iff }

abbrev pub Text : Type 0
Text = List ℕ

abbrev pub text_beq : Text → Text → Bool
text_beq [] [] = true
text_beq (a ∷ s) (b ∷ t) = a == b && text_beq s t
text_beq _ _ = false

text_beq→eq : (s t : Text) → text_beq s t ≡ true → s ≡ t
text_beq→eq [] [] h = refl
text_beq→eq [] (b ∷ t) h = absurd (ground arith)
text_beq→eq (a ∷ s) [] h = absurd (ground arith)
text_beq→eq (a ∷ s) (b ∷ t) h = ground (arith, text_beq→eq s t)

text_beq_refl : (s : Text) → text_beq s s ≡ true
text_beq_refl [] = refl
text_beq_refl (a ∷ s) = ground (arith, text_beq_refl s)

pub text_beq_iff : (s t : Text) → (text_beq s t ≡ true) ↔ (s ≡ t)
text_beq_iff s t = (text_beq→eq s t, λ p. rw p (text_beq_refl t))

instance abbrev pub text_eq : Eq Text
text_eq = record { beq = text_beq; beq_iff = text_beq_iff }

module _ {A : Type 0} ⦃e : Eq A⦄ where
  -- `x in xs`
  abbrev pub contains : A → List A → Bool
  contains x [] = false
  contains x (y ∷ ys) = x ≟ y || contains x ys

  pub ≟_refl : (a : A) → (a ≟ a) ≡ true
  ≟_refl a = (e.beq_iff a a).1 refl

  pub ≟→eq : (a b : A) → (a ≟ b) ≡ true → a ≡ b
  ≟→eq a b = (e.beq_iff a b).0

  pub ≟_sym : (a b : A) → (a ≟ b) ≡ false → (b ≟ a) ≡ false
  ≟_sym a b h = elim (Bool-cases (b ≟ a)) [
    | inl same ↦ absurd (ground (arith, ≟→eq b a same, ≟_refl a, h))
    | inr differ ↦ differ
  ]
