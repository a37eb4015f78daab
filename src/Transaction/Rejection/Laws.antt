-- ===== src/Transaction/Rejection/Laws.antt =====
-- The test finds exactly the messages that hold one of the tokens, in any case of letters.
use v3_keeper.Base.{
  ℕ, ◌+◌, ◌≤◌, ◌≡◌, ◌⊎◌, inl, inr, ◌↔◌, refl, ap, Bool, true, not, ◌&&◌, leb, List, [], ◌∷◌, ◌++◌,
  map, none, some, arith, Bool-cases, ==_iff, ◌==◌, &&-eq-true, RpcError,
}
use v3_keeper.Transaction.Rejection.{
  codes, to_lower, starts_with, is_in, any_in, fee_too_low_messages, rpc_error_message,
  is_fee_too_low_error,
}

-- A letter of a message stands for a lower-case character: itself, or its capital.
abbrev pub StandsFor : ℕ → ℕ → Type 0
StandsFor c t = (c ≡ t) ⊎ ((b'a' ≤ t) × (t ≤ b'z') × (c + 32 ≡ t))

-- A text spells a token, in any case of letters.
abbrev pub Spells : List ℕ → List ℕ → Type 0
Spells [] [] = Unit
Spells [] (c ∷ s) = ⊥
Spells (t ∷ token) [] = ⊥
Spells (t ∷ token) (c ∷ s) = StandsFor c t × Spells token s

-- A part of the text spells the token.
abbrev pub Holds : List ℕ → List ℕ → Type 0
Holds token s = (pre piece post : List ℕ) × (s ≡ pre ++ (piece ++ post)) × Spells token piece

abbrev pub HoldsOne : List (List ℕ) → List ℕ → Type 0
HoldsOne [] s = ⊥
HoldsOne (token ∷ tokens) s = Holds token s ⊎ HoldsOne tokens s

-- The message of an error: that of the response's error object, or the exception's text where there is none.
abbrev pub IsMessage : RpcError → List ℕ → Type 0
IsMessage e m =
    (e.error_object ≡ some (some m))
    ⊎ ((e.text ≡ m) × ((e.error_object ≡ none) ⊎ (e.error_object ≡ some none)))

is_capital : ℕ → Bool
is_capital c = leb b'A' c && leb c b'Z'

abbrev no_capital : List ℕ → Bool
no_capital [] = true
no_capital (c ∷ s) = not (is_capital c) && no_capital s

abbrev no_capitals : List (List ℕ) → Bool
no_capitals [] = true
no_capitals (t ∷ ts) = no_capital t && no_capitals ts

to_lower-StandsFor : (c t : ℕ) → not (is_capital t) ≡ true → t ≡ to_lower c → StandsFor c t
unfolding to_lower is_capital
to_lower-StandsFor c t low e = ground (arith, low, e)

StandsFor→to_lower : (c t : ℕ) → not (is_capital t) ≡ true → StandsFor c t → t ≡ to_lower c
unfolding to_lower is_capital
StandsFor→to_lower c t low h = ground (arith, low, h)

starts_with→Spells :
    (t s : List ℕ)
    → no_capital t ≡ true
    → starts_with t (map to_lower s) ≡ true
    → (piece post : List ℕ) × (s ≡ piece ++ post) × Spells t piece
unfolding starts_with
starts_with→Spells [] s low h = ([], s, refl, tt)
starts_with→Spells (a ∷ t) [] low h = absurd (ground arith)
starts_with→Spells (a ∷ t) (c ∷ s) low h =
    let (e, rest) = &&-eq-true (a == to_lower c) (starts_with t (map to_lower s)) h in
    let (first, others) = &&-eq-true (not (is_capital a)) (no_capital t) low in
    let (piece, post, p, spelled) = starts_with→Spells t s others rest in
    (
      c ∷ piece,
      post,
      ap (◌∷◌ c) p,
      (to_lower-StandsFor c a first ((==_iff a (to_lower c)).0 e), spelled),
    )

Spells→starts_with :
    (t piece post : List ℕ)
    → no_capital t ≡ true
    → Spells t piece
    → starts_with t (map to_lower (piece ++ post)) ≡ true
unfolding starts_with
Spells→starts_with [] piece post low h = refl
Spells→starts_with (a ∷ t) [] post low h = absurd h
Spells→starts_with (a ∷ t) (c ∷ piece) post low (same, h) =
    let (first, others) = &&-eq-true (not (is_capital a)) (no_capital t) low in
    rw
      (
        (==_iff a (to_lower c)).1 (StandsFor→to_lower c a first same),
        Spells→starts_with t piece post others h,
      )
      refl

starts_with→is_in : (t s : List ℕ) → starts_with t s ≡ true → is_in t s ≡ true
unfolding is_in
starts_with→is_in t [] h = h
starts_with→is_in t (c ∷ s) h = rw h refl

Holds→is_in :
    (t pre piece post : List ℕ)
    → no_capital t ≡ true
    → Spells t piece
    → is_in t (map to_lower (pre ++ (piece ++ post))) ≡ true
unfolding is_in
Holds→is_in t [] piece post low h =
    starts_with→is_in t (map to_lower (piece ++ post)) (Spells→starts_with t piece post low h)
Holds→is_in t (c ∷ pre) piece post low h = ground (arith, Holds→is_in t pre piece post low h)

is_in→Holds : (t s : List ℕ) → no_capital t ≡ true → is_in t (map to_lower s) ≡ true → Holds t s
unfolding is_in
is_in→Holds t [] low h =
    let (piece, post, p, spelled) = starts_with→Spells t [] low h in ([], piece, post, p, spelled)
is_in→Holds t (c ∷ s) low h = elim (Bool-cases (starts_with t (map to_lower (c ∷ s)))) [
  | inl e ↦
      let (piece, post, p, spelled) = starts_with→Spells t (c ∷ s) low e in
      ([], piece, post, p, spelled)
  | inr e ↦
      let (pre, piece, post, p, spelled) = is_in→Holds t s low (rw e at h) in
      (c ∷ pre, piece, post, ap (◌∷◌ c) p, spelled)
]

any_in→HoldsOne :
    (ts : List (List ℕ)) (s : List ℕ)
    → no_capitals ts ≡ true
    → any_in ts (map to_lower s) ≡ true
    → HoldsOne ts s
unfolding any_in
any_in→HoldsOne [] s low h = absurd (ground arith)
any_in→HoldsOne (t ∷ ts) s low h =
    let (first, others) = &&-eq-true (no_capital t) (no_capitals ts) low in
    elim (Bool-cases (is_in t (map to_lower s))) [
      | inl e ↦ inl (is_in→Holds t s first e)
      | inr e ↦ inr (any_in→HoldsOne ts s others (rw e at h))
    ]

HoldsOne→any_in :
    (ts : List (List ℕ)) (s : List ℕ)
    → no_capitals ts ≡ true
    → HoldsOne ts s
    → any_in ts (map to_lower s) ≡ true
unfolding any_in
HoldsOne→any_in [] s low h = absurd h
HoldsOne→any_in (t ∷ ts) s low (inl (pre, piece, post, p, spelled)) =
    let (first, others) = &&-eq-true (no_capital t) (no_capitals ts) low in
    rw (p, Holds→is_in t pre piece post first spelled) refl
HoldsOne→any_in (t ∷ ts) s low (inr h) =
    let (first, others) = &&-eq-true (no_capital t) (no_capitals ts) low in
    ground (arith, HoldsOne→any_in ts s others h)

message_lem : (e : RpcError) (m : List ℕ) → IsMessage e m → rpc_error_message e ≡ m
unfolding rpc_error_message
message_lem e m (inl given) = rw given refl
message_lem e m (inr (text, inl absent)) = rw absent text
message_lem e m (inr (text, inr empty)) = rw empty text

capitals : no_capitals fee_too_low_messages ≡ true
unfolding is_capital
capitals = refl

-- A rejection with the message `m`, that of its error object or else its text, counts as "fee too low" exactly
-- if a part of `m` spells "feetoolow", "fee too low", "underpriced", "replacementnotallowed" or "could not
-- replace" in any case of letters.
pub is_fee_too_low_error_iff :
    (e : RpcError) (m : List ℕ)
    → IsMessage e m
    → (is_fee_too_low_error e ≡ true)
      ↔ HoldsOne
          (codes "feetoolow"
            ∷ codes "fee too low"
            ∷ codes "underpriced"
            ∷ codes "replacementnotallowed"
            ∷ codes "could not replace"
            ∷ [])
          m
unfolding is_fee_too_low_error
is_fee_too_low_error_iff e m is = rw (message_lem e m is) (
  any_in→HoldsOne fee_too_low_messages m capitals,
  HoldsOne→any_in fee_too_low_messages m capitals,
)
