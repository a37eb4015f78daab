-- ===== src/Transaction/Rejection.antt =====
-- Which rejections of the node a fee bump can clear: `_rpc_error_message` and
-- `_is_fee_too_low_error` of common/transaction.py. A message is its list of code points; `lower` is
-- `str.lower` on ASCII, which decides the search, since the tokens are ASCII and no other letter
-- lowers to a letter of theirs.
pub mod Laws
use Prim.Native.Char.{code}
use Prim.Native.String.{String}
use v3_keeper.Base.{
  ℕ, ◌+◌, Bool, true, false, ◌&&◌, ◌||◌, List, [], ◌∷◌, map, Option, none, some, leb, ◌==◌,
  if◌then◌else◌, RpcError,
}

abbrev pub codes : String → List ℕ
codes String.[] = []
codes (String.◌∷◌ c s) = code c ∷ codes s

pub to_lower : ℕ → ℕ
to_lower c = if leb b'A' c && leb c b'Z' then c + 32 else c

pub starts_with : List ℕ → List ℕ → Bool
starts_with [] s = true
starts_with (t ∷ ts) [] = false
starts_with (t ∷ ts) (c ∷ s) = t == c && starts_with ts s

-- `token in s`
pub is_in : List ℕ → List ℕ → Bool
is_in token [] = starts_with token []
is_in token (c ∷ s) = starts_with token (c ∷ s) || is_in token s

-- `_FEE_TOO_LOW_MESSAGES`
abbrev pub fee_too_low_messages : List (List ℕ)
fee_too_low_messages =
    codes "feetoolow"
    ∷ codes "fee too low"
    ∷ codes "underpriced"
    ∷ codes "replacementnotallowed"
    ∷ codes "could not replace"
    ∷ []

pub any_in : List (List ℕ) → List ℕ → Bool
any_in [] s = false
any_in (t ∷ ts) s = is_in t s || any_in ts s

-- `_rpc_error_message`
pub rpc_error_message : RpcError → List ℕ
rpc_error_message e = elim e.error_object [
  | none ↦ e.text
  | some message ↦ elim message [ none ↦ e.text | some m ↦ m ]
]

unfoldable pub is_fee_too_low_error : RpcError → Bool
unfolding to_lower starts_with is_in any_in rpc_error_message
is_fee_too_low_error e = any_in fee_too_low_messages (map to_lower (rpc_error_message e))
