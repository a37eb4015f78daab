-- ===== src/Ltv/Recording.antt =====
-- Which users the tracker contract holds after the loop of ltv/service.py.
use v3_keeper.Base.{
  ℕ, ◌+◌, ◌≡◌, ◌≢◌, Bool, not, filter, length, List, [], ◌∷◌, All, Option, some, Text, text_beq,
  done, after,
}
use v3_keeper.Graph.{HarvestParams, Codec, GraphNode}
use v3_keeper.Ltv.{VaultMaxLtvUser, LtvGraph, Tracker}

-- The allocator with the highest LTV is not the user that the contract holds.
abbrev pub is_changed : VaultMaxLtvUser → Bool
is_changed user = not (text_beq user.address user.prev_address)

-- What the tracker contract does, as far as the loop relies on it: `recorded` is the user that it holds for
-- a vault, and `sent` counts the updates. An update with a receipt records its user, it touches no other
-- vault, and reading an LTV changes nothing.
pub record IsLedger {W : Type 0} (tracker : Tracker W) (recorded : W → Text → Text) (sent : W → ℕ)
    : Type 0 where
  pub writes :
      (vault user hash : Text) (params : Option HarvestParams) (w v : W)
      → tracker.update_vault_max_ltv_user vault user params w ≡ done (some hash) v
      → recorded v vault ≡ user
  pub leaves :
      (vault user other : Text) (params : Option HarvestParams) (w : W)
      → other ≢ vault
      → recorded (after (tracker.update_vault_max_ltv_user vault user params w)) other
        ≡ recorded w other
  pub counts :
      (vault user : Text) (params : Option HarvestParams) (w : W)
      → sent (after (tracker.update_vault_max_ltv_user vault user params w)) ≡ sent w + 1
  pub reads :
      (vault other : Text) (params : Option HarvestParams) (w : W)
      → recorded (after (tracker.get_vault_max_ltv vault params w)) other ≡ recorded w other
  pub reads_count :
      (vault : Text) (params : Option HarvestParams) (w : W)
      → sent (after (tracker.get_vault_max_ltv vault params w)) ≡ sent w

-- No vault is listed twice.
abbrev pub DistinctVaults : List VaultMaxLtvUser → Type 0
DistinctVaults [] = Unit
DistinctVaults (user ∷ users) = All (λ u. user.vault ≢ u.vault) users × DistinctVaults users

module _ {W : Type 0} (codec : Codec) (node : GraphNode W) (graph : LtvGraph W)
    (tracker : Tracker W) where
  module _ (recorded : W → Text → Text) (sent : W → ℕ) (laws : IsLedger tracker recorded sent) where
    -- The call for a user records it, and nothing for the other vaults, with one update.
    Handled : VaultMaxLtvUser → W → W → Type 0
    Handled user w v =
        (recorded v user.vault ≡ user.address)
        × ((other : Text) → other ≢ user.vault → recorded v other ≡ recorded w other)
        × (sent v ≡ sent w + 1)

    -- After the update itself, where the receipt decides whether the user is recorded.
    Updated : VaultMaxLtvUser → W → Option Text → W → Type 0
    Updated user w receipt v =
        ((hash : Text) → receipt ≡ some hash → recorded v user.vault ≡ user.address)
        × ((other : Text) → other ≢ user.vault → recorded v other ≡ recorded w other)
        × (sent v ≡ sent w + 1)

    -- The loop has recorded each user, and nothing for other vaults, with one update for each change.
    Recorded : List VaultMaxLtvUser → W → W → Type 0
    Recorded users w v =
        All (λ u. recorded v u.vault ≡ u.address) users
        × ((other : Text) → All (λ u. other ≢ u.vault) users → recorded v other ≡ recorded w other)
        × (sent v ≡ sent w + length (filter is_changed users))
