-- ===== src/Rewards.antt =====
-- rewards/typings.py and rewards/service.py: the votes of the oracles, the cache that keeps them by
-- timestamp, and the choice of the winner that is submitted.
pub mod Cache
pub mod Winner
pub mod Submission
pub mod Fetch
pub mod Service
mod Examples
use v3_keeper.Base.{
  ℕ, zero, suc, leb, ltb, ◌==◌, ◌≡◌, refl, ◌↔◌, Bool, true, false, ◌&&◌, if◌then◌else◌, List, [],
  ◌∷◌, ◌++◌, map, Option, none, some, lookup, insert, erase, keys, length, min, arith, Eq, ◌≟◌,
  Text, text_beq, text_beq_iff, contains,
}
use v3_keeper.Votes.Counter.{most_common}
use v3_keeper.Votes.Sorting.{sort}
use v3_keeper.Votes.Signatures.{collect}

pub record RewardVoteBody : Type 0 where
  pub update_timestamp : ℕ
  pub root : Text
  pub ipfs_hash : Text
  pub avg_reward_per_second : ℕ

pub record RewardVote : Type 0 where
  pub oracle_address : Text
  pub nonce : ℕ
  pub signature : Text
  pub body : RewardVoteBody

-- The equality of the two data classes, field by field.
abbrev pub body_beq : RewardVoteBody → RewardVoteBody → Bool
body_beq a b =
    a.update_timestamp == b.update_timestamp
    && text_beq a.root b.root
    && text_beq a.ipfs_hash b.ipfs_hash
    && a.avg_reward_per_second == b.avg_reward_per_second

pub body_beq_iff : (a b : RewardVoteBody) → (body_beq a b ≡ true) ↔ (a ≡ b)
body_beq_iff a b = ground (arith, text_beq_iff a.root b.root, text_beq_iff a.ipfs_hash b.ipfs_hash)

instance abbrev pub body_eq : Eq RewardVoteBody
body_eq = record { beq = body_beq; beq_iff = body_beq_iff }

abbrev pub vote_beq : RewardVote → RewardVote → Bool
vote_beq a b =
    text_beq a.oracle_address b.oracle_address
    && a.nonce == b.nonce
    && text_beq a.signature b.signature
    && body_beq a.body b.body

pub vote_beq_iff : (a b : RewardVote) → (vote_beq a b ≡ true) ↔ (a ≡ b)
vote_beq_iff a b = ground (
  arith,
  text_beq_iff a.oracle_address b.oracle_address,
  text_beq_iff a.signature b.signature,
  body_beq_iff a.body b.body,
)

instance abbrev pub vote_eq : Eq RewardVote
vote_eq = record { beq = vote_beq; beq_iff = vote_beq_iff }

abbrev pub default_cache_size : ℕ
default_cache_size = 100

pub record RewardsCache : Type 0 where
  pub data_by_ts : List (ℕ × List RewardVote)
  pub cache_size : ℕ

abbrev pub or_empty : Option (List RewardVote) → List RewardVote
or_empty none = []
or_empty (some votes) = votes

-- The list under a timestamp, empty where there is none.
abbrev pub votes_at : ℕ → List (ℕ × List RewardVote) → List RewardVote
votes_at ts d = or_empty (lookup ts d)

-- One round of the first loop of `RewardsCache.update`.
pub add_vote : RewardVote → List (ℕ × List RewardVote) → List (ℕ × List RewardVote)
add_vote v d =
    let ts = v.body.update_timestamp in
    let votes = votes_at ts d in insert ts (if contains v votes then votes else votes ++ (v ∷ [])) d

pub add_votes : List RewardVote → List (ℕ × List RewardVote) → List (ℕ × List RewardVote)
add_votes [] d = d
add_votes (v ∷ votes) d = add_votes votes (add_vote v d)

-- `min(self.data.keys())`, with the first key as the least so far.
pub min_key : ℕ → List (ℕ × List RewardVote) → ℕ
min_key k [] = k
min_key k ((j, votes) ∷ d) = min_key (min k j) d

pub drop_oldest : List (ℕ × List RewardVote) → List (ℕ × List RewardVote)
drop_oldest [] = []
drop_oldest ((k, votes) ∷ d) = erase (min_key k d) ((k, votes) ∷ d)

-- The `while` loop of `RewardsCache.update`; each round drops one entry.
pub evict : ℕ → ℕ → List (ℕ × List RewardVote) → List (ℕ × List RewardVote)
evict zero size d = d
evict (suc fuel) size d =
    let rest = evict fuel size (drop_oldest d) in if ltb size (length d) then rest else d

unfoldable pub update : List RewardVote → RewardsCache → RewardsCache
unfolding add_vote add_votes min_key drop_oldest evict
update votes cache =
    let d = add_votes votes cache.data_by_ts in
    record cache { data_by_ts = evict (length d) cache.cache_size d }

unfoldable pub clear : RewardsCache → RewardsCache
clear cache = record cache { data_by_ts = [] }

-- The key of the sort, `item[0].body.update_timestamp`; `none` where `item[0]` raises `IndexError`.
abbrev pub group_timestamp : List RewardVote → Option ℕ
group_timestamp [] = none
group_timestamp (v ∷ votes) = some v.body.update_timestamp

pub with_timestamps : List (ℕ × List RewardVote) → Option (List (ℕ × List RewardVote))
with_timestamps [] = some []
with_timestamps ((k, votes) ∷ d) = elim (group_timestamp votes) [
  | none ↦ none
  | some ts ↦ elim (with_timestamps d) [ none ↦ none | some rest ↦ some ((ts, votes) ∷ rest) ]
]

abbrev pub earlier : ℕ × List RewardVote → ℕ × List RewardVote → Bool
earlier a b = leb a.0 b.0

-- `RewardsCache.rewards`, each group with its key.
unfoldable pub rewards : RewardsCache → Option (List (ℕ × List RewardVote))
unfolding with_timestamps
rewards cache = elim (with_timestamps cache.data_by_ts) [
  | none ↦ none
  | some groups ↦ some (sort earlier groups)
]

unfoldable pub can_submit : ℕ → ℕ → Bool
can_submit signatures_count threshold = leb threshold signatures_count

-- What `_find_earliest_winner` returns; `index_fault` where it raises `IndexError`.
pub data Search : Type 0 where
  index_fault : Search
  no_winner : Search
  winner : List RewardVote → RewardVoteBody → Search

-- One round of the loop, given what the later rounds return.
abbrev pub try_group : ℕ → List RewardVote → Search → Option (RewardVoteBody × ℕ) → Search
try_group threshold votes rest none = index_fault
try_group threshold votes rest (some (body, n)) =
    if can_submit n threshold then winner votes body else rest

pub winner_among : ℕ → List (ℕ × List RewardVote) → Search
winner_among threshold [] = no_winner
winner_among threshold ((ts, votes) ∷ groups) =
    try_group threshold votes (winner_among threshold groups)
      (most_common (map (λ v. v.body) votes))

unfoldable pub find_earliest_winner : RewardsCache → ℕ → Search
unfolding winner_among rewards
find_earliest_winner cache threshold = elim (rewards cache) [
  | none ↦ index_fault
  | some groups ↦ winner_among threshold groups
]

module _ (to_int : Text → ℕ) where
  abbrev pub by_address : RewardVote → RewardVote → Bool
  by_address a b = leb (to_int a.oracle_address) (to_int b.oracle_address)

  -- The votes whose signatures are submitted, in order.
  unfoldable pub signers : ℕ → List RewardVote → RewardVoteBody → List RewardVote
  signers threshold votes body = collect (λ v. v.body ≟ body) threshold 0 (sort by_address votes)
