-- ===== src/Rewards/Examples.antt =====
-- Three oracles vote for one timestamp and one for a later one, with a threshold of two.
use v3_keeper.Base.{
  ℕ, ◌≤◌, ◌≡◌, ◌≢◌, ◌↔◌, refl, List, [], ◌∷◌, some, lookup, All, length, Text, ◌⊎◌,
}
use v3_keeper.Votes.Counter.{most_common}
use v3_keeper.Votes.Counter.Laws.{count}
use v3_keeper.Votes.Sorting.{sort}
use v3_keeper.Votes.Sorting.Laws.{IsSorted}
use v3_keeper.Rewards.{
  can_submit, RewardVote, RewardVoteBody, RewardsCache, body_eq, update, winner, no_winner,
  index_fault, find_earliest_winner, by_address, signers,
}
use v3_keeper.Rewards.Cache.{IsValid, update-IsValid, update-oldest}
use v3_keeper.Rewards.Winner.{
  bodies, NoQuorum, find_earliest_winner-NoQuorum, find_earliest_winner-no_winner,
}
use v3_keeper.Rewards.Submission.{signers-find_earliest_winner}

abbrev body_at : ℕ → ℕ → RewardVoteBody
body_at ts rate = record {
  update_timestamp = ts;
  root = 1 ∷ [];
  ipfs_hash = 2 ∷ [];
  avg_reward_per_second = rate;
}

abbrev vote_of : ℕ → RewardVoteBody → RewardVote
vote_of oracle body = record {
  oracle_address = oracle ∷ [];
  nonce = 5;
  signature = oracle ∷ 0 ∷ [];
  body = body;
}

abbrev votes : List RewardVote
votes =
    vote_of 3 (body_at 10 7)
    ∷ vote_of 2 (body_at 20 7)
    ∷ vote_of 1 (body_at 10 8)
    ∷ vote_of 2 (body_at 10 7)
    ∷ []

abbrev empty_cache : RewardsCache
empty_cache = record { data_by_ts = []; cache_size = 3 }

abbrev small_cache : RewardsCache
small_cache = record { data_by_ts = []; cache_size = 1 }

abbrev full_cache : RewardsCache
full_cache = update votes empty_cache

abbrev late_cache : RewardsCache
late_cache = update votes small_cache

-- The number that a one-letter address stands for.
abbrev to_int : Text → ℕ
to_int [] = 0
to_int (c ∷ t) = c

update-IsValid_example : IsValid full_cache.data_by_ts × (length full_cache.data_by_ts ≤ 3)
update-IsValid_example = update-IsValid votes empty_cache (record { nodup = tt; groups = tt })

full_cache-IsValid : IsValid full_cache.data_by_ts
full_cache-IsValid =
    let (valid, bound) = update-IsValid votes empty_cache (record { nodup = tt; groups = tt }) in
    valid

late_cache-IsValid : IsValid late_cache.data_by_ts
late_cache-IsValid =
    let (valid, bound) = update-IsValid votes small_cache (record { nodup = tt; groups = tt }) in
    valid

-- The older timestamp is evicted from a cache of one entry.
update-oldest_example : All (λ e. 10 ≤ e.0) late_cache.data_by_ts
unfolding update
update-oldest_example =
    update-oldest votes small_cache 10
      {old = vote_of 3 (body_at 10 7) ∷ vote_of 1 (body_at 10 8) ∷ vote_of 2 (body_at 10 7) ∷ []}
      refl refl

abbrev first_group : List RewardVote
first_group = vote_of 3 (body_at 10 7) ∷ vote_of 1 (body_at 10 8) ∷ vote_of 2 (body_at 10 7) ∷ []

found : find_earliest_winner full_cache 2 ≡ winner first_group (body_at 10 7)
unfolding find_earliest_winner update sort most_common can_submit
found = refl

find_earliest_winner-NoQuorum_example :
    (ts : ℕ) × (lookup ts full_cache.data_by_ts ≡ some first_group)
    × (2 ≤ count (body_at 10 7) (bodies first_group))
    × All (λ e. (ts ≤ e.0) ⊎ NoQuorum 2 e) full_cache.data_by_ts
find_earliest_winner-NoQuorum_example =
    find_earliest_winner-NoQuorum full_cache 2 first_group (body_at 10 7) full_cache-IsValid found

find_earliest_winner-no_winner_example :
    (find_earliest_winner late_cache 2 ≢ index_fault)
    × ((find_earliest_winner late_cache 2 ≡ no_winner) ↔ All (NoQuorum 2) late_cache.data_by_ts)
find_earliest_winner-no_winner_example =
    find_earliest_winner-no_winner late_cache 2 late_cache-IsValid

signers-find_earliest_winner_example :
    (length (signers to_int 2 first_group (body_at 10 7)) ≡ 2)
    × All (λ v. v.body ≡ body_at 10 7) (signers to_int 2 first_group (body_at 10 7))
    × IsSorted (by_address to_int) (signers to_int 2 first_group (body_at 10 7))
signers-find_earliest_winner_example =
    signers-find_earliest_winner to_int full_cache 2 first_group (body_at 10 7) full_cache-IsValid
      found
