-- ===== src/Rewards/Service/Validity.antt =====
-- The cache of votes through a run of `process_rewards`.
use v3_keeper.Base.{
  ℕ, ◌≤◌, ◌==◌, ◌≡◌, length, filter, Bool-cases, inl, inr, List, M, Sys, after, after-then_do,
  after-with_mem, Text, ext, modify, then_do, arith,
}
use v3_keeper.Rewards.{
  RewardVote, RewardsCache, update, clear, Search, index_fault, no_winner, winner, signers,
}
use v3_keeper.Rewards.Cache.{IsValid, update-IsValid}
use v3_keeper.Rewards.Fetch.{Http, fetch_reward_votes}
use v3_keeper.Rewards.Service.{
  joined, Keeper, ProtocolConfig, submit_vote, submit_winner, process_votes, process_fetched,
  process_rewards,
}

-- A cache that is well formed and within its size.
pub record IsBounded (size : ℕ) (cache : RewardsCache) : Type 0 where
  pub valid : IsValid cache.data_by_ts
  pub bound : length cache.data_by_ts ≤ cache.cache_size
  pub kept : cache.cache_size ≡ size

update-IsBounded :
    (size : ℕ) (votes : List RewardVote) (cache : RewardsCache)
    → IsBounded size cache
    → IsBounded size (update votes cache)
unfolding update
update-IsBounded size votes cache h =
    let (valid, bound) = update-IsValid votes cache h.valid in
    record { valid = valid; bound = bound; kept = h.kept }

clear-IsBounded :
    (size : ℕ) (cache : RewardsCache) → IsBounded size cache → IsBounded size (clear cache)
unfolding clear
clear-IsBounded size cache h = record {
  valid = record { nodup = tt; groups = tt };
  bound = omega arith;
  kept = h.kept;
}

module _ {W : Type 0} (http : Http W) (keeper : Keeper W) (to_int : Text → ℕ) (size : ℕ) where
  abbrev Kept : Sys RewardsCache W → Type 0
  Kept s = IsBounded size s.mem

  -- A call of the world, and then an action that keeps the cache bounded.
  ext-Kept :
      {A : Type 0} (m : M W A) (f : A → M (Sys RewardsCache W) (Unit {0})) (s : Sys RewardsCache W)
      → Kept s
      → ((a : A) (t : Sys RewardsCache W) → Kept t → Kept (after (f a t)))
      → Kept (after (then_do (ext m s) f))
  ext-Kept m f s h k =
      after-then_do Kept (ext m s) f
        (after-with_mem {Q = RewardsCache} (IsBounded size) s.mem (m s.env) h) (λ a t e g. k a t g)

  submit_winner-Kept :
      (config : ProtocolConfig) (found : Search) (s : Sys RewardsCache W)
      → Kept s
      → Kept (after (submit_winner http keeper to_int config found s))
  unfolding submit_winner
  submit_winner-Kept config index_fault s h = h
  submit_winner-Kept config no_winner s h = h
  submit_winner-Kept config (winner votes body) s h =
      let chosen = signers to_int config.rewards_threshold votes body in
      ext-Kept (submit_vote http keeper to_int body (joined chosen)) (λ _. modify clear) s h
        (λ a t g. clear-IsBounded size t.mem g)

  process_votes-Kept :
      (config : ProtocolConfig) (votes : List RewardVote) (s : Sys RewardsCache W)
      → Kept s
      → Kept (after (process_votes http keeper to_int config votes s))
  unfolding process_votes
  process_votes-Kept config votes s h =
      submit_winner-Kept config _ _ (update-IsBounded size votes s.mem h)

  process_fetched-Kept :
      (config : ProtocolConfig) (s : Sys RewardsCache W)
      → Kept s
      → Kept (after (process_fetched http keeper to_int config s))
  unfolding process_fetched
  process_fetched-Kept config s h =
      ext-Kept (fetch_reward_votes http config.oracles) _ s h (λ votes t g.
        elim (Bool-cases (length votes == 0)) [
          | inl absent ↦ rw absent g
          | inr there ↦ rw there (
              ext-Kept keeper.get_rewards_nonce _ t g (λ nonce u k.
                elim (Bool-cases (length (filter (λ v. v.nonce == nonce) votes) == 0)) [
                  | inl old ↦ rw old k
                  | inr new ↦ rw new (process_votes-Kept config _ u k)
                ]))
        ])

  -- A run keeps the cache well formed and within its size, whatever the oracles and the chain answer,
  -- and whether it returns or raises.
  pub process_rewards-IsBounded :
      (config : ProtocolConfig) (s : Sys RewardsCache W)
      → IsBounded size s.mem
      → IsBounded size (after (process_rewards http keeper to_int config s)).mem
  unfolding process_rewards
  process_rewards-IsBounded config s h = ext-Kept keeper.can_update_rewards _ s h (λ ready t g.
      elim (Bool-cases ready) [
        | inl due ↦ rw due (process_fetched-Kept config t g)
        | inr early ↦ rw early g
      ])
