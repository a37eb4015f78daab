-- ===== src/Rewards/Winner.antt =====
-- What `_find_earliest_winner` answers.
use v3_keeper.Base.{
  ℕ, ◌≤◌, ◌<◌, ◌≡◌, ◌≢◌, refl, ◌∙◌, true, false, List, [], ◌∷◌, map, some, lookup, lookup-All, ◌↔◌,
  All, All-map, arith, Bool-cases, Option-cases, inl, inr, ◌⊎◌, subst, ap, sym,
}
use v3_keeper.Votes.Counter.{most_common}
use v3_keeper.Votes.Counter.Laws.{count, most_common-count, most_common-cons}
use v3_keeper.Votes.Sorting.{sort}
use v3_keeper.Votes.Sorting.Laws.{IsSorted, All-sort, sort-All, sort-IsSorted}
use v3_keeper.Rewards.{
  RewardVote, RewardVoteBody, RewardsCache, body_eq, with_timestamps, rewards, earlier, can_submit,
  Search, index_fault, no_winner, winner, winner_among, find_earliest_winner,
}
use v3_keeper.Rewards.Cache.{IsGroup, IsValid}

abbrev pub bodies : List RewardVote → List RewardVoteBody
bodies = map (λ v. v.body)

-- No body has as many votes as the threshold.
abbrev pub NoQuorum : ℕ → ℕ × List RewardVote → Type 0
NoQuorum threshold e = (body : RewardVoteBody) → count body (bodies e.1) < threshold

votes_of : List RewardVote → Search → List RewardVote
votes_of d (winner votes body) = votes
votes_of d _ = d

body_of : RewardVoteBody → Search → RewardVoteBody
body_of d (winner votes body) = body
body_of d _ = d

winner-injective :
    (us votes : List RewardVote) (b body : RewardVoteBody)
    → winner us b ≡ winner votes body
    → (us ≡ votes) × (b ≡ body)
unfolding votes_of body_of
winner-injective us votes b body h = (ap (votes_of us) h, ap (body_of b) h)

module _ (threshold : ℕ) where
  fits-le : (n : ℕ) → can_submit n threshold ≡ true → threshold ≤ n
  unfolding can_submit
  fits-le n h = ground arith

  misses-lt : (n : ℕ) → can_submit n threshold ≡ false → n < threshold
  unfolding can_submit
  misses-lt n h = ground arith

  winner_among-winner :
      (P : ℕ × List RewardVote → Type 0) (groups : List (ℕ × List RewardVote))
      (votes : List RewardVote) (body : RewardVoteBody)
      → All P groups
      → IsSorted earlier groups
      → winner_among threshold groups ≡ winner votes body
      → (ts : ℕ) × P (ts, votes)
        × (threshold ≤ count body (bodies votes))
        × All (λ e. (ts ≤ e.0) ⊎ NoQuorum threshold e) groups
  unfolding winner_among
  winner_among-winner P [] votes body p s = λ h. absurd (ground (arith, h))
  winner_among-winner P ((ts, us) ∷ groups) votes body (px, p) (sx, s) =
      elim (Option-cases (most_common (bodies us))) [
        | inl fault ↦ rw fault (λ h. absurd (ground (arith, h)))
        | inr ((b, n), found) ↦ elim (Bool-cases (can_submit n threshold)) [
          | inl fits ↦
              rw (found, fits)
                (λ h.
                  let (same_votes, same_body) = winner-injective us votes b body h in
                  let (own, max) = most_common-count (bodies us) b n found in
                  (
                    ts,
                    subst (λ w. P (ts, w)) same_votes px,
                    rw (sym same_votes, sym same_body) (omega (arith, own, fits-le n fits)),
                    (
                      inl (omega arith),
                      All-map (λ e. earlier (ts, us) e ≡ true)
                          (λ e. (ts ≤ e.0) ⊎ NoQuorum threshold e) groups
                          (λ e q. inl (ground (arith, q))) sx,
                    ),
                  ))
          | inr misses ↦
              rw (found, misses)
                (λ h.
                  let (own, max) = most_common-count (bodies us) b n found in
                  let (t, pt, quorum, older) = winner_among-winner P groups votes body p s h in
                  (
                    t,
                    pt,
                    quorum,
                    (inr (λ other. omega (arith, max other, misses-lt n misses)), older),
                  ))
        ]
      ]

  winner_among-no_winner :
      (groups : List (ℕ × List RewardVote))
      → winner_among threshold groups ≡ no_winner
      → All (NoQuorum threshold) groups
  unfolding winner_among
  winner_among-no_winner [] = λ h. tt
  winner_among-no_winner ((ts, us) ∷ groups) = elim (Option-cases (most_common (bodies us))) [
    | inl fault ↦ rw fault (λ h. absurd (ground (arith, h)))
    | inr ((b, n), found) ↦ elim (Bool-cases (can_submit n threshold)) [
      | inl fits ↦ rw (found, fits) (λ h. absurd (ground (arith, h)))
      | inr misses ↦
          rw (found, misses)
            (λ h.
              let (own, max) = most_common-count (bodies us) b n found in
              (
                (λ body. omega (arith, max body, misses-lt n misses)),
                winner_among-no_winner groups h,
              ))
    ]
  ]

  winner_among-NoQuorum :
      (groups : List (ℕ × List RewardVote))
      → All IsGroup groups
      → All (NoQuorum threshold) groups
      → winner_among threshold groups ≡ no_winner
  unfolding winner_among
  winner_among-NoQuorum [] p q = refl
  winner_among-NoQuorum ((ts, []) ∷ groups) (px, p) q = absurd (px.nonempty refl)
  winner_among-NoQuorum ((ts, v ∷ us) ∷ groups) (px, p) (qx, q) =
      let ((b, n), found) = most_common-cons v.body (bodies us) in
      let (own, max) = most_common-count (bodies (v ∷ us)) b n found in
      elim (Bool-cases (can_submit n threshold)) [
        | inl fits ↦ absurd (omega (arith, own, fits-le n fits, qx b))
        | inr misses ↦ rw (found, misses) (winner_among-NoQuorum groups p q)
      ]

  winner_among-index_fault :
      (groups : List (ℕ × List RewardVote))
      → All IsGroup groups
      → winner_among threshold groups ≢ index_fault
  unfolding winner_among
  winner_among-index_fault [] p = λ h. absurd (ground (arith, h))
  winner_among-index_fault ((ts, []) ∷ groups) (px, p) = λ h. absurd (px.nonempty refl)
  winner_among-index_fault ((ts, v ∷ us) ∷ groups) (px, p) =
      let ((b, n), found) = most_common-cons v.body (bodies us) in
      elim (Bool-cases (can_submit n threshold)) [
        | inl fits ↦ rw (found, fits) (λ h. absurd (ground (arith, h)))
        | inr misses ↦ rw (found, misses) (winner_among-index_fault groups p)
      ]

-- A group of the cache is found under its own timestamp.
with_timestamps-valid :
    (d : List (ℕ × List RewardVote)) → All IsGroup d → with_timestamps d ≡ some d
unfolding with_timestamps
with_timestamps-valid [] h = refl
with_timestamps-valid ((ts, []) ∷ d) (hx, h) = absurd (hx.nonempty refl)
with_timestamps-valid ((ts, v ∷ us) ∷ d) (hx, h) =
    let same : v.body.update_timestamp ≡ ts = hx.keyed.0 in
    rw (with_timestamps-valid d h) (ap (λ k. some ((k, v ∷ us) ∷ d)) same)

earlier_total : (a b : ℕ × List RewardVote) → earlier a b ≡ false → earlier b a ≡ true
earlier_total a b h = ground arith

earlier_trans :
    (a b c : ℕ × List RewardVote) → earlier a b ≡ true → earlier b c ≡ true → earlier a c ≡ true
earlier_trans a b c h k = ground arith

-- A well-formed cache lists its groups in the order of their timestamps.
rewards-valid :
    (cache : RewardsCache)
    → IsValid cache.data_by_ts
    → rewards cache ≡ some (sort earlier cache.data_by_ts)
unfolding rewards
rewards-valid cache h = rw (with_timestamps-valid cache.data_by_ts h.groups, rewards) refl

find-sorted :
    (cache : RewardsCache) (threshold : ℕ)
    → IsValid cache.data_by_ts
    → find_earliest_winner cache threshold ≡ winner_among threshold (sort earlier cache.data_by_ts)
unfolding find_earliest_winner
find-sorted cache threshold h = rw (rewards-valid cache h, find_earliest_winner) refl

-- If a well-formed cache has a winner, the winning votes are the group of the cache under some
-- timestamp, the winning body has as many of these votes as the threshold, and each group of an
-- older timestamp has no body with that many.
pub find_earliest_winner-NoQuorum :
    (cache : RewardsCache) (threshold : ℕ) (votes : List RewardVote) (body : RewardVoteBody)
    → IsValid cache.data_by_ts
    → find_earliest_winner cache threshold ≡ winner votes body
    → (ts : ℕ) × (lookup ts cache.data_by_ts ≡ some votes)
      × (threshold ≤ count body (bodies votes))
      × All (λ e. (ts ≤ e.0) ⊎ NoQuorum threshold e) cache.data_by_ts
find_earliest_winner-NoQuorum cache threshold votes body h found =
    let d = cache.data_by_ts in
    let IsFound : ℕ × List RewardVote → Type 0 = λ e. lookup e.0 d ≡ some e.1 in
    let (ts, at, quorum, older) =
      winner_among-winner threshold IsFound (sort earlier d) votes body
        (All-sort earlier IsFound d (lookup-All d h.nodup))
        (sort-IsSorted earlier earlier_total earlier_trans d)
        (sym (find-sorted cache threshold h) ∙ found) in
    (ts, at, quorum, sort-All earlier (λ e. (ts ≤ e.0) ⊎ NoQuorum threshold e) d older)

-- On a well-formed cache the search never raises `IndexError`, and it finds no winner exactly if no
-- group has a body with as many votes as the threshold.
pub find_earliest_winner-no_winner :
    (cache : RewardsCache) (threshold : ℕ)
    → IsValid cache.data_by_ts
    → (find_earliest_winner cache threshold ≢ index_fault)
      × ((find_earliest_winner cache threshold ≡ no_winner)
          ↔ All (NoQuorum threshold) cache.data_by_ts)
find_earliest_winner-no_winner cache threshold h =
    let d = cache.data_by_ts in
    rw (find-sorted cache threshold h) (
      winner_among-index_fault threshold (sort earlier d) (All-sort earlier IsGroup d h.groups),
      (
        λ none.
            sort-All earlier (NoQuorum threshold) d
              (winner_among-no_winner threshold (sort earlier d) none),
        λ all.
            winner_among-NoQuorum threshold (sort earlier d) (All-sort earlier IsGroup d h.groups)
              (All-sort earlier (NoQuorum threshold) d all),
      ),
    )
