-- ===== src/Rewards/Fetch/Newest.antt =====
-- The vote that `_fetch_vote_from_oracle` takes of the votes of an oracle's endpoints.
use v3_keeper.Base.{
  ℕ, ◌≤◌, ◌<◌, ◌≡◌, refl, subst, max, ◌==◌, length, filter, last?, Bool, true, false, Bool-cases,
  inl, inr, ◌⊎◌, List, [], ◌∷◌, some, All, All-map, All-zip, filter-All, filter-passes, ◌∙◌, arith,
}
use mathlib.Core.Option.{some-injective}
use v3_keeper.Votes.Sorting.{sort}
use v3_keeper.Votes.Sorting.Laws.{IsSorted, All-sort, sort-All, sort-IsSorted, last-sort}
use v3_keeper.Rewards.{RewardVote}
use v3_keeper.Rewards.Fetch.{by_timestamp, max_nonce, first_or_last, newest}

-- A vote that no other supersedes: each has a lower nonce, or the same and a timestamp that is not later.
abbrev pub Supersedes : RewardVote → RewardVote → Type 0
Supersedes v w =
    (w.nonce < v.nonce)
    ⊎ ((w.nonce ≡ v.nonce) × (w.body.update_timestamp ≤ v.body.update_timestamp))

abbrev NotLater : RewardVote → RewardVote → Type 0
NotLater v w = w.body.update_timestamp ≤ v.body.update_timestamp

by_timestamp_total : (a b : RewardVote) → by_timestamp a b ≡ false → by_timestamp b a ≡ true
by_timestamp_total a b h = ground arith

by_timestamp_trans :
    (a b c : RewardVote)
    → by_timestamp a b ≡ true
    → by_timestamp b c ≡ true
    → by_timestamp a c ≡ true
by_timestamp_trans a b c h k = ground arith

last-All :
    (P : RewardVote → Type 0) (v : RewardVote) (votes : List RewardVote)
    → All P votes
    → last? votes ≡ some v
    → P v
last-All P v [] p h = absurd (ground arith)
last-All P v (w ∷ []) p h = subst P (some-injective w v h) p.0
last-All P v (w ∷ x ∷ votes) p h = last-All P v (x ∷ votes) p.1 h

last-sorted :
    (v : RewardVote) (votes : List RewardVote)
    → IsSorted by_timestamp votes
    → last? votes ≡ some v
    → All (NotLater v) votes
last-sorted v [] s h = tt
last-sorted v (w ∷ []) s h = (subst (λ u. NotLater u w) (some-injective w v h) (omega arith), tt)
last-sorted v (w ∷ x ∷ votes) (hw, s) h =
    let before = last-All (λ u. by_timestamp w u ≡ true) v (x ∷ votes) hw h in
    (ground (arith, before), last-sorted v (x ∷ votes) s h)

max_nonce-All : (votes : List RewardVote) → All (λ w. w.nonce ≤ max_nonce votes) votes
unfolding max_nonce
max_nonce-All [] = tt
max_nonce-All (v ∷ votes) = (
  omega arith,
  All-map (λ w. w.nonce ≤ max_nonce votes) (λ w. w.nonce ≤ max v.nonce (max_nonce votes)) votes
      (λ w h. omega (arith, h)) (max_nonce-All votes),
)

-- Some vote has the greatest nonce.
max_nonce-found :
    (m : ℕ) (w : RewardVote) (votes : List RewardVote)
    → m ≡ max_nonce (w ∷ votes)
    → 1 ≤ length (filter (λ u. u.nonce == m) (w ∷ votes))
unfolding max_nonce
max_nonce-found m w [] h = ground arith
max_nonce-found m w (x ∷ votes) h = ground (arith, max_nonce-found m x votes)

supersedes :
    (m : ℕ) (u v : RewardVote)
    → u.nonce ≤ m
    → ((u.nonce == m) ≡ false) ⊎ NotLater v u
    → (v.nonce == m) ≡ true
    → Supersedes v u
supersedes m u v le (inl e) own = inl (ground arith)
supersedes m u v le (inr e) own = elim (Bool-cases (u.nonce == m)) [
  | inl same ↦ inr (ground arith, e)
  | inr differ ↦ inl (ground arith)
]

first_or_last-sort :
    (votes : List RewardVote) → first_or_last votes ≡ last? (sort by_timestamp votes)
unfolding sort
first_or_last-sort [] = refl
first_or_last-sort (v ∷ []) = refl
first_or_last-sort (v ∷ w ∷ votes) = refl

first_or_last-some :
    (votes : List RewardVote)
    → 1 ≤ length votes
    → (v : RewardVote) × (last? (sort by_timestamp votes) ≡ some v)
first_or_last-some [] h = absurd (omega arith)
first_or_last-some (v ∷ votes) h = last-sort by_timestamp v votes

-- From at least one vote, a vote is taken that supersedes all of them: each has a lower nonce, or the same
-- nonce and a timestamp that is not later.
pub newest-Supersedes :
    (w : RewardVote) (votes : List RewardVote)
    → (v : RewardVote) × (newest (w ∷ votes) ≡ some v) × All (Supersedes v) (w ∷ votes)
unfolding newest
newest-Supersedes w votes =
    let all = w ∷ votes in
    let m = max_nonce all in
    let has_max : RewardVote → Bool = λ u. u.nonce == m in
    let kept = filter has_max all in
    let (v, last) = first_or_last-some kept (max_nonce-found m w votes refl) in
    let sorted = sort-IsSorted by_timestamp by_timestamp_total by_timestamp_trans kept in
    let later = sort-All by_timestamp (NotLater v) kept (last-sorted v _ sorted last) in
    let own =
      last-All (λ u. has_max u ≡ true) v _
        (All-sort by_timestamp (λ u. has_max u ≡ true) kept (filter-passes has_max all)) last in
    (
      v,
      first_or_last-sort kept ∙ last,
      All-zip (λ u. u.nonce ≤ m) (λ u. (has_max u ≡ false) ⊎ NotLater v u) (Supersedes v) all
          (λ u le e. supersedes m u v le e own) (max_nonce-All all)
          (filter-All (NotLater v) has_max all later),
    )
