-- ===== src/Rewards/Cache.antt =====
-- `RewardsCache.update` keeps the cache well formed and bounded, and drops the oldest votes only.
use v3_keeper.Base.{
  ℕ, zero, suc, ◌+◌, ◌≤◌, ◌≡◌, ◌≢◌, refl, Bool, true, false, ltb, ◌==◌, if◌then◌else◌, List, [],
  ◌∷◌, ◌++◌, Option, none, some, min, lookup, NodupKeys, insert-NodupKeys, erase-NodupKeys,
  length-erase, lookup-erase_ne, All, All-append, All-insert, All-lookup, All-erase, length, arith,
  Bool-cases, inl, inr, ◌⊎◌, ◌∙◌, contains, ◌≟◌, ≟_sym, ==_iff, ◌||◌,
}
use v3_keeper.Rewards.{
  RewardVote, RewardsCache, vote_eq, or_empty, votes_at, add_vote, add_votes, min_key, drop_oldest,
  evict, update,
}

-- No vote is listed twice.
abbrev pub NodupVotes : List RewardVote → Type 0
NodupVotes [] = Unit
NodupVotes (v ∷ votes) = (contains v votes ≡ false) × NodupVotes votes

split_false : {a b : Bool} → (a || b) ≡ false → (a ≡ false) × (b ≡ false)
split_false h = ground arith

contains-append_false :
    (v w : RewardVote) (votes : List RewardVote)
    → contains v votes ≡ false
    → (v ≟ w) ≡ false
    → contains v (votes ++ (w ∷ [])) ≡ false
contains-append_false v w [] h k = rw k refl
contains-append_false v w (x ∷ votes) h k =
    let (differ, rest) = split_false {a = v ≟ x} {b = contains v votes} h in
    rw (differ, contains-append_false v w votes rest k) refl

NodupVotes-append :
    (w : RewardVote) (votes : List RewardVote)
    → NodupVotes votes
    → contains w votes ≡ false
    → NodupVotes (votes ++ (w ∷ []))
NodupVotes-append w [] h k = (refl, tt)
NodupVotes-append w (v ∷ votes) (fresh, h) k =
    let (differ, rest) = split_false {a = w ≟ v} {b = contains w votes} k in
    (contains-append_false v w votes fresh (≟_sym w v differ), NodupVotes-append w votes h rest)

-- The votes under a timestamp: some, all of that timestamp, and no vote twice.
pub record IsGroup (e : ℕ × List RewardVote) : Type 0 where
  pub nonempty : e.1 ≢ []
  pub keyed : All (λ v. v.body.update_timestamp ≡ e.0) e.1
  pub distinct : NodupVotes e.1

abbrev Data : Type 0
Data = List (ℕ × List RewardVote)

pub record IsValid (d : List (ℕ × List RewardVote)) : Type 0 where
  pub nodup : NodupKeys d
  pub groups : All IsGroup d

append-nonempty : {A : Type 0} (xs : List A) (x : A) → xs ++ (x ∷ []) ≢ []
append-nonempty [] x h = absurd (ground arith)
append-nonempty (y ∷ ys) x h = absurd (ground arith)

added-IsGroup :
    (v : RewardVote) (votes : List RewardVote)
    → All (λ w. w.body.update_timestamp ≡ v.body.update_timestamp) votes
    → NodupVotes votes
    → contains v votes ≡ false
    → IsGroup (v.body.update_timestamp, votes ++ (v ∷ []))
added-IsGroup v votes keyed distinct fresh = record {
  nonempty = append-nonempty votes v;
  keyed =
      All-append (λ w. w.body.update_timestamp ≡ v.body.update_timestamp) votes (v ∷ []) keyed
        (refl, tt);
  distinct = NodupVotes-append v votes distinct fresh;
}

extended-IsGroup :
    (v : RewardVote) (d : Data) (j : ℕ)
    → All IsGroup d
    → j ≡ v.body.update_timestamp
    → IsGroup (
      j,
      let votes = votes_at v.body.update_timestamp d in
          if contains v votes then votes else votes ++ (v ∷ []),
    )
extended-IsGroup v d j h e = rw e (go (lookup v.body.update_timestamp d) refl)
  where
    go :
        (o : Option (List RewardVote))
        → lookup v.body.update_timestamp d ≡ o
        → IsGroup (
          v.body.update_timestamp,
          let votes = or_empty o in if contains v votes then votes else votes ++ (v ∷ []),
        )
    go none missing = added-IsGroup v [] tt tt refl
    go (some votes) found =
        let old = All-lookup IsGroup v.body.update_timestamp d h found in
        extend votes (contains v votes) refl old
      where
        extend :
            (votes : List RewardVote) (b : Bool)
            → contains v votes ≡ b
            → IsGroup (v.body.update_timestamp, votes)
            → IsGroup (v.body.update_timestamp, if b then votes else votes ++ (v ∷ []))
        extend votes true same old = old
        extend votes false new old = added-IsGroup v votes old.keyed old.distinct new

add_vote-IsValid : (v : RewardVote) (d : Data) → IsValid d → IsValid (add_vote v d)
unfolding add_vote
add_vote-IsValid v d h = record {
  nodup = insert-NodupKeys v.body.update_timestamp _ d h.nodup;
  groups =
      All-insert IsGroup v.body.update_timestamp _ d (λ j e. extended-IsGroup v d j h.groups e)
        h.groups;
}

add_votes-IsValid : (votes : List RewardVote) (d : Data) → IsValid d → IsValid (add_votes votes d)
unfolding add_votes
add_votes-IsValid [] d h = h
add_votes-IsValid (v ∷ votes) d h = add_votes-IsValid votes (add_vote v d) (add_vote-IsValid v d h)

drop_oldest-IsValid : (d : Data) → IsValid d → IsValid (drop_oldest d)
unfolding drop_oldest
drop_oldest-IsValid [] h = h
drop_oldest-IsValid ((k, votes) ∷ d) h = record {
  nodup = erase-NodupKeys (min_key k d) ((k, votes) ∷ d) h.nodup;
  groups = All-erase IsGroup (min_key k d) ((k, votes) ∷ d) h.groups;
}

min_key-found :
    (k : ℕ) (d : Data)
    → (min_key k d ≡ k) ⊎ ((w : List RewardVote) × (lookup (min_key k d) d ≡ some w))
unfolding min_key
min_key-found k [] = inl refl
min_key-found k ((j, us) ∷ d) = elim (Bool-cases (j == min_key (min k j) d)) [
  | inl p ↦ inr (us, rw p refl)
  | inr p ↦ elim (min_key-found (min k j) d) [
    | inl same ↦ inl (ground (arith, ==_iff j (min_key (min k j) d), same, p))
    | inr (w, found) ↦ inr (w, rw (p, found) refl)
  ]
]

length-drop_oldest :
    (e : ℕ × List RewardVote) (d : Data) → suc (length (drop_oldest (e ∷ d))) ≡ length (e ∷ d)
unfolding drop_oldest
length-drop_oldest (k, votes) d = elim (min_key-found k d) [
  | inl same ↦ rw same (ground arith)
  | inr (w, found) ↦ ground (arith, length-erase (min_key k d) {v = w} d)
]

min_key-le : (k n : ℕ) (d : Data) → min_key k d ≤ k
unfolding min_key
min_key-le k n [] = omega arith
min_key-le k n ((j, us) ∷ d) = omega (arith, min_key-le (min k j) n d)

min_key-All : (k : ℕ) (d : Data) → All (λ e. min_key k d ≤ e.0) d
unfolding min_key
min_key-All k [] = tt
min_key-All k ((j, us) ∷ d) = (omega (arith, min_key-le (min k j) 0 d), min_key-All (min k j) d)

abbrev Old : ℕ → Data → Type 0
Old k = All (λ e. k ≤ e.0)

All-drop_oldest : (P : ℕ × List RewardVote → Type 0) (d : Data) → All P d → All P (drop_oldest d)
unfolding drop_oldest
All-drop_oldest P [] h = tt
All-drop_oldest P ((k, votes) ∷ d) h = All-erase P (min_key k d) ((k, votes) ∷ d) h

evict-All :
    (P : ℕ × List RewardVote → Type 0) (fuel size : ℕ) (d : Data)
    → All P d
    → All P (evict fuel size d)
unfolding evict
evict-All P zero size d h = h
evict-All P (suc fuel) size d h = elim (Bool-cases (ltb size (length d))) [
  | inl over ↦ rw over (evict-All P fuel size (drop_oldest d) (All-drop_oldest P d h))
  | inr fits ↦ rw fits h
]

evict-IsValid : (fuel size : ℕ) (d : Data) → IsValid d → IsValid (evict fuel size d)
unfolding evict
evict-IsValid zero size d h = h
evict-IsValid (suc fuel) size d h = elim (Bool-cases (ltb size (length d))) [
  | inl over ↦ rw over (evict-IsValid fuel size (drop_oldest d) (drop_oldest-IsValid d h))
  | inr fits ↦ rw fits h
]

-- Fuel for each entry is enough.
length-evict :
    (fuel size : ℕ) (d : Data) → length d ≤ fuel + size → length (evict fuel size d) ≤ size
unfolding evict
length-evict zero size d h = omega (arith, h)
length-evict (suc fuel) size [] h = ground arith
length-evict (suc fuel) size (e ∷ d) h = elim (Bool-cases (ltb size (length (e ∷ d)))) [
  | inl over ↦
      rw over
        (length-evict fuel size (drop_oldest (e ∷ d)) (omega (arith, length-drop_oldest e d, h)))
  | inr fits ↦ rw fits (ground arith)
]

-- What is evicted is at most as new as all that is kept.
evict-oldest :
    (fuel size k : ℕ) (d : Data) {votes : List RewardVote}
    → lookup k d ≡ some votes
    → lookup k (evict fuel size d) ≡ none
    → Old k (evict fuel size d)
unfolding evict drop_oldest
evict-oldest zero size k d found = λ gone. absurd (ground (arith, found, gone))
evict-oldest (suc fuel) size k [] found = absurd (ground (arith, found))
evict-oldest (suc fuel) size k ((j, us) ∷ d) {votes = votes} found =
    let oldest = min_key j d in
    elim (Bool-cases (ltb size (length ((j, us) ∷ d)))) [
      | inl over ↦ rw over (λ gone. elim (Bool-cases (oldest == k)) [
        | inl same ↦
            let first : k ≡ oldest = ground (arith, ==_iff oldest k, same) in
            evict-All (λ e. k ≤ e.0) fuel size (drop_oldest ((j, us) ∷ d))
              (rw first (
                All-drop_oldest (λ e. oldest ≤ e.0) ((j, us) ∷ d)
                  (min_key-le j 0 d, min_key-All j d)))
        | inr differ ↦
            evict-oldest fuel size k (drop_oldest ((j, us) ∷ d)) {votes = votes}
              (lookup-erase_ne oldest k ((j, us) ∷ d) (ground (arith, ==_iff oldest k, differ))
                ∙ found)
              gone
      ])
      | inr fits ↦ rw fits (λ gone. absurd (ground (arith, found, gone)))
    ]

-- After `update` of a well-formed cache, the cache is well formed and holds at most `cache_size`
-- timestamps.
pub update-IsValid :
    (votes : List RewardVote) (cache : RewardsCache)
    → IsValid cache.data_by_ts
    → IsValid (update votes cache).data_by_ts
      × (length (update votes cache).data_by_ts ≤ cache.cache_size)
unfolding update
update-IsValid votes cache h =
    let d = add_votes votes cache.data_by_ts in
    let size = cache.cache_size in
    (
      evict-IsValid (length d) size d (add_votes-IsValid votes cache.data_by_ts h),
      length-evict (length d) size d (omega arith),
    )

-- A timestamp that `update` dropped is at most as new as all that it kept.
pub update-oldest :
    (votes : List RewardVote) (cache : RewardsCache) (k : ℕ) {old : List RewardVote}
    → lookup k (add_votes votes cache.data_by_ts) ≡ some old
    → lookup k (update votes cache).data_by_ts ≡ none
    → All (λ e. k ≤ e.0) (update votes cache).data_by_ts
unfolding update
update-oldest votes cache k {old = old} found gone =
    let d = add_votes votes cache.data_by_ts in
    evict-oldest (length d) cache.cache_size k d {votes = old} found gone
