-- ===== src/Contracts/Events/Refinement.antt =====
-- The chunked search returns what a plain filter of the whole log returns.
use v3_keeper.Base.{
  concat, concat-batched_onto, ℕ, zero, suc, ◌+◌, ◌-◌, ◌≤◌, ◌<◌, ◌≡◌, ◌≢◌, refl, sym, max, Bool,
  true, false, ◌&&◌, leb, ltb, ◌==◌, List, [], ◌∷◌, ◌++◌, map, Option, none, some, last?, prefer,
  last?-append, filter, All, arith, done, M, gather, Bool-cases, Option-cases, inl, inr,
}
use mathlib.Core.List.{map-append}
use v3_keeper.Contracts.Events.{
  Settings, blocks_range, ranges_loop, ranges, first_hit, search_batches, get_last_event,
}

module _ {E : Type 0} where
  prefer-none : (o : Option E) → prefer o none ≡ o
  prefer-none none = refl
  prefer-none (some e) = refl

  first_hit-append :
      (cs ds : List (List E)) → first_hit (cs ++ ds) ≡ prefer (first_hit cs) (first_hit ds)
  unfolding first_hit
  first_hit-append [] ds = refl
  first_hit-append (c ∷ cs) ds = ground (arith, first_hit-append cs ds)

module _ {E : Type 0} (block : E → ℕ) where
  -- The events of the blocks from `f` to `t`.
  abbrev pub events_in : ℕ → ℕ → List E → List E
  events_in f t = filter (λ e. leb f (block e) && leb (block e) t)

  -- The order of a log: by block number.
  abbrev pub IsOrdered : List E → Type 0
  IsOrdered [] = Unit
  IsOrdered (e ∷ l) = All (λ d. block e ≤ block d) l × IsOrdered l

  events_in_below : (a b : ℕ) (l : List E) → All (λ d. b < block d) l → events_in a b l ≡ []
  events_in_below a b [] h = refl
  events_in_below a b (e ∷ l) (he, h) = ground (arith, events_in_below a b l h)

  events_in_above :
      (a b c : ℕ) (l : List E)
      → a ≤ b
      → All (λ d. b < block d) l
      → events_in a c l ≡ events_in (b + 1) c l
  events_in_above a b c [] k h = refl
  events_in_above a b c (e ∷ l) k (he, h) = ground (arith, events_in_above a b c l k h)

  events_in_empty : (a b : ℕ) (l : List E) → b < a → events_in a b l ≡ []
  events_in_empty a b [] h = refl
  events_in_empty a b (e ∷ l) h = ground (arith, events_in_empty a b l h)

  All-above :
      (e : E) (b : ℕ) (l : List E)
      → b < block e
      → All (λ d. block e ≤ block d) l
      → All (λ d. b < block d) l
  All-above e b [] h k = tt
  All-above e b (d ∷ l) h (kd, k) = (omega arith, All-above e b l h k)

  -- In an ordered log the events up to `c` are those up to `b` and then those after `b`.
  pub events_in_split :
      (a b c : ℕ) (l : List E)
      → IsOrdered l
      → a ≤ b
      → b ≤ c
      → events_in a c l ≡ events_in a b l ++ events_in (b + 1) c l
  events_in_split a b c [] o h k = refl
  events_in_split a b c (e ∷ l) (oe, o) h k = elim (Bool-cases (leb (block e) b)) [
    | inl low ↦ ground (arith, events_in_split a b c l o h k)
    | inr high ↦
        let above = All-above e b l (ground arith) oe in
        ground (arith, events_in_below a b l above, events_in_above a b c l h above)
  ]

  chunk : List E → ℕ × ℕ → List E
  chunk log r = events_in r.0 r.1 log

  -- The last chunk and the range before it.
  chunk_hit :
      (log : List E)
      → IsOrdered log
      → (width from_block chunk_to : ℕ) (b : Bool) → width < chunk_to
      → leb from_block (chunk_to - width - 1) ≡ b
      → prefer
          (last? (events_in (max (chunk_to - width) from_block) chunk_to log))
          (last? (events_in from_block (chunk_to - width - 1) log))
        ≡ last? (events_in from_block chunk_to log)
  chunk_hit log o width from_block chunk_to true k c =
      let next = chunk_to - width - 1 in
      let e : max (chunk_to - width) from_block ≡ next + 1 = ground arith in
      rw (e, events_in_split from_block next chunk_to log o (ground arith) (omega arith))
        (sym (last?-append (events_in from_block next log) (events_in (next + 1) chunk_to log)))
  chunk_hit log o width from_block chunk_to false k c =
      let e : max (chunk_to - width) from_block ≡ from_block = ground arith in
      rw (e, events_in_empty from_block (chunk_to - width - 1) log (ground arith)) (prefer-none _)

  first_hit-ranges_loop :
      (log : List E)
      → IsOrdered log
      → (fuel width from_block chunk_to : ℕ) → chunk_to < fuel
      → first_hit (map (chunk log) (ranges_loop fuel width from_block chunk_to))
        ≡ last? (events_in from_block chunk_to log)
  unfolding first_hit ranges_loop chunk
  first_hit-ranges_loop log o zero width from_block chunk_to h = absurd (omega arith)
  first_hit-ranges_loop log o (suc fuel) width from_block chunk_to h =
      elim (Bool-cases (leb from_block chunk_to)) [
        | inr out ↦ rw (out, events_in_empty from_block chunk_to log (ground arith)) refl
        | inl inside ↦ elim (Bool-cases (ltb width chunk_to)) [
          | inr narrow ↦
              let e : max (chunk_to - width) from_block ≡ from_block = ground arith in
              rw (inside, narrow, e) (prefer-none _)
          | inl wide ↦
              let k : width < chunk_to = ground arith in
              let next = chunk_to - width - 1 in
              let rest = first_hit-ranges_loop log o fuel width from_block next (omega arith) in
              rw (inside, wide, rest)
                (chunk_hit log o width from_block chunk_to (leb from_block next) k refl)
        ]
      ]

  module _ {W : Type 0} (get_logs : ℕ → ℕ → M W (List E)) (log : List E)
      (answers : (f t : ℕ) (w : W) → get_logs f t w ≡ done (events_in f t log) w) where
    gather-answers :
        (rs : List (ℕ × ℕ)) (w : W)
        → gather (λ r. get_logs r.0 r.1) rs w ≡ done (map (chunk log) rs) w
    unfolding chunk
    gather-answers [] w = refl
    gather-answers (r ∷ rs) w = rw (answers r.0 r.1 w, gather-answers rs w) refl

    search_batches-answers :
        (bs : List (List (ℕ × ℕ))) (w : W)
        → search_batches get_logs bs w ≡ done (first_hit (map (chunk log) (concat bs))) w
    unfolding search_batches
    search_batches-answers [] w = refl
    search_batches-answers (b ∷ bs) w =
        rw (gather-answers b w, map-append (chunk log) b (concat bs), first_hit-append)
          (elim (Option-cases (first_hit (map (chunk log) b))) [
            | inl miss ↦ rw miss (search_batches-answers bs w)
            | inr (e, hit) ↦ rw hit refl
          ])

    -- Over a node that answers from an ordered log, and with a concurrency of at least 1, the search
    -- returns the last event of the range, or `none` if there is none.
    pub get_last_event-last? :
        IsOrdered log
        → (settings : Settings) (from_block to_block : ℕ) (w : W) → settings.concurrency ≢ 0
        → get_last_event get_logs settings from_block to_block w
          ≡ done (last? (events_in from_block to_block log)) w
    unfolding get_last_event ranges
    get_last_event-last? o settings from_block to_block w h =
        let width = blocks_range settings in
        let c : (settings.concurrency == 0) ≡ false = ground arith in
        rw
          (
            c,
            search_batches-answers _ w,
            concat-batched_onto settings.concurrency [] (ranges width from_block to_block),
            first_hit-ranges_loop log o (to_block + 1) width from_block to_block (omega arith),
          )
          refl
