-- ===== src/Contracts/Events.antt =====
-- `ContractWrapper._get_last_event` of common/contracts.py: the last event of a range of blocks, searched
-- backwards in chunks that are fetched in batches. Block numbers below 0, which the loop variable
-- reaches and never uses, are not modelled: the loop ends where the next one would be negative.
pub mod Ranges
pub mod Refinement
use v3_keeper.Base.{
  batched_onto, ℕ, zero, suc, ◌+◌, ◌-◌, ◌/◌, max, Bool, leb, ltb, ◌==◌, if◌then◌else◌, List, [],
  ◌∷◌, ◌++◌, Option, none, some, length, last?, prefer, M, pure, raise, ◌>>=◌, ◌>>◌, gather,
  then_do, value_error,
}

-- EVENTS_RANGE_SEC, EVENTS_CONCURRENCY, and SECONDS_PER_BLOCK of the network.
pub record Settings : Type 0 where
  pub range_sec : ℕ
  pub concurrency : ℕ
  pub seconds_per_block : ℕ

unfoldable pub blocks_range : Settings → ℕ
blocks_range settings = max (settings.range_sec / settings.seconds_per_block) 1

-- The `while` loop that lists the chunks, the latest first.
pub ranges_loop : ℕ → ℕ → ℕ → ℕ → List (ℕ × ℕ)
ranges_loop zero width from_block chunk_to = []
ranges_loop (suc fuel) width from_block chunk_to =
    let chunk_from = max (chunk_to - width) from_block in
    let rest = ranges_loop fuel width from_block (chunk_to - width - 1) in
    if leb from_block chunk_to
    then (chunk_from, chunk_to) ∷ (if ltb width chunk_to then rest else [])
    else []

-- One round for each block is enough.
unfoldable pub ranges : ℕ → ℕ → ℕ → List (ℕ × ℕ)
unfolding ranges_loop
ranges width from_block to_block = ranges_loop (to_block + 1) width from_block to_block

-- `for chunk_events in batch_results: if chunk_events: return chunk_events[-1]`
pub first_hit {ℓ} : {E : Type ℓ} → List (List E) → Option E
first_hit [] = none
first_hit (c ∷ cs) = prefer (last? c) (first_hit cs)

-- The early `return` of the loop.
abbrev pub return_or : {E W : Type 0} → Option E → M W (Option E) → M W (Option E)
return_or (some e) rest = pure (some e)
return_or none rest = rest

module _ {E W : Type 0} (get_logs : ℕ → ℕ → M W (List E)) where
  pub search_batches : List (List (ℕ × ℕ)) → M W (Option E)
  unfolding first_hit
  search_batches [] = pure none
  search_batches (batch ∷ batches) = do
    batch_results ← gather (λ r. get_logs r.0 r.1) batch
    return_or (first_hit batch_results) (search_batches batches)

  unfoldable pub get_last_event : Settings → ℕ → ℕ → M W (Option E)
  unfolding search_batches ranges blocks_range
  get_last_event settings from_block to_block =
      if settings.concurrency == 0
      then raise (value_error "n must be at least one")
      else search_batches (
          batched_onto settings.concurrency [] (ranges (blocks_range settings) from_block to_block))
