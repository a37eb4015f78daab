-- ===== src/Contracts/Examples.antt =====
-- The chunked event search on a small log, and its theorems at concrete inputs.
use v3_keeper.Base.{
  All, batched_onto, ℕ, ◌≡◌, refl, List, [], ◌∷◌, some, arith, M, done, last?, ◌+◌,
}
use v3_keeper.Contracts.Events.{Settings, ranges, get_last_event}
use v3_keeper.Contracts.Events.Ranges.{IsChunk, holders, ranges_partition}
use v3_keeper.Contracts.Events.Refinement.{events_in, get_last_event-last?}

-- An event is its block number here.
abbrev log : List ℕ
log = 3 ∷ 17 ∷ 17 ∷ 40 ∷ 90 ∷ []

abbrev settings : Settings
settings = record { range_sec = 120; concurrency = 2; seconds_per_block = 12 }

abbrev logs_of : ℕ → ℕ → M ℕ (List ℕ)
logs_of f t w = done (events_in (λ b. b) f t log) (w + 1)

abbrev quiet_logs_of : ℕ → ℕ → M ℕ (List ℕ)
quiet_logs_of f t w = done (events_in (λ b. b) f t log) w

chunks : ranges 10 5 40 ≡ (30, 40) ∷ (19, 29) ∷ (8, 18) ∷ (5, 7) ∷ []
unfolding ranges
chunks = refl

-- The third chunk holds the event, and two batches of two requests are made.
found_back : get_last_event logs_of settings 5 39 0 ≡ done (some 17) 4
unfolding get_last_event batched_onto
found_back = refl

get_last_event-last?_example :
    get_last_event quiet_logs_of settings 5 39 0 ≡ done (last? (events_in (λ b. b) 5 39 log)) 0
get_last_event-last?_example =
    get_last_event-last? (λ b. b) quiet_logs_of log (λ f t w. refl) (omega arith) settings 5 39 0
      (omega arith)

ranges_partition_example :
    All (IsChunk 10 5 40) (ranges 10 5 40) × (holders 17 (ranges 10 5 40) ≡ 1)
ranges_partition_example = ranges_partition 10 5 40 17 (omega arith) (omega arith)
