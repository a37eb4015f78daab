-- ===== src/Contracts/Events/Ranges.antt =====
-- The chunks that `_get_last_event` asks for.
use v3_keeper.Base.{
  ℕ, zero, suc, ◌+◌, ◌-◌, ◌≤◌, ◌<◌, ◌≡◌, refl, leb, List, All, arith, [], ◌∷◌, ◌&&◌, if◌then◌else◌,
}
use v3_keeper.Contracts.Events.{ranges_loop, ranges}

-- A chunk lies in the range that is searched, and is not too wide for one request.
pub record IsChunk (width from_block to_block : ℕ) (r : ℕ × ℕ) : Type 0 where
  pub starts : from_block ≤ r.0
  pub ordered : r.0 ≤ r.1
  pub ends : r.1 ≤ to_block
  pub narrow : r.1 ≤ r.0 + width

ranges_loop-IsChunk :
    (fuel width from_block chunk_to to_block : ℕ)
    → chunk_to ≤ to_block
    → All (IsChunk width from_block to_block) (ranges_loop fuel width from_block chunk_to)
unfolding ranges_loop
ranges_loop-IsChunk zero width from_block chunk_to to_block h = tt
ranges_loop-IsChunk (suc fuel) width from_block chunk_to to_block h =
    ground (arith, ranges_loop-IsChunk fuel width from_block (chunk_to - width - 1) to_block)

-- The number of chunks that hold the block.
abbrev pub holders : ℕ → List (ℕ × ℕ) → ℕ
holders b [] = 0
holders b ((f, t) ∷ rs) = (if leb f b && leb b t then 1 else 0) + holders b rs

ranges_loop-none :
    (fuel width from_block chunk_to b : ℕ)
    → chunk_to < b
    → holders b (ranges_loop fuel width from_block chunk_to) ≡ 0
unfolding ranges_loop
ranges_loop-none zero width from_block chunk_to b h = refl
ranges_loop-none (suc fuel) width from_block chunk_to b h =
    ground (arith, ranges_loop-none fuel width from_block (chunk_to - width - 1) b)

ranges_loop-one :
    (fuel width from_block chunk_to b : ℕ)
    → chunk_to < fuel
    → from_block ≤ b
    → b ≤ chunk_to
    → holders b (ranges_loop fuel width from_block chunk_to) ≡ 1
unfolding ranges_loop
ranges_loop-one zero width from_block chunk_to b h k l = absurd (omega arith)
ranges_loop-one (suc fuel) width from_block chunk_to b h k l = ground (
  arith,
  ranges_loop-one fuel width from_block (chunk_to - width - 1) b,
  ranges_loop-none fuel width from_block (chunk_to - width - 1) b,
)

holders-ranges :
    (width from_block to_block b : ℕ)
    → from_block ≤ b
    → b ≤ to_block
    → holders b (ranges width from_block to_block) ≡ 1
unfolding ranges
holders-ranges width from_block to_block b h k =
    ranges_loop-one (to_block + 1) width from_block to_block b (omega arith) h k

ranges-IsChunk :
    (width from_block to_block : ℕ)
    → All (IsChunk width from_block to_block) (ranges width from_block to_block)
unfolding ranges
ranges-IsChunk width from_block to_block =
    ranges_loop-IsChunk (to_block + 1) width from_block to_block to_block (omega arith)

-- Each chunk that is asked for lies in the range, is not empty, and spans at most `width` + 1 blocks, and each
-- block of the range lies in exactly one chunk.
pub ranges_partition :
    (width from_block to_block b : ℕ)
    → from_block ≤ b
    → b ≤ to_block
    → All (IsChunk width from_block to_block) (ranges width from_block to_block)
      × (holders b (ranges width from_block to_block) ≡ 1)
ranges_partition width from_block to_block b h k =
    (ranges-IsChunk width from_block to_block, holders-ranges width from_block to_block b h k)
