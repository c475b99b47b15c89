-- ===== src/Ingester/Config.antt =====
-- The configuration that `NewIngester` of ingester.go works with.
use sqlog.Base.{◌≤◌, ◌≡◌, refl, ◌⊎◌, arith}
use sqlog.Base.Int.{pos, ◌≤ℤ◌, ◌<ℤ◌}
use sqlog.Ingester.{IngesterConfig, with_defaults}

-- What the rest of the ingester relies on.
pub record InRange (c : IngesterConfig) : Type 0 where
  pub chunks : 1 ≤ c.chunks
  pub chunk_size : (1 ≤ c.chunk_size) × (c.chunk_size ≤ 900)
  pub max_dirty_chunks : (pos c.chunks <ℤ c.max_dirty_chunks) ⊎ (c.max_dirty_chunks ≡ pos 50)
  pub max_flush_retry : pos 1 ≤ℤ c.max_flush_retry
  pub flush_after_sec : pos 1 ≤ℤ c.flush_after_sec
  pub interval_check_ms : pos 1 ≤ℤ c.interval_check_ms

-- A field is taken over as it was given, or was out of range and has its default.
abbrev Kept : {A : Type 0} → A → A → A → Type 0 → Type 0
Kept new given default bad = ((new ≡ given) × ¬ bad) ⊎ ((new ≡ default) × bad)

-- Every field of the result is in range, whatever was given.
with_defaults-InRange : (c : IngesterConfig) → InRange (with_defaults c)
unfolding with_defaults
with_defaults-InRange c = record {
  chunks = ground arith;
  chunk_size = ground arith;
  max_dirty_chunks = ground arith;
  max_flush_retry = ground arith;
  flush_after_sec = ground arith;
  interval_check_ms = ground arith;
}

abbrev pub Defaults : IngesterConfig → Type 0
Defaults c =
    InRange (with_defaults c)
    × (with_defaults (with_defaults c) ≡ with_defaults c)
    × ((with_defaults c).max_chunk_size_bytes ≡ c.max_chunk_size_bytes)
    × Kept (with_defaults c).chunks c.chunks 3 (c.chunks ≡ 0)
    × Kept (with_defaults c).chunk_size c.chunk_size 900 ((c.chunk_size ≡ 0) ⊎ (901 ≤ c.chunk_size))
    × Kept (with_defaults c).max_dirty_chunks c.max_dirty_chunks (pos 50)
        (c.max_dirty_chunks ≤ℤ pos (with_defaults c).chunks)
    × Kept (with_defaults c).max_flush_retry c.max_flush_retry (pos 3) (c.max_flush_retry ≤ℤ pos 0)
    × Kept (with_defaults c).flush_after_sec c.flush_after_sec (pos 3) (c.flush_after_sec ≤ℤ pos 0)
    × Kept (with_defaults c).interval_check_ms c.interval_check_ms (pos 100)
        (c.interval_check_ms ≤ℤ pos 0)

-- Every configuration comes out of `NewIngester` in range, a chunk size between 1 and 900 included;
-- setting the defaults once more changes nothing; the size in bytes is taken over; and each of the
-- other fields is taken over exactly where it was in range, and else has its default: 3 chunks of
-- 900 entries, 50 dirty chunks (if not above the number of chunks), 3 retries, 3 seconds, 100 ms.
pub with_defaults_lem : (c : IngesterConfig) → Defaults c
unfolding with_defaults
with_defaults_lem c = (
  with_defaults-InRange c,
  ground arith,
  refl,
  ground arith,
  ground arith,
  ground arith,
  ground arith,
  ground arith,
  ground arith,
)
