-- ===== src/Ingester.antt =====
-- ingester.go: the configuration, the state and the operations of the ingester. An operation runs
-- without another between its steps. The storage is a parameter: a state, and a function that
-- answers one `Flush` with whether it failed and the state after it.
mod Tests
pub mod Config
pub mod Position
pub mod Delivery
pub mod Adding
pub mod Checking
pub mod Discarding
pub mod Losing
pub mod Retries
pub mod GivingUp
pub mod Ending
pub mod Run
pub mod Shutdown
pub mod Closing
use sqlog.Base.{
  ℕ, zero, suc, ◌+◌, ◌%◌, Bool, true, false, ◌&&◌, ◌||◌, not, Option, none, some, List, [], ◌∷◌,
  ltb, leb, ◌==◌, if◌then◌else◌, length, get_elem?,
}
use sqlog.Base.Int.{ℤ, pos, ltb_ℤ, leb_ℤ, int32, int64, inc32}
use sqlog.Chunk.{
  Time, Entry, Chunk, Chain, new_chunk, init, init_head, next, empty, depth, ready, lock, ttl,
  seconds, put,
}

-- `chunks` is a uint8 and `chunk_size` a uint16.
pub record IngesterConfig : Type 0 where
  pub chunks : ℕ
  pub chunk_size : ℕ
  pub max_chunk_size_bytes : ℤ
  pub max_dirty_chunks : ℤ
  pub max_flush_retry : ℤ
  pub flush_after_sec : ℤ
  pub interval_check_ms : ℤ

-- The defaults that `NewIngester` sets, in its order.
unfoldable pub with_defaults : IngesterConfig → IngesterConfig
with_defaults c =
    let chunks = if c.chunks == 0 then 3 else c.chunks in
    record c {
      chunks = chunks;
      max_dirty_chunks =
          if leb_ℤ c.max_dirty_chunks (pos chunks) then pos 50 else c.max_dirty_chunks;
      flush_after_sec = if leb_ℤ c.flush_after_sec (pos 0) then pos 3 else c.flush_after_sec;
      max_flush_retry = if leb_ℤ c.max_flush_retry (pos 0) then pos 3 else c.max_flush_retry;
      chunk_size = if c.chunk_size == 0 || ltb 900 c.chunk_size then 900 else c.chunk_size;
      interval_check_ms =
          if leb_ℤ c.interval_check_ms (pos 0) then pos 100 else c.interval_check_ms;
    }

-- A pointer to a chunk is its number in the chain that starts at the root chunk.
pub record Ingester : Type 0 where
  pub config : IngesterConfig
  pub chunks : Chain
  pub flush_chunk : ℕ
  pub write_chunk : ℕ
  pub flush_chunk_id : ℕ
  pub write_chunk_id : ℕ

unfoldable pub new_ingester : IngesterConfig → Ingester
unfolding with_defaults
new_ingester c =
    let config = with_defaults c in
    let root = new_chunk (pos config.chunk_size) in
    record {
      config = config;
      chunks = init config.chunks (root ∷ []);
      flush_chunk = 0;
      write_chunk = 0;
      flush_chunk_id = 0;
      write_chunk_id = root.id;
    }

-- What a step does to the chain from the chunk with number `n` on.
unfoldable pub at_chunk {ℓ} :
    {A : Type ℓ} → ℕ → (Chain → Option (Chain × A)) → Chain → Option (Chain × A)
at_chunk zero step cs = step cs
at_chunk (suc n) step [] = none
at_chunk (suc n) step (c ∷ cs) = elim (at_chunk n step cs) [
  | none ↦ none
  | some (cs', a) ↦ some (c ∷ cs', a)
]

id_at : Chain → ℕ → ℕ
id_at cs n = elim (get_elem? cs n) [ none ↦ 0 | some c ↦ c.id ]

-- `Put` with a round for each chunk of the chain and one more.
unfoldable pub put_all : Entry → Chain → Option (Chain × ℕ)
put_all e cs = put (suc (length cs)) cs e

written : Ingester → Option (Chain × ℕ) → Option Ingester
unfolding id_at
written s none = none
written s (some (cs, hops)) =
    let last = s.write_chunk_id in
    if not (hops == 0) && s.write_chunk_id == last
    then some (record s {
      chunks = cs;
      write_chunk = s.write_chunk + hops;
      write_chunk_id = id_at cs (s.write_chunk + hops);
    })
    else some (record s { chunks = cs })

unfoldable pub ingest : Entry → Ingester → Option Ingester
unfolding at_chunk put_all written
ingest e s = written s (at_chunk s.write_chunk (put_all e) s.chunks)

-- chunk.Init(i.config.Chunks), with the chunk locked, if it is too old or too large
unfoldable pub maintain : IngesterConfig → Time → Chunk → Chain → Chain
maintain config now c rest =
    if ltb_ℤ config.flush_after_sec (seconds (ttl now c))
    then init config.chunks (lock c ∷ rest)
    else if ltb_ℤ (pos 0) config.max_chunk_size_bytes
        && ltb_ℤ config.max_chunk_size_bytes (int64 c.size)
    then init config.chunks (lock c ∷ rest)
    else c ∷ rest

-- atomic.AddInt32(&chunk.retries, 1), if the flush failed
unfoldable pub retried : Bool → Chunk → Chunk
retried failed c = if failed then record c { retries = inc32 c.retries } else c

unfoldable pub gives_up : IngesterConfig → Chunk → Bool
gives_up config c = ltb_ℤ config.max_flush_retry (int32 c.retries)

-- i.flushChunk.Next(), on a chain whose first chunk `Init` has seen: that chunk and the chain behind
unfoldable pub leave : Chain → Chunk → Chunk × Chain
leave [] c = (c, [])
leave (c' ∷ rest) c = (init_head c' rest, next c' rest)

-- Where a loop over the flush chunks stops: the chain, how far the pointer moved, and the storage.
pub record Progress (S : Type 0) : Type 0 where
  pub chain : Chain
  pub moved : ℕ
  pub storage : S

module _ {S : Type 0} where
  unfoldable pub stop : Chain → S → Option (Progress S)
  stop cs st = some (record { chain = cs; moved = 0; storage = st })

  unfoldable pub beyond : Chunk → Option (Progress S) → Option (Progress S)
  beyond c none = none
  beyond c (some p) =
      some (record { chain = c ∷ p.chain; moved = suc p.moved; storage = p.storage })

-- The loop that discards old chunks, and chunk.Init behind it.
unfoldable pub discard_loop : ℕ → ℤ → Chain → Option (Chain × ℕ)
unfolding depth
discard_loop zero limit cs = none
discard_loop (suc f) limit [] = none
discard_loop (suc f) limit (c ∷ rest) =
    let onward = discard_loop f limit (next c rest) in
    if ltb_ℤ limit (pos (depth (c ∷ rest)))
    then elim onward [ none ↦ none | some (cs, n) ↦ some (init_head c rest ∷ cs, suc n) ]
    else some (c ∷ rest, 0)

init_from : IngesterConfig → Option (Chain × ℕ) → Option (Chain × ℕ)
unfolding at_chunk
init_from config none = none
init_from config (some (cs, n)) = at_chunk n (λ cs. some (init config.chunks cs, n)) cs

unfoldable pub discard : IngesterConfig → Chain → Option (Chain × ℕ)
unfolding depth discard_loop init_from
discard config [] = none
discard config (c ∷ rest) =
    if not (empty c) && ltb_ℤ config.max_dirty_chunks (pos (depth (c ∷ rest)))
    then init_from config
        (discard_loop (suc (suc (length rest))) config.max_dirty_chunks (c ∷ rest))
    else some (c ∷ rest, 0)

module _ {S : Type 0} (flush : Chunk → S → Bool × S) where
  -- The first loop of `doRoutineCheck`, from the flush chunk on.
  unfoldable pub check_loop : ℕ → IngesterConfig → Time → Chain → S → Option (Progress S)
  unfolding retried gives_up leave stop beyond
  check_loop zero config now cs st = none
  check_loop (suc f) config now [] st = none
  check_loop (suc f) config now (c ∷ rest) st =
      let (failed, st') = flush c st in
      let c' = retried failed c in
      let (left, behind) = leave (init ((config.chunks + 1) % 256) (c' ∷ rest)) c' in
      let onward = check_loop f config now behind st' in
      if empty c
      then stop (c ∷ rest) st
      else if ready c
      then (if failed && not (gives_up config c') then stop (c' ∷ rest) st' else beyond left onward)
      else stop (maintain config now c rest) st

  -- The chain, how far the flush pointer moved, and the storage, for at_chunk.
  then_discard : IngesterConfig → Option (Progress S) → Option (Chain × (ℕ × S))
  unfolding at_chunk
  then_discard config none = none
  then_discard config (some p) = elim (at_chunk p.moved (discard config) p.chain) [
    | none ↦ none
    | some (cs, n) ↦ some (cs, (p.moved + n, p.storage))
  ]

  checked : Ingester → Option (Chain × (ℕ × S)) → Option (Ingester × S)
  unfolding id_at
  checked s none = none
  checked s (some (cs, (n, st))) = some (
    record s {
      chunks = cs;
      flush_chunk = s.flush_chunk + n;
      flush_chunk_id = if n == 0 then s.flush_chunk_id else id_at cs (s.flush_chunk + n);
    },
    st,
  )

  unfoldable pub do_routine_check : Time → Ingester → S → Option (Ingester × S)
  unfolding check_loop then_discard checked
  do_routine_check now s st = checked s (
      at_chunk s.flush_chunk
        (λ cs. then_discard s.config (check_loop (suc (length cs)) s.config now cs st)) s.chunks)

-- chunk.Lock() on the first chunk of a chain
unfoldable pub lock_head : Chain → Chain
unfolding lock
lock_head [] = []
lock_head (c ∷ rest) = lock c ∷ rest

module _ {S : Type 0} (flush : Chunk → S → Bool × S) where
  -- The loop of `routineCheck` when the ingester is closed, from the flush chunk on; `t` counts
  -- the rounds that met an unready chunk. `none` is the end of the fuel.
  unfoldable pub shutdown_loop : ℕ → IngesterConfig → ℕ → Chain → S → Option (Progress S)
  unfolding retried gives_up lock_head stop beyond init_head next
  shutdown_loop zero config t cs st = none
  shutdown_loop (suc f) config t [] st = none
  shutdown_loop (suc f) config t (c ∷ rest) st =
      let (failed, st') = flush c st in
      let c' = retried failed c in
      let onward = shutdown_loop f config t (lock_head (next c' rest)) st' in
      let again = shutdown_loop f config t (c' ∷ rest) st' in
      let skipped = shutdown_loop f config (t + 1) (lock_head (next c rest)) st in
      let waited = shutdown_loop f config 0 (lock c ∷ rest) st in
      if empty c
      then stop (c ∷ rest) st
      else if ready c
      then (if failed && not (gives_up config c') then again else beyond (init_head c' rest) onward)
      else if ltb 3 (t + 1)
      then beyond (init_head c rest) skipped
      else waited

  closed_down : Ingester → Option (Chain × (ℕ × S)) → Option (Ingester × S)
  unfolding id_at
  closed_down s none = none
  closed_down s (some (cs, (n, st))) = some (
    record s {
      chunks = cs;
      flush_chunk = s.flush_chunk + n;
      flush_chunk_id = id_at cs (s.flush_chunk + n);
    },
    st,
  )

  -- i.storage.Close(), once the loop has ended
  closes : (S → S) → Option (Progress S) → Option (Chain × (ℕ × S))
  closes close none = none
  closes close (some p) = some (p.chain, (p.moved, close p.storage))

  -- The quit branch of `routineCheck`. `close` is the storage's `Close`; its error is only logged.
  unfoldable pub shutdown : ℕ → (S → S) → Ingester → S → Option (Ingester × S)
  unfolding shutdown_loop closed_down closes at_chunk
  shutdown fuel close s st = closed_down s (
      at_chunk s.flush_chunk (λ cs. closes close (shutdown_loop fuel s.config 0 (lock_head cs) st))
        s.chunks)
