-- ===== src/Ingester/Adding.antt =====
-- `Ingest` of ingester.go: where the new entry goes.
use sqlog.Base.{
  ℕ, zero, suc, ◌+◌, ◌≡◌, refl, ap, sym, Option, some, List, [], ◌∷◌, ◌++◌, append_assoc, arith,
  ◌==◌, ==_iff, length, Bool-cases, inl, inr, drop,
}
use mathlib.Core.Path.{subst}
use sqlog.Base.Int.{pos, ◌≤ℤ◌}
use sqlog.Chunk.{Entry, Chain}
use sqlog.Chunk.Invariant.{log}
use sqlog.Chunk.Writing.{logs, WritesAt, put-WritesAt}
use sqlog.Ingester.{Ingester, at_chunk, put_all, ingest, written, id_at}
use sqlog.Ingester.Position.{Positions, Positions-start, Positions-writes}

-- What `Put` at the write pointer does to the whole chain and to the chain from the flush pointer on.
record Added (f w : ℕ) (e : Entry) (cs : Chain) (r : Option (Chain × ℕ)) : Type 0 where
  chain : Chain
  hops : ℕ
  ends : r ≡ some (chain, hops)
  write : ℕ
  moved : write ≡ w + hops
  at : Positions f write chain
  added : logs (drop f chain) ≡ logs (drop f cs) ++ e ∷ []

second : (h : ℕ) (cs : Chain) → WritesAt h cs → h ≡ 1 → Positions 1 1 cs
second h [] at q = subst (λ n. WritesAt n []) q at
second h (c ∷ cs) at q = let (wf, cl, r) = rw q at at in (wf, cl, Positions-start 0 cs r)

put-Added :
    (f w : ℕ) (e : Entry) (cs : Chain)
    → Positions f w cs
    → Added f w e cs (at_chunk w (put_all e) cs)
unfolding at_chunk put_all
put-Added f w e [] h = absurd h
put-Added zero zero e (c ∷ rest) h =
    let (cs, hops, q, at, l, _) = put-WritesAt (length rest) c rest e h in
    record {
      chain = cs;
      hops = hops;
      ends = q;
      write = hops;
      moved = omega arith;
      at = Positions-start hops cs at;
      added = l;
    }
put-Added zero (suc w) e (c ∷ rest) (wf, cl, h) =
    let r = put-Added zero w e rest (Positions-start w rest h) in
    record {
      chain = c ∷ r.chain;
      hops = r.hops;
      ends = rw r.ends refl;
      write = suc r.write;
      moved = omega (arith, r.moved);
      at = (wf, cl, Positions-writes r.write r.chain r.at);
      added = rw append_assoc (ap (λ l. log c ++ l) r.added);
    }
put-Added (suc zero) zero e (c ∷ rest) (wr, cl, z, ne) =
    let (cs, hops, q, at, _, second_takes) = put-WritesAt (length rest) c rest e wr in
    let (one, l) = second_takes cl in
    record {
      chain = cs;
      hops = hops;
      ends = q;
      write = 1;
      moved = omega (arith, one);
      at = second hops cs at one;
      added = l;
    }
put-Added (suc (suc f)) zero e (c ∷ rest) (wr, cl, z, ne) = absurd (omega (arith, z))
put-Added (suc f) (suc w) e (c ∷ rest) (wf, cl, h) =
    let r = put-Added f w e rest h in
    record {
      chain = c ∷ r.chain;
      hops = r.hops;
      ends = rw r.ends refl;
      write = suc r.write;
      moved = omega (arith, r.moved);
      at = (wf, cl, r.at);
      added = r.added;
    }

-- The pointers stand well, and a chunk may be left in memory.
pub record IsSettled (s : Ingester) : Type 0 where
  pub positions : Positions s.flush_chunk s.write_chunk s.chunks
  pub limit : pos 1 ≤ℤ s.config.max_dirty_chunks

-- The entries that are in memory and not yet flushed, oldest first.
unfoldable pub pending : Ingester → List Entry
pending s = logs (drop s.flush_chunk s.chunks)

record Same (s s' : Ingester) (cs : Chain) (write : ℕ) : Type 0 where
  same_config : s'.config ≡ s.config
  same_flush : s'.flush_chunk ≡ s.flush_chunk
  new_chunks : s'.chunks ≡ cs
  new_write : s'.write_chunk ≡ write

written_lem :
    (s : Ingester) (cs : Chain) (hops write : ℕ)
    → write ≡ s.write_chunk + hops
    → (s' : Ingester) × (written s (some (cs, hops)) ≡ some s') × Same s s' cs write
unfolding written
written_lem s cs hops write q = elim (Bool-cases (hops == 0)) [
  | inl z ↦ (
    record s { chunks = cs },
    rw z,
    record { same_config = refl; same_flush = refl; new_chunks = refl; new_write = ground arith },
  )
  | inr z ↦ (
    record s {
      chunks = cs;
      write_chunk = s.write_chunk + hops;
      write_chunk_id = id_at cs (s.write_chunk + hops);
    },
    rw (z, (==_iff s.write_chunk_id s.write_chunk_id).1 refl),
    record { same_config = refl; same_flush = refl; new_chunks = refl; new_write = sym q },
  )
]

-- `Ingest` succeeds and puts the entry behind all that is pending.
pub ingest-pending :
    (e : Entry) (s : Ingester)
    → IsSettled s
    → (s' : Ingester) × (ingest e s ≡ some s') × IsSettled s' × (pending s' ≡ pending s ++ e ∷ [])
unfolding ingest pending
ingest-pending e s h =
    let r = put-Added s.flush_chunk s.write_chunk e s.chunks h.positions in
    let (s', q, same) = written_lem s r.chain r.hops r.write r.moved in
    (
      s',
      rw r.ends q,
      record {
        positions = rw (same.same_flush, same.new_write, same.new_chunks) r.at;
        limit = rw same.same_config h.limit;
      },
      rw (same.same_flush, same.new_chunks) r.added,
    )
