-- ===== src/Sqlite/Storage/Keeping.antt =====
-- What the operations of sqlite/storage.go and sqlite/storage_size_check.go keep of the databases.
use mathlib.Core.Path.{subst}
use sqlog.Base.{
  ℕ, zero, suc, ◌<◌, ◌≡◌, refl, sym, ap, ◌∙◌, not, Option, none, some, List, [], ◌∷◌, ◌++◌, Bytes,
  length, length-append, get_elem?, All, All-map, All-append, arith, if_both,
}
use sqlog.Base.Int.{ℤ, pos, ltb_ℤ, ◌*ℤ◌}
use sqlog.Chunk.{Chunk}
use sqlog.Sqlite.Db.{StorageDb, FileOp, is_open, new_db, Dial, connect, Asked}
use sqlog.Sqlite.Db.Flush.{Engine, Flushed, flush}
use sqlog.Sqlite.Db.Lifecycle.{
  IsWf, connect-IsWf, update_size-IsWf, flush_rows-IsWf, close-IsWf, remove-IsWf,
}
use sqlog.Sqlite.Db.Lifecycle.Running.{new_db-IsFresh, fresh-IsWf}
use sqlog.Sqlite.Storage.Config.{StorageConfig}
use sqlog.Sqlite.Storage.{
  Storage, set_at, last_of, close_dbs, close_storage, grow, grow_from, add_live, shrink,
  measure_dbs, size_check, StorageError, flush_at, flush_storage, choose_db,
}
use sqlog.Sqlite.Storage.Heap.{Valid, set_at-All}

-- The databases are well-formed, and there are `n` of them.
abbrev pub Keeps : ℕ → List StorageDb → Type 0
Keeps n heap = All IsWf heap × (length heap ≡ n)

-- A storage whose databases are well-formed, whose pointers are to databases that are there, and
-- that has a live database.
pub record IsSound (s : Storage) : Type 0 where
  pub formed : All IsWf s.heap
  pub there : Valid s.heap s.dbs
  pub live_there : Valid s.heap s.live_dbs
  pub some_live : 0 < length s.live_dbs

-- A database that a pointer finds is well-formed.
pub found_by {κ} :
    {B : Type 0} (P : B → Type κ) (g : Option StorageDb → B) (heap : List StorageDb) (i : ℕ)
    → All IsWf heap
    → P (g none)
    → ((d : StorageDb) → IsWf d → P (g (some d)))
    → P (g (get_elem? heap i))
found_by P g [] i h px pf = px
found_by P g (d ∷ heap) zero h px pf = pf d h.0
found_by P g (d ∷ heap) (suc i) h px pf = found_by P g heap i h.1 px pf

-- The same of an elimination.
pub found_both {κ} :
    {B : Type 0} (P : B → Type κ) (heap : List StorageDb) (i : ℕ) {x : B} {f : StorageDb → B}
    → All IsWf heap
    → P x
    → ((d : StorageDb) → IsWf d → P (f d))
    → P (elim (get_elem? heap i) [ none ↦ x | some d ↦ f d ])
found_both P heap i {x = x} {f = f} =
    found_by P (λ (o : Option StorageDb). elim o [ none ↦ x | some d ↦ f d ]) heap i

pub length-set_at :
    (i : ℕ) (d : StorageDb) (heap : List StorageDb) → length (set_at i d heap) ≡ length heap
unfolding set_at
length-set_at i d [] = refl
length-set_at zero d (e ∷ heap) = refl
length-set_at (suc i) d (e ∷ heap) = ap suc (length-set_at i d heap)

pub set_at-Keeps :
    (n i : ℕ) (d : StorageDb) (heap : List StorageDb)
    → IsWf d
    → Keeps n heap
    → Keeps n (set_at i d heap)
set_at-Keeps n i d heap w k = (set_at-All IsWf i d heap w k.0, length-set_at i d heap ∙ k.1)

-- Other databases in the places of those that were there.
pub kept-IsSound :
    (s : Storage) (heap : List StorageDb)
    → IsSound s
    → Keeps (length s.heap) heap
    → IsSound (record s { heap = heap })
kept-IsSound s heap h k = record {
  formed = k.0;
  there = subst (λ n. All (λ i. i < n) s.dbs) (sym k.1) h.there;
  live_there = subst (λ n. All (λ i. i < n) s.live_dbs) (sym k.1) h.live_there;
  some_live = h.some_live;
}

measure_dbs-Keeps :
    {E : Type 0} (asked : StorageDb → Asked E × Option E × ℤ × ℤ) (now : ℤ) (is : List ℕ)
    (heap : List StorageDb) (n : ℕ)
    → Keeps n heap
    → Keeps n (measure_dbs asked now is heap)
unfolding measure_dbs
measure_dbs-Keeps asked now [] heap n k = k
measure_dbs-Keeps asked now (i ∷ is) heap n k =
    found_both (Keeps n) heap i k.0 (measure_dbs-Keeps asked now is heap n k) (λ d w.
      let (answer, scan, total, freelist) = asked d in
      measure_dbs-Keeps asked now is _ n
        (set_at-Keeps n i _ heap (update_size-IsWf answer now scan total freelist d w) k))

module _ (path_join : Bytes → Bytes → Bytes) where
  close_dbs-Keeps :
      (is : List ℕ) (heap : List StorageDb) (n : ℕ)
      → Keeps n heap
      → Keeps n (close_dbs path_join is heap).1
  unfolding close_dbs
  close_dbs-Keeps [] heap n k = k
  close_dbs-Keeps (i ∷ is) heap n k =
      found_both (λ (r : List FileOp × List StorageDb). Keeps n r.1) heap i k.0
        (close_dbs-Keeps is heap n k)
        (λ d w. close_dbs-Keeps is _ n (set_at-Keeps n i _ heap (close-IsWf path_join d w) k))

  pub close_storage-IsSound : (s : Storage) → IsSound s → IsSound (close_storage path_join s).1
  unfolding close_storage
  close_storage-IsSound s h =
      kept-IsSound s _ h (close_dbs-Keeps s.dbs s.heap (length s.heap) (h.formed, refl))

  rest-IsSound :
      (s : Storage) (i : ℕ) (is : List ℕ)
      → s.dbs ≡ i ∷ is
      → IsSound s
      → IsSound (record s { dbs = is })
  rest-IsSound s i is e h = record {
    formed = h.formed;
    there = (subst (Valid s.heap) e h.there).1;
    live_there = h.live_there;
    some_live = h.some_live;
  }

  add_live-IsSound :
      {E : Type 0} (failure : Option E) (d : StorageDb) (s : Storage)
      → IsWf d
      → IsSound s
      → IsSound (add_live (failure, d) s)
  unfolding add_live
  add_live-IsSound (some e) d s w h = h
  add_live-IsSound none d s w h =
      let larger = length-append s.heap (d ∷ []) in
      record {
        formed = All-append IsWf s.heap (d ∷ []) h.formed (w, tt);
        there = All-map s.dbs (λ i l. omega (arith, larger, l)) h.there;
        live_there =
            All-append (λ i. i < length (s.heap ++ d ∷ [])) s.live_dbs (length s.heap ∷ [])
              (All-map s.live_dbs (λ i l. omega (arith, larger, l)) h.live_there)
              (omega (arith, larger), tt);
        some_live = omega (arith, length-append s.live_dbs (length s.heap ∷ []));
      }

  grow-IsSound :
      {E : Type 0} (config : StorageConfig) (answers : Dial E) (now start : ℤ) (s : Storage)
      → IsSound s
      → IsSound (grow path_join config answers now start s)
  unfolding grow grow_from
  grow-IsSound config answers now start s h = from (get_elem? s.heap (last_of 0 s.live_dbs))
    where
      from : (o : Option StorageDb) → IsSound (grow_from path_join config answers now start s o)
      from none = h
      from (some d) =
          let fresh = new_db path_join config.dir config.prefix start config.max_chunk_age_sec in
          if_both IsSound (ltb_ℤ (config.max_filesize_mb *ℤ pos 1000000) d.size)
            (add_live-IsSound (connect config.sqlite_options answers now fresh).0
              (connect config.sqlite_options answers now fresh).1 s
              (connect-IsWf config.sqlite_options answers now fresh (
                fresh-IsWf fresh (
                  new_db-IsFresh path_join config.dir config.prefix start
                    config.max_chunk_age_sec)))
              h)
            h

  shrink-IsSound :
      (config : StorageConfig) (s : Storage) (is : List ℕ)
      → IsSound (record s { dbs = is })
      → IsSound (shrink path_join config (record s { dbs = is })).1
  unfolding shrink
  shrink-IsSound config s [] h = h
  shrink-IsSound config s (i ∷ is) h =
      let P = λ (r : List FileOp × Storage). IsSound r.1 in
      found_both P s.heap i h.formed h (λ d w.
        let removed =
          kept-IsSound (record s { dbs = i ∷ is }) _ h
            (set_at-Keeps (length s.heap) i _ s.heap (remove-IsWf path_join d w)
              (h.formed, refl)) in
        if_both P _ (rest-IsSound _ i is refl removed) h)

  pub size_check-IsSound :
      {E : Type 0} (config : StorageConfig) (answers : Dial E)
      (asked : StorageDb → Asked E × Option E × ℤ × ℤ) (now start : ℤ) (s : Storage)
      → IsSound s
      → IsSound (size_check path_join config answers asked now start s).1
  unfolding size_check
  size_check-IsSound config answers asked now start s h =
      let s' = grow path_join config answers now start s in
      let grown = grow-IsSound config answers now start s h in
      let measured = measure_dbs asked now s'.live_dbs s'.heap in
      shrink-IsSound config (record s' { heap = measured }) s'.dbs
        (kept-IsSound s' measured grown
          (measure_dbs-Keeps asked now s'.live_dbs s'.heap (length s'.heap) (grown.formed, refl)))

module _ {S E : Type 0} (engine : Engine S E) where
  flush_at-IsSound :
      (c : Chunk) (i : ℕ) (d : StorageDb) (s : Storage) (st : S)
      → IsWf d
      → IsSound s
      → IsSound (flush_at engine c i d s st).2
  unfolding flush_at flush
  flush_at-IsSound c i d s st w h =
      if_both (λ (r : Flushed (StorageError E) × S × Storage). IsSound r.2) (not (is_open d)) h
        (kept-IsSound s _ h (
          set_at-Keeps (length s.heap) i _ s.heap (flush_rows-IsWf engine _ _ c d st w)
            (h.formed, refl)))

  pub flush_storage-IsSound :
      (c : Chunk) (s : Storage) (st : S) → IsSound s → IsSound (flush_storage engine c s st).2
  unfolding flush_storage
  flush_storage-IsSound c s st h =
      found_both (λ (r : Flushed (StorageError E) × S × Storage). IsSound r.2) s.heap
        (choose_db c.epoch_start c.epoch_end s.heap s.live_dbs (last_of 0 s.live_dbs)) h.formed h
        (λ d w. flush_at-IsSound c _ d s st w h)
