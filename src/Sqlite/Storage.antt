-- ===== src/Sqlite/Storage.antt =====
-- sqlite/storage.go and sqlite/storage_size_check.go: the storage with its databases. A pointer to
-- a database is its number in the list `heap`, so that `dbs` and `live_dbs` may share databases.
pub mod Config
pub mod Heap
pub mod Keeping
pub mod Reaching
pub mod Starting
mod Tests
use sqlog.Base.{
  ℕ, zero, suc, ◌+◌, Bool, true, false, not, ◌&&◌, ◌||◌, Option, none, some, List, [], ◌∷◌, ◌++◌,
  map, ltb, if◌then◌else◌, Bytes, length, get_elem?,
}
use sqlog.Base.Int.{ℤ, pos, ltb_ℤ, leb_ℤ, eqb_ℤ, ◌+ℤ◌, ◌*ℤ◌}
use sqlog.Chunk.{Chunk}
use sqlog.Sqlite.Db.{
  StorageDb, FileOp, is_open, close, remove, new_db, Dial, connect, Asked, update_size,
}
use sqlog.Sqlite.Db.Flush.{Engine, Flushed, saved, fails, panics, flush}
use sqlog.Sqlite.Db.Names.{walk_files}
use sqlog.Sqlite.Databases.{sort_dbs, total_size}
use sqlog.Sqlite.Storage.Config.{StorageConfig}

pub record Storage : Type 0 where
  pub heap : List StorageDb
  pub dbs : List ℕ
  pub live_dbs : List ℕ

-- A write through a pointer.
unfoldable pub set_at : ℕ → StorageDb → List StorageDb → List StorageDb
set_at i d [] = []
set_at zero d (e ∷ ds) = d ∷ ds
set_at (suc i) d (e ∷ ds) = e ∷ set_at i d ds

-- The numbers from `i` on, one for each database.
unfoldable pub numbers : ℕ → List StorageDb → List ℕ
numbers i [] = []
numbers i (d ∷ ds) = i ∷ numbers (i + 1) ds

unfoldable pub last_of : ℕ → List ℕ → ℕ
last_of i [] = i
last_of i (j ∷ js) = last_of j js

-- The databases behind pointers.
unfoldable pub resolve : List StorageDb → List ℕ → List StorageDb
resolve heap [] = []
resolve heap (i ∷ is) = elim (get_elem? heap i) [
  | none ↦ resolve heap is
  | some d ↦ d ∷ resolve heap is
]

-- A database that has been connected becomes the last live one.
unfoldable pub add_live : {E : Type 0} → Option E × StorageDb → Storage → Storage
add_live (some e, d) s = s
add_live (none, d) s = record s {
  heap = s.heap ++ d ∷ [];
  live_dbs = s.live_dbs ++ length s.heap ∷ [];
}

module _ (path_join : Bytes → Bytes → Bytes) where
  -- What initDbs finds, or a new database.
  unfoldable pub first_dbs : StorageConfig → List (Bytes × ℤ) → ℤ → List StorageDb
  unfolding walk_files sort_dbs new_db
  first_dbs config files now =
      let found = walk_files path_join config.dir config.prefix files [] in
      let sorted = if ltb 1 (length found) then sort_dbs found else found in
      if ltb 0 (length sorted)
      then sorted
      else new_db path_join config.dir config.prefix now config.max_chunk_age_sec ∷ []

  -- `New`, the goroutines left out: an error of the connection, or the storage.
  unfoldable pub new_storage :
      {E : Type 0} → StorageConfig → List (Bytes × ℤ) → Dial E → ℤ → Option E × Storage
  unfolding first_dbs last_of numbers connect set_at
  new_storage config files answers now =
      let heap = first_dbs config files now in
      let dbs = numbers 0 heap in
      let live = last_of 0 dbs in
      elim (get_elem? heap live) [
        | none ↦ (none, record { heap = heap; dbs = dbs; live_dbs = [] })
        | some d ↦
            let (failure, d') = connect config.sqlite_options answers now d in
            (
              failure,
              record {
                heap = set_at live (record d' { live = true }) heap;
                dbs = dbs;
                live_dbs = live ∷ [];
              },
            )
      ]

  -- `Close`: the changes of files, and the databases.
  unfoldable pub close_dbs : List ℕ → List StorageDb → List FileOp × List StorageDb
  unfolding close set_at
  close_dbs [] heap = ([], heap)
  close_dbs (i ∷ is) heap = elim (get_elem? heap i) [
    | none ↦ close_dbs is heap
    | some d ↦
        let (closed, ops, d') = close path_join d in
        let (more, heap') = close_dbs is (set_at i d' heap) in (ops ++ more, heap')
  ]

  unfoldable pub close_storage : Storage → List FileOp × Storage
  unfolding close_dbs
  close_storage s = let (ops, heap) = close_dbs s.dbs s.heap in (ops, record s { heap = heap })

  -- The first part of a size check: a live database that is too large gets a successor.
  unfoldable pub grow_from :
      {E : Type 0} → StorageConfig → Dial E → ℤ → ℤ → Storage → Option StorageDb → Storage
  unfolding add_live new_db connect
  grow_from config answers now start s none = s
  grow_from config answers now start s (some d) =
      let fresh = new_db path_join config.dir config.prefix start config.max_chunk_age_sec in
      if ltb_ℤ (config.max_filesize_mb *ℤ pos 1000000) d.size
      then add_live (connect config.sqlite_options answers now fresh) s
      else s

  unfoldable pub grow : {E : Type 0} → StorageConfig → Dial E → ℤ → ℤ → Storage → Storage
  unfolding grow_from last_of
  grow config answers now start s =
      grow_from config answers now start s (get_elem? s.heap (last_of 0 s.live_dbs))

  -- The last part: the first of the databases is removed if they are too large in all.
  unfoldable pub shrink : StorageConfig → Storage → List FileOp × Storage
  unfolding total_size resolve remove set_at
  shrink config s = elim s.dbs [
    | [] ↦ ([], s)
    | older ∷ rest ↦ elim (get_elem? s.heap older) [
      | none ↦ ([], s)
      | some d ↦
          let (ops, d') = remove path_join d in
          if ltb_ℤ (config.total_size_cap_mb *ℤ pos 1000000) (total_size (resolve s.heap s.dbs))
            && not d.live
          then (ops, record s { heap = set_at older d' s.heap; dbs = rest })
          else ([], s)
    ]
  ]

-- updateSize of the live databases: `asked` is what each query answers, with the sizes.
unfoldable pub measure_dbs :
    {E : Type 0}
    → (StorageDb → Asked E × Option E × ℤ × ℤ)
    → ℤ
    → List ℕ
    → List StorageDb
    → List StorageDb
unfolding update_size set_at
measure_dbs asked now [] heap = heap
measure_dbs asked now (i ∷ is) heap = elim (get_elem? heap i) [
  | none ↦ measure_dbs asked now is heap
  | some d ↦
      let (answer, scan, total, freelist) = asked d in
      measure_dbs asked now is (set_at i (update_size answer now scan total freelist d).1 heap)
]

-- A round of routineSizeCheck. `start` is where the next database begins.
unfoldable pub size_check :
    {E : Type 0}
    → (Bytes → Bytes → Bytes)
    → StorageConfig
    → Dial E
    → (StorageDb → Asked E × Option E × ℤ × ℤ)
    → ℤ
    → ℤ
    → Storage
    → List FileOp × Storage
unfolding grow measure_dbs shrink
size_check path_join config answers asked now start s =
    let s' = grow path_join config answers now start s in
    shrink path_join config (record s' { heap = measure_dbs asked now s'.live_dbs s'.heap })

-- Whether a live database takes entries of these epochs.
unfoldable pub takes : ℤ → ℤ → StorageDb → Bool
takes first last d =
    leb_ℤ d.epoch_start first && (eqb_ℤ d.epoch_end (pos 0) || leb_ℤ last d.epoch_end)

-- The database that `Flush` writes to: the first live one that takes the chunk, or the last.
unfoldable pub choose_db : ℤ → ℤ → List StorageDb → List ℕ → ℕ → ℕ
unfolding takes
choose_db first last heap [] otherwise = otherwise
choose_db first last heap (i ∷ is) otherwise =
    let rest = choose_db first last heap is otherwise in
    elim (get_elem? heap i) [ none ↦ rest | some d ↦ if takes first last d then i else rest ]

pub data StorageError (E : Type 0) : Type 0 where
  db_is_closed : StorageError E
  of_flush : E → StorageError E

module _ {S E : Type 0} (engine : Engine S E) where
  unfoldable pub flush_at :
      Chunk → ℕ → StorageDb → Storage → S → Flushed (StorageError E) × S × Storage
  unfolding is_open flush set_at
  flush_at c i d s st =
      let (answer, st', d') = flush engine c d st in
      if not (is_open d) then (fails db_is_closed, st, s) else (
        (elim answer [ saved ↦ saved | fails e ↦ fails (of_flush e) | panics ↦ panics ]),
        st',
        record s { heap = set_at i d' s.heap },
      )

  -- `Flush`. Without a live database it panics.
  unfoldable pub flush_storage : Chunk → Storage → S → Flushed (StorageError E) × S × Storage
  unfolding choose_db last_of flush_at
  flush_storage c s st =
      let i = choose_db c.epoch_start c.epoch_end s.heap s.live_dbs (last_of 0 s.live_dbs) in
      elim (get_elem? s.heap i) [ none ↦ (panics, st, s) | some d ↦ flush_at c i d s st ]
