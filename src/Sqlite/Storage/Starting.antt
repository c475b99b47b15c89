-- ===== src/Sqlite/Storage/Starting.antt =====
-- The storage that `New` of sqlite/storage.go starts with.
use mathlib.Core.Path.{subst}
use sqlog.Base.{
  ℕ, ◌+◌, ◌<◌, refl, sym, true, Option, none, some, List, [], ◌∷◌, ltb, if◌then◌else◌, Bytes,
  length, All, All-append, arith, if_both, if_cases, Option_both,
}
use sqlog.Base.Int.{ℤ}
use sqlog.Sqlite.Db.{StorageDb, Dial, connect}
use sqlog.Sqlite.Db.Names.{read_name, loaded_db, walk_file, walk_files}
use sqlog.Sqlite.Db.Lifecycle.{IsWf, connect-IsWf, same-IsWf}
use sqlog.Sqlite.Db.Lifecycle.Running.{new_db-IsFresh, loaded_db-IsFresh, fresh-IsWf}
use sqlog.Sqlite.Databases.{less, insert_db, sort_dbs}
use sqlog.Sqlite.Storage.Config.{StorageConfig}
use sqlog.Sqlite.Storage.{Storage, set_at, numbers, last_of, first_dbs, new_storage}
use sqlog.Sqlite.Storage.Heap.{Valid, get-some, get-All, last_of-Valid}
use sqlog.Sqlite.Storage.Keeping.{IsSound, set_at-Keeps}

module _ (P : StorageDb → Type 0) where
  insert_db-kept : (d : StorageDb) (ds : List StorageDb) → P d → All P ds → All P (insert_db d ds)
  unfolding insert_db
  insert_db-kept d [] p h = (p, tt)
  insert_db-kept d (e ∷ ds) p h = if_both (All P) (less e d) (h.0, insert_db-kept d ds p h.1) (p, h)

  sort_dbs-kept : (ds : List StorageDb) → All P ds → All P (sort_dbs ds)
  unfolding sort_dbs
  sort_dbs-kept [] h = tt
  sort_dbs-kept (d ∷ ds) h = insert_db-kept d (sort_dbs ds) h.0 (sort_dbs-kept ds h.1)

numbers-Valid : (i : ℕ) (ds : List StorageDb) → All (λ j. j < i + length ds) (numbers i ds)
unfolding numbers
numbers-Valid i [] = tt
numbers-Valid i (d ∷ ds) = (
  omega arith,
  subst (λ n. All (λ j. j < n) (numbers (i + 1) ds)) (omega arith) (numbers-Valid (i + 1) ds),
)

all_numbers-Valid : (ds : List StorageDb) → Valid ds (numbers 0 ds)
all_numbers-Valid ds =
    subst (λ n. All (λ j. j < n) (numbers 0 ds)) (omega arith) (numbers-Valid 0 ds)

module _ (path_join : Bytes → Bytes → Bytes) where
  walk_file-IsWf :
      (dir prefix name : Bytes) (size : ℤ) (dbs : List StorageDb)
      → All IsWf dbs
      → All IsWf (walk_file path_join dir prefix name size dbs)
  unfolding walk_file
  walk_file-IsWf dir prefix name size dbs h =
      Option_both (All IsWf) (read_name prefix name) h (λ (start, end).
        All-append IsWf dbs (loaded_db path_join dir name size start end ∷ []) h
          (fresh-IsWf _ (loaded_db-IsFresh path_join dir name size start end), tt))

  walk_files-IsWf :
      (dir prefix : Bytes) (files : List (Bytes × ℤ)) (dbs : List StorageDb)
      → All IsWf dbs
      → All IsWf (walk_files path_join dir prefix files dbs)
  unfolding walk_files
  walk_files-IsWf dir prefix [] dbs h = h
  walk_files-IsWf dir prefix ((name, size) ∷ files) dbs h =
      walk_files-IsWf dir prefix files _ (walk_file-IsWf dir prefix name size dbs h)

  -- There is a database, and all are well-formed.
  first_dbs-IsWf :
      (config : StorageConfig) (files : List (Bytes × ℤ)) (now : ℤ)
      → let heap = first_dbs path_join config files now in (0 < length heap) × All IsWf heap
  unfolding first_dbs
  first_dbs-IsWf config files now =
      let P = λ (l : List StorageDb). (0 < length l) × All IsWf l in
      let found = walk_files path_join config.dir config.prefix files [] in
      let formed = walk_files-IsWf config.dir config.prefix files [] tt in
      let sorted = if ltb 1 (length found) then sort_dbs found else found in
      if_cases P (ltb 0 (length sorted))
        (λ e. (
          ground (arith, e),
          if_both (All IsWf) (ltb 1 (length found)) (sort_dbs-kept IsWf found formed) formed,
        ))
        (λ _. (
          omega arith,
          (
            fresh-IsWf _
                (new_db-IsFresh path_join config.dir config.prefix now config.max_chunk_age_sec),
            tt,
          ),
        ))

  -- Whatever files there are, and whether or not the live database can be connected.
  pub new_storage-IsSound :
      {E : Type 0} (config : StorageConfig) (files : List (Bytes × ℤ)) (answers : Dial E) (now : ℤ)
      → IsSound (new_storage path_join config files answers now).1
  unfolding new_storage
  new_storage-IsSound {E = E} config files answers now =
      let heap = first_dbs path_join config files now in
      let dbs = numbers 0 heap in
      let live = last_of 0 dbs in
      let (some_db, formed) = first_dbs-IsWf config files now in
      let there = all_numbers-Valid heap in
      let below = last_of-Valid heap 0 dbs (some_db, there) in
      let (d, found) = get-some heap live below in
      let w =
        connect-IsWf config.sqlite_options answers now d (get-All IsWf heap live d formed found) in
      let d' = (connect config.sqlite_options answers now d).1 in
      let e = record d' { live = true } in
      let (formed', count) =
        set_at-Keeps (length heap) live e heap (same-IsWf d' e refl refl refl refl w)
          (formed, refl) in
      subst
        (λ (o : Option StorageDb).
          IsSound
            (elim o as (λ _. Option E × Storage) [
              | none ↦ (none, record { heap = heap; dbs = dbs; live_dbs = [] })
              | some x ↦
                  let (failure, x') = connect config.sqlite_options answers now x in
                  (
                    failure,
                    record {
                      heap = set_at live (record x' { live = true }) heap;
                      dbs = dbs;
                      live_dbs = live ∷ [];
                    },
                  )
            ]).1)
        (sym found)
        (record {
          formed = formed';
          there = subst (λ n. All (λ i. i < n) dbs) (sym count) there;
          live_there = (subst (λ n. live < n) (sym count) below, tt);
          some_live = omega arith;
        })
