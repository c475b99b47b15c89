-- ===== src/Sqlite/Scheduler/Running.antt =====
-- The storage of sqlite/storage.go under everything that happens to it: chunks are flushed, the
-- routines of the size check and of the tasks have their rounds, tasks are scheduled and databases
-- are queried.
use mathlib.Core.Path.{subst}
use sqlog.Base.{
  ℕ, ◌<◌, ◌≡◌, ◌≢◌, refl, false, Option, some, List, [], ◌∷◌, Bytes, length, get_elem?, arith,
}
use sqlog.Base.Int.{ℤ}
use sqlog.Chunk.{Chunk}
use sqlog.Sqlite.Db.{StorageDb, Dial, Asked, query, schedule, has_id}
use sqlog.Sqlite.Db.Flush.{Engine, panics}
use sqlog.Sqlite.Db.Lifecycle.{IsWf, query-IsWf}
use sqlog.Sqlite.Db.Lifecycle.Tasks.{schedule-IsWf}
use sqlog.Sqlite.Storage.{Storage, set_at, new_storage, close_storage, size_check, flush_storage}
use sqlog.Sqlite.Storage.Config.{StorageConfig}
use sqlog.Sqlite.Storage.Heap.{Valid, get-All}
use sqlog.Sqlite.Storage.Keeping.{
  IsSound, set_at-Keeps, kept-IsSound, close_storage-IsSound, size_check-IsSound,
  flush_storage-IsSound,
}
use sqlog.Sqlite.Storage.Starting.{new_storage-IsSound}
use sqlog.Sqlite.Storage.Reaching.{flush_storage-safe}
use sqlog.Sqlite.Scheduler.{Scheduler, scheduled_tasks}
use sqlog.Sqlite.Scheduler.Keeping.{scheduled_tasks-IsSound}

-- What happens to the storage, with whatever SQLite answers. An id is scheduled that the database
-- does not have, as the storage counts its ids up.
pub data Happens (path_join : Bytes → Bytes → Bytes) (config : StorageConfig) {S E : Type 0}
    (engine : Engine S E) : Storage → Storage → Type 0 where
  flushes :
      (c : Chunk) (s : Storage) (st : S)
      → Happens path_join config engine s (flush_storage engine c s st).2
  checks :
      (answers : Dial E) (asked : StorageDb → Asked E × Option E × ℤ × ℤ) (now start : ℤ)
      (s : Storage)
      → Happens path_join config engine s (size_check path_join config answers asked now start s).1
  rounds :
      (answers : ℕ → Dial E) (now : ℤ) (k : Scheduler E)
      → Happens path_join config engine k.storage
          (scheduled_tasks path_join config answers now k).2.storage
  schedules :
      (i id : ℕ) (d : StorageDb) (s : Storage)
      → get_elem? s.heap i ≡ some d
      → has_id id d.task_map ≡ false
      → Happens path_join config engine s (record s { heap = set_at i (schedule id d) s.heap })
  queries :
      (i : ℕ) (d : StorageDb) (a : Asked E) (now : ℤ) (s : Storage)
      → get_elem? s.heap i ≡ some d
      → Happens path_join config engine s (record s { heap = set_at i (query a now d).1 s.heap })
  closes : (s : Storage) → Happens path_join config engine s (close_storage path_join s).1

pub data Runs (path_join : Bytes → Bytes → Bytes) (config : StorageConfig) {S E : Type 0}
    (engine : Engine S E) : Storage → Storage → Type 0 where
  rests : (s : Storage) → Runs path_join config engine s s
  goes_on :
      {s s' s'' : Storage}
      → Happens path_join config engine s s'
      → Runs path_join config engine s' s''
      → Runs path_join config engine s s''

IsSound-flush_storage :
    {S E : Type 0} (engine : Engine S E) (s : Storage) (live : List ℕ)
    → s.live_dbs ≡ live
    → IsSound s
    → (c : Chunk) (st : S) → (flush_storage engine c s st).0 ≢ panics
IsSound-flush_storage engine s [] e h c st =
    absurd (omega (arith, subst (λ (l : List ℕ). 0 < length l) e h.some_live))
IsSound-flush_storage engine s (i ∷ is) e h c st =
    (flush_storage-safe engine c s st i is e (subst (Valid s.heap) e h.live_there) h.formed).0

module _ {path_join : Bytes → Bytes → Bytes} {config : StorageConfig} {S E : Type 0}
    {engine : Engine S E} where
  happen-IsSound : {s s' : Storage} → Happens path_join config engine s s' → IsSound s → IsSound s'
  happen-IsSound (flushes c s st) h = flush_storage-IsSound engine c s st h
  happen-IsSound (checks answers asked now start s) h =
      size_check-IsSound path_join config answers asked now start s h
  happen-IsSound (rounds answers now k) h = scheduled_tasks-IsSound path_join config answers now k h
  happen-IsSound (schedules i id d s found fresh) h = kept-IsSound s _ h (
      set_at-Keeps (length s.heap) i _ s.heap
        (schedule-IsWf id d fresh (get-All IsWf s.heap i d h.formed found)) (h.formed, refl))
  happen-IsSound (queries i d a now s found) h = kept-IsSound s _ h (
      set_at-Keeps (length s.heap) i _ s.heap
        (query-IsWf a now d (get-All IsWf s.heap i d h.formed found)) (h.formed, refl))
  happen-IsSound (closes s) h = close_storage-IsSound path_join s h

  Runs-IsSound : {s s' : Storage} → Runs path_join config engine s s' → IsSound s → IsSound s'
  Runs-IsSound (rests s) h = h
  Runs-IsSound (goes_on step run) h = Runs-IsSound run (happen-IsSound step h)

  -- Whatever happens to a storage that `New` has made, in whatever order and with whatever answers
  -- of SQLite: its pointers are to databases that are there, each of which is well-formed, and there
  -- is a live one; so that `Flush` does not panic, however the routines have closed, opened,
  -- removed and sorted the databases.
  pub Runs-flush_storage :
      {s : Storage} (files : List (Bytes × ℤ)) (answers : Dial E) (now : ℤ)
      → Runs path_join config engine (new_storage path_join config files answers now).1 s
      → IsSound s × ((c : Chunk) (st : S) → (flush_storage engine c s st).0 ≢ panics)
  Runs-flush_storage {s = s} files answers now run =
      let h = Runs-IsSound run (new_storage-IsSound path_join config files answers now) in
      (h, IsSound-flush_storage engine s s.live_dbs refl h)
