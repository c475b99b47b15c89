-- ===== src/Sqlite/Scheduler/Tests.antt =====
-- Runs of sqlite/storage_scheduler.go, and instances of the theorems.
use sqlog.Base.{
  ℕ, ◌≤◌, ◌+◌, ◌≡◌, ◌≢◌, ◌<◌, refl, true, false, ◌⊎◌, none, [], ◌∷◌, Bytes, codes, map, some,
  length, All, max, arith,
}
use sqlog.Base.Int.{pos, ◌-ℤ◌, ◌+ℤ◌, ◌≤ℤ◌}
use sqlog.Chunk.{Entry, Chunk, new_chunk, store}
use sqlog.Sqlite.Db.{StorageDb, new_db, Dial, is_open, last_query_sec}
use sqlog.Sqlite.Db.Flush.{Engine, panics}
use sqlog.Sqlite.Storage.{Storage, new_storage, size_check, flush_storage}
use sqlog.Sqlite.Storage.Config.{StorageConfig}
use sqlog.Sqlite.Storage.Keeping.{IsSound}
use sqlog.Sqlite.Scheduler.{
  Scheduler, cancel_task, schedule_dbs, max_for_db, open_dbs, Closing, close_each, is_idle,
  scheduled_tasks,
}
use sqlog.Sqlite.Task.{created}
use sqlog.Sqlite.Scheduler.Opening.{num_open, open_dbs-num_open}
use sqlog.Sqlite.Scheduler.Tasks.{Pending, schedule_dbs-Pending}
use sqlog.Sqlite.Scheduler.Limits.{max_for_db-share, close_each-IsAsleep}
use sqlog.Sqlite.Scheduler.Running.{flushes, checks, rounds, rests, goes_on, Runs-flush_storage}

abbrev join_path : Bytes → Bytes → Bytes
join_path dir name = name

abbrev answers : ℕ → Dial ℕ
answers i = record { open_answer = λ text. none; table_answer = none; index_answer = none }

abbrev config : StorageConfig
config = record {
  dir = [];
  prefix = codes "log";
  sqlite_options = [];
  max_chunk_age_sec = pos 3600;
  max_filesize_mb = pos 20;
  total_size_cap_mb = pos 1000;
  max_opened_db = pos 1;
  max_running_tasks = pos 500;
  close_idle_sec = pos 30;
  interval_size_check_sec = pos 5;
  interval_scheduled_tasks_ms = pos 100;
  interval_wal_checkpoint_sec = pos 0;
  wal_checkpoint_mode = [];
}

abbrev db : ℕ → StorageDb
db start = new_db join_path [] (codes "log") (pos start) (pos 3600)

-- Four databases that are closed.
abbrev start : Scheduler ℕ
start = record {
  storage = record {
    heap = db 100 ∷ db 200 ∷ db 300 ∷ db 400 ∷ [];
    dbs = 0 ∷ 1 ∷ 2 ∷ 3 ∷ [];
    live_dbs = [];
  };
  task_id_seq = 0;
  task_map = [];
  num_active = 0;
}

abbrev with_tasks : Scheduler ℕ
with_tasks = (schedule_dbs (0 ∷ 1 ∷ 2 ∷ 3 ∷ []) start).1

-- With a limit of one database, all four are opened in one round: each of them is counted as
-- closed before.
opens-All :
    All
      (λ d. is_open d ≡ true)
      (scheduled_tasks join_path config answers (pos 5000) with_tasks).2.storage.heap
unfolding scheduled_tasks schedule_dbs new_db
opens-All = (refl, (refl, (refl, (refl, tt))))

schedule_dbs-Pending_example :
    let (ids, s') = schedule_dbs (0 ∷ 2 ∷ []) start in
    (length ids ≡ 2) × All (λ id. Pending id s') ids
schedule_dbs-Pending_example = schedule_dbs-Pending (0 ∷ 2 ∷ []) start (omega arith)

max_for_db-share_example :
    ((150 < 160) × (max_for_db 150 160 400 ≡ 1))
    ⊎ (◌≡◌ {A = ℕ} 150 160 × (max_for_db 150 160 400 ≡ max 1 400))
max_for_db-share_example = max_for_db-share 150 160 400 (omega arith) (omega arith)

abbrev closing : Closing
closing = record {
  total_open = pos 1;
  closed_any = false;
  ops = [];
  heap = db 100 ∷ db 200 ∷ db 300 ∷ [];
}

close_each-IsAsleep_example :
    let c' =
      close_each join_path
        (pos 5000)
        (is_idle join_path (pos 5000) config)
        (0 ∷ 1 ∷ 2 ∷ [])
        closing in
    (c'.total_open ≡ pos 1 -ℤ pos 3) × (c'.heap ≡ closing.heap) × (c'.ops ≡ [])
unfolding new_db last_query_sec
close_each-IsAsleep_example =
    close_each-IsAsleep join_path config (pos 5000) (0 ∷ 1 ∷ 2 ∷ []) closing (
      (db 100, refl, record { closed = refl; apart = refl; idle = refl; safe = refl }),
      (
        (db 200, refl, record { closed = refl; apart = refl; idle = refl; safe = refl }),
        ((db 300, refl, record { closed = refl; apart = refl; idle = refl; safe = refl }), tt),
      ),
    )

abbrev engine : Engine ℕ ℕ
engine = record {
  begin_answer = λ st. none;
  prepare_answer = λ text st. none;
  exec_answer = λ text values st. none;
  commit = λ text values st. st + 1;
}

abbrev entry : ℕ → Entry
entry s = record { time = record { unix = pos s; nanos = 0 }; level = pos 0; content = codes "{}" }

abbrev chunk : Chunk
chunk = store (new_chunk (pos 9)) 0 (entry 9050)

-- The storage of an empty directory.
abbrev first : Storage
first = (new_storage join_path config [] (answers 0) (pos 9000)).1

-- A chunk has been flushed, and the size has been checked.
abbrev checked : Storage
checked =
    (size_check join_path config (answers 0)
      (λ d. (record { prepare_answer = none; query_answer = none }, none, pos 30000000, pos 0))
      (pos 9060) (pos 9070) (flush_storage engine chunk first 0).2).1

abbrev after_round : Storage
after_round =
    let round =
      scheduled_tasks join_path config answers (pos 9200) (record start { storage = checked }) in
    round.2.storage

Runs-flush_storage_example :
    IsSound after_round
    × ((c : Chunk) (st : ℕ) → (flush_storage engine c after_round st).0 ≢ panics)
Runs-flush_storage_example =
    Runs-flush_storage {config = config} {engine = engine} [] (answers 0) (pos 9000) (
      goes_on (flushes chunk first 0) (
        goes_on
          (checks (answers 0)
            (λ d.
              (record { prepare_answer = none; query_answer = none }, none, pos 30000000, pos 0))
            (pos 9060) (pos 9070) (flush_storage engine chunk first 0).2)
          (goes_on (rounds answers (pos 9200) (record start { storage = checked }))
            (rests after_round))))

open_dbs-num_open_example :
    let heap' =
      open_dbs config answers
        (pos 5000)
        (0 ∷ 1 ∷ 2 ∷ 3 ∷ [])
        (pos (num_open start.storage.heap))
        start.storage.heap in
    (num_open heap' ≤ num_open start.storage.heap + 1)
    ⊎ (pos (num_open heap') ≤ℤ config.max_opened_db +ℤ pos 1)
open_dbs-num_open_example =
    open_dbs-num_open config answers (pos 5000) (0 ∷ 1 ∷ 2 ∷ 3 ∷ []) start.storage.heap

-- With a limit of one database, two are opened.
opened_over_limit :
    num_open (open_dbs config answers (pos 5000) (0 ∷ 1 ∷ 2 ∷ 3 ∷ []) (pos 0) start.storage.heap)
    ≡ 2
unfolding num_open open_dbs new_db
opened_over_limit = refl

-- A task that has its database: `Cancel` takes it out of both maps.
abbrev with_db : Scheduler ℕ
with_db = record with_tasks {
  task_map = (2, record { db = some 1; state = created; error = none }) ∷ [];
}

cancels_with_db :
    let (has_panicked, s) = cancel_task 2 with_db in
    (has_panicked ≡ false)
    × (s.task_map ≡ [])
    × (map (λ d. d.task_map) s.storage.heap ≡ (1 ∷ []) ∷ [] ∷ (3 ∷ []) ∷ (4 ∷ []) ∷ [])
unfolding cancel_task schedule_dbs new_db
cancels_with_db = (refl, refl, refl)
