-- ===== src/Sqlite/Db/Tests.antt =====
-- Runs of the methods of sqlite/storage_db.go, and instances of the theorems.
use sqlog.Base.{
  ℕ, ◌%◌, ◌^◌, ◌≡◌, ◌≢◌, ◌⊎◌, refl, true, false, none, some, List, [], ◌∷◌, ◌++◌, Bytes, codes,
  length, arith,
}
use sqlog.Base.Int.{ℤ, pos, negsuc}
use sqlog.Base.Decimal.{format_int}
use sqlog.Chunk.{Chunk}
use sqlog.Sqlite.Db.{
  StorageDb, FileOp, rename, is_open, db_name, close, remove, new_db, Dial, connect, Asked, query,
  is_closed, schedule, conn_string, has_id, dial,
}
use sqlog.Sqlite.Db.Flush.{Engine, flush, panics}
use sqlog.Sqlite.Db.Names.{read_name, loaded_db}
use sqlog.Sqlite.Db.Names.Reading.{read_name-db_name}
use sqlog.Sqlite.Db.Renaming.{loaded_db-close}
use sqlog.Sqlite.Db.Lifecycle.{Steps, done, follows, connects, schedules, is_settled}
use sqlog.Sqlite.Db.Lifecycle.Running.{new_db-IsFresh, Steps-connection}
use sqlog.Sqlite.Db.Lifecycle.Removed.{IsGone, Steps-IsGone}

-- path.Join of parts without dots and slashes.
join_path : Bytes → Bytes → Bytes
join_path [] name = name
join_path (c ∷ dir) name = (c ∷ dir) ++ (codes "/" ++ name)

engine : Engine ℕ ℕ
engine = record {
  begin_answer = λ st. none;
  prepare_answer = λ text st. none;
  exec_answer = λ text values st. none;
  commit = λ text values st. st;
}

abbrev answers : Dial ℕ
answers = record { open_answer = λ text. none; table_answer = none; index_answer = none }

abbrev fresh : StorageDb
fresh = new_db join_path (codes "logs") (codes "sqlog") (pos 1700000000) (pos 3600)

abbrev opened : StorageDb
opened = (connect [] answers (pos 1700000001) fresh).1

name_of_new : fresh.file_path ≡ codes "logs/sqlog_1700000000.db"
unfolding new_db db_name join_path format_int
name_of_new = refl

options_text :
    conn_string
      (codes "logs/a.db")
      ((codes "_journal_mode", codes "WAL") ∷ (codes "_cache_size", codes "409600") ∷ [])
    ≡ codes "file:logs/a.db?_journal_mode=WAL&_cache_size=409600"
unfolding conn_string
options_text = refl

other_files :
    (read_name (codes "sqlog") (codes "sqlog_5_9.db") ≡ some (pos 5, pos 9))
    × ((read_name (codes "sqlog") (codes "sqlog_.db") ≡ none)
        × (read_name (codes "sqlog") (codes "sqlog_5.db-wal") ≡ none))
unfolding read_name
other_files = (refl, (refl, refl))

read_name-db_name_example :
    read_name (codes "my_app") (db_name (codes "my_app") (negsuc 41)) ≡ some (negsuc 41, pos 0)
read_name-db_name_example = read_name-db_name (codes "my_app") (negsuc 41) (omega arith)

connected-Steps : Steps join_path engine fresh [] (schedule 4 opened)
unfolding has_id connect new_db
connected-Steps =
    follows (connects [] answers (pos 1700000001) fresh)
      (follows (schedules 4 opened refl) (done (schedule 4 opened)))

Steps-connection_example :
    (is_settled (schedule 4 opened).status ≡ true)
    × (((is_open (schedule 4 opened) ≡ true)
          × ((c : Chunk) (st : ℕ) → (flush engine c (schedule 4 opened) st).0 ≢ panics))
        ⊎ ((is_open (schedule 4 opened) ≡ false)
            × ((a : Asked ℕ) (now : ℤ)
                → query a now (schedule 4 opened) ≡ (some is_closed, schedule 4 opened))))
    × ((schedule 4 opened).task_count ≡ length (schedule 4 opened).task_map % 2 ^ 32)
Steps-connection_example =
    Steps-connection
      (new_db-IsFresh join_path (codes "logs") (codes "sqlog") (pos 1700000000) (pos 3600))
      connected-Steps

abbrev gone : StorageDb
gone = (remove join_path opened).1

Steps-IsGone_example :
    (◌≡◌ {A = List FileOp} [] [])
    × IsGone (connect [] answers (pos 1700000009) gone).1
    × ((options : List (Bytes × Bytes)) (a : Dial ℕ) (now : ℤ)
        → connect options a now (connect [] answers (pos 1700000009) gone).1
          ≡ (none, (connect [] answers (pos 1700000009) gone).1))
unfolding remove close connect new_db
Steps-IsGone_example =
    Steps-IsGone {path_join = join_path} {engine = engine}
      (record { removing = refl; apart = refl })
      (follows (connects [] answers (pos 1700000009) gone)
        (done ((connect [] answers (pos 1700000009) gone).1)))

loaded_db-close_example :
    let (failure, d) = connect [] answers (pos 1700000001) (
      loaded_db join_path
        (codes "logs")
        (codes "sqlog_1600000000.db")
        (pos 0)
        (pos 1600000000)
        (pos 0)) in
    (failure ≡ none)
    × ((close join_path d).1 ≡ rename (codes "logs/sqlog_1600000000.db") (codes "_0.db") ∷ [])
unfolding join_path dial db_name
loaded_db-close_example =
    loaded_db-close join_path (codes "logs") (codes "sqlog_1600000000.db") (pos 0) (pos 1600000000)
      (pos 0) [] answers (pos 1700000001) refl refl
