-- ===== src/Sqlite/Storage/Tests.antt =====
-- Runs of sqlite/storage.go and sqlite/storage_size_check.go, and instances of the theorems.
use sqlog.Base.{ℕ, ◌≡◌, refl, true, none, some, [], ◌∷◌, ◌++◌, Bytes, codes, get_elem?, arith}
use sqlog.Base.Int.{pos, negsuc, ◌*ℤ◌}
use sqlog.Sqlite.Db.{StorageDb, Dial, dial, new_db, db_open, is_open}
use sqlog.Sqlite.Storage.Config.{StorageConfig, storage_defaults, prefix_of}
use sqlog.Sqlite.Storage.{Storage, last_of, grow, close_storage}
use sqlog.Sqlite.Storage.Reaching.{grow-close_storage}

abbrev join_path : Bytes → Bytes → Bytes
join_path dir name = dir ++ (codes "/" ++ name)

abbrev answers : Dial ℕ
answers = record { open_answer = λ text. none; table_answer = none; index_answer = none }

abbrev empty_config : StorageConfig
empty_config = record {
  dir = [];
  prefix = codes " My  App ";
  sqlite_options = [];
  max_chunk_age_sec = pos 0;
  max_filesize_mb = negsuc 4;
  total_size_cap_mb = pos 7;
  max_opened_db = pos 0;
  max_running_tasks = pos 0;
  close_idle_sec = pos 0;
  interval_size_check_sec = pos 0;
  interval_scheduled_tasks_ms = pos 0;
  interval_wal_checkpoint_sec = pos 0;
  wal_checkpoint_mode = [];
}

abbrev config : StorageConfig
config = storage_defaults empty_config

defaults_set :
    (config.prefix ≡ codes "my_app")
    × ((config.max_filesize_mb ≡ pos 20)
        × ((config.total_size_cap_mb ≡ pos 7) × (config.max_running_tasks ≡ pos 500)))
unfolding storage_defaults prefix_of
defaults_set = (refl, (refl, (refl, refl)))

abbrev db : ℕ → ℕ → StorageDb
db start size = record (new_db join_path (codes "logs") (codes "my_app") (pos start) (pos 3600)) {
  status = db_open;
  connected = true;
  size = pos size;
}

-- Two databases, the second live and too large.
abbrev two : Storage
two = record { heap = db 1000 5 ∷ db 9000 30000000 ∷ []; dbs = 0 ∷ 1 ∷ []; live_dbs = 1 ∷ [] }

grow-close_storage_example :
    let s' = grow join_path config answers (pos 9100) (pos 9110) two in
    (last_of 0 s'.live_dbs ≡ 2)
    × (s'.dbs ≡ 0 ∷ 1 ∷ [])
    × ((d' : StorageDb) × (get_elem? (close_storage join_path s').1.heap 2 ≡ some d')
        × (is_open d' ≡ true))
unfolding storage_defaults last_of new_db ◌*ℤ◌ dial
grow-close_storage_example =
    grow-close_storage join_path config answers (pos 9100) (pos 9110) two (db 9000 30000000)
      (omega arith, (omega arith, tt)) refl refl refl
