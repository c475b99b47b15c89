-- ===== src/Sqlite/Db.antt =====
-- sqlite/storage_db.go: the struct `storageDb` and the methods that change its state. What SQLite
-- and the system answer to a call is an argument of it; `E` are their errors. A method returns the
-- database, and the changes of files that it has asked for.
pub mod Flush
pub mod Names
pub mod Renaming
pub mod Lifecycle
mod Tests
use sqlog.Base.{
  ℕ, ◌+◌, ◌-◌, ◌%◌, ◌^◌, Bool, true, false, not, ◌&&◌, Option, none, some, List, [], ◌∷◌, ◌++◌, ltb,
  ◌==◌, if◌then◌else◌, Bytes, codes,
}
use sqlog.Base.Int.{ℤ, pos, ltb_ℤ, ◌-ℤ◌, inc32}
use sqlog.Base.Decimal.{format_int}

pub data Status : Type 0 where
  db_closed : Status
  db_loading : Status
  db_open : Status
  db_closing : Status
  db_removing : Status

-- `connected` says that the pointer `db` is not nil. `task_count` is the bit pattern of an int32,
-- and `task_map` has the ids of the tasks.
pub record StorageDb : Type 0 where
  pub live : Bool
  pub size : ℤ
  pub status : Status
  pub epoch_start : ℤ
  pub new_epoch_start : ℤ
  pub epoch_end : ℤ
  pub last_query_epoch : ℤ
  pub max_chunk_age_sec : ℤ
  pub file_dir : Bytes
  pub file_path : Bytes
  pub file_prefix : Bytes
  pub connected : Bool
  pub task_count : ℕ
  pub task_map : List ℕ

-- os.Rename and os.Remove. Their errors are logged only.
pub data FileOp : Type 0 where
  rename : Bytes → Bytes → FileOp
  remove_file : Bytes → FileOp

unfoldable pub is_db_open : Status → Bool
is_db_open db_open = true
is_db_open _ = false

unfoldable pub is_db_closed : Status → Bool
is_db_closed db_closed = true
is_db_closed _ = false

unfoldable pub is_open : StorageDb → Bool
unfolding is_db_open
is_open d = is_db_open d.status

-- taskMap.Store
unfoldable pub store_id : ℕ → List ℕ → List ℕ
store_id id [] = id ∷ []
store_id id (i ∷ ids) = let rest = store_id id ids in if i == id then id ∷ ids else i ∷ rest

unfoldable pub has_id : ℕ → List ℕ → Bool
has_id id [] = false
has_id id (i ∷ ids) = if i == id then true else has_id id ids

unfoldable pub delete_id : ℕ → List ℕ → List ℕ
delete_id id [] = []
delete_id id (i ∷ ids) = let rest = delete_id id ids in if i == id then ids else i ∷ rest

-- atomic.AddInt32(&x, -1)
unfoldable pub dec32 : ℕ → ℕ
dec32 n = (n + (2 ^ 32 - 1)) % 2 ^ 32

unfoldable pub schedule : ℕ → StorageDb → StorageDb
unfolding store_id
schedule id d = record d { task_map = store_id id d.task_map; task_count = inc32 d.task_count }

unfoldable pub cancel : ℕ → StorageDb → Bool × StorageDb
unfolding has_id delete_id dec32
cancel id d =
    if has_id id d.task_map
    then (true, record d { task_map = delete_id id d.task_map; task_count = dec32 d.task_count })
    else (false, d)

-- `execute` with a callback that answers true `n` times: the ids that it is called with.
unfoldable pub execute : ℕ → List ℕ → StorageDb → List ℕ × StorageDb
unfolding delete_id dec32
execute n [] d = ([], d)
execute n (id ∷ ids) d =
    let d' = record d { task_map = delete_id id d.task_map; task_count = dec32 d.task_count } in
    let rest = execute (n - 1) ids d' in if ltb 0 n then (id ∷ rest.0, rest.1) else (id ∷ [], d')

-- The options of the connection, in the order in which the map is read.
unfoldable pub options_string : List (Bytes × Bytes) → Bytes
options_string [] = []
options_string ((k, v) ∷ []) = k ++ (codes "=" ++ v)
options_string ((k, v) ∷ o ∷ options) =
    (k ++ (codes "=" ++ v)) ++ (codes "&" ++ options_string (o ∷ options))

unfoldable pub conn_string : Bytes → List (Bytes × Bytes) → Bytes
unfolding options_string
conn_string file_path [] = codes "file:" ++ file_path
conn_string file_path (o ∷ options) =
    (codes "file:" ++ file_path) ++ (codes "?" ++ options_string (o ∷ options))

-- lastQuerySec
unfoldable pub last_query_sec : ℤ → StorageDb → ℤ
unfolding ◌-ℤ◌
last_query_sec now d = now -ℤ d.last_query_epoch

-- The name that newDb gives the file, and close when it renames it.
unfoldable pub db_name : Bytes → ℤ → Bytes
unfolding format_int
db_name prefix epoch = prefix ++ (codes "_" ++ (format_int epoch ++ codes ".db"))

-- Whether `close` has to rename the file.
unfoldable pub is_older : StorageDb → Bool
is_older d = ltb_ℤ d.new_epoch_start d.epoch_start

module _ (path_join : Bytes → Bytes → Bytes) where
  -- `close`: what it returns, the file that it renames, and the database. VACUUM, which a live
  -- database runs first, changes none of these, and its error is logged only.
  unfoldable pub close : StorageDb → Bool × List FileOp × StorageDb
  unfolding is_db_open is_db_closed db_name is_older
  close d =
      if is_db_open d.status
      then (
        true,
        (if is_older d
            then rename d.file_path (path_join d.file_dir (db_name d.file_prefix d.new_epoch_start))
              ∷ []
            else []),
        record d { connected = false; status = db_closed },
      )
      else (is_db_closed d.status, [], d)

  unfoldable pub close_safe : ℤ → StorageDb → Bool × List FileOp × StorageDb
  unfolding close last_query_sec
  close_safe now d = if ltb_ℤ (last_query_sec now d) (pos 2) then (false, [], d) else close d

  unfoldable pub remove : StorageDb → List FileOp × StorageDb
  unfolding close
  remove d =
      let (closed, ops, d') = close d in
      if closed
      then (ops ++ remove_file d'.file_path ∷ [], record d' { status = db_removing })
      else (ops, d')

  unfoldable pub new_db : Bytes → Bytes → ℤ → ℤ → StorageDb
  unfolding db_name
  new_db dir prefix start max_chunk_age_sec = record {
    live = false;
    size = pos 0;
    status = db_closed;
    epoch_start = start;
    new_epoch_start = start;
    epoch_end = pos 0;
    last_query_epoch = pos 0;
    max_chunk_age_sec = max_chunk_age_sec;
    file_dir = dir;
    file_path = path_join dir (db_name prefix start);
    file_prefix = prefix;
    connected = false;
    task_count = 0;
    task_map = [];
  }

-- What sql.Open answers to the connection string, and what the two statements of `connect` answer.
pub record Dial (E : Type 0) : Type 0 where
  pub open_answer : Bytes → Option E
  pub table_answer : Option E
  pub index_answer : Option E

-- What Prepare and Query answer.
pub record Asked (E : Type 0) : Type 0 where
  pub prepare_answer : Option E
  pub query_answer : Option E

-- The errors of `query`.
pub data QueryError (E : Type 0) : Type 0 where
  is_closed : QueryError E
  of_driver : E → QueryError E

module _ {E : Type 0} where
  -- The first error of the three calls, each made only if those before it have none.
  unfoldable pub dial : Dial E → Bytes → Option E
  dial a text = elim (a.open_answer text) [
    | some e ↦ some e
    | none ↦ elim a.table_answer [ some e ↦ some e | none ↦ a.index_answer ]
  ]

  unfoldable pub connect : List (Bytes × Bytes) → Dial E → ℤ → StorageDb → Option E × StorageDb
  unfolding is_db_closed conn_string dial
  connect options a now d =
      if is_db_closed d.status
      then elim (dial a (conn_string d.file_path options)) [
        | some e ↦ (some e, record d { status = db_closed })
        | none ↦ (none, record d { connected = true; last_query_epoch = now; status = db_open })
      ]
      else (none, d)

  unfoldable pub query : Asked E → ℤ → StorageDb → Option (QueryError E) × StorageDb
  query a now d = if not d.connected then (some is_closed, d) else elim a.prepare_answer [
    | some e ↦ (some (of_driver e), d)
    | none ↦ elim a.query_answer [
      | some e ↦ (some (of_driver e), d)
      | none ↦ (none, record d { last_query_epoch = now })
    ]
  ]

  -- `updateSize`, where the row that is read is `total` and `freelist`, or the scan fails. Without
  -- a row both are 0.
  unfoldable pub update_size :
      Asked E → ℤ → Option E → ℤ → ℤ → StorageDb → Option (QueryError E) × StorageDb
  unfolding query ◌-ℤ◌
  update_size a now scan_answer total freelist d =
      let (failure, d') = query a now d in
      elim failure [
        | some e ↦ (some e, d')
        | none ↦ elim scan_answer [
          | some e ↦ (some (of_driver e), d')
          | none ↦ (none, record d' { size = total -ℤ freelist })
        ]
      ]
