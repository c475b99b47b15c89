-- ===== src/Sqlite/Db/Names.antt =====
-- The names of the files: `initDbs` of sqlite/storage_db.go, which reads the epochs of a database
-- from the name of its file, against `newDb` and `close`, which give the names.
pub mod Reading
use sqlog.Base.{
  ℕ, Bool, true, false, ◌||◌, not, Option, none, some, List, [], ◌∷◌, ◌++◌, ◌==◌, if◌then◌else◌,
  Bytes, codes, bytes_eq,
}
use sqlog.Base.Int.{ℤ, pos}
use sqlog.Base.Decimal.{parse_int, parsed, bad_syntax, out_of_range, Parsed}
use sqlog.Expr.Text.{cut_prefix, is_empty}
use sqlog.Sqlite.Db.{StorageDb, db_closed}

-- path.Ext of a name without a slash: from the last dot on.
unfoldable pub ext : Bytes → Bytes
unfolding is_empty
ext [] = []
ext (c ∷ s) = let rest = ext s in if is_empty rest then (if c == b'.' then c ∷ s else []) else rest

-- strings.TrimSuffix(s, suffix), for a suffix that is not empty
unfoldable pub trim_suffix : Bytes → Bytes → Bytes
trim_suffix suffix [] = []
trim_suffix suffix (c ∷ s) =
    let rest = trim_suffix suffix s in if bytes_eq (c ∷ s) suffix then [] else c ∷ rest

-- strings.TrimPrefix(s, prefix)
unfoldable pub trim_prefix : Bytes → Bytes → Bytes
unfolding cut_prefix
trim_prefix prefix s = elim (cut_prefix prefix s) [ none ↦ s | some rest ↦ rest ]

unfoldable pub has_prefix : Bytes → Bytes → Bool
unfolding cut_prefix
has_prefix prefix s = elim (cut_prefix prefix s) [ none ↦ false | some rest ↦ true ]

-- strings.Split(s, c): the first part, and those behind it
unfoldable pub split : ℕ → Bytes → Bytes × List Bytes
split sep [] = ([], [])
split sep (c ∷ s) =
    let (part, parts) = split sep s in if c == sep then ([], part ∷ parts) else (c ∷ part, parts)

unfoldable pub epoch_of : Bytes → Option ℤ
unfolding parse_int
epoch_of s = elim (parse_int 64 s) [ parsed z ↦ some z | bad_syntax ↦ none | out_of_range z ↦ none ]

-- The end is 0 if the name has no second part.
unfoldable pub end_of : List Bytes → Option ℤ
unfolding epoch_of
end_of [] = some (pos 0)
end_of (part ∷ parts) = epoch_of part

unfoldable pub read_epochs : Bytes × List Bytes → Option (ℤ × ℤ)
unfolding epoch_of end_of
read_epochs (part, parts) = elim (epoch_of part) [
  | none ↦ none
  | some start ↦ elim (end_of parts) [ none ↦ none | some end ↦ some (start, end) ]
]

-- What of the name stands between the prefix and the extension.
unfoldable pub middle : Bytes → Bytes → Bytes
unfolding trim_suffix trim_prefix
middle prefix name = trim_suffix (codes ".db") (trim_prefix (prefix ++ codes "_") name)

-- The epochs that the name of a file stands for, none if the file is left out.
unfoldable pub read_name : Bytes → Bytes → Option (ℤ × ℤ)
unfolding ext has_prefix split read_epochs middle
read_name prefix name =
    if not (has_prefix prefix name) || not (bytes_eq (ext name) (codes ".db"))
    then none
    else read_epochs (split b'_' (middle prefix name))

-- A file that the walk meets, and what it appends to the databases.
module _ (path_join : Bytes → Bytes → Bytes) where
  unfoldable pub loaded_db : Bytes → Bytes → ℤ → ℤ → ℤ → StorageDb
  loaded_db dir name size start end = record {
    live = false;
    size = size;
    status = db_closed;
    epoch_start = start;
    new_epoch_start = pos 0;
    epoch_end = end;
    last_query_epoch = pos 0;
    max_chunk_age_sec = pos 0;
    file_dir = [];
    file_path = path_join dir name;
    file_prefix = [];
    connected = false;
    task_count = 0;
    task_map = [];
  }

  unfoldable pub walk_file : Bytes → Bytes → Bytes → ℤ → List StorageDb → List StorageDb
  unfolding read_name loaded_db
  walk_file dir prefix name size dbs = elim (read_name prefix name) [
    | none ↦ dbs
    | some (start, end) ↦ dbs ++ loaded_db dir name size start end ∷ []
  ]

  -- The files under `dir`, in the order of the walk, with their names and sizes.
  unfoldable pub walk_files : Bytes → Bytes → List (Bytes × ℤ) → List StorageDb → List StorageDb
  unfolding walk_file
  walk_files dir prefix [] dbs = dbs
  walk_files dir prefix ((name, size) ∷ files) dbs =
      walk_files dir prefix files (walk_file dir prefix name size dbs)
