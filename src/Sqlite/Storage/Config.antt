-- ===== src/Sqlite/Storage/Config.antt =====
-- The configuration of sqlite/storage.go with the defaults that `New` sets. The ExprBuilder, whose
-- default is ExpBuilderFn, is a parameter of the queries.
use sqlog.Base.{
  ℕ, ◌+◌, Bool, false, ◌&&◌, ◌||◌, List, [], ◌∷◌, leb, if◌then◌else◌, Bytes, bytes_eq, codes,
}
use sqlog.Base.Int.{ℤ, pos, ltb_ℤ, leb_ℤ}
use sqlog.Expr.Text.{is_space, trim_space, is_empty, to_upper}

pub record StorageConfig : Type 0 where
  pub dir : Bytes
  pub prefix : Bytes
  pub sqlite_options : List (Bytes × Bytes)
  pub max_chunk_age_sec : ℤ
  pub max_filesize_mb : ℤ
  pub total_size_cap_mb : ℤ
  pub max_opened_db : ℤ
  pub max_running_tasks : ℤ
  pub close_idle_sec : ℤ
  pub interval_size_check_sec : ℤ
  pub interval_scheduled_tasks_ms : ℤ
  pub interval_wal_checkpoint_sec : ℤ
  pub wal_checkpoint_mode : Bytes

-- StorageSQLiteOptions
abbrev pub default_options : List (Bytes × Bytes)
default_options =
    (codes "_journal_mode", codes "WAL")
    ∷ (codes "_synchronous", codes "NORMAL")
    ∷ (codes "_cache_size", codes "409600")
    ∷ []

-- strings.ToLower
unfoldable pub to_lower : Bytes → Bytes
to_lower [] = []
to_lower (c ∷ s) = (if leb b'A' c && leb c b'Z' then c + 32 else c) ∷ to_lower s

unfoldable pub starts_with_space : Bytes → Bool
unfolding is_space
starts_with_space [] = false
starts_with_space (c ∷ s) = is_space c

-- strings.Join(strings.Fields(s), "_"), of a text without spaces at its ends
unfoldable pub join_fields : Bytes → Bytes
unfolding starts_with_space is_space
join_fields [] = []
join_fields (c ∷ s) =
    let rest = join_fields s in
    if is_space c then (if starts_with_space s then rest else b'_' ∷ rest) else c ∷ rest

unfoldable pub prefix_of : Bytes → Bytes
unfolding trim_space to_lower join_fields is_empty
prefix_of prefix =
    let s = trim_space prefix in if is_empty s then codes "sqlog" else to_lower (join_fields s)

-- A setting that has to be positive, or its default.
unfoldable pub or_default : ℕ → ℤ → ℤ
or_default n z = if leb_ℤ z (pos 0) then pos n else z

-- The modes that `New` lets pass, in capitals; any other one becomes TRUNCATE.
unfoldable pub wal_mode : Bytes → Bytes
unfolding to_upper
wal_mode text =
    let mode = to_upper text in
    if bytes_eq mode (codes "PASSIVE")
      || bytes_eq mode (codes "FULL")
      || bytes_eq mode (codes "RESTART")
      || bytes_eq mode (codes "TRUNCATE")
    then mode
    else codes "TRUNCATE"

unfoldable pub storage_defaults : StorageConfig → StorageConfig
unfolding prefix_of or_default is_empty wal_mode
storage_defaults c = record c {
  dir = if is_empty c.dir then codes "./logs" else c.dir;
  prefix = prefix_of c.prefix;
  sqlite_options = if is_empty c.sqlite_options then default_options else c.sqlite_options;
  max_chunk_age_sec = or_default 3600 c.max_chunk_age_sec;
  max_filesize_mb = or_default 20 c.max_filesize_mb;
  total_size_cap_mb = or_default 1000 c.total_size_cap_mb;
  max_running_tasks = or_default 500 c.max_running_tasks;
  close_idle_sec = or_default 30 c.close_idle_sec;
  interval_size_check_sec = or_default 5 c.interval_size_check_sec;
  interval_scheduled_tasks_ms = or_default 100 c.interval_scheduled_tasks_ms;
  wal_checkpoint_mode =
      if ltb_ℤ (pos 0) c.interval_wal_checkpoint_sec
      then wal_mode c.wal_checkpoint_mode
      else c.wal_checkpoint_mode;
}
