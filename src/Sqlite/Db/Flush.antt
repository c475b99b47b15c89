-- ===== src/Sqlite/Db/Flush.antt =====
-- sqlite/storage_db.go: `flush`, which writes the entries of a chunk with one statement. SQLite is
-- the record `Engine`: `S` is what the file holds, and `E` are the errors.
pub mod Saving
mod Tests
use sqlog.Base.{
  ℕ, zero, suc, Bool, true, false, not, Option, none, some, List, [], ◌∷◌, ◌++◌, ltb, if◌then◌else◌,
  Bytes, codes,
}
use sqlog.Base.Int.{ℤ, pos, ltb_ℤ, ◌-ℤ◌}
use sqlog.Chunk.{Time, Entry, Chunk, list}
use sqlog.Expr.Text.{is_empty}
use sqlog.Sqlite.Db.{StorageDb}

-- A value that is bound to a placeholder.
pub data Value : Type 0 where
  integer : ℤ → Value
  blob : Bytes → Value

-- What the calls of database/sql answer; `commit text values` is what the file holds behind a
-- transaction that has run this statement. The error of tx.Commit() is not read.
pub record Engine (S E : Type 0) : Type 0 where
  pub begin_answer : S → Option E
  pub prepare_answer : Bytes → S → Option E
  pub exec_answer : Bytes → List Value → S → Option E
  pub commit : Bytes → List Value → S → S

abbrev pub sql_insert : Bytes
sql_insert = codes "INSERT INTO entries(epoch_secs, nanos, level, content) VALUES "

abbrev pub sql_insert_values : Bytes
sql_insert_values = codes "(?,?,?,?)"

-- The text behind `sql_insert`, from entry `i` of the list on.
unfoldable pub flush_sql : ℕ → List (Option Entry) → Bytes
flush_sql i [] = []
flush_sql i (none ∷ l) = flush_sql (suc i) l
flush_sql i (some e ∷ l) =
    (if ltb 0 i then codes "," else []) ++ (sql_insert_values ++ flush_sql (suc i) l)

unfoldable pub row : Entry → List Value
row e = integer e.time.unix ∷ integer (pos e.time.nanos) ∷ integer e.level ∷ blob e.content ∷ []

-- Older than the chunk's age allows.
unfoldable pub is_old : ℤ → Entry → Bool
is_old max_chunk_age e = ltb_ℤ e.time.unix max_chunk_age

unfoldable pub flush_values : ℤ → List (Option Entry) → List Value
unfolding row is_old
flush_values max_chunk_age [] = []
flush_values max_chunk_age (none ∷ l) = flush_values max_chunk_age l
flush_values max_chunk_age (some e ∷ l) =
    let rest = flush_values max_chunk_age l in
    if is_old max_chunk_age e then rest else row e ++ rest

unfoldable pub max_chunk_age : StorageDb → ℤ
unfolding ◌-ℤ◌
max_chunk_age d = d.epoch_start -ℤ d.max_chunk_age_sec

-- max(chunk.Last(), s.epochEnd), and the lesser of both starts
unfoldable pub extend : Chunk → StorageDb → StorageDb
extend c d = record d {
  epoch_end = if ltb_ℤ c.epoch_end d.epoch_end then d.epoch_end else c.epoch_end;
  new_epoch_start =
      if ltb_ℤ c.epoch_start d.new_epoch_start then c.epoch_start else d.new_epoch_start;
}

pub data Flushed (E : Type 0) : Type 0 where
  saved : Flushed E
  fails : E → Flushed E
  panics : Flushed E

module _ {S E : Type 0} (engine : Engine S E) where
  -- The transaction: its first error, each call made only if those before it have none.
  unfoldable pub transact : Bytes → List Value → S → Option E
  transact text values st = elim (engine.begin_answer st) [
    | some e ↦ some e
    | none ↦ elim (engine.prepare_answer text st) [
      | some e ↦ some e
      | none ↦ engine.exec_answer text values st
    ]
  ]

  -- `flush` from the loop on. Without a connection s.db.Begin() panics.
  unfoldable pub flush_rows : Bytes → List Value → Chunk → StorageDb → S → Flushed E × S × StorageDb
  unfolding transact extend is_empty
  flush_rows text values c d st =
      if is_empty values
      then (saved, st, d)
      else if not d.connected
      then (panics, st, d)
      else elim (transact text values st) [
        | some e ↦ (fails e, st, d)
        | none ↦ (saved, engine.commit text values st, extend c d)
      ]

  unfoldable pub flush : Chunk → StorageDb → S → Flushed E × S × StorageDb
  unfolding flush_sql flush_values flush_rows max_chunk_age
  flush c d st =
      flush_rows (sql_insert ++ flush_sql 0 (list c)) (flush_values (max_chunk_age d) (list c)) c d
        st
