-- ===== src/Sqlite/Db/Flush/Tests.antt =====
-- Runs of `flush` of sqlite/storage_db.go on an engine that keeps the entries it is given, and
-- instances of the theorems.
use sqlog.Base.{
  ℕ, ◌<◌, ◌≡◌, ◌≢◌, ◌⊎◌, refl, true, none, some, List, [], ◌∷◌, ◌++◌, Bytes, codes, length, ◌==◌,
  if◌then◌else◌, arith, ap,
}
use sqlog.Base.Int.{pos, pos_part}
use sqlog.Chunk.{Entry, Chunk, list, new_chunk, store}
use sqlog.Sqlite.Db.{StorageDb, new_db, db_open}
use sqlog.Sqlite.Db.Flush.{Value, integer, blob, Engine, row, flush, saved, fails}
use sqlog.Sqlite.Db.Flush.Saving.{
  insert_statement, rows, recent, Documented, Covers, flush-refuses, flush-saves,
}
use sqlog.Sqlite.Expr.Binding.{count}

-- The entries that are bound to a statement.
entries_of : List Value → List Entry
entries_of (integer s ∷ integer n ∷ integer l ∷ blob b ∷ vs) =
    record { time = record { unix = s; nanos = pos_part n }; level = l; content = b }
    ∷ entries_of vs
entries_of _ = []

engine : Engine (List Entry) Bytes
engine = record {
  begin_answer = λ st. none;
  prepare_answer = λ text st. none;
  exec_answer = λ text values st.
      if count b'?' text == length values then none else some (codes "wrong number of arguments");
  commit = λ text values st. st ++ entries_of values;
}

entries_of-rows : (es : List Entry) → entries_of (rows es) ≡ es
unfolding rows row entries_of
entries_of-rows [] = refl
entries_of-rows (e ∷ es) = ap (λ l. e ∷ l) (entries_of-rows es)

wrong_count :
    (a b : ℕ)
    → a ≢ b
    → (if a == b then none else some (codes "wrong number of arguments"))
      ≡ some (codes "wrong number of arguments")
wrong_count a b h = ground (arith, h)

engine-Documented : Documented engine (λ st. st)
unfolding engine count
engine-Documented = record {
  counted = λ text values st h.
      (codes "wrong number of arguments", wrong_count (count b'?' text) (length values) h);
  inserted = λ e es st. ap (λ l. st ++ l) (entries_of-rows (e ∷ es));
}

abbrev entry : ℕ → Entry
entry s = record { time = record { unix = pos s; nanos = 7 }; level = pos 0; content = codes "{}" }

-- A chunk of three entries, the second of an hour and more before the start of the database.
abbrev delayed : Chunk
delayed = store (store (store (new_chunk (pos 9)) 0 (entry 9000)) 1 (entry 10)) 2 (entry 9001)

abbrev recently : Chunk
recently = store (store (new_chunk (pos 9)) 0 (entry 9000)) 1 (entry 8000)

abbrev db : StorageDb
db =
    record (new_db (λ dir name. dir ++ (codes "/" ++ name)) (codes "logs") (codes "sqlog")
      (pos 8500) (pos 3600)) { status = db_open; connected = true }

run_recently : flush engine recently db [] ≡ (
  saved,
  entry 9000 ∷ entry 8000 ∷ [],
  record db { epoch_end = pos 9000; new_epoch_start = pos 8000 },
)
unfolding flush list store new_chunk new_db engine count entries_of
run_recently = refl

flush-saves_example :
    (st' : List Entry) × (d' : StorageDb) × (flush engine recently db [] ≡ (saved, st', d'))
    × (st' ≡ entry 9000 ∷ entry 8000 ∷ [])
    × Covers recently db d'
unfolding flush list store new_chunk new_db engine count insert_statement rows recent
flush-saves_example =
    flush-saves engine (λ st. st) engine-Documented recently db [] (entry 9000) (entry 8000 ∷ [])
      refl refl (refl, (refl, tt)) refl

flush-refuses_example :
    ((0 < 2) × ((x : Bytes) × (flush engine delayed db [] ≡ (fails x, [], db))))
    ⊎ (◌≡◌ {A = ℕ} 2 0 × (flush engine delayed db [] ≡ (saved, [], db)))
unfolding flush list store new_chunk new_db engine count insert_statement rows recent
flush-refuses_example =
    flush-refuses engine (λ st. st) engine-Documented delayed db [] (entry 9000)
      (entry 10 ∷ entry 9001 ∷ []) refl refl (omega arith)
