-- ===== src/Sqlite/Db/Flush/Saving.antt =====
-- What becomes of the entries of a chunk in `flush` of sqlite/storage_db.go.
use sqlog.Base.{
  ℕ, zero, suc, ◌*◌, ◌<◌, ◌≡◌, ◌≢◌, ◌⊎◌, refl, ap, ◌∙◌, true, false, none, some, List, [], ◌∷◌,
  ◌++◌, map, ltb, if◌then◌else◌, Bytes, codes, length, arith, not, inl, inr, All,
}
use sqlog.Base.Int.{ℤ, ltb_ℤ}
use sqlog.Chunk.{Entry, Chunk, list}
use sqlog.Expr.Text.{is_empty}
use sqlog.Sqlite.Db.{StorageDb}
use sqlog.Sqlite.Db.Flush.{
  Value, Engine, sql_insert, sql_insert_values, flush_sql, flush_values, row, is_old, max_chunk_age,
  extend, saved, fails, transact, flush, flush_rows, panics,
}
use sqlog.Sqlite.Expr.Binding.{count}

-- The groups of placeholders behind the first, one for each of `n` rows.
unfoldable pub more_rows : ℕ → Bytes
more_rows zero = []
more_rows (suc n) = codes "," ++ (sql_insert_values ++ more_rows n)

-- The statement that inserts one row and `n` more.
unfoldable pub insert_statement : ℕ → Bytes
unfolding more_rows
insert_statement n = sql_insert ++ (sql_insert_values ++ more_rows n)

unfoldable pub rows : List Entry → List Value
rows [] = []
rows (e ∷ es) = row e ++ rows es

-- The entries that are not older than the chunk's age allows.
unfoldable pub recent : ℤ → List Entry → List Entry
recent age [] = []
recent age (e ∷ es) = let rest = recent age es in if is_old age e then rest else e ∷ rest

flush_sql-more_rows :
    (i : ℕ) (es : List Entry) → flush_sql (suc i) (map some es) ≡ more_rows (length es)
unfolding flush_sql more_rows
flush_sql-more_rows i [] = refl
flush_sql-more_rows i (e ∷ es) =
    let behind : ltb 0 (suc i) ≡ true = ground arith in
    rw (behind, flush_sql-more_rows (suc i) es) refl

flush_sql-statement :
    (e : Entry) (es : List Entry)
    → sql_insert ++ flush_sql 0 (map some (e ∷ es)) ≡ insert_statement (length es)
unfolding flush_sql insert_statement
flush_sql-statement e es = rw (flush_sql-more_rows 0 es) refl

flush_values-rows :
    (age : ℤ) (es : List Entry) → flush_values age (map some es) ≡ rows (recent age es)
unfolding flush_values rows recent
flush_values-rows age [] = refl
flush_values-rows age (e ∷ es) = ground (arith, flush_values-rows age es)

length-rows : (es : List Entry) → length (rows es) ≡ 4 * length es
unfolding rows row
length-rows [] = omega arith
length-rows (e ∷ es) = omega (arith, length-rows es)

count-more_rows : (n : ℕ) → count b'?' (more_rows n) ≡ 4 * n
unfolding count more_rows
count-more_rows zero = refl
count-more_rows (suc n) = omega (arith, count-more_rows n)

count-statement : (n : ℕ) → count b'?' (insert_statement n) ≡ 4 * suc n
unfolding count insert_statement
count-statement n = omega (arith, count-more_rows n)

-- What the documentation of database/sql and of SQLite says: a statement with another number of
-- arguments than placeholders is an error, and an insertion adds its rows behind the others.
pub record Documented {S E : Type 0} (engine : Engine S E) (stored : S → List Entry) : Type 0 where
  pub counted :
      (text : Bytes) (values : List Value) (st : S)
      → count b'?' text ≢ length values
      → (e : E) × (engine.exec_answer text values st ≡ some e)
  pub inserted :
      (e : Entry) (es : List Entry) (st : S)
      → stored (engine.commit (insert_statement (length es)) (rows (e ∷ es)) st)
        ≡ stored st ++ e ∷ es

none_or_some : (n : ℕ) → (n ≡ 0) ⊎ (0 < n)
none_or_some n = ground arith

-- What `flush` leaves of a database's ends.
pub record Covers (c : Chunk) (d d' : StorageDb) : Type 0 where
  pub ends : (ltb_ℤ d'.epoch_end c.epoch_end ≡ false) × (ltb_ℤ d'.epoch_end d.epoch_end ≡ false)
  pub starts :
      (ltb_ℤ c.epoch_start d'.new_epoch_start ≡ false)
      × (ltb_ℤ d.new_epoch_start d'.new_epoch_start ≡ false)
  pub same : (d'.epoch_start ≡ d.epoch_start) × (d'.status ≡ d.status)

extend-Covers : (c : Chunk) (d : StorageDb) → Covers c d (extend c d)
unfolding extend
extend-Covers c d = record {
  ends = (ground arith, ground arith);
  starts = (ground arith, ground arith);
  same = (refl, refl);
}

module _ {S E : Type 0} (engine : Engine S E) where
  -- `flush` on a chunk whose slots are all written.
  flush-filled :
      (c : Chunk) (d : StorageDb) (st : S) (e : Entry) (es : List Entry)
      → list c ≡ map some (e ∷ es)
      → flush engine c d st
        ≡ flush_rows engine
            (insert_statement (length es))
            (rows (recent (max_chunk_age d) (e ∷ es)))
            c
            d
            st
  unfolding flush
  flush-filled c d st e es h =
      ap
        (λ l.
          flush_rows engine (sql_insert ++ flush_sql 0 l) (flush_values (max_chunk_age d) l) c d st)
        h
      ∙ ap (λ t. flush_rows engine t (flush_values (max_chunk_age d) (map some (e ∷ es))) c d st)
          (flush_sql-statement e es)
      ∙ ap (λ vs. flush_rows engine (insert_statement (length es)) vs c d st)
          (flush_values-rows (max_chunk_age d) (e ∷ es))

  flush_rows-transact :
      (text : Bytes) (values : List Value) (c : Chunk) (d : StorageDb) (st : S)
      → 0 < length values
      → d.connected ≡ true
      → flush_rows engine text values c d st ≡ elim (transact engine text values st) [
        | some x ↦ (fails x, st, d)
        | none ↦ (saved, engine.commit text values st, extend c d)
      ]
  unfolding flush_rows is_empty
  flush_rows-transact text [] c d st p k = absurd (omega (arith, p))
  flush_rows-transact text (v ∷ values) c d st p k =
      ap
        (λ b. if not b then (panics, st, d) else elim (transact engine text (v ∷ values) st) [
          | some x ↦ (fails x, st, d)
          | none ↦ (saved, engine.commit text (v ∷ values) st, extend c d)
        ])
        k

  flush_rows-none :
      (text : Bytes) (values : List Value) (c : Chunk) (d : StorageDb) (st : S)
      → length values ≡ 0
      → flush_rows engine text values c d st ≡ (saved, st, d)
  unfolding flush_rows is_empty
  flush_rows-none text [] c d st p = refl
  flush_rows-none text (v ∷ values) c d st p = absurd (omega (arith, p))

  -- A count of arguments that is wrong makes the transaction fail.
  transact-counted :
      (stored : S → List Entry)
      → Documented engine stored
      → (text : Bytes) (values : List Value) (st : S) → count b'?' text ≢ length values
      → (x : E) × (transact engine text values st ≡ some x)
  unfolding transact
  transact-counted stored doc text values st h =
      elim (engine.begin_answer st)
        as (λ b.
          (x : E) × (elim b [
            | some x ↦ some x
            | none ↦ elim (engine.prepare_answer text st) [
              | some x ↦ some x
              | none ↦ engine.exec_answer text values st
            ]
          ]
            ≡ some x)) [
              | some x ↦ (x, refl)
              | none ↦
                  elim (engine.prepare_answer text st)
                    as (λ b.
                      (x : E) × (elim b [
                        | some x ↦ some x
                        | none ↦ engine.exec_answer text values st
                      ]
                        ≡ some x)) [ some x ↦ (x, refl) | none ↦ doc.counted text values st h ]
            ]

  -- If some entries of a chunk are too old and others are not, `flush` fails, and changes nothing:
  -- the statement has a row of placeholders for each entry, and there are arguments only for those
  -- that are not too old. If all are too old it answers that they are saved, and stores none.
  pub flush-refuses :
      (stored : S → List Entry)
      → Documented engine stored
      → (c : Chunk) (d : StorageDb) (st : S) (e : Entry) (es : List Entry)
      → list c ≡ map some (e ∷ es)
      → d.connected ≡ true
      → length (recent (max_chunk_age d) (e ∷ es)) < length (e ∷ es)
      → ((0 < length (recent (max_chunk_age d) (e ∷ es)))
          × ((x : E) × (flush engine c d st ≡ (fails x, st, d))))
        ⊎ ((length (recent (max_chunk_age d) (e ∷ es)) ≡ 0)
            × (flush engine c d st ≡ (saved, st, d)))
  flush-refuses stored doc c d st e es h k old =
      let text = insert_statement (length es) in
      let wanted = recent (max_chunk_age d) (e ∷ es) in
      elim (none_or_some (length wanted)) [
        | inl nothing ↦ inr (
          nothing,
          flush-filled c d st e es h
              ∙ flush_rows-none text (rows wanted) c d st
                  (omega (arith, nothing, length-rows wanted)),
        )
        | inr something ↦
            let (x, refused) =
              transact-counted stored doc text (rows wanted) st
                (λ q. omega (arith, q, old, count-statement (length es), length-rows wanted)) in
            inl (
              something,
              (
                x,
                flush-filled c d st e es h
                    ∙ flush_rows-transact text (rows wanted) c d st
                        (omega (arith, something, length-rows wanted)) k
                    ∙ ap
                        (λ o. elim o [
                          | some y ↦ (fails y, st, d)
                          | none ↦ (saved, engine.commit text (rows wanted) st, extend c d)
                        ])
                        refused,
              ),
            )
      ]

  recent-All : (age : ℤ) (es : List Entry) → All (λ e. is_old age e ≡ false) es → recent age es ≡ es
  unfolding recent
  recent-All age [] h = refl
  recent-All age (e ∷ es) h = ground (arith, h.0, recent-All age es h.1)

  -- If no entry of the chunk is too old and SQLite reports no error, `flush` answers that the
  -- chunk is saved, and the file holds its entries behind what it held. The database then ends no
  -- earlier than the chunk and than before, and the start that its file is named for when it is
  -- closed is no later than the chunk's and than before.
  pub flush-saves :
      (stored : S → List Entry)
      → Documented engine stored
      → (c : Chunk) (d : StorageDb) (st : S) (e : Entry) (es : List Entry)
      → list c ≡ map some (e ∷ es)
      → d.connected ≡ true
      → All (λ x. is_old (max_chunk_age d) x ≡ false) (e ∷ es)
      → transact engine (insert_statement (length es)) (rows (e ∷ es)) st ≡ none
      → (st' : S) × (d' : StorageDb) × (flush engine c d st ≡ (saved, st', d'))
        × (stored st' ≡ stored st ++ e ∷ es)
        × Covers c d d'
  flush-saves stored doc c d st e es h k fresh good =
      let text = insert_statement (length es) in
      let all = recent-All (max_chunk_age d) (e ∷ es) fresh in
      (
        engine.commit text (rows (e ∷ es)) st,
        extend c d,
        flush-filled c d st e es h
            ∙ ap (λ l. flush_rows engine text (rows l) c d st) all
            ∙ flush_rows-transact text (rows (e ∷ es)) c d st (omega (arith, length-rows (e ∷ es)))
                k
            ∙ ap
                (λ o. elim o [
                  | some x ↦ (fails x, st, d)
                  | none ↦ (saved, engine.commit text (rows (e ∷ es)) st, extend c d)
                ])
                good,
        doc.inserted e es st,
        extend-Covers c d,
      )
