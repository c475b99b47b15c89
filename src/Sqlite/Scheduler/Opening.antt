-- ===== src/Sqlite/Scheduler/Opening.antt =====
-- How many databases a round of sqlite/storage_scheduler.go opens.
use sqlog.Base.{
  ℕ, zero, suc, ◌+◌, ◌≤◌, ◌≡◌, ap, Bool, true, false, Option, none, some, List, [], ◌∷◌,
  if◌then◌else◌, Bytes, get_elem?, arith, if_both, if_cases, Option_both, ◌⊎◌, inl, inr,
}
use sqlog.Base.Int.{ℤ, pos, negsuc, pos_part, neg_part, ltb_ℤ, ◌≤ℤ◌, ◌+ℤ◌}
use sqlog.Sqlite.Db.{StorageDb, Dial, dial, conn_string, connect, is_open, is_db_open, is_db_closed}
use sqlog.Sqlite.Storage.{set_at}
use sqlog.Sqlite.Storage.Config.{StorageConfig}
use sqlog.Sqlite.Scheduler.{connect_at, open_first, open_allowed, open_dbs, sort_by, fewer_tasks}

-- 1 for an open database.
unfoldable bit : Bool → ℕ
bit true = 1
bit false = 0

-- How many databases are open.
unfoldable pub num_open : List StorageDb → ℕ
unfolding is_open bit
num_open [] = 0
num_open (d ∷ ds) = bit (is_open d) + num_open ds

num_open-set_at :
    (i : ℕ) (d : StorageDb) (heap : List StorageDb)
    → num_open (set_at i d heap) ≤ num_open heap + bit (is_open d)
unfolding num_open set_at
num_open-set_at i d [] = omega arith
num_open-set_at zero d (e ∷ heap) = omega arith
num_open-set_at (suc i) d (e ∷ heap) = omega (arith, num_open-set_at i d heap)

abbrev succeeds : {E : Type 0} → Option E → Bool
succeeds failure = elim failure [ none ↦ true | some e ↦ false ]

connect-num_open :
    {E : Type 0} (options : List (Bytes × Bytes)) (a : Dial E) (now : ℤ) (d : StorageDb)
    → let (failure, d') = connect options a now d in bit (is_open d') ≤ bit (succeeds failure)
unfolding connect is_open is_db_open bit
connect-num_open {E = E} options a now d =
    let P = λ (r : Option E × StorageDb). bit (is_open r.1) ≤ bit (succeeds r.0) in
    if_both P (is_db_closed d.status)
      (Option_both P (dial a (conn_string d.file_path options)) (omega arith) (λ e. omega arith))
      (at_most_one (is_open d))
  where
    at_most_one : (b : Bool) → bit b ≤ 1
    at_most_one true = omega arith
    at_most_one false = omega arith

module _ {E : Type 0} (config : StorageConfig) (answers : ℕ → Dial E) (now : ℤ) where
  connect_at-num_open :
      (i : ℕ) (heap : List StorageDb)
      → let (opened, heap') = connect_at config answers now i heap in
        num_open heap' ≤ num_open heap + bit opened
  unfolding connect_at
  connect_at-num_open i heap =
      Option_both (λ (r : Bool × List StorageDb). num_open r.1 ≤ num_open heap + bit r.0)
        (get_elem? heap i) (omega arith)
        (λ d. omega (
          arith,
          connect-num_open config.sqlite_options (answers i) now d,
          num_open-set_at i (connect config.sqlite_options (answers i) now d).1 heap,
        ))

  open_first-num_open :
      (is : List ℕ) (heap : List StorageDb)
      → num_open (open_first config answers now is heap) ≤ num_open heap + 1
  unfolding open_first bit
  open_first-num_open [] heap = omega arith
  open_first-num_open (i ∷ is) heap =
      let (opened, heap') = connect_at config answers now i heap in
      let step = connect_at-num_open i heap in
      if_cases (λ (l : List StorageDb). num_open l ≤ num_open heap + 1) opened
        (λ e. omega (arith, step, ap bit e))
        (λ e. omega (arith, step, ap bit e, open_first-num_open is heap'))

one_more : (t : ℤ) → pos_part (t +ℤ pos 1) + neg_part t ≡ pos_part t + neg_part (t +ℤ pos 1) + 1
unfolding ◌+ℤ◌
one_more (pos m) = ground arith
one_more (negsuc m) = ground arith

not_below : (t m : ℤ) → ltb_ℤ m t ≡ false → t ≤ℤ m
not_below t m h = ground (arith, h)

-- The count behind a connection.
counted :
    (opened : Bool) (t : ℤ)
    → let t' = if opened then t +ℤ pos 1 else t in
      pos_part t' + neg_part t ≡ pos_part t + neg_part t' + bit opened
unfolding bit
counted true t = one_more t
counted false t = omega arith

counted_below :
    (opened : Bool) (t m : ℤ) → ltb_ℤ m t ≡ false → (if opened then t +ℤ pos 1 else t) ≤ℤ m +ℤ pos 1
unfolding bit
counted_below true t m h = omega (arith, one_more t, one_more m, not_below t m h)
counted_below false t m h = omega (arith, one_more m, not_below t m h)

-- What a count of open databases becomes, and how many they are then.
abbrev Counts : ℤ → ℕ → ℤ → ℕ → Type 0
Counts total n total' n' =
    n' + pos_part total + neg_part total' ≤ n + pos_part total' + neg_part total

module _ {E : Type 0} (config : StorageConfig) (answers : ℕ → Dial E) (now : ℤ) where
  open_allowed-num_open :
      (is : List ℕ) (total : ℤ) (heap : List StorageDb)
      → total ≤ℤ config.max_opened_db +ℤ pos 1
      → let (total', heap') = open_allowed config answers now is total heap in
        (total' ≤ℤ config.max_opened_db +ℤ pos 1)
        × Counts total (num_open heap) total' (num_open heap')
  unfolding open_allowed
  open_allowed-num_open [] total heap h = (h, omega arith)
  open_allowed-num_open (i ∷ is) total heap h =
      let P = λ (r : ℤ × List StorageDb).
        (r.0 ≤ℤ config.max_opened_db +ℤ pos 1) × Counts total (num_open heap) r.0 (num_open r.1) in
      let (opened, heap') = connect_at config answers now i heap in
      let step = connect_at-num_open config answers now i heap in
      if_cases P (ltb_ℤ config.max_opened_db total) (λ _. (h, omega arith))
        (λ e.
          let (bound, counts) =
            open_allowed-num_open is (if opened then total +ℤ pos 1 else total) heap'
              (counted_below opened total config.max_opened_db e) in
          (bound, omega (arith, counts, step, counted opened total)))

  -- If the count of open databases is right, the part of a round that opens databases leaves at most
  -- one more of them open than before, or at most one more than the limit.
  pub open_dbs-num_open :
      (is : List ℕ) (heap : List StorageDb)
      → let heap' = open_dbs config answers now is (pos (num_open heap)) heap in
        (num_open heap' ≤ num_open heap + 1)
        ⊎ (pos (num_open heap') ≤ℤ config.max_opened_db +ℤ pos 1)
  unfolding open_dbs
  open_dbs-num_open is heap =
      let sorted = sort_by fewer_tasks heap is in
      let total = pos (num_open heap) in
      if_cases
        (λ (l : List StorageDb).
          (num_open l ≤ num_open heap + 1) ⊎ (pos (num_open l) ≤ℤ config.max_opened_db +ℤ pos 1))
        (ltb_ℤ config.max_opened_db total)
        (λ _. inl (open_first-num_open config answers now sorted heap))
        (λ e.
          let (bound, counts) =
            open_allowed-num_open sorted total heap
              (counted_below false total config.max_opened_db e) in
          inr (omega (arith, bound, counts)))
