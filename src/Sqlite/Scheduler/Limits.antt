-- ===== src/Sqlite/Scheduler/Limits.antt =====
-- The limits of a round of sqlite/storage_scheduler.go.
use mathlib.Core.Path.{subst}
use native.Mathlib.Nat.{div_self, div-eq_of_lt}
use sqlog.Base.{
  ℕ, zero, suc, ◌*◌, ◌/◌, ◌<◌, ◌≤◌, max, ◌≡◌, refl, sym, ap, ◌∙◌, Bool, true, false, not, ◌&&◌,
  some, List, [], ◌∷◌, append-nil, Bytes, length, get_elem?, All, arith, ◌⊎◌, inl, inr, if_cases,
}
use sqlog.Base.Int.{ℤ, pos, negsuc, ltb_ℤ, ◌-ℤ◌}
use sqlog.Sqlite.Db.{
  StorageDb, FileOp, db_closed, is_db_open, is_db_closed, close, close_safe, last_query_sec,
}
use sqlog.Sqlite.Storage.{set_at}
use sqlog.Sqlite.Storage.Config.{StorageConfig}
use sqlog.Sqlite.Scheduler.{
  max_for_db, Closing, closed_by, close_found, close_one, close_each, is_idle,
}

set_at-get :
    (i : ℕ) (d : StorageDb) (heap : List StorageDb)
    → get_elem? heap i ≡ some d
    → set_at i d heap ≡ heap
unfolding set_at
set_at-get i d [] h = refl
set_at-get zero d (e ∷ heap) h = ground (arith, h)
set_at-get (suc i) d (e ∷ heap) h = ap (λ l. e ∷ l) (set_at-get i d heap h)

-- A database that is closed, not live, and idle for as long as the configuration says.
pub record IsAsleep (config : StorageConfig) (now : ℤ) (d : StorageDb) : Type 0 where
  pub closed : d.status ≡ db_closed
  pub apart : d.live ≡ false
  pub idle : ltb_ℤ config.close_idle_sec (last_query_sec now d) ≡ true
  pub safe : ltb_ℤ (last_query_sec now d) (pos 2) ≡ false

minus_none : (z : ℤ) → z ≡ z -ℤ pos 0
unfolding ◌-ℤ◌
minus_none (pos m) = ground arith
minus_none (negsuc m) = ground arith

same_heap :
    (i : ℕ) (d : StorageDb) (c : Closing)
    → get_elem? c.heap i ≡ some d
    → closed_by i c (true, [], d)
      ≡ record c { total_open = c.total_open -ℤ pos 1; closed_any = true }
unfolding closed_by
same_heap i d c found = rw (append-nil c.ops, set_at-get i d c.heap found) refl

minus_one : (z : ℤ) (n : ℕ) → (z -ℤ pos 1) -ℤ pos n ≡ z -ℤ pos (suc n)
unfolding ◌-ℤ◌
minus_one (pos m) n = ground arith
minus_one (negsuc m) n = ground arith

module _ (path_join : Bytes → Bytes → Bytes) (config : StorageConfig) (now : ℤ) where
  close-db_closed : (d : StorageDb) → d.status ≡ db_closed → close path_join d ≡ (true, [], d)
  unfolding close is_db_open is_db_closed
  close-db_closed d h =
      if_cases (λ (r : Bool × List FileOp × StorageDb). r ≡ (true, [], d)) (is_db_open d.status)
        (λ o. absurd (ground (arith, o, ap is_db_open h)))
        (λ _. ap (λ b. (b, [], d)) (ap is_db_closed h))

  close_safe-IsAsleep :
      (d : StorageDb) → IsAsleep config now d → close_safe path_join now d ≡ (true, [], d)
  unfolding close_safe
  close_safe-IsAsleep d a =
      if_cases (λ (r : Bool × List FileOp × StorageDb). r ≡ (true, [], d))
        (ltb_ℤ (last_query_sec now d) (pos 2)) (λ o. absurd (ground (arith, o, a.safe)))
        (λ _. close-db_closed d a.closed)

  close_one-IsAsleep :
      (i : ℕ) (d : StorageDb) (c : Closing)
      → get_elem? c.heap i ≡ some d
      → IsAsleep config now d
      → close_one path_join now (is_idle path_join now config) i c
        ≡ record c { total_open = c.total_open -ℤ pos 1; closed_any = true }
  unfolding close_one close_found closed_by is_idle
  close_one-IsAsleep i d c found a =
      ap (close_found path_join now (is_idle path_join now config) i c) found
      ∙ if_cases
          (λ (r : Closing). r ≡ record c { total_open = c.total_open -ℤ pos 1; closed_any = true })
          (ltb_ℤ config.close_idle_sec (last_query_sec now d) && not d.live)
          (λ _. ap (closed_by i c) (close_safe-IsAsleep d a) ∙ same_heap i d c found)
          (λ o. absurd (ground (arith, o, a.idle, a.apart)))

  -- The loop that closes idle databases counts those that are closed already: for each that is not
  -- live and idle, the number of open databases that the limits are compared with goes down by
  -- one, although nothing is closed, and below 0 if there are more of them.
  pub close_each-IsAsleep :
      (is : List ℕ) (c : Closing)
      → All (λ i. (d : StorageDb) × (get_elem? c.heap i ≡ some d) × IsAsleep config now d) is
      → let c' = close_each path_join now (is_idle path_join now config) is c in
        (c'.total_open ≡ c.total_open -ℤ pos (length is)) × (c'.heap ≡ c.heap) × (c'.ops ≡ c.ops)
  unfolding close_each
  close_each-IsAsleep [] c h = (minus_none c.total_open, refl, refl)
  close_each-IsAsleep (i ∷ is) c ((d, found, a), h) =
      let next = record c { total_open = c.total_open -ℤ pos 1; closed_any = true } in
      let (total, heap, ops) = close_each-IsAsleep is next h in
      subst
        (λ (n : Closing).
          let c' = close_each path_join now (is_idle path_join now config) is n in
          (c'.total_open ≡ c.total_open -ℤ pos (length (i ∷ is)))
          × (c'.heap ≡ c.heap)
          × (c'.ops ≡ c.ops))
        (sym (close_one-IsAsleep i d c found a))
        (total ∙ minus_one c.total_open (length is), heap, ops)

lt_or_equal : (n m : ℕ) → n ≤ m → (n < m) ⊎ (n ≡ m)
lt_or_equal n m h = ground (arith, h)

-- The share of a database in the tasks that may run is 1, however many tasks it has and may run,
-- unless it has all the tasks that there are: then it is as many as may run.
pub max_for_db-share :
    (num_tasks total_tasks qt_max_tasks : ℕ)
    → 0 < total_tasks
    → num_tasks ≤ total_tasks
    → ((num_tasks < total_tasks) × (max_for_db num_tasks total_tasks qt_max_tasks ≡ 1))
      ⊎ ((num_tasks ≡ total_tasks)
          × (max_for_db num_tasks total_tasks qt_max_tasks ≡ max 1 qt_max_tasks))
unfolding max_for_db
max_for_db-share n m q h k = elim (lt_or_equal n m k) [
  | inl less ↦
      let none_each : n / m ≡ 0 = div-eq_of_lt less in
      inl (less, ap (λ x. max 1 (x * q)) none_each ∙ omega arith)
  | inr all ↦
      let one_each : n / m ≡ 1 = ap (λ x. x / m) all ∙ div_self h in
      inr (all, ap (λ x. max 1 (x * q)) one_each ∙ omega arith)
]
