-- ===== src/Sqlite/Scheduler/Keeping.antt =====
-- What a round of sqlite/storage_scheduler.go keeps of the databases.
use sqlog.Base.{
  ℕ, suc, ◌-◌, ◌<◌, ◌≡◌, refl, ap, ◌∙◌, Bool, true, false, not, ◌&&◌, List, [], ◌∷◌, ltb, ◌==◌,
  Bytes, length, get_elem?, All, arith, if_both, Option_both,
}
use sqlog.Base.Int.{ℤ, pos, pos_part, ltb_ℤ, ◌-ℤ◌}
use sqlog.Sqlite.Db.{StorageDb, Dial}
use sqlog.Sqlite.Db.Lifecycle.{connect-IsWf, close_safe-IsWf}
use sqlog.Sqlite.Db.Lifecycle.Tasks.{execute-IsWf}
use sqlog.Sqlite.Databases.{less}
use sqlog.Sqlite.Storage.{Storage}
use sqlog.Sqlite.Storage.Config.{StorageConfig}
use sqlog.Sqlite.Storage.Keeping.{Keeps, IsSound, found_by, found_both, set_at-Keeps, kept-IsSound}
use sqlog.Sqlite.Scheduler.{
  Scheduler, Gathered, gather, run_tasks, close_round, sort_again, max_for_db, execute_dbs, Closing,
  closed_by, close_found, close_one, close_each, is_idle, is_over, insert_by, sort_by, fewer_tasks,
  connect_at, open_first, open_allowed, open_dbs, scheduled_tasks,
}

module _ (before : StorageDb → StorageDb → Bool) (heap : List StorageDb) where
  insert_by-All :
      (P : ℕ → Type 0) (i : ℕ) (is : List ℕ)
      → P i
      → All P is
      → All P (insert_by before heap i is) × (length (insert_by before heap i is) ≡ suc (length is))
  unfolding insert_by
  insert_by-All P i [] p h = ((p, tt), refl)
  insert_by-All P i (j ∷ js) p h =
      let Q = λ (l : List ℕ). All P l × (length l ≡ suc (suc (length js))) in
      let (rest, count) = insert_by-All P i js p h.1 in
      let front : Q (i ∷ j ∷ js) = ((p, h), refl) in
      Option_both Q (get_elem? heap i) front (λ d.
        Option_both Q (get_elem? heap j) front
          (λ e. if_both Q (before e d) ((h.0, rest), ap suc count) front))

  pub sort_by-All :
      (P : ℕ → Type 0) (is : List ℕ)
      → All P is
      → All P (sort_by before heap is) × (length (sort_by before heap is) ≡ length is)
  unfolding sort_by
  sort_by-All P [] h = (tt, refl)
  sort_by-All P (i ∷ is) h =
      let (rest, count) = sort_by-All P is h.1 in
      let (all, more) = insert_by-All P i (sort_by before heap is) h.0 rest in
      (all, more ∙ ap suc count)

execute_dbs-Keeps :
    (total qt : ℕ) (is : List ℕ) (heap : List StorageDb) (n : ℕ)
    → Keeps n heap
    → Keeps n (execute_dbs total qt is heap).1
unfolding execute_dbs
execute_dbs-Keeps total qt [] heap n k = k
execute_dbs-Keeps total qt (i ∷ is) heap n k =
    let P = λ (r : List ℕ × List StorageDb). Keeps n r.1 in
    found_both P heap i k.0 (execute_dbs-Keeps total qt is heap n k) (λ d w.
      if_both P (d.task_count == 0) (execute_dbs-Keeps total qt is heap n k) (
        execute_dbs-Keeps total qt is _ n (
          set_at-Keeps n i _ heap
            (execute-IsWf (max_for_db d.task_count total qt - 1) d.task_map d refl w) k)))

module _ (path_join : Bytes → Bytes → Bytes) (now : ℤ) (wanted : StorageDb → Closing → Bool) where
  close_one-Keeps :
      (i : ℕ) (c : Closing) (n : ℕ)
      → Keeps n c.heap
      → Keeps n (close_one path_join now wanted i c).heap
  unfolding close_one close_found closed_by
  close_one-Keeps i c n k =
      let P = λ (r : Closing). Keeps n r.heap in
      found_by P (close_found path_join now wanted i c) c.heap i k.0 k (λ d w.
        if_both P (wanted d c && not d.live)
          (set_at-Keeps n i _ c.heap (close_safe-IsWf path_join now d w) k) k)

  close_each-Keeps :
      (is : List ℕ) (c : Closing) (n : ℕ)
      → Keeps n c.heap
      → Keeps n (close_each path_join now wanted is c).heap
  unfolding close_each
  close_each-Keeps [] c n k = k
  close_each-Keeps (i ∷ is) c n k = close_each-Keeps is _ n (close_one-Keeps i c n k)

module _ {E : Type 0} (config : StorageConfig) (answers : ℕ → Dial E) (now : ℤ) where
  connect_at-Keeps :
      (i : ℕ) (heap : List StorageDb) (n : ℕ)
      → Keeps n heap
      → Keeps n (connect_at config answers now i heap).1
  unfolding connect_at
  connect_at-Keeps i heap n k =
      found_both (λ (r : Bool × List StorageDb). Keeps n r.1) heap i k.0 k
        (λ d w. set_at-Keeps n i _ heap (connect-IsWf config.sqlite_options (answers i) now d w) k)

  open_first-Keeps :
      (is : List ℕ) (heap : List StorageDb) (n : ℕ)
      → Keeps n heap
      → Keeps n (open_first config answers now is heap)
  unfolding open_first
  open_first-Keeps [] heap n k = k
  open_first-Keeps (i ∷ is) heap n k =
      let next = connect_at-Keeps i heap n k in
      if_both (Keeps n) (connect_at config answers now i heap).0 next (open_first-Keeps is _ n next)

  open_allowed-Keeps :
      (is : List ℕ) (total : ℤ) (heap : List StorageDb) (n : ℕ)
      → Keeps n heap
      → Keeps n (open_allowed config answers now is total heap).1
  unfolding open_allowed
  open_allowed-Keeps [] total heap n k = k
  open_allowed-Keeps (i ∷ is) total heap n k =
      if_both (λ (r : ℤ × List StorageDb). Keeps n r.1) (ltb_ℤ config.max_opened_db total) k
        (open_allowed-Keeps is _ _ n (connect_at-Keeps i heap n k))

  open_dbs-Keeps :
      (is : List ℕ) (total : ℤ) (heap : List StorageDb) (n : ℕ)
      → Keeps n heap
      → Keeps n (open_dbs config answers now is total heap)
  unfolding open_dbs
  open_dbs-Keeps is total heap n k =
      let sorted = sort_by fewer_tasks heap is in
      if_both (Keeps n) (ltb_ℤ config.max_opened_db total) (open_first-Keeps sorted heap n k)
        (open_allowed-Keeps sorted total heap n k)

run_tasks-Keeps :
    {E : Type 0} (config : StorageConfig) (s : Scheduler E) (g : Gathered) (n : ℕ)
    → Keeps n s.storage.heap
    → Keeps n (run_tasks config s g).1
unfolding run_tasks
run_tasks-Keeps config s g n k =
    let qt = config.max_running_tasks -ℤ pos s.num_active in
    if_both (λ (r : List ℕ × List StorageDb). Keeps n r.1) (ltb 0 g.total_tasks && ltb_ℤ (pos 0) qt)
      (execute_dbs-Keeps g.total_tasks (pos_part qt) g.open_with_tasks s.storage.heap n k) k

close_round-Keeps :
    (path_join : Bytes → Bytes → Bytes) (config : StorageConfig) (now : ℤ) (dbs : List ℕ)
    (g : Gathered) (heap : List StorageDb) (n : ℕ)
    → Keeps n heap
    → Keeps n (close_round path_join config now dbs g heap).heap
unfolding close_round
close_round-Keeps path_join config now dbs g heap n k =
    let start : Closing = record {
      total_open = pos g.total_open;
      closed_any = false;
      ops = [];
      heap = heap;
    } in
    let over = is_over path_join now config in
    let idle = close_each path_join now (is_idle path_join now config) dbs start in
    let free = close_each path_join now over g.open_without_task idle in
    close_each-Keeps path_join now over (sort_by fewer_tasks free.heap g.open_with_tasks) free n (
      close_each-Keeps path_join now over g.open_without_task idle n
        (close_each-Keeps path_join now (is_idle path_join now config) dbs start n k))

sort_again-IsSound :
    (closed_any : Bool) (heap : List StorageDb) (s : Storage)
    → IsSound (record s { heap = heap })
    → IsSound (sort_again closed_any heap s)
unfolding sort_again
sort_again-IsSound true heap s h = record {
  formed = h.formed;
  there = (sort_by-All less heap (λ i. i < length heap) s.dbs h.there).0;
  live_there = (sort_by-All less heap (λ i. i < length heap) s.live_dbs h.live_there).0;
  some_live = omega (
    arith,
    h.some_live,
    (sort_by-All less heap (λ i. i < length heap) s.live_dbs h.live_there).1,
  );
}
sort_again-IsSound false heap s h = h

pub scheduled_tasks-IsSound :
    {E : Type 0} (path_join : Bytes → Bytes → Bytes) (config : StorageConfig) (answers : ℕ → Dial E)
    (now : ℤ) (s : Scheduler E)
    → IsSound s.storage
    → IsSound (scheduled_tasks path_join config answers now s).2.storage
unfolding scheduled_tasks
scheduled_tasks-IsSound path_join config answers now s h =
    let n = length s.storage.heap in
    let g = gather s.storage.heap s.storage.dbs in
    let run = run_tasks config s g in
    let closing = close_round path_join config now s.storage.dbs g run.1 in
    let closed =
      close_round-Keeps path_join config now s.storage.dbs g run.1 n
        (run_tasks-Keeps config s g n (h.formed, refl)) in
    sort_again-IsSound closing.closed_any _ s.storage (
      kept-IsSound s.storage _ h (
        open_dbs-Keeps config answers now g.closed_with_tasks closing.total_open closing.heap n
          closed))
