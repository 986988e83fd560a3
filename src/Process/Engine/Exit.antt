-- ===== src/Process/Engine/Exit.antt =====
-- `process_exit_current`: nothing of the kernel refers to the process any more.
use shahi_n_kernel.Prelude.{
  ℕ, ◌-◌, ◌≤◌, ◌<◌, ◌≡◌, refl, sym, ap, ◌∙◌, ◌≢◌, ◌⊎◌, inl, inr, false, List, arith, ◌==◌,
  if◌then◌else◌, [], ◌∷◌, length,
}
use shahi_n_kernel.Prelude.Count.{count}
use shahi_n_kernel.Process.{Process, Kernel, max_processes}
use shahi_n_kernel.Process.Table.{
  kernel_process_register, kernel_process_get, kernel_process_switch,
}
use shahi_n_kernel.Process.Table.Laws.{Tabled, get-register}
use shahi_n_kernel.Sched.{
  schedule, scheduler_next, scheduler_remove, scheduler_remove_from_sleep, scheduler_current,
}
use shahi_n_kernel.Sched.Choice.{count-remove_entry, scheduler_next-least}
use shahi_n_kernel.Process.Engine.{MemoryApi, World, process_exit_current}

-- `schedule` with no current process: the lists and the table stay, and the choice becomes current.
schedule_from_none :
    (k : Kernel)
    → k.current_process ≡ 0
    → ((schedule k).0.ready_list ≡ k.ready_list)
      × ((schedule k).0.sleep_list ≡ k.sleep_list)
      × ((schedule k).0.process_table ≡ k.process_table)
      × ((schedule k).0.current_process ≡ scheduler_next k)
unfolding schedule
schedule_from_none k e = (ground arith, ground arith, ground arith, ground arith)

List-cases : (xs : List ℕ) → (xs ≡ []) ⊎ (xs ≢ [])
List-cases [] = inl refl
List-cases (x ∷ xs) = inr (λ e. ground arith)

get-ap :
    (pid : ℕ) (k k' : Kernel)
    → k.process_table ≡ k'.process_table
    → kernel_process_get pid k ≡ kernel_process_get pid k'
unfolding kernel_process_get
get-ap pid k k' e = rw e

-- The current process has a pid of the table's range, is not the idle process, and stands at most
-- once on each list.
pub record CanExit (k : Kernel) : Type 0 where
  pub tabled : Tabled k
  pub pid :
      (0 < (k.procs k.current_process).pid) × ((k.procs k.current_process).pid < max_processes)
  pub runs : (k.current_process ≢ 0) × (k.current_process ≢ k.idle_p)
  pub ready_once : count k.current_process k.ready_list ≤ 1
  pub sleep_once : count k.current_process k.sleep_list ≤ 1

-- After the exit of the process `p` it is on no list, its pid is free, the current process is
-- another, and every other process is on the lists as often as before.
pub record Exited (k k' : Kernel) (p : ℕ) : Type 0 where
  pub not_ready : count p k'.ready_list ≡ 0
  pub not_asleep : count p k'.sleep_list ≡ 0
  pub pid_free : kernel_process_get (k.procs p).pid k' ≡ 0
  pub left : k'.current_process ≢ p
  pub others_ready : (q : ℕ) → q ≢ p → count q k'.ready_list ≡ count q k.ready_list
  pub others_asleep : (q : ℕ) → q ≢ p → count q k'.sleep_list ≡ count q k.sleep_list

module _ (k : Kernel) (c : CanExit k) where
  abbrev unlisted : Kernel
  unlisted =
      kernel_process_switch 0
        (scheduler_remove_from_sleep k.current_process (scheduler_remove k.current_process k))

  count-unlisted :
      (q : ℕ)
      → (count q unlisted.ready_list
          ≡ (if q == k.current_process then count q k.ready_list - 1 else count q k.ready_list))
        × (count q unlisted.sleep_list
            ≡ (if q == k.current_process then count q k.sleep_list - 1 else count q k.sleep_list))
  unfolding kernel_process_switch scheduler_remove_from_sleep scheduler_remove
  count-unlisted q = (
    count-remove_entry k.current_process k.ready_list q,
    count-remove_entry k.current_process k.sleep_list q,
  )

  -- the kernel that `schedule` is called on, whatever the process objects are by then
  abbrev gone : (ℕ → Process) → Kernel
  gone procs =
      kernel_process_register (k.procs k.current_process).pid 0 (record unlisted { procs = procs })

  lists-gone :
      (procs : ℕ → Process)
      → ((gone procs).ready_list ≡ unlisted.ready_list)
        × ((gone procs).sleep_list ≡ unlisted.sleep_list)
        × ((gone procs).current_process ≡ 0)
        × ((gone procs).idle_p ≡ k.idle_p)
        × (unlisted.process_table ≡ k.process_table)
  unfolding kernel_process_register kernel_process_switch scheduler_remove_from_sleep
      scheduler_remove
  lists-gone procs = (ground arith, ground arith, ground arith, ground arith, refl)

  next-gone : (procs : ℕ → Process) → scheduler_next (gone procs) ≢ k.current_process
  next-gone procs e =
      let chosen = scheduler_next-least (gone procs) in
      let lists = lists-gone procs in
      let none_left : count k.current_process (gone procs).ready_list ≡ 0 =
        rw (lists.0) (ground (arith, count-unlisted k.current_process, c.ready_once)) in
      elim (List-cases (gone procs).ready_list) [
        | inl empty ↦ c.runs.1 (sym e ∙ chosen.0 empty ∙ lists.3)
        | inr some_ready ↦
            let moved = ap (λ (q : ℕ). count q (gone procs).ready_list) e in
            omega (arith, chosen.1 some_ready, moved)
      ]

  schedule-gone-Exited :
      (procs : ℕ → Process) → Exited k (schedule (gone procs)).0 k.current_process
  schedule-gone-Exited procs =
      let after = schedule_from_none (gone procs) (lists-gone procs).2 in
      let lists = lists-gone procs in
      let table =
        get-register _ 0 _ (record unlisted { procs = procs }) (ap length lists.4 ∙ c.tabled)
          c.pid.0 c.pid.1 in
      record {
        not_ready =
            rw (after.0, lists.0) (ground (arith, count-unlisted k.current_process, c.ready_once));
        not_asleep =
            rw (after.1, lists.1) (ground (arith, count-unlisted k.current_process, c.sleep_once));
        pid_free = get-ap _ _ (gone procs) after.2 ∙ table ∙ ground arith;
        left = λ e. next-gone procs (sym after.3 ∙ e);
        others_ready = λ q ne. rw (after.0, lists.0) (ground (arith, count-unlisted q));
        others_asleep = λ q ne. rw (after.1, lists.1) (ground (arith, count-unlisted q));
      }

module _ (api : MemoryApi) (w : World api) where
  -- Of a process that can exit nothing is left in the kernel: it is on neither list, its pid is
  -- free again, and it is not the current process; no other process is moved.
  pub process_exit_current-Exited :
      CanExit w.kernel
      → Exited w.kernel (process_exit_current api w).0.kernel w.kernel.current_process
  unfolding process_exit_current scheduler_current
  process_exit_current-Exited c =
      let runs : (w.kernel.current_process == 0) ≡ false = ground (arith, c.runs) in
      rw runs (schedule-gone-Exited w.kernel c _)
