-- ===== src/Sched/Wait/Laws.antt =====
-- What waiting, waking and sleeping do to the ready list, the sleep list and the wait queue.
use shahi_n_kernel.Prelude.{
  ℕ, suc, ◌+◌, ◌-◌, ◌*◌, ◌≤◌, ◌<◌, ◌≡◌, refl, sym, ◌∙◌, [], ◌∷◌, ◌++◌, arith, ltb, if◌then◌else◌,
  length, length-append,
}
use mathlib.Core.List.{append_assoc, append-nil}
use shahi_n_kernel.Prelude.Int.{pos, is_nonpos}
use shahi_n_kernel.Prelude.Count.{count, hit, count-append}
use shahi_n_kernel.Process.{Kernel, TaskState, max_processes, write}
use shahi_n_kernel.Sched.{scheduler_add, scheduler_remove, scheduler_sleep, scheduler_current}
use shahi_n_kernel.Sched.Choice.{count-remove_entry}
use shahi_n_kernel.Sched.Wait.{
  WaitQueue, wait_queue_max, set_state, wait, wake_all, wake_up, wake_up_one, sleep, ticks_of_ms,
}

-- `scheduler_add` appends to the ready list, if it is not full.
ready_list-add :
    (p : ℕ) (k : Kernel)
    → length k.ready_list < max_processes
    → (scheduler_add p k).ready_list ≡ k.ready_list ++ (p ∷ [])
unfolding scheduler_add
ready_list-add p k h = ground arith

count-single : (a p : ℕ) → count a (p ∷ []) ≡ hit a p
unfolding count
count-single a p = omega arith

-- A waiting process leaves the ready list once, where every other process stays as often as it was,
-- and its state says that it waits. While the queue has room the process is put at the queue's end;
-- a full queue stays as it is.
pub wait_lem :
    (q : WaitQueue) (k : Kernel) (a : ℕ)
    → let (q', k') = wait q k in
      let p = scheduler_current k in
      ((k'.procs p).state ≡ TaskState.waiting)
      × (count a k'.ready_list ≡ count a k.ready_list - hit a p)
      × (q' ≡ (if ltb (length q) wait_queue_max then q ++ (p ∷ []) else q))
unfolding wait scheduler_remove
wait_lem q k a =
    let p : ℕ = scheduler_current k in
    (ground arith, ground (arith, count-remove_entry p k.ready_list a), ground arith)

woken : ℕ → Kernel → Kernel
woken p k = scheduler_add p (set_state p TaskState.ready k)

ready_list-woken :
    (p : ℕ) (k : Kernel)
    → length k.ready_list < max_processes
    → (woken p k).ready_list ≡ k.ready_list ++ (p ∷ [])
unfolding woken set_state
ready_list-woken p k h =
    ready_list-add p
      (record k { procs = write k.procs p (record (k.procs p) { state = TaskState.ready }) }) h

wake_all-ready_list :
    (q : WaitQueue) (k : Kernel)
    → length k.ready_list + length q ≤ max_processes
    → (wake_all q k).ready_list ≡ k.ready_list ++ q
unfolding wake_all woken
wake_all-ready_list [] k h = sym (append-nil k.ready_list)
wake_all-ready_list (p ∷ q) k h =
    let one = ready_list-woken p k (omega arith) in
    wake_all-ready_list q (woken p k) (rw one (omega (arith, length-append k.ready_list (p ∷ []))))
    ∙ rw one (append_assoc k.ready_list (p ∷ []) q)

-- Waking all empties the queue and moves its entries, in order, to the end of the ready list, if
-- that has room for them.
pub wake_up_lem :
    (q : WaitQueue) (k : Kernel)
    → length k.ready_list + length q ≤ max_processes
    → ((wake_up q k).0 ≡ []) × ((wake_up q k).1.ready_list ≡ k.ready_list ++ q)
unfolding wake_up
wake_up_lem q k h = (refl, wake_all-ready_list q k h)

-- The wait queue is first in, first out. On a queue with an entry `p` in front and room behind, the
-- current process waits, and then one process is woken: it is `p`, which joins the ready list, ready
-- to run, and the one that waited stands last in the queue.
pub wake_up_one-wait :
    (p : ℕ) (q : WaitQueue) (k : Kernel)
    → length (p ∷ q) < wait_queue_max
    → length (wait (p ∷ q) k).1.ready_list < max_processes
    → let (q', k') = wait (p ∷ q) k in
      let (q'', k'') = wake_up_one q' k' in
      (q'' ≡ q ++ (scheduler_current k ∷ []))
      × (k''.ready_list ≡ k'.ready_list ++ (p ∷ []))
      × ((k''.procs p).state ≡ TaskState.ready)
unfolding wait wake_up_one scheduler_add scheduler_remove
wake_up_one-wait p q k room h = (ground arith, ground arith, ground arith)

-- A process that sleeps for `ticks` above 0 leaves the ready list once, and, while the sleep list
-- has room, joins it with that many ticks to go.
pub sleep_lem :
    (n : ℕ) (k : Kernel) (a : ℕ)
    → length k.sleep_list < max_processes
    → let k' = sleep (pos (suc n)) k in
      let p = scheduler_current k in
      ((k'.procs p).sleep_ticks ≡ pos (suc n))
      × (count a k'.ready_list ≡ count a k.ready_list - hit a p)
      × (count a k'.sleep_list ≡ count a k.sleep_list + hit a p)
unfolding sleep scheduler_sleep is_nonpos
sleep_lem n k a h =
    let p : ℕ = scheduler_current k in
    (
      ground arith,
      ground (arith, count-remove_entry p k.ready_list a),
      ground (arith, count-append a k.sleep_list (p ∷ []), count-single a p),
    )

-- Sleeping for `ms` milliseconds lasts the number of ticks that covers them: at least `ms`, and by
-- less than one tick more.
pub ticks_of_ms_lem : (ms : ℕ) → (ms ≤ ticks_of_ms ms * 10) × (ticks_of_ms ms * 10 < ms + 10)
unfolding ticks_of_ms
ticks_of_ms_lem ms = (omega arith, omega arith)
