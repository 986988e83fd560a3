-- ===== src/Sched/Wait.antt =====
-- The wait queue, and sleeping, of the scheduler's management. Each function of the code that ends
-- in `yield` is modelled up to that interrupt.
pub mod Laws
use shahi_n_kernel.Prelude.{
  ℕ, zero, suc, ◌+◌, ◌-◌, ◌*◌, ◌/◌, Bool, List, [], ◌∷◌, ◌++◌, ◌==◌, ltb, leb, if◌then◌else◌,
  length,
}
use shahi_n_kernel.Prelude.Int.{ℤ, pos, is_nonpos}
use shahi_n_kernel.Process.{Process, Kernel, TaskState, write}
use shahi_n_kernel.Sched.{scheduler_add, scheduler_remove, scheduler_sleep, scheduler_current}

abbrev pub wait_queue_max : ℕ
wait_queue_max = 256

-- `wait_queue_t`: the entries below its count.
abbrev pub WaitQueue : Type 0
WaitQueue = List ℕ

unfoldable pub wait_queue_init : WaitQueue → WaitQueue
wait_queue_init q = []

unfoldable pub set_state : ℕ → TaskState → Kernel → Kernel
unfolding write
set_state p s k = record k { procs = write k.procs p (record (k.procs p) { state = s }) }

unfoldable pub wait : WaitQueue → Kernel → WaitQueue × Kernel
unfolding set_state scheduler_remove
wait q k =
    let p : ℕ = scheduler_current k in
    (
      if ltb (length q) wait_queue_max then q ++ (p ∷ []) else q,
      scheduler_remove p (set_state p TaskState.waiting k),
    )

-- The loop of `wake_up` over the queue.
unfoldable pub wake_all : WaitQueue → Kernel → Kernel
unfolding set_state
wake_all [] k = k
wake_all (p ∷ q) k = wake_all q (scheduler_add p (set_state p TaskState.ready k))

unfoldable pub wake_up : WaitQueue → Kernel → WaitQueue × Kernel
unfolding wake_all
wake_up q k = ([], wake_all q k)

unfoldable pub wake_up_one : WaitQueue → Kernel → WaitQueue × Kernel
unfolding set_state
wake_up_one [] k = ([], k)
wake_up_one (p ∷ q) k = (q, scheduler_add p (set_state p TaskState.ready k))

unfoldable pub sleep : ℤ → Kernel → Kernel
sleep ticks k = if is_nonpos ticks then k else scheduler_sleep (scheduler_current k) ticks k

-- 100 per second
abbrev pub timer_freq : ℕ
timer_freq = 100

-- For `ms` above 0, and small enough that the product does not overflow an `int`.
unfoldable pub ticks_of_ms : ℕ → ℕ
ticks_of_ms ms = (ms * timer_freq + 999) / 1000

unfoldable pub sleep_ms : ℕ → Kernel → Kernel
unfolding ticks_of_ms
sleep_ms ms k =
    if ms == 0 then k else scheduler_sleep (scheduler_current k) (pos (ticks_of_ms ms)) k
