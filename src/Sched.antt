-- ===== src/Sched.antt =====
-- The scheduler engine: the ready list, the sleep list, the choice of the next process, the timer
-- tick. `yield`, an interrupt, is not part of the functions here: what follows it is
-- `Process.Engine.process_on_timer_interrupt`.
mod Tests
pub mod Choice
pub mod Charge
pub mod Tick
pub mod Wait
use mathlib.Core.Option
use shahi_n_kernel.Prelude.{
  ℕ, zero, suc, ◌+◌, ◌-◌, ◌*◌, ◌/◌, Bool, true, false, not, ◌&&◌, ◌||◌, Option, none, some, List,
  [], ◌∷◌, ◌++◌, ◌==◌, ltb, leb, if◌then◌else◌, add64, length, get_or,
}
use shahi_n_kernel.Prelude.Int.{ℤ, pred, is_nonpos}
use shahi_n_kernel.Prelude.Count.{swap_remove}
use shahi_n_kernel.Process.{Process, Kernel, TaskState, max_processes, write}

-- 1024 / (nice + 1)
unfoldable pub weight_from_nice : ℕ → ℕ
weight_from_nice nice = 1024 / (nice + 1)

unfoldable pub scheduler_init : Kernel → Kernel
scheduler_init k = record k { ready_list = []; sleep_list = []; current_process = 0 }

-- The loop of `update_min_vruntime` over the rest of the list.
unfoldable pub min_from : (ℕ → Process) → ℕ → List ℕ → ℕ
min_from procs m [] = m
min_from procs m (p ∷ ps) =
    min_from procs (if ltb (procs p).vruntime m then (procs p).vruntime else m) ps

-- The least virtual time on a list, or `old` on an empty one.
unfoldable pub min_of : (ℕ → Process) → (old : ℕ) → List ℕ → ℕ
unfolding min_from
min_of procs old [] = old
min_of procs old (p ∷ ps) = min_from procs (procs p).vruntime ps

unfoldable pub update_min_vruntime : Kernel → Kernel
unfolding min_of
update_min_vruntime k = record k {
  global_min_vruntime = min_of k.procs k.global_min_vruntime k.ready_list;
}

unfoldable pub scheduler_add : ℕ → Kernel → Kernel
unfolding write
scheduler_add p k = if leb max_processes (length k.ready_list) then k else record k {
  procs = write k.procs p (record (k.procs p) { vruntime = k.global_min_vruntime });
  ready_list = k.ready_list ++ (p ∷ []);
}

-- The index of the first entry that is `p`.
unfoldable pub index_of : ℕ → List ℕ → Option ℕ
index_of p [] = none
index_of p (q ∷ qs) =
    let rest = index_of p qs in
    if q == p then some 0 else elim rest [ none ↦ none | some i ↦ some (suc i) ]

-- The loop of `scheduler_remove` and of `scheduler_remove_from_sleep`.
unfoldable pub remove_at : List ℕ → Option ℕ → List ℕ
remove_at xs none = xs
remove_at xs (some i) = swap_remove xs i

unfoldable pub remove_entry : ℕ → List ℕ → List ℕ
unfolding index_of remove_at
remove_entry p xs = remove_at xs (index_of p xs)

unfoldable pub scheduler_remove : ℕ → Kernel → Kernel
scheduler_remove p k = record k { ready_list = remove_entry p k.ready_list }

unfoldable pub scheduler_remove_from_sleep : ℕ → Kernel → Kernel
scheduler_remove_from_sleep p k = record k { sleep_list = remove_entry p k.sleep_list }

unfoldable pub add_to_sleep : ℕ → Kernel → Kernel
add_to_sleep p k =
    if leb max_processes (length k.sleep_list)
    then k
    else record k { sleep_list = k.sleep_list ++ (p ∷ []) }

unfoldable pub remove_from_sleep : ℕ → Kernel → Kernel
remove_from_sleep index k = record k { sleep_list = swap_remove k.sleep_list index }

-- The loop of `scheduler_next` over the rest of the list.
unfoldable pub best_from : (ℕ → Process) → ℕ → List ℕ → ℕ
best_from procs best [] = best
best_from procs best (p ∷ ps) =
    best_from procs (if ltb (procs p).vruntime (procs best).vruntime then p else best) ps

unfoldable pub next_of : (ℕ → Process) → (idle : ℕ) → List ℕ → ℕ
unfolding best_from
next_of procs idle [] = idle
next_of procs idle (p ∷ ps) = best_from procs p ps

unfoldable pub scheduler_next : Kernel → ℕ
unfolding next_of
scheduler_next k = next_of k.procs k.idle_p k.ready_list

-- What `schedule` asks of the processor: the address space to load, and the stacks to leave and
-- to enter.
pub data Switch : Type 0 where
  stay : Switch
  first_task : (space rsp : ℕ) → Switch
  context_switch : (space prev rsp : ℕ) → Switch

unfoldable pub schedule : Kernel → Kernel × Switch
schedule k =
    let next = scheduler_next k in
    let k' : Kernel = record k { current_process = next } in
    let p : Process = k.procs next in
    if next == 0
    then (k, stay)
    else if k.current_process == 0
    then (k', first_task p.address_space p.rsp)
    else if k.current_process == next
    then (k, stay)
    else (k', context_switch p.address_space k.current_process p.rsp)

-- `current->vruntime += 1024 / weight`, and the least virtual time anew
unfoldable pub charge : ℕ → Kernel → Kernel
unfolding update_min_vruntime write
charge weight k =
    let p : Process = k.procs k.current_process in
    let charged : Process = record p { vruntime = add64 p.vruntime (1024 / weight) } in
    update_min_vruntime (record k { procs = write k.procs k.current_process charged })

-- The first part of `scheduler_tick`. `none` is the divide error at a weight of 0.
unfoldable pub charge_current : Kernel → Option Kernel
unfolding weight_from_nice charge
charge_current k =
    let weight : ℕ = weight_from_nice (k.procs k.current_process).nice in
    if (k.current_process == 0) || (k.current_process == k.idle_p)
    then some k
    else if weight == 0
    then none
    else some (charge weight k)

-- `--p->sleep_ticks`
unfoldable pub count_down : ℕ → Kernel → Kernel
unfolding write
count_down p k = record k {
  procs = write k.procs p (record (k.procs p) { sleep_ticks = pred (k.procs p).sleep_ticks });
}

-- One round of the loop over the sleep list, at index `i`: the kernel, and whether the entry left.
unfoldable pub tick_sleeper : ℕ → Kernel → Kernel × Bool
unfolding count_down remove_from_sleep scheduler_add
tick_sleeper i k =
    let p : ℕ = get_or k.sleep_list i 0 in
    let k' = count_down p k in
    if is_nonpos (k'.procs p).sleep_ticks
    then (scheduler_add p (remove_from_sleep i k'), true)
    else (k', false)

-- Each round drops an entry or goes past it, so `length sleep_list` rounds are enough.
unfoldable pub tick_sleepers : (fuel i : ℕ) → Kernel → Kernel
unfolding tick_sleeper
tick_sleepers zero i k = k
tick_sleepers (suc fuel) i k =
    let (k', woken) = tick_sleeper i k in
    let rest = tick_sleepers fuel (if woken then i else suc i) k' in
    if leb (length k.sleep_list) i then k else rest

unfoldable pub scheduler_tick : Kernel → Option Kernel
unfolding charge_current tick_sleepers
scheduler_tick k = Option.map (λ k'. tick_sleepers (length k'.sleep_list) 0 k') (charge_current k)

unfoldable pub scheduler_sleep : ℕ → ℤ → Kernel → Kernel
unfolding write scheduler_remove add_to_sleep
scheduler_sleep p ticks k = add_to_sleep p (
    scheduler_remove p
      (record k { procs = write k.procs p (record (k.procs p) { sleep_ticks = ticks }) }))

unfoldable pub scheduler_current : Kernel → ℕ
scheduler_current k = k.current_process
