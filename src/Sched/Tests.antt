-- ===== src/Sched/Tests.antt =====
-- The theorems about the scheduler at concrete inputs, and runs of its functions.
use shahi_n_kernel.Prelude.{
  ℕ, ◌+◌, ◌-◌, ◌*◌, ◌≤◌, ◌<◌, ◌≡◌, refl, some, [], ◌∷◌, ◌++◌, arith, length, ◌==◌, if◌then◌else◌,
}
use shahi_n_kernel.Prelude.Int.{ℤ, pos, pred, is_nonpos}
use shahi_n_kernel.Prelude.Count.{count, hit, swap_remove}
use shahi_n_kernel.Process.{Process, Kernel, TaskState, max_processes}
use shahi_n_kernel.Sched.{
  scheduler_next, scheduler_tick, scheduler_current, remove_entry, schedule, context_switch,
}
use shahi_n_kernel.Sched.Choice.{scheduler_next_fair, count-remove_entry}
use shahi_n_kernel.Sched.Wait.{wait, wake_up, wake_up_one, sleep, ticks_of_ms}
use shahi_n_kernel.Sched.Wait.Laws.{
  wait_lem, wake_up_lem, wake_up_one-wait, sleep_lem, ticks_of_ms_lem,
}

abbrev process : (pid vruntime : ℕ) → ℤ → Process
process pid vruntime ticks = record {
  pid = pid;
  entry = 0;
  rsp = 0x9000 + pid;
  stack = 0;
  sleep_ticks = ticks;
  state = TaskState.ready;
  vruntime = vruntime;
  nice = 0;
  address_space = 0x7000 + pid;
  arg = 0;
  app_context = 0;
}

-- The processes 1 and 2 are ready and 1 runs; 3 and 4 sleep, 3 for its last tick; 9 is idle.
abbrev demo : Kernel
demo = record {
  procs = λ p.
      if p == 1
      then process 1 5 (pos 0)
      else if p == 2
      then process 2 3 (pos 0)
      else if p == 3
      then process 3 0 (pos 1)
      else if p == 4
      then process 4 0 (pos 7)
      else process p 0 (pos 0);
  ready_list = 1 ∷ 2 ∷ [];
  sleep_list = 3 ∷ 4 ∷ [];
  current_process = 1;
  idle_p = 9;
  global_min_vruntime = 0;
  process_table = [];
}

next_runs : scheduler_next demo ≡ 2
unfolding scheduler_next
next_runs = refl

schedule_runs : (schedule demo).1 ≡ context_switch 0x7002 1 0x9002
unfolding schedule scheduler_next
schedule_runs = refl

remove_runs : remove_entry 1 (1 ∷ 2 ∷ 3 ∷ []) ≡ 3 ∷ 2 ∷ []
unfolding remove_entry swap_remove
remove_runs = refl

tick_runs :
    (k : Kernel)
    → scheduler_tick demo ≡ some k
    → (k.ready_list ≡ 1 ∷ 2 ∷ 3 ∷ []) × (k.sleep_list ≡ 4 ∷ []) × (k.global_min_vruntime ≡ 3)
unfolding scheduler_tick swap_remove pred is_nonpos
tick_runs k e = (ground arith, ground arith, ground arith)

scheduler_next_fair_example :
    (0 < count (scheduler_next demo) demo.ready_list)
    × ((demo.procs (scheduler_next demo)).vruntime ≤ (demo.procs 1).vruntime)
unfolding count
scheduler_next_fair_example = scheduler_next_fair demo 1 (omega arith)

count-remove_entry_example : count 2 (remove_entry 1 (1 ∷ 2 ∷ 3 ∷ [])) ≡ count 2 (1 ∷ 2 ∷ 3 ∷ [])
count-remove_entry_example = count-remove_entry 1 (1 ∷ 2 ∷ 3 ∷ []) 2

wait_lem_example :
    let (q', k') = wait (5 ∷ []) demo in
    ((k'.procs (scheduler_current demo)).state ≡ TaskState.waiting)
    × (count 1 k'.ready_list ≡ count 1 demo.ready_list - hit 1 (scheduler_current demo))
    × (q' ≡ 5 ∷ scheduler_current demo ∷ [])
wait_lem_example = wait_lem (5 ∷ []) demo 1

wake_up_lem_test :
    ((wake_up (5 ∷ 6 ∷ []) demo).0 ≡ [])
    × ((wake_up (5 ∷ 6 ∷ []) demo).1.ready_list ≡ 1 ∷ 2 ∷ 5 ∷ 6 ∷ [])
wake_up_lem_test = wake_up_lem (5 ∷ 6 ∷ []) demo (omega arith)

wait_room : length (wait (5 ∷ []) demo).1.ready_list < max_processes
unfolding wait remove_entry swap_remove scheduler_current
wait_room = omega arith

wake_up_one-wait_example :
    let (q', k') = wait (5 ∷ []) demo in
    let (q'', k'') = wake_up_one q' k' in
    (q'' ≡ scheduler_current demo ∷ [])
    × (k''.ready_list ≡ k'.ready_list ++ (5 ∷ []))
    × ((k''.procs 5).state ≡ TaskState.ready)
wake_up_one-wait_example = wake_up_one-wait 5 [] demo (omega arith) wait_room

sleep_lem_test :
    let k' = sleep (pos 4) demo in
    ((k'.procs (scheduler_current demo)).sleep_ticks ≡ pos 4)
    × (count 1 k'.ready_list ≡ count 1 demo.ready_list - hit 1 (scheduler_current demo))
    × (count 1 k'.sleep_list ≡ count 1 demo.sleep_list + hit 1 (scheduler_current demo))
sleep_lem_test = sleep_lem 3 demo 1 (omega arith)

ticks_of_ms_lem_example : (25 ≤ ticks_of_ms 25 * 10) × (ticks_of_ms 25 * 10 < 35)
ticks_of_ms_lem_example = ticks_of_ms_lem 25
