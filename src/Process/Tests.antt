-- ===== src/Process/Tests.antt =====
-- The theorems about the process engine at concrete inputs, over a memory that hands out addresses
-- in order.
use shahi_n_kernel.Prelude.{
  ◌≤◌, ℕ, ◌+◌, ◌^◌, ◌<◌, ◌≡◌, refl, ◌≢◌, none, some, [], ◌∷◌, arith, ◌==◌, if◌then◌else◌, replicate,
  leb,
}
use mathlib.Core.Option.{get_or}
use shahi_n_kernel.Prelude.Count.{count}
use shahi_n_kernel.Process.{Kernel, max_processes}
use shahi_n_kernel.Process.Table.{
  kernel_process_allocate_pid, kernel_process_register, kernel_process_get,
}
use shahi_n_kernel.Process.Table.Laws.{
  kernel_process_allocate_pid_full, kernel_process_allocate_pid_lowest, Tabled, get-register,
}
use shahi_n_kernel.Process.Engine.{
  MemoryApi, World, blank, create_process_common, process_on_timer_interrupt, process_exit_current,
}
use shahi_n_kernel.Process.Engine.Create.{StacksFit, Created, create_process_common-Created}
use shahi_n_kernel.Process.Engine.Timer.{process_on_timer_interrupt_switches, Kept}
use shahi_n_kernel.Process.Engine.Exit.{CanExit, Exited, process_exit_current-Exited}
use shahi_n_kernel.Sched.{scheduler_tick, scheduler_next}

-- Every request gets the next multiple of 4096 below a bound, and 0 from there on.
bump_alloc : ℕ → ℕ → ℕ × ℕ
bump_alloc size m = (if leb m (2 ^ 40) then m else 0, m + 4096)

abbrev bump : MemoryApi
bump = record {
  Memory = ℕ;
  alloc = bump_alloc;
  free = λ p m. m;
  create_address_space = λ m. (m, m + 4096);
  destroy_address_space = λ p m. m;
  arp_context_cleanup = λ p m. m;
}

bump-StacksFit : StacksFit bump
unfolding bump_alloc
bump-StacksFit m = ground arith

-- The process 1 runs and 2 is ready behind it; both have run for no time, 1 for one unit more.
abbrev demo : Kernel
demo = record {
  procs = λ p. record blank {
    pid = p;
    rsp = 0x9000 + p;
    address_space = 0x7000 + p;
    vruntime = if p == 1 then 1 else 0;
  };
  ready_list = 1 ∷ 2 ∷ [];
  sleep_list = [];
  current_process = 1;
  idle_p = 9;
  global_min_vruntime = 0;
  process_table = 0 ∷ 1 ∷ 2 ∷ replicate 253 0;
}

abbrev world : World bump
world = record { kernel = demo; memory = 0x10000; words = λ a. 0 }

demo-Tabled : Tabled demo
demo-Tabled = refl

allocate_runs : kernel_process_allocate_pid demo ≡ some 3
unfolding kernel_process_allocate_pid
allocate_runs = refl

create_runs : (create_process_common bump 0x5000 7 world).0 ≡ 0x10000
unfolding create_process_common kernel_process_allocate_pid bump_alloc
create_runs = refl

kernel_process_allocate_pid_lowest_example :
    (0 < 3) × (3 < max_processes) × (kernel_process_get 3 demo ≡ 0) × (3 ≤ 200)
unfolding kernel_process_allocate_pid kernel_process_get
kernel_process_allocate_pid_lowest_example =
    kernel_process_allocate_pid_lowest demo 3 200 refl (omega arith) refl

abbrev crowded : Kernel
crowded = record demo { process_table = replicate 256 1 }

no_pid : kernel_process_allocate_pid crowded ≡ none
unfolding kernel_process_allocate_pid
no_pid = refl

kernel_process_allocate_pid_full_test : kernel_process_get 200 crowded ≢ 0
kernel_process_allocate_pid_full_test =
    kernel_process_allocate_pid_full crowded 200 no_pid (omega arith) (omega arith)

get-register_test : kernel_process_get 3 (kernel_process_register 3 77 demo) ≡ 77
get-register_test = get-register 3 77 3 demo demo-Tabled (omega arith) (omega arith)

created : (create_process_common bump 0x5000 7 world).0 ≢ 0
created = omega (arith, create_runs)

create_process_common-Created_example :
    (pid : ℕ) × (kernel_process_allocate_pid demo ≡ some pid)
    × (let (p, w') = create_process_common bump 0x5000 7 world in
        Created demo w'.kernel w'.words 0x5000 7 p pid)
create_process_common-Created_example =
    create_process_common-Created bump bump-StacksFit world 0x5000 7 demo-Tabled created

demo-Kept : Kept demo 1
demo-Kept = omega arith

demo_next : scheduler_next demo ≡ 2
unfolding scheduler_next
demo_next = refl

process_on_timer_interrupt_switches_test :
    let ((back, space), k') = process_on_timer_interrupt 0x8888 demo in
    let next = scheduler_next demo in
    (back ≡ (demo.procs next).rsp)
    × (space ≡ some (demo.procs next).address_space)
    × (k'.current_process ≡ next)
    × ((k'.procs 1).rsp ≡ 0x8888)
process_on_timer_interrupt_switches_test =
    process_on_timer_interrupt_switches 0x8888 demo 1 (omega (arith, demo_next))
      (omega (arith, demo_next)) demo-Kept

-- Interrupted at 0x8888 in 1, the kernel goes on with 2, and at the next tick, which charges 2 one
-- unit, with 1 again.
abbrev interrupted : Kernel
interrupted = (process_on_timer_interrupt 0x8888 demo).1

abbrev ticked : Kernel
ticked = get_or (scheduler_tick interrupted) demo

demo-CanExit : CanExit demo
unfolding count
demo-CanExit = record {
  tabled = refl;
  pid = omega arith;
  runs = omega arith;
  ready_once = omega arith;
  sleep_once = omega arith;
}

process_exit_current-Exited_example : Exited demo (process_exit_current bump world).0.kernel 1
process_exit_current-Exited_example = process_exit_current-Exited bump world demo-CanExit
