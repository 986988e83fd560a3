-- ===== src/Process/Engine.antt =====
-- The process engine: creation, start, the timer interrupt, exit. Memory is an interface, which the
-- memory engine implements behind `memory_api`.
pub mod Create
pub mod Timer
pub mod Exit
use shahi_n_kernel.Prelude.{
  ℕ, zero, suc, ◌+◌, ◌-◌, ◌*◌, Bool, ◌&&◌, ◌||◌, Option, none, some, List, [], ◌∷◌, ◌++◌, ◌==◌, ltb,
  if◌then◌else◌, add64, sub64, not,
}
use shahi_n_kernel.Prelude.Int.{ℤ, pos}
use shahi_n_kernel.Process.{Process, Kernel, TaskState, write}
use shahi_n_kernel.Process.Table.{
  kernel_process_manager_init, kernel_process_allocate_pid, kernel_process_register,
  kernel_process_get, kernel_process_switch, kernel_process_current,
}
use shahi_n_kernel.Sched.{
  Switch, stay, scheduler_add, scheduler_remove, scheduler_remove_from_sleep, scheduler_sleep,
  scheduler_next, scheduler_current, schedule,
}

-- `memory_api`, as far as this engine calls it, and `arp_context_cleanup`. Address 0 is a failure.
pub record MemoryApi : Type 1 where
  pub Memory : Type 0
  pub alloc : (size : ℕ) → Memory → ℕ × Memory
  pub free : ℕ → Memory → Memory
  pub create_address_space : Memory → ℕ × Memory
  pub destroy_address_space : ℕ → Memory → Memory
  pub arp_context_cleanup : ℕ → Memory → Memory

abbrev pub process_stack_size : ℕ
process_stack_size = 256 * 1024

abbrev pub sizeof_process : ℕ
sizeof_process = 80

abbrev pub kernel_cs : ℕ
kernel_cs = 0x08

abbrev pub kernel_ss : ℕ
kernel_ss = 0x10

abbrev pub rflags_if : ℕ
rflags_if = 0x202

-- `*(--stack_top) = v`, on the 64-bit words of memory
unfoldable pub push : ℕ → ℕ × (ℕ → ℕ) → ℕ × (ℕ → ℕ)
push v (top, words) = (sub64 top 8, λ a. if a == sub64 top 8 then v else words a)

unfoldable pub push_all : List ℕ → ℕ × (ℕ → ℕ) → ℕ × (ℕ → ℕ)
unfolding push
push_all [] s = s
push_all (v ∷ vs) s = push_all vs (push v s)

-- The words of a new stack, in the order in which they are pushed: the frame that `iretq` takes,
-- then rax, rbx, rcx, rdx, rsi, rdi, rbp and r8 to r15.
abbrev pub initial_frame : (entry rdi rsp_val : ℕ) → List ℕ
initial_frame entry rdi rsp_val =
    kernel_ss ∷ rsp_val ∷ rflags_if ∷ kernel_cs ∷ entry ∷ 0 ∷ 0 ∷ 0 ∷ 0 ∷ 0 ∷ rdi ∷ 0 ∷ 0 ∷ 0 ∷ 0
    ∷ 0 ∷ 0 ∷ 0 ∷ 0 ∷ 0 ∷ []

abbrev pub blank : Process
blank = record {
  pid = 0;
  entry = 0;
  rsp = 0;
  stack = 0;
  sleep_ticks = pos 0;
  state = TaskState.ready;
  vruntime = 0;
  nice = 0;
  address_space = 0;
  arg = 0;
  app_context = 0;
}

-- `memset(p, 0, n)` on words
unfoldable pub clear_words : (from size : ℕ) → (ℕ → ℕ) → ℕ → ℕ
clear_words from size words a =
    if ltb a from then words a else if ltb a (from + size) then 0 else words a

module _ (api : MemoryApi) where
  open api use {
    Memory, alloc, free, create_address_space, destroy_address_space, arp_context_cleanup,
  }

  pub record World : Type 0 where
    pub kernel : Kernel
    pub memory : Memory
    pub words : ℕ → ℕ

  -- A write of the process object at `p`.
  unfoldable pub store : ℕ → Process → World → World
  unfolding write
  store p v w = record w { kernel = record w.kernel { procs = write w.kernel.procs p v } }

  -- The part of `create_process_common` from the allocated stack on; `new` is the object so far.
  unfoldable pub fill_process : (p : ℕ) → Process → (stack rdi : ℕ) → World → World
  unfolding clear_words store
  fill_process p new stack rdi w =
      let top : ℕ = add64 stack process_stack_size in
      let (rsp, words) =
        push_all (initial_frame new.entry rdi (sub64 top 8))
          (top, clear_words stack process_stack_size w.words) in
      let w' = store p (record new { stack = stack; rsp = rsp }) (record w { words = words }) in
      record w' { kernel = kernel_process_register new.pid p w'.kernel }

  -- The part with a pid. A process object, an address space or a stack that cannot be had is an
  -- address 0; the object is then given back, an address space already made is not.
  unfoldable pub create_with_pid : (pid entry rdi : ℕ) → World → ℕ × World
  unfolding store
  create_with_pid pid entry rdi w =
      let (p, m1) = alloc sizeof_process w.memory in
      let (space, m2) = create_address_space m1 in
      let (stack, m3) = alloc process_stack_size m2 in
      let named : Process = record blank { pid = pid } in
      let new : Process = record named { address_space = space; entry = entry } in
      if p == 0
      then (0, record w { memory = m1 })
      else if space == 0
      then (0, store p named (record w { memory = free p m2 }))
      else if stack == 0
      then (0, store p new (record w { memory = free p m3 }))
      else (p, fill_process p new stack rdi (record w { memory = m3 }))

  unfoldable pub create_for : Option ℕ → (entry rdi : ℕ) → World → ℕ × World
  unfolding create_with_pid
  create_for none entry rdi w = (0, w)
  create_for (some pid) entry rdi w = create_with_pid pid entry rdi w

  -- A pointer to the new process, or 0.
  unfoldable pub create_process_common : (entry rdi : ℕ) → World → ℕ × World
  unfolding create_for
  create_process_common entry rdi w = create_for (kernel_process_allocate_pid w.kernel) entry rdi w

  unfoldable pub process_create : ℕ → World → ℕ × World
  process_create entry w = create_process_common entry 0 w

  unfoldable pub process_create_ex : (entry arg : ℕ) → World → ℕ × World
  unfolding store
  process_create_ex entry arg w =
      let (p, w') = create_process_common entry arg w in
      (p, if p == 0 then w' else store p (record (w'.kernel.procs p) { arg = arg }) w')

  -- `process_exit_current` up to the switch to the next process: null-pointer tests included, the
  -- objects are given back in the order of the code.
  unfoldable pub process_exit_current : World → World × Switch
  unfolding store
  process_exit_current w =
      let p : ℕ = scheduler_current w.kernel in
      let o : Process = w.kernel.procs p in
      let unlisted = scheduler_remove_from_sleep p (scheduler_remove p w.kernel) in
      let m1 =
        if o.app_context == 0 then w.memory else arp_context_cleanup o.app_context w.memory in
      let o' : Process = if o.app_context == 0 then o else record o { app_context = 0 } in
      let m2 = if o.stack == 0 then m1 else free o.stack m1 in
      let m3 = if o.address_space == 0 then m2 else destroy_address_space o.address_space m2 in
      let w1 =
        store p o' (record w { kernel = kernel_process_switch 0 unlisted; memory = free p m3 }) in
      let (k', switch) = schedule (kernel_process_register o.pid 0 w1.kernel) in
      if p == 0 then (w, stay) else (record w1 { kernel = k' }, switch)

unfoldable pub process_init : Kernel → Kernel
process_init k = kernel_process_manager_init k

unfoldable pub set_process_state : ℕ → TaskState → Kernel → Kernel
unfolding write
set_process_state p s k = record k { procs = write k.procs p (record (k.procs p) { state = s }) }

unfoldable pub process_start : ℕ → Kernel → Kernel
unfolding set_process_state
process_start p k = scheduler_add p (set_process_state p TaskState.ready k)

unfoldable pub process_sleep : ℕ → Kernel → Kernel
unfolding set_process_state
process_sleep p k =
    scheduler_sleep p (k.procs p).sleep_ticks (set_process_state p TaskState.sleeping k)

unfoldable pub get_current_process : Kernel → ℕ
get_current_process k = scheduler_current k

unfoldable pub get_process : ℕ → Kernel → ℕ
get_process pid k = kernel_process_get pid k

unfoldable pub switch_process : ℕ → Kernel → Kernel
switch_process next k = kernel_process_switch next k

-- The interrupted process's stack pointer is kept, unless it is the idle process.
unfoldable pub save_rsp : ℕ → Kernel → Kernel
unfolding write
save_rsp rsp k =
    let p : ℕ = kernel_process_current k in
    if not (p == 0) && not (p == k.idle_p)
    then record k { procs = write k.procs p (record (k.procs p) { rsp = rsp }) }
    else k

-- The stack pointer to return to, and the address space that is loaded, if another process runs.
unfoldable pub process_on_timer_interrupt : ℕ → Kernel → (ℕ × Option ℕ) × Kernel
process_on_timer_interrupt current_rsp k =
    let k' = save_rsp current_rsp k in
    let next = scheduler_next k' in
    if next == 0
    then ((current_rsp, none), k')
    else if next == kernel_process_current k
    then ((current_rsp, none), k')
    else (((k'.procs next).rsp, some (k'.procs next).address_space), kernel_process_switch next k')

unfoldable pub process_set_app_context : (p context : ℕ) → Kernel → Kernel
unfolding write
process_set_app_context p context k =
    if p == 0
    then k
    else record k { procs = write k.procs p (record (k.procs p) { app_context = context }) }

unfoldable pub process_get_app_context : ℕ → Kernel → ℕ
process_get_app_context p k = if p == 0 then 0 else (k.procs p).app_context
