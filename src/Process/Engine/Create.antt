-- ===== src/Process/Engine/Create.antt =====
-- `create_process_common`: the registration of the new process, and the stack from which it starts.
use mathlib.Core.Path.{subst}
use shahi_n_kernel.Prelude.{
  ℕ, zero, suc, ◌+◌, ◌-◌, ◌*◌, ◌^◌, ◌≤◌, ◌<◌, ◌≡◌, refl, sym, ap, ◌∙◌, ◌≢◌, true, ◌||◌, Option,
  none, some, List, [], ◌∷◌, arith, ◌==◌, if◌then◌else◌, length, get_or, add64, sub64,
}
use shahi_n_kernel.Prelude.Bits.{every_below, every_below_at}
use shahi_n_kernel.Process.{Process, Kernel, TaskState, max_processes, write}
use shahi_n_kernel.Process.Table.{kernel_process_allocate_pid, kernel_process_get}
use shahi_n_kernel.Process.Table.Laws.{
  current-register, sleep_list-register, Tabled, get-register, procs-register, ready_list-register,
  kernel_process_allocate_pid_lem,
}
use shahi_n_kernel.Process.Engine.{
  MemoryApi, World, process_stack_size, initial_frame, push_all, clear_words, blank, sizeof_process,
  fill_process, create_with_pid, create_for, create_process_common, kernel_ss, kernel_cs, rflags_if,
}

-- the new top
abbrev laid_rsp : List ℕ → ℕ → (ℕ → ℕ) → ℕ
laid_rsp vs top words = (push_all vs (top, words)).0

abbrev pushed : List ℕ → ℕ → (ℕ → ℕ) → ℕ × (ℕ → ℕ)
pushed vs top words = push_all vs (top, words)

-- After a row of pushes the words lie below the old top in order, and above it nothing changed.
push_all-words :
    (vs : List ℕ) (top : ℕ) (words : ℕ → ℕ)
    → 8 * length vs ≤ top
    → top < 2 ^ 64
    → ((pushed vs top words).0 ≡ top - 8 * length vs)
      × ((j : ℕ) → j < length vs → (pushed vs top words).1 (top - 8 * (j + 1)) ≡ get_or vs j 0)
      × ((a : ℕ) → top ≤ a → (pushed vs top words).1 a ≡ words a)
unfolding push_all
push_all-words [] top words room small = (omega arith, λ j h. absurd (omega arith), λ a h. refl)
push_all-words (v ∷ vs) top words room small =
    let low : sub64 top 8 ≡ top - 8 = omega arith in
    let words' : ℕ → ℕ = λ a. if a == sub64 top 8 then v else words a in
    let ih = push_all-words vs (sub64 top 8) words' (omega (arith, low)) (omega (arith, low)) in
    let at_low : (if top - 8 == sub64 top 8 then v else words (top - 8)) ≡ v =
      ground (arith, low) in
    (
      omega (arith, ih.0, low),
      elim [
        | zero ↦ λ h. ih.2 (top - 8) (omega (arith, low)) ∙ at_low
        | suc j ↦ λ h.
            let next : top - 8 * (suc j + 1) ≡ sub64 top 8 - 8 * (j + 1) = omega (arith, low) in
            rw next (ih.1 j (omega arith))
      ],
      λ a h.
          let past : (if a == sub64 top 8 then v else words a) ≡ words a = ground (arith, low) in
          ih.2 a (omega (arith, low)) ∙ past,
    )

-- What the interrupt return finds at `rsp`: the registers r15 to r8, rbp, rdi, rsi, rdx, rcx, rbx and
-- rax, one word each, and the frame of `iretq`: it starts at `entry` in kernel mode, with interrupts
-- on, `arg` in rdi, every other register 0, and the stack at the top of `stack`.
pub record StartsAt (words : ℕ → ℕ) (rsp entry arg stack : ℕ) : Type 0 where
  pub zeros : (j : ℕ) → j < 15 → j ≢ 9 → words (rsp + 8 * j) ≡ 0
  pub rdi : words (rsp + 8 * 9) ≡ arg
  pub rip : words (rsp + 8 * 15) ≡ entry
  pub cs : words (rsp + 8 * 16) ≡ kernel_cs
  pub rflags : words (rsp + 8 * 17) ≡ rflags_if
  pub stack_pointer : words (rsp + 8 * 18) ≡ stack + process_stack_size - 8
  pub ss : words (rsp + 8 * 19) ≡ kernel_ss
  pub inside : stack ≤ rsp

zeros_table :
    (entry arg v : ℕ)
    → every_below (λ j. (j == 9) || (get_or (initial_frame entry arg v) (19 - j) 0 == 0)) 15 ≡ true
unfolding every_below
zeros_table entry arg v = refl

zeros_of_frame :
    (entry arg v j : ℕ) → j < 15 → j ≢ 9 → get_or (initial_frame entry arg v) (19 - j) 0 ≡ 0
zeros_of_frame entry arg v j h ne =
    let table = zeros_table entry arg v in
    let at_j =
      every_below_at (λ j. (j == 9) || (get_or (initial_frame entry arg v) (19 - j) 0 == 0)) 15
        table j h in
    ground (arith, at_j)

initial_frame-StartsAt :
    (entry arg stack : ℕ) (words : ℕ → ℕ)
    → stack + process_stack_size < 2 ^ 64
    → let top : ℕ = add64 stack process_stack_size in
      let (rsp, words') = push_all (initial_frame entry arg (sub64 top 8)) (top, words) in
      StartsAt words' rsp entry arg stack
initial_frame-StartsAt entry arg stack words h =
    let top : ℕ = add64 stack process_stack_size in
    let frame : List ℕ = initial_frame entry arg (sub64 top 8) in
    let laid = push_all-words frame top words (omega arith) (omega arith) in
    let rsp : laid_rsp frame top words ≡ stack + process_stack_size - 160 = omega (arith, laid.0) in
    let word : (j : ℕ)
        → j < 20
        → (pushed frame top words).1 (laid_rsp frame top words + 8 * j) ≡ get_or frame (19 - j) 0 =
      λ j lt.
        let here : laid_rsp frame top words + 8 * j ≡ top - 8 * (19 - j + 1) = omega (arith, rsp) in
        rw here (laid.1 (19 - j) (omega arith)) in
    record {
      zeros = λ j lt ne. word j (omega arith) ∙ zeros_of_frame entry arg (sub64 top 8) j lt ne;
      rdi = word 9 (omega arith);
      rip = word 15 (omega arith);
      cs = word 16 (omega arith);
      rflags = word 17 (omega arith);
      stack_pointer = word 18 (omega arith) ∙ omega arith;
      ss = word 19 (omega arith);
      inside = omega (arith, rsp);
    }

-- Every stack that `alloc` returns lies below the end of the address space.
abbrev pub StacksFit : MemoryApi → Type 0
StacksFit api = (m : api.Memory) → (api.alloc process_stack_size m).0 + process_stack_size < 2 ^ 64

-- What a creation that returns `p` has done: `p` is registered under a pid that was free, it is
-- ready, has run for no time, and starts at `entry` with `arg` in rdi. The other pids, the ready
-- list, the sleep list and the running process are as they were.
pub record Created (k k' : Kernel) (words : ℕ → ℕ) (entry arg p pid : ℕ) : Type 0 where
  pub was_free : (0 < pid) × (pid < max_processes) × (kernel_process_get pid k ≡ 0)
  pub found : kernel_process_get pid k' ≡ p
  pub named : (k'.procs p).pid ≡ pid
  pub fresh : ((k'.procs p).state ≡ TaskState.ready) × ((k'.procs p).vruntime ≡ 0)
  pub starts : StartsAt words (k'.procs p).rsp entry arg (k'.procs p).stack
  pub others : (j : ℕ) → j ≢ pid → kernel_process_get j k' ≡ kernel_process_get j k
  pub listed : k'.ready_list ≡ k.ready_list
  pub asleep : k'.sleep_list ≡ k.sleep_list
  pub running : k'.current_process ≡ k.current_process

same-at : {f g : ℕ → Process} (p : ℕ) → f ≡ g → f p ≡ g p
same-at p e = ap (λ (h : ℕ → Process). h p) e

write_self : (procs : ℕ → Process) (p : ℕ) (o : Process) → write procs p o p ≡ o
unfolding write
write_self procs p o = ground arith

-- the object as it stands before its stack
abbrev object : (pid space entry : ℕ) → Process
object pid space entry = record blank { pid = pid; address_space = space; entry = entry }

module _ (api : MemoryApi) (w : World api) where
  -- the memory after each of the three requests
  abbrev after_object : api.Memory
  after_object = (api.alloc sizeof_process w.memory).1

  abbrev after_space : api.Memory
  after_space = (api.create_address_space after_object).1

  abbrev new_object : ℕ → ℕ → Process
  new_object pid entry = object pid (api.create_address_space after_object).0 entry

  create_with_pid-ok :
      (pid entry arg : ℕ)
      → (create_with_pid api pid entry arg w).0 ≢ 0
      → create_with_pid api pid entry arg w ≡ (
        (api.alloc sizeof_process w.memory).0,
        fill_process api
            (api.alloc sizeof_process w.memory).0
            (new_object pid entry)
            (api.alloc process_stack_size after_space).0
            arg
            (record w { memory = (api.alloc process_stack_size after_space).1 }),
      )
  unfolding create_with_pid
  create_with_pid-ok pid entry arg ok = ground arith

  fill_process-Created :
      (pid space p stack entry arg : ℕ)
      → Tabled w.kernel
      → (0 < pid) × (pid < max_processes) × (kernel_process_get pid w.kernel ≡ 0)
      → stack + process_stack_size < 2 ^ 64
      → let w' = fill_process api p (object pid space entry) stack arg w in
        Created w.kernel w'.kernel w'.words entry arg p pid
  unfolding fill_process kernel_process_get
  fill_process-Created pid space p stack entry arg t free room =
      let w' = fill_process api p (object pid space entry) stack arg w in
      let held = same-at p (procs-register pid p _) ∙ write_self w.kernel.procs p _ in
      record {
        was_free = free;
        found = get-register pid p pid _ t free.0 free.1 ∙ ground arith;
        named = ap (λ (o : Process). o.pid) held;
        fresh = (ap (λ (o : Process). o.state) held, ap (λ (o : Process). o.vruntime) held);
        starts =
            subst (λ (o : Process). StartsAt w'.words o.rsp entry arg o.stack) (sym held)
              (initial_frame-StartsAt entry arg stack (clear_words stack process_stack_size w.words)
                room);
        others = λ j ne. get-register pid p j _ t free.0 free.1 ∙ ground arith;
        listed = ready_list-register pid p _;
        asleep = sleep_list-register pid p _;
        running = current-register pid p _;
      }

module _ (api : MemoryApi) (fit : StacksFit api) (w : World api) where
  -- A successful `create_process_common` returns a process that is registered under a free pid and
  -- that, when first run, starts at `entry` with `rdi_value` in rdi. The creation puts it on no list:
  -- the ready list and the sleep list are as they were, as is the running process. The allocator's
  -- stacks are taken to end below the end of the address space.
  pub create_process_common-Created :
      (entry arg : ℕ)
      → Tabled w.kernel
      → (create_process_common api entry arg w).0 ≢ 0
      → (pid : ℕ) × (kernel_process_allocate_pid w.kernel ≡ some pid)
        × (let (p, w') = create_process_common api entry arg w in
            Created w.kernel w'.kernel w'.words entry arg p pid)
  unfolding create_process_common create_for
  create_process_common-Created entry arg t ok = go (kernel_process_allocate_pid w.kernel) refl ok
    where
      go :
          (found : Option ℕ)
          → kernel_process_allocate_pid w.kernel ≡ found
          → (create_for api found entry arg w).0 ≢ 0
          → (pid : ℕ) × (kernel_process_allocate_pid w.kernel ≡ some pid)
            × (let (p, w') = create_for api found entry arg w in
                Created w.kernel w'.kernel w'.words entry arg p pid)
      go none e made = absurd (made refl)
      go (some pid) e made =
          let free = (kernel_process_allocate_pid_lem w.kernel).0 pid e in
          (
            pid,
            e,
            rw (create_with_pid-ok api w pid entry arg made) (
                fill_process-Created api
                  (record w { memory = (api.alloc process_stack_size (after_space api w)).1 }) pid _
                  _ _ entry arg t (free.0, free.1, free.2) (fit (after_space api w))),
          )
