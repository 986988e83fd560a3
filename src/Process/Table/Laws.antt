-- ===== src/Process/Table/Laws.antt =====
-- Pids: the process manager hands out the lowest free one, and finds what was registered under it.
use native.Mathlib.Decide.{ℕ_discrete}
use shahi_n_kernel.Prelude.{
  ℕ, zero, suc, ◌+◌, ◌-◌, ◌≤◌, ◌<◌, ◌≡◌, ◌≢◌, inl, inr, none, some, List, arith, ◌==◌,
  if◌then◌else◌, Bool-cases, length, get_or, get_or-set_self, get_or-set_ne,
}
use shahi_n_kernel.Process.{Kernel, max_processes}
use shahi_n_kernel.Process.Table.{
  free_pid, kernel_process_allocate_pid, kernel_process_register, kernel_process_get,
}

-- The table has an entry for every pid below the maximum.
abbrev pub Tabled : Kernel → Type 0
Tabled k = length k.process_table ≡ max_processes

free_pid-some :
    (rounds i : ℕ) (table : List ℕ) (pid : ℕ)
    → free_pid rounds i table ≡ some pid
    → (i ≤ pid)
      × (pid < i + rounds)
      × (get_or table pid 0 ≡ 0)
      × ((j : ℕ) → i ≤ j → j < pid → get_or table j 0 ≢ 0)
unfolding free_pid
free_pid-some zero i table pid e = cc
free_pid-some (suc rounds) i table pid e = elim (Bool-cases (get_or table i 0 == 0)) [
  | inl free ↦
      let same : i ≡ pid = ground arith in
      (omega arith, omega arith, rw (← same) (ground arith), λ j lo hi. absurd (omega arith))
  | inr used ↦
      let ih = free_pid-some rounds (i + 1) table pid (rw used at e) in
      (
        omega arith,
        omega arith,
        ih.2,
        λ j lo hi. elim (ℕ_discrete i j) [
          | yes p ↦ rw (← p) (ground arith)
          | no p ↦ ih.3 j (omega arith) hi
        ],
      )
]

free_pid-none :
    (rounds i : ℕ) (table : List ℕ)
    → free_pid rounds i table ≡ none
    → (j : ℕ) → i ≤ j
    → j < i + rounds
    → get_or table j 0 ≢ 0
unfolding free_pid
free_pid-none zero i table e j lo hi = absurd (omega arith)
free_pid-none (suc rounds) i table e j lo hi = elim (ℕ_discrete i j) [
  | yes p ↦ rw (← p) (ground arith)
  | no p ↦ free_pid-none rounds (i + 1) table (ground arith) j (omega arith) (omega arith)
]

-- The pid that is handed out lies from 1 to 255, names no process, and is the lowest such; and there
-- is one as long as any pid of that range is free.
pub kernel_process_allocate_pid_lem :
    (k : Kernel)
    → ((pid : ℕ)
        → kernel_process_allocate_pid k ≡ some pid
        → (0 < pid)
          × (pid < max_processes)
          × (kernel_process_get pid k ≡ 0)
          × ((j : ℕ) → 0 < j → j < pid → kernel_process_get j k ≢ 0))
      × (kernel_process_allocate_pid k ≡ none
          → (j : ℕ) → 0 < j
          → j < max_processes
          → kernel_process_get j k ≢ 0)
unfolding kernel_process_allocate_pid kernel_process_get
kernel_process_allocate_pid_lem k = (
  λ pid e.
      let found = free_pid-some (max_processes - 1) 1 k.process_table pid e in
      (
        found.0,
        omega (arith, found.1),
        ground (arith, found.2),
        λ j lo hi z. found.3 j lo hi (ground arith),
      ),
  λ e j lo hi z.
      free_pid-none (max_processes - 1) 1 k.process_table e j lo (omega arith) (ground arith),
)

-- The pid that is handed out lies from 1 to 255 and names no process, and no lower one is free.
pub kernel_process_allocate_pid_lowest :
    (k : Kernel) (pid j : ℕ)
    → kernel_process_allocate_pid k ≡ some pid
    → 0 < j
    → kernel_process_get j k ≡ 0
    → (0 < pid) × (pid < max_processes) × (kernel_process_get pid k ≡ 0) × (pid ≤ j)
kernel_process_allocate_pid_lowest k pid j e lo free =
    let found = (kernel_process_allocate_pid_lem k).0 pid e in
    let below = found.3 j lo in (found.0, found.1, found.2, ground (arith, below, free))

-- Where no pid is handed out, every pid from 1 to 255 names a process.
pub kernel_process_allocate_pid_full :
    (k : Kernel) (j : ℕ)
    → kernel_process_allocate_pid k ≡ none
    → 0 < j
    → j < max_processes
    → kernel_process_get j k ≢ 0
kernel_process_allocate_pid_full k j e lo hi = (kernel_process_allocate_pid_lem k).1 e j lo hi

-- A lookup after a registration finds the process registered, under that pid, and what was there
-- before, under any other.
pub get-register :
    (pid p j : ℕ) (k : Kernel)
    → Tabled k
    → 0 < pid
    → pid < max_processes
    → kernel_process_get j (kernel_process_register pid p k)
      ≡ (if j == pid then p else kernel_process_get j k)
unfolding kernel_process_get kernel_process_register
get-register pid p j k t lo hi = elim (ℕ_discrete pid j) [
  | yes e ↦ ground (arith, get_or-set_self k.process_table pid p 0 (omega arith), e)
  | no ne ↦ ground (arith, get_or-set_ne k.process_table pid j p 0 ne)
]

-- A registration changes the table only.
pub procs-register : (pid p : ℕ) (k : Kernel) → (kernel_process_register pid p k).procs ≡ k.procs
unfolding kernel_process_register
procs-register pid p k = ground arith

pub sleep_list-register :
    (pid p : ℕ) (k : Kernel) → (kernel_process_register pid p k).sleep_list ≡ k.sleep_list
unfolding kernel_process_register
sleep_list-register pid p k = ground arith

pub current-register :
    (pid p : ℕ) (k : Kernel) → (kernel_process_register pid p k).current_process ≡ k.current_process
unfolding kernel_process_register
current-register pid p k = ground arith

pub ready_list-register :
    (pid p : ℕ) (k : Kernel) → (kernel_process_register pid p k).ready_list ≡ k.ready_list
unfolding kernel_process_register
ready_list-register pid p k = ground arith
