-- ===== src/Process.antt =====
-- The process engine and its types: `process_t`, the kernel's process table and the state that the
-- scheduler and the process engine share. A pointer to a process is a number, 0 the null pointer.
mod Tests
pub mod Table
pub mod Engine
use shahi_n_kernel.Prelude.{ℕ, List, ◌==◌, if◌then◌else◌}
use shahi_n_kernel.Prelude.Int.{ℤ}

abbrev pub max_processes : ℕ
max_processes = 256

pub data TaskState : Type 0 where
  ready waiting sleeping blocked_ipc : TaskState

-- `nice` is only ever set to 0; it is taken as a natural number.
pub record Process : Type 0 where
  pub pid : ℕ
  pub entry : ℕ
  pub rsp : ℕ
  pub stack : ℕ
  pub sleep_ticks : ℤ
  pub state : TaskState
  pub vruntime : ℕ
  pub nice : ℕ
  pub address_space : ℕ
  pub arg : ℕ
  pub app_context : ℕ

-- The process objects by address, the two lists of the scheduler (their entries below the count),
-- the globals, and the process table of the kernel's process manager.
pub record Kernel : Type 0 where
  pub procs : ℕ → Process
  pub ready_list : List ℕ
  pub sleep_list : List ℕ
  pub current_process : ℕ
  pub idle_p : ℕ
  pub global_min_vruntime : ℕ
  pub process_table : List ℕ

-- A write through a pointer to a process.
unfoldable pub write : (ℕ → Process) → ℕ → Process → ℕ → Process
write procs p v q = if q == p then v else procs q
