-- ===== src/Process/Table.antt =====
-- The kernel's process manager: the table of processes by pid, and the current process.
pub mod Laws
use shahi_n_kernel.Prelude.{
  ℕ, zero, suc, ◌+◌, ◌-◌, Bool, ◌||◌, Option, none, some, ◌==◌, leb, if◌then◌else◌, get_or, set,
  replicate, List,
}
use shahi_n_kernel.Process.{Kernel, max_processes}

unfoldable pub kernel_process_manager_init : Kernel → Kernel
kernel_process_manager_init k = record k {
  current_process = 0;
  process_table = replicate max_processes 0;
}

-- The loop over the table: `rounds` more pids, from `i`.
unfoldable pub free_pid : (rounds i : ℕ) → List ℕ → Option ℕ
free_pid zero i table = none
free_pid (suc rounds) i table =
    let rest = free_pid rounds (i + 1) table in if get_or table i 0 == 0 then some i else rest

-- `none` is the -1 of a full table.
unfoldable pub kernel_process_allocate_pid : Kernel → Option ℕ
unfolding free_pid
kernel_process_allocate_pid k = free_pid (max_processes - 1) 1 k.process_table

-- The test `pid <= 0 || pid >= MAX_PROCESSES`. A negative pid is not modelled.
abbrev pub out_of_range : ℕ → Bool
out_of_range pid = (pid == 0) || leb max_processes pid

unfoldable pub kernel_process_register : ℕ → ℕ → Kernel → Kernel
kernel_process_register pid p k =
    if out_of_range pid then k else record k { process_table = set k.process_table pid p }

unfoldable pub kernel_process_get : ℕ → Kernel → ℕ
kernel_process_get pid k = if out_of_range pid then 0 else get_or k.process_table pid 0

unfoldable pub kernel_process_switch : ℕ → Kernel → Kernel
kernel_process_switch p k = record k { current_process = p }

unfoldable pub kernel_process_current : Kernel → ℕ
kernel_process_current k = k.current_process
