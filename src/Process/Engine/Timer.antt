-- ===== src/Process/Engine/Timer.antt =====
-- `process_on_timer_interrupt`: who runs next, and from where an interrupted process goes on.
use shahi_n_kernel.Prelude.{
  ℕ, ◌≡◌, refl, ◌≢◌, ◌⊎◌, none, some, List, [], ◌∷◌, arith, ltb, if◌then◌else◌,
}
use shahi_n_kernel.Process.{Process, Kernel}
use shahi_n_kernel.Process.Table.{kernel_process_current, kernel_process_switch}
use shahi_n_kernel.Sched.{best_from, next_of, scheduler_next}
use shahi_n_kernel.Process.Engine.{save_rsp, process_on_timer_interrupt}

best_from-ap :
    (procs procs' : ℕ → Process)
    → ((q : ℕ) → (procs' q).vruntime ≡ (procs q).vruntime)
    → (best : ℕ) (ps : List ℕ) → best_from procs' best ps ≡ best_from procs best ps
unfolding best_from
best_from-ap procs procs' same best [] = refl
best_from-ap procs procs' same best (p ∷ ps) =
    rw (same p, same best)
      (best_from-ap procs procs' same
        (if ltb (procs p).vruntime (procs best).vruntime then p else best) ps)

-- The choice of the next process looks at virtual times only.
next_of-ap :
    (procs procs' : ℕ → Process)
    → ((q : ℕ) → (procs' q).vruntime ≡ (procs q).vruntime)
    → (idle : ℕ) (ps : List ℕ) → next_of procs' idle ps ≡ next_of procs idle ps
unfolding next_of
next_of-ap procs procs' same idle [] = refl
next_of-ap procs procs' same idle (p ∷ ps) = best_from-ap procs procs' same p ps

module _ (rsp : ℕ) (k : Kernel) where
  vruntime-save_rsp : (q : ℕ) → ((save_rsp rsp k).procs q).vruntime ≡ (k.procs q).vruntime
  unfolding save_rsp
  vruntime-save_rsp q = ground arith

  lists-save_rsp :
      ((save_rsp rsp k).idle_p ≡ k.idle_p)
      × ((save_rsp rsp k).ready_list ≡ k.ready_list)
      × ((save_rsp rsp k).current_process ≡ k.current_process)
  unfolding save_rsp
  lists-save_rsp = (ground arith, ground arith, ground arith)

  scheduler_next-save_rsp : scheduler_next (save_rsp rsp k) ≡ scheduler_next k
  unfolding scheduler_next
  scheduler_next-save_rsp =
      rw (lists-save_rsp.0, lists-save_rsp.1)
        (next_of-ap k.procs (save_rsp rsp k).procs vruntime-save_rsp k.idle_p k.ready_list)

-- a process whose stack pointer the interrupt keeps
abbrev pub Kept : Kernel → ℕ → Type 0
Kept k p = (p ≡ k.current_process) × (p ≢ 0) × (p ≢ k.idle_p)

module _ (rsp : ℕ) (k : Kernel) where
  rsp_preserved : (p : ℕ) → Kept k p → ((save_rsp rsp k).procs p).rsp ≡ rsp
  unfolding save_rsp kernel_process_current
  rsp_preserved p kept = ground (arith, kept)

  rsp-other : (p : ℕ) → p ≢ k.current_process → (save_rsp rsp k).procs p ≡ k.procs p
  unfolding save_rsp kernel_process_current
  rsp-other p ne = ground arith

  -- Where the scheduler picks another process `next` than the current one, the interrupt returns to
  -- the stack pointer kept for `next`, loads its address space and makes it the current process.
  -- Where it picks the current one, or none, the interrupt returns to where it came from.
  pub process_on_timer_interrupt_lem :
      let ((back, space), k') = process_on_timer_interrupt rsp k in
      let next = scheduler_next k in
      (next ≢ 0
        → next ≢ k.current_process
        → (back ≡ (k.procs next).rsp)
          × (space ≡ some (k.procs next).address_space)
          × (k'.current_process ≡ next))
      × ((next ≡ 0) ⊎ (next ≡ k.current_process)
          → (back ≡ rsp) × (space ≡ none) × (k'.current_process ≡ k.current_process))
      × ((p : ℕ) → Kept k p → (k'.procs p).rsp ≡ rsp)
      × ((p : ℕ) → p ≢ k.current_process → k'.procs p ≡ k.procs p)
  unfolding process_on_timer_interrupt kernel_process_current kernel_process_switch
  process_on_timer_interrupt_lem =
      let next = scheduler_next-save_rsp rsp k in
      let same = lists-save_rsp rsp k in
      (
        λ some_next moves.
            let held = rsp-other (scheduler_next k) moves in
            (ground (arith, next, held), ground (arith, next, held), ground (arith, next)),
        λ stays. (
          ground (arith, next, stays),
          ground (arith, next, stays),
          ground (arith, next, stays, same),
        ),
        λ p kept. ground (arith, rsp_preserved p kept),
        λ p ne. ground (arith, rsp-other p ne),
      )

-- Where the scheduler picks another process than the current one, `p`, the interrupt returns to the
-- stack pointer kept for the one picked, loads its address space and makes it the current process;
-- the stack pointer of `p` is stored, unless `p` is the idle process.
pub process_on_timer_interrupt_switches :
    (rsp : ℕ) (k : Kernel) (p : ℕ)
    → scheduler_next k ≢ 0
    → scheduler_next k ≢ k.current_process
    → Kept k p
    → let ((back, space), k') = process_on_timer_interrupt rsp k in
      let next = scheduler_next k in
      (back ≡ (k.procs next).rsp)
      × (space ≡ some (k.procs next).address_space)
      × (k'.current_process ≡ next)
      × ((k'.procs p).rsp ≡ rsp)
process_on_timer_interrupt_switches rsp k p some_next moves kept =
    let all = process_on_timer_interrupt_lem rsp k in
    let switched = all.0 some_next moves in (switched.0, switched.1, switched.2, all.2 p kept)
