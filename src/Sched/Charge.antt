-- ===== src/Sched/Charge.antt =====
-- The first part of `scheduler_tick`: the charge of the running process.
use native.Mathlib.Nat.{le-div_iff_mul-le}
use shahi_n_kernel.Prelude.{
  List, ℕ, ◌+◌, ◌/◌, add64, ◌≤◌, ◌<◌, ◌≡◌, refl, ◌≢◌, inl, inr, false, ◌||◌, some, [], arith, ◌==◌,
  Bool-cases,
}
use shahi_n_kernel.Prelude.Count.{count}
use shahi_n_kernel.Process.{Process, Kernel}
use shahi_n_kernel.Sched.Choice.{min_of-attained, min_of-least}
use shahi_n_kernel.Sched.{min_of, weight_from_nice, charge, charge_current}

-- A running process other than the idle one.
abbrev pub Runs : Kernel → Type 0
Runs k = (k.current_process ≢ 0) × (k.current_process ≢ k.idle_p)

-- The charge of the running process changes nothing of the lists, and of the processes only the
-- virtual time of the running one, which grows by its charge. The least virtual time becomes the
-- least of those of the ready processes, and stays if there are none. If none but the idle process
-- runs, nothing changes.
pub record Charged (k k' : Kernel) : Type 0 where
  pub ready : k'.ready_list ≡ k.ready_list
  pub sleep : k'.sleep_list ≡ k.sleep_list
  pub running : k'.current_process ≡ k.current_process
  pub others : (q : ℕ) → q ≢ k.current_process → k'.procs q ≡ k.procs q
  pub ticks : (q : ℕ) → (k'.procs q).sleep_ticks ≡ (k.procs q).sleep_ticks
  pub paid :
      Runs k
      → (k'.procs k.current_process).vruntime
        ≡ add64
            (k.procs k.current_process).vruntime
            (1024 / (1024 / ((k.procs k.current_process).nice + 1)))
  pub least :
      Runs k → (q : ℕ) → 0 < count q k.ready_list → k'.global_min_vruntime ≤ (k'.procs q).vruntime
  pub attained :
      Runs k
      → k.ready_list ≢ []
      → (q : ℕ) × (0 < count q k.ready_list) × (k'.global_min_vruntime ≡ (k'.procs q).vruntime)
  pub none_ready : k.ready_list ≡ [] → k'.global_min_vruntime ≡ k.global_min_vruntime
  pub idle : ¬ (Runs k) → k' ≡ k

weight-pos : (nice : ℕ) → nice < 1024 → 0 < weight_from_nice nice
unfolding weight_from_nice
weight-pos nice h = (le-div_iff_mul-le (omega arith)).1 (omega arith)

min_of-none : (procs : ℕ → Process) (old : ℕ) (ps : List ℕ) → ps ≡ [] → min_of procs old ps ≡ old
unfolding min_of
min_of-none procs old ps h = rw h refl

charge-Charged :
    (k : Kernel) → Runs k → Charged k (charge (weight_from_nice (k.procs k.current_process).nice) k)
unfolding charge weight_from_nice
charge-Charged k r = record {
  ready = refl;
  sleep = refl;
  running = refl;
  others = λ q ne. ground arith;
  ticks = λ q. ground arith;
  paid = λ runs. ground arith;
  least = λ runs q h.
      min_of-least (charge (weight_from_nice (k.procs k.current_process).nice) k).procs
        k.global_min_vruntime k.ready_list q h;
  attained = λ runs some_ready.
      min_of-attained (charge (weight_from_nice (k.procs k.current_process).nice) k).procs
        k.global_min_vruntime k.ready_list some_ready;
  none_ready = λ h.
      min_of-none (charge (weight_from_nice (k.procs k.current_process).nice) k).procs
        k.global_min_vruntime k.ready_list h;
  idle = λ h. absurd (h r);
}

pub charge_current-Charged :
    (k : Kernel)
    → (k.procs k.current_process).nice < 1024
    → (k' : Kernel) × (charge_current k ≡ some k') × Charged k k'
unfolding charge_current
charge_current-Charged k h =
    elim (Bool-cases ((k.current_process == 0) || (k.current_process == k.idle_p))) [
      | inl idle ↦ rw idle (
        k,
        refl,
        record {
          ready = refl;
          sleep = refl;
          running = refl;
          others = λ q ne. refl;
          ticks = λ q. refl;
          paid = λ runs. absurd (ground (arith, runs));
          least = λ runs. absurd (ground (arith, runs));
          attained = λ runs. absurd (ground (arith, runs));
          none_ready = λ h. refl;
          idle = λ h. refl;
        },
      )
      | inr runs ↦
          let weight : ℕ = weight_from_nice (k.procs k.current_process).nice in
          let nonzero : (weight == 0) ≡ false = ground (arith, weight-pos _ h) in
          rw (runs, nonzero)
            (charge weight k, refl, charge-Charged k (ground (arith, runs), ground (arith, runs)))
    ]
