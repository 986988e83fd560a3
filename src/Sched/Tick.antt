-- ===== src/Sched/Tick.antt =====
-- `scheduler_tick`: the loop over the sleep list.
use native.Mathlib.Decide.{ℕ_discrete}
use shahi_n_kernel.Prelude.{
  ◌∙◌, ℕ, zero, suc, ◌+◌, ◌-◌, ◌≤◌, ◌<◌, ◌≡◌, refl, ap, inl, inr, Bool, [], ◌∷◌, ◌++◌, arith, ◌==◌,
  leb, if◌then◌else◌, Bool-cases, length, get_or, length-append, drop,
}
use shahi_n_kernel.Prelude.Int.{pred, is_nonpos}
use shahi_n_kernel.Prelude.Count.{
  count, hit, swap_remove, count-append, count-swap_remove, length-swap_remove, count-drop_step,
  count-drop-swap_remove, count-drop_past, count-drop-le,
}
use shahi_n_kernel.Process.{Process, Kernel, max_processes}
use shahi_n_kernel.Sched.{tick_sleeper, tick_sleepers}

-- A sleeper is due if its ticks, one less, are not positive.
abbrev pub due : Kernel → ℕ → Bool
due k p = is_nonpos (pred (k.procs p).sleep_ticks)

-- What the tick makes of a sleeping process.
abbrev pub ticked : Kernel → ℕ → Process
ticked k p =
    if due k p
    then record (k.procs p) {
      sleep_ticks = pred (k.procs p).sleep_ticks;
      vruntime = k.global_min_vruntime;
    }
    else record (k.procs p) { sleep_ticks = pred (k.procs p).sleep_ticks }

-- One round of the loop, at the sleeper `p`.
record Round (i p : ℕ) (k k' : Kernel) (woken : Bool) : Type 0 where
  woke : woken ≡ due k p
  awake : k'.ready_list ≡ (if due k p then k.ready_list ++ (p ∷ []) else k.ready_list)
  asleep : k'.sleep_list ≡ (if due k p then swap_remove k.sleep_list i else k.sleep_list)
  same_min : k'.global_min_vruntime ≡ k.global_min_vruntime
  same_run : k'.current_process ≡ k.current_process
  changed : (q : ℕ) → k'.procs q ≡ (if q == p then ticked k p else k.procs q)

tick_sleeper-Round :
    (i : ℕ) (k : Kernel)
    → length k.ready_list < max_processes
    → Round i (get_or k.sleep_list i 0) k (tick_sleeper i k).0 (tick_sleeper i k).1
unfolding tick_sleeper
tick_sleeper-Round i k room = record {
  woke = ground arith;
  awake = ground arith;
  asleep = ground arith;
  same_min = ground arith;
  same_run = ground arith;
  changed = λ q. ground arith;
}

-- Where the process `q` is after a loop that still had `pending` entries of it before it.
record After (k k' : Kernel) (pending q : ℕ) : Type 0 where
  awake : count q k'.ready_list ≡ count q k.ready_list + (if due k q then pending else 0)
  asleep : count q k'.sleep_list ≡ count q k.sleep_list - (if due k q then pending else 0)
  held : k'.procs q ≡ (if pending == 0 then k.procs q else ticked k q)
  running : k'.current_process ≡ k.current_process

-- Every sleeper has one entry, and there is room in the ready list for all of them.
pub record Fits (k : Kernel) : Type 0 where
  pub single : (q : ℕ) → count q k.sleep_list ≤ 1
  pub room : length k.ready_list + length k.sleep_list ≤ max_processes

abbrev next_index : ℕ → Bool → ℕ
next_index i woken = if woken then i else suc i

module _ {i p : ℕ} {k k' : Kernel} {woken : Bool} (r : Round i p k k' woken)
    (h : i < length k.sleep_list) (e : get_or k.sleep_list i 0 ≡ p) where
  -- Behind the round stand the entries that stood behind the one at `i`.
  Round-pending :
      (q : ℕ)
      → count q (drop i k.sleep_list) ≡ hit q p + count q (drop (next_index i woken) k'.sleep_list)
  Round-pending q = ground (
    arith,
    r.woke,
    r.asleep,
    ap (hit q) e,
    count-drop_step q k.sleep_list i h,
    count-drop-swap_remove q k.sleep_list i h,
  )

  Round-asleep :
      (q : ℕ) → count q k'.sleep_list + (if due k p then hit q p else 0) ≡ count q k.sleep_list
  Round-asleep q = ground (arith, r.asleep, ap (hit q) e, count-swap_remove q k.sleep_list i h)

  Round-awake :
      (q : ℕ) → count q k'.ready_list ≡ count q k.ready_list + (if due k p then hit q p else 0)
  unfolding count
  Round-awake q = ground (arith, r.awake, count-append q k.ready_list (p ∷ []))

  Round-Fits : Fits k → Fits k'
  Round-Fits f = record {
    single = λ q. omega (arith, Round-asleep q, f.single q);
    room = ground (
      arith,
      r.awake,
      r.asleep,
      f.room,
      length-append k.ready_list (p ∷ []),
      length-swap_remove k.sleep_list i h,
    );
  }

  Round-fuel :
      (fuel : ℕ)
      → length k.sleep_list ≤ suc fuel + i
      → length k'.sleep_list ≤ fuel + next_index i woken
  Round-fuel fuel l = ground (arith, r.woke, r.asleep, length-swap_remove k.sleep_list i h)

  -- The process of the round itself has no further entry; every other is as it was before it.
  After-Round :
      {k'' : Kernel} (later q : ℕ)
      → hit q p + later ≤ 1
      → After k' k'' later q
      → After k k'' (hit q p + later) q
  After-Round later q one a = elim (ℕ_discrete q p) [
    | yes same ↦ record {
      awake = ground (arith, a.awake, Round-awake q, ap (due k) same);
      asleep = ground (arith, a.asleep, Round-asleep q, ap (due k) same);
      held = ground (arith, a.held, r.changed q, ap (ticked k) same);
      running = a.running ∙ r.same_run;
    }
    | no differs ↦ record {
      awake = ground (arith, a.awake, Round-awake q, r.changed q);
      asleep = ground (arith, a.asleep, Round-asleep q, r.changed q);
      held = ground (arith, a.held, r.changed q, r.same_min);
      running = a.running ∙ r.same_run;
    }
  ]

-- The loop, from the entry at `i` on: `length` rounds are enough fuel.
tick_sleepers-After :
    (fuel i : ℕ) (k : Kernel)
    → Fits k
    → length k.sleep_list ≤ fuel + i
    → (q : ℕ) → After k (tick_sleepers fuel i k) (count q (drop i k.sleep_list)) q
unfolding tick_sleepers
tick_sleepers-After zero i k f l q =
    let none_left = count-drop_past q k.sleep_list i (omega arith) in
    record {
      awake = ground (arith, none_left);
      asleep = ground (arith, none_left);
      held = ground (arith, none_left);
      running = refl;
    }
tick_sleepers-After (suc fuel) i k f l q = elim (Bool-cases (leb (length k.sleep_list) i)) [
  | inl past ↦
      let none_left = count-drop_past q k.sleep_list i (ground arith) in
      rw past (record {
        awake = ground (arith, none_left);
        asleep = ground (arith, none_left);
        held = ground (arith, none_left);
        running = refl;
      })
  | inr more ↦
      let within : i < length k.sleep_list = ground arith in
      let room : length k.ready_list < max_processes = omega (arith, f.room) in
      let r = tick_sleeper-Round i k room in
      let k' : Kernel = (tick_sleeper i k).0 in
      let i' : ℕ = next_index i (tick_sleeper i k).1 in
      let pending = Round-pending r within refl q in
      let one : hit q (get_or k.sleep_list i 0) + count q (drop i' k'.sleep_list) ≤ 1 =
        omega (arith, pending, f.single q, count-drop-le q k.sleep_list i) in
      let rest =
        tick_sleepers-After fuel i' k' (Round-Fits r within refl f)
          (Round-fuel r within refl fuel l) q in
      rw (more, pending) (After-Round r within refl (count q (drop i' k'.sleep_list)) q one rest)
]

-- What a tick does to each process `q`: a sleeper that is due moves from the sleep list to the
-- ready list, with the kernel's `global_min_vruntime` as its own; any other sleeper counts down; no
-- other process changes.
pub record Ticked (k k' : Kernel) (q : ℕ) : Type 0 where
  pub awake :
      count q k'.ready_list ≡ count q k.ready_list + (if due k q then count q k.sleep_list else 0)
  pub asleep : count q k'.sleep_list ≡ (if due k q then 0 else count q k.sleep_list)
  pub held : k'.procs q ≡ (if count q k.sleep_list == 0 then k.procs q else ticked k q)
  pub running : k'.current_process ≡ k.current_process

pub tick_sleepers-Ticked :
    (k : Kernel) → Fits k → (q : ℕ) → Ticked k (tick_sleepers (length k.sleep_list) 0 k) q
tick_sleepers-Ticked k f q =
    let a = tick_sleepers-After (length k.sleep_list) 0 k f (omega arith) q in
    record {
      awake = a.awake;
      asleep = ground (arith, a.asleep);
      held = a.held;
      running = a.running;
    }
