-- ===== src/Sched/Choice.antt =====
-- What `scheduler_next`, `update_min_vruntime`, `scheduler_add` and `scheduler_remove` do to the
-- ready list.
use mathlib.Core.Path.{subst}
use shahi_n_kernel.Prelude.{
  inr, Bool-cases, inl, ◌⊎◌, ℕ, zero, suc, ◌+◌, ◌-◌, ◌≤◌, ◌<◌, ◌≡◌, refl, sym, ◌≢◌, Option, none,
  some, List, [], ◌∷◌, arith, ◌==◌, ltb, if◌then◌else◌, length, get_or,
}
use shahi_n_kernel.Prelude.Count.{count, hit, count-swap_remove, length-swap_remove}
use shahi_n_kernel.Process.{Process, Kernel}
use shahi_n_kernel.Sched.{
  min_from, best_from, next_of, min_of, scheduler_next, index_of, remove_at, remove_entry,
}

module _ (procs : ℕ → Process) where
  -- the process that one round of the search keeps
  abbrev better : ℕ → ℕ → ℕ
  better best p = if ltb (procs p).vruntime (procs best).vruntime then p else best

  best_from-cons :
      (best p : ℕ) (ps : List ℕ)
      → best_from procs best (p ∷ ps) ≡ best_from procs (better best p) ps
  unfolding best_from
  best_from-cons best p ps = refl

  best_from-nil : (best : ℕ) → best_from procs best [] ≡ best
  unfolding best_from
  best_from-nil best = refl

  -- `r` is `best` or one of `ps`, and none of these has run for less virtual time.
  abbrev Least : ℕ → ℕ → List ℕ → Type 0
  Least r best ps =
      ((procs r).vruntime ≤ (procs best).vruntime)
      × ((q : ℕ) → 0 < count q ps → (procs r).vruntime ≤ (procs q).vruntime)
      × (0 < hit r best + count r ps)

  Least-cons : (r best p : ℕ) (ps : List ℕ) → Least r (better best p) ps → Least r best (p ∷ ps)
  unfolding count
  Least-cons r best p ps h =
      (ground (arith, h.0), λ q m. ground (arith, h.0, h.1 q), ground (arith, h.2))

  best_from-Least : (best : ℕ) (ps : List ℕ) → Least (best_from procs best ps) best ps
  unfolding count
  best_from-Least best [] =
      rw (best_from-nil best) (omega arith, λ q h. absurd (omega arith), ground arith)
  best_from-Least best (p ∷ ps) =
      subst (λ r. Least r best (p ∷ ps)) (sym (best_from-cons best p ps))
        (Least-cons (best_from procs (better best p) ps) best p ps
          (best_from-Least (better best p) ps))

  min_from-least :
      (m : ℕ) (ps : List ℕ)
      → (min_from procs m ps ≤ m)
        × ((q : ℕ) → 0 < count q ps → min_from procs m ps ≤ (procs q).vruntime)
  unfolding min_from count
  min_from-least m [] = (omega arith, λ q h. absurd (omega arith))
  min_from-least m (p ∷ ps) =
      let ih = min_from-least (if ltb (procs p).vruntime m then (procs p).vruntime else m) ps in
      (ground (arith, ih.0), λ q h. ground (arith, ih.0, ih.1 q))

  next_of-least :
      (idle : ℕ) (ps : List ℕ)
      → (ps ≡ [] → next_of procs idle ps ≡ idle)
        × (ps ≢ [] → 0 < count (next_of procs idle ps) ps)
        × ((q : ℕ) → 0 < count q ps → (procs (next_of procs idle ps)).vruntime ≤ (procs q).vruntime)
  unfolding count next_of
  next_of-least idle [] = (λ h. refl, λ h. absurd (h refl), λ q h. absurd (omega arith))
  next_of-least idle (p ∷ ps) =
      let least = best_from-Least p ps in
      (λ h. absurd (ground arith), λ h. least.2, λ q h. ground (arith, least.0, least.1 q))

  pub min_of-least :
      (old : ℕ) (ps : List ℕ) (q : ℕ) → 0 < count q ps → min_of procs old ps ≤ (procs q).vruntime
  unfolding count min_of
  min_of-least old [] q h = absurd (omega arith)
  min_of-least old (p ∷ ps) q h =
      let least = min_from-least (procs p).vruntime ps in ground (arith, least.0, least.1 q)

  min_from-attained :
      (m : ℕ) (ps : List ℕ)
      → (min_from procs m ps ≡ m)
        ⊎ ((q : ℕ) × (0 < count q ps) × (min_from procs m ps ≡ (procs q).vruntime))
  unfolding min_from count
  min_from-attained m [] = inl refl
  min_from-attained m (p ∷ ps) =
      let m' : ℕ = if ltb (procs p).vruntime m then (procs p).vruntime else m in
      elim (min_from-attained m' ps) [
        | inl e ↦ elim (Bool-cases (ltb (procs p).vruntime m)) [
          | inl t ↦ inr (p, ground arith, ground (arith, e, t))
          | inr f ↦ inl (ground (arith, e, f))
        ]
        | inr (q, member, e) ↦ inr (q, ground (arith, member), e)
      ]

  -- The least virtual time of a nonempty list is the one of an entry.
  pub min_of-attained :
      (old : ℕ) (ps : List ℕ)
      → ps ≢ []
      → (q : ℕ) × (0 < count q ps) × (min_of procs old ps ≡ (procs q).vruntime)
  unfolding count min_of
  min_of-attained old [] h = absurd (h refl)
  min_of-attained old (p ∷ ps) h = elim (min_from-attained (procs p).vruntime ps) [
    | inl e ↦ (p, ground arith, e)
    | inr (q, member, e) ↦ (q, ground (arith, member), e)
  ]

-- `scheduler_next` picks from a nonempty ready list one of its entries, and none of the entries has
-- run for less virtual time. On an empty list it picks the idle process.
pub scheduler_next-least :
    (k : Kernel)
    → (k.ready_list ≡ [] → scheduler_next k ≡ k.idle_p)
      × (k.ready_list ≢ [] → 0 < count (scheduler_next k) k.ready_list)
      × ((q : ℕ)
          → 0 < count q k.ready_list
          → (k.procs (scheduler_next k)).vruntime ≤ (k.procs q).vruntime)
unfolding scheduler_next
scheduler_next-least k = next_of-least k.procs k.idle_p k.ready_list

ready_list-occupied : (q : ℕ) (ps : List ℕ) → 0 < count q ps → ps ≢ []
unfolding count
ready_list-occupied q [] h e = absurd (omega arith)
ready_list-occupied q (p ∷ ps) h e = cc

-- Where a process `q` is ready, `scheduler_next` picks a ready process, and one that has run for no
-- more virtual time than `q`.
pub scheduler_next_fair :
    (k : Kernel) (q : ℕ)
    → 0 < count q k.ready_list
    → (0 < count (scheduler_next k) k.ready_list)
      × ((k.procs (scheduler_next k)).vruntime ≤ (k.procs q).vruntime)
scheduler_next_fair k q h =
    let least = scheduler_next-least k in
    (least.1 (ready_list-occupied q k.ready_list h), least.2 q h)

index_of-some :
    (p : ℕ) (xs : List ℕ) (i : ℕ) → index_of p xs ≡ some i → (i < length xs) × (get_or xs i 0 ≡ p)
unfolding index_of
index_of-some p [] i e = cc
index_of-some p (x ∷ xs) zero e = (omega arith, ground arith)
index_of-some p (x ∷ xs) (suc i) e = ground (arith, index_of-some p xs i)

index_of-none : (p : ℕ) (xs : List ℕ) → index_of p xs ≡ none → count p xs ≡ 0
unfolding index_of count
index_of-none p [] e = refl
index_of-none p (x ∷ xs) e = ground (arith, index_of-none p xs)

count-remove_at :
    (p : ℕ) (xs : List ℕ) (q : ℕ) (at : Option ℕ)
    → index_of p xs ≡ at
    → count q (remove_at xs at) ≡ (if q == p then count q xs - 1 else count q xs)
unfolding remove_at
count-remove_at p xs q none e = ground (arith, index_of-none p xs e)
count-remove_at p xs q (some i) e =
    let at_i = index_of-some p xs i e in ground (arith, count-swap_remove q xs i at_i.0, at_i.1)

length-remove_at :
    (p : ℕ) (xs : List ℕ) (at : Option ℕ)
    → index_of p xs ≡ at
    → length (remove_at xs at) ≤ length xs
unfolding remove_at
length-remove_at p xs none e = omega arith
length-remove_at p xs (some i) e = omega (arith, length-swap_remove xs i (index_of-some p xs i e).0)

-- The removal of a process from a list takes away one of its entries, if it has one, and leaves
-- every other process there as often as it was.
pub count-remove_entry :
    (p : ℕ) (xs : List ℕ) (q : ℕ)
    → count q (remove_entry p xs) ≡ (if q == p then count q xs - 1 else count q xs)
unfolding remove_entry
count-remove_entry p xs q = count-remove_at p xs q (index_of p xs) refl

pub length-remove_entry : (p : ℕ) (xs : List ℕ) → length (remove_entry p xs) ≤ length xs
unfolding remove_entry
length-remove_entry p xs = length-remove_at p xs (index_of p xs) refl
