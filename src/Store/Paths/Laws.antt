-- ===== src/Store/Paths/Laws.antt =====
-- The search finds the first child of the name; the walk goes on from where a prefix leads; the
-- parent and the name are the path's two parts.
use shahi_n_kernel.Prelude.{
  ℕ, zero, suc, ◌+◌, ◌≤◌, ◌<◌, ◌≡◌, inl, inr, refl, ap, true, false, Option, none, some, List, [],
  ◌∷◌, ◌++◌, ◌==◌, arith, Bool-cases,
}
use mathlib.Core.Option
use mathlib.Core.Path.{subst}
use shahi_n_kernel.Store.Disk.{Bytes, max_files}
use shahi_n_kernel.Store.Paths.{
  slash, is_child, find_from, arabfs_find_entry, enter, resolve_from, arabfs_resolve,
}

bind_through :
    (o : Option ℕ) (f g h : ℕ → Option ℕ)
    → ((x : ℕ) → f x ≡ Option.bind (g x) h)
    → Option.bind o f ≡ Option.bind (Option.bind o g) h
unfolding Option.bind
bind_through none f g h e = refl
bind_through (some x) f g h e = e x

-- The walk over a path goes on, at a slash, from where the path before it leads.
resolve_from-append :
    (current : ℕ) (name p q : List ℕ) (table : Bytes)
    → resolve_from current name (p ++ slash ∷ q) table
      ≡ Option.bind (resolve_from current name p table) (λ next. resolve_from next [] q table)
unfolding resolve_from
resolve_from-append current name [] q table = refl
resolve_from-append current name (c ∷ p) q table = elim (Bool-cases (c == slash)) [
  | inl e ↦ rw e (
      bind_through (enter current name table) (λ next. resolve_from next [] (p ++ slash ∷ q) table)
        (λ next. resolve_from next [] p table) (λ next. resolve_from next [] q table)
        (λ next. resolve_from-append next [] p q table))
  | inr e ↦ rw e (resolve_from-append current (name ++ c ∷ []) p q table)
]

-- The walk along `p/q` is the walk along `p` and, from the entry that it ends at, along `q`.
pub arabfs_resolve-append :
    (p q : List ℕ) (table : Bytes)
    → arabfs_resolve (p ++ slash ∷ q) table
      ≡ Option.bind (arabfs_resolve p table) (λ folder. resolve_from folder [] q table)
unfolding arabfs_resolve
arabfs_resolve-append p q table = resolve_from-append 0 [] p q table

-- The search's answer: an entry that matches, where none before it does, or none, where none does.
pub Finds : (lo hi : ℕ) (name : List ℕ) (parent : ℕ) → Bytes → Option ℕ → Type 0
Finds lo hi name parent table none =
    (j : ℕ) → lo ≤ j → j < hi → is_child name parent j table ≡ false
Finds lo hi name parent table (some k) =
    (is_child name parent k table ≡ true)
    × (lo ≤ k)
    × (k < hi)
    × ((j : ℕ) → lo ≤ j → j < k → is_child name parent j table ≡ false)

find_step :
    (lo hi : ℕ) (name : List ℕ) (parent : ℕ) (table : Bytes) (found : Option ℕ)
    → is_child name parent lo table ≡ false
    → Finds (suc lo) hi name parent table found
    → Finds lo hi name parent table found
unfolding Finds
find_step lo hi name parent table none misses h = λ j a b.
    let later = h j in
    let here = λ (e : j ≡ lo). ap (λ t. is_child name parent t table) e in
    ground (arith, later, here, misses)
find_step lo hi name parent table (some k) misses h = (
  h.0,
  omega (arith, h.1),
  h.2,
  λ j a b.
      let later = h.3 j in
      let here = λ (e : j ≡ lo). ap (λ t. is_child name parent t table) e in
      ground (arith, later, here, misses),
)

next_hi : (k rounds : ℕ) → suc k + rounds ≡ k + suc rounds
next_hi k rounds = omega arith

find_from-Finds :
    (rounds k : ℕ) (name : List ℕ) (parent : ℕ) (table : Bytes)
    → Finds k (k + rounds) name parent table (find_from rounds k name parent table)
unfolding find_from Finds
find_from-Finds zero k name parent table = λ j a b. absurd (omega arith)
find_from-Finds (suc rounds) k name parent table =
    let later : Finds (suc k) (k + suc rounds) name parent table
        (find_from rounds (suc k) name parent table) =
      subst (λ hi. Finds (suc k) hi name parent table (find_from rounds (suc k) name parent table))
        (next_hi k rounds) (find_from-Finds rounds (suc k) name parent table) in
    elim (Bool-cases (is_child name parent k table)) [
      | inl e ↦ rw e (e, omega arith, omega arith, λ j a b. absurd (omega arith))
      | inr e ↦ rw e (
          find_step k (k + suc rounds) name parent table
            (find_from rounds (suc k) name parent table) e later)
    ]

-- `arabfs_find_entry` finds the first used entry of the folder that has the name, and fails only
-- where no entry of the table is such.
pub arabfs_find_entry-Finds :
    (name : List ℕ) (parent : ℕ) (table : Bytes)
    → Finds 0 max_files name parent table (arabfs_find_entry name parent table)
unfolding arabfs_find_entry
arabfs_find_entry-Finds name parent table = find_from-Finds max_files 0 name parent table
