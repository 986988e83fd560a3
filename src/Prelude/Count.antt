-- ===== src/Prelude/Count.antt =====
-- How often an item stands in an array of pointers, and the removal of an entry by the last one.
use native.Mathlib.Decide.{ℕ_discrete}
use shahi_n_kernel.Prelude.{
  ℕ, zero, suc, ◌+◌, ◌-◌, ◌<◌, ◌≤◌, ◌≡◌, refl, List, [], ◌∷◌, ◌++◌, arith, ◌==◌, if◌then◌else◌,
  length, get_or, set, take, drop, length-set, length-take, sym, ap, ◌∙◌, get_or-set_self,
  get_or-set_ne,
}

-- 1 where the test holds
abbrev pub hit : ℕ → ℕ → ℕ
hit a b = if a == b then 1 else 0

unfoldable pub count : ℕ → List ℕ → ℕ
count a [] = 0
count a (x ∷ xs) = hit a x + count a xs

-- `list[i] = list[--count]`
unfoldable pub swap_remove : List ℕ → ℕ → List ℕ
swap_remove xs i = take (length xs - 1) (set xs i (get_or xs (length xs - 1) 0))

pub count-append : (a : ℕ) (xs ys : List ℕ) → count a (xs ++ ys) ≡ count a xs + count a ys
unfolding count
count-append a [] ys = omega arith
count-append a (x ∷ xs) ys = omega (arith, count-append a xs ys)

count-set :
    (a : ℕ) (xs : List ℕ) (i v : ℕ)
    → i < length xs
    → count a (set xs i v) + hit a (get_or xs i 0) ≡ count a xs + hit a v
unfolding count
count-set a [] i v h = absurd (omega arith)
count-set a (x ∷ xs) zero v h = omega arith
count-set a (x ∷ xs) (suc i) v h = omega (arith, count-set a xs i v (omega arith))

count-take_all_but_last :
    (a : ℕ) (xs : List ℕ) (n : ℕ)
    → length xs ≡ suc n
    → count a (take n xs) + hit a (get_or xs n 0) ≡ count a xs
unfolding count
count-take_all_but_last a [] n h = absurd (omega arith)
count-take_all_but_last a (x ∷ []) zero h = omega arith
count-take_all_but_last a (x ∷ y ∷ xs) zero h = absurd (omega arith)
count-take_all_but_last a (x ∷ xs) (suc n) h =
    omega (arith, count-take_all_but_last a xs n (omega arith))

pub count-swap_remove :
    (a : ℕ) (xs : List ℕ) (i : ℕ)
    → i < length xs
    → count a (swap_remove xs i) + hit a (get_or xs i 0) ≡ count a xs
unfolding swap_remove
count-swap_remove a xs i h =
    let n : ℕ = length xs - 1 in
    let v : ℕ = get_or xs n 0 in
    omega (
      arith,
      count-set a xs i v h,
      count-take_all_but_last a (set xs i v) n (omega (arith, length-set xs i v)),
      ap (hit a) (last_of_set xs i n v (omega arith) (omega arith) refl),
    )
  where
    last_of_set :
        (xs : List ℕ) (i n v : ℕ)
        → i ≤ n
        → n < length xs
        → v ≡ get_or xs n 0
        → get_or (set xs i v) n 0 ≡ v
    last_of_set xs i n v le lt e = elim (ℕ_discrete i n) [
      | yes p ↦ rw (← p) (get_or-set_self xs i v 0 (omega arith))
      | no p ↦ get_or-set_ne xs i n v 0 p ∙ sym e
    ]

pub length-swap_remove :
    (xs : List ℕ) (i : ℕ) → i < length xs → length (swap_remove xs i) + 1 ≡ length xs
unfolding swap_remove
length-swap_remove xs i h =
    let v : ℕ = get_or xs (length xs - 1) 0 in
    omega (
      arith,
      length-take (length xs - 1) (set xs i v) (omega (arith, length-set xs i v)),
      length-set xs i v,
    )

-- The entries from index `i` on: the first of them, and what a removal at `i` leaves there.
pub count-drop_step :
    (a : ℕ) (xs : List ℕ) (i : ℕ)
    → i < length xs
    → count a (drop i xs) ≡ hit a (get_or xs i 0) + count a (drop (suc i) xs)
unfolding count
count-drop_step a [] i h = absurd (omega arith)
count-drop_step a (x ∷ xs) zero h = refl
count-drop_step a (x ∷ xs) (suc i) h = count-drop_step a xs i (omega arith)

count-drop-take-set :
    (a : ℕ) (xs : List ℕ) (i n v : ℕ)
    → length xs ≡ suc n
    → i ≤ n
    → v ≡ get_or xs n 0
    → count a (drop i (take n (set xs i v))) ≡ count a (drop (suc i) xs)
unfolding count
count-drop-take-set a [] i n v h le e = absurd (omega arith)
count-drop-take-set a (x ∷ []) zero zero v h le e = refl
count-drop-take-set a (x ∷ xs) zero (suc n) v h le e =
    omega (arith, count-take_all_but_last a xs n (omega arith), ap (hit a) e)
count-drop-take-set a (x ∷ y ∷ xs) zero zero v h le e = absurd (omega arith)
count-drop-take-set a (x ∷ xs) (suc i) zero v h le e = absurd (omega arith)
count-drop-take-set a (x ∷ xs) (suc i) (suc n) v h le e =
    count-drop-take-set a xs i n v (omega arith) (omega arith) e

pub count-drop-swap_remove :
    (a : ℕ) (xs : List ℕ) (i : ℕ)
    → i < length xs
    → count a (drop i (swap_remove xs i)) ≡ count a (drop (suc i) xs)
unfolding swap_remove
count-drop-swap_remove a xs i h =
    count-drop-take-set a xs i (length xs - 1) (get_or xs (length xs - 1) 0) (omega arith)
      (omega arith) refl

pub count-drop_past : (a : ℕ) (xs : List ℕ) (i : ℕ) → length xs ≤ i → count a (drop i xs) ≡ 0
unfolding count
count-drop_past a [] zero h = refl
count-drop_past a [] (suc i) h = refl
count-drop_past a (x ∷ xs) zero h = absurd (omega arith)
count-drop_past a (x ∷ xs) (suc i) h = count-drop_past a xs i (omega arith)

pub count-drop-le : (a : ℕ) (xs : List ℕ) (i : ℕ) → count a (drop i xs) ≤ count a xs
unfolding count
count-drop-le a [] zero = omega arith
count-drop-le a [] (suc i) = omega arith
count-drop-le a (x ∷ xs) zero = omega arith
count-drop-le a (x ∷ xs) (suc i) = omega (arith, count-drop-le a xs i)
