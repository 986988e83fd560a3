-- ===== src/Prelude/Find.antt =====
-- The first item of a table that a test holds of, how it is found after a change, and names.
use mathlib.Core.Option
use shahi_n_kernel.Prelude.{
  ◌≢◌, ◌<◌, ◌∙◌, ap, length, inr, Bool-cases, Option-cases, inl, ◌⊎◌, refl, ◌==◌, [], ◌++◌, set,
  arith, zero, suc, if◌then◌else◌, false, some, true, ◌∷◌, ◌≡◌, none, List, Bool, Option, ℕ,
}

module _ {ℓ} {A : Type ℓ} where
  unfoldable pub find_index : (A → Bool) → List A → Option ℕ
  find_index test [] = none
  find_index test (x ∷ xs) =
      let more = find_index test xs in if test x then some 0 else Option.map suc more

  unfoldable pub find : (A → Bool) → List A → Option A
  find test [] = none
  find test (x ∷ xs) = let more = find test xs in if test x then some x else more

  abbrev pub get_elem? : List A → ℕ → Option A
  get_elem? [] i = none
  get_elem? (x ∷ xs) zero = some x
  get_elem? (x ∷ xs) (suc i) = get_elem? xs i

  -- The item at an index, changed.
  unfoldable pub change : List A → ℕ → (A → A) → List A
  change xs i f = elim (get_elem? xs i) [ none ↦ xs | some x ↦ set xs i (f x) ]

-- `strcmp(a, b) == 0` of two names
unfoldable pub same_name : List ℕ → List ℕ → Bool
same_name [] [] = true
same_name [] (y ∷ b) = false
same_name (x ∷ a) [] = false
same_name (x ∷ a) (y ∷ b) = if x == y then same_name a b else false

pub same_name_self : (a : List ℕ) → same_name a a ≡ true
unfolding same_name
same_name_self [] = refl
same_name_self (x ∷ a) = ground (arith, same_name_self a)

pub same_name_sound : (a b : List ℕ) → same_name a b ≡ true → a ≡ b
unfolding same_name
same_name_sound [] [] e = refl
same_name_sound [] (y ∷ b) e = absurd (ground arith)
same_name_sound (x ∷ a) [] e = absurd (ground arith)
same_name_sound (x ∷ a) (y ∷ b) e = let more = same_name_sound a b in grind arith

module _ {ℓ} {A : Type ℓ} (test : A → Bool) where
  find_index-nil : (i : ℕ) → ¬ (find_index test [] ≡ some i)
  unfolding find_index
  find_index-nil i e = grind arith

  find_index-cases :
      (x : A) (xs : List A) (i : ℕ)
      → find_index test (x ∷ xs) ≡ some i
      → ((test x ≡ true) × (i ≡ 0))
        ⊎ ((j : ℕ) × (test x ≡ false) × (find_index test xs ≡ some j) × (i ≡ suc j))
  unfolding find_index
  find_index-cases x xs i e = elim (Bool-cases (test x)) [
    | inl t ↦ inl (t, ground (arith, e))
    | inr f ↦ elim (Option-cases (find_index test xs)) [
      | inl n ↦ absurd (ground (arith, e))
      | inr (j, q) ↦ inr (j, f, q, ground (arith, e))
    ]
  ]

  pub find_index-some :
      (xs : List A) (i : ℕ)
      → find_index test xs ≡ some i
      → (x : A) × (get_elem? xs i ≡ some x) × (test x ≡ true) × (find test xs ≡ some x)
  unfolding find_index find
  find_index-some [] i e = absurd (find_index-nil i e)
  find_index-some (x ∷ xs) i e = elim (find_index-cases x xs i e) [
    | inl (t, z) ↦ (x, rw z refl, t, rw t refl)
    | inr (j, f, q, z) ↦
        let (y, at_j, t, found) = find_index-some xs j q in (y, rw z at_j, t, rw f found)
  ]

  pub find_index-none : (xs : List A) → find_index test xs ≡ none → find test xs ≡ none
  unfolding find_index find
  find_index-none [] e = refl
  find_index-none (x ∷ xs) e = elim (Option-cases (find_index test xs)) [
    | inl n ↦ let more = find_index-none xs n in ground (arith, e, more)
    | inr (j, q) ↦ absurd (ground (arith, e, q))
  ]

  pub find-set :
      (xs : List A) (i : ℕ) (v : A)
      → find_index test xs ≡ some i
      → test v ≡ true
      → find test (set xs i v) ≡ some v
  unfolding find
  find-set [] i v e h = absurd (find_index-nil i e)
  find-set (x ∷ xs) i v e h = elim (find_index-cases x xs i e) [
    | inl (t, z) ↦ rw z (rw h refl)
    | inr (j, f, q, z) ↦ rw (z, f) (find-set xs j v q h)
  ]

  pub find-set_other :
      (other : A → Bool) (xs : List A) (i : ℕ) (v : A)
      → find_index test xs ≡ some i
      → ((x : A) → test x ≡ true → other x ≡ false)
      → test v ≡ true
      → find other (set xs i v) ≡ find other xs
  unfolding find
  find-set_other other [] i v e h hv = absurd (find_index-nil i e)
  find-set_other other (x ∷ xs) i v e h hv = elim (find_index-cases x xs i e) [
    | inl (t, z) ↦ rw z (rw (h v hv, h x t) refl)
    | inr (j, f, q, z) ↦ let more = find-set_other other xs j v q h hv in rw (z, more) refl
  ]

  pub find-append :
      (xs : List A) (v : A)
      → test v ≡ true
      → find test xs ≡ none
      → find test (xs ++ v ∷ []) ≡ some v
  unfolding find
  find-append [] v h e = rw h refl
  find-append (x ∷ xs) v h e =
      let more = find-append xs v h in
      elim (Bool-cases (test x)) [
        | inl t ↦ absurd (ground (arith, e))
        | inr f ↦ rw f (more (ground (arith, e)))
      ]

  pub find-append_other :
      (xs : List A) (v : A) → test v ≡ false → find test (xs ++ v ∷ []) ≡ find test xs
  unfolding find
  find-append_other [] v h = rw h refl
  find-append_other (x ∷ xs) v h = let more = find-append_other xs v h in rw more refl

module _ {ℓ} {A : Type ℓ} where
  pub change-found :
      (xs : List A) (i : ℕ) (f : A → A) (x : A)
      → get_elem? xs i ≡ some x
      → change xs i f ≡ set xs i (f x)
  unfolding change
  change-found xs i f x e = rw (change, e) refl

  pub last_item : (xs : List A) (x : A) → get_elem? (xs ++ x ∷ []) (length xs) ≡ some x
  last_item [] x = refl
  last_item (y ∷ xs) x = last_item xs x

  set_last : (xs : List A) (x y : A) → set (xs ++ x ∷ []) (length xs) y ≡ xs ++ y ∷ []
  set_last [] x y = refl
  set_last (z ∷ xs) x y = ap (λ ys. z ∷ ys) (set_last xs x y)

  pub change-last :
      (xs : List A) (x : A) (f : A → A) → change (xs ++ x ∷ []) (length xs) f ≡ xs ++ f x ∷ []
  change-last xs x f =
      change-found (xs ++ x ∷ []) (length xs) f x (last_item xs x) ∙ set_last xs x (f x)

  pub get_elem?-set :
      (xs : List A) (i : ℕ) (v : A) → i < length xs → get_elem? (set xs i v) i ≡ some v
  get_elem?-set [] i v h = absurd (omega arith)
  get_elem?-set (x ∷ xs) zero v h = refl
  get_elem?-set (x ∷ xs) (suc i) v h = get_elem?-set xs i v (omega arith)

  pub get_elem?-set_other :
      (xs : List A) (i j : ℕ) (v : A) → i ≢ j → get_elem? (set xs i v) j ≡ get_elem? xs j
  get_elem?-set_other [] i j v h = refl
  get_elem?-set_other (x ∷ xs) zero zero v h = absurd (h refl)
  get_elem?-set_other (x ∷ xs) zero (suc j) v h = refl
  get_elem?-set_other (x ∷ xs) (suc i) zero v h = refl
  get_elem?-set_other (x ∷ xs) (suc i) (suc j) v h =
      get_elem?-set_other xs i j v (λ e. h (ap (λ k. suc k) e))
