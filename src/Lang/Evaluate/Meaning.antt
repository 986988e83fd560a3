-- ===== src/Lang/Evaluate/Meaning.antt =====
-- The meaning of arithmetic over the integers, told apart from the evaluator, which reaches it.
use shahi_n_kernel.Lang.Value.Exact.{exact_bound}
use shahi_n_kernel.Prelude.Int.{rem, quot, pos, eqb_ℤ, ◌*ℤ◌, ◌-ℤ◌, fits64, neg_ℤ, ◌+ℤ◌, ℤ}
use shahi_n_kernel.Prelude.{
  inr, ap, inl, sym, ◌∙◌, Bool-cases, true, ◌%◌, ◌^◌, arith, leb, ◌+◌, ◌≡◌, ◌<◌, ◌≤◌, ◌*◌,
  if◌then◌else◌, List, refl, none, some, Option, ℕ, [], ◌∷◌,
}
use shahi_n_kernel.Lang.Grammar.{value, Expr, numeral, variable, quoted, negated, bracketed, binary}
use shahi_n_kernel.Lang.Expression.{and_then, Op, ast_add, ast_sub, ast_mul, ast_div, ast_mod}

-- An integer that 64 bits hold.
unfoldable pub in_range : ℤ → Option ℤ
in_range x = if fits64 x then some x else none

unfoldable pub result : Op → ℤ → ℤ → Option ℤ
result ast_add x y = some (x +ℤ y)
result ast_sub x y = some (x -ℤ y)
result ast_mul x y = some (x *ℤ y)
result ast_div x y = if eqb_ℤ y (pos 0) then none else some (quot x y)
result ast_mod x y = if eqb_ℤ y (pos 0) then none else some (rem x y)
result op x y = none

unfoldable pub operation : Op → ℤ → ℤ → Option ℤ
unfolding result in_range
operation op x y = and_then (result op x y) in_range

-- The number that decimal digits stand for.
unfoldable pub number : (before : ℕ) → List ℕ → ℕ
number before [] = before
number before (x ∷ digits) = number (before * 10 + x) digits

unfoldable pub small : ℕ → Option ℤ
small n = if leb n exact_bound then some (pos n) else none

-- The integer that an expression of `+`, `-`, `*`, `/` and `%` stands for where its variables stand
-- for some, if each part of it fits in 64 bits and its numerals in 53.
unfoldable pub meaning : (env : List ℕ → Option ℤ) → Expr → Option ℤ
unfolding operation in_range number small
meaning env (numeral digits) = small (number 0 digits)
meaning env (variable name) = and_then (env name) in_range
meaning env (quoted bytes) = none
meaning env (negated e) = and_then (meaning env e) λ x. in_range (neg_ℤ x)
meaning env (bracketed e) = meaning env e
meaning env (binary op m n l r) =
    and_then (meaning env l) λ x. and_then (meaning env r) λ y. operation op x y

number-ge : (before : ℕ) (digits : List ℕ) → before ≤ number before digits
unfolding number
number-ge before [] = omega arith
number-ge before (x ∷ digits) = omega (arith, number-ge (before * 10 + x) digits)

pub value-number :
    (before : ℕ) (digits : List ℕ)
    → number before digits < 2 ^ 64
    → value before digits ≡ number before digits
unfolding value number
value-number before [] h = refl
value-number before (x ∷ digits) h =
    let l = number-ge (before * 10 + x) digits in
    let same : (before * 10 + x) % 2 ^ 64 ≡ before * 10 + x = omega (arith, l, h) in
    rw same (value-number (before * 10 + x) digits h)

pub and_then-some {ℓ ℓ'} :
    {A : Type ℓ} {B : Type ℓ'} (o : Option A) (f : A → Option B) (b : B)
    → and_then o f ≡ some b
    → (a : A) × (o ≡ some a) × (f a ≡ some b)
unfolding and_then
and_then-some none f b e = absurd (ground (arith, e))
and_then-some (some a) f b e = (a, refl, e)

fits64-small : (n : ℕ) → n ≤ exact_bound → fits64 (pos n) ≡ true
unfolding fits64
fits64-small n h = ground (arith, h)

pub in_range-some : (x y : ℤ) → in_range x ≡ some y → (fits64 y ≡ true) × (x ≡ y)
unfolding in_range
in_range-some x y e = elim (Bool-cases (fits64 x)) [
  | inl t ↦ let same : x ≡ y = ground (arith, e, t) in (rw (sym same) t, same)
  | inr f ↦ absurd (ground (arith, e, f))
]

pub checked_some :
    (o : Option ℤ) (z : ℤ) → and_then o in_range ≡ some z → (o ≡ some z) × (fits64 z ≡ true)
checked_some o z e =
    let (x, at_x, fits) = and_then-some o in_range z e in
    let (t, same) = in_range-some x z fits in (at_x ∙ ap (λ y. some y) same, t)

pub small-some : (n : ℕ) (x : ℤ) → small n ≡ some x → (n ≤ exact_bound) × (pos n ≡ x)
unfolding small
small-some n x e = elim (Bool-cases (leb n exact_bound)) [
  | inl t ↦ (ground (arith, t), ground (arith, e, t))
  | inr f ↦ absurd (ground (arith, e, f))
]

-- The meaning of an expression fits in 64 bits.
pub meaning-fits :
    (env : List ℕ → Option ℤ) (e : Expr) (x : ℤ) → meaning env e ≡ some x → fits64 x ≡ true
unfolding meaning operation
meaning-fits env (numeral digits) x h =
    let (l, same) = small-some (number 0 digits) x h in
    let fits : fits64 (pos (number 0 digits)) ≡ true = fits64-small (number 0 digits) l in
    rw (sym same) fits
meaning-fits env (variable name) x h = (checked_some (env name) x h).1
meaning-fits env (quoted bytes) x h = absurd (ground (arith, h))
meaning-fits env (negated e) x h =
    let (y, at_y, r) = and_then-some (meaning env e) (λ x. in_range (neg_ℤ x)) x h in
    (in_range-some (neg_ℤ y) x r).0
meaning-fits env (bracketed e) x h = meaning-fits env e x h
meaning-fits env (binary op m n l r) x h =
    let (y, at_y, p) =
      and_then-some (meaning env l) (λ a. and_then (meaning env r) λ b. operation op a b) x h in
    let (z, at_z, q) = and_then-some (meaning env r) (λ b. operation op y b) x p in
    (checked_some (result op y z) x q).1
