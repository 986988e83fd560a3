-- ===== src/Lang/Evaluate/Steps.antt =====
-- The operators on integers, where their result is one that 64 bits hold.
use mathlib.Core.Option.{some-injective}
use shahi_n_kernel.Lang.Value.Convert.{to_i64}
use shahi_n_kernel.Lang.Value.Coerce.{promote}
use shahi_n_kernel.Lang.Evaluate.{is_logical, apply}
use shahi_n_kernel.Lang.Evaluate.Meaning.{result}
use shahi_n_kernel.Prelude.Int.{
  pattern64, signed64, negsuc, ◌*ℤ◌, ◌-ℤ◌, ◌+ℤ◌, pos, eqb_ℤ, signed64-pattern64, rem, neg_ℤ, quot,
  ℤ, fits64,
}
use shahi_n_kernel.Lang.Value.{type_index, type_of, int_value, Floats}
use shahi_n_kernel.Lang.Value.Arith.{
  on_ints, mod_as, mod_values, div_as, div_values, mul_as, mul_values, sub_as, sub_values, add_as,
  add_values, rem_ints, quot_ints, checked, neg64, quot_overflows,
}
use shahi_n_kernel.Prelude.{
  ◌-◌, ◌^◌, ◌∙◌, sym, inr, arith, inl, Bool-cases, false, if◌then◌else◌, true, ◌≡◌, refl, none,
  some,
}
use shahi_n_kernel.Lang.Expression.{Op, and_then, ast_add, ast_sub, ast_mul, ast_div, ast_mod}

-- Only the least integer divided by -1 does not fit.
quot_overflows-cases :
    (x y : ℤ)
    → quot_overflows x y ≡ true
    → fits64 x ≡ true
    → (fits64 (quot x y) ≡ false) × (rem x y ≡ pos 0)
unfolding quot_overflows neg64 fits64 quot rem signed64 pattern64 neg_ℤ
quot_overflows-cases (pos n) y e h = absurd (ground (arith, e))
quot_overflows-cases (negsuc n) (pos m) e h = absurd (ground (arith, e))
quot_overflows-cases (negsuc n) (negsuc m) e h =
    let one : m ≡ 0 = ground (arith, e) in
    let least : n ≡ 2 ^ 63 - 1 = ground (arith, e, h) in rw (one, least) (refl, refl)

pub neg64-in_range : (x : ℤ) → fits64 (neg_ℤ x) ≡ true → neg64 x ≡ neg_ℤ x
unfolding neg64
neg64-in_range x h = signed64-pattern64 (neg_ℤ x) h

module _ (fs : Floats) where
  checked-fits :
      (op : ℤ → ℤ → ℤ) (rounded : fs.f64.Real → fs.f64.Real → fs.f64.Real) (x y z : ℤ)
      → some (op x y) ≡ some z
      → fits64 z ≡ true
      → checked fs op rounded x y ≡ some (int_value z)
  unfolding checked
  checked-fits op rounded x y z e h = rw (some-injective (op x y) z e, h) refl

  quot_ints-fits :
      (x y z : ℤ)
      → fits64 x ≡ true
      → (if eqb_ℤ y (pos 0) then none else some (quot x y)) ≡ some z
      → fits64 z ≡ true
      → quot_ints fs x y ≡ some (int_value z)
  unfolding quot_ints
  quot_ints-fits x y z fx e h = elim (Bool-cases (eqb_ℤ y (pos 0))) [
    | inl t ↦ absurd (ground (arith, e, t))
    | inr f ↦
        let same : quot x y ≡ z = some-injective (quot x y) z (ground (arith, e, f)) in
        elim (Bool-cases (quot_overflows x y)) [
          | inl o ↦ absurd (ground (arith, (quot_overflows-cases x y o fx).0, same, h))
          | inr n ↦ rw (f, n, same) refl
        ]
  ]

  rem_ints-fits :
      (x y z : ℤ)
      → fits64 x ≡ true
      → (if eqb_ℤ y (pos 0) then none else some (rem x y)) ≡ some z
      → rem_ints fs x y ≡ some (int_value z)
  unfolding rem_ints
  rem_ints-fits x y z fx e = elim (Bool-cases (eqb_ℤ y (pos 0))) [
    | inl t ↦ absurd (ground (arith, e, t))
    | inr f ↦
        let same : rem x y ≡ z = some-injective (rem x y) z (ground (arith, e, f)) in
        elim (Bool-cases (quot_overflows x y)) [
          | inl o ↦
              let zero_left = sym (quot_overflows-cases x y o fx).1 ∙ same in
              rw (f, o, zero_left) refl
          | inr n ↦ rw (f, n, same) refl
        ]
  ]

  pub apply-result :
      (op : Op) (x y z : ℤ)
      → fits64 x ≡ true
      → result op x y ≡ some z
      → fits64 z ≡ true
      → (is_logical op ≡ false) × (apply fs op (int_value x) (int_value y) ≡ some (int_value z))
  unfolding result apply add_values add_as sub_values sub_as mul_values mul_as div_values div_as
      mod_values mod_as promote type_of type_index on_ints to_i64 and_then is_logical
  apply-result ast_add x y z fx e h = (refl, checked-fits ◌+ℤ◌ fs.f64.add x y z e h)
  apply-result ast_sub x y z fx e h = (refl, checked-fits ◌-ℤ◌ fs.f64.sub x y z e h)
  apply-result ast_mul x y z fx e h = (refl, checked-fits ◌*ℤ◌ fs.f64.mul x y z e h)
  apply-result ast_div x y z fx e h = (refl, quot_ints-fits x y z fx e h)
  apply-result ast_mod x y z fx e h = (refl, rem_ints-fits x y z fx e)
  apply-result op x y z fx e h = absurd (ground (arith, e))
