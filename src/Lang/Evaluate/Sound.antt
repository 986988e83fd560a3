-- ===== src/Lang/Evaluate/Sound.antt =====
-- The evaluator reaches the meaning.
use shahi_n_kernel.Lang.Value.Arith.{neg_value}
use shahi_n_kernel.Lang.Evaluate.Steps.{neg64-in_range, apply-result}
use shahi_n_kernel.Lang.Grammar.Round.{math_parse_ast-text}
use shahi_n_kernel.Lang.Value.Convert.{to_f64}
use shahi_n_kernel.Lang.Expression.{and_then, Op}
use shahi_n_kernel.Lang.Evaluate.Meaning.{
  meaning-fits, result, in_range-some, in_range, and_then-some, checked_some, value-number,
  operation, small-some, meaning, number, small,
}
use shahi_n_kernel.Prelude.Int.{fits64, pos, neg_ℤ, magnitude, ℤ, signed64}
use shahi_n_kernel.Lang.Evaluate.{
  returns, apply, is_logical, doubles, Runs, continue, bind, math_calculate, evaluate, operate,
  is_whole, Host, number_value,
}
use shahi_n_kernel.Lang.Value.Exact.{exact_bound, IsExact}
use shahi_n_kernel.Lang.Value.{Value, int_value, Floats}
use shahi_n_kernel.Prelude.{
  ap, ◌∙◌, ◌≤◌, ◌^◌, ltb, arith, ◌≡◌, List, true, false, refl, some, Option, ℕ,
}
use shahi_n_kernel.Lang.Grammar.{
  text, Fits, value, tree, Expr, numeral, variable, quoted, negated, bracketed, binary,
}

module _ (fs : Floats) (exact : IsExact fs.f64) where
  -- A numeral that 53 bits hold becomes the integer that it is.
  number_value-small :
      (digits : List ℕ) (x : ℤ)
      → small (number 0 digits) ≡ some x
      → number_value fs (fs.f64.of_int (signed64 (value 0 digits))) ≡ int_value x
  unfolding number_value is_whole signed64
  number_value-small digits x h =
      let (l, same) = small-some (number 0 digits) x h in
      let n : ℕ = number 0 digits in
      let read = value-number 0 digits (omega (arith, l)) in
      let positive : ltb n (2 ^ 63) ≡ true = ground (arith, l) in
      let m : magnitude (pos n) ≤ exact_bound = omega (arith, l) in
      rw (read, positive, exact.to_i64-of_int (pos n) m)
        (rw
          (exact.eq-of_int (pos n) m, exact.above_least (pos n) m, exact.below_most (pos n) m, same)
          refl)

  module _ (host : Host fs) (s : host.State) (env : List ℕ → Option ℤ) where
    -- What the variables hold, by the environment.
    unfoldable pub Holds : Type 0
    Holds =
        (name : List ℕ) (x : ℤ)
        → env name ≡ some x
        → host.get_value name s ≡ (some (int_value x), s)

    operate_lem :
        (op : Op) (l r : Runs host.State (Value fs)) (a b : Value fs)
        → is_logical op ≡ false
        → l s ≡ (some a, s)
        → r s ≡ (some b, s)
        → operate fs host op l r s ≡ (apply fs op a b, s)
    unfolding operate bind continue
    operate_lem op l r a b plain hl hr = rw (plain, hl, hr) refl

    negate_lem :
        (m : Runs host.State (Value fs)) (y : ℤ)
        → fits64 (neg_ℤ y) ≡ true
        → m s ≡ (some (int_value y), s)
        → bind m (λ v. returns (neg_value fs v)) s ≡ (some (int_value (neg_ℤ y)), s)
    unfolding bind continue neg_value
    negate_lem m y fits h = rw (h, neg64-in_range y fits) refl

    pub evaluate-meaning :
        (e : Expr) (x : ℤ)
        → Holds
        → meaning env e ≡ some x
        → evaluate fs host (tree (doubles fs) e) s ≡ (some (int_value x), s)
    unfolding evaluate tree meaning Holds operation
    evaluate-meaning (numeral digits) x hold h = rw (number_value-small digits x h) refl
    evaluate-meaning (variable name) x hold h = hold name x (checked_some (env name) x h).0
    evaluate-meaning (quoted bytes) x hold h = absurd (ground (arith, h))
    evaluate-meaning (negated e) x hold h =
        let (y, at_y, r) = and_then-some (meaning env e) (λ x. in_range (neg_ℤ x)) x h in
        let (fits, same) = in_range-some (neg_ℤ y) x r in
        let fits_y : fits64 (neg_ℤ y) ≡ true = rw same fits in
        negate_lem (evaluate fs host (tree (doubles fs) e)) y fits_y
          (evaluate-meaning e y hold at_y)
        ∙ ap (λ v. (some (int_value v), s)) same
    evaluate-meaning (bracketed e) x hold h = evaluate-meaning e x hold h
    evaluate-meaning (binary op m n l r) x hold h =
        let (y, at_y, p) =
          and_then-some (meaning env l) (λ a. and_then (meaning env r) λ b. operation op a b) x h in
        let (z, at_z, q) = and_then-some (meaning env r) (λ b. operation op y b) x p in
        let (found, fits) = checked_some (result op y z) x q in
        let (plain, e) = apply-result fs op y z x (meaning-fits env l y at_y) found fits in
        operate_lem op (evaluate fs host (tree (doubles fs) l))
          (evaluate fs host (tree (doubles fs) r)) (int_value y) (int_value z) plain
          (evaluate-meaning l y hold at_y) (evaluate-meaning r z hold at_z)
        ∙ ap (λ v. (v, s)) e

    -- The text of an expression of the grammar that stands for an integer, each part of it in 64 bits
    -- and each numeral in 53, where its variables hold the integers of the environment and doubles
    -- are exact on 53 bits, is calculated as that integer, made a double, with the state left alone.
    pub math_calculate-meaning :
        (e : Expr) (x : ℤ)
        → Holds
        → Fits 9 e
        → meaning env e ≡ some x
        → math_calculate fs host (text e) s ≡ (some (fs.f64.of_int x), s)
    unfolding math_calculate bind continue to_f64
    math_calculate-meaning e x hold fits h =
        rw (math_parse_ast-text (doubles fs) e fits, evaluate-meaning e x hold h) refl
