-- ===== src/Lang/Value/Exact.antt =====
-- What floating-point numbers keep of integers that need no more than 53 bits.
use shahi_n_kernel.Prelude.Int.{
  negsuc, is_neg, ltb_ℤ, eqb_ℤ, pos, quot, ◌-ℤ◌, neg_ℤ, pos_part, magnitude, ◌*ℤ◌, ℤ, ◌+ℤ◌,
}
use shahi_n_kernel.Lang.Value.{Floats, Floating}
use shahi_n_kernel.Prelude.{◌*◌, ◌+◌, suc, ◌<◌, not, true, ◌≡◌, arith, ◌≤◌, ◌^◌, refl, ℕ}

abbrev pub exact_bound : ℕ
exact_bound = 2 ^ 53

-- Conversions, comparisons and sums of such integers are exact; so are products that do not make a
-- negative zero.
pub record IsExact (F : Floating) : Type 0 where
  pub to_i64-of_int : (x : ℤ) → magnitude x ≤ exact_bound → F.to_i64 (F.of_int x) ≡ x
  pub to_u64-of_int : (n : ℕ) → n ≤ exact_bound → F.to_u64 (F.of_int (pos n)) ≡ n
  pub eq-of_int : (x : ℤ) → magnitude x ≤ exact_bound → F.eq (F.of_int x) (F.of_int x) ≡ true
  pub negative-of_int :
      (x : ℤ) → magnitude x ≤ exact_bound → F.lt (F.of_int x) (F.of_int (pos 0)) ≡ is_neg x
  pub above_least :
      (x : ℤ)
      → magnitude x ≤ exact_bound
      → F.le (F.neg (F.of_int (pos (2 ^ 63)))) (F.of_int x) ≡ true
  pub below_most :
      (x : ℤ) → magnitude x ≤ exact_bound → F.lt (F.of_int x) (F.of_int (pos (2 ^ 63))) ≡ true
  pub neg-of_int : (n : ℕ) → n < exact_bound → F.neg (F.of_int (negsuc n)) ≡ F.of_int (pos (suc n))
  pub add-of_int :
      (m n : ℕ)
      → m + n ≤ exact_bound
      → F.add (F.of_int (pos m)) (F.of_int (pos n)) ≡ F.of_int (pos (m + n))
  pub mul-of_int :
      (m n : ℕ)
      → m ≤ exact_bound
      → n ≤ exact_bound
      → m * n ≤ exact_bound
      → F.mul (F.of_int (pos m)) (F.of_int (pos n)) ≡ F.of_int (pos (m * n))
  pub mul-minus_one :
      (n : ℕ)
      → n < exact_bound
      → F.mul (F.of_int (pos (suc n))) (F.of_int (negsuc 0)) ≡ F.of_int (negsuc n)

-- The laws can be met: integers in place of floating-point numbers.
abbrev pub integers : Floating
integers = record {
  Real = ℤ;
  of_int = λ x. x;
  to_i64 = λ x. x;
  to_u64 = pos_part;
  add = ◌+ℤ◌;
  sub = ◌-ℤ◌;
  mul = ◌*ℤ◌;
  div = quot;
  neg = neg_ℤ;
  eq = eqb_ℤ;
  lt = ltb_ℤ;
  le = λ x y. not (ltb_ℤ y x);
}

abbrev pub integer_floats : Floats
integer_floats = record { f32 = integers; f64 = integers; widen = λ x. x; narrow = λ x. x }

pub integers-IsExact : IsExact integers
unfolding ◌+ℤ◌ ◌*ℤ◌ neg_ℤ
integers-IsExact = record {
  to_i64-of_int = λ x h. refl;
  to_u64-of_int = λ n h. refl;
  eq-of_int = λ x h. ground arith;
  negative-of_int = λ x h. ground arith;
  above_least = λ x h. ground (arith, h);
  below_most = λ x h. ground (arith, h);
  neg-of_int = λ n h. ground arith;
  add-of_int = λ m n h. ground arith;
  mul-of_int = λ m n hm hn h. ground arith;
  mul-minus_one = λ n h. ground arith;
}
