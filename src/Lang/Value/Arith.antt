-- ===== src/Lang/Value/Arith.antt =====
-- The typed operations on values. An integer result that does not fit in 64 bits becomes a double;
-- negation and the sums of pointers wrap.
use shahi_n_kernel.Text.Cstring.{strcmp}
use shahi_n_kernel.Lang.Value.Convert.{bool_int, to_f64, to_f32, to_i64}
use shahi_n_kernel.Lang.Value.Coerce.{promote}
use shahi_n_kernel.Prelude.Int.{
  rem, quot, pos_part, is_nonpos, neg_ℤ, ltb_ℤ, shift_right, pos, ◌*ℤ◌, ◌-ℤ◌, ◌+ℤ◌, fits64, eqb_ℤ,
  negsuc, pattern64, is_neg, signed64, ℤ,
}
use mathlib.Core.Option
use shahi_n_kernel.Prelude.{
  bit_xor, false, length, ◌==◌, ◌%◌, ◌^◌, [], ◌*◌, none, ◌++◌, ltb, not, bit_or, bit_and, ◌||◌,
  ◌&&◌, List, some, if◌then◌else◌, Bool, Option, ℕ,
}
use shahi_n_kernel.Lang.Value.{
  unknown, array_value, char_value, double_value, text_value, float_value, type_of, ptr_value,
  bool_value, int_value, Floating, ValueType, Floats, int_type, float_type, double_type, text_type,
  ptr_type, Value,
}
use shahi_n_kernel.Lang.Expression.{
  and_then, Op, ast_cmp_eq, ast_cmp_neq, ast_cmp_lt, ast_cmp_lte, ast_cmp_gt, ast_cmp_gte,
}

-- `-x` in 64 bits
unfoldable pub neg64 : ℤ → ℤ
neg64 x = signed64 (pattern64 (neg_ℤ x))

-- `x < 0 && -x == x && y == -1`
unfoldable pub quot_overflows : ℤ → ℤ → Bool
quot_overflows x y = is_neg x && eqb_ℤ (neg64 x) x && eqb_ℤ y (negsuc 0)

-- `y < 0 || y > 63` refuses
unfoldable pub shift_count : ℤ → Option ℕ
shift_count y = if is_neg y || ltb 63 (pos_part y) then none else some (pos_part y)

-- `(x < y) ? -1 : (x > y) ? 1 : 0` from the two tests
unfoldable pub three_way : (less greater : Bool) → ℤ
three_way less greater = if less then negsuc 0 else if greater then pos 1 else pos 0

unfoldable pub cmp_holds : Op → ℤ → Option Bool
cmp_holds ast_cmp_eq cmp = some (eqb_ℤ cmp (pos 0))
cmp_holds ast_cmp_neq cmp = some (not (eqb_ℤ cmp (pos 0)))
cmp_holds ast_cmp_lt cmp = some (is_neg cmp)
cmp_holds ast_cmp_lte cmp = some (is_nonpos cmp)
cmp_holds ast_cmp_gt cmp = some (not (is_nonpos cmp))
cmp_holds ast_cmp_gte cmp = some (not (is_neg cmp))
cmp_holds op cmp = none

module _ (fs : Floats) where
  abbrev pub Result : Type 0
  Result = Option (Value fs)

  -- Both operands read as integers, as floats or as doubles.
  unfoldable pub on_ints {ℓ} : {A : Type ℓ} → (ℤ → ℤ → Option A) → Value fs → Value fs → Option A
  on_ints f a b = and_then (to_i64 fs a) λ x. and_then (to_i64 fs b) λ y. f x y

  unfoldable pub on_floats {ℓ} :
      {A : Type ℓ} → (fs.f32.Real → fs.f32.Real → Option A) → Value fs → Value fs → Option A
  on_floats f a b = and_then (to_f32 fs a) λ x. and_then (to_f32 fs b) λ y. f x y

  unfoldable pub on_doubles {ℓ} :
      {A : Type ℓ} → (fs.f64.Real → fs.f64.Real → Option A) → Value fs → Value fs → Option A
  on_doubles f a b = and_then (to_f64 fs a) λ x. and_then (to_f64 fs b) λ y. f x y

  -- The integer where it fits, or the operation on doubles.
  unfoldable pub checked : (ℤ → ℤ → ℤ) → (fs.f64.Real → fs.f64.Real → fs.f64.Real) → ℤ → ℤ → Result
  checked op rounded x y =
      if fits64 (op x y)
      then some (int_value (op x y))
      else some (double_value (rounded (fs.f64.of_int x) (fs.f64.of_int y)))

  unfoldable pub wrapped : (ℤ → ℤ → ℤ) → ℤ → ℤ → Result
  wrapped op x y = some (ptr_value (pattern64 (op x y)))

  unfoldable pub add_as : ValueType → Value fs → Value fs → Result
  add_as int_type a b = on_ints (checked ◌+ℤ◌ fs.f64.add) a b
  add_as float_type a b = on_floats (λ x y. some (float_value (fs.f32.add x y))) a b
  add_as double_type a b = on_doubles (λ x y. some (double_value (fs.f64.add x y))) a b
  add_as ptr_type a b = on_ints (wrapped ◌+ℤ◌) a b
  add_as t a b = none

  unfoldable pub add_values : Value fs → Value fs → Result
  add_values (text_value s) (text_value t) = some (text_value (s ++ t))
  add_values a b = add_as (promote (type_of fs a) (type_of fs b)) a b

  unfoldable pub sub_as : ValueType → Value fs → Value fs → Result
  sub_as int_type a b = on_ints (checked ◌-ℤ◌ fs.f64.sub) a b
  sub_as float_type a b = on_floats (λ x y. some (float_value (fs.f32.sub x y))) a b
  sub_as double_type a b = on_doubles (λ x y. some (double_value (fs.f64.sub x y))) a b
  sub_as ptr_type a b = on_ints (wrapped ◌-ℤ◌) a b
  sub_as t a b = none

  unfoldable pub sub_values : Value fs → Value fs → Result
  sub_values a b = sub_as (promote (type_of fs a) (type_of fs b)) a b

  unfoldable pub mul_as : ValueType → Value fs → Value fs → Result
  mul_as int_type a b = on_ints (checked ◌*ℤ◌ fs.f64.mul) a b
  mul_as float_type a b = on_floats (λ x y. some (float_value (fs.f32.mul x y))) a b
  mul_as double_type a b = on_doubles (λ x y. some (double_value (fs.f64.mul x y))) a b
  mul_as t a b = none

  unfoldable pub mul_values : Value fs → Value fs → Result
  mul_values a b = mul_as (promote (type_of fs a) (type_of fs b)) a b

  unfoldable pub quot_ints : ℤ → ℤ → Result
  quot_ints x y =
      if eqb_ℤ y (pos 0)
      then none
      else if quot_overflows x y
      then none
      else some (int_value (quot x y))

  unfoldable pub div_as : ValueType → Value fs → Value fs → Result
  div_as int_type a b = on_ints quot_ints a b
  div_as float_type a b = on_floats (λ x y. some (float_value (fs.f32.div x y))) a b
  div_as double_type a b = on_doubles (λ x y. some (double_value (fs.f64.div x y))) a b
  div_as t a b = none

  unfoldable pub div_values : Value fs → Value fs → Result
  div_values a b = div_as (promote (type_of fs a) (type_of fs b)) a b

  unfoldable pub rem_ints : ℤ → ℤ → Result
  rem_ints x y =
      if eqb_ℤ y (pos 0)
      then none
      else if quot_overflows x y
      then some (int_value (pos 0))
      else some (int_value (rem x y))

  -- `x - (double)(int64_t)(x / y) * y`
  unfoldable pub rem_reals : (F : Floating) → F.Real → F.Real → Option F.Real
  rem_reals F x y =
      if F.eq y (F.of_int (pos 0))
      then none
      else some (F.sub x (F.mul (F.of_int (F.to_i64 (F.div x y))) y))

  unfoldable pub mod_as : ValueType → Value fs → Value fs → Result
  mod_as int_type a b = on_ints rem_ints a b
  mod_as float_type a b =
      on_floats (λ x y. Option.map (λ r. float_value r) (rem_reals fs.f32 x y)) a b
  mod_as double_type a b =
      on_doubles (λ x y. Option.map (λ r. double_value r) (rem_reals fs.f64 x y)) a b
  mod_as t a b = none

  unfoldable pub mod_values : Value fs → Value fs → Result
  mod_values a b = mod_as (promote (type_of fs a) (type_of fs b)) a b

  unfoldable pub shl_values : Value fs → Value fs → Result
  shl_values =
      on_ints
        λ x y. Option.map (λ k. int_value (signed64 (pattern64 x * 2 ^ k % 2 ^ 64))) (shift_count y)

  unfoldable pub shr_values : Value fs → Value fs → Result
  shr_values = on_ints λ x y. Option.map (λ k. int_value (shift_right x k)) (shift_count y)

  unfoldable pub bit_and_values : Value fs → Value fs → Result
  bit_and_values = on_ints λ x y. some (int_value (signed64 (bit_and (pattern64 x) (pattern64 y))))

  unfoldable pub bit_or_values : Value fs → Value fs → Result
  bit_or_values = on_ints λ x y. some (int_value (signed64 (bit_or (pattern64 x) (pattern64 y))))

  unfoldable pub bit_xor_values : Value fs → Value fs → Result
  bit_xor_values = on_ints λ x y. some (int_value (signed64 (bit_xor (pattern64 x) (pattern64 y))))

  unfoldable pub neg_value : Value fs → Result
  neg_value (int_value x) = some (int_value (neg64 x))
  neg_value (float_value x) = some (float_value (fs.f32.neg x))
  neg_value (double_value x) = some (double_value (fs.f64.neg x))
  neg_value (bool_value b) = some (int_value (neg_ℤ (pos (bool_int b))))
  neg_value (char_value c) = some (int_value (neg_ℤ (pos c)))
  neg_value v = none

  -- `total` tells how many elements the array at an address has.
  unfoldable pub truthy : (total : ℕ → ℕ) → Value fs → Bool
  truthy total (bool_value b) = b
  truthy total (int_value x) = not (eqb_ℤ x (pos 0))
  truthy total (float_value x) = not (fs.f32.eq x (fs.f32.of_int (pos 0)))
  truthy total (double_value x) = not (fs.f64.eq x (fs.f64.of_int (pos 0)))
  truthy total (char_value c) = not (c == 0)
  truthy total (ptr_value p) = not (p == 0)
  truthy total (text_value s) = not (length s == 0)
  truthy total (array_value a) = ltb 0 (total a)
  truthy total unknown = false

  unfoldable pub int_order : Value fs → Value fs → Option ℤ
  int_order = on_ints λ x y. some (three_way (ltb_ℤ x y) (ltb_ℤ y x))

  unfoldable pub text_bytes : Value fs → List ℕ
  text_bytes (text_value s) = s
  text_bytes v = []

  unfoldable pub order_as : ValueType → Value fs → Value fs → Option ℤ
  order_as int_type a b = int_order a b
  order_as float_type a b = on_floats (λ x y. some (three_way (fs.f32.lt x y) (fs.f32.lt y x))) a b
  order_as double_type a b =
      on_doubles (λ x y. some (three_way (fs.f64.lt x y) (fs.f64.lt y x))) a b
  order_as text_type a b = some (strcmp (text_bytes a) (text_bytes b))
  order_as ptr_type a b = int_order a b
  order_as t a b = none

  unfoldable pub cmp_values : Op → Value fs → Value fs → Option Bool
  cmp_values op a b =
      and_then (order_as (promote (type_of fs a) (type_of fs b)) a b) λ cmp. cmp_holds op cmp
