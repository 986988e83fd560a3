-- ===== src/Lang/Value/Coerce.antt =====
-- The conversion of a value to a declared type, and the type that an operation on two types has.
use shahi_n_kernel.Lang.Value.Convert.{to_text, to_f64, to_f32, to_i64}
use shahi_n_kernel.Prelude.Int.{magnitude, pattern64}
use shahi_n_kernel.Lang.Value.{
  text_value, unknown_type, int_type, float_type, double_type, char_type, text_type, bool_type,
  ptr_type, array_type, double_value, char_type, ptr_type, float_type, type_of, float_value,
  char_value, int_type, text_type, ptr_value, bool_value, int_value, unknown_type, ◌is◌, Value,
  Floats, ValueType,
}
use mathlib.Core.Option
use shahi_n_kernel.Prelude.{
  none, false, leb, Option, ◌^◌, ◌==◌, ◌%◌, ◌&&◌, ◌||◌, not, some, true, Option, Bool,
  if◌then◌else◌, ℕ,
}

unfoldable pub type_rank : ValueType → ℕ
type_rank bool_type = 1
type_rank char_type = 2
type_rank int_type = 3
type_rank float_type = 4
type_rank double_type = 5
type_rank text_type = 10
type_rank ptr_type = 20
type_rank t = 0

unfoldable pub promote : ValueType → ValueType → ValueType
promote a b =
    if a is unknown_type
    then b
    else if b is unknown_type
    then a
    else if a is b
    then a
    else if (a is text_type) || (b is text_type)
    then (if (a is text_type) && (b is text_type) then text_type else unknown_type)
    else if (a is ptr_type) && (b is int_type)
    then ptr_type
    else if (b is ptr_type) && (a is int_type)
    then ptr_type
    else if leb (type_rank b) (type_rank a)
    then a
    else b

-- May a value of the second type be given to a variable that is declared with the first?
unfoldable pub is_assignable : (declared actual : ValueType) → Bool
is_assignable declared actual = if declared is actual then true else elim declared [
  | unknown_type ↦ true
  | double_type ↦
      (actual is int_type)
      || (actual is float_type)
      || (actual is char_type)
      || (actual is bool_type)
  | float_type ↦ (actual is int_type) || (actual is char_type) || (actual is bool_type)
  | int_type ↦ (actual is bool_type) || (actual is char_type)
  | text_type ↦ (actual is text_type) || (actual is char_type)
  | bool_type ↦ (actual is bool_type) || (actual is int_type)
  | char_type ↦ (actual is char_type) || (actual is int_type)
  | ptr_type ↦ (actual is ptr_type) || (actual is int_type)
  | array_type ↦ false
]

module _ (fs : Floats) where
  unfoldable pub to_char : Value fs → Option (Value fs)
  to_char (int_value x) = some (char_value (pattern64 x % 2 ^ 32))
  to_char (char_value c) = some (char_value c)
  to_char v = none

  unfoldable pub to_bool : Value fs → Option (Value fs)
  to_bool v = Option.map (λ x. bool_value (not (magnitude x == 0))) (to_i64 fs v)

  unfoldable pub to_ptr : Value fs → Option (Value fs)
  to_ptr v = Option.map (λ x. ptr_value (pattern64 x)) (to_i64 fs v)

  unfoldable pub convert : Value fs → ValueType → Option (Value fs)
  convert v int_type = Option.map (λ x. int_value x) (to_i64 fs v)
  convert v float_type = Option.map (λ x. float_value x) (to_f32 fs v)
  convert v double_type = Option.map (λ x. double_value x) (to_f64 fs v)
  convert v char_type = to_char v
  convert v text_type = Option.map (λ s. text_value s) (to_text fs v)
  convert v bool_type = to_bool v
  convert v ptr_type = to_ptr v
  convert v t = none

  -- What the destination of that type becomes.
  unfoldable pub coerce : Value fs → ValueType → Option (Value fs)
  coerce src target =
      if target is unknown_type
      then some src
      else if type_of fs src is target
      then some src
      else convert src target
