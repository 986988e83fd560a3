-- ===== src/Lang/Value.antt =====
-- The typed values of the script language and their conversions. A value owns what it holds, so a
-- copy of a text is the text; the reference counts of arrays are kept elsewhere, and memory is taken
-- to be there. Floating-point numbers are those of the machine.
pub mod Convert
pub mod Coerce
pub mod Arith
pub mod Laws
pub mod Exact
pub mod Decimal
pub mod Round
mod Tests
use shahi_n_kernel.Prelude.Int.{ℤ}
use shahi_n_kernel.Prelude.{List, ◌==◌, Bool, ℕ}

-- The operations on `double` or on `float`; `of_int` rounds, and the other two conversions cut off.
pub record Floating : Type 1 where
  pub Real : Type 0
  pub of_int : ℤ → Real
  pub to_i64 : Real → ℤ
  pub to_u64 : Real → ℕ
  pub add : Real → Real → Real
  pub sub : Real → Real → Real
  pub mul : Real → Real → Real
  pub div : Real → Real → Real
  pub neg : Real → Real
  pub eq : Real → Real → Bool
  pub lt : Real → Real → Bool
  pub le : Real → Real → Bool

pub record Floats : Type 1 where
  pub f32 : Floating
  pub f64 : Floating
  pub widen : f32.Real → f64.Real
  pub narrow : f64.Real → f32.Real

pub data ValueType : Type 0 where
  unknown_type int_type float_type double_type char_type text_type bool_type ptr_type array_type :
      ValueType

unfoldable pub type_index : ValueType → ℕ
type_index unknown_type = 0
type_index int_type = 1
type_index float_type = 2
type_index double_type = 3
type_index char_type = 4
type_index text_type = 5
type_index bool_type = 6
type_index ptr_type = 7
type_index array_type = 8

infix 50 ◌is◌
-- `t == u`
abbrev pub ◌is◌ : ValueType → ValueType → Bool
t is u = type_index t == type_index u

-- An array is the address of its cell.
pub data Value (fs : Floats) : Type 0 where
  unknown : Value fs
  int_value : ℤ → Value fs
  float_value : fs.f32.Real → Value fs
  double_value : fs.f64.Real → Value fs
  char_value : ℕ → Value fs
  text_value : List ℕ → Value fs
  bool_value : Bool → Value fs
  ptr_value : ℕ → Value fs
  array_value : ℕ → Value fs

module _ (fs : Floats) where
  unfoldable pub type_of : Value fs → ValueType
  type_of unknown = unknown_type
  type_of (int_value x) = int_type
  type_of (float_value x) = float_type
  type_of (double_value x) = double_type
  type_of (char_value x) = char_type
  type_of (text_value x) = text_type
  type_of (bool_value x) = bool_type
  type_of (ptr_value x) = ptr_type
  type_of (array_value x) = array_type
