-- ===== src/Lang/Value/Convert.antt =====
-- The conversions of a value to a number and to a text, over the numbers' own two:
-- `string_to_double` and `double_to_string`.
use shahi_n_kernel.Lang.Scan.{skip_spaces}
use shahi_n_kernel.Lang.Expression.{is_digit, peek}
use shahi_n_kernel.Prelude.Int.{signed64, ◌+ℤ◌, pattern64, signed32, negsuc, ℤ, pos}
use shahi_n_kernel.Lang.Value.{
  ptr_value, bool_value, char_value, double_value, float_value, text_value, int_value, Value,
  Floats,
}
use mathlib.Core.Option
use shahi_n_kernel.Prelude.{
  Option, zero, suc, none, ◌%◌, some, ◌&&◌, ◌/◌, length, drop, ◌-◌, ◌++◌, bit_or, ◌+◌, [], ◌∷◌, ltb,
  ◌==◌, if◌then◌else◌, List, Bool, ℕ,
}

unfoldable pub bool_int : Bool → ℕ
bool_int b = if b then 1 else 0

-- The digits of a number, in front of what is behind it; there are at most `fuel`.
unfoldable pub decimal : (fuel n : ℕ) → List ℕ → List ℕ
decimal zero n behind = behind
decimal (suc fuel) n behind =
    let more = decimal fuel (n / 10) ((48 + n % 10) ∷ behind) in if n == 0 then behind else more

unfoldable pub decimal_text : ℕ → List ℕ
decimal_text n = if n == 0 then 48 ∷ [] else decimal 20 n []

unfoldable pub hex_small : ℕ → ℕ
hex_small d = if ltb d 10 then 48 + d else 87 + d

unfoldable pub hex_loop : (fuel p : ℕ) → List ℕ → List ℕ
hex_loop zero p behind = behind
hex_loop (suc fuel) p behind =
    let more = hex_loop fuel (p / 16) (hex_small (p % 16) ∷ behind) in
    if p == 0 then behind else more

unfoldable pub ptr_text : ℕ → List ℕ
ptr_text p = 48 ∷ 120 ∷ (if p == 0 then 48 ∷ [] else hex_loop 19 p [])

-- The text of a character, copied up to the first 0: the character 0 gives the empty text. A byte
-- keeps eight bits.
unfoldable pub char_text : ℕ → List ℕ
char_text cp =
    if cp == 0
    then []
    else if ltb cp 128
    then cp ∷ []
    else if ltb cp 2048
    then bit_or 192 (cp / 64) ∷ bit_or 128 (cp % 64) ∷ []
    else if ltb cp 65536
    then bit_or 224 (cp / 4096) ∷ bit_or 128 (cp / 64 % 64) ∷ bit_or 128 (cp % 64) ∷ []
    else bit_or 240 (cp / 262144) % 256
      ∷ bit_or 128 (cp / 4096 % 64)
      ∷ bit_or 128 (cp / 64 % 64)
      ∷ bit_or 128 (cp % 64)
      ∷ []

-- `sign` and the bytes behind it
unfoldable pub sign_part : List ℕ → ℤ × List ℕ
sign_part p =
    if peek 0 p == 45
    then (negsuc 0, drop 1 p)
    else if peek 0 p == 43
    then (pos 1, drop 1 p)
    else (pos 1, p)

module _ (fs : Floats) where
  -- The digits behind the point.
  unfoldable pub fraction_text : (precision : ℕ) → fs.f64.Real → List ℕ
  fraction_text zero fraction = []
  fraction_text (suc precision) fraction =
      let scaled = fs.f64.mul fraction (fs.f64.of_int (pos 10)) in
      let digit = signed32 (pattern64 (fs.f64.to_i64 scaled)) in
      let left = fs.f64.sub scaled (fs.f64.of_int digit) in
      let more = fraction_text precision left in
      pattern64 (pos 48 +ℤ digit) % 256
      ∷ (if fs.f64.eq left (fs.f64.of_int (pos 0)) then [] else more)

  unfoldable pub unsigned_text : (precision : ℕ) → fs.f64.Real → List ℕ
  unsigned_text precision value =
      let whole = fs.f64.to_u64 value in
      let fraction = fs.f64.sub value (fs.f64.of_int (pos whole)) in
      decimal_text whole
      ++ (if fs.f64.lt (fs.f64.of_int (pos 0)) fraction && ltb 0 precision
          then 46 ∷ fraction_text precision fraction
          else [])

  unfoldable pub double_to_string : fs.f64.Real → (precision : ℕ) → List ℕ
  double_to_string value precision =
      if fs.f64.lt value (fs.f64.of_int (pos 0))
      then 45 ∷ unsigned_text precision (fs.f64.neg value)
      else unsigned_text precision value

  -- The loops over the digits: the number, how many digits there were, and the rest.
  unfoldable pub whole_part :
      (result : fs.f64.Real) (digits : ℕ) → List ℕ → fs.f64.Real × ℕ × List ℕ
  whole_part result digits [] = (result, digits, [])
  whole_part result digits (c ∷ p) =
      let next =
        fs.f64.add (fs.f64.mul result (fs.f64.of_int (pos 10))) (fs.f64.of_int (pos (c - 48))) in
      let more = whole_part next (digits + 1) p in
      if is_digit c then more else (result, digits, c ∷ p)

  unfoldable pub decimals_part :
      (result divisor : fs.f64.Real) (digits : ℕ) → List ℕ → fs.f64.Real × ℕ × List ℕ
  decimals_part result divisor digits [] = (result, digits, [])
  decimals_part result divisor digits (c ∷ p) =
      let next = fs.f64.add result (fs.f64.div (fs.f64.of_int (pos (c - 48))) divisor) in
      let more = decimals_part next (fs.f64.mul divisor (fs.f64.of_int (pos 10))) (digits + 1) p in
      if is_digit c then more else (result, digits, c ∷ p)

  unfoldable pub point_part : fs.f64.Real × ℕ × List ℕ → fs.f64.Real × ℕ × List ℕ
  point_part (result, digits, p) =
      if peek 0 p == 46
      then decimals_part result (fs.f64.of_int (pos 10)) digits (drop 1 p)
      else (result, digits, p)

  -- The number and where it ends.
  unfoldable pub string_to_double : List ℕ → fs.f64.Real × List ℕ
  string_to_double text =
      let (sign, p) = sign_part (skip_spaces text) in
      let (result, digits, rest) = point_part (whole_part (fs.f64.of_int (pos 0)) 0 p) in
      if digits == 0
      then (fs.f64.of_int (pos 0), text)
      else (fs.f64.mul result (fs.f64.of_int sign), rest)

  -- A text that is a number to its end.
  unfoldable pub text_number : List ℕ → Option fs.f64.Real
  text_number text =
      let (d, rest) = string_to_double text in if length rest == 0 then some d else none

  unfoldable pub to_i64 : Value fs → Option ℤ
  to_i64 (int_value x) = some x
  to_i64 (float_value x) = some (fs.f32.to_i64 x)
  to_i64 (double_value x) = some (fs.f64.to_i64 x)
  to_i64 (char_value c) = some (pos c)
  to_i64 (bool_value b) = some (pos (bool_int b))
  to_i64 (ptr_value p) = some (signed64 p)
  to_i64 (text_value s) = Option.map fs.f64.to_i64 (text_number s)
  to_i64 v = none

  unfoldable pub to_f32 : Value fs → Option fs.f32.Real
  to_f32 (int_value x) = some (fs.f32.of_int x)
  to_f32 (float_value x) = some x
  to_f32 (double_value x) = some (fs.narrow x)
  to_f32 (char_value c) = some (fs.f32.of_int (pos c))
  to_f32 (bool_value b) = some (fs.f32.of_int (pos (bool_int b)))
  to_f32 (ptr_value p) = some (fs.f32.of_int (pos p))
  to_f32 (text_value s) = Option.map fs.narrow (text_number s)
  to_f32 v = none

  unfoldable pub to_f64 : Value fs → Option fs.f64.Real
  to_f64 (int_value x) = some (fs.f64.of_int x)
  to_f64 (float_value x) = some (fs.widen x)
  to_f64 (double_value x) = some x
  to_f64 (char_value c) = some (fs.f64.of_int (pos c))
  to_f64 (bool_value b) = some (fs.f64.of_int (pos (bool_int b)))
  to_f64 (ptr_value p) = some (fs.f64.of_int (pos p))
  to_f64 (text_value s) = text_number s
  to_f64 v = none

  unfoldable pub to_text : Value fs → Option (List ℕ)
  to_text (text_value s) = some s
  to_text (int_value x) = some (double_to_string (fs.f64.of_int x) 0)
  to_text (float_value x) = some (double_to_string (fs.widen x) 6)
  to_text (double_value x) = some (double_to_string x 6)
  to_text (char_value c) = some (char_text c)
  to_text (bool_value b) = some (if b then 49 ∷ [] else 48 ∷ [])
  to_text (ptr_value p) = some (ptr_text p)
  to_text v = none
