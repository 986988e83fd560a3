-- ===== src/Lang/Expression.antt =====
-- The expressions of the script language, read from the bytes before the NUL into a tree. Memory for
-- the nodes is taken to be there, and the numbers of a node are those of the machine, of which the
-- reader uses five operations.
use shahi_n_kernel.Prelude.{
  ℕ, zero, suc, ◌+◌, ◌-◌, ◌*◌, ◌%◌, ◌^◌, Bool, not, ◌&&◌, ◌||◌, Option, none, some, List, [], ◌∷◌,
  leb, ◌==◌, if◌then◌else◌, length, drop,
}

-- The operations on doubles, by the 64-bit pattern of an integer.
pub record Doubles : Type 1 where
  pub Double : Type 0
  pub of_i64 : ℕ → Double
  pub add : Double → Double → Double
  pub mul : Double → Double → Double
  pub div : Double → Double → Double

pub data Op : Type 0 where
  ast_add ast_sub ast_mul ast_div ast_mod ast_shl ast_shr ast_bit_and ast_bit_or ast_bit_xor : Op
  ast_cmp_eq ast_cmp_neq ast_cmp_lt ast_cmp_lte ast_cmp_gt ast_cmp_gte ast_and ast_or : Op

-- The nodes of a tree. The reader makes no assignment.
mutual
  pub data Ast (D : Type 0) : Type 0 where
    ast_number : D → Ast D
    ast_string : List ℕ → Ast D
    ast_variable : List ℕ → Ast D
    ast_function_call : List ℕ → Asts D → Ast D
    ast_binary : Op → Ast D → Ast D → Ast D
    ast_neg : Ast D → Ast D
    ast_array_lit : Asts D → Ast D
    ast_assignment : List ℕ → Ast D → Ast D

  pub data Asts (D : Type 0) : Type 0 where
    no_asts : Asts D
    more_asts : Ast D → Asts D → Asts D

-- What a function reads: a node and the bytes behind it, or nothing where it sets the error.
abbrev pub Reads : Type 0 → Type 0
Reads D = List ℕ → Option (Ast D × List ℕ)

-- An error ends the reading.
unfoldable pub and_then {ℓ ℓ'} : {A : Type ℓ} {B : Type ℓ'} → Option A → (A → Option B) → Option B
and_then none f = none
and_then (some a) f = f a

-- The byte at `current[i]`; behind the end it is 0.
unfoldable pub peek : (i : ℕ) → List ℕ → ℕ
peek i [] = 0
peek zero (c ∷ s) = c
peek (suc i) (c ∷ s) = peek i s

unfoldable pub skip_math_spaces : List ℕ → List ℕ
skip_math_spaces [] = []
skip_math_spaces (c ∷ s) =
    let rest = skip_math_spaces s in if (c == 32) || (c == 9) then rest else c ∷ s

unfoldable pub is_digit : ℕ → Bool
is_digit c = leb 48 c && leb c 57

-- One of the Arabic-Indic digits, two bytes long.
unfoldable pub utf8_arabic_digit : List ℕ → Bool
unfolding peek
utf8_arabic_digit s = (peek 0 s == 0xD9) && leb 0xA0 (peek 1 s) && leb (peek 1 s) 0xA9

-- A digit of either kind, and the bytes behind it.
unfoldable pub digit_at : List ℕ → Option (ℕ × List ℕ)
unfolding is_digit utf8_arabic_digit peek
digit_at s =
    if is_digit (peek 0 s)
    then some (peek 0 s - 48, drop 1 s)
    else if utf8_arabic_digit s
    then some (peek 1 s - 0xA0, drop 2 s)
    else none

unfoldable pub hex_digit : ℕ → Option ℕ
unfolding is_digit
hex_digit c =
    if is_digit c
    then some (c - 48)
    else if leb 65 c && leb c 70
    then some (c - 55)
    else if leb 97 c && leb c 102
    then some (c - 87)
    else none

-- The loop over hexadecimal digits: the value, how many there were, and the rest.
unfoldable pub hex_part : (value digits : ℕ) → List ℕ → ℕ × ℕ × List ℕ
hex_part value digits [] = (value, digits, [])
hex_part value digits (c ∷ s) = elim (hex_digit c) [
  | none ↦ (value, digits, c ∷ s)
  | some d ↦ hex_part ((value * 16 + d) % 2 ^ 64) (digits + 1) s
]

-- The loop over the digits in front of the point, with as many rounds as there are bytes.
unfoldable pub int_part : (fuel value digits : ℕ) → List ℕ → ℕ × ℕ × List ℕ
int_part zero value digits s = (value, digits, s)
int_part (suc fuel) value digits s = elim (digit_at s) [
  | none ↦ (value, digits, s)
  | some (d, rest) ↦ int_part fuel ((value * 10 + d) % 2 ^ 64) (digits + 1) rest
]

-- The bytes up to the closing quote.
unfoldable pub string_part : List ℕ → List ℕ × List ℕ
string_part [] = ([], [])
string_part (c ∷ s) =
    let (text, rest) = string_part s in if c == 34 then ([], c ∷ s) else (c ∷ text, rest)

-- The bytes that end a name.
unfoldable pub ends_name : ℕ → Bool
ends_name c =
    (c == 32)
    || (c == 9)
    || (c == 43)
    || (c == 45)
    || (c == 42)
    || (c == 47)
    || (c == 37)
    || (c == 40)
    || (c == 41)
    || (c == 44)
    || (c == 62)
    || (c == 60)
    || (c == 61)
    || (c == 33)
    || (c == 38)
    || (c == 124)
    || (c == 94)
    || (c == 123)
    || (c == 125)

unfoldable pub name_part : List ℕ → List ℕ × List ℕ
unfolding ends_name
name_part [] = ([], [])
name_part (c ∷ s) =
    let (name, rest) = name_part s in if ends_name c then ([], c ∷ s) else (c ∷ name, rest)

-- The name, unless it is empty.
unfoldable pub parse_variable_name_dyn : List ℕ → Option (List ℕ × List ℕ)
parse_variable_name_dyn s =
    let (name, rest) = name_part (skip_math_spaces s) in
    if length name == 0 then none else some (name, rest)

-- The operators of each level, at the start of the bytes, and what is behind them.
unfoldable pub term_op : List ℕ → Option (Op × List ℕ)
unfolding peek
term_op s =
    if peek 0 s == 42
    then some (ast_mul, drop 1 s)
    else if peek 0 s == 47
    then some (ast_div, drop 1 s)
    else if peek 0 s == 37
    then some (ast_mod, drop 1 s)
    else none

unfoldable pub sum_op : List ℕ → Option (Op × List ℕ)
unfolding peek
sum_op s =
    if peek 0 s == 43
    then some (ast_add, drop 1 s)
    else if peek 0 s == 45
    then some (ast_sub, drop 1 s)
    else none

unfoldable pub shift_op : List ℕ → Option (Op × List ℕ)
unfolding peek
shift_op s =
    if (peek 0 s == 60) && (peek 1 s == 60)
    then some (ast_shl, drop 2 s)
    else if (peek 0 s == 62) && (peek 1 s == 62)
    then some (ast_shr, drop 2 s)
    else none

unfoldable pub bitand_op : List ℕ → Option (Op × List ℕ)
unfolding peek
bitand_op s =
    if (peek 0 s == 38) && not (peek 1 s == 38) then some (ast_bit_and, drop 1 s) else none

unfoldable pub bitxor_op : List ℕ → Option (Op × List ℕ)
unfolding peek
bitxor_op s = if peek 0 s == 94 then some (ast_bit_xor, drop 1 s) else none

unfoldable pub bitor_op : List ℕ → Option (Op × List ℕ)
unfolding peek
bitor_op s =
    if (peek 0 s == 124) && not (peek 1 s == 124) then some (ast_bit_or, drop 1 s) else none

unfoldable pub and_op : List ℕ → Option (Op × List ℕ)
unfolding peek
and_op s = if (peek 0 s == 38) && (peek 1 s == 38) then some (ast_and, drop 2 s) else none

unfoldable pub or_op : List ℕ → Option (Op × List ℕ)
unfolding peek
or_op s = if (peek 0 s == 124) && (peek 1 s == 124) then some (ast_or, drop 2 s) else none

unfoldable pub cmp_op : List ℕ → Option (Op × List ℕ)
unfolding peek
cmp_op s =
    let c = peek 0 s in
    let c' = peek 1 s in
    if (c == 61) && (c' == 61)
    then some (ast_cmp_eq, drop 2 s)
    else if ((c == 33) && (c' == 61)) || ((c == 61) && (c' == 33))
    then some (ast_cmp_neq, drop 2 s)
    else if (c == 62) && (c' == 61)
    then some (ast_cmp_gte, drop 2 s)
    else if (c == 60) && (c' == 61)
    then some (ast_cmp_lte, drop 2 s)
    else if (c == 62) && (c' == 33)
    then some (ast_cmp_gt, drop 2 s)
    else if (c == 60) && (c' == 33)
    then some (ast_cmp_lt, drop 2 s)
    else if c == 62
    then some (ast_cmp_gt, drop 1 s)
    else if c == 60
    then some (ast_cmp_lt, drop 1 s)
    else none
