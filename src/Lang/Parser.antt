-- ===== src/Lang/Parser.antt =====
-- The recursive part of the reader of expressions: factors, the levels of binary operators, calls
-- and array literals. Every function takes the fuel that its loop may use, and the reader for what
-- stands inside brackets.
use shahi_n_kernel.Prelude.{
  ℕ, zero, suc, ◌+◌, true, false, not, ◌&&◌, ◌||◌, Option, none, some, List, ◌==◌, if◌then◌else◌,
  length, drop,
}
use shahi_n_kernel.Lang.Expression.{
  Doubles, Op, Ast, Asts, Reads, ast_number, ast_string, ast_variable, ast_function_call,
  ast_binary, ast_neg, ast_array_lit, no_asts, more_asts, and_then, peek, skip_math_spaces,
  is_digit, utf8_arabic_digit, digit_at, hex_part, int_part, string_part, parse_variable_name_dyn,
  term_op, sum_op, shift_op, bitand_op, bitxor_op, bitor_op, and_op, or_op, cmp_op,
}

-- A round of the loop over the operators of one level: without an operator it ends, otherwise the
-- operand behind it is joined from the left.
unfoldable pub operand_at :
    {D : Type 0} (op_at : List ℕ → Option (Op × List ℕ))
    → Reads D
    → (more : Ast D → Reads D) → Ast D
    → Reads D
unfolding and_then
operand_at op_at operand more left s = elim (op_at s) [
  | none ↦ some (left, s)
  | some (op, behind) ↦ and_then (operand behind) (λ r. more (ast_binary op left r.0) r.1)
]

unfoldable pub operand_loop :
    {D : Type 0} (op_at : List ℕ → Option (Op × List ℕ)) → Reads D → (fuel : ℕ) → Ast D → Reads D
unfolding operand_at
operand_loop op_at operand zero left s = none
operand_loop op_at operand (suc fuel) left s =
    operand_at op_at operand (operand_loop op_at operand fuel) left (skip_math_spaces s)

unfoldable pub level :
    {D : Type 0} (op_at : List ℕ → Option (Op × List ℕ)) → (fuel : ℕ) → Reads D → Reads D
unfolding and_then
level op_at fuel operand s = and_then (operand s) (λ r. operand_loop op_at operand fuel r.0 r.1)

module _ {D : Type 0} (fuel : ℕ) (factor : Reads D) where
  unfoldable pub parse_term : Reads D
  parse_term = level term_op fuel factor

  unfoldable pub math_parse_expression : Reads D
  math_parse_expression = level sum_op fuel parse_term

  unfoldable pub parse_shift : Reads D
  parse_shift = level shift_op fuel math_parse_expression

  unfoldable pub parse_bitand : Reads D
  parse_bitand = level bitand_op fuel parse_shift

  unfoldable pub parse_bitxor : Reads D
  parse_bitxor = level bitxor_op fuel parse_bitand

  unfoldable pub parse_bitor : Reads D
  parse_bitor = level bitor_op fuel parse_bitxor

  unfoldable pub parse_logical_and : Reads D
  parse_logical_and = level and_op fuel parse_bitor

  unfoldable pub parse_logical_or : Reads D
  parse_logical_or = level or_op fuel parse_logical_and

  -- At most one comparison.
  unfoldable pub compare_with : Ast D → Reads D
  compare_with left s = elim (cmp_op (skip_math_spaces s)) [
    | none ↦ some (left, skip_math_spaces s)
    | some (op, behind) ↦
        and_then (parse_logical_or (skip_math_spaces behind))
          (λ r. some (ast_binary op left r.0, r.1))
  ]

  unfoldable pub parse_comparison : Reads D
  parse_comparison s = and_then (parse_logical_or s) (λ r. compare_with r.0 r.1)

-- The arguments of a call, from behind the opening bracket or a comma, up to the closing bracket.
-- A comma in front of the closing bracket is an error.
unfoldable pub parse_args : {D : Type 0} (fuel : ℕ) → Reads D → List ℕ → Option (Asts D × List ℕ)
unfolding and_then
parse_args zero comparison s = none
parse_args (suc fuel) comparison s = elim (comparison s) [
  | none ↦ none
  | some (arg, rest) ↦ elim (peek 0 (skip_math_spaces rest) == 41) [
    | true ↦ some (more_asts arg no_asts, drop 1 (skip_math_spaces rest))
    | false ↦
        elim ((peek 0 (skip_math_spaces rest) == 44)
          && not (peek 0 (skip_math_spaces (drop 1 (skip_math_spaces rest))) == 41)) [
            | false ↦ none
            | true ↦
                and_then
                  (parse_args fuel comparison (skip_math_spaces (drop 1 (skip_math_spaces rest))))
                  (λ r. some (more_asts arg r.0, r.1))
          ]
  ]
]

-- From behind the name: an opening bracket, then nothing or arguments.
unfoldable pub parse_function_call : {D : Type 0} (fuel : ℕ) → Reads D → (name : List ℕ) → Reads D
unfolding and_then
parse_function_call fuel comparison name s =
    let inside = skip_math_spaces (drop 1 s) in
    if not (peek 0 s == 40)
    then none
    else if peek 0 inside == 41
    then some (ast_function_call name no_asts, drop 1 inside)
    else and_then (parse_args fuel comparison inside) (λ r. some (ast_function_call name r.0, r.1))

-- The elements of an array literal, up to the closing brace.
unfoldable pub parse_elements :
    {D : Type 0} (fuel : ℕ) → Reads D → List ℕ → Option (Asts D × List ℕ)
unfolding and_then
parse_elements zero comparison s = none
parse_elements (suc fuel) comparison s = elim (comparison s) [
  | none ↦ none
  | some (e, rest) ↦ elim (peek 0 (skip_math_spaces rest) == 125) [
    | true ↦ some (more_asts e no_asts, drop 1 (skip_math_spaces rest))
    | false ↦ elim (peek 0 (skip_math_spaces rest) == 44) [
      | false ↦ none
      | true ↦
          and_then
            (parse_elements fuel comparison (skip_math_spaces (drop 1 (skip_math_spaces rest))))
            (λ r. some (more_asts e r.0, r.1))
    ]
  ]
]

unfoldable pub parse_array_literal : {D : Type 0} (fuel : ℕ) → Reads D → Reads D
unfolding and_then
parse_array_literal fuel comparison s =
    let inside = skip_math_spaces (drop 1 s) in
    if not (peek 0 s == 123)
    then none
    else if peek 0 inside == 125
    then some (ast_array_lit no_asts, drop 1 inside)
    else and_then (parse_elements fuel comparison inside) (λ r. some (ast_array_lit r.0, r.1))

-- From behind the opening quote.
unfoldable pub parse_string : {D : Type 0} → Reads D
parse_string s =
    let (text, rest) = string_part s in
    if length rest == 0 then none else some (ast_string text, drop 1 rest)

module _ (d : Doubles) where
  -- The loop over the digits behind the point.
  unfoldable pub fraction_part :
      (fuel : ℕ) (fraction divisor : d.Double) (digits : ℕ) → List ℕ → d.Double × ℕ × List ℕ
  fraction_part zero fraction divisor digits s = (fraction, digits, s)
  fraction_part (suc fuel) fraction divisor digits s = elim (digit_at s) [
    | none ↦ (fraction, digits, s)
    | some (digit, rest) ↦
        fraction_part fuel (d.add fraction (d.div (d.of_i64 digit) divisor))
          (d.mul divisor (d.of_i64 10)) (digits + 1) rest
  ]

  unfoldable pub parse_hex_value : Reads d.Double
  parse_hex_value s =
      let (value, digits, rest) = hex_part 0 0 s in
      if digits == 0 then none else some (ast_number (d.of_i64 value), rest)

  unfoldable pub parse_decimal_value : Reads d.Double
  parse_decimal_value s =
      let (value, digits, rest) = int_part (length s) 0 0 s in
      let (fraction, all_digits, behind) =
        fraction_part (length rest) (d.of_i64 0) (d.of_i64 10) digits (drop 1 rest) in
      if peek 0 rest == 46
      then (if all_digits == 0
          then none
          else some (ast_number (d.add (d.of_i64 value) fraction), behind))
      else if digits == 0
      then none
      else some (ast_number (d.of_i64 value), rest)

  -- A number, and the node made of it.
  unfoldable pub parse_number_value : Reads d.Double
  parse_number_value s =
      let s' = skip_math_spaces s in
      if (peek 0 s' == 48) && ((peek 1 s' == 120) || (peek 1 s' == 88))
      then parse_hex_value (drop 2 s')
      else parse_decimal_value s'

  -- A variable, or a call, if a bracket follows the name.
  unfoldable pub parse_name : (fuel : ℕ) → Reads d.Double → Reads d.Double
  unfolding and_then
  parse_name fuel comparison s = and_then (parse_variable_name_dyn s) (λ r.
      let behind = skip_math_spaces r.1 in
      if peek 0 behind == 40
      then parse_function_call fuel comparison r.0 behind
      else some (ast_variable r.0, behind))

  -- Behind the opening bracket.
  unfoldable pub parse_bracketed : (comparison : Reads d.Double) → Reads d.Double
  unfolding and_then
  parse_bracketed comparison s = and_then (comparison s) (λ r.
      let behind = skip_math_spaces r.1 in
      if peek 0 behind == 41 then some (r.0, drop 1 behind) else none)

  unfoldable pub parse_negated : (factor : Reads d.Double) → Reads d.Double
  unfolding and_then
  parse_negated factor s = and_then (factor s) (λ r. some (ast_neg r.0, r.1))

  -- What a factor is, by its first byte.
  unfoldable pub factor_at : (fuel : ℕ) (factor : Reads d.Double) → Reads d.Double
  factor_at fuel factor s =
      let c = peek 0 s in
      if c == 40
      then parse_bracketed (parse_comparison fuel factor) (drop 1 s)
      else if c == 123
      then parse_array_literal fuel (parse_comparison fuel factor) s
      else if c == 45
      then parse_negated factor (drop 1 s)
      else if c == 34
      then parse_string (drop 1 s)
      else if is_digit c || (c == 46) || utf8_arabic_digit s
      then parse_number_value s
      else if length s == 0
      then none
      else parse_name fuel (parse_comparison fuel factor) s

  unfoldable pub parse_factor : (fuel : ℕ) → Reads d.Double
  parse_factor zero s = none
  parse_factor (suc fuel) s = factor_at fuel (parse_factor fuel) (skip_math_spaces s)

  -- The whole expression, with what may stand behind it.
  unfoldable pub whole : Option (Ast d.Double × List ℕ) → Option (Ast d.Double)
  whole none = none
  whole (some (root, rest)) = if length (skip_math_spaces rest) == 0 then some root else none

  unfoldable pub math_parse_ast : List ℕ → Option (Ast d.Double)
  math_parse_ast expression =
      whole
        (parse_comparison (length expression + 1) (parse_factor (length expression + 1)) expression)
