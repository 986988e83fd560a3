-- ===== src/Lang/Grammar/Tests.antt =====
-- The theorem about the reader at a concrete expression, and runs of the reader.
use shahi_n_kernel.Prelude.{ℕ, ◌+◌, ◌*◌, ◌/◌, ◌≤◌, ◌≡◌, ◌≢◌, refl, none, some, List, [], ◌∷◌, arith}
use shahi_n_kernel.Lang.Expression.{
  int_part, digit_at, skip_math_spaces, term_op, sum_op, shift_op, bitand_op, bitxor_op, bitor_op,
  and_op, or_op, cmp_op, and_then, Doubles, ast_mul, ast_cmp_lt, ast_sub, peek, is_digit,
  utf8_arabic_digit, ends_name,
}
use shahi_n_kernel.Lang.Parser.{
  math_parse_ast, whole, parse_comparison, compare_with, parse_logical_or, parse_logical_and,
  parse_bitor, parse_bitxor, parse_bitand, parse_shift, math_parse_expression, parse_term, level,
  operand_loop, operand_at, parse_factor, factor_at, parse_number_value, parse_decimal_value,
  fraction_part,
}
use shahi_n_kernel.Lang.Grammar.{
  Expr, text, tree, Fits, numeral, variable, bracketed, binary, rank, AreDigits, IsName, none_of,
}
use shahi_n_kernel.Lang.Grammar.Round.{math_parse_ast-text}

-- Numbers in place of doubles.
abbrev naturals : Doubles
naturals = record {
  Double = ℕ;
  of_i64 = λ n. n;
  add = λ a b. a + b;
  mul = λ a b. a * b;
  div = λ a b. a / b;
}

-- `12 - 3*(x <4)- 5`
abbrev sample : Expr
sample =
    binary ast_sub 0 1
      (binary ast_sub 1 1 (numeral (1 ∷ 2 ∷ [])) (
        binary ast_mul 0 0 (numeral (3 ∷ []))
          (bracketed (binary ast_cmp_lt 1 0 (variable (120 ∷ [])) (numeral (4 ∷ []))))))
      (numeral (5 ∷ []))

one_digit : (x : ℕ) → x ≤ 9 → AreDigits (x ∷ [])
unfolding AreDigits
one_digit x h = (h, tt)

nonempty : (x : ℕ) (s : List ℕ) → x ∷ s ≢ []
nonempty x s e = cc

x_IsName : IsName (120 ∷ [])
unfolding IsName none_of ends_name is_digit utf8_arabic_digit peek
x_IsName = (nonempty 120 [], refl, refl)

sample-Fits : Fits 9 sample
unfolding Fits rank AreDigits
sample-Fits = (
  omega arith,
  (
    omega arith,
    (nonempty 1 (2 ∷ []), (omega arith, (omega arith, tt))),
    (
      omega arith,
      (nonempty 3 [], (omega arith, tt)),
      (omega arith, x_IsName, (nonempty 4 [], (omega arith, tt))),
    ),
  ),
  (nonempty 5 [], (omega arith, tt)),
)

math_parse_ast-text_example : math_parse_ast naturals (text sample) ≡ some (tree naturals sample)
math_parse_ast-text_example = math_parse_ast-text naturals sample sample-Fits

-- `1<2&&3<4` is refused: comparisons bind weaker than `&&`, and only one is read.
two_comparisons : math_parse_ast naturals (49 ∷ 60 ∷ 50 ∷ 38 ∷ 38 ∷ 51 ∷ 60 ∷ 52 ∷ []) ≡ none
unfolding math_parse_ast whole parse_comparison compare_with parse_logical_or parse_logical_and
    parse_bitor parse_bitxor parse_bitand parse_shift math_parse_expression parse_term level
    operand_loop operand_at parse_factor factor_at parse_number_value parse_decimal_value int_part
    digit_at is_digit utf8_arabic_digit peek skip_math_spaces term_op sum_op shift_op bitand_op
    bitxor_op bitor_op and_op or_op cmp_op and_then fraction_part
two_comparisons = refl
