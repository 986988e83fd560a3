-- ===== src/Lang/Evaluate/Tests.antt =====
-- The theorems about evaluation at a concrete expression.
use shahi_n_kernel.Lang.Conditions.Truth.{condition_evaluate-meaning}
use shahi_n_kernel.Lang.Conditions.Search.{
  operator_length, keyboard_word, scan, find_condition_operator,
}
use shahi_n_kernel.Lang.Scan.{skip_spaces, starts_with, is_space}
use shahi_n_kernel.Lang.Conditions.Brackets.{nothing, brackets, ordinary_front, Balanced}
use shahi_n_kernel.Lang.Conditions.Text.{condition_line}
use shahi_n_kernel.Lang.Conditions.{condition_evaluate}
use mathlib.Core.Option.{some-injective}
use shahi_n_kernel.Prelude.Int.{fits64, ◌-ℤ◌, ◌*ℤ◌, quot, negsuc, pos, ℤ}
use shahi_n_kernel.Lang.Value.Exact.{integers-IsExact, integer_floats}
use shahi_n_kernel.Lang.Evaluate.Meaning.{number, small, in_range, result, operation, meaning}
use shahi_n_kernel.Lang.Evaluate.Sound.{math_calculate-meaning, evaluate-meaning, Holds}
use shahi_n_kernel.Lang.Expression.{
  and_then, peek, utf8_arabic_digit, is_digit, ends_name, ast_mul, ast_div, ast_sub,
}
use shahi_n_kernel.Lang.Evaluate.{Runs, doubles, math_calculate, evaluate, Host}
use shahi_n_kernel.Prelude.{
  length, ◌<◌, true, Bool, ◌≡◌, arith, ap, ◌≢◌, List, refl, none, some, Option, ℕ, [], ◌∷◌, false,
}
use shahi_n_kernel.Lang.Value.{int_value}
use shahi_n_kernel.Lang.Grammar.{
  numerals, blanks, symbol, text, tree, AreDigits, rank, none_of, Fits, IsName, Expr, numeral,
  variable, bracketed, binary,
}

-- A host in which every variable is 100, with no functions and no arrays.
abbrev hundreds : Host integer_floats
hundreds = record {
  State = ℕ;
  get_value = λ name s. (some (int_value (pos 100)), s);
  set_value = λ name v s. (false, s);
  function_find = λ name s. false;
  invoke = λ name vs s. (none, s);
  array_get = λ a idx s. none;
  total = λ s a. 0;
}

-- A keyboard that answers nothing.
abbrev hundreds_silent : Runs ℕ Bool
hundreds_silent s = (none, s)

abbrev hundred_each : List ℕ → Option ℤ
hundred_each name = some (pos 100)

-- `12 - 3*(x -4)/ 5`
abbrev sum_text : Expr
sum_text = binary ast_sub 1 1 (numeral (1 ∷ 2 ∷ [])) (
    binary ast_div 0 1
      (binary ast_mul 0 0 (numeral (3 ∷ []))
        (bracketed (binary ast_sub 1 0 (variable (120 ∷ [])) (numeral (4 ∷ [])))))
      (numeral (5 ∷ [])))

hundreds-Holds : Holds integer_floats integers-IsExact hundreds 0 hundred_each
unfolding Holds
hundreds-Holds name x e = ap (λ v. (some (int_value v), 0)) (some-injective (pos 100) x e)

nonempty : (x : ℕ) (s : List ℕ) → x ∷ s ≢ []
nonempty x s e = cc

x_IsName : IsName (120 ∷ [])
unfolding IsName none_of ends_name is_digit utf8_arabic_digit peek
x_IsName = (nonempty 120 [], refl, refl)

sum_text-Fits : Fits 9 sum_text
unfolding Fits rank AreDigits
sum_text-Fits = (
  omega arith,
  (nonempty 1 (2 ∷ []), (omega arith, (omega arith, tt))),
  (
    omega arith,
    (
      omega arith,
      (nonempty 3 [], (omega arith, tt)),
      (omega arith, x_IsName, (nonempty 4 [], (omega arith, tt))),
    ),
    (nonempty 5 [], (omega arith, tt)),
  ),
)

sum_text-meaning : meaning hundred_each sum_text ≡ some (negsuc 44)
unfolding meaning operation result in_range small number quot ◌*ℤ◌ ◌-ℤ◌ fits64 and_then
sum_text-meaning = refl

evaluate-meaning_test :
    evaluate integer_floats hundreds (tree (doubles integer_floats) sum_text) 0
    ≡ (some (int_value (negsuc 44)), 0)
evaluate-meaning_test =
    evaluate-meaning integer_floats integers-IsExact hundreds 0 hundred_each sum_text (negsuc 44)
      hundreds-Holds sum_text-meaning

math_calculate-meaning_example :
    math_calculate integer_floats hundreds (text sum_text) 0 ≡ (some (negsuc 44), 0)
math_calculate-meaning_example =
    math_calculate-meaning integer_floats integers-IsExact hundreds 0 hundred_each sum_text
      (negsuc 44) hundreds-Holds sum_text-Fits sum_text-meaning

-- The same expression in a condition: `x -4` stands in brackets.
sum_text-Balanced : Balanced (text sum_text)
unfolding text symbol blanks numerals none_of
sum_text-Balanced = ordinary_front (49 ∷ 50 ∷ 32 ∷ 45 ∷ 32 ∷ 51 ∷ 42 ∷ []) _ refl (
    brackets (120 ∷ 32 ∷ 45 ∷ 52 ∷ []) (47 ∷ 32 ∷ 53 ∷ [])
      (ordinary_front (120 ∷ 32 ∷ 45 ∷ 52 ∷ []) [] refl nothing)
      (ordinary_front (47 ∷ 32 ∷ 53 ∷ []) [] refl nothing))

sum_text_visible : is_space (peek 0 (text sum_text)) ≡ false
unfolding text symbol blanks numerals is_space peek
sum_text_visible = refl

sum_text_long : 0 < length (text sum_text)
unfolding text symbol blanks numerals
sum_text_long = omega arith

sum_text_no_keyboard : starts_with (skip_spaces (text sum_text)) keyboard_word ≡ false
unfolding text symbol blanks numerals starts_with skip_spaces is_space
sum_text_no_keyboard = refl

sum_text_no_comparison : find_condition_operator (text sum_text) ≡ none
unfolding text symbol blanks numerals find_condition_operator scan operator_length peek
sum_text_no_comparison = refl

condition_evaluate-meaning_example :
    condition_evaluate integer_floats hundreds
      (λ s. hundreds_silent)
      (condition_line (text sum_text))
      0
    ≡ (some true, 0)
condition_evaluate-meaning_example =
    condition_evaluate-meaning integer_floats integers-IsExact hundreds 0 hundred_each
      (λ s. hundreds_silent) sum_text (negsuc 44) hundreds-Holds sum_text-Fits sum_text-meaning
      sum_text-Balanced sum_text_visible sum_text_long sum_text_no_keyboard sum_text_no_comparison
