-- ===== src/Lang/Grammar/Factors.antt =====
-- The factors: numerals, names, strings, negations and brackets.
use shahi_n_kernel.Prelude.{
  ℕ, suc, ◌+◌, ◌≤◌, ◌≡◌, ◌≢◌, refl, ◌∙◌, Bool, true, false, ◌&&◌, ◌||◌, some, List, [], ◌∷◌, ◌++◌,
  ◌==◌, leb, arith, length,
}
use shahi_n_kernel.Lang.Expression.{
  Doubles, Ast, Reads, and_then, skip_math_spaces, peek, is_digit, utf8_arabic_digit, ends_name,
  ast_number, ast_variable, ast_string, ast_neg,
}
use shahi_n_kernel.Lang.Parser.{
  parse_factor, factor_at, parse_comparison, parse_bracketed, parse_negated, parse_number_value,
  parse_decimal_value, parse_name, parse_string,
}
use shahi_n_kernel.Lang.Grammar.{IsName, AreDigits, numerals, value, none_of, is_quote}
use shahi_n_kernel.Lang.Grammar.Tokens.{
  ends_token, ends_token-name, no_bracket, skip-name, int_part-numerals, string_part-quoted,
  parse_variable_name-name, none_of-cons,
}

-- What a token's end does not start with.
no_point : (s : List ℕ) → ends_token s ≡ true → (peek 0 s == 46) ≡ false
unfolding peek ends_name
no_point [] e = refl
no_point (c ∷ s) e = let ends = ends_token-name c s e in ground (arith, ends)

no_hex : (s : List ℕ) → ends_token s ≡ true → (peek 0 s == 120) || (peek 0 s == 88) ≡ false
unfolding peek ends_name
no_hex [] e = refl
no_hex (c ∷ s) e = let ends = ends_token-name c s e in ground (arith, ends)

length-numerals : (digits s : List ℕ) → length digits ≤ length (numerals digits ++ s)
unfolding numerals
length-numerals [] s = omega arith
length-numerals (x ∷ digits) s = let rest = length-numerals digits s in omega (arith, rest)

arabic-end :
    (c : ℕ) (name s : List ℕ)
    → ends_token s ≡ true
    → utf8_arabic_digit (c ∷ name) ≡ false
    → utf8_arabic_digit (c ∷ (name ++ s)) ≡ false
unfolding utf8_arabic_digit peek ends_name
arabic-end c [] [] e h = h
arabic-end c [] (x ∷ s) e h = let ends = ends_token-name x s e in ground (arith, ends)
arabic-end c (x ∷ name) s e h = h

not_symbol :
    (c : ℕ)
    → ends_name c ≡ false
    → ((c == 40) ≡ false)
      × ((c == 123) ≡ false)
      × ((c == 45) ≡ false)
      × ((c == 32) || (c == 9) ≡ false)
unfolding ends_name
not_symbol c h = (ground (arith, h), ground (arith, h), ground (arith, h), ground (arith, h))

not_number :
    (c : ℕ) (a b : Bool)
    → a || (c == 46) || (c == 34) || b ≡ false
    → (a ≡ false) × ((c == 46) ≡ false) × ((c == 34) ≡ false) × (b ≡ false)
not_number c a b h = (ground (arith, h), ground (arith, h), ground (arith, h), ground (arith, h))

module _ (d : Doubles) (fuel : ℕ) (factor : Reads d.Double) where
  factor_at-digit :
      (c : ℕ) (s : List ℕ)
      → leb 48 c && leb c 57 ≡ true
      → factor_at d fuel factor (c ∷ s) ≡ parse_number_value d (c ∷ s)
  unfolding factor_at is_digit peek
  factor_at-digit c s h = ground (arith, h)

  factor_at-quote : (s : List ℕ) → factor_at d fuel factor (34 ∷ s) ≡ parse_string s
  unfolding factor_at peek
  factor_at-quote s = refl

  factor_at-minus : (s : List ℕ) → factor_at d fuel factor (45 ∷ s) ≡ parse_negated d factor s
  unfolding factor_at peek
  factor_at-minus s = refl

  factor_at-bracket :
      (s : List ℕ)
      → factor_at d fuel factor (40 ∷ s) ≡ parse_bracketed d (parse_comparison fuel factor) s
  unfolding factor_at peek
  factor_at-bracket s = refl

  factor_at-name :
      (name s : List ℕ)
      → IsName name
      → ends_token s ≡ true
      → factor_at d fuel factor (name ++ s)
        ≡ parse_name d fuel (parse_comparison fuel factor) (name ++ s)
  unfolding factor_at IsName peek
  factor_at-name [] s h e = absurd (h.0 refl)
  factor_at-name (c ∷ name) s h e =
      let marks = not_symbol c (none_of-cons ends_name c name h.1).0 in
      let looks = not_number c (is_digit c) (utf8_arabic_digit (c ∷ name)) h.2 in
      let some_bytes : (length (c ∷ (name ++ s)) == 0) ≡ false = ground arith in
      rw
        (
          marks.0,
          marks.1,
          marks.2,
          looks.2,
          looks.0,
          looks.1,
          arabic-end c name s e looks.3,
          some_bytes,
        )
        refl

-- Each kind of factor, read up to its end.
module _ (d : Doubles) where
  numeral-value :
      (digits s : List ℕ)
      → digits ≢ []
      → AreDigits digits
      → ends_token s ≡ true
      → parse_decimal_value d (numerals digits ++ s)
        ≡ some (ast_number (d.of_i64 (value 0 digits)), s)
  unfolding parse_decimal_value
  numeral-value [] s h are end = absurd (h refl)
  numeral-value (x ∷ digits) s h are end =
      let whole =
        int_part-numerals (length (numerals (x ∷ digits) ++ s)) 0 0 (x ∷ digits) s are end
          (length-numerals (x ∷ digits) s) in
      let some_digits : (0 + length (x ∷ digits) == 0) ≡ false = ground arith in
      rw (whole, no_point s end, some_digits) refl

  digits-decimal :
      (digits s : List ℕ)
      → AreDigits digits
      → ends_token s ≡ true
      → (x : ℕ) → x ≤ 9
      → parse_number_value d (numerals (x ∷ digits) ++ s)
        ≡ parse_decimal_value d (numerals (x ∷ digits) ++ s)
  unfolding parse_number_value numerals skip_math_spaces peek AreDigits
  digits-decimal [] s are end x small =
      let no_blank : (x + 48 == 32) || (x + 48 == 9) ≡ false = ground arith in
      rw (no_blank, no_hex s end) (ground arith)
  digits-decimal (y ∷ digits) s are end x small =
      let no_blank : (x + 48 == 32) || (x + 48 == 9) ≡ false = ground arith in
      let no_x : (y + 48 == 120) || (y + 48 == 88) ≡ false = ground (arith, are.0) in
      rw (no_blank, no_x) (ground arith)

  pub numeral_factor :
      (fuel : ℕ) (digits s : List ℕ)
      → digits ≢ []
      → AreDigits digits
      → ends_token s ≡ true
      → parse_factor d (suc fuel) (numerals digits ++ s)
        ≡ some (ast_number (d.of_i64 (value 0 digits)), s)
  unfolding parse_factor numerals skip_math_spaces AreDigits
  numeral_factor fuel [] s h are end = absurd (h refl)
  numeral_factor fuel (x ∷ digits) s h are end =
      let no_blank : (x + 48 == 32) || (x + 48 == 9) ≡ false = ground arith in
      let digit : leb 48 (x + 48) && leb (x + 48) 57 ≡ true = ground (arith, are.0) in
      rw no_blank (
        factor_at-digit d fuel (parse_factor d fuel) (x + 48) (numerals digits ++ s) digit
        ∙ digits-decimal digits s are.1 end x are.0
        ∙ numeral-value (x ∷ digits) s h are end)

  pub variable_factor :
      (fuel : ℕ) (name s : List ℕ)
      → IsName name
      → ends_token s ≡ true
      → parse_factor d (suc fuel) (name ++ s) ≡ some (ast_variable name, skip_math_spaces s)
  unfolding parse_factor parse_name and_then
  variable_factor fuel name s h end = rw (skip-name name s h) (
      factor_at-name d fuel (parse_factor d fuel) name s h end
      ∙ rw (parse_variable_name-name name s h end, no_bracket s end) refl)

  pub quoted_factor :
      (fuel : ℕ) (bytes s : List ℕ)
      → none_of is_quote bytes ≡ true
      → parse_factor d (suc fuel) (34 ∷ (bytes ++ 34 ∷ s)) ≡ some (ast_string bytes, s)
  unfolding parse_factor parse_string skip_math_spaces
  quoted_factor fuel bytes s h =
      factor_at-quote d fuel (parse_factor d fuel) (bytes ++ 34 ∷ s)
      ∙ rw (string_part-quoted bytes s h) (ground arith)

  pub negated_factor :
      (fuel : ℕ) (t : Ast d.Double) (x rest : List ℕ)
      → parse_factor d fuel x ≡ some (t, rest)
      → parse_factor d (suc fuel) (45 ∷ x) ≡ some (ast_neg t, rest)
  unfolding parse_factor parse_negated skip_math_spaces and_then
  negated_factor fuel t x rest e = factor_at-minus d fuel (parse_factor d fuel) x ∙ rw e refl

  pub bracketed_factor :
      (fuel : ℕ) (t : Ast d.Double) (x s rest : List ℕ)
      → parse_comparison fuel (parse_factor d fuel) x ≡ some (t, rest)
      → skip_math_spaces rest ≡ 41 ∷ s
      → parse_factor d (suc fuel) (40 ∷ x) ≡ some (t, s)
  unfolding parse_factor parse_bracketed skip_math_spaces and_then peek
  bracketed_factor fuel t x s rest e z =
      factor_at-bracket d fuel (parse_factor d fuel) x ∙ rw (e, z) refl
