-- ===== src/Lang/Grammar/Tokens.antt =====
-- Reading the atoms of an expression and the operators between them.
use shahi_n_kernel.Prelude.{
  ℕ, zero, suc, ◌+◌, ◌*◌, ◌%◌, ◌^◌, ◌≤◌, ◌<◌, ◌≡◌, ◌≢◌, refl, ap, ◌∙◌, Bool, true, false, not, ◌&&◌,
  ◌||◌, Option, none, some, List, [], ◌∷◌, ◌++◌, leb, ◌==◌, if◌then◌else◌, length, arith,
}
use shahi_n_kernel.Lang.Expression.{
  Op, peek, skip_math_spaces, is_digit, utf8_arabic_digit, digit_at, int_part, string_part,
  name_part, parse_variable_name_dyn, ends_name, term_op, sum_op, shift_op, bitand_op, bitxor_op,
  bitor_op, and_op, or_op, cmp_op, ast_add, ast_sub, ast_mul, ast_div, ast_mod, ast_shl, ast_shr,
  ast_bit_and, ast_bit_or, ast_bit_xor, ast_cmp_eq, ast_cmp_neq, ast_cmp_lt, ast_cmp_lte,
  ast_cmp_gt, ast_cmp_gte, ast_and, ast_or,
}
use shahi_n_kernel.Lang.Grammar.{
  rank, symbol, numerals, value, AreDigits, none_of, is_quote, IsName,
}

-- Where a token ends: at a byte that ends a name, and no opening bracket follows.
unfoldable pub ends_token : List ℕ → Bool
ends_token [] = true
ends_token (c ∷ s) = ends_name c && not (peek 0 (skip_math_spaces (c ∷ s)) == 40)

pub no_bracket : (s : List ℕ) → ends_token s ≡ true → (peek 0 (skip_math_spaces s) == 40) ≡ false
unfolding ends_token peek skip_math_spaces
no_bracket [] e = refl
no_bracket (c ∷ s) e = bracket_free (ends_name c) (peek 0 (skip_math_spaces (c ∷ s)) == 40) e
  where
    bracket_free : (a b : Bool) → a && not b ≡ true → b ≡ false
    bracket_free a b h = ground (arith, h)

pub ends_token-name : (c : ℕ) (s : List ℕ) → ends_token (c ∷ s) ≡ true → ends_name c ≡ true
unfolding ends_token
ends_token-name c s e = first_true (ends_name c) (not (peek 0 (skip_math_spaces (c ∷ s)) == 40)) e
  where
    first_true : (a b : Bool) → a && b ≡ true → a ≡ true
    first_true a b h = ground (arith, h)

-- The operators of a rank.
unfoldable pub op_at : (n : ℕ) → List ℕ → Option (Op × List ℕ)
op_at n s =
    if n == 1
    then term_op s
    else if n == 2
    then sum_op s
    else if n == 3
    then shift_op s
    else if n == 4
    then bitand_op s
    else if n == 5
    then bitxor_op s
    else if n == 6
    then bitor_op s
    else if n == 7
    then and_op s
    else if n == 8
    then or_op s
    else if n == 9
    then cmp_op s
    else none

-- A byte that starts no operator.
unfoldable pub starts_plain : List ℕ → Bool
unfolding peek
starts_plain s =
    let c = peek 0 s in
    not ((c == 38) || (c == 124) || (c == 60) || (c == 62) || (c == 61) || (c == 33))

-- An operator is read at its rank.
pub op_at-symbol :
    (op : Op) (s : List ℕ) → starts_plain s ≡ true → op_at (rank op) (symbol op ++ s) ≡ some (op, s)
unfolding op_at rank symbol starts_plain term_op sum_op shift_op bitand_op bitxor_op bitor_op and_op
    or_op cmp_op peek
op_at-symbol ast_mul s h = refl
op_at-symbol ast_div s h = refl
op_at-symbol ast_mod s h = refl
op_at-symbol ast_add s h = refl
op_at-symbol ast_sub s h = refl
op_at-symbol ast_shl s h = refl
op_at-symbol ast_shr s h = refl
op_at-symbol ast_bit_and s h = ground (arith, h)
op_at-symbol ast_bit_or s h = ground (arith, h)
op_at-symbol ast_bit_xor s h = refl
op_at-symbol ast_cmp_eq s h = refl
op_at-symbol ast_cmp_neq s h = refl
op_at-symbol ast_cmp_lt s h = ground (arith, h)
op_at-symbol ast_cmp_lte s h = refl
op_at-symbol ast_cmp_gt s h = ground (arith, h)
op_at-symbol ast_cmp_gte s h = refl
op_at-symbol ast_and s h = refl
op_at-symbol ast_or s h = refl

-- And none at a lower one.
pub op_at-lower :
    (n : ℕ) (op : Op) (s : List ℕ)
    → n < rank op
    → starts_plain s ≡ true
    → op_at n (symbol op ++ s) ≡ none
unfolding op_at rank symbol starts_plain term_op sum_op shift_op bitand_op bitxor_op bitor_op and_op
    or_op cmp_op peek
op_at-lower n ast_mul s l h = ground arith
op_at-lower n ast_div s l h = ground arith
op_at-lower n ast_mod s l h = ground arith
op_at-lower n ast_add s l h = ground arith
op_at-lower n ast_sub s l h = ground arith
op_at-lower n ast_shl s l h = ground arith
op_at-lower n ast_shr s l h = ground arith
op_at-lower n ast_bit_and s l h = ground arith
op_at-lower n ast_bit_or s l h = ground arith
op_at-lower n ast_bit_xor s l h = ground arith
op_at-lower n ast_cmp_eq s l h = ground arith
op_at-lower n ast_cmp_neq s l h = ground arith
op_at-lower n ast_cmp_lt s l h = ground (arith, h)
op_at-lower n ast_cmp_lte s l h = ground arith
op_at-lower n ast_cmp_gt s l h = ground (arith, h)
op_at-lower n ast_cmp_gte s l h = ground arith
op_at-lower n ast_and s l h = ground arith
op_at-lower n ast_or s l h = ground arith

-- Nor at the end of a bracket or of the bytes.
pub op_at-close : (n : ℕ) (s : List ℕ) → op_at n (41 ∷ s) ≡ none
unfolding op_at term_op sum_op shift_op bitand_op bitxor_op bitor_op and_op or_op cmp_op peek
op_at-close n s = ground arith

pub op_at-nil : (n : ℕ) → op_at n [] ≡ none
unfolding op_at term_op sum_op shift_op bitand_op bitxor_op bitor_op and_op or_op cmp_op peek
op_at-nil n = ground arith

pub string_part-quoted :
    (bytes s : List ℕ)
    → none_of is_quote bytes ≡ true
    → string_part (bytes ++ 34 ∷ s) ≡ (bytes, 34 ∷ s)
unfolding string_part none_of
string_part-quoted [] s h = refl
string_part-quoted (c ∷ bytes) s h =
    let rest = string_part-quoted bytes s (ground (arith, h)) in ground (arith, h, rest)

pub none_of-cons :
    (test : ℕ → Bool) (c : ℕ) (s : List ℕ)
    → none_of test (c ∷ s) ≡ true
    → (test c ≡ false) × (none_of test s ≡ true)
unfolding none_of
none_of-cons test c s h = (ground (arith, h), ground (arith, h))

name_part-name :
    (name s : List ℕ)
    → none_of ends_name name ≡ true
    → ends_token s ≡ true
    → name_part (name ++ s) ≡ (name, s)
unfolding name_part none_of
name_part-name [] [] h e = refl
name_part-name [] (c ∷ s) h e = rw (ends_token-name c s e) refl
name_part-name (c ∷ name) s h e =
    let parts = none_of-cons ends_name c name h in
    let rest = name_part-name name s parts.1 e in
    rw parts.0 (ap (λ (r : List ℕ × List ℕ). (c ∷ r.0, r.1)) rest)

no_blank : (c : ℕ) → ends_name c ≡ false → (c == 32) || (c == 9) ≡ false
unfolding ends_name
no_blank c h = ground (arith, h)

pub skip-name : (name s : List ℕ) → IsName name → skip_math_spaces (name ++ s) ≡ name ++ s
unfolding IsName skip_math_spaces none_of
skip-name [] s h = absurd (h.0 refl)
skip-name (c ∷ name) s h =
    let parts = none_of-cons ends_name c name h.1 in rw (no_blank c parts.0) refl

length-nonempty : (name : List ℕ) → name ≢ [] → (length name == 0) ≡ false
length-nonempty [] h = absurd (h refl)
length-nonempty (c ∷ name) h = ground arith

-- A name is read whole, up to a byte that ends it.
pub parse_variable_name-name :
    (name s : List ℕ)
    → IsName name
    → ends_token s ≡ true
    → parse_variable_name_dyn (name ++ s) ≡ some (name, s)
unfolding parse_variable_name_dyn IsName
parse_variable_name-name name s h e =
    rw (skip-name name s h, name_part-name name s h.1 e, length-nonempty name h.0) refl

-- A token's end is no digit.
no_digit : (s : List ℕ) → ends_token s ≡ true → digit_at s ≡ none
unfolding digit_at ends_name is_digit utf8_arabic_digit peek
no_digit [] e = refl
no_digit (c ∷ s) e = let ends = ends_token-name c s e in ground (arith, ends)

digit_at-numeral : (x : ℕ) (s : List ℕ) → x ≤ 9 → digit_at ((x + 48) ∷ s) ≡ some (x, s)
unfolding digit_at is_digit peek
digit_at-numeral x s h =
    let digit : leb 48 (x + 48) && leb (x + 48) 57 ≡ true = ground arith in
    rw digit (ap (λ n. some (n, s)) (omega arith))

int_part-none :
    (fuel n k : ℕ) (s : List ℕ) → digit_at s ≡ none → int_part (suc fuel) n k s ≡ (n, k, s)
unfolding int_part
int_part-none fuel n k s e = rw (int_part, e) refl

int_part-some :
    (fuel n k x : ℕ) (s t : List ℕ)
    → digit_at t ≡ some (x, s)
    → int_part (suc fuel) n k t ≡ int_part fuel ((n * 10 + x) % 2 ^ 64) (k + 1) s
unfolding int_part
int_part-some fuel n k x s t e = rw (int_part, e) refl

-- Digits are read up to the token's end.
pub int_part-numerals :
    (fuel n k : ℕ) (digits s : List ℕ)
    → AreDigits digits
    → ends_token s ≡ true
    → length digits ≤ fuel
    → int_part fuel n k (numerals digits ++ s) ≡ (value n digits, k + length digits, s)
unfolding int_part numerals value AreDigits
int_part-numerals zero n k [] s h e l = ap (λ m. (n, m, s)) (omega arith)
int_part-numerals (suc fuel) n k [] s h e l =
    rw (int_part-none fuel n k s (no_digit s e)) (ap (λ m. (n, m, s)) (omega arith))
int_part-numerals zero n k (x ∷ digits) s h e l = absurd (omega arith)
int_part-numerals (suc fuel) n k (x ∷ digits) s h e l =
    let rest =
      int_part-numerals fuel ((n * 10 + x) % 2 ^ 64) (k + 1) digits s h.1 e (omega arith) in
    int_part-some fuel n k x (numerals digits ++ s) ((x + 48) ∷ (numerals digits ++ s))
      (digit_at-numeral x (numerals digits ++ s) h.0)
    ∙ rest
    ∙ ap (λ m. (value ((n * 10 + x) % 2 ^ 64) digits, m, s)) (omega arith)
