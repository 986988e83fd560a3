-- ===== src/Lang/Grammar.antt =====
-- The grammar of expressions, told apart from their reader: expressions with their brackets and the
-- blanks around operators, the bytes of each, the tree that each stands for, and what may stand
-- where without brackets.
pub mod Tokens
pub mod Levels
pub mod Spine
pub mod Factors
pub mod Reading
pub mod Round
mod Tests
use shahi_n_kernel.Prelude.{
  ℕ, zero, suc, ◌+◌, ◌-◌, ◌*◌, ◌%◌, ◌^◌, ◌≤◌, ◌≡◌, ◌≢◌, Bool, true, false, not, ◌&&◌, ◌||◌, Option,
  none, some, List, [], ◌∷◌, ◌++◌, ltb, leb, ◌==◌, if◌then◌else◌, length,
}
use shahi_n_kernel.Lang.Expression.{
  Doubles, Op, Ast, ast_number, ast_string, ast_variable, ast_binary, ast_neg, peek, is_digit,
  utf8_arabic_digit, ends_name, ast_add, ast_sub, ast_mul, ast_div, ast_mod, ast_shl, ast_shr,
  ast_bit_and, ast_bit_or, ast_bit_xor, ast_cmp_eq, ast_cmp_neq, ast_cmp_lt, ast_cmp_lte,
  ast_cmp_gt, ast_cmp_gte, ast_and, ast_or,
}

-- A numeral is its decimal digits. `binary op m n l r` has m blanks in front of the operator and n
-- behind it.
pub data Expr : Type 0 where
  numeral variable quoted : List ℕ → Expr
  negated bracketed : Expr → Expr
  binary : Op → ℕ → ℕ → Expr → Expr → Expr

-- How weakly an operator binds: 1 for products up to 9 for comparisons.
unfoldable pub rank : Op → ℕ
rank ast_mul = 1
rank ast_div = 1
rank ast_mod = 1
rank ast_add = 2
rank ast_sub = 2
rank ast_shl = 3
rank ast_shr = 3
rank ast_bit_and = 4
rank ast_bit_xor = 5
rank ast_bit_or = 6
rank ast_and = 7
rank ast_or = 8
rank ast_cmp_eq = 9
rank ast_cmp_neq = 9
rank ast_cmp_lt = 9
rank ast_cmp_lte = 9
rank ast_cmp_gt = 9
rank ast_cmp_gte = 9

unfoldable pub symbol : Op → List ℕ
symbol ast_mul = 42 ∷ []
symbol ast_div = 47 ∷ []
symbol ast_mod = 37 ∷ []
symbol ast_add = 43 ∷ []
symbol ast_sub = 45 ∷ []
symbol ast_shl = 60 ∷ 60 ∷ []
symbol ast_shr = 62 ∷ 62 ∷ []
symbol ast_bit_and = 38 ∷ []
symbol ast_bit_xor = 94 ∷ []
symbol ast_bit_or = 124 ∷ []
symbol ast_and = 38 ∷ 38 ∷ []
symbol ast_or = 124 ∷ 124 ∷ []
symbol ast_cmp_eq = 61 ∷ 61 ∷ []
symbol ast_cmp_neq = 33 ∷ 61 ∷ []
symbol ast_cmp_lt = 60 ∷ []
symbol ast_cmp_lte = 60 ∷ 61 ∷ []
symbol ast_cmp_gt = 62 ∷ []
symbol ast_cmp_gte = 62 ∷ 61 ∷ []

unfoldable pub blanks : ℕ → List ℕ
blanks zero = []
blanks (suc n) = 32 ∷ blanks n

unfoldable pub numerals : List ℕ → List ℕ
numerals [] = []
numerals (x ∷ digits) = (x + 48) ∷ numerals digits

-- The bytes of an expression.
unfoldable pub text : Expr → List ℕ
unfolding symbol blanks numerals
text (numeral digits) = numerals digits
text (variable name) = name
text (quoted bytes) = 34 ∷ bytes ++ 34 ∷ []
text (negated e) = 45 ∷ text e
text (bracketed e) = 40 ∷ text e ++ 41 ∷ []
text (binary op m n l r) = text l ++ blanks m ++ symbol op ++ blanks n ++ text r

-- The number that digits stand for, in 64 bits.
unfoldable pub value : ℕ → List ℕ → ℕ
value n [] = n
value n (x ∷ digits) = value ((n * 10 + x) % 2 ^ 64) digits

-- The tree that is meant.
unfoldable pub tree : (d : Doubles) → Expr → Ast d.Double
unfolding value
tree d (numeral digits) = ast_number (d.of_i64 (value 0 digits))
tree d (variable name) = ast_variable name
tree d (quoted bytes) = ast_string bytes
tree d (negated e) = ast_neg (tree d e)
tree d (bracketed e) = tree d e
tree d (binary op m n l r) = ast_binary op (tree d l) (tree d r)

unfoldable pub AreDigits : List ℕ → Type 0
AreDigits [] = Unit
AreDigits (x ∷ digits) = (x ≤ 9) × AreDigits digits

-- Whether a test fails of every byte.
unfoldable pub none_of : (ℕ → Bool) → List ℕ → Bool
none_of test [] = true
none_of test (c ∷ s) = not (test c) && none_of test s

abbrev pub is_quote : ℕ → Bool
is_quote c = c == 34

-- A name does not look like the start of a number or of a string.
unfoldable pub IsName : List ℕ → Type 0
IsName name =
    (name ≢ [])
    × (none_of ends_name name ≡ true)
    × (is_digit (peek 0 name)
          || (peek 0 name == 46)
          || (peek 0 name == 34)
          || utf8_arabic_digit name
        ≡ false)

-- What may stand where operators of rank up to `n` may: these join from the left, so that on the
-- right only lower ranks may follow; a comparison has lower ranks on both sides.
unfoldable pub Fits : (n : ℕ) → Expr → Type 0
Fits n (numeral digits) = (digits ≢ []) × AreDigits digits
Fits n (variable name) = IsName name
Fits n (quoted bytes) = none_of is_quote bytes ≡ true
Fits n (negated e) = Fits 0 e
Fits n (bracketed e) = Fits 9 e
Fits n (binary op i j l r) =
    (rank op ≤ n) × Fits (if rank op == 9 then 8 else rank op) l × Fits (rank op - 1) r
