-- ===== src/Lang/Grammar/Levels.antt =====
-- The levels of operators as a tower over the factors, and what its loops do.
use shahi_n_kernel.Prelude.{
  ℕ, zero, suc, ◌≡◌, refl, ap, ◌||◌, Option, none, some, List, [], ◌∷◌, ◌==◌, Bool-cases, inl, inr,
}
use shahi_n_kernel.Lang.Expression.{Doubles, Op, Ast, Reads, and_then, skip_math_spaces, ast_binary}
use shahi_n_kernel.Lang.Parser.{
  operand_at, operand_loop, level, parse_logical_or, parse_logical_and, parse_bitor, parse_bitxor,
  parse_bitand, parse_shift, math_parse_expression, parse_term, parse_factor,
}
use shahi_n_kernel.Lang.Grammar.Tokens.{op_at}

-- A blank in front makes no difference.
pub skip-skip : (s : List ℕ) → skip_math_spaces (skip_math_spaces s) ≡ skip_math_spaces s
unfolding skip_math_spaces
skip-skip [] = refl
skip-skip (c ∷ s) = elim (Bool-cases ((c == 32) || (c == 9))) [
  | inl e ↦ rw e (skip-skip s)
  | inr e ↦ rw e (rw e refl)
]

-- The reader of operators up to a rank.
unfoldable pub tower : {D : Type 0} (fuel : ℕ) (factor : Reads D) → ℕ → Reads D
tower fuel factor zero = factor
tower fuel factor (suc n) = level (op_at (suc n)) fuel (tower fuel factor n)

pub parse_logical_or-tower :
    {D : Type 0} (fuel : ℕ) (factor : Reads D) → parse_logical_or fuel factor ≡ tower fuel factor 8
unfolding tower op_at parse_logical_or parse_logical_and parse_bitor parse_bitxor parse_bitand
    parse_shift math_parse_expression parse_term
parse_logical_or-tower fuel factor = refl

-- The loop, by what stands in front of it.
module _ {D : Type 0} (ops : List ℕ → Option (Op × List ℕ)) (operand : Reads D) where
  pub operand_loop-same :
      (m : ℕ) (left : Ast D) (s s' : List ℕ)
      → skip_math_spaces s ≡ skip_math_spaces s'
      → operand_loop ops operand m left s ≡ operand_loop ops operand m left s'
  unfolding operand_loop
  operand_loop-same zero left s s' e = refl
  operand_loop-same (suc m) left s s' e =
      ap (operand_at ops operand (operand_loop ops operand m) left) e

  pub operand_loop-none :
      (m : ℕ) (left : Ast D) (s : List ℕ)
      → ops (skip_math_spaces s) ≡ none
      → operand_loop ops operand (suc m) left s ≡ some (left, skip_math_spaces s)
  unfolding operand_loop operand_at
  operand_loop-none m left s e = rw (operand_loop, operand_at, e) refl

  pub operand_loop-some :
      (m : ℕ) (left right : Ast D) (op : Op) (s behind rest : List ℕ)
      → ops (skip_math_spaces s) ≡ some (op, behind)
      → operand behind ≡ some (right, rest)
      → operand_loop ops operand (suc m) left s
        ≡ operand_loop ops operand m (ast_binary op left right) rest
  unfolding operand_loop operand_at and_then
  operand_loop-some m left right op s behind rest e h = rw (operand_loop, operand_at, e, h) refl

-- The tower skips blanks, as its factors do.
pub tower-skip :
    {D : Type 0} (fuel : ℕ) (factor : Reads D) (n : ℕ) (s : List ℕ)
    → factor (skip_math_spaces s) ≡ factor s
    → tower fuel factor n (skip_math_spaces s) ≡ tower fuel factor n s
unfolding tower level and_then
tower-skip fuel factor zero s e = e
tower-skip fuel factor (suc n) s e = rw (tower-skip fuel factor n s e) refl

pub parse_factor-skip :
    (d : Doubles) (fuel : ℕ) (s : List ℕ)
    → parse_factor d fuel (skip_math_spaces s) ≡ parse_factor d fuel s
unfolding parse_factor
parse_factor-skip d zero s = refl
parse_factor-skip d (suc fuel) s = rw (parse_factor, skip-skip s) refl
