-- ===== src/Lang/Grammar/Round.antt =====
-- Writing an expression and reading it again.
use shahi_n_kernel.Prelude.{
  ℕ, zero, suc, ◌+◌, ◌-◌, ◌≤◌, ◌<◌, ◌≡◌, refl, sym, ap, ◌∙◌, true, some, List, [], ◌∷◌, ◌++◌, ◌==◌,
  if◌then◌else◌, arith, length,
}
use mathlib.Core.List.{append_assoc, append-nil}
use shahi_n_kernel.Prelude.{length-append}
use shahi_n_kernel.Lang.Expression.{
  ast_add, ast_sub, ast_mul, ast_div, ast_mod, ast_shl, ast_shr, ast_bit_and, ast_bit_or,
  ast_bit_xor, ast_cmp_eq, ast_cmp_neq, ast_cmp_lt, ast_cmp_lte, ast_cmp_gt, ast_cmp_gte, ast_and,
  ast_or, Doubles, Op, skip_math_spaces, peek, ends_name,
}
use shahi_n_kernel.Lang.Parser.{parse_factor, parse_comparison, math_parse_ast, whole}
use shahi_n_kernel.Lang.Grammar.{
  Expr, IsName, rank, symbol, blanks, numerals, text, tree, Fits, binary, numeral, variable, quoted,
  negated, bracketed,
}
use shahi_n_kernel.Lang.Grammar.Tokens.{ends_token, op_at-close, op_at-nil}
use shahi_n_kernel.Lang.Grammar.Levels.{tower, skip-skip}
use shahi_n_kernel.Lang.Grammar.Spine.{steps, Ends, Yields, ReadsRank}
use shahi_n_kernel.Lang.Grammar.Factors.{
  numeral_factor, variable_factor, quoted_factor, negated_factor, bracketed_factor,
}
use shahi_n_kernel.Lang.Grammar.Reading.{need, need_pos, Good, ReadsWhole, Good-atom, Good-binary}

-- Bytes with a byte at their end, and others behind them.
closed : (x : ℕ) (a s : List ℕ) → a ++ x ∷ [] ++ s ≡ a ++ x ∷ s
closed x a s = append_assoc a (x ∷ []) s

Ends-close : (n : ℕ) (s : List ℕ) → Ends n (41 ∷ s)
unfolding Ends skip_math_spaces
Ends-close n s j pos l = op_at-close j s

Ends-nil : (n : ℕ) → Ends n []
unfolding Ends skip_math_spaces
Ends-nil n j pos l = op_at-nil j

close_token : (s : List ℕ) → ends_token (41 ∷ s) ≡ true
unfolding ends_token ends_name peek skip_math_spaces
close_token s = refl

-- Every expression is read with fuel for its nodes.
good : (d : Doubles) (fuel : ℕ) (e : Expr) → need e ≤ fuel → Good d fuel e
unfolding need Fits steps tree text ReadsRank Yields tower ReadsWhole skip_math_spaces
good d zero e l = absurd (omega (arith, need_pos e, l))
good d (suc f) (numeral digits) l =
    Good-atom d (suc f) (numeral digits) (λ n h. h) (λ n. refl) (omega arith)
      (λ h s end ends. (s, numeral_factor d f digits s h.0 h.1 end, refl))
good d (suc f) (variable name) l =
    Good-atom d (suc f) (variable name) (λ n h. h) (λ n. refl) (omega arith)
      (λ h s end ends. (skip_math_spaces s, variable_factor d f name s h end, skip-skip s))
good d (suc f) (quoted bytes) l =
    Good-atom d (suc f) (quoted bytes) (λ n h. h) (λ n. refl) (omega arith)
      (λ h s end ends. (
        s,
        ap (λ x. parse_factor d (suc f) (34 ∷ x)) (closed 34 bytes s) ∙ quoted_factor d f bytes s h,
        refl,
      ))
good d (suc f) (negated e) l =
    let inner = good d f e (omega arith) in
    Good-atom d (suc f) (negated e) (λ n h. h) (λ n. refl) (omega arith)
      (λ h s end ends.
        let (rest, p, same) = inner.reads 0 (omega arith) h s end ends in
        (rest, negated_factor d f (tree d e) (text e ++ s) rest p, same))
good d (suc f) (bracketed e) l =
    let inner = good d f e (omega arith) in
    Good-atom d (suc f) (bracketed e) (λ n h. h) (λ n. refl) (omega arith)
      (λ h s end ends.
        let (rest, p, same) = inner.compares h (41 ∷ s) (close_token s) (Ends-close 9 s) in
        (
          s,
          ap (λ x. parse_factor d (suc f) (40 ∷ x)) (closed 41 (text e) s)
              ∙ bracketed_factor d f (tree d e) (text e ++ 41 ∷ s) s rest p same,
          refl,
        ))
good d (suc f) (binary op i j l r) q =
    Good-binary d (suc f) op i j l r q (good d (suc f) l (omega arith))
      (good d (suc f) r (omega arith))

length-symbol : (op : Op) → 0 < length (symbol op)
unfolding symbol
length-symbol op = elim op as (λ k. 0 < length (symbol k)) [
  | ast_mul ↦ omega arith
  | ast_div ↦ omega arith
  | ast_mod ↦ omega arith
  | ast_add ↦ omega arith
  | ast_sub ↦ omega arith
  | ast_shl ↦ omega arith
  | ast_shr ↦ omega arith
  | ast_bit_and ↦ omega arith
  | ast_bit_or ↦ omega arith
  | ast_bit_xor ↦ omega arith
  | ast_cmp_eq ↦ omega arith
  | ast_cmp_neq ↦ omega arith
  | ast_cmp_lt ↦ omega arith
  | ast_cmp_lte ↦ omega arith
  | ast_cmp_gt ↦ omega arith
  | ast_cmp_gte ↦ omega arith
  | ast_and ↦ omega arith
  | ast_or ↦ omega arith
]

-- An expression has a byte for each node.
need-length : (n : ℕ) (e : Expr) → Fits n e → need e ≤ length (text e)
unfolding need Fits text numerals IsName
need-length n (numeral []) h = absurd (h.0 refl)
need-length n (numeral (x ∷ digits)) h = omega arith
need-length n (variable []) h = absurd (h.0 refl)
need-length n (variable (c ∷ name)) h = omega arith
need-length n (quoted bytes) h = omega arith
need-length n (negated e) h = let inner = need-length 0 e h in omega (arith, inner)
need-length n (bracketed e) h =
    let inner = need-length 9 e h in
    let joined = length-append (text e) (41 ∷ []) in omega (arith, inner, joined)
need-length n (binary op i j l r) h =
    let left = need-length (if rank op == 9 then 8 else rank op) l h.1 in
    let right = need-length (rank op - 1) r h.2 in
    let a = text l ++ blanks i in
    let b = a ++ symbol op in
    let c = b ++ blanks j in
    let joined = length-append c (text r) in
    omega (
      arith,
      left,
      right,
      joined,
      length-append b (blanks j),
      length-append a (symbol op),
      length-append (text l) (blanks i),
      length-symbol op,
    )

-- For an expression made of numerals, names, strings, negations, brackets and binary operators, with
-- any number of blanks around these, in which every operand stands where its rank may, reading its
-- bytes gives the tree that is meant: operators of one rank joined from the left, those of a lower
-- rank first, and one comparison at most.
pub math_parse_ast-text :
    (d : Doubles) (e : Expr) → Fits 9 e → math_parse_ast d (text e) ≡ some (tree d e)
unfolding math_parse_ast whole ReadsWhole Yields ends_token skip_math_spaces
math_parse_ast-text d e h =
    let fuel : ℕ = length (text e) + 1 in
    let all = good d fuel e (omega (arith, need-length 9 e h)) in
    let (rest, p, same) = all.compares h [] refl (Ends-nil 9) in
    let read : parse_comparison fuel (parse_factor d fuel) (text e) ≡ some (tree d e, rest) =
      ap (parse_comparison fuel (parse_factor d fuel)) (sym (append-nil (text e))) ∙ p in
    rw (read, same) refl
