-- ===== src/Lang/Grammar/Reading.antt =====
-- The reader gives every expression of the grammar its tree.
use shahi_n_kernel.Prelude.{
  ℕ, zero, suc, ◌+◌, ◌-◌, ◌≤◌, ◌<◌, ◌≡◌, refl, ap, ◌∙◌, true, false, none, some, List, ◌++◌, ◌==◌,
  if◌then◌else◌, arith, Bool-cases, inl, inr,
}
use mathlib.Core.Path.{subst}
use shahi_n_kernel.Lang.Expression.{
  ast_add, ast_sub, ast_mul, ast_div, ast_mod, ast_shl, ast_shr, ast_bit_and, ast_bit_or,
  ast_bit_xor, ast_cmp_eq, ast_cmp_neq, ast_cmp_lt, ast_cmp_lte, ast_cmp_gt, ast_cmp_gte, ast_and,
  ast_or, Doubles, Op, Ast, Reads, and_then, skip_math_spaces, ast_binary, cmp_op,
}
use shahi_n_kernel.Lang.Parser.{parse_factor, parse_comparison, compare_with, parse_logical_or}
use shahi_n_kernel.Lang.Grammar.{
  Expr, rank, symbol, blanks, text, tree, Fits, binary, numeral, variable, quoted, negated,
  bracketed,
}
use shahi_n_kernel.Lang.Grammar.Tokens.{op_at, ends_token, op_at-symbol}
use shahi_n_kernel.Lang.Grammar.Levels.{skip-skip, parse_logical_or-tower}
use shahi_n_kernel.Lang.Grammar.Spine.{
  steps, Ends, Yields, reader, ReadsRank, LoopsRank, flat, lift, loops_binary, behind, text-binary,
  behind-ends, behind-Ends, skip-behind, behind_start, reader-blanks, reader-skip,
}

-- Fuel that is enough for an expression: one for each of its nodes.
unfoldable pub need : Expr → ℕ
need (numeral digits) = 1
need (variable name) = 1
need (quoted bytes) = 1
need (negated e) = suc (need e)
need (bracketed e) = suc (need e)
need (binary op i j l r) = need l + need r + 1

pub need_pos : (e : Expr) → 0 < need e
unfolding need
need_pos (numeral digits) = omega arith
need_pos (variable name) = omega arith
need_pos (quoted bytes) = omega arith
need_pos (negated e) = omega arith
need_pos (bracketed e) = omega arith
need_pos (binary op i j l r) = omega arith

steps-need : (n : ℕ) (e : Expr) → steps n e < need e
unfolding steps need
steps-need n (numeral digits) = omega arith
steps-need n (variable name) = omega arith
steps-need n (quoted bytes) = omega arith
steps-need n (negated e) = omega arith
steps-need n (bracketed e) = omega arith
steps-need n (binary op i j l r) =
    let left = steps-need n l in let right = need_pos r in ground (arith, left, right)

steps-other :
    (n : ℕ) (op : Op) (i j : ℕ) (l r : Expr)
    → (rank op == n) ≡ false
    → steps n (binary op i j l r) ≡ 0
unfolding steps
steps-other n op i j l r e = rw e refl

rank_pos : (op : Op) → 0 < rank op
unfolding rank
rank_pos op = elim op as (λ k. 0 < rank k) [
  | ast_mul ↦ omega arith
  | ast_div ↦ omega arith
  | ast_mod ↦ omega arith
  | ast_add ↦ omega arith
  | ast_sub ↦ omega arith
  | ast_shl ↦ omega arith
  | ast_shr ↦ omega arith
  | ast_bit_and ↦ omega arith
  | ast_bit_or ↦ omega arith
  | ast_bit_xor ↦ omega arith
  | ast_cmp_eq ↦ omega arith
  | ast_cmp_neq ↦ omega arith
  | ast_cmp_lt ↦ omega arith
  | ast_cmp_lte ↦ omega arith
  | ast_cmp_gt ↦ omega arith
  | ast_cmp_gte ↦ omega arith
  | ast_and ↦ omega arith
  | ast_or ↦ omega arith
]

module _ (d : Doubles) (fuel : ℕ) where
  abbrev pub comparison : Reads d.Double
  comparison = parse_comparison fuel (parse_factor d fuel)

  unfoldable pub ReadsWhole : Expr → Type 0
  ReadsWhole e =
      (s : List ℕ) → ends_token s ≡ true → Ends 9 s → Yields comparison (tree d e) (text e ++ s) s

  -- What is read of an expression, where it fits.
  pub record Good (e : Expr) : Type 0 where
    pub reads : (n : ℕ) → n ≤ 8 → Fits n e → ReadsRank d fuel n e
    pub loops : (n : ℕ) → n ≤ 7 → Fits (suc n) e → LoopsRank d fuel n e
    pub compares : Fits 9 e → ReadsWhole e

  comparison-reader :
      (x : List ℕ)
      → comparison x
        ≡ and_then (reader d fuel 8 x) (λ r. compare_with fuel (parse_factor d fuel) r.0 r.1)
  unfolding parse_comparison
  comparison-reader x =
      ap
        (λ (p : Reads d.Double).
          and_then (p x) (λ r. compare_with fuel (parse_factor d fuel) r.0 r.1))
        (parse_logical_or-tower fuel (parse_factor d fuel))

  compare_with-none :
      (left : Ast d.Double) (s : List ℕ)
      → cmp_op (skip_math_spaces s) ≡ none
      → compare_with fuel (parse_factor d fuel) left s ≡ some (left, skip_math_spaces s)
  unfolding compare_with
  compare_with-none left s e = rw (compare_with, e) refl

  compare_with-some :
      (left right : Ast d.Double) (op : Op) (s behind rest : List ℕ)
      → cmp_op (skip_math_spaces s) ≡ some (op, behind)
      → parse_logical_or fuel (parse_factor d fuel) (skip_math_spaces behind) ≡ some (right, rest)
      → compare_with fuel (parse_factor d fuel) left s ≡ some (ast_binary op left right, rest)
  unfolding compare_with and_then
  compare_with-some left right op s behind rest e h = rw (compare_with, e, h) refl

  -- A rank below the comparisons: none follows.
  compares_plain : (e : Expr) → ReadsRank d fuel 8 e → ReadsWhole e
  unfolding ReadsWhole ReadsRank Yields Ends and_then op_at
  compares_plain e reads s end ends =
      let (rest, p, same) = reads s end (λ j pos l. ends j pos (omega arith)) in
      let none_there : cmp_op (skip_math_spaces rest) ≡ none =
        ap cmp_op same ∙ ends 9 (omega arith) (omega arith) in
      (
        skip_math_spaces s,
        comparison-reader (text e ++ s)
            ∙ rw p (compare_with-none (tree d e) rest none_there)
            ∙ ap (λ x. some (tree d e, x)) same,
        skip-skip s,
      )

  -- One comparison, of expressions of the rank below.
  compares_binary :
      (op : Op) (i j : ℕ) (l r : Expr)
      → rank op ≡ 9
      → Fits 8 r
      → ReadsRank d fuel 8 l
      → ReadsRank d fuel 8 r
      → ReadsWhole (binary op i j l r)
  unfolding ReadsWhole ReadsRank Yields Ends and_then op_at tree
  compares_binary op i j l r e fits left right s end ends =
      let tail = behind op i j r s in
      let after = blanks j ++ (text r ++ s) in
      let (rest, p, same) =
        left tail (behind-ends op i j r s) (behind-Ends 8 8 op i j r s (omega arith) fits) in
      let (rest', q, same') = right s end (λ k pos m. ends k pos (omega arith)) in
      let found : cmp_op (skip_math_spaces rest) ≡ some (op, after) =
        ap cmp_op same
        ∙ ap cmp_op (skip-behind op i j r s)
        ∙ subst (λ k. op_at k (symbol op ++ after) ≡ some (op, after)) e
            (op_at-symbol op after (behind_start 8 j r s fits)) in
      let operand : parse_logical_or fuel (parse_factor d fuel) (skip_math_spaces after)
          ≡ some (tree d r, rest') =
        ap (λ (p : Reads d.Double). p (skip_math_spaces after))
          (parse_logical_or-tower fuel (parse_factor d fuel))
        ∙ reader-skip d fuel 8 after
        ∙ reader-blanks d fuel 8 j (text r ++ s)
        ∙ q in
      (
        rest',
        rw (text-binary op i j l r s) (
            comparison-reader (text l ++ tail)
            ∙ rw p (compare_with-some (tree d l) (tree d r) op rest after rest' found operand)),
        same',
      )

  -- An expression without an operator of its own.
  pub Good-atom :
      (e : Expr)
      → ((n : ℕ) → Fits n e → Fits 0 e)
      → ((n : ℕ) → steps n e ≡ 0)
      → 0 < fuel
      → (Fits 0 e → ReadsRank d fuel 0 e)
      → Good e
  Good-atom e fits none_taken pos base = record {
    reads = λ n l h. at n (fits n h);
    loops = λ n l h. flat d fuel n e (none_taken (suc n)) (at n (fits (suc n) h));
    compares = λ h. compares_plain e (at 8 (fits 9 h));
  }
    where
      at : (n : ℕ) → Fits 0 e → ReadsRank d fuel n e
      at zero h = base h
      at (suc n) h =
          let taken = none_taken (suc n) in
          lift d fuel n e (omega (arith, taken)) (flat d fuel n e taken (at n h))

  -- An expression of two operands.
  loops_operands :
      (n : ℕ) (op : Op) (i j : ℕ) (l r : Expr)
      → n ≤ 7
      → Good l
      → Good r
      → Fits (suc n) (binary op i j l r)
      → (rank op ≤ n → ReadsRank d fuel n (binary op i j l r))
      → LoopsRank d fuel n (binary op i j l r)
  unfolding Fits
  loops_operands n op i j l r small left right h below = elim (Bool-cases (rank op == suc n)) [
    | inl e ↦
        let same : rank op ≡ suc n = ground (arith, e) in
        let low : (if rank op == 9 then 8 else rank op) ≡ suc n = ground (arith, e) in
        let less : rank op - 1 ≡ n = omega (arith, same) in
        let fits = subst (λ k. Fits k r) less h.2 in
        loops_binary d fuel n op i j l r same fits
          (left.loops n small (subst (λ k. Fits k l) low h.1)) (right.reads n (omega arith) fits)
    | inr e ↦
        flat d fuel n (binary op i j l r) (steps-other (suc n) op i j l r e)
          (below (ground (arith, e, h.0)))
  ]

  pub Good-binary :
      (op : Op) (i j : ℕ) (l r : Expr)
      → need (binary op i j l r) ≤ fuel
      → Good l
      → Good r
      → Good (binary op i j l r)
  unfolding Fits
  Good-binary op i j l r enough left right = record {
    reads = at;
    loops = λ n small h.
        loops_operands n op i j l r small left right h (λ l. at n (omega arith) (l, h.1, h.2));
    compares = comparing;
  }
    where
      at : (n : ℕ) → n ≤ 8 → Fits n (binary op i j l r) → ReadsRank d fuel n (binary op i j l r)
      at zero small h = absurd (omega (arith, rank_pos op, h.0))
      at (suc n) small h =
          lift d fuel n (binary op i j l r) (omega (arith, steps-need (suc n) (binary op i j l r)))
            (loops_operands n op i j l r (omega arith) left right h
              (λ b. at n (omega arith) (b, h.1, h.2)))

      comparing : Fits 9 (binary op i j l r) → ReadsWhole (binary op i j l r)
      comparing h = elim (Bool-cases (rank op == 9)) [
        | inl e ↦
            let low : (if rank op == 9 then 8 else rank op) ≡ 8 = ground (arith, e) in
            let less : rank op - 1 ≡ 8 = ground (arith, e) in
            let fits = subst (λ k. Fits k r) less h.2 in
            compares_binary op i j l r (ground (arith, e)) fits
              (left.reads 8 (omega arith) (subst (λ k. Fits k l) low h.1))
              (right.reads 8 (omega arith) fits)
        | inr e ↦
            compares_plain (binary op i j l r)
              (at 8 (omega arith) (ground (arith, e, h.0), h.1, h.2))
      ]
