-- ===== src/Lang/Grammar/Spine.antt =====
-- From the operands of an operator to the expression: what the loop of its level makes of the left
-- operands of the same rank, one round each.
use shahi_n_kernel.Prelude.{
  ℕ, zero, suc, ◌+◌, ◌-◌, ◌≤◌, ◌<◌, ◌≡◌, refl, sym, ap, ◌∙◌, true, false, not, ◌||◌, none, some,
  List, [], ◌∷◌, ◌++◌, ◌==◌, if◌then◌else◌, arith,
}
use mathlib.Core.Path.{subst}
use mathlib.Core.List.{append_assoc}
use shahi_n_kernel.Lang.Expression.{
  ast_add, ast_sub, ast_mul, ast_div, ast_mod, ast_shl, ast_shr, ast_bit_and, ast_bit_or,
  ast_bit_xor, ast_cmp_eq, ast_cmp_neq, ast_cmp_lt, ast_cmp_lte, ast_cmp_gt, ast_cmp_gte, ast_and,
  ast_or, Doubles, Op, Ast, Reads, and_then, skip_math_spaces, ast_binary, peek, ends_name,
}
use shahi_n_kernel.Lang.Parser.{operand_loop, level, parse_factor}
use shahi_n_kernel.Lang.Grammar.{
  Expr, rank, symbol, blanks, text, tree, Fits, binary, IsName, AreDigits, numerals, numeral,
  variable, quoted, negated, bracketed,
}
use shahi_n_kernel.Lang.Grammar.Tokens.{
  none_of-cons, op_at, ends_token, starts_plain, op_at-symbol, op_at-lower,
}
use shahi_n_kernel.Lang.Grammar.Levels.{
  tower, skip-skip, tower-skip, parse_factor-skip, operand_loop-same, operand_loop-none,
  operand_loop-some,
}

-- How many rounds of the loop of rank `n` an expression takes.
unfoldable pub steps : (n : ℕ) → Expr → ℕ
steps n (numeral digits) = 0
steps n (variable name) = 0
steps n (quoted bytes) = 0
steps n (negated e) = 0
steps n (bracketed e) = 0
steps n (binary op i j l r) = let rest = steps n l in if rank op == n then suc rest else 0

-- No operator up to a rank stands here.
unfoldable pub Ends : (n : ℕ) → List ℕ → Type 0
Ends n s = (j : ℕ) → 0 < j → j ≤ n → op_at j (skip_math_spaces s) ≡ none

-- A reader reads a tree off `x`, up to `s` but for blanks.
unfoldable pub Yields : {D : Type 0} → Reads D → Ast D → (x s : List ℕ) → Type 0
Yields p t x s =
    (rest : List ℕ) × (p x ≡ some (t, rest)) × (skip_math_spaces rest ≡ skip_math_spaces s)

module _ (d : Doubles) (fuel : ℕ) where
  abbrev pub reader : ℕ → Reads d.Double
  reader n = tower fuel (parse_factor d fuel) n

  abbrev pub loop : (n m : ℕ) → Ast d.Double → Reads d.Double
  loop n = operand_loop (op_at (suc n)) (reader n)

  -- What the reader of rank `n` and the loop of the next rank make of an expression.
  unfoldable pub ReadsRank : (n : ℕ) → Expr → Type 0
  ReadsRank n e =
      (s : List ℕ) → ends_token s ≡ true → Ends n s → Yields (reader n) (tree d e) (text e ++ s) s

  unfoldable pub LoopsRank : (n : ℕ) → Expr → Type 0
  LoopsRank n e =
      (m : ℕ) (s : List ℕ)
      → ends_token s ≡ true
      → Ends n s
      → and_then (reader n (text e ++ s)) (λ r. loop n (steps (suc n) e + m) r.0 r.1)
        ≡ loop n m (tree d e) s

  -- An expression that a rank reads without its own operators.
  pub flat : (n : ℕ) (e : Expr) → steps (suc n) e ≡ 0 → ReadsRank n e → LoopsRank n e
  unfolding LoopsRank ReadsRank Yields and_then
  flat n e z h m s end ends =
      let (rest, p, same) = h s end ends in
      let none_left : steps (suc n) e + m ≡ m = omega (arith, z) in
      rw (p, none_left) (operand_loop-same (op_at (suc n)) (reader n) m (tree d e) rest s same)

  -- And what its loop makes of it is what the next rank reads.
  pub lift : (n : ℕ) (e : Expr) → steps (suc n) e < fuel → LoopsRank n e → ReadsRank (suc n) e
  unfolding LoopsRank ReadsRank Yields Ends tower level
  lift n e enough h s end ends =
      let m : ℕ = fuel - steps (suc n) e - 1 in
      let rounds : steps (suc n) e + suc m ≡ fuel = omega arith in
      let looped = h (suc m) s end (λ j pos l. ends j pos (omega arith)) in
      let done =
        operand_loop-none (op_at (suc n)) (reader n) m (tree d e) s
          (ends (suc n) (omega arith) (omega arith)) in
      (
        skip_math_spaces s,
        subst
            (λ k.
              and_then (reader n (text e ++ s)) (λ r. loop n k r.0 r.1)
              ≡ some (tree d e, skip_math_spaces s))
            rounds (looped ∙ done),
        skip-skip s,
      )

-- The bytes behind the left operand.
unfoldable pub behind : Op → (i j : ℕ) → Expr → List ℕ → List ℕ
behind op i j r s = blanks i ++ (symbol op ++ (blanks j ++ (text r ++ s)))

pub text-binary :
    (op : Op) (i j : ℕ) (l r : Expr) (s : List ℕ)
    → text (binary op i j l r) ++ s ≡ text l ++ behind op i j r s
unfolding text behind
text-binary op i j l r s = simp append_assoc

pub skip-blanks : (n : ℕ) (s : List ℕ) → skip_math_spaces (blanks n ++ s) ≡ skip_math_spaces s
unfolding skip_math_spaces blanks
skip-blanks zero s = refl
skip-blanks (suc n) s = skip-blanks n s

pub skip-symbol : (op : Op) (s : List ℕ) → skip_math_spaces (symbol op ++ s) ≡ symbol op ++ s
unfolding skip_math_spaces symbol
skip-symbol op s = elim op as (λ k. skip_math_spaces (symbol k ++ s) ≡ symbol k ++ s) [
  | ast_mul ↦ refl
  | ast_div ↦ refl
  | ast_mod ↦ refl
  | ast_add ↦ refl
  | ast_sub ↦ refl
  | ast_shl ↦ refl
  | ast_shr ↦ refl
  | ast_bit_and ↦ refl
  | ast_bit_or ↦ refl
  | ast_bit_xor ↦ refl
  | ast_cmp_eq ↦ refl
  | ast_cmp_neq ↦ refl
  | ast_cmp_lt ↦ refl
  | ast_cmp_lte ↦ refl
  | ast_cmp_gt ↦ refl
  | ast_cmp_gte ↦ refl
  | ast_and ↦ refl
  | ast_or ↦ refl
]

-- A symbol ends a token, and is no bracket.
symbol_start :
    (op : Op) (s : List ℕ)
    → (ends_token (symbol op ++ s) ≡ true) × ((peek 0 (symbol op ++ s) == 40) ≡ false)
unfolding ends_token ends_name symbol skip_math_spaces peek
symbol_start op s =
    elim op
      as (λ k. (ends_token (symbol k ++ s) ≡ true) × ((peek 0 (symbol k ++ s) == 40) ≡ false)) [
        | ast_mul ↦ (refl, refl)
        | ast_div ↦ (refl, refl)
        | ast_mod ↦ (refl, refl)
        | ast_add ↦ (refl, refl)
        | ast_sub ↦ (refl, refl)
        | ast_shl ↦ (refl, refl)
        | ast_shr ↦ (refl, refl)
        | ast_bit_and ↦ (refl, refl)
        | ast_bit_or ↦ (refl, refl)
        | ast_bit_xor ↦ (refl, refl)
        | ast_cmp_eq ↦ (refl, refl)
        | ast_cmp_neq ↦ (refl, refl)
        | ast_cmp_lt ↦ (refl, refl)
        | ast_cmp_lte ↦ (refl, refl)
        | ast_cmp_gt ↦ (refl, refl)
        | ast_cmp_gte ↦ (refl, refl)
        | ast_and ↦ (refl, refl)
        | ast_or ↦ (refl, refl)
      ]

pub skip-behind :
    (op : Op) (i j : ℕ) (r : Expr) (s : List ℕ)
    → skip_math_spaces (behind op i j r s) ≡ symbol op ++ (blanks j ++ (text r ++ s))
unfolding behind
skip-behind op i j r s =
    skip-blanks i (symbol op ++ (blanks j ++ (text r ++ s)))
    ∙ skip-symbol op (blanks j ++ (text r ++ s))

blank-ends :
    (s : List ℕ) → (peek 0 (skip_math_spaces (32 ∷ s)) == 40) ≡ false → ends_token (32 ∷ s) ≡ true
unfolding ends_token ends_name
blank-ends s e = rw e refl

pub behind-ends :
    (op : Op) (i j : ℕ) (r : Expr) (s : List ℕ) → ends_token (behind op i j r s) ≡ true
unfolding behind blanks
behind-ends op zero j r s = (symbol_start op (blanks j ++ (text r ++ s))).0
behind-ends op (suc i) j r s = blank-ends (behind op i j r s) (
    ap (λ t. peek 0 t == 40) (skip-behind op (suc i) j r s)
    ∙ (symbol_start op (blanks j ++ (text r ++ s))).1)

plain_name :
    (c : ℕ)
    → ends_name c ≡ false
    → not ((c == 38) || (c == 124) || (c == 60) || (c == 62) || (c == 61) || (c == 33)) ≡ true
unfolding ends_name
plain_name c h = ground (arith, h)

-- An operand starts with a byte of no operator, and so do blanks in front of it.
operand_start : (n : ℕ) (e : Expr) (s : List ℕ) → Fits n e → starts_plain (text e ++ s) ≡ true
unfolding Fits text starts_plain numerals AreDigits IsName peek
operand_start n (numeral []) s h = absurd (h.0 refl)
operand_start n (numeral (x ∷ digits)) s h = ground (arith, h)
operand_start n (variable []) s h = absurd (h.0 refl)
operand_start n (variable (c ∷ name)) s h =
    let plain = none_of-cons ends_name c name h.1 in plain_name c plain.0
operand_start n (quoted bytes) s h = refl
operand_start n (negated e) s h = refl
operand_start n (bracketed e) s h = refl
operand_start n (binary op i j l r) s h =
    subst (λ x. starts_plain x ≡ true) (sym (text-binary op i j l r s))
      (operand_start (if rank op == 9 then 8 else rank op) l (behind op i j r s) h.1)

pub behind_start :
    (n j : ℕ) (r : Expr) (s : List ℕ) → Fits n r → starts_plain (blanks j ++ (text r ++ s)) ≡ true
unfolding blanks starts_plain peek
behind_start n zero r s h = operand_start n r s h
behind_start n (suc j) r s h = refl

-- No operator of a lower rank stands behind the left operand.
pub behind-Ends :
    (n m : ℕ) (op : Op) (i j : ℕ) (r : Expr) (s : List ℕ)
    → n < rank op
    → Fits m r
    → Ends n (behind op i j r s)
unfolding Ends
behind-Ends n m op i j r s below h k pos l =
    ap (op_at k) (skip-behind op i j r s)
    ∙ op_at-lower k op (blanks j ++ (text r ++ s)) (omega arith) (behind_start m j r s h)

steps-binary :
    (n : ℕ) (op : Op) (i j : ℕ) (l r : Expr)
    → rank op ≡ n
    → steps n (binary op i j l r) ≡ suc (steps n l)
unfolding steps
steps-binary n op i j l r e = let same : (rank op == n) ≡ true = ground (arith, e) in rw same refl

module _ (d : Doubles) (fuel : ℕ) where
  pub reader-skip : (n : ℕ) (s : List ℕ) → reader d fuel n (skip_math_spaces s) ≡ reader d fuel n s
  reader-skip n s = tower-skip fuel (parse_factor d fuel) n s (parse_factor-skip d fuel s)

  pub reader-blanks : (n j : ℕ) (s : List ℕ) → reader d fuel n (blanks j ++ s) ≡ reader d fuel n s
  reader-blanks n j s =
      sym (reader-skip n (blanks j ++ s)) ∙ ap (reader d fuel n) (skip-blanks j s) ∙ reader-skip n s

  -- A round of the loop: the left operand is read, then the operator and the right one.
  pub loops_binary :
      (n : ℕ) (op : Op) (i j : ℕ) (l r : Expr)
      → rank op ≡ suc n
      → Fits n r
      → LoopsRank d fuel n l
      → ReadsRank d fuel n r
      → LoopsRank d fuel n (binary op i j l r)
  unfolding LoopsRank ReadsRank Yields steps tree
  loops_binary n op i j l r e fits loops reads m s end ends =
      let tail = behind op i j r s in
      let right = blanks j ++ (text r ++ s) in
      let (rest, p, same) = reads s end ends in
      let rounds : steps (suc n) (binary op i j l r) + m ≡ steps (suc n) l + suc m =
        omega (arith, steps-binary (suc n) op i j l r e) in
      let first =
        loops (suc m) tail (behind-ends op i j r s)
          (behind-Ends n n op i j r s (omega arith) fits) in
      let found : op_at (suc n) (skip_math_spaces tail) ≡ some (op, right) =
        ap (op_at (suc n)) (skip-behind op i j r s)
        ∙ subst (λ k. op_at k (symbol op ++ right) ≡ some (op, right)) e
            (op_at-symbol op right (behind_start n j r s fits)) in
      let operand = reader-blanks n j (text r ++ s) ∙ p in
      let round =
        operand_loop-some (op_at (suc n)) (reader d fuel n) m (tree d l) (tree d r) op tail right
          rest found operand in
      let done =
        operand_loop-same (op_at (suc n)) (reader d fuel n) m (ast_binary op (tree d l) (tree d r))
          rest s same in
      rw (text-binary op i j l r s, rounds) (first ∙ round ∙ done)
