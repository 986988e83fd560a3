-- ===== src/Lang/Conditions.antt =====
-- The conditions of the script language and their truth. Nothing stands for the answer -1.
pub mod Search
pub mod Brackets
pub mod Text
pub mod Truth
use shahi_n_kernel.Lang.Conditions.Search.{
  expr_has_logical, condition_text, keyboard_word, find_condition_operator, map_op_to_ast,
}
use shahi_n_kernel.Lang.Value.Arith.{cmp_values, truthy}
use shahi_n_kernel.Lang.Parser.{math_parse_ast}
use shahi_n_kernel.Prelude.Find.{same_name}
use shahi_n_kernel.Lang.Scan.{starts_with, skip_spaces}
use shahi_n_kernel.Lang.Value.{Value, Floats}
use shahi_n_kernel.Prelude.Int.{eqb_ℤ, ◌-ℤ◌, ◌+ℤ◌, pos, ℤ}
use mathlib.Core.Option
use shahi_n_kernel.Prelude.{
  take, leb, ◌-◌, ◌||◌, ◌+◌, length, ◌&&◌, not, drop, true, zero, suc, ◌==◌, [], if◌then◌else◌,
  false, Bool, ◌∷◌, List, ℕ, Option, none, some,
}
use shahi_n_kernel.Lang.Evaluate.{doubles, truth, evaluate, bind, returns, Host, Runs}
use shahi_n_kernel.Lang.Expression.{
  and_then, Ast, Op, peek, ast_cmp_eq, ast_cmp_neq, ast_cmp_lt, ast_cmp_lte, ast_cmp_gt,
  ast_cmp_gte,
}

module _ (fs : Floats) (host : Host fs) where
  unfoldable pub tree_of : List ℕ → Runs host.State (Ast fs.f64.Real)
  tree_of s = returns (math_parse_ast (doubles fs) s)

  unfoldable pub value_of : List ℕ → Runs host.State (Value fs)
  value_of s = bind (tree_of s) (evaluate fs host)

  -- The whole as one expression.
  unfoldable pub truth_of : List ℕ → Runs host.State Bool
  truth_of s = bind (value_of s) λ v st. (some (truthy fs (host.total st) v), st)

  -- Both sides are read before either is evaluated.
  unfoldable pub compare_sides : Op → (left right : List ℕ) → Runs host.State Bool
  compare_sides op left right = bind (tree_of left) λ l. bind (tree_of right) λ r.
      bind (evaluate fs host l) λ a. bind (evaluate fs host r) λ b. returns (cmp_values fs op a b)

  -- The comparison that starts at `k`.
  unfoldable pub comparison_at : (expression : List ℕ) (k op_len : ℕ) → Runs host.State Bool
  comparison_at expression k op_len =
      bind (returns (map_op_to_ast (drop k expression) op_len)) λ op.
        let right = skip_spaces (drop (k + op_len) expression) in
        if (k == 0) || (length right == 0)
        then returns none
        else compare_sides op (take k expression) right

  unfoldable pub plain_truth : List ℕ → Runs host.State Bool
  plain_truth expression = elim (find_condition_operator expression) [
    | none ↦ truth_of expression
    | some (k, op_len) ↦ comparison_at expression k op_len
  ]

  module _ (keyboard_condition : List ℕ → Runs host.State Bool) where
    unfoldable pub expression_truth : List ℕ → Runs host.State Bool
    expression_truth expression =
        let keyboard = skip_spaces expression in
        if starts_with keyboard keyboard_word
        then keyboard_condition keyboard
        else if expr_has_logical expression
        then truth_of expression
        else plain_truth expression

    unfoldable pub condition_evaluate : List ℕ → Runs host.State Bool
    condition_evaluate condition = bind (returns (condition_text condition)) expression_truth
