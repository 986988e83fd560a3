-- ===== src/Lang/Conditions/Truth.antt =====
-- The truth of a condition without a comparison.
use shahi_n_kernel.Lang.Conditions.Text.{condition_text-condition_line, condition_line}
use shahi_n_kernel.Lang.Grammar.Round.{math_parse_ast-text}
use shahi_n_kernel.Lang.Expression.{peek}
use shahi_n_kernel.Lang.Conditions.Brackets.{Balanced}
use shahi_n_kernel.Lang.Evaluate.Meaning.{meaning}
use shahi_n_kernel.Lang.Conditions.Search.{expr_has_logical, find_condition_operator, keyboard_word}
use shahi_n_kernel.Lang.Evaluate.Sound.{evaluate-meaning, Holds}
use shahi_n_kernel.Lang.Grammar.{text, Fits, Expr}
use shahi_n_kernel.Lang.Value.Arith.{truthy}
use shahi_n_kernel.Lang.Scan.{is_space, skip_spaces, starts_with}
use shahi_n_kernel.Lang.Conditions.{
  tree_of, plain_truth, value_of, condition_evaluate, expression_truth, truth_of,
}
use shahi_n_kernel.Prelude.Int.{pos, eqb_ℤ, ℤ}
use shahi_n_kernel.Lang.Evaluate.{doubles, continue, bind, Runs, Host}
use shahi_n_kernel.Lang.Value.Exact.{IsExact}
use shahi_n_kernel.Lang.Value.{Floats}
use shahi_n_kernel.Prelude.{
  ◌∙◌, length, ◌<◌, inr, inl, not, Bool-cases, ◌≡◌, Bool, List, refl, none, some, Option, ℕ, false,
}

module _ (fs : Floats) (exact : IsExact fs.f64) (host : Host fs) (s : host.State) where
  module _ (env : List ℕ → Option ℤ) (keyboard : List ℕ → Runs host.State Bool) where
    truth_of-meaning :
        (e : Expr) (x : ℤ)
        → Holds fs exact host s env
        → Fits 9 e
        → meaning env e ≡ some x
        → truth_of fs host (text e) s ≡ (some (not (eqb_ℤ x (pos 0))), s)
    unfolding truth_of value_of tree_of bind continue truthy
    truth_of-meaning e x hold fits h =
        rw
          (math_parse_ast-text (doubles fs) e fits, evaluate-meaning fs exact host s env e x hold h)
          refl

    expression_truth-plain :
        (text : List ℕ)
        → starts_with (skip_spaces text) keyboard_word ≡ false
        → find_condition_operator text ≡ none
        → expression_truth fs host keyboard text s ≡ truth_of fs host text s
    unfolding expression_truth plain_truth
    expression_truth-plain text k c = elim (Bool-cases (expr_has_logical text)) [
      | inl a ↦ rw (k, a) refl
      | inr a ↦ rw (k, a) (rw (plain_truth, c) refl)
    ]

    -- A condition around an arithmetic expression of the grammar that stands for an integer, with its
    -- brackets and quotes matching, no blank in front, no comparison outside of brackets and not the
    -- word of the keyboard, is true where the integer is not 0, and leaves the state alone. What the
    -- integer stands on is what `math_calculate-meaning` asks for.
    pub condition_evaluate-meaning :
        (e : Expr) (x : ℤ)
        → Holds fs exact host s env
        → Fits 9 e
        → meaning env e ≡ some x
        → Balanced (text e)
        → is_space (peek 0 (text e)) ≡ false
        → 0 < length (text e)
        → starts_with (skip_spaces (text e)) keyboard_word ≡ false
        → find_condition_operator (text e) ≡ none
        → condition_evaluate fs host keyboard (condition_line (text e)) s
          ≡ (some (not (eqb_ℤ x (pos 0))), s)
    unfolding condition_evaluate bind continue
    condition_evaluate-meaning e x hold fits h b v l k c =
        rw (condition_text-condition_line (text e) b v l)
          (expression_truth-plain (text e) k c ∙ truth_of-meaning e x hold fits h)
