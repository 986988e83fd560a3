-- ===== src/Lang/Conditions/Search.antt =====
-- What a condition is searched for: the bracket that closes it, `&&` or `||`, and the comparison.
use shahi_n_kernel.Prelude.Find.{same_name}
use shahi_n_kernel.Lang.Scan.{starts_with, skip_spaces}
use shahi_n_kernel.Prelude.Int.{eqb_ℤ, ◌-ℤ◌, ◌+ℤ◌, pos, ℤ}
use mathlib.Core.Option
use shahi_n_kernel.Prelude.{
  take, leb, ◌-◌, ◌||◌, ◌+◌, length, ◌&&◌, not, drop, true, suc, ◌==◌, [], if◌then◌else◌, false,
  Bool, ◌∷◌, List, ℕ, Option, none, some,
}
use shahi_n_kernel.Lang.Expression.{
  and_then, Op, peek, ast_cmp_eq, ast_cmp_neq, ast_cmp_lt, ast_cmp_lte, ast_cmp_gt, ast_cmp_gte,
}

-- The words of the language, in UTF-8: the one that opens a condition, with its bracket, the one of
-- the other branch, that of the end, and that of the keyboard.
abbrev pub if_word : List ℕ
if_word = 216 ∷ 167 ∷ 216 ∷ 176 ∷ 216 ∷ 167 ∷ 40 ∷ []

abbrev pub else_word : List ℕ
else_word = 217 ∷ 136 ∷ 216 ∷ 167 ∷ 217 ∷ 132 ∷ 216 ∷ 167 ∷ []

abbrev pub end_word : List ℕ
end_word =
    217 ∷ 134 ∷ 217 ∷ 135 ∷ 216 ∷ 167 ∷ 217 ∷ 138 ∷ 216 ∷ 169 ∷ 95 ∷ 216 ∷ 167 ∷ 217 ∷ 132 ∷ 216
    ∷ 180 ∷ 216 ∷ 177 ∷ 216 ∷ 183 ∷ []

abbrev pub keyboard_word : List ℕ
keyboard_word =
    217 ∷ 132 ∷ 217 ∷ 136 ∷ 216 ∷ 173 ∷ 216 ∷ 169 ∷ 95 ∷ 216 ∷ 167 ∷ 217 ∷ 132 ∷ 217 ∷ 133 ∷ 217
    ∷ 129 ∷ 216 ∷ 167 ∷ 216 ∷ 170 ∷ 217 ∷ 138 ∷ 216 ∷ 173 ∷ 40 ∷ []

-- How far it is to the bracket that takes the depth to 0, outside of strings.
unfoldable pub matching_from : (depth : ℤ) (in_string : Bool) → List ℕ → Option ℕ
matching_from depth in_string [] = none
matching_from depth in_string (c ∷ p) =
    let inside = if c == 34 then not in_string else in_string in
    let depth' =
      if inside
      then depth
      else if c == 40
      then depth +ℤ pos 1
      else if c == 41
      then depth -ℤ pos 1
      else depth in
    let more = Option.map suc (matching_from depth' inside p) in
    if not inside && (c == 41) && eqb_ℤ depth' (pos 0) then some 0 else more

unfoldable pub find_matching_paren : List ℕ → Option ℕ
find_matching_paren p = matching_from (pos 0) false p

unfoldable pub condition_is_start : List ℕ → Bool
condition_is_start line = starts_with (skip_spaces line) if_word

unfoldable pub condition_is_else : List ℕ → Bool
condition_is_else line = same_name (skip_spaces line) else_word

unfoldable pub condition_is_end : List ℕ → Bool
condition_is_end line = same_name (skip_spaces line) end_word

-- The length of the operator of comparison at the start of the bytes, if there is one.
unfoldable pub operator_length : List ℕ → Option ℕ
operator_length p =
    let c = peek 0 p in
    let c' = peek 1 p in
    if (c == 62) && (c' == 61)
    then some 2
    else if (c == 60) && (c' == 61)
    then some 2
    else if (c == 33) && (c' == 61)
    then some 2
    else if (c == 61) && (c' == 33)
    then some 2
    else if (c == 61) && (c' == 61)
    then some 2
    else if (c == 62) && (c' == 33)
    then some 2
    else if (c == 60) && (c' == 33)
    then some 2
    else if (c == 61) || (c == 62) || (c == 60)
    then some 1
    else none

-- The scan outside of strings and brackets for the first place where `look` answers: how far it is,
-- and the answer.
unfoldable pub scan {ℓ} :
    (A : Type ℓ) (look : List ℕ → Option A) (depth : ℕ) (in_string : Bool) → List ℕ → Option (ℕ × A)
scan A look depth in_string [] = none
scan A look depth in_string (c ∷ p) =
    let quote = c == 34 in
    let depth' : ℕ =
      if quote || in_string
      then depth
      else if c == 40
      then depth + 1
      else if c == 41
      then depth - 1
      else depth in
    let plain = not (quote || in_string || (c == 40) || (c == 41)) && (depth == 0) in
    let more : Option (ℕ × A) = scan A look depth' (if quote then not in_string else in_string) p in
    elim (if plain then look (c ∷ p) else none) [
      | some a ↦ some (0, a)
      | none ↦ Option.map {B = ℕ × A} (λ r. (suc r.0, r.1)) more
    ]

unfoldable pub find_condition_operator : List ℕ → Option (ℕ × ℕ)
find_condition_operator expr = scan ℕ operator_length 0 false expr

unfoldable pub map_op_to_ast : (op : List ℕ) (op_len : ℕ) → Option Op
map_op_to_ast op op_len =
    let c = peek 0 op in
    let c' = peek 1 op in
    if op_len == 2
    then (if (c == 62) && (c' == 61)
        then some ast_cmp_gte
        else if (c == 60) && (c' == 61)
        then some ast_cmp_lte
        else if (c == 33) && (c' == 61)
        then some ast_cmp_neq
        else if (c == 61) && (c' == 33)
        then some ast_cmp_neq
        else if (c == 61) && (c' == 61)
        then some ast_cmp_eq
        else if (c == 62) && (c' == 33)
        then some ast_cmp_gt
        else if (c == 60) && (c' == 33)
        then some ast_cmp_lt
        else none)
    else if c == 61
    then some ast_cmp_eq
    else if c == 62
    then some ast_cmp_gt
    else if c == 60
    then some ast_cmp_lt
    else none

unfoldable pub logical_at : List ℕ → Option ℕ
logical_at p =
    if (peek 0 p == 38) && (peek 1 p == 38)
    then some 1
    else if (peek 0 p == 124) && (peek 1 p == 124)
    then some 1
    else none

unfoldable pub expr_has_logical : List ℕ → Bool
expr_has_logical expr = elim (scan ℕ logical_at 0 false expr) [ none ↦ false | some r ↦ true ]

-- The expression between the brackets, where nothing but blanks follows.
unfoldable pub condition_text : List ℕ → Option (List ℕ)
condition_text condition =
    let start = skip_spaces condition in
    let p = skip_spaces (drop (length if_word) start) in
    if not (starts_with start if_word)
    then none
    else and_then (find_matching_paren start) λ close.
      if not (length (skip_spaces (drop (close + 1) start)) == 0)
      then none
      else if leb (close + length p) (length start)
      then none
      else some (take (close + length p - length start) p)
