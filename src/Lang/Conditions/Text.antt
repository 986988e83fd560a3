-- ===== src/Lang/Conditions/Text.antt =====
-- The expression that is found in a condition as it is written.
use shahi_n_kernel.Lang.Conditions.Brackets.{matching_from-Balanced, Balanced}
use shahi_n_kernel.Lang.Expression.{and_then, peek}
use shahi_n_kernel.Lang.Scan.{starts_with, is_space, skip_spaces}
use shahi_n_kernel.Prelude.Int.{◌-ℤ◌, ◌+ℤ◌, pos}
use shahi_n_kernel.Lang.Conditions.Search.{
  condition_text, find_matching_paren, if_word, matching_from,
}
use shahi_n_kernel.Prelude.{
  ◌-◌, leb, ◌<◌, drop, take, ◌≤◌, length-append, length, ◌++◌, arith, ap, zero, suc, ◌≡◌, ◌+◌, List,
  refl, some, ℕ, [], ◌∷◌, true, false,
}

drop_all : (k : ℕ) (xs : List ℕ) → length xs ≤ k → drop k xs ≡ []
drop_all zero [] h = refl
drop_all zero (x ∷ xs) h = absurd (omega (arith, h))
drop_all (suc k) [] h = refl
drop_all (suc k) (x ∷ xs) h = drop_all k xs (omega (arith, h))

take_front : (xs ys : List ℕ) → take (length xs) (xs ++ ys) ≡ xs
take_front [] ys = refl
take_front (x ∷ xs) ys = ap (λ zs. x ∷ zs) (take_front xs ys)

skip_spaces-visible :
    (e s : List ℕ) → is_space (peek 0 e) ≡ false → 0 < length e → skip_spaces (e ++ s) ≡ e ++ s
unfolding skip_spaces peek
skip_spaces-visible [] s h l = absurd (omega arith)
skip_spaces-visible (c ∷ e) s h l = rw h refl

-- A condition as it is written: the word with its bracket, the expression, and the closing one.
unfoldable pub condition_line : List ℕ → List ℕ
condition_line e = if_word ++ e ++ 41 ∷ []

closes_here : matching_from (pos 1) false (41 ∷ []) ≡ some 0
unfolding matching_from ◌-ℤ◌
closes_here = refl

closing : (e : List ℕ) → Balanced e → find_matching_paren (condition_line e) ≡ some (length e + 7)
unfolding find_matching_paren matching_from condition_line ◌+ℤ◌
closing e b =
    let found = matching_from-Balanced e b 0 (41 ∷ []) in
    rw (found, closes_here) (ap (λ k. some k) (omega arith))

no_blank : (e : List ℕ) → skip_spaces (condition_line e) ≡ condition_line e
unfolding condition_line skip_spaces is_space
no_blank e = refl

opens_so : (e : List ℕ) → starts_with (condition_line e) if_word ≡ true
unfolding condition_line starts_with
opens_so e = refl

length-condition_line : (e : List ℕ) → length (condition_line e) ≡ length e + 8
unfolding condition_line
length-condition_line e = omega (arith, length-append e (41 ∷ []))

behind_word : (e : List ℕ) → drop 7 (condition_line e) ≡ e ++ 41 ∷ []
unfolding condition_line
behind_word e = refl

nothing_left : (e : List ℕ) → skip_spaces (drop (length e + 7 + 1) (condition_line e)) ≡ []
unfolding skip_spaces
nothing_left e =
    rw (drop_all (length e + 7 + 1) (condition_line e) (omega (arith, length-condition_line e)))
      refl

-- In a condition around an expression that starts with no blank, and in which brackets and quotes
-- match, just that expression is found.
pub condition_text-condition_line :
    (e : List ℕ)
    → Balanced e
    → is_space (peek 0 e) ≡ false
    → 0 < length e
    → condition_text (condition_line e) ≡ some e
unfolding condition_text and_then
condition_text-condition_line e b h l =
    let whole = length-condition_line e in
    let inner = length-append e (41 ∷ []) in
    let long : leb (length e + 7 + length (e ++ 41 ∷ [])) (length (condition_line e)) ≡ false =
      ground (arith, whole, inner, l) in
    let just : length e + 7 + length (e ++ 41 ∷ []) - length (condition_line e) ≡ length e =
      omega (arith, whole, inner) in
    rw (no_blank e, opens_so e, closing e b, nothing_left e, behind_word e)
      (rw (skip_spaces-visible e (41 ∷ []) h l, long, just)
        (ap (λ x. some x) (take_front e (41 ∷ []))))
