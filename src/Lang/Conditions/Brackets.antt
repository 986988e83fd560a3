-- ===== src/Lang/Conditions/Brackets.antt =====
-- Conditions as they are written, and the expression that is found in them.
use shahi_n_kernel.Prelude.Int.{eqb_ℤ, ◌-ℤ◌, ◌+ℤ◌, pos}
use shahi_n_kernel.Lang.Grammar.{is_quote, none_of}
use shahi_n_kernel.Lang.Conditions.Search.{matching_from}
use mathlib.Core.Option
use mathlib.Core.List.{append_assoc}
use shahi_n_kernel.Prelude.{
  length-append, ◌∙◌, sym, length, ◌||◌, ◌++◌, arith, ◌==◌, ap, not, suc, ◌≡◌, ◌+◌, List, Bool,
  refl, none, some, Option, ℕ, [], ◌∷◌, true, false,
}

-- A byte that is no quote and no bracket.
abbrev pub is_ordinary : ℕ → Bool
is_ordinary c = not ((c == 34) || (c == 40) || (c == 41))

-- Texts in which brackets and quotes match; between quotes stands anything but a quote.
pub data Balanced : List ℕ → Type 0 where
  nothing : Balanced []
  ordinary : (c : ℕ) (s : List ℕ) → is_ordinary c ≡ true → Balanced s → Balanced (c ∷ s)
  quotation :
      (bytes s : List ℕ)
      → none_of is_quote bytes ≡ true
      → Balanced s
      → Balanced (34 ∷ bytes ++ 34 ∷ s)
  brackets : (a s : List ℕ) → Balanced a → Balanced s → Balanced (40 ∷ a ++ 41 ∷ s)

-- Bytes that are no quotes and no brackets, in front of a text.
pub ordinary_front :
    (a s : List ℕ) → none_of (λ c. not (is_ordinary c)) a ≡ true → Balanced s → Balanced (a ++ s)
unfolding none_of
ordinary_front [] s h b = b
ordinary_front (c ∷ a) s h b =
    ordinary c (a ++ s) (ground (arith, h)) (ordinary_front a s (ground (arith, h)) b)

-- Further on by `n`.
abbrev later : ℕ → Option ℕ → Option ℕ
later n o = Option.map (λ k. n + k) o

later-later : (m n : ℕ) (o : Option ℕ) → later m (later n o) ≡ later (m + n) o
later-later m n none = refl
later-later m n (some k) = ap (λ j. some j) (omega arith)

later-suc : (n : ℕ) (o : Option ℕ) → Option.map suc (later n o) ≡ later (suc n) o
later-suc n none = refl
later-suc n (some k) = ap (λ j. some j) (omega arith)

later-zero : (o : Option ℕ) → later 0 o ≡ o
later-zero none = refl
later-zero (some k) = ap (λ j. some j) (omega arith)

-- One byte of the search.
module _ (d : ℕ) (p : List ℕ) where
  in_string :
      (c : ℕ)
      → is_quote c ≡ false
      → matching_from (pos (suc d)) true (c ∷ p)
        ≡ Option.map suc (matching_from (pos (suc d)) true p)
  unfolding matching_from
  in_string c h = rw h refl

  past_ordinary :
      (c : ℕ)
      → is_ordinary c ≡ true
      → matching_from (pos (suc d)) false (c ∷ p)
        ≡ Option.map suc (matching_from (pos (suc d)) false p)
  unfolding matching_from
  past_ordinary c h =
      let quote : (c == 34) ≡ false = ground (arith, h) in
      let opens : (c == 40) ≡ false = ground (arith, h) in
      let closes : (c == 41) ≡ false = ground (arith, h) in rw (quote, opens, closes) refl

  past_quote :
      matching_from (pos (suc d)) false (34 ∷ p)
      ≡ Option.map suc (matching_from (pos (suc d)) true p)
  unfolding matching_from
  past_quote = refl

  past_open :
      matching_from (pos (suc d)) false (40 ∷ p)
      ≡ Option.map suc (matching_from (pos (suc (suc d))) false p)
  unfolding matching_from ◌+ℤ◌
  past_open = let up : pos (suc d) +ℤ pos 1 ≡ pos (suc (suc d)) = ground arith in rw up refl

  past_close :
      matching_from (pos (suc (suc d))) false (41 ∷ p)
      ≡ Option.map suc (matching_from (pos (suc d)) false p)
  unfolding matching_from ◌-ℤ◌
  past_close =
      let down : pos (suc (suc d)) -ℤ pos 1 ≡ pos (suc d) = ground arith in
      let deep : eqb_ℤ (pos (suc d)) (pos 0) ≡ false = ground arith in rw (down, deep) refl

-- Inside a string, the search goes on behind its quote.
matching_from-quoted :
    (d : ℕ) (bytes rest : List ℕ)
    → none_of is_quote bytes ≡ true
    → matching_from (pos (suc d)) true (bytes ++ 34 ∷ rest)
      ≡ later (suc (length bytes)) (matching_from (pos (suc d)) false rest)
unfolding matching_from none_of
matching_from-quoted d [] rest h =
    ap (Option.map suc) (sym (later-zero (matching_from (pos (suc d)) false rest)))
    ∙ later-suc 0 (matching_from (pos (suc d)) false rest)
matching_from-quoted d (c ∷ bytes) rest h =
    let first : is_quote c ≡ false = ground (arith, h) in
    let more = matching_from-quoted d bytes rest (ground (arith, h)) in
    in_string d (bytes ++ 34 ∷ rest) c first
    ∙ ap (Option.map suc) more
    ∙ later-suc (suc (length bytes)) (matching_from (pos (suc d)) false rest)

-- The search passes a text in which brackets and quotes match.
pub matching_from-Balanced :
    (s : List ℕ)
    → Balanced s
    → (d : ℕ) (rest : List ℕ)
    → matching_from (pos (suc d)) false (s ++ rest)
      ≡ later (length s) (matching_from (pos (suc d)) false rest)
matching_from-Balanced _ nothing d rest = sym (later-zero (matching_from (pos (suc d)) false rest))
matching_from-Balanced _ (ordinary c s h b) d rest =
    past_ordinary d (s ++ rest) c h
    ∙ ap (Option.map suc) (matching_from-Balanced s b d rest)
    ∙ later-suc (length s) (matching_from (pos (suc d)) false rest)
matching_from-Balanced _ (quotation bytes s h b) d rest =
    let m = matching_from (pos (suc d)) false rest in
    let l = length-append bytes (34 ∷ s) in
    let long : suc (length bytes) + length s ≡ length (bytes ++ 34 ∷ s) = omega (arith, l) in
    past_quote d (bytes ++ 34 ∷ s ++ rest)
    ∙ ap (Option.map suc) (
        ap (matching_from (pos (suc d)) true) (append_assoc bytes (34 ∷ s) rest)
        ∙ matching_from-quoted d bytes (s ++ rest) h
        ∙ ap (later (suc (length bytes))) (matching_from-Balanced s b d rest)
        ∙ later-later (suc (length bytes)) (length s) m)
    ∙ later-suc (suc (length bytes) + length s) m
    ∙ ap (λ n. later (suc n) m) long
matching_from-Balanced _ (brackets a s ba b) d rest =
    let m = matching_from (pos (suc d)) false rest in
    let l = length-append a (41 ∷ s) in
    let long : length a + suc (length s) ≡ length (a ++ 41 ∷ s) = omega (arith, l) in
    past_open d (a ++ 41 ∷ s ++ rest)
    ∙ ap (Option.map suc) (
        ap (matching_from (pos (suc (suc d))) false) (append_assoc a (41 ∷ s) rest)
        ∙ matching_from-Balanced a ba (suc d) (41 ∷ s ++ rest)
        ∙ ap (later (length a)) (
            past_close d (s ++ rest)
            ∙ ap (Option.map suc) (matching_from-Balanced s b d rest)
            ∙ later-suc (length s) m)
        ∙ later-later (length a) (suc (length s)) m)
    ∙ later-suc (length a + suc (length s)) m
    ∙ ap (λ n. later (suc n) m) long
