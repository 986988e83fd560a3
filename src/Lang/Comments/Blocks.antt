-- ===== src/Lang/Comments/Blocks.antt =====
-- What the comment remover keeps of scripts put together from pieces, and how its loop passes them.
use shahi_n_kernel.Lang.Comments.Turns.{
  is_semi-other, run-inside, is_open-letter, is_open-other, at_depth,
}
use shahi_n_kernel.Lang.Comments.Scripts.{
  block, line, quoted, plain_letter, plain, IsPiece, keep_all, keep, Piece, write_all, write_piece,
  IsLine, write_inside,
}
use mathlib.Core.List.{append_assoc, append-nil}
use shahi_n_kernel.Prelude.{
  sym, ℕ, ◌≡◌, ◌≢◌, refl, ap, ◌∙◌, true, some, List, [], ◌∷◌, ◌++◌, arith, All,
}
use shahi_n_kernel.Lang.Comments.{
  Mode, is_semi, is_open, skip_line, step_line, step_text, step, clean, finish, comment_remove,
  newline, quote_mark, star,
}
use shahi_n_kernel.Lang.Comments.Laws.{run, run_by}

in_quotes : Mode
in_quotes = record { depth = 0; in_string = true }

-- The turns outside of blocks.
step-plain :
    (c : ℕ) (s : List ℕ)
    → c ≢ quote_mark
    → c ≢ 216
    → step (at_depth 0) c s ≡ ((c ∷ [], s), at_depth 0)
unfolding step step_text
step-plain c s h k = ground (arith, is_open-other c s k, is_semi-other c s k)

step-plain_lead :
    (b : ℕ) (s : List ℕ) → b ≢ 155 → step (at_depth 0) 216 (b ∷ s) ≡ ((216 ∷ [], b ∷ s), at_depth 0)
unfolding step step_text is_semi
step-plain_lead b s h = ground (arith, is_open-letter b s h)

step-quote : (s : List ℕ) → step (at_depth 0) quote_mark s ≡ ((quote_mark ∷ [], s), in_quotes)
unfolding in_quotes step step_text
step-quote s = refl

step-inner : (c : ℕ) (s : List ℕ) → c ≢ quote_mark → step in_quotes c s ≡ ((c ∷ [], s), in_quotes)
unfolding in_quotes step step_text
step-inner c s h = ground arith

step-unquote : (s : List ℕ) → step in_quotes quote_mark s ≡ ((quote_mark ∷ [], s), at_depth 0)
unfolding in_quotes step step_text
step-unquote s = refl

step-block : (s : List ℕ) → step (at_depth 0) 216 (155 ∷ star ∷ s) ≡ (([], s), at_depth 1)
unfolding step step_text is_open
step-block s = refl

pub run-block : (s : List ℕ) → run (at_depth 0) (216 ∷ 155 ∷ star ∷ s) ≡ run (at_depth 1) s
run-block s = run_by (at_depth 0) (at_depth 1) 216 (155 ∷ star ∷ s) [] s (step-block s)

skip_line-line :
    (s rest : List ℕ) → All (λ b. b ≢ newline) s → skip_line (s ++ newline ∷ rest) ≡ newline ∷ rest
unfolding skip_line
skip_line-line [] rest h = refl
skip_line-line (c ∷ s) rest h =
    let later = skip_line-line s rest h.1 in let other = h.0 in ground (arith, later, other)

step-line :
    (s rest : List ℕ)
    → IsLine s
    → step (at_depth 0) 216 (155 ∷ (s ++ newline ∷ rest)) ≡ ((newline ∷ [], rest), at_depth 0)
unfolding step step_text is_open is_semi step_line IsLine skip_line
step-line [] rest h = refl
step-line (c ∷ s) rest h =
    let later = skip_line-line s rest h.1.1 in
    let other = h.0 in let inner = h.1.0 in ground (arith, later, other, inner)

-- A string is copied up to its end.
run-quoted :
    (s rest : List ℕ)
    → All (λ b. b ≢ quote_mark) s
    → run in_quotes (s ++ quote_mark ∷ rest)
      ≡ ((s ++ quote_mark ∷ []) ++ (run (at_depth 0) rest).0, (run (at_depth 0) rest).1)
run-quoted [] rest h =
    run_by in_quotes (at_depth 0) quote_mark rest (quote_mark ∷ []) rest (step-unquote rest)
run-quoted (c ∷ s) rest h =
    let s' = s ++ quote_mark ∷ rest in
    run_by in_quotes in_quotes c s' (c ∷ []) s' (step-inner c s' h.0)
    ∙ ap (λ r. (c ∷ r.0, r.1)) (run-quoted s rest h.1)

run-piece :
    (p : Piece) (rest : List ℕ)
    → IsPiece p
    → run (at_depth 0) (write_piece p rest)
      ≡ (keep p ++ (run (at_depth 0) rest).0, (run (at_depth 0) rest).1)
unfolding write_piece keep IsPiece
run-piece (plain c) rest h =
    run_by (at_depth 0) (at_depth 0) c rest (c ∷ []) rest (step-plain c rest h.0 h.1)
run-piece (plain_letter b) rest h =
    run_by (at_depth 0) (at_depth 0) 216 (b ∷ rest) (216 ∷ []) (b ∷ rest)
      (step-plain_lead b rest h.2)
    ∙ ap (λ r. (216 ∷ r.0, r.1))
        (run_by (at_depth 0) (at_depth 0) b rest (b ∷ []) rest
          (step-plain b rest (omega (arith, h.0)) (omega (arith, h.1))))
run-piece (quoted s) rest h =
    let s' = s ++ quote_mark ∷ rest in
    run_by (at_depth 0) in_quotes quote_mark s' (quote_mark ∷ []) s' (step-quote s')
    ∙ ap (λ r. (quote_mark ∷ r.0, r.1)) (run-quoted s rest h)
run-piece (line s) rest h =
    run_by (at_depth 0) (at_depth 0) 216 (155 ∷ (s ++ newline ∷ rest)) (newline ∷ []) rest
      (step-line s rest h)
run-piece (block i) rest h = run-block (write_inside i rest) ∙ run-inside i 0 rest h

pub run-pieces :
    (ps : List Piece) (rest : List ℕ)
    → All IsPiece ps
    → run (at_depth 0) (write_all ps rest)
      ≡ (keep_all ps ++ (run (at_depth 0) rest).0, (run (at_depth 0) rest).1)
unfolding write_all keep_all
run-pieces [] rest h = refl
run-pieces (p ∷ ps) rest h =
    run-piece p (write_all ps rest) h.0
    ∙ (ap (λ r. (keep p ++ r.0, r.1)) (run-pieces ps rest h.1)
        ∙ ap (λ out. (out, (run (at_depth 0) rest).1))
            (sym (append_assoc (keep p) (keep_all ps) (run (at_depth 0) rest).0)))

-- Take a script put together from pieces: bytes other than the quotation mark and 216, letters of
-- the bytes 216 and a second from 128 to 191 other than 155, strings, line comments with their
-- newline, and block comments. Inside these stand bytes other than the star and 216, such letters,
-- stars, and block comments again, none of them right behind a star. Then `comment_remove` keeps the
-- bytes, the letters, the strings with their quotation marks, and the newline of a line comment, and
-- block comments go as a whole.
pub comment_remove-pieces :
    (ps : List Piece) → All IsPiece ps → comment_remove true (write_all ps []) ≡ some (keep_all ps)
unfolding comment_remove finish run clean
comment_remove-pieces ps h =
    ap finish (run-pieces ps [] h ∙ ap (λ out. (out, at_depth 0)) (append-nil (keep_all ps)))
