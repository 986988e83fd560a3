-- ===== src/Lang/Comments/Unclosed.antt =====
-- Scripts in which block comments are left open.
use shahi_n_kernel.Lang.Comments.Blocks.{run-pieces, run-block}
use shahi_n_kernel.Lang.Comments.Turns.{
  run-inside, run-star, run-letter, run-opening, run-byte, is_close-letter, at_depth,
  is_close-second,
}
use shahi_n_kernel.Lang.Comments.Scripts.{
  write_inside, keep_all, closed, nested, letter, write_all, byte, IsPiece, IsUnclosed, lone_star,
  starts_nested, Piece, Inside, IsInside, write_opens, ends_in_star, write_open,
}
use shahi_n_kernel.Prelude.{
  ℕ, suc, ◌≡◌, refl, ap, ◌∙◌, true, false, none, List, [], ◌∷◌, ◌++◌, arith, All,
}
use shahi_n_kernel.Lang.Comments.{is_close, clean, finish, comment_remove, star}
use shahi_n_kernel.Lang.Comments.Laws.{run}

is_close-open :
    (i : Inside) (rest : List ℕ)
    → IsInside (lone_star i)
    → ends_in_star (lone_star i) ≡ false
    → is_close (star ∷ write_open i rest) ≡ false
unfolding write_open IsInside starts_nested ends_in_star
is_close-open closed rest h n = absurd (ground (arith, n))
is_close-open (byte c i) rest h n = is_close-second c (write_open i rest) h.1.1.0
is_close-open (letter b i) rest h n = is_close-letter b (write_open i rest) h.1.0.2
is_close-open (lone_star i) rest h n = is_close-second star (write_open i rest) (omega arith)
is_close-open (nested i j) rest h n = absurd (ground (arith, h.0))

star_inner : (i : Inside) → ends_in_star (lone_star i) ≡ false → ends_in_star i ≡ false
unfolding ends_in_star
star_inner closed n = refl
star_inner (byte c i) n = n
star_inner (letter b i) n = n
star_inner (lone_star i) n = n
star_inner (nested i j) n = n

-- The loop passes over a block that has no end, and stays at its level.
run-open :
    (i : Inside) (d : ℕ) (rest : List ℕ)
    → IsInside i
    → ends_in_star i ≡ false
    → run (at_depth (suc d)) (write_open i rest) ≡ run (at_depth (suc d)) rest
unfolding write_open IsInside ends_in_star
run-open closed d rest h n = refl
run-open (byte c i) d rest h n =
    run-byte d c (write_open i rest) h.0 h.1.0 ∙ run-open i d rest h.1.1 n
run-open (letter b i) d rest h n = run-letter d b (write_open i rest) h.0 ∙ run-open i d rest h.1 n
run-open (lone_star i) d rest h n =
    run-star d (write_open i rest) (is_close-open i rest h n)
    ∙ run-open i d rest h.1 (star_inner i n)
run-open (nested i j) d rest h n =
    run-opening d (write_inside i (write_open j rest))
    ∙ (run-inside i (suc d) (write_open j rest) h.0 ∙ run-open j d rest h.1 n)

run-opens :
    (is : List Inside) (d : ℕ)
    → All IsUnclosed is
    → (e : ℕ) × (run (at_depth (suc d)) (write_opens is) ≡ ([], at_depth (suc e)))
unfolding write_opens run clean
run-opens [] d h = (d, refl)
run-opens (i ∷ is) d h =
    let (e, later) = run-opens is (suc d) h.1 in
    (
      e,
      run-opening d (write_open i (write_opens is))
          ∙ (run-open i (suc d) (write_opens is) h.0.0 h.0.1 ∙ later),
    )

finish-deep : (out : List ℕ) (e : ℕ) → finish (out, at_depth (suc e)) ≡ none
unfolding finish
finish-deep out e = ground arith

-- Take a script put together from pieces and, behind them, a block comment that is left open, in
-- which further ones may be left open; inside each may stand bytes, letters, stars and closed block
-- comments as in a closed one, with no star as its last. Then `comment_remove` fails.
pub comment_remove_unclosed :
    (ps : List Piece) (i : Inside) (is : List Inside)
    → All IsPiece ps
    → All IsUnclosed (i ∷ is)
    → comment_remove true (write_all ps (write_opens (i ∷ is))) ≡ none
unfolding comment_remove finish run write_opens
comment_remove_unclosed ps i is good h =
    let (e, opened) = run-opens is 0 h.1 in
    let passed =
      run-block (write_open i (write_opens is))
      ∙ (run-open i 0 (write_opens is) h.0.0 h.0.1 ∙ opened) in
    let whole = run-pieces ps (write_opens (i ∷ is)) good in
    ap finish (whole ∙ ap (λ r. (keep_all ps ++ r.0, r.1)) passed)
    ∙ finish-deep (keep_all ps ++ []) e
