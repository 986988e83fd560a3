-- ===== src/Lang/Tests.antt =====
-- Runs of the source handling on short scripts, and the theorems at concrete inputs.
use shahi_n_kernel.Prelude.{
  ℕ, ◌≤◌, ◌<◌, ◌≡◌, refl, true, none, some, List, [], ◌∷◌, length, All, arith,
}
use shahi_n_kernel.Lang.Comments.{comment_remove}
use shahi_n_kernel.Lang.Comments.Scripts.{
  closed, byte, letter, lone_star, nested, Piece, plain, plain_letter, quoted, line, block, IsPiece,
  IsInside, IsUnclosed, write_all, write_opens, keep_all, starts_nested, ends_in_star,
}
use shahi_n_kernel.Lang.Comments.Blocks.{comment_remove-pieces}
use shahi_n_kernel.Lang.Comments.Unclosed.{comment_remove_unclosed}
use shahi_n_kernel.Lang.Comments.Laws.{length-comment_remove}
use shahi_n_kernel.Lang.Scan.{read_line, arp_normalize_archive_path}
use shahi_n_kernel.Lang.Scan.Laws.{
  IsInLine, IsNormal, read_line-line, arp_normalize_archive_path-IsNormal,
}

-- A byte, a letter, a nested block comment with a letter and a star, a string with a mark in it, and
-- a line comment.
abbrev pieces : List Piece
pieces =
    plain 97
    ∷ plain_letter 167
    ∷ block (byte 98 (nested (lone_star (letter 168 closed)) closed))
    ∷ quoted (216 ∷ 155 ∷ [])
    ∷ line (100 ∷ [])
    ∷ []

inner-IsInside : IsInside (byte 98 (nested (lone_star (letter 168 closed)) closed))
unfolding IsInside starts_nested
inner-IsInside = (
  λ e. absurd (omega (arith, e)),
  (
    λ e. absurd (omega (arith, e)),
    ((refl, ((omega arith, omega arith, λ e. absurd (omega (arith, e))), tt)), tt),
  ),
)

pieces-IsPiece : All IsPiece pieces
unfolding IsPiece
pieces-IsPiece = (
  (λ e. absurd (omega (arith, e)), λ e. absurd (omega (arith, e))),
  (
    (omega arith, omega arith, λ e. absurd (omega (arith, e))),
    (
      inner-IsInside,
      (
        (λ e. absurd (omega (arith, e)), (λ e. absurd (omega (arith, e)), tt)),
        ((λ e. absurd (omega (arith, e)), (λ e. absurd (omega (arith, e)), tt)), tt),
      ),
    ),
  ),
)

comment_remove-pieces_example :
    comment_remove true (write_all pieces [])
    ≡ some (97 ∷ 216 ∷ 167 ∷ 34 ∷ 216 ∷ 155 ∷ 34 ∷ 10 ∷ [])
unfolding keep_all
comment_remove-pieces_example = comment_remove-pieces pieces pieces-IsPiece

inner-IsUnclosed :
    All IsUnclosed (byte 98 (nested (lone_star (letter 168 closed)) closed) ∷ closed ∷ [])
unfolding IsInside ends_in_star
inner-IsUnclosed = ((inner-IsInside, refl), ((tt, refl), tt))

comment_remove_unclosed_example :
    comment_remove true (
      write_all pieces
        (write_opens (byte 98 (nested (lone_star (letter 168 closed)) closed) ∷ closed ∷ [])))
    ≡ none
comment_remove_unclosed_example =
    comment_remove_unclosed pieces (byte 98 (nested (lone_star (letter 168 closed)) closed))
      (closed ∷ []) pieces-IsPiece inner-IsUnclosed

short_run : comment_remove true (97 ∷ 216 ∷ 155 ∷ 98 ∷ []) ≡ some (97 ∷ [])
unfolding comment_remove
short_run = refl

length-comment_remove_example : length {A = ℕ} (97 ∷ []) ≤ length {A = ℕ} (97 ∷ 216 ∷ 155 ∷ 98 ∷ [])
length-comment_remove_example = length-comment_remove (97 ∷ 216 ∷ 155 ∷ 98 ∷ []) (97 ∷ []) short_run

read_line-line_test : read_line true (97 ∷ 10 ∷ 98 ∷ []) ≡ (some (97 ∷ []), 98 ∷ [])
unfolding IsInLine
read_line-line_test =
    read_line-line (97 ∷ []) (98 ∷ [])
      ((λ e. absurd (omega (arith, e)), λ e. absurd (omega (arith, e))), tt)

-- `./\a//b` in a buffer of 16 bytes
arp_normalize_archive_path-IsNormal_example :
    IsNormal true (arp_normalize_archive_path (46 ∷ 47 ∷ 92 ∷ 97 ∷ 47 ∷ 47 ∷ 98 ∷ []) 16)
    × (length (arp_normalize_archive_path (46 ∷ 47 ∷ 92 ∷ 97 ∷ 47 ∷ 47 ∷ 98 ∷ []) 16) < 16)
arp_normalize_archive_path-IsNormal_example =
    arp_normalize_archive_path-IsNormal (46 ∷ 47 ∷ 92 ∷ 97 ∷ 47 ∷ 47 ∷ 98 ∷ []) 16 (omega arith)
