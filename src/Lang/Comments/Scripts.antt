-- ===== src/Lang/Comments/Scripts.antt =====
-- Scripts put together from plain bytes, letters, strings, line comments and nested block comments.
use shahi_n_kernel.Prelude.{ℕ, ◌≡◌, ◌≢◌, ◌≤◌, ◌<◌, List, [], ◌∷◌, ◌++◌, Bool, true, false, All}
use shahi_n_kernel.Lang.Comments.{newline, quote_mark, star}

-- The inside of a block comment, up to its end. `letter b` is a letter of the bytes 216 and `b`.
pub data Inside : Type 0 where
  closed : Inside
  byte : ℕ → Inside → Inside
  letter : ℕ → Inside → Inside
  lone_star : Inside → Inside
  nested : Inside → Inside → Inside

pub data Piece : Type 0 where
  plain : ℕ → Piece
  plain_letter : ℕ → Piece
  quoted : List ℕ → Piece
  line : List ℕ → Piece
  block : Inside → Piece

unfoldable pub starts_nested : Inside → Bool
starts_nested (nested i j) = true
starts_nested _ = false

-- The second byte of a letter whose first is 216, the Arabic semicolon left out.
abbrev pub IsLetter : ℕ → Type 0
IsLetter b = (128 ≤ b) × (b < 192) × (b ≢ 155)

-- Inside a comment: bytes other than the star and 216, letters, nested comments, and stars that
-- stand in front of none, since they would end the comment.
unfoldable pub IsInside : Inside → Type 0
unfolding starts_nested
IsInside closed = Unit
IsInside (byte c i) = (c ≢ star) × ((c ≢ 216) × IsInside i)
IsInside (letter b i) = IsLetter b × IsInside i
IsInside (lone_star i) = (starts_nested i ≡ false) × IsInside i
IsInside (nested i j) = IsInside i × IsInside j

-- The text of a line comment has no newline, and no star in front, which would open a block.
unfoldable pub IsLine : List ℕ → Type 0
IsLine [] = Unit
IsLine (c ∷ s) = (c ≢ star) × All (λ b. b ≢ newline) (c ∷ s)

unfoldable pub IsPiece : Piece → Type 0
unfolding IsInside IsLine
IsPiece (plain c) = (c ≢ quote_mark) × (c ≢ 216)
IsPiece (plain_letter b) = IsLetter b
IsPiece (quoted s) = All (λ b. b ≢ quote_mark) s
IsPiece (line s) = IsLine s
IsPiece (block i) = IsInside i

-- The text of a piece with `rest` behind it. A line comment comes with its newline.
unfoldable pub write_inside : Inside → List ℕ → List ℕ
write_inside closed rest = star ∷ 216 ∷ 155 ∷ rest
write_inside (byte c i) rest = c ∷ write_inside i rest
write_inside (letter b i) rest = 216 ∷ b ∷ write_inside i rest
write_inside (lone_star i) rest = star ∷ write_inside i rest
write_inside (nested i j) rest = 216 ∷ 155 ∷ star ∷ write_inside i (write_inside j rest)

unfoldable pub write_piece : Piece → List ℕ → List ℕ
unfolding write_inside
write_piece (plain c) rest = c ∷ rest
write_piece (plain_letter b) rest = 216 ∷ b ∷ rest
write_piece (quoted s) rest = quote_mark ∷ (s ++ quote_mark ∷ rest)
write_piece (line s) rest = 216 ∷ 155 ∷ (s ++ newline ∷ rest)
write_piece (block i) rest = 216 ∷ 155 ∷ star ∷ write_inside i rest

unfoldable pub write_all : List Piece → List ℕ → List ℕ
unfolding write_piece
write_all [] rest = rest
write_all (p ∷ ps) rest = write_piece p (write_all ps rest)

-- What is kept of it.
unfoldable pub keep : Piece → List ℕ
keep (plain c) = c ∷ []
keep (plain_letter b) = 216 ∷ b ∷ []
keep (quoted s) = quote_mark ∷ (s ++ quote_mark ∷ [])
keep (line s) = newline ∷ []
keep (block i) = []

unfoldable pub keep_all : List Piece → List ℕ
unfolding keep
keep_all [] = []
keep_all (p ∷ ps) = keep p ++ keep_all ps

-- A block comment without its end, with `rest` behind it.
unfoldable pub write_open : Inside → List ℕ → List ℕ
unfolding write_inside
write_open closed rest = rest
write_open (byte c i) rest = c ∷ write_open i rest
write_open (letter b i) rest = 216 ∷ b ∷ write_open i rest
write_open (lone_star i) rest = star ∷ write_open i rest
write_open (nested i j) rest = 216 ∷ 155 ∷ star ∷ write_inside i (write_open j rest)

-- Block comments of which each is left open, every one inside the one before it.
unfoldable pub write_opens : List Inside → List ℕ
unfolding write_open
write_opens [] = []
write_opens (i ∷ is) = 216 ∷ 155 ∷ star ∷ write_open i (write_opens is)

unfoldable pub ends_in_star : Inside → Bool
ends_in_star closed = false
ends_in_star (byte c i) = ends_in_star i
ends_in_star (letter b i) = ends_in_star i
ends_in_star (lone_star closed) = true
ends_in_star (lone_star i) = ends_in_star i
ends_in_star (nested i j) = ends_in_star j

-- A star at the end would meet the mark behind it.
abbrev pub IsUnclosed : Inside → Type 0
IsUnclosed i = IsInside i × (ends_in_star i ≡ false)
