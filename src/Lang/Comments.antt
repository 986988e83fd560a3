-- ===== src/Lang/Comments.antt =====
-- The comment remover of the script language: a line comment starts with the Arabic semicolon, the
-- bytes 0xD8 0x9B, a block comment with it and `*`, and ends with `*` and it.
pub mod Scripts
pub mod Laws
pub mod Turns
pub mod Blocks
pub mod Unclosed
use shahi_n_kernel.Prelude.{
  ℕ, zero, suc, ◌+◌, ◌-◌, Bool, true, false, not, ◌&&◌, Option, none, some, List, [], ◌∷◌, ◌++◌,
  ltb, leb, ◌==◌, if◌then◌else◌, length, drop,
}

abbrev pub newline : ℕ
newline = 10

abbrev pub quote_mark : ℕ
quote_mark = 34

abbrev pub star : ℕ
star = 42

-- The three tests look at the bytes that remain.
unfoldable pub is_semi : List ℕ → Bool
is_semi (a ∷ b ∷ s) = (a == 216) && (b == 155)
is_semi _ = false

unfoldable pub is_open : List ℕ → Bool
is_open (a ∷ b ∷ c ∷ s) = (a == 216) && (b == 155) && (c == star)
is_open _ = false

unfoldable pub is_close : List ℕ → Bool
is_close (a ∷ b ∷ c ∷ s) = (a == star) && (b == 216) && (c == 155)
is_close _ = false

-- The rest of a line from its newline.
unfoldable pub skip_line : List ℕ → List ℕ
skip_line [] = []
skip_line (c ∷ s) = if c == newline then c ∷ s else skip_line s

-- What the loop keeps: the depth of block comments, and whether it is inside a string.
pub record Mode : Type 0 where
  pub depth : ℕ
  pub in_string : Bool

-- One turn of the loop over the remaining bytes: the bytes written, the rest, and the new mode.
unfoldable pub step_block : Mode → (c : ℕ) (s : List ℕ) → (List ℕ × List ℕ) × Mode
unfolding is_close is_open
step_block m c s =
    if is_close (c ∷ s)
    then (([], drop 3 (c ∷ s)), record m { depth = m.depth - 1 })
    else if is_open (c ∷ s)
    then (([], drop 3 (c ∷ s)), record m { depth = suc m.depth })
    else (([], s), m)

-- The newline that ends a line comment is kept.
unfoldable pub step_line : Mode → List ℕ → (List ℕ × List ℕ) × Mode
step_line m [] = (([], []), m)
step_line m (c ∷ s) = if c == newline then ((c ∷ [], s), m) else (([], c ∷ s), m)

unfoldable pub step_text : Mode → (c : ℕ) (s : List ℕ) → (List ℕ × List ℕ) × Mode
unfolding is_semi is_open skip_line step_line
step_text m c s =
    if m.in_string
    then ((c ∷ [], s), record m { in_string = not (c == quote_mark) })
    else if c == quote_mark
    then ((c ∷ [], s), record m { in_string = true })
    else if is_open (c ∷ s)
    then (([], drop 3 (c ∷ s)), record m { depth = 1 })
    else if is_semi (c ∷ s)
    then step_line m (skip_line (drop 2 (c ∷ s)))
    else ((c ∷ [], s), m)

unfoldable pub step : Mode → (c : ℕ) (s : List ℕ) → (List ℕ × List ℕ) × Mode
unfolding step_block step_text
step m c s = if ltb 0 m.depth then step_block m c s else step_text m c s

-- The loop, on as much fuel as bytes: each turn takes one at least.
unfoldable pub clean : (fuel : ℕ) → Mode → List ℕ → List ℕ × Mode
unfolding step
clean zero m s = ([], m)
clean (suc fuel) m [] = ([], m)
clean (suc fuel) m (c ∷ s) =
    let ((out, rest), m') = step m c s in let (outs, end) = clean fuel m' rest in (out ++ outs, end)

unfoldable pub finish : List ℕ × Mode → Option (List ℕ)
finish (out, m) = if ltb 0 m.depth then none else some out

-- -1 is `none`. The script is a live buffer, and the buffer for the output can be had or not.
unfoldable pub comment_remove : (can_alloc : Bool) → List ℕ → Option (List ℕ)
unfolding clean finish
comment_remove can_alloc script =
    if can_alloc
    then finish (clean (length script) (record { depth = 0; in_string = false }) script)
    else none
