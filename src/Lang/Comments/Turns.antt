-- ===== src/Lang/Comments/Turns.antt =====
-- The turns of the comment remover inside block comments.
use shahi_n_kernel.Lang.Comments.Scripts.{
  closed, nested, lone_star, letter, byte, Inside, starts_nested, IsInside, IsLetter, write_inside,
}
use shahi_n_kernel.Prelude.{ℕ, suc, ◌≡◌, ◌≢◌, refl, ◌∙◌, false, List, [], ◌∷◌, arith}
use shahi_n_kernel.Lang.Comments.{Mode, is_semi, is_open, is_close, step_block, step, star}
use shahi_n_kernel.Lang.Comments.Laws.{run, run_by}

abbrev pub at_depth : ℕ → Mode
at_depth d = record { depth = d; in_string = false }

-- A byte that starts no mark.
is_close-other : (c : ℕ) (s : List ℕ) → c ≢ star → is_close (c ∷ s) ≡ false
unfolding is_close
is_close-other c [] h = refl
is_close-other c (x ∷ []) h = refl
is_close-other c (x ∷ y ∷ s) h = ground arith

pub is_open-other : (c : ℕ) (s : List ℕ) → c ≢ 216 → is_open (c ∷ s) ≡ false
unfolding is_open
is_open-other c [] h = refl
is_open-other c (x ∷ []) h = refl
is_open-other c (x ∷ y ∷ s) h = ground arith

pub is_semi-other : (c : ℕ) (s : List ℕ) → c ≢ 216 → is_semi (c ∷ s) ≡ false
unfolding is_semi
is_semi-other c [] h = refl
is_semi-other c (x ∷ s) h = ground arith

pub is_open-letter : (b : ℕ) (s : List ℕ) → b ≢ 155 → is_open (216 ∷ b ∷ s) ≡ false
unfolding is_open
is_open-letter b [] h = refl
is_open-letter b (x ∷ s) h = ground arith

pub is_close-second : (c : ℕ) (s : List ℕ) → c ≢ 216 → is_close (star ∷ c ∷ s) ≡ false
unfolding is_close
is_close-second c [] h = refl
is_close-second c (x ∷ s) h = ground arith

pub is_close-letter : (b : ℕ) (s : List ℕ) → b ≢ 155 → is_close (star ∷ 216 ∷ b ∷ s) ≡ false
unfolding is_close
is_close-letter b s h = ground arith

is_close-star :
    (i : Inside) (rest : List ℕ)
    → IsInside i
    → starts_nested i ≡ false
    → is_close (star ∷ write_inside i rest) ≡ false
unfolding write_inside IsInside starts_nested
is_close-star closed rest h n = is_close-second star (216 ∷ 155 ∷ rest) (omega arith)
is_close-star (byte c i) rest h n = is_close-second c (write_inside i rest) h.1.0
is_close-star (letter b i) rest h n = is_close-letter b (write_inside i rest) h.0.2
is_close-star (lone_star i) rest h n = is_close-second star (write_inside i rest) (omega arith)
is_close-star (nested i j) rest h n = absurd (ground (arith, n))

-- The turns inside a block.
step-closed :
    (d : ℕ) (rest : List ℕ)
    → step (at_depth (suc d)) star (216 ∷ 155 ∷ rest) ≡ (([], rest), at_depth d)
unfolding step step_block is_close is_open
step-closed d rest = ground arith

step-byte :
    (d c : ℕ) (s : List ℕ)
    → c ≢ star
    → c ≢ 216
    → step (at_depth (suc d)) c s ≡ (([], s), at_depth (suc d))
unfolding step step_block
step-byte d c s h k = ground (arith, is_close-other c s h, is_open-other c s k)

pub step-star :
    (d : ℕ) (s : List ℕ)
    → is_close (star ∷ s) ≡ false
    → step (at_depth (suc d)) star s ≡ (([], s), at_depth (suc d))
unfolding step step_block
step-star d s h = ground (arith, h, is_open-other star s (omega arith))

step-lead :
    (d b : ℕ) (s : List ℕ)
    → b ≢ 155
    → step (at_depth (suc d)) 216 (b ∷ s) ≡ (([], b ∷ s), at_depth (suc d))
unfolding step step_block
step-lead d b s h = ground (arith, is_close-other 216 (b ∷ s) (omega arith), is_open-letter b s h)

pub run-byte :
    (d c : ℕ) (s : List ℕ)
    → c ≢ star
    → c ≢ 216
    → run (at_depth (suc d)) (c ∷ s) ≡ run (at_depth (suc d)) s
run-byte d c s h k = run_by (at_depth (suc d)) (at_depth (suc d)) c s [] s (step-byte d c s h k)

pub run-letter :
    (d b : ℕ) (s : List ℕ)
    → IsLetter b
    → run (at_depth (suc d)) (216 ∷ b ∷ s) ≡ run (at_depth (suc d)) s
run-letter d b s h =
    run_by (at_depth (suc d)) (at_depth (suc d)) 216 (b ∷ s) [] (b ∷ s) (step-lead d b s h.2)
    ∙ run-byte d b s (omega (arith, h.0)) (omega (arith, h.1))

pub run-star :
    (d : ℕ) (s : List ℕ)
    → is_close (star ∷ s) ≡ false
    → run (at_depth (suc d)) (star ∷ s) ≡ run (at_depth (suc d)) s
run-star d s h = run_by (at_depth (suc d)) (at_depth (suc d)) star s [] s (step-star d s h)

step-nested :
    (d : ℕ) (rest : List ℕ)
    → step (at_depth (suc d)) 216 (155 ∷ star ∷ rest) ≡ (([], rest), at_depth (suc (suc d)))
unfolding step step_block is_close is_open
step-nested d rest = ground arith

pub run-opening :
    (d : ℕ) (s : List ℕ)
    → run (at_depth (suc d)) (216 ∷ 155 ∷ star ∷ s) ≡ run (at_depth (suc (suc d))) s
run-opening d s =
    run_by (at_depth (suc d)) (at_depth (suc (suc d))) 216 (155 ∷ star ∷ s) [] s (step-nested d s)

-- The loop passes over the inside of a block and ends one level up.
pub run-inside :
    (i : Inside) (d : ℕ) (rest : List ℕ)
    → IsInside i
    → run (at_depth (suc d)) (write_inside i rest) ≡ run (at_depth d) rest
unfolding write_inside IsInside
run-inside closed d rest h =
    run_by (at_depth (suc d)) (at_depth d) star (216 ∷ 155 ∷ rest) [] rest (step-closed d rest)
run-inside (byte c i) d rest h =
    run-byte d c (write_inside i rest) h.0 h.1.0 ∙ run-inside i d rest h.1.1
run-inside (letter b i) d rest h =
    run-letter d b (write_inside i rest) h.0 ∙ run-inside i d rest h.1
run-inside (lone_star i) d rest h =
    run-star d (write_inside i rest) (is_close-star i rest h.1 h.0) ∙ run-inside i d rest h.1
run-inside (nested i j) d rest h =
    run-opening d (write_inside i (write_inside j rest))
    ∙ (run-inside i (suc d) (write_inside j rest) h.0 ∙ run-inside j d rest h.1)
