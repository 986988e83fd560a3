-- ===== src/Lang/Comments/Laws.antt =====
-- The loop of the comment remover ends, and its output fits the buffer.
use shahi_n_kernel.Prelude.{
  ℕ, zero, suc, ◌+◌, ◌≤◌, ◌≡◌, refl, ap, ◌∙◌, true, false, some, List, [], ◌∷◌, ◌++◌, length,
  length-append, drop, arith,
}
use shahi_n_kernel.Lang.Comments.{
  Mode, skip_line, step_block, step_line, step_text, step, clean, finish, comment_remove,
}

drop_le : (n : ℕ) (s : List ℕ) → length (drop n s) ≤ length s
drop_le zero s = omega arith
drop_le (suc n) [] = omega arith
drop_le (suc n) (c ∷ s) = omega (arith, drop_le n s)

-- A turn writes no more bytes than it takes, and takes one at least.
pub Takes : ℕ → (List ℕ × List ℕ) × Mode → Type 0
Takes n r = (length r.0.0 + length r.0.1 ≤ suc n) × (length r.0.1 ≤ n)

step_block-Takes : (m : Mode) (c : ℕ) (s : List ℕ) → Takes (length s) (step_block m c s)
unfolding Takes step_block
step_block-Takes m c s = let two = drop_le 2 s in (ground (arith, two), ground (arith, two))

skip_line_le : (s : List ℕ) → length (skip_line s) ≤ length s
unfolding skip_line
skip_line_le [] = omega arith
skip_line_le (c ∷ s) = ground (arith, skip_line_le s)

step_line_le :
    (m : Mode) (s : List ℕ)
    → let r = step_line m s in (length r.0.0 + length r.0.1 ≤ length s) × (length r.0.1 ≤ length s)
unfolding step_line
step_line_le m [] = (omega arith, omega arith)
step_line_le m (c ∷ s) = (ground arith, ground arith)

step_text-Takes : (m : Mode) (c : ℕ) (s : List ℕ) → Takes (length s) (step_text m c s)
unfolding Takes step_text
step_text-Takes m c s =
    let one = drop_le 1 s in
    let two = drop_le 2 s in
    let line = step_line_le m (skip_line (drop 1 s)) in
    let skipped = skip_line_le (drop 1 s) in
    (ground (arith, one, two, line, skipped), ground (arith, one, two, line, skipped))

step-Takes : (m : Mode) (c : ℕ) (s : List ℕ) → Takes (length s) (step m c s)
unfolding step Takes
step-Takes m c s =
    let block = step_block-Takes m c s in
    let text = step_text-Takes m c s in (ground (arith, block, text), ground (arith, block, text))

-- More fuel than there are bytes changes nothing.
clean_fuel :
    (f g : ℕ) (m : Mode) (s : List ℕ) → length s ≤ f → length s ≤ g → clean f m s ≡ clean g m s
unfolding clean Takes
clean_fuel zero zero m s hf hg = refl
clean_fuel zero (suc g) m [] hf hg = refl
clean_fuel zero (suc g) m (c ∷ s) hf hg = absurd (omega arith)
clean_fuel (suc f) zero m [] hf hg = refl
clean_fuel (suc f) zero m (c ∷ s) hf hg = absurd (omega arith)
clean_fuel (suc f) (suc g) m [] hf hg = refl
clean_fuel (suc f) (suc g) m (c ∷ s) hf hg =
    let r = step m c s in
    let taken = step-Takes m c s in
    ap (λ done. (r.0.0 ++ done.0, done.1))
      (clean_fuel f g r.1 r.0.1 (omega (arith, taken.1)) (omega (arith, taken.1)))

-- The loop over all that remains.
unfoldable pub run : Mode → List ℕ → List ℕ × Mode
run m s = clean (length s) m s

-- One turn, and the loop over the rest.
pub run_turn :
    (m : Mode) (c : ℕ) (s : List ℕ)
    → run m (c ∷ s) ≡ (
      (step m c s).0.0 ++ (run (step m c s).1 (step m c s).0.1).0,
      (run (step m c s).1 (step m c s).0.1).1,
    )
unfolding run clean Takes
run_turn m c s =
    let r = step m c s in
    let taken = step-Takes m c s in
    ap (λ done. (r.0.0 ++ done.0, done.1))
      (clean_fuel (length s) (length r.0.1) r.1 r.0.1 taken.1 (omega arith))

-- One turn whose result is known.
pub run_by :
    (m m' : Mode) (c : ℕ) (s out rest : List ℕ)
    → step m c s ≡ ((out, rest), m')
    → run m (c ∷ s) ≡ (out ++ (run m' rest).0, (run m' rest).1)
run_by m m' c s out rest e =
    run_turn m c s ∙ ap (λ r. (r.0.0 ++ (run r.1 r.0.1).0, (run r.1 r.0.1).1)) e

length-clean : (f : ℕ) (m : Mode) (s : List ℕ) → length (clean f m s).0 ≤ length s
unfolding clean Takes
length-clean zero m s = omega arith
length-clean (suc f) m [] = omega arith
length-clean (suc f) m (c ∷ s) =
    let r = step m c s in
    let later = length-clean f r.1 r.0.1 in
    let taken = step-Takes m c s in
    omega (arith, later, taken.0, length-append r.0.0 (clean f r.1 r.0.1).0)

-- What comment_remove writes is no longer than the script, so that with its NUL it fits the buffer.
pub length-comment_remove :
    (script out : List ℕ) → comment_remove true script ≡ some out → length out ≤ length script
unfolding comment_remove finish
length-comment_remove script out h =
    let cleaned = length-clean (length script) (record { depth = 0; in_string = false }) script in
    ground (arith, cleaned)
