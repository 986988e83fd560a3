-- ===== src/Lang/Arrays/Laws.antt =====
-- Where an array's items lie, and reading an item after writing one.
use mathlib.Core.Option.{some-injective}
use shahi_n_kernel.Prelude.Int.{int32-pos, int32, ◌+ℤ◌, ◌*ℤ◌, pos, ℤ}
use shahi_n_kernel.Lang.Arrays.{flat_from}
use mathlib.Core.Option
use shahi_n_kernel.Prelude.{
  ap, inr, sym, inl, ◌∙◌, Bool-cases, ◌^◌, ◌<◌, ltb, arith, ◌≤◌, if◌then◌else◌, ◌+◌, ◌≡◌, ◌*◌, List,
  refl, none, some, Option, ℕ, [], ◌∷◌, true, false,
}

-- The dimensions' product, and the place of natural indices.
unfoldable pub volume : List ℕ → ℕ
volume [] = 1
volume (d ∷ dims) = d * volume dims

unfoldable pub place : (off : ℕ) (dims idx : List ℕ) → Option ℕ
place off [] [] = some off
place off (d ∷ dims) (x ∷ idx) =
    let more = place (off * d + x) dims idx in if ltb x d then more else none
place off dims idx = none

-- Numbers as the code's integers.
abbrev pub ints : List ℕ → List ℤ
ints [] = []
ints (x ∷ xs) = pos x ∷ ints xs

mono : (x d v : ℕ) → x < d → x * v + v ≤ d * v
mono x d v h = grind (arith, h)

inside :
    (off d x v : ℕ)
    → x < d
    → (off * (d * v) ≤ (off * d + x) * v) × ((off * d + x + 1) * v ≤ (off + 1) * (d * v))
inside off d x v h = let l = mono x d v h in (omega arith, omega (arith, l))

-- A quotient and a remainder are told by the number.
quotients : (q q' d x y : ℕ) → x < d → y < d → q * d + x ≡ q' * d + y → (q ≡ q') × (x ≡ y)
quotients q q' d x y hx hy e =
    let up = λ (l : q < q'). mono q q' d l in
    let down = λ (l : q' < q). mono q' q d l in
    let same : q ≡ q' = ground (arith, up, down, e, hx, hy) in
    let scaled : q * d ≡ q' * d = ap (λ z. z * d) same in (same, omega (arith, scaled, e))

place-cases :
    (off d x : ℕ) (dims idx : List ℕ) (k : ℕ)
    → place off (d ∷ dims) (x ∷ idx) ≡ some k
    → (x < d) × (place (off * d + x) dims idx ≡ some k)
unfolding place
place-cases off d x dims idx k e = elim (Bool-cases (ltb x d)) [
  | inl t ↦ (ground (arith, t), ground (arith, e, t))
  | inr f ↦ absurd (ground (arith, e, f))
]

-- The place is inside, and tells the indices.
pub place-lt :
    (off : ℕ) (dims idx : List ℕ) (k : ℕ)
    → place off dims idx ≡ some k
    → (off * volume dims ≤ k) × (k < (off + 1) * volume dims)
unfolding place volume
place-lt off [] [] k e = let same : off ≡ k = some-injective off k e in (omega arith, omega arith)
place-lt off [] (x ∷ idx) k e = absurd (ground (arith, e))
place-lt off (d ∷ dims) [] k e = absurd (ground (arith, e))
place-lt off (d ∷ dims) (x ∷ idx) k e =
    let (l, at_k) = place-cases off d x dims idx k e in
    let (low, high) = place-lt (off * d + x) dims idx k at_k in
    let (under, over) = inside off d x (volume dims) l in
    (omega (arith, low, under), omega (arith, high, over))

pub place-injective :
    (off off' : ℕ) (dims idx idx' : List ℕ) (k : ℕ)
    → place off dims idx ≡ some k
    → place off' dims idx' ≡ some k
    → (off ≡ off') × (idx ≡ idx')
unfolding place
place-injective off off' [] [] [] k e e' =
    (some-injective off k e ∙ sym (some-injective off' k e'), refl)
place-injective off off' [] [] (y ∷ idx') k e e' = absurd (ground (arith, e'))
place-injective off off' [] (x ∷ idx) idx' k e e' = absurd (ground (arith, e))
place-injective off off' (d ∷ dims) [] idx' k e e' = absurd (ground (arith, e))
place-injective off off' (d ∷ dims) (x ∷ idx) [] k e e' = absurd (ground (arith, e'))
place-injective off off' (d ∷ dims) (x ∷ idx) (y ∷ idx') k e e' =
    let (l, at_k) = place-cases off d x dims idx k e in
    let (l', at_k') = place-cases off' d y dims idx' k e' in
    let (same, rest) = place-injective (off * d + x) (off' * d + y) dims idx idx' k at_k at_k' in
    let (q, r) = quotients off off' d x y l l' same in
    (q, ap (λ z. z ∷ idx) r ∙ ap (λ zs. y ∷ zs) rest)

step : (off d x : ℕ) → off * d + x < 2 ^ 31 → int32 (pos off *ℤ pos d +ℤ pos x) ≡ pos (off * d + x)
unfolding ◌*ℤ◌ ◌+ℤ◌
step off d x h =
    let whole : pos off *ℤ pos d +ℤ pos x ≡ pos (off * d + x) = ground arith in
    rw whole (int32-pos (off * d + x) h)

-- Without overflow, the code's place is that one.
pub flat_from-place :
    (off : ℕ) (dims idx : List ℕ)
    → 0 < volume dims
    → (off + 1) * volume dims ≤ 2 ^ 31
    → flat_from (pos off) (ints dims) (ints idx) ≡ Option.map (λ k. pos k) (place off dims idx)
unfolding flat_from place volume
flat_from-place off [] [] pos_v h = refl
flat_from-place off [] (x ∷ idx) pos_v h = refl
flat_from-place off (d ∷ dims) [] pos_v h = refl
flat_from-place off (d ∷ dims) (x ∷ idx) pos_v h = elim (Bool-cases (ltb x d)) [
  | inl t ↦
      let (under, over) = inside off d x (volume dims) (ground (arith, t)) in
      let pos_rest : 0 < volume dims = grind (arith, pos_v) in
      let small : (off * d + x + 1) * volume dims ≤ 2 ^ 31 = omega (arith, over, h) in
      let fits : off * d + x < 2 ^ 31 = grind (arith, small, pos_rest) in
      let next : int32 (pos off *ℤ pos d +ℤ pos x) ≡ pos (off * d + x) = step off d x fits in
      let more = flat_from-place (off * d + x) dims idx pos_rest small in
      let t0 : ltb (x + 0) (d + 0) ≡ true = ground (arith, t) in rw (t0, next, t) more
  | inr f ↦ let f0 : ltb (x + 0) (d + 0) ≡ false = ground (arith, f) in rw (f0, f) refl
]
