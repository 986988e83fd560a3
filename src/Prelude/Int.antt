-- ===== src/Prelude/Int.antt =====
-- Signed integers over the native numbers, under the library's names, as far as the code uses them.
use shahi_n_kernel.Prelude.{
  ◌+◌, ◌-◌, ◌*◌, ◌/◌, ◌%◌, ◌^◌, ◌<◌, leb, ltb, ap, arith, ◌≡◌, ◌==◌, ◌&&◌, not, if◌then◌else◌, ℕ,
  zero, suc, Bool, true, false, ◌||◌,
}

-- `negsuc n` is -(n + 1).
pub data ℤ : Type 0 where
  pos : ℕ → ℤ
  negsuc : ℕ → ℤ

unfoldable pub pred : ℤ → ℤ
pred (pos zero) = negsuc 0
pred (pos (suc n)) = pos n
pred (negsuc n) = negsuc (suc n)

-- `x <= 0`
unfoldable pub is_nonpos : ℤ → Bool
is_nonpos (pos zero) = true
is_nonpos (pos (suc n)) = false
is_nonpos (negsuc n) = true

-- `a - b` of two bytes, promoted to int
unfoldable pub diff : ℕ → ℕ → ℤ
diff a b = if leb b a then pos (a - b) else negsuc (b - a - 1)

value : ℤ → ℕ
value (pos n) = n
value (negsuc n) = suc n

pub diff_zero : (a b : ℕ) → diff a b ≡ pos 0 → a ≡ b
unfolding diff value
diff_zero a b e = let v = ap value e in ground (arith, v)

pub diff_self : (a : ℕ) → diff a a ≡ pos 0
unfolding diff
diff_self a = ground arith

-- The two parts of an integer, which `omega` reads.
abbrev pub pos_part : ℤ → ℕ
pos_part (pos n) = n
pos_part (negsuc n) = 0

abbrev pub neg_part : ℤ → ℕ
neg_part (pos n) = 0
neg_part (negsuc n) = suc n

-- The integer of two parts.
abbrev pub from_parts : (p n : ℕ) → ℤ
from_parts p n = if ltb p n then negsuc (n - p - 1) else pos (p - n)

infixl 65 ◌+ℤ◌ ◌-ℤ◌
infixl 70 ◌*ℤ◌
unfoldable pub ◌+ℤ◌ : ℤ → ℤ → ℤ
x +ℤ y = from_parts (pos_part x + pos_part y) (neg_part x + neg_part y)

unfoldable pub ◌-ℤ◌ : ℤ → ℤ → ℤ
x -ℤ y = from_parts (pos_part x + neg_part y) (neg_part x + pos_part y)

unfoldable pub ◌*ℤ◌ : ℤ → ℤ → ℤ
x *ℤ y =
    from_parts (pos_part x * pos_part y + neg_part x * neg_part y)
      (pos_part x * neg_part y + neg_part x * pos_part y)

unfoldable pub neg_ℤ : ℤ → ℤ
neg_ℤ x = from_parts (neg_part x) (pos_part x)

abbrev pub ltb_ℤ : ℤ → ℤ → Bool
ltb_ℤ x y = ltb (pos_part x + neg_part y) (pos_part y + neg_part x)

abbrev pub magnitude : ℤ → ℕ
magnitude x = pos_part x + neg_part x

abbrev pub is_neg : ℤ → Bool
is_neg (pos n) = false
is_neg (negsuc n) = true

-- The division of C, towards 0, and its remainder, which has the sign of the dividend.
unfoldable pub quot : ℤ → ℤ → ℤ
quot x y =
    let q : ℕ = magnitude x / magnitude y in
    if (is_neg x && not (is_neg y)) || (is_neg y && not (is_neg x)) then from_parts 0 q else pos q

unfoldable pub rem : ℤ → ℤ → ℤ
rem x y = let r : ℕ = magnitude x % magnitude y in if is_neg x then from_parts 0 r else pos r

-- `int64_t` and its bit pattern.
unfoldable pub fits64 : ℤ → Bool
fits64 (pos n) = ltb n (2 ^ 63)
fits64 (negsuc n) = ltb n (2 ^ 63)

unfoldable pub pattern64 : ℤ → ℕ
pattern64 (pos n) = n % 2 ^ 64
pattern64 (negsuc n) = 2 ^ 64 - 1 - n % 2 ^ 64

unfoldable pub signed64 : ℕ → ℤ
signed64 x = if ltb x (2 ^ 63) then pos x else negsuc (2 ^ 64 - 1 - x)

-- `(int)x`
unfoldable pub signed32 : ℕ → ℤ
signed32 x = let y : ℕ = x % 2 ^ 32 in if ltb y (2 ^ 31) then pos y else negsuc (2 ^ 32 - 1 - y)

-- `x >> k`
unfoldable pub shift_right : ℤ → ℕ → ℤ
shift_right (pos n) k = pos (n / 2 ^ k)
shift_right (negsuc n) k = negsuc (n / 2 ^ k)

pub signed64-pattern64 : (x : ℤ) → fits64 x ≡ true → signed64 (pattern64 x) ≡ x
unfolding signed64 pattern64 fits64
signed64-pattern64 (pos n) h = ground (arith, h)
signed64-pattern64 (negsuc n) h = ground (arith, h)

abbrev pub eqb_ℤ : ℤ → ℤ → Bool
eqb_ℤ x y = pos_part x + neg_part y == pos_part y + neg_part x

-- `int` arithmetic, which wraps.
unfoldable pub int32 : ℤ → ℤ
int32 x = signed32 (pattern64 x)

pub int32-pos : (n : ℕ) → n < 2 ^ 31 → int32 (pos n) ≡ pos n
unfolding int32 signed32 pattern64
int32-pos n h = ground (arith, h)
