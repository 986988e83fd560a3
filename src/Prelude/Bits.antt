-- ===== src/Prelude/Bits.antt =====
-- A byte's bits: tests, sets and clears, with their laws checked over all bytes.
use Prim.Native.Nat.{ℕ, zero, suc, ◌-◌, ◌%◌, ◌^◌, ◌<◌, bit_and, bit_or, bit_and-bitwise}
use mathlib.Core.Path.{◌≡◌, refl, ap}
use mathlib.Core.Bool.{Bool, true, false, not, ◌&&◌, ◌||◌}
use native.Mathlib.Omega.{arith}
use shahi_n_kernel.Prelude.Tests.{◌==◌, ltb, if◌then◌else◌}

-- `b & (1 << k)`
unfoldable pub bit_test : ℕ → ℕ → Bool
bit_test b k = not (bit_and b (2 ^ k) == 0)

-- `b |= (1 << k)` on a byte
unfoldable pub bit_set : ℕ → ℕ → ℕ
bit_set b k = bit_or b (2 ^ k) % 256

-- `b &= ~(1 << k)` on a byte
unfoldable pub bit_clear : ℕ → ℕ → ℕ
bit_clear b k = bit_and b (255 - 2 ^ k)

-- Does the test hold of every number below the bound?
unfoldable pub every_below : (ℕ → Bool) → ℕ → Bool
every_below test zero = true
every_below test (suc bound) = if test bound then every_below test bound else false

pub every_below_at :
    (test : ℕ → Bool) (bound : ℕ)
    → every_below test bound ≡ true
    → (i : ℕ) → i < bound
    → test i ≡ true
unfolding every_below
every_below_at test zero e i below = absurd (omega arith)
every_below_at test (suc bound) e i below =
    let before =
      λ (b : every_below test bound ≡ true) (l : i < bound). every_below_at test bound b i l in
    let last = λ (q : i ≡ bound). ap test q in ground (arith, before, last)

-- Over every byte and every two bit positions.
all_bytes : (ℕ → ℕ → ℕ → Bool) → Bool
unfolding every_below
all_bytes p = every_below (λ b. every_below (λ j. every_below (λ k. p b j k) 8) 8) 256

all_bytes_sound :
    (p : ℕ → ℕ → ℕ → Bool) (b j k : ℕ)
    → all_bytes p ≡ true
    → b < 256
    → j < 8
    → k < 8
    → p b j k ≡ true
unfolding all_bytes
all_bytes_sound p b j k h hb hj hk =
    let at_b = every_below_at (λ x. every_below (λ y. every_below (λ z. p x y z) 8) 8) 256 h b hb in
    let at_j = every_below_at (λ y. every_below (λ z. p b y z) 8) 8 at_b j hj in
    every_below_at (λ z. p b j z) 8 at_j k hk

unfoldable pub iff : Bool → Bool → Bool
iff true b = b
iff false b = not b

pub iff_eq : (a b : Bool) → iff a b ≡ true → a ≡ b
unfolding iff
iff_eq true b h = ground arith
iff_eq false b h = ground arith

set_table : all_bytes (λ b j k. iff (bit_test (bit_set b j) k) ((k == j) || bit_test b k)) ≡ true
unfolding all_bytes iff bit_test bit_set
set_table = refl

clear_table :
    all_bytes (λ b j k. iff (bit_test (bit_clear b j) k) (not (k == j) && bit_test b k)) ≡ true
unfolding all_bytes iff bit_test bit_clear
clear_table = refl

undo_table : all_bytes (λ b j k. bit_test b j || (bit_clear (bit_set b j) j == b)) ≡ true
unfolding all_bytes bit_test bit_clear bit_set
undo_table = refl

size_table : all_bytes (λ b j k. ltb (bit_set b j) 256 && ltb (bit_clear b j) 256) ≡ true
unfolding all_bytes bit_clear bit_set
size_table = refl

module _ (b j : ℕ) (hb : b < 256) (hj : j < 8) where
  pub bit_test-bit_set : (k : ℕ) → k < 8 → bit_test (bit_set b j) k ≡ ((k == j) || bit_test b k)
  bit_test-bit_set k hk = iff_eq _ _ (all_bytes_sound _ b j k set_table hb hj hk)

  pub bit_test-bit_clear :
      (k : ℕ) → k < 8 → bit_test (bit_clear b j) k ≡ (not (k == j) && bit_test b k)
  bit_test-bit_clear k hk = iff_eq _ _ (all_bytes_sound _ b j k clear_table hb hj hk)

  pub bit_clear-bit_set : bit_test b j ≡ false → bit_clear (bit_set b j) j ≡ b
  bit_clear-bit_set h = let e = all_bytes_sound _ b j j undo_table hb hj hj in ground (arith, e)

  pub bit_set-lt : bit_set b j < 256
  bit_set-lt = let e = all_bytes_sound _ b j j size_table hb hj hj in ground (arith, e)

  pub bit_clear-lt : bit_clear b j < 256
  bit_clear-lt = let e = all_bytes_sound _ b j j size_table hb hj hj in ground (arith, e)

pub bit_test-zero : (k : ℕ) → bit_test 0 k ≡ false
unfolding bit_test
bit_test-zero k = rw (bit_and-bitwise 0 (2 ^ k))
