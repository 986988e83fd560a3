-- ===== src/Lang/Value/Decimal.antt =====
-- Printing an integer and reading it again.
use shahi_n_kernel.Lang.Value.Convert.{decimal}
use shahi_n_kernel.Lang.Expression.{is_digit}
use shahi_n_kernel.Prelude.{
  inr, inl, sym, ◌==◌, ◌∙◌, Bool-cases, ap, [], ◌%◌, ◌-◌, ◌/◌, ◌+◌, zero, suc, ◌^◌, arith, true,
  ◌*◌, length, All, ◌<◌, ◌≤◌, ◌≡◌, ◌∷◌, List, ℕ,
}

-- The number that the bytes of digits stand for, behind others.
unfoldable pub read_decimal : (before : ℕ) → List ℕ → ℕ
read_decimal before [] = before
read_decimal before (c ∷ s) = read_decimal (before * 10 + (c - 48)) s

unfoldable pub IsDigit : ℕ → Type 0
IsDigit c = is_digit c ≡ true

pub read_decimal-ge : (before : ℕ) (s : List ℕ) → before ≤ read_decimal before s
unfolding read_decimal
read_decimal-ge before [] = omega arith
read_decimal-ge before (c ∷ s) =
    let more = read_decimal-ge (before * 10 + (c - 48)) s in omega (arith, more)

pub read_decimal-decimal :
    (fuel n : ℕ) (behind : List ℕ)
    → n < 10 ^ fuel
    → read_decimal 0 (decimal fuel n behind) ≡ read_decimal n behind
unfolding decimal read_decimal
read_decimal-decimal zero n behind h = ap (λ b. read_decimal b behind) (omega (arith, h))
read_decimal-decimal (suc fuel) n behind h =
    let more = read_decimal-decimal fuel (n / 10) ((48 + n % 10) ∷ behind) (omega (arith, h)) in
    let same : n / 10 * 10 + (48 + n % 10 - 48) ≡ n = omega arith in
    let back = more ∙ ap (λ b. read_decimal b behind) same in
    let none_left = λ (z : n ≡ 0). ap (λ b. read_decimal b behind) (sym z) in
    ground (arith, back, none_left)

pub decimal-digits :
    (fuel n : ℕ) (behind : List ℕ) → All IsDigit behind → All IsDigit (decimal fuel n behind)
unfolding decimal IsDigit is_digit
decimal-digits zero n behind h = h
decimal-digits (suc fuel) n behind h =
    let more = decimal-digits fuel (n / 10) ((48 + n % 10) ∷ behind) (ground arith, h) in
    elim (Bool-cases (n == 0)) [ inl z ↦ rw z h | inr z ↦ rw z more ]

pub length-decimal : (fuel n : ℕ) (behind : List ℕ) → length behind ≤ length (decimal fuel n behind)
unfolding decimal
length-decimal zero n behind = omega arith
length-decimal (suc fuel) n behind =
    let more = length-decimal fuel (n / 10) ((48 + n % 10) ∷ behind) in ground (arith, more)
