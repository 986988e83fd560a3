-- ===== src/Lang/Value/Round.antt =====
-- An integer printed as a text and read again.
use shahi_n_kernel.Lang.Scan.{is_space, skip_spaces}
use shahi_n_kernel.Prelude.Int.{magnitude, ℤ, negsuc, pos}
use shahi_n_kernel.Lang.Expression.{and_then, peek, is_digit}
use shahi_n_kernel.Lang.Value.Exact.{exact_bound, IsExact}
use shahi_n_kernel.Lang.Value.Decimal.{
  decimal-digits, read_decimal-ge, length-decimal, read_decimal-decimal, read_decimal, IsDigit,
}
use shahi_n_kernel.Lang.Value.{text_value, int_value, Floats}
use shahi_n_kernel.Lang.Value.Convert.{
  double_to_string, text_number, to_i64, to_text, fraction_text, point_part, sign_part, decimal,
  string_to_double, unsigned_text, whole_part, decimal_text,
}
use mathlib.Core.List.{append-nil}
use shahi_n_kernel.Prelude.{
  ◌&&◌, if◌then◌else◌, ◌∙◌, false, ◌%◌, inr, ◌-◌, ◌/◌, inl, ◌==◌, Bool, ap, Bool-cases, suc, ◌∷◌,
  List, arith, ◌≡◌, ◌+◌, All, ◌*◌, length, ◌<◌, ◌≤◌, [], refl, some, ℕ,
}

-- What the digits of a number are.
decimal_text-read : (n : ℕ) → n ≤ exact_bound → read_decimal 0 (decimal_text n) ≡ n
unfolding decimal_text read_decimal
decimal_text-read n h =
    let shown = read_decimal-decimal 20 n [] (omega (arith, h)) in
    let empty : read_decimal n [] ≡ n = refl in
    let zero_shown : read_decimal 0 (48 ∷ []) ≡ 0 = refl in ground (arith, shown, empty, zero_shown)

decimal_text-digits : (n : ℕ) → All IsDigit (decimal_text n)
unfolding decimal_text IsDigit is_digit
decimal_text-digits n = elim (Bool-cases (n == 0)) [
  | inl z ↦ rw z (refl, tt)
  | inr z ↦ rw z (decimal-digits 20 n [] tt)
]

decimal-nonempty : (fuel n : ℕ) → 0 < n → 0 < length (decimal (suc fuel) n [])
unfolding decimal
decimal-nonempty fuel n h =
    let more = length-decimal fuel (n / 10) ((48 + n % 10) ∷ []) in
    let z : (n == 0) ≡ false = ground (arith, h) in rw z more

decimal_text-length : (n : ℕ) → 0 < length (decimal_text n)
unfolding decimal_text
decimal_text-length n = elim (Bool-cases (n == 0)) [
  | inl z ↦ rw z (omega arith)
  | inr z ↦ rw z (decimal-nonempty 19 n (ground (arith, z)))
]

-- A digit is neither a blank nor a sign.
sign_part-digits :
    (s : List ℕ) → All IsDigit s → 0 < length s → sign_part (skip_spaces s) ≡ (pos 1, s)
unfolding sign_part skip_spaces is_space peek IsDigit is_digit
sign_part-digits [] h l = absurd (omega arith)
sign_part-digits (c ∷ s) h l =
    let d = h.0 in
    let visible : is_space c ≡ false = ground (arith, d) in
    let unsigned : (c == 45) ≡ false = ground (arith, d) in
    let positive : (c == 43) ≡ false = ground (arith, d) in
    rw visible (rw (unsigned, positive) refl)

no_fraction : (b : Bool) (s : List ℕ) → (if b && false then s else []) ≡ []
no_fraction b s = ground arith

module _ (fs : Floats) (exact : IsExact fs.f64) where
  abbrev whole : ℕ → fs.f64.Real
  whole n = fs.f64.of_int (pos n)

  step :
      (before d : ℕ)
      → before * 10 + d ≤ exact_bound
      → fs.f64.add (fs.f64.mul (whole before) (whole 10)) (whole d) ≡ whole (before * 10 + d)
  step before d h =
      rw (exact.mul-of_int before 10 (omega (arith, h)) (omega arith) (omega (arith, h)))
        (exact.add-of_int (before * 10) d h)

  whole_part-digits :
      (before count : ℕ) (s : List ℕ)
      → All IsDigit s
      → read_decimal before s ≤ exact_bound
      → whole_part fs (whole before) count s ≡ (whole (read_decimal before s), count + length s, [])
  unfolding whole_part read_decimal IsDigit
  whole_part-digits before count [] h l = ap (λ k. (whole before, k, [])) (omega arith)
  whole_part-digits before count (c ∷ s) h l =
      let value = read_decimal-ge (before * 10 + (c - 48)) s in
      let more = whole_part-digits (before * 10 + (c - 48)) (count + 1) s h.1 l in
      let counted : count + 1 + length s ≡ count + suc (length s) = omega arith in
      rw h.0 (
        rw (step before (c - 48) (omega (arith, value, l)))
          (more ∙ ap (λ k. (whole (read_decimal (before * 10 + (c - 48)) s), k, [])) counted))

  string_to_double-digits :
      (text s : List ℕ) (sign : ℤ)
      → sign_part (skip_spaces text) ≡ (sign, s)
      → All IsDigit s
      → 0 < length s
      → read_decimal 0 s ≤ exact_bound
      → string_to_double fs text ≡ (fs.f64.mul (whole (read_decimal 0 s)) (fs.f64.of_int sign), [])
  unfolding string_to_double point_part peek
  string_to_double-digits text s sign e h l b =
      let some_digits : (0 + length s == 0) ≡ false = ground (arith, l) in
      rw e (rw (whole_part-digits 0 0 s h b) (rw some_digits refl))

  string_to_double-decimal :
      (n : ℕ) → n ≤ exact_bound → string_to_double fs (decimal_text n) ≡ (whole n, [])
  string_to_double-decimal n h =
      let shown = decimal_text-read n h in
      let digits = decimal_text-digits n in
      let l = decimal_text-length n in
      let one : n * 1 ≡ n = omega arith in
      let same = exact.mul-of_int n 1 h (omega arith) (omega (arith, h)) in
      rw
        (string_to_double-digits (decimal_text n) (decimal_text n) (pos 1)
          (sign_part-digits (decimal_text n) digits l) digits l (omega (arith, shown, h)))
        (rw (shown, same, one) refl)

  string_to_double-negative :
      (n : ℕ)
      → n < exact_bound
      → string_to_double fs (45 ∷ decimal_text (suc n)) ≡ (fs.f64.of_int (negsuc n), [])
  unfolding sign_part skip_spaces is_space peek
  string_to_double-negative n h =
      let shown = decimal_text-read (suc n) h in
      rw
        (string_to_double-digits (45 ∷ decimal_text (suc n)) (decimal_text (suc n)) (negsuc 0) refl
          (decimal_text-digits (suc n)) (decimal_text-length (suc n)) (omega (arith, shown, h)))
        (rw (shown, exact.mul-minus_one n h) refl)

  unsigned_text-whole : (n : ℕ) → n ≤ exact_bound → unsigned_text fs 0 (whole n) ≡ decimal_text n
  unfolding unsigned_text
  unsigned_text-whole n h = rw (exact.to_u64-of_int n h) (
      rw
        (no_fraction (fs.f64.lt (whole 0) (fs.f64.sub (whole n) (whole n)))
          (46 ∷ fraction_text fs 0 (fs.f64.sub (whole n) (whole n))))
        (append-nil (decimal_text n)))

  -- Where doubles are exact on integers of 53 bits, an integer that needs no more, put into a text
  -- and taken out of it again, is the same integer.
  pub to_i64-to_text :
      (x : ℤ)
      → magnitude x ≤ exact_bound
      → and_then (to_text fs (int_value x)) (λ s. to_i64 fs (text_value s)) ≡ some x
  unfolding to_text to_i64 text_number double_to_string and_then
  to_i64-to_text (pos n) h =
      rw (exact.negative-of_int (pos n) h, unsigned_text-whole n (omega (arith, h)))
        (rw (string_to_double-decimal n (omega (arith, h)), exact.to_i64-of_int (pos n) h) refl)
  to_i64-to_text (negsuc n) h =
      rw
        (
          exact.negative-of_int (negsuc n) h,
          exact.neg-of_int n (omega (arith, h)),
          unsigned_text-whole (suc n) (omega (arith, h)),
        )
        (rw (string_to_double-negative n (omega (arith, h)), exact.to_i64-of_int (negsuc n) h) refl)
