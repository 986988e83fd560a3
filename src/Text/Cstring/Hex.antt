-- ===== src/Text/Cstring/Hex.antt =====
-- `hex_to_string` prints what a reader of hexadecimal digits reads back.
use shahi_n_kernel.Prelude.{
  ap, ℕ, zero, suc, ◌+◌, ◌-◌, ◌*◌, ◌/◌, ◌%◌, ◌^◌, ◌<◌, ◌≡◌, refl, ◌∙◌, true, List, [], ◌∷◌, ◌==◌,
  ltb, if◌then◌else◌, get_or, arith,
}
use shahi_n_kernel.Prelude.Bits.{every_below, every_below_at}
use shahi_n_kernel.Text.Cstring.{hex, hex_digits, hex_to_string}

-- The digits 0 to 9 and A to F, as a reader takes them.
unfoldable pub digit_of : ℕ → ℕ
digit_of c = if ltb c 58 then c - 48 else c - 55

unfoldable pub read_hex : (acc : ℕ) → List ℕ → ℕ
unfolding digit_of
read_hex acc [] = acc
read_hex acc (c ∷ s) = read_hex (acc * 16 + digit_of c) s

digit_table : every_below (λ d. digit_of (get_or hex d 0) == d) 16 ≡ true
unfolding every_below digit_of
digit_table = refl

digit_of-hex : (d : ℕ) → d < 16 → digit_of (get_or hex d 0) ≡ d
digit_of-hex d h =
    let e = every_below_at (λ d. digit_of (get_or hex d 0) == d) 16 digit_table d h in
    ground (arith, e)

read_hex-digits :
    (i v : ℕ) (str : List ℕ) → v < 16 ^ i → read_hex 0 (hex_digits i v str) ≡ read_hex v str
unfolding hex_digits read_hex
read_hex-digits zero v str h = ap (λ a. read_hex a str) (omega arith)
read_hex-digits (suc i) v str h =
    read_hex-digits i (v / 16) (get_or hex (v % 16) 0 ∷ str) (omega arith)
    ∙ ap (λ a. read_hex a str) (omega (arith, digit_of-hex (v % 16) (omega arith)))

-- Reading back what `hex_to_string` prints of a 32-bit value gives the value.
pub read_hex-hex_to_string : (v : ℕ) → v < 2 ^ 32 → read_hex 0 (hex_to_string v) ≡ v
unfolding hex_to_string read_hex
read_hex-hex_to_string v h = read_hex-digits 8 v [] (omega arith)
