-- ===== src/Text/Cstring.antt =====
-- The string routines of the core's C library. A string is the list of its bytes before the NUL,
-- each from 1 to 255; a pointer into a string that is returned is the rest of the string there.
pub mod Laws
pub mod Hex
pub mod Utf
use shahi_n_kernel.Prelude.{
  ℕ, zero, suc, ◌+◌, ◌/◌, ◌%◌, Bool, not, Option, none, some, List, [], ◌∷◌, bit_and, ◌==◌,
  if◌then◌else◌, get_or,
}
use shahi_n_kernel.Prelude.Int.{ℤ, pos, diff}

unfoldable pub strcmp : (a b : List ℕ) → ℤ
strcmp [] [] = pos 0
strcmp [] (y ∷ b) = diff 0 y
strcmp (x ∷ a) [] = diff x 0
strcmp (x ∷ a) (y ∷ b) = if x == y then strcmp a b else diff x y

unfoldable pub strncmp : (a b : List ℕ) (n : ℕ) → ℤ
strncmp a b zero = pos 0
strncmp [] [] (suc n) = pos 0
strncmp [] (y ∷ b) (suc n) = diff 0 y
strncmp (x ∷ a) [] (suc n) = diff x 0
strncmp (x ∷ a) (y ∷ b) (suc n) = if x == y then strncmp a b n else diff x y

-- The rest of the string from the first `(char)c`, the NUL's place being the empty rest.
unfoldable pub strchr : (s : List ℕ) (c : ℕ) → Option (List ℕ)
strchr [] c = if c == 0 then some [] else none
strchr (x ∷ s) c = if x == c % 256 then some (x ∷ s) else strchr s c

unfoldable pub strlen : List ℕ → ℕ
strlen [] = 0
strlen (x ∷ s) = suc (strlen s)

-- `(b & 0xC0) != 0x80`
unfoldable pub starts_character : ℕ → Bool
starts_character b = not (bit_and b 192 == 128)

unfoldable pub utf8_strlen : List ℕ → ℕ
utf8_strlen [] = 0
utf8_strlen (x ∷ s) = let rest = utf8_strlen s in if starts_character x then suc rest else rest

-- "0123456789ABCDEF"
abbrev pub hex : List ℕ
hex = 48 ∷ 49 ∷ 50 ∷ 51 ∷ 52 ∷ 53 ∷ 54 ∷ 55 ∷ 56 ∷ 57 ∷ 65 ∷ 66 ∷ 67 ∷ 68 ∷ 69 ∷ 70 ∷ []

-- The digits written so far are `str`, the next one goes in front of them.
unfoldable pub hex_digits : (i value : ℕ) (str : List ℕ) → List ℕ
hex_digits zero value str = str
hex_digits (suc i) value str = hex_digits i (value / 16) (get_or hex (value % 16) 0 ∷ str)

unfoldable pub hex_to_string : ℕ → List ℕ
unfolding hex_digits
hex_to_string value = hex_digits 8 value []
