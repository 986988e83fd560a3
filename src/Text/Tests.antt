-- ===== src/Text/Tests.antt =====
-- Runs of the C library, and the theorems at concrete strings and memories.
use shahi_n_kernel.Prelude.{
  ◌+◌, ◌==◌, if◌then◌else◌, zero, suc, ℕ, ◌<◌, ◌≡◌, ◌↔◌, inl, refl, some, List, [], ◌∷◌, arith,
}
use shahi_n_kernel.Prelude.Int.{pos}
use shahi_n_kernel.Text.Cstring.{strcmp, strncmp, strchr, utf8_strlen, hex_to_string}
use shahi_n_kernel.Text.Cstring.Laws.{IsChar, strcmp_iff, strncmp-strcmp, strchr-first}
use shahi_n_kernel.Text.Cstring.Utf.{encode_all, utf8_strlen-encode_all}
use shahi_n_kernel.Text.Cstring.Hex.{read_hex, read_hex-hex_to_string}
use shahi_n_kernel.Text.Bytes.{strcpy, memcpy, memset, memcmp}
use shahi_n_kernel.Text.Bytes.Laws.{strcpy-memcpy, IsString, memcpy_lem, memset_lem, memcmp_iff}

hex_beef : hex_to_string 48879 ≡ 48 ∷ 48 ∷ 48 ∷ 48 ∷ 66 ∷ 69 ∷ 69 ∷ 70 ∷ []
unfolding hex_to_string
hex_beef = refl

strcmp_iff_test :
    (strcmp (97 ∷ 98 ∷ []) (97 ∷ []) ≡ pos 0) ↔ (◌≡◌ {A = List ℕ} (97 ∷ 98 ∷ []) (97 ∷ []))
unfolding IsChar
strcmp_iff_test =
    strcmp_iff (97 ∷ 98 ∷ []) (97 ∷ [])
      ((omega arith, omega arith), ((omega arith, omega arith), tt))
      ((omega arith, omega arith), tt)

strncmp-strcmp_test : strncmp (97 ∷ 98 ∷ []) (97 ∷ 99 ∷ []) 1 ≡ strcmp (97 ∷ []) (97 ∷ [])
strncmp-strcmp_test = strncmp-strcmp (97 ∷ 98 ∷ []) (97 ∷ 99 ∷ []) 1

strchr-first_test : strchr (97 ∷ 98 ∷ 99 ∷ []) 98 ≡ some (98 ∷ 99 ∷ [])
strchr-first_test =
    strchr-first 98 (97 ∷ []) (99 ∷ []) (omega arith) (omega arith)
      (λ e. absurd (omega (arith, e)), tt)

-- Two Arabic letters and a Latin one.
utf8_strlen-encode_all_example : utf8_strlen (encode_all (1575 ∷ 97 ∷ 1576 ∷ [])) ≡ 3
utf8_strlen-encode_all_example =
    utf8_strlen-encode_all (1575 ∷ 97 ∷ 1576 ∷ []) (omega arith, (omega arith, (omega arith, tt)))

read_hex-hex_to_string_test : read_hex 0 (hex_to_string 48879) ≡ 48879
read_hex-hex_to_string_test = read_hex-hex_to_string 48879 (omega arith)

memcpy_lem_test : memcpy 1 4 3 (λ a. a) 2 ≡ 5
memcpy_lem_test = memcpy_lem 3 1 4 2 (λ a. a) (inl (omega arith))

memset_lem_test : memset 1 300 3 (λ a. a) 2 ≡ 44
memset_lem_test = memset_lem 3 1 300 2 (λ a. a)

memcmp_iff_test : (memcmp 0 4 2 (λ a. 7) ≡ pos 0) ↔ ((i : ℕ) → i < 2 → ◌≡◌ {A = ℕ} 7 7)
memcmp_iff_test = memcmp_iff 2 0 4 (λ a. 7)

-- The string "hi" at 10, copied to 2.
abbrev greeting : ℕ → ℕ
greeting a = if a == 10 then 104 else if a == 11 then 105 else 0

greeting-IsString : IsString 10 2 greeting
unfolding IsString
greeting-IsString = (
  λ i h e.
      elim i as (λ i. i < 2 → greeting (10 + i) ≡ 0 → ⊥) [
        | zero ↦ λ h e. absurd (omega (arith, e))
        | suc zero ↦ λ h e. absurd (omega (arith, e))
        | suc (suc k) ↦ λ h e. absurd (omega (arith, h))
      ]
        h e,
  refl,
)

strcpy-memcpy_example : strcpy 5 2 10 greeting ≡ memcpy 2 10 3 greeting
strcpy-memcpy_example =
    strcpy-memcpy 2 5 2 10 greeting (omega arith) (inl (omega arith)) greeting-IsString
