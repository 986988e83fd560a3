-- ===== src/Text/Cstring/Utf.antt =====
-- The UTF-8 length against an encoder: as many as there were code points.
use shahi_n_kernel.Prelude.{
  inr, inl, ◌⊎◌, ℕ, suc, ◌+◌, ◌/◌, ◌%◌, ◌≤◌, ◌<◌, ◌≡◌, refl, true, not, List, [], ◌∷◌, ◌++◌, ltb,
  leb, ◌&&◌, if◌then◌else◌, arith, length, All,
}
use shahi_n_kernel.Prelude.Bits.{every_below, every_below_at, iff, iff_eq}
use shahi_n_kernel.Text.Cstring.{utf8_strlen, starts_character}

starts_table : every_below (λ b. iff (starts_character b) (not (leb 128 b && ltb b 192))) 256 ≡ true
unfolding every_below iff starts_character
starts_table = refl

starts_lem : (b : ℕ) → b < 256 → starts_character b ≡ not (leb 128 b && ltb b 192)
starts_lem b h = iff_eq _ _ (
    every_below_at (λ b. iff (starts_character b) (not (leb 128 b && ltb b 192))) 256 starts_table b
      h)

pub utf8_strlen-append : (s t : List ℕ) → utf8_strlen (s ++ t) ≡ utf8_strlen s + utf8_strlen t
unfolding utf8_strlen
utf8_strlen-append [] t = omega arith
utf8_strlen-append (x ∷ s) t = ground (arith, utf8_strlen-append s t)

-- UTF-8 as the standard describes it.
unfoldable pub encode : ℕ → List ℕ
encode c =
    if ltb c 128
    then c ∷ []
    else if ltb c 2048
    then (192 + c / 64) ∷ (128 + c % 64) ∷ []
    else if ltb c 65536
    then (224 + c / 4096) ∷ (128 + c / 64 % 64) ∷ (128 + c % 64) ∷ []
    else (240 + c / 262144) ∷ (128 + c / 4096 % 64) ∷ (128 + c / 64 % 64) ∷ (128 + c % 64) ∷ []

unfoldable pub encode_all : List ℕ → List ℕ
unfolding encode
encode_all [] = []
encode_all (c ∷ cs) = encode c ++ encode_all cs

leads :
    (b : ℕ) (s : List ℕ)
    → b < 128 ⊎ ((192 ≤ b) × (b < 256))
    → utf8_strlen (b ∷ s) ≡ suc (utf8_strlen s)
unfolding utf8_strlen
leads b s (inl h) = ground (arith, starts_lem b (omega arith))
leads b s (inr h) = ground (arith, starts_lem b (omega arith))

follows : (r : ℕ) (s : List ℕ) → r < 64 → utf8_strlen ((128 + r) ∷ s) ≡ utf8_strlen s
unfolding utf8_strlen
follows r s h = ground (arith, starts_lem (128 + r) (omega arith))

utf8_strlen-encode_one : (c : ℕ) → c < 1114112 → utf8_strlen (encode c) ≡ 1
unfolding encode utf8_strlen
utf8_strlen-encode_one c h =
    let last = follows (c % 64) [] (omega arith) in
    let third = follows (c / 64 % 64) ((128 + c % 64) ∷ []) (omega arith) in
    let second =
      follows (c / 4096 % 64) ((128 + c / 64 % 64) ∷ (128 + c % 64) ∷ []) (omega arith) in
    let one = λ (l : c < 128). leads c [] (inl l) in
    let two = λ (l : 192 + c / 64 < 256).
      leads (192 + c / 64) ((128 + c % 64) ∷ []) (inr (omega arith, l)) in
    let three = λ (l : 224 + c / 4096 < 256).
      leads (224 + c / 4096) ((128 + c / 64 % 64) ∷ (128 + c % 64) ∷ []) (inr (omega arith, l)) in
    let four =
      leads (240 + c / 262144) ((128 + c / 4096 % 64) ∷ (128 + c / 64 % 64) ∷ (128 + c % 64) ∷ [])
        (inr (omega arith, omega arith)) in
    let empty : utf8_strlen [] ≡ 0 = refl in ground arith

-- Of the UTF-8 encoding of a list of code points, `utf8_strlen` is the list's length.
pub utf8_strlen-encode_all :
    (cs : List ℕ) → All (λ c. c < 1114112) cs → utf8_strlen (encode_all cs) ≡ length cs
unfolding encode_all utf8_strlen
utf8_strlen-encode_all [] h = refl
utf8_strlen-encode_all (c ∷ cs) h = omega (
  arith,
  utf8_strlen-append (encode c) (encode_all cs),
  utf8_strlen-encode_one c h.0,
  utf8_strlen-encode_all cs h.1,
)
