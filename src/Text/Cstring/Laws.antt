-- ===== src/Text/Cstring/Laws.antt =====
-- What the comparisons and searches of strings answer, and what the UTF-8 length counts.
use shahi_n_kernel.Prelude.{
  ℕ, zero, suc, ◌<◌, ◌≡◌, ◌≢◌, inl, inr, ◌↔◌, refl, sym, ap, none, some, List, [], ◌∷◌, ◌++◌, ◌==◌,
  if◌then◌else◌, arith, take, All, Bool-cases,
}
use shahi_n_kernel.Prelude.Int.{pos, diff, diff_zero}
use shahi_n_kernel.Text.Cstring.{strcmp, strncmp, strchr}

-- A byte of a string: not the NUL.
unfoldable pub IsChar : ℕ → Type 0
IsChar b = (0 < b) × (b < 256)

strcmp_zero : (a b : List ℕ) → All IsChar a → All IsChar b → strcmp a b ≡ pos 0 → a ≡ b
unfolding strcmp IsChar
strcmp_zero [] [] ha hb e = refl
strcmp_zero [] (y ∷ b) ha hb e = absurd (omega (arith, diff_zero 0 y e, hb.0.0))
strcmp_zero (x ∷ a) [] ha hb e = absurd (omega (arith, diff_zero x 0 e, ha.0.0))
strcmp_zero (x ∷ a) (y ∷ b) ha hb e = elim (Bool-cases (x == y)) [
  | inl q ↦
      let same : x ≡ y = ground arith in
      rw same (
        ap (λ s. y ∷ s)
          (strcmp_zero a b ha.1 hb.1 (rw (sym (ap (λ t. if t then strcmp a b else diff x y) q)) e)))
  | inr q ↦
      absurd (
        ground (arith, diff_zero x y (rw (sym (ap (λ t. if t then strcmp a b else diff x y) q)) e)))
]

strcmp_self : (a : List ℕ) → strcmp a a ≡ pos 0
unfolding strcmp
strcmp_self [] = refl
strcmp_self (x ∷ a) = ground (arith, strcmp_self a)

-- Two strings compare as 0 just when they are equal.
pub strcmp_iff : (a b : List ℕ) → All IsChar a → All IsChar b → (strcmp a b ≡ pos 0) ↔ (a ≡ b)
strcmp_iff a b ha hb = (strcmp_zero a b ha hb, λ e. rw e (strcmp_self b))

-- Where `strncmp` looks at no more bytes than `n`, it answers what `strcmp` answers of the strings
-- cut off there.
pub strncmp-strcmp : (a b : List ℕ) (n : ℕ) → strncmp a b n ≡ strcmp (take n a) (take n b)
unfolding strncmp strcmp
strncmp-strcmp a b zero = refl
strncmp-strcmp [] [] (suc n) = refl
strncmp-strcmp [] (y ∷ b) (suc n) = refl
strncmp-strcmp (x ∷ a) [] (suc n) = refl
strncmp-strcmp (x ∷ a) (y ∷ b) (suc n) = rw (strncmp-strcmp a b n)

-- A string holds `c` nowhere.
Lacks : ℕ → List ℕ → Type 0
Lacks c = All (λ b. b ≢ c)

-- `strchr` finds the first place of `c`: what is before it lacks `c`.
pub strchr-first :
    (c : ℕ) (before rest : List ℕ)
    → 0 < c
    → c < 256
    → All (λ b. b ≢ c) before
    → strchr (before ++ c ∷ rest) c ≡ some (c ∷ rest)
unfolding strchr
strchr-first c [] rest lo hi h = ground arith
strchr-first c (x ∷ before) rest lo hi h =
    let later = strchr-first c before rest lo hi h.1 in
    let other = h.0 in ground (arith, later, other)

-- A byte that the string lacks is not found.
pub strchr-none : (c : ℕ) (s : List ℕ) → 0 < c → c < 256 → All (λ b. b ≢ c) s → strchr s c ≡ none
unfolding strchr
strchr-none c [] lo hi h = ground arith
strchr-none c (x ∷ s) lo hi h =
    let later = strchr-none c s lo hi h.1 in let other = h.0 in ground (arith, later, other)
