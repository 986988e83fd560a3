-- ===== src/Memory/Frames/Bitmap.antt =====
-- The bitmap of the frame manager as a set of frame indices: what marking, clearing and searching do.
use native.Mathlib.Decide.{ℕ_discrete}
use shahi_n_kernel.Prelude.{
  ℕ, zero, suc, ◌+◌, ◌*◌, ◌/◌, ◌%◌, ◌<◌, ◌≤◌, ◌≡◌, refl, ◌∙◌, ◌≢◌, inl, inr, true, false, not, ◌&&◌,
  ◌||◌, none, some, List, arith, ◌==◌, ltb, leb, Bool-cases, length, get_or, All, length-set,
  get_or-set_self, get_or-set_ne, set-set_self, set-get_or_self, All-set, All-get_or,
}
use shahi_n_kernel.Prelude.Bits.{
  bit_set, bit_clear, bit_test-bit_set, bit_test-bit_clear, bit_clear-bit_set, bit_set-lt,
  bit_clear-lt,
}
use shahi_n_kernel.Memory.Frames.{taken, mark, unmark, reserve, first_clear}

abbrev pub AreBytes : List ℕ → Type 0
AreBytes = All (λ b. b < 256)

-- Two indices into one byte are equal if they name the same bit of it.
same_bit : (i j : ℕ) → j / 8 ≡ i / 8 → (j % 8 == i % 8) ≡ (j == i)
same_bit i j e = ground arith

other_byte : (i j : ℕ) → j / 8 ≢ i / 8 → (j == i) ≡ false
other_byte i j ne = ground arith

module _ (bm : List ℕ) (ok : AreBytes bm) where
  byte-lt : (i : ℕ) → get_or bm i 0 < 256
  byte-lt i = All-get_or (λ b. b < 256) bm i 0 ok (omega arith)

  pub mark-AreBytes : (i : ℕ) → AreBytes (mark bm i)
  unfolding mark
  mark-AreBytes i =
      All-set (λ b. b < 256) bm (i / 8) _ ok (bit_set-lt _ _ (byte-lt (i / 8)) (omega arith))

  pub unmark-AreBytes : (i : ℕ) → AreBytes (unmark bm i)
  unfolding unmark
  unmark-AreBytes i =
      All-set (λ b. b < 256) bm (i / 8) _ ok (bit_clear-lt _ _ (byte-lt (i / 8)) (omega arith))

  pub taken-mark : (i j : ℕ) → i < length bm * 8 → taken (mark bm i) j ≡ ((j == i) || taken bm j)
  unfolding taken mark
  taken-mark i j h = elim (ℕ_discrete (j / 8) (i / 8)) [
    | yes e ↦ rw (
      e,
      get_or-set_self bm (i / 8) (bit_set (get_or bm (i / 8) 0) (i % 8)) 0 (omega arith),
      bit_test-bit_set _ (i % 8) (byte-lt (i / 8)) (omega arith) (j % 8) (omega arith),
      same_bit i j e,
    )
    | no ne ↦ rw (
      get_or-set_ne bm (i / 8) (j / 8) (bit_set (get_or bm (i / 8) 0) (i % 8)) 0 (omega arith),
      other_byte i j ne,
    )
  ]

  pub taken-unmark :
      (i j : ℕ) → i < length bm * 8 → taken (unmark bm i) j ≡ (not (j == i) && taken bm j)
  unfolding taken unmark
  taken-unmark i j h = elim (ℕ_discrete (j / 8) (i / 8)) [
    | yes e ↦ rw (
      e,
      get_or-set_self bm (i / 8) (bit_clear (get_or bm (i / 8) 0) (i % 8)) 0 (omega arith),
      bit_test-bit_clear _ (i % 8) (byte-lt (i / 8)) (omega arith) (j % 8) (omega arith),
      same_bit i j e,
    )
    | no ne ↦ rw (
      get_or-set_ne bm (i / 8) (j / 8) (bit_clear (get_or bm (i / 8) 0) (i % 8)) 0 (omega arith),
      other_byte i j ne,
    )
  ]

  pub unmark-mark : (i : ℕ) → i < length bm * 8 → taken bm i ≡ false → unmark (mark bm i) i ≡ bm
  unfolding taken mark unmark
  unmark-mark i h free =
      rw
        (
          get_or-set_self bm (i / 8) (bit_set (get_or bm (i / 8) 0) (i % 8)) 0 (omega arith),
          set-set_self,
          bit_clear-bit_set _ _ (byte-lt (i / 8)) (omega arith) free,
        )
        (set-get_or_self bm (i / 8) 0)

pub length-mark : (bm : List ℕ) (i : ℕ) → length (mark bm i) ≡ length bm
unfolding mark
length-mark bm i = length-set bm _ _

pub length-unmark : (bm : List ℕ) (i : ℕ) → length (unmark bm i) ≡ length bm
unfolding unmark
length-unmark bm i = length-set bm _ _

-- The loop of `frame_allocator_init` marks the indices from `i` to `i + rounds`, and no others.
pub taken-reserve :
    (rounds i : ℕ) (bm : List ℕ) (j : ℕ)
    → AreBytes bm
    → i + rounds ≤ length bm * 8
    → taken (reserve rounds i bm) j ≡ ((leb i j && ltb j (i + rounds)) || taken bm j)
unfolding reserve
taken-reserve zero i bm j ok h = ground arith
taken-reserve (suc rounds) i bm j ok h = ground (
  arith,
  length-mark bm i,
  mark-AreBytes bm ok i,
  taken-mark bm ok i j,
  taken-reserve rounds (i + 1) (mark bm i) j,
)

pub reserve-AreBytes :
    (rounds i : ℕ) (bm : List ℕ)
    → AreBytes bm
    → AreBytes (reserve rounds i bm) × (length (reserve rounds i bm) ≡ length bm)
unfolding reserve
reserve-AreBytes zero i bm ok = (ok, refl)
reserve-AreBytes (suc rounds) i bm ok =
    let (bytes, len) = reserve-AreBytes rounds (i + 1) (mark bm i) (mark-AreBytes bm ok i) in
    (bytes, len ∙ length-mark bm i)

-- The search stops at the first clear index of its range.
pub first_clear-some :
    (rounds i : ℕ) (bm : List ℕ) {k : ℕ}
    → first_clear rounds i bm ≡ some k
    → (i ≤ k)
      × (k < i + rounds)
      × (taken bm k ≡ false)
      × ((j : ℕ) → i ≤ j → j < k → taken bm j ≡ true)
unfolding first_clear
first_clear-some zero i bm e = cc
first_clear-some (suc rounds) i bm {k} e = elim (Bool-cases (taken bm i)) [
  | inl t ↦
      let ih = first_clear-some rounds (i + 1) bm {k = k} (rw t at e) in
      (
        omega arith,
        omega arith,
        ih.2,
        λ j lo hi. elim (ℕ_discrete i j) [ yes p ↦ rw (← p) t | no p ↦ ih.3 j (omega arith) hi ],
      )
  | inr f ↦
      let same : i ≡ k = ground arith in
      (omega arith, omega arith, rw (← same) f, λ j lo hi. absurd (omega arith))
]

-- It finds none only where all of the range is taken.
pub first_clear-none :
    (rounds i : ℕ) (bm : List ℕ)
    → first_clear rounds i bm ≡ none
    → (j : ℕ) → i ≤ j
    → j < i + rounds
    → taken bm j ≡ true
unfolding first_clear
first_clear-none zero i bm e j lo hi = absurd (omega arith)
first_clear-none (suc rounds) i bm e j lo hi = elim (ℕ_discrete i j) [
  | yes p ↦ ground arith
  | no p ↦
      ground (
        arith,
        λ (r : first_clear rounds (i + 1) bm ≡ none). first_clear-none rounds (i + 1) bm r j,
      )
]
