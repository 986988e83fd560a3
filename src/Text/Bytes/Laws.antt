-- ===== src/Text/Bytes/Laws.antt =====
-- What the memory routines write, and where.
use shahi_n_kernel.Prelude.{
  true, false, ◌==◌, ◌≢◌, ℕ, zero, suc, ◌+◌, ◌-◌, ◌%◌, ◌≤◌, ◌<◌, ◌≡◌, ◌⊎◌, ◌↔◌, refl, sym, ap, ◌∙◌,
  ◌&&◌, ltb, leb, if◌then◌else◌, arith,
}
use shahi_n_kernel.Prelude.Int.{pos, diff_zero}
use shahi_n_kernel.Text.Bytes.{strcpy, Bytes, put, memset, memcpy, memcmp}

next_of : (a i : ℕ) → suc a + i ≡ a + suc i
next_of a i = omega arith

at_start : (a : ℕ) → a ≡ a + 0
at_start a = omega arith

-- `memset` fills its range, and nothing else.
pub memset_lem :
    (size dest val a : ℕ) (mem : Bytes)
    → memset dest val size mem a ≡ (if leb dest a && ltb a (dest + size) then val % 256 else mem a)
unfolding memset put
memset_lem zero dest val a mem = ground arith
memset_lem (suc size) dest val a mem =
    let rest = memset_lem size (suc dest) val a (put dest (val % 256) mem) in ground (arith, rest)

-- `memcpy` copies its range, and writes nothing else, where the target does not start inside the
-- source behind its first byte.
pub memcpy_lem :
    (size dest src a : ℕ) (mem : Bytes)
    → dest ≤ src ⊎ src + size ≤ dest
    → memcpy dest src size mem a
      ≡ (if leb dest a && ltb a (dest + size) then mem (src + (a - dest)) else mem a)
unfolding memcpy put
memcpy_lem zero dest src a mem h = ground arith
memcpy_lem (suc size) dest src a mem h =
    let rest = memcpy_lem size (suc dest) (suc src) a (put dest (mem src) mem) in
    let next = λ (l : suc dest ≤ a). ap mem (shift dest src a l) in
    let here = λ (e : a ≡ dest). ap mem (stay dest src a e) in ground (arith, rest, next, here, h)
  where
    shift : (dest src a : ℕ) → suc dest ≤ a → suc src + (a - suc dest) ≡ src + (a - dest)
    shift dest src a l = omega arith

    stay : (dest src a : ℕ) → a ≡ dest → src + (a - dest) ≡ src
    stay dest src a e = omega arith

memcmp_equal :
    (size a b : ℕ) (mem : Bytes)
    → ((i : ℕ) → i < size → mem (a + i) ≡ mem (b + i))
    → memcmp a b size mem ≡ pos 0
unfolding memcmp
memcmp_equal zero a b mem h = refl
memcmp_equal (suc size) a b mem h =
    let rest =
      memcmp_equal size (suc a) (suc b) mem
        (λ i l. ap mem (next_of a i) ∙ (h (suc i) (omega arith) ∙ ap mem (sym (next_of b i)))) in
    let first : mem a ≡ mem b =
      ap mem (at_start a) ∙ (h 0 (omega arith) ∙ ap mem (sym (at_start b))) in
    ground (arith, rest, first)

memcmp_first :
    (size a b : ℕ) (mem : Bytes)
    → memcmp a b (suc size) mem ≡ pos 0
    → (mem a ≡ mem b) × (memcmp (suc a) (suc b) size mem ≡ pos 0)
unfolding memcmp
memcmp_first size a b mem e =
    let apart = diff_zero (mem a) (mem b) in (ground (arith, apart, e), ground (arith, apart, e))

memcmp_zero :
    (size a b i : ℕ) (mem : Bytes)
    → memcmp a b size mem ≡ pos 0
    → i < size
    → mem (a + i) ≡ mem (b + i)
memcmp_zero zero a b i mem e l = absurd (omega arith)
memcmp_zero (suc size) a b zero mem e l =
    ap mem (sym (at_start a)) ∙ ((memcmp_first size a b mem e).0 ∙ ap mem (at_start b))
memcmp_zero (suc size) a b (suc i) mem e l =
    ap mem (sym (next_of a i))
    ∙ (memcmp_zero size (suc a) (suc b) i mem (memcmp_first size a b mem e).1 (omega arith)
        ∙ ap mem (next_of b i))

-- `memcmp` answers 0 just when the two ranges hold the same bytes.
pub memcmp_iff :
    (size a b : ℕ) (mem : Bytes)
    → (memcmp a b size mem ≡ pos 0) ↔ ((i : ℕ) → i < size → mem (a + i) ≡ mem (b + i))
memcmp_iff size a b mem = (λ e i l. memcmp_zero size a b i mem e l, memcmp_equal size a b mem)

-- The bytes of a string of length `n` at `src`, seen past a write outside of it.
kept :
    (src dest v n i : ℕ) (mem : Bytes) → src + i ≢ dest → put dest v mem (src + i) ≡ mem (src + i)
unfolding put
kept src dest v n i mem h = ground (arith, h)

-- A string of length `n`: `n` bytes other than 0, and the NUL.
unfoldable pub IsString : (src n : ℕ) → Bytes → Type 0
IsString src n mem = ((i : ℕ) → i < n → mem (src + i) ≢ 0) × (mem (src + n) ≡ 0)

tail-IsString :
    (src dest v n : ℕ) (mem : Bytes)
    → dest ≤ src ⊎ src + suc n < dest
    → IsString src (suc n) mem
    → IsString (suc src) n (put dest v mem)
unfolding IsString
tail-IsString src dest v n mem apart h = (
  λ i l e. h.0 (suc i) (omega arith) (
      ap mem (sym (next_of src i))
      ∙ (sym (kept (suc src) dest v n i mem (λ q. ground (arith, apart, q))) ∙ e)),
  kept (suc src) dest v n n mem (λ q. ground (arith, apart, q)) ∙ (ap mem (next_of src n) ∙ h.1),
)

-- With more fuel than the string has bytes, and no write into what is still to be read, `strcpy` is
-- `memcpy` of the string and its NUL: it ends, and where it does is known.
pub strcpy-memcpy :
    (n fuel dest src : ℕ) (mem : Bytes)
    → n < fuel
    → dest ≤ src ⊎ src + n < dest
    → IsString src n mem
    → strcpy fuel dest src mem ≡ memcpy dest src (suc n) mem
unfolding strcpy memcpy IsString
strcpy-memcpy n zero dest src mem f apart h = absurd (omega arith)
strcpy-memcpy zero (suc fuel) dest src mem f apart h =
    let start = ap mem (at_start src) in
    let e : (mem src == 0) ≡ true = ground (arith, start, h.1) in rw e refl
strcpy-memcpy (suc n) (suc fuel) dest src mem f apart h =
    let start = ap mem (at_start src) in
    let first = h.0 0 (omega arith) in
    let e : (mem src == 0) ≡ false = ground (arith, start, first) in
    rw e (
      strcpy-memcpy n fuel (suc dest) (suc src) (put dest (mem src) mem) (omega arith)
        (ground (arith, apart)) (tail-IsString src dest (mem src) n mem apart h))
