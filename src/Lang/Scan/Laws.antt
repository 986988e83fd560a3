-- ===== src/Lang/Scan/Laws.antt =====
-- Lines are read back as they were written, and a normalized archive path is in normal form.
use shahi_n_kernel.Prelude.{
  inr, inl, ℕ, zero, suc, ◌-◌, ◌≤◌, ◌<◌, ◌≡◌, ◌≢◌, refl, sym, ap, ◌∙◌, Bool, true, false, not, ◌&&◌,
  ◌||◌, none, some, List, [], ◌∷◌, ◌++◌, ◌==◌, if◌then◌else◌, length, All, arith, Bool-cases,
}
use mathlib.Core.Path.{subst}
use shahi_n_kernel.Lang.Scan.{
  line_end, skip_byte, read_line, slash, backslash, is_slash, skip_dots, skip_slashes, copy_path,
  arp_normalize_archive_path,
}

-- A byte inside a line.
unfoldable pub IsInLine : ℕ → Type 0
IsInLine c = (c ≢ 10) × (c ≢ 13)

line_end-line : (s rest : List ℕ) → All IsInLine s → line_end (s ++ 10 ∷ rest) ≡ (s, 10 ∷ rest)
unfolding line_end IsInLine
line_end-line [] rest h = refl
line_end-line (c ∷ s) rest h =
    let e : ((c == 10) || (c == 13)) ≡ false = ground (arith, h.0) in
    rw e (ap (λ r. (c ∷ r.0, r.1)) (line_end-line s rest h.1))

-- A line that ends in a newline is read as it is, and the next read starts behind the newline.
pub read_line-line :
    (s rest : List ℕ) → All IsInLine s → read_line true (s ++ 10 ∷ rest) ≡ (some s, rest)
unfolding read_line skip_byte
read_line-line s rest h =
    ap
      (λ r.
        if not (length r.0 == 0) && false
        then (none, r.1)
        else (some r.0, skip_byte 10 (skip_byte 13 r.1)))
      (line_end-line s rest h)
    ∙ ground arith

-- A path in normal form: no backslash, no slash in front, and no two slashes in a row. `blocked` is
-- true in front and behind a slash.
pub IsNormal : (blocked : Bool) → List ℕ → Type 0
IsNormal blocked [] = Unit
IsNormal blocked (c ∷ s) =
    (c ≢ backslash) × ((blocked && (c == slash)) ≡ false) × IsNormal (c == slash) s

not_slash : (c : ℕ) → is_slash c ≡ false → (c ≢ backslash) × ((c == slash) ≡ false)
unfolding is_slash
not_slash c e = (ground (arith, e), ground (arith, e))

-- A byte that is no slash, in front of a path in normal form.
IsNormal-copied :
    (blocked : Bool) (c : ℕ) (s : List ℕ)
    → is_slash c ≡ false
    → IsNormal false s
    → IsNormal blocked (c ∷ s)
unfolding IsNormal
IsNormal-copied blocked c s e h =
    let other = not_slash c e in
    (other.0, rw other.1 (ground arith), subst (λ b. IsNormal b s) (sym other.1) h)

copy_path-IsNormal :
    (room : ℕ) (at_start last : Bool) (s : List ℕ)
    → IsNormal (at_start || last) (copy_path room at_start last s)
unfolding copy_path IsNormal
copy_path-IsNormal zero at_start last s = tt
copy_path-IsNormal (suc room) at_start last [] = tt
copy_path-IsNormal (suc room) at_start last (c ∷ s) = elim (Bool-cases (is_slash c)) [
  | inl e ↦ elim (Bool-cases (at_start || last)) [
    | inl q ↦ rw e (
        rw q (
          subst (λ b. IsNormal b (copy_path (suc room) at_start last s)) q
            (copy_path-IsNormal (suc room) at_start last s)))
    | inr q ↦
        rw e (rw q (λ b. absurd (omega (arith, b)), refl, copy_path-IsNormal room false true s))
  ]
  | inr e ↦ rw e (
      IsNormal-copied (at_start || last) c (copy_path room false false s) e
        (copy_path-IsNormal room false false s))
]

length-copy_path :
    (room : ℕ) (at_start last : Bool) (s : List ℕ) → length (copy_path room at_start last s) ≤ room
unfolding copy_path
length-copy_path zero at_start last s = omega arith
length-copy_path (suc room) at_start last [] = omega arith
length-copy_path (suc room) at_start last (c ∷ s) =
    let skipped = length-copy_path (suc room) at_start last s in
    let separated = length-copy_path room false true s in
    let copied = length-copy_path room false false s in ground (arith, skipped, separated, copied)

-- A normalized path is in normal form, and with its NUL it fits the buffer.
pub arp_normalize_archive_path-IsNormal :
    (src : List ℕ) (dst_size : ℕ)
    → 0 < dst_size
    → IsNormal true (arp_normalize_archive_path src dst_size)
      × (length (arp_normalize_archive_path src dst_size) < dst_size)
unfolding arp_normalize_archive_path
arp_normalize_archive_path-IsNormal src dst_size h =
    let s = skip_slashes (skip_dots src) in
    let fits = length-copy_path (dst_size - 1) true false s in
    (copy_path-IsNormal (dst_size - 1) true false s, omega (arith, fits))
