-- ===== src/Text/Bytes.antt =====
-- The memory routines of the core's C library over byte-addressed memory.
pub mod Laws
use shahi_n_kernel.Prelude.{ℕ, zero, suc, ◌+◌, ◌%◌, ◌==◌, if◌then◌else◌}
use shahi_n_kernel.Prelude.Int.{ℤ, pos, diff}

abbrev pub Bytes : Type 0
Bytes = ℕ → ℕ

unfoldable pub put : ℕ → ℕ → Bytes → Bytes
put at v mem = λ a. if a == at then v else mem a

unfoldable pub memset : (dest val size : ℕ) → Bytes → Bytes
unfolding put
memset dest val zero mem = mem
memset dest val (suc size) mem = memset (suc dest) val size (put dest (val % 256) mem)

-- Byte by byte, upwards.
unfoldable pub memcpy : (dest src size : ℕ) → Bytes → Bytes
unfolding put
memcpy dest src zero mem = mem
memcpy dest src (suc size) mem = memcpy (suc dest) (suc src) size (put dest (mem src) mem)

unfoldable pub memcmp : (a b size : ℕ) → Bytes → ℤ
memcmp a b zero mem = pos 0
memcmp a b (suc size) mem =
    if mem a == mem b then memcmp (suc a) (suc b) size mem else diff (mem a) (mem b)

-- The loop of `strcpy`, on fuel: the NUL is copied and ends it.
unfoldable pub strcpy : (fuel dest src : ℕ) → Bytes → Bytes
unfolding put
strcpy zero dest src mem = mem
strcpy (suc fuel) dest src mem =
    let mem' = put dest (mem src) mem in
    let rest = strcpy fuel (suc dest) (suc src) mem' in if mem src == 0 then mem' else rest

-- The place of the NUL that ends the string at `a`.
unfoldable pub string_end : (fuel a : ℕ) → Bytes → ℕ
string_end zero a mem = a
string_end (suc fuel) a mem = if mem a == 0 then a else string_end fuel (suc a) mem

unfoldable pub strcat : (fuel dest src : ℕ) → Bytes → Bytes
unfolding string_end strcpy
strcat fuel dest src mem = strcpy fuel (string_end fuel dest mem) src mem
