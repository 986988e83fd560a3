-- ===== src/Store/Disk/Words.antt =====
-- The 32-bit words of the tables, after a word or a string is put beside or over them.
use shahi_n_kernel.Prelude.{ℕ, ◌+◌, ◌^◌, ◌≤◌, ◌<◌, ◌≡◌, ◌⊎◌, ◌∙◌, List, [], ◌∷◌, arith, length}
use shahi_n_kernel.Store.Disk.{Bytes, get32, put_byte, put32, put_string}

pub get32-put32 : (at v : ℕ) (mem : Bytes) → v < 2 ^ 32 → get32 (put32 at v mem) at ≡ v
unfolding get32 put32 put_byte
get32-put32 at v mem h = ground arith

-- The words at `a` that do not meet the one at `at`.
pub get32-put32_other :
    (at v a : ℕ) (mem : Bytes) → a + 4 ≤ at ⊎ at + 4 ≤ a → get32 (put32 at v mem) a ≡ get32 mem a
unfolding get32 put32 put_byte
get32-put32_other at v a mem h = ground arith

get32-put_byte_other :
    (at v a : ℕ) (mem : Bytes) → a + 4 ≤ at ⊎ at + 1 ≤ a → get32 (put_byte at v mem) a ≡ get32 mem a
unfolding get32 put_byte
get32-put_byte_other at v a mem h = ground arith

pub get32-put_string :
    (at a : ℕ) (s : List ℕ) (mem : Bytes)
    → a + 4 ≤ at ⊎ at + length s + 1 ≤ a
    → get32 (put_string at s mem) a ≡ get32 mem a
unfolding put_string
get32-put_string at a [] mem h = get32-put_byte_other at 0 a mem (ground arith)
get32-put_string at a (c ∷ s) mem h =
    get32-put_string (at + 1) a s (put_byte at c mem) (ground arith)
    ∙ get32-put_byte_other at c a mem (ground arith)
