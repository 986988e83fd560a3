-- ===== src/Lang/Scan.antt =====
-- The scanning tools of the script language, over byte strings (the bytes before the NUL; a
-- pointer into a string is the rest of it there).
pub mod Laws
use shahi_n_kernel.Prelude.{
  ℕ, zero, suc, ◌+◌, ◌-◌, Bool, true, false, not, ◌&&◌, ◌||◌, Option, none, some, List, [], ◌∷◌,
  ◌++◌, ltb, leb, ◌==◌, if◌then◌else◌, length, drop,
}

unfoldable pub is_space : ℕ → Bool
is_space c = (c == 32) || (c == 9) || (c == 13) || (c == 10)

unfoldable pub skip_spaces : List ℕ → List ℕ
unfolding is_space
skip_spaces [] = []
skip_spaces (c ∷ p) = let rest = skip_spaces p in if is_space c then rest else c ∷ p

unfoldable pub starts_with : (text prefix : List ℕ) → Bool
starts_with text [] = true
starts_with [] (y ∷ prefix) = false
starts_with (x ∷ text) (y ∷ prefix) =
    let rest = starts_with text prefix in if x == y then rest else false

-- The pointer moves on by the prefix's length, whatever stands there.
unfoldable pub skip_prefix : (p prefix : List ℕ) → List ℕ
skip_prefix p [] = p
skip_prefix p (y ∷ prefix) = skip_prefix (drop 1 p) prefix

unfoldable pub find_char : (text : List ℕ) (target : ℕ) → Option (List ℕ)
find_char [] target = none
find_char (x ∷ text) target =
    let rest = find_char text target in if x == target then some (x ∷ text) else rest

-- The bytes before the line's end, and what is left from there.
unfoldable pub line_end : List ℕ → List ℕ × List ℕ
line_end [] = ([], [])
line_end (c ∷ s) =
    let (line, rest) = line_end s in
    if (c == 10) || (c == 13) then ([], c ∷ s) else (c ∷ line, rest)

unfoldable pub skip_byte : ℕ → List ℕ → List ℕ
skip_byte b [] = []
skip_byte b (c ∷ s) = if c == b then s else c ∷ s

-- A result of `read_line`: the line and what remains of the script behind it. An empty line needs
-- no memory; for another one it can be had or not, and then the offset stands at the line's end.
unfoldable pub read_line : (can_alloc : Bool) → List ℕ → Option (List ℕ) × List ℕ
unfolding line_end skip_byte
read_line can_alloc script =
    let (line, rest) = line_end script in
    if not (length line == 0) && not can_alloc
    then (none, rest)
    else (some line, skip_byte 10 (skip_byte 13 rest))

abbrev pub slash : ℕ
slash = 47

abbrev pub backslash : ℕ
backslash = 92

unfoldable pub is_slash : ℕ → Bool
is_slash c = (c == slash) || (c == backslash)

-- Prefixes `./` and `.\`, again and again.
unfoldable pub skip_dots : List ℕ → List ℕ
unfolding is_slash
skip_dots (a ∷ b ∷ s) =
    let rest = skip_dots s in if (a == 46) && is_slash b then rest else a ∷ b ∷ s
skip_dots s = s

unfoldable pub skip_slashes : List ℕ → List ℕ
unfolding is_slash
skip_slashes [] = []
skip_slashes (c ∷ s) = let rest = skip_slashes s in if is_slash c then rest else c ∷ s

-- The loop: `room` is `dst_size - 1 - j`, and `at_start` is `j == 0`.
unfoldable pub copy_path : (room : ℕ) (at_start last_was_slash : Bool) → List ℕ → List ℕ
unfolding is_slash
copy_path zero at_start last s = []
copy_path (suc room) at_start last [] = []
copy_path (suc room) at_start last (c ∷ s) =
    let skipped = copy_path (suc room) at_start last s in
    let separated = copy_path room false true s in
    let copied = copy_path room false false s in
    if is_slash c then (if at_start || last then skipped else slash ∷ separated) else c ∷ copied

-- The normalized path, for a `dst_size` above 0.
unfoldable pub arp_normalize_archive_path : (src : List ℕ) (dst_size : ℕ) → List ℕ
unfolding skip_dots skip_slashes copy_path
arp_normalize_archive_path src dst_size =
    copy_path (dst_size - 1) true false (skip_slashes (skip_dots src))
