-- ===== src/Memory/Heap/Join.antt =====
-- Joining a block of a row with the one behind it.
use shahi_n_kernel.Prelude.{
  ℕ, ◌+◌, ◌^◌, ◌≤◌, ◌<◌, ◌≡◌, ◌≢◌, refl, sym, ap, ◌∙◌, ◌⊎◌, inl, inr, Bool, true, false, not, ◌&&◌,
  List, [], ◌∷◌, ◌==◌, if◌then◌else◌, arith, add64, Bool-cases,
}
use mathlib.Core.Path.{subst}
use shahi_n_kernel.Memory.Paging.{Words, put_word}
use shahi_n_kernel.Memory.Heap.{block_free, magic, size, next, prev}
use shahi_n_kernel.Memory.Heap.Blocks.{Block, absorb}
use shahi_n_kernel.Memory.Heap.Chain.{Chain, link_to, last_of, Chain-length, Chain-relinked}
use shahi_n_kernel.Memory.Heap.Split.{link-cases, link-occupied}

-- The words after the block at `b` was joined with the one behind it, of size `t`, which ends at `c`,
-- where another one starts or not.
unfoldable pub joined_words : (b t after : ℕ) → Words → Words
unfolding put_word
joined_words b t after w =
    let w1 = put_word (next b) after (put_word (size b) t w) in
    if after == 0 then w1 else put_word (prev after) b w1

module _ (b t after : ℕ) (w : Words) (behind : after ≡ 0 ⊎ (b + 32 ≤ after)) where
  joined-magic : joined_words b t after w (magic b) ≡ w (magic b)
  unfolding joined_words
  joined-magic = ground (arith, behind)

  joined-size : joined_words b t after w (size b) ≡ t
  unfolding joined_words
  joined-size = ground (arith, behind)

  joined-next : joined_words b t after w (next b) ≡ after
  unfolding joined_words
  joined-next = ground (arith, behind)

  joined-prev : joined_words b t after w (prev b) ≡ w (prev b)
  unfolding joined_words
  joined-prev = ground (arith, behind)

  joined-below : (x : ℕ) → x < b → joined_words b t after w x ≡ w x
  unfolding joined_words
  joined-below x h = ground (arith, behind)

  joined-above :
      (x c : ℕ)
      → b + 32 ≤ c
      → after ≡ 0 ⊎ (after ≡ c)
      → c ≤ x
      → x ≢ prev c
      → joined_words b t after w x ≡ w x
  unfolding joined_words
  joined-above x c l e h k = ground (arith, e)

  joined-back : after ≢ 0 → joined_words b t after w (prev after) ≡ b
  unfolding joined_words
  joined-back h = ground (arith, behind)

at_end : {x y : ℕ} → x ≡ 0 ⊎ (x ≡ y) → x ≢ 0 → y ≡ x
at_end (inl e) h = absurd (h e)
at_end (inr e) h = sym e

-- Two blocks of a chain joined into one.
join-Chain :
    (w : Words) (before a : ℕ) (b c : Block) (bs : List Block) (stop : ℕ)
    → 0 < a
    → Chain w before a (b ∷ c ∷ bs) stop
    → Chain
        (joined_words a (b.size + c.size) (link_to (a + (b.size + c.size)) bs) w)
        before
        a
        (record b { size = b.size + c.size } ∷ bs)
        stop
unfolding Chain
join-Chain w before a b c bs stop pos h =
    let t : ℕ = b.size + c.size in
    let after : ℕ = link_to (a + t) bs in
    let place_of : a + b.size + c.size ≡ a + t = omega arith in
    let cases = link-cases (a + t) bs in
    let behind : after ≡ 0 ⊎ (a + 32 ≤ after) = ground (arith, cases, h.4) in
    let w' = joined_words a t after w in
    (
      joined-magic a t after w behind ∙ h.0,
      joined-size a t after w behind,
      joined-next a t after w behind,
      joined-prev a t after w behind ∙ h.3,
      omega (arith, h.4),
      omega (arith, h.5, h.6.5),
      Chain-relinked w w' (a + b.size) a (a + t) bs stop
          (λ x l k. joined-above a t after w behind x (a + t) (omega (arith, h.4)) cases l k)
          (λ occupied.
            let there : after ≢ 0 = link-occupied (a + t) bs occupied (omega arith) in
            ap (λ y. w' (prev y)) (at_end cases there) ∙ joined-back a t after w behind there)
          (subst (λ y. Chain w (a + b.size) y bs stop) place_of h.6.6),
    )

-- What `block_coalesce_next` does to the words, and to the last block.
unfoldable pub coalesces : (b : ℕ) → Words → Bool
coalesces b w = not (w (next b) == 0) && (w (magic (w (next b))) == block_free)

unfoldable pub coalesced : (b : ℕ) → Words × ℕ → Words × ℕ
coalesced b (w, last) =
    let n : ℕ = w (next b) in
    if coalesces b w
    then (
      joined_words b (add64 (w (size b)) (w (size n))) (w (next n)) w,
      if w (next n) == 0 then b else last,
    )
    else (w, last)

-- A chain, with the address of its last block.
unfoldable pub Row : Words × ℕ → (before a : ℕ) → List Block → (stop : ℕ) → Type 0
Row (w, last) before a bs stop = Chain w before a bs stop × (last ≡ last_of before a bs)

-- What is left of a row, `r` of `s`, with nothing in front of it changed.
pub record Turns (s r : Words × ℕ) (before a : ℕ) (bs : List Block) (stop : ℕ) : Type 0 where
  pub row : Row r before a bs stop
  pub kept : (x : ℕ) → x < a → r.0 x ≡ s.0 x

joined-last_of :
    (a last x y z : ℕ) (bs : List Block)
    → y ≡ z
    → 0 < z
    → last ≡ last_of x y bs
    → (if link_to z bs == 0 then a else last) ≡ last_of a z bs
unfolding last_of link_to
joined-last_of a last x y z [] e pos h = refl
joined-last_of a last x y z (b ∷ bs) e pos h =
    let some_place : (z == 0) ≡ false = ground arith in
    rw some_place (h ∙ ap (λ t. last_of t (t + b.size) bs) e)

absorb-joined :
    (w : Words) (last before a : ℕ) (b c : Block) (bs : List Block) (stop : ℕ)
    → 0 < a
    → stop < 2 ^ 64
    → coalesces a w ≡ true
    → Row (w, last) before a (b ∷ c ∷ bs) stop
    → Turns
        (w, last)
        (coalesced a (w, last))
        before
        a
        (record b { size = b.size + c.size } ∷ bs)
        stop
unfolding Row coalesced Chain link_to last_of
absorb-joined w last before a b c bs stop pos low e h =
    let t : ℕ = b.size + c.size in
    let after : ℕ = link_to (a + t) bs in
    let n : w (next a) ≡ a + b.size = h.0.2 in
    let place_of : a + b.size + c.size ≡ a + t = omega arith in
    let room = Chain-length w (a + b.size) (a + b.size + c.size) bs stop h.0.6.6 in
    let sizes : add64 (w (size a)) (w (size (w (next a)))) ≡ t =
      omega (arith, h.0.1, ap (λ y. w (size y)) n, h.0.6.1, room) in
    let ends : w (next (w (next a))) ≡ after =
      ap (λ y. w (next y)) n ∙ (h.0.6.2 ∙ ap (λ y. link_to y bs) place_of) in
    let behind : after ≡ 0 ⊎ (a + 32 ≤ after) = ground (arith, link-cases (a + t) bs, h.0.4) in
    rw (e, sizes, ends)
      (record {
        row = (
          join-Chain w before a b c bs stop pos h.0,
          joined-last_of a last (a + b.size) (a + b.size + c.size) (a + t) bs place_of (omega arith)
              h.1,
        );
        kept = λ x l. joined-below a t after w behind x l;
      })

-- The test, on a row.
none_behind :
    (w : Words) (last before a : ℕ) (b : Block) (stop : ℕ)
    → Row (w, last) before a (b ∷ []) stop
    → coalesces a w ≡ false
unfolding Row coalesces Chain link_to
none_behind w last before a b stop h = ground (arith, h.0.2)

used_behind :
    (w : Words) (last before a : ℕ) (b c : Block) (bs : List Block) (stop : ℕ)
    → c.used ≡ true
    → Row (w, last) before a (b ∷ c ∷ bs) stop
    → coalesces a w ≡ false
unfolding Row coalesces Chain link_to
used_behind w last before a b c bs stop e h = let m = ap w h.0.2 ∙ h.0.6.0 in ground (arith, m, e)

free_behind :
    (w : Words) (last before a : ℕ) (b c : Block) (bs : List Block) (stop : ℕ)
    → 0 < a
    → c.used ≡ false
    → Row (w, last) before a (b ∷ c ∷ bs) stop
    → coalesces a w ≡ true
unfolding Row coalesces Chain link_to
free_behind w last before a b c bs stop pos e h =
    let m = ap w h.0.2 ∙ h.0.6.0 in let n = h.0.2 in ground (arith, m, n, e)

-- Without a free block behind it, nothing is done.
pub alone-Turns :
    (w : Words) (last before a : ℕ) (bs : List Block) (stop : ℕ)
    → coalesces a w ≡ false
    → Row (w, last) before a bs stop
    → Turns (w, last) (coalesced a (w, last)) before a bs stop
unfolding coalesced
alone-Turns w last before a bs stop e h = rw e (record { row = h; kept = λ x l. refl })

-- Joining the first block of a row with the one behind it.
pub absorb-Turns :
    (w : Words) (last before a : ℕ) (b : Block) (bs : List Block) (stop : ℕ)
    → 0 < a
    → stop < 2 ^ 64
    → Row (w, last) before a (b ∷ bs) stop
    → Turns (w, last) (coalesced a (w, last)) before a (absorb b bs) stop
unfolding absorb
absorb-Turns w last before a b [] stop pos low h =
    alone-Turns w last before a (b ∷ []) stop (none_behind w last before a b stop h) h
absorb-Turns w last before a b (c ∷ bs) stop pos low h = elim (Bool-cases c.used) [
  | inl e ↦ simp e (
      alone-Turns w last before a (b ∷ c ∷ bs) stop (used_behind w last before a b c bs stop e h) h)
  | inr e ↦ rw e (
      absorb-joined w last before a b c bs stop pos low
        (free_behind w last before a b c bs stop pos e h) h)
]
