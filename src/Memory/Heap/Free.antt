-- ===== src/Memory/Heap/Free.antt =====
-- Joining a freed block of a row with its neighbours.
use shahi_n_kernel.Prelude.{
  ℕ, ◌+◌, ◌-◌, ◌^◌, ◌<◌, ◌≡◌, refl, sym, ap, ◌∙◌, inl, inr, Bool, true, false, not, ◌&&◌, List, [],
  ◌∷◌, ◌==◌, if◌then◌else◌, arith, Bool-cases,
}
use shahi_n_kernel.Memory.Paging.{Words, put_word}
use shahi_n_kernel.Memory.Heap.{block_used, block_free, magic, size, next, prev}
use shahi_n_kernel.Memory.Heap.Blocks.{Block, free_block, absorb, release_at}
use shahi_n_kernel.Memory.Heap.Chain.{Chain, link_to, last_of, magic_of, Chain-kept}
use shahi_n_kernel.Memory.Heap.Join.{coalesced, Row, Turns, absorb-Turns}

-- The block at `c` marked as free and joined with the one behind it.
unfoldable pub freed : (c : ℕ) → Words × ℕ → Words × ℕ
freed c (w, last) = coalesced c (put_word (magic c) block_free w, last)

-- And joined with the one in front of it, if that is free.
unfoldable pub joins_front : (c : ℕ) → Words → Bool
joins_front c w = not (w (prev c) == 0) && (w (magic (w (prev c))) == block_free)

unfoldable pub fronted : (c : ℕ) → Words × ℕ → Words × ℕ
fronted c (w, last) = if joins_front c w then coalesced (w (prev c)) (w, last) else (w, last)

unfoldable pub released : (c : ℕ) → Words × ℕ → Words × ℕ
released c s = fronted c (freed c s)

-- Freeing the first block of a row.
mark-Row :
    (w : Words) (last before a : ℕ) (b : Block) (bs : List Block) (stop : ℕ)
    → Row (w, last) before a (b ∷ bs) stop
    → Row (put_word (magic a) block_free w, last) before a (free_block b.size ∷ bs) stop
unfolding Row Chain put_word last_of
mark-Row w last before a b bs stop h = (
  (
    ground arith,
    ground (arith, h.0.1),
    ground (arith, h.0.2),
    ground (arith, h.0.3),
    h.0.4,
    h.0.5,
    Chain-kept w (put_word (magic a) block_free w) a (a + b.size) bs stop
        (λ x l. ground (arith, h.0.4)) h.0.6,
  ),
  h.1,
)

pub freed-Turns :
    (w : Words) (last before a : ℕ) (b : Block) (bs : List Block) (stop : ℕ)
    → 0 < a
    → stop < 2 ^ 64
    → Row (w, last) before a (b ∷ bs) stop
    → Turns (w, last) (freed a (w, last)) before a (absorb (free_block b.size) bs) stop
unfolding freed put_word
freed-Turns w last before a b bs stop pos low h =
    let turns =
      absorb-Turns (put_word (magic a) block_free w) last before a (free_block b.size) bs stop pos
        low (mark-Row w last before a b bs stop h) in
    record { row = turns.row; kept = λ x l. turns.kept x l ∙ ground arith }

pub absorb-link : (x : ℕ) (b : Block) (bs : List Block) → link_to x (absorb b bs) ≡ x
unfolding absorb link_to
absorb-link x b [] = refl
absorb-link x b (c ∷ bs) = ground arith

pub release-link :
    (x offset : ℕ) (b : Block) (bs : List Block) → link_to x (release_at offset (b ∷ bs)) ≡ x
unfolding release_at link_to
release-link x offset b bs =
    let first = absorb-link x (free_block b.size) bs in
    let second = absorb-link x b (release_at (offset - b.size) bs) in ground (arith, first, second)

pub cons-link :
    (x : ℕ) (c b : Block) (bs : List Block) → link_to x (absorb b bs) ≡ link_to x (c ∷ bs)
unfolding link_to
cons-link x c b bs = absorb-link x b bs

pub tail-Row :
    (w : Words) (last before a : ℕ) (b : Block) (bs : List Block) (stop : ℕ)
    → Row (w, last) before a (b ∷ bs) stop
    → Row (w, last) a (a + b.size) bs stop
unfolding Row Chain last_of
tail-Row w last before a b bs stop h = (h.0.6, h.1)

pub head-magic :
    (s : Words × ℕ) (before a : ℕ) (b : Block) (bs : List Block) (stop : ℕ)
    → Row s before a (b ∷ bs) stop
    → s.0 (magic a) ≡ magic_of b.used
unfolding Row Chain
head-magic s before a b bs stop h = h.0.0

pub then-Turns :
    (s r q : Words × ℕ) (before a : ℕ) (bs bs' : List Block) (stop : ℕ)
    → Turns s r before a bs stop
    → Turns r q before a bs' stop
    → Turns s q before a bs' stop
then-Turns s r q before a bs bs' stop t u = record {
  row = u.row;
  kept = λ x l. u.kept x l ∙ t.kept x l;
}

-- A block in front of a row that was turned.
pub cons-Turns :
    (s r : Words × ℕ) (before a : ℕ) (b : Block) (bs bs' : List Block) (stop : ℕ)
    → Row s before a (b ∷ bs) stop
    → link_to (a + b.size) bs' ≡ link_to (a + b.size) bs
    → Turns s r a (a + b.size) bs' stop
    → Turns s r before a (b ∷ bs') stop
unfolding Row Chain last_of
cons-Turns s r before a b bs bs' stop h link t = record {
  row = (
    (
      t.kept (magic a) (omega (arith, h.0.4)) ∙ h.0.0,
      t.kept (size a) (omega (arith, h.0.4)) ∙ h.0.1,
      t.kept (next a) (omega (arith, h.0.4)) ∙ (h.0.2 ∙ sym link),
      t.kept (prev a) (omega (arith, h.0.4)) ∙ h.0.3,
      h.0.4,
      h.0.5,
      t.row.0,
    ),
    t.row.1,
  );
  kept = λ x l. t.kept x (omega arith);
}

pub Row-prev :
    (s : Words × ℕ) (before a : ℕ) (b : Block) (bs : List Block) (stop : ℕ)
    → Row s before a (absorb b bs) stop
    → s.0 (prev a) ≡ before
unfolding Row Chain absorb
Row-prev s before a b [] stop h = h.0.3
Row-prev s before a b (c ∷ bs) stop h = elim (Bool-cases c.used) [
  | inl e ↦ (simp e at h).0.3
  | inr e ↦ (simp e at h).0.3
]

pub fronted-none : (c : ℕ) (s : Words × ℕ) → s.0 (prev c) ≡ 0 → fronted c s ≡ s
unfolding fronted joins_front
fronted-none c s e = rw e refl

joins-value :
    (c p : ℕ) (used : Bool) (w : Words)
    → 0 < p
    → w (prev c) ≡ p
    → w (magic p) ≡ magic_of used
    → joins_front c w ≡ not used
unfolding joins_front
joins-value c p used w pos e m = let m' = ap w e ∙ m in ground (arith, e, m')

pub fronted-used :
    (c p : ℕ) (s : Words × ℕ)
    → 0 < p
    → s.0 (prev c) ≡ p
    → s.0 (magic p) ≡ block_used
    → fronted c s ≡ s
unfolding fronted
fronted-used c p s pos e m = rw (joins-value c p true s.0 pos e m) refl

pub fronted-free :
    (c p : ℕ) (s : Words × ℕ)
    → 0 < p
    → s.0 (prev c) ≡ p
    → s.0 (magic p) ≡ block_free
    → fronted c s ≡ coalesced p s
unfolding fronted
fronted-free c p s pos e m = rw (joins-value c p false s.0 pos e m) (ap (λ t. coalesced t s) e)
