-- ===== src/Memory/Heap/Turn.antt =====
-- Releasing the block at an offset of a row, in memory as in the row.
use shahi_n_kernel.Prelude.{
  ℕ, ◌+◌, ◌-◌, ◌^◌, ◌≤◌, ◌<◌, ◌≡◌, ◌≢◌, sym, ap, ◌∙◌, inl, inr, true, false, some, List, [], ◌∷◌,
  ◌==◌, if◌then◌else◌, arith, Bool-cases,
}
use mathlib.Core.Path.{subst}
use shahi_n_kernel.Memory.Paging.{Words}
use shahi_n_kernel.Memory.Heap.Blocks.{Block, free_block, absorb, release_at, block_at}
use shahi_n_kernel.Memory.Heap.Chain.{Chain, link_to, magic_of}
use shahi_n_kernel.Memory.Heap.Join.{coalesced, Row, Turns, absorb-Turns}
use shahi_n_kernel.Memory.Heap.Free.{
  released, freed, freed-Turns, cons-Turns, then-Turns, tail-Row, head-magic, Row-prev,
  fronted-none, fronted-used, fronted-free, release-link, cons-link,
}

-- The first block of a row that is freed, with nothing in front of the row.
release_first :
    (w : Words) (last a : ℕ) (b : Block) (bs : List Block) (stop : ℕ)
    → 0 < a
    → stop < 2 ^ 64
    → Row (w, last) 0 a (b ∷ bs) stop
    → Turns (w, last) (released a (w, last)) 0 a (absorb (free_block b.size) bs) stop
unfolding released
release_first w last a b bs stop pos low h =
    let t = freed-Turns w last 0 a b bs stop pos low h in
    rw
      (fronted-none a (freed a (w, last))
        (Row-prev (freed a (w, last)) 0 a (free_block b.size) bs stop t.row))
      t

-- The second one, behind a block that may be free.
release_second :
    (w : Words) (last before a : ℕ) (b c : Block) (bs : List Block) (stop : ℕ)
    → 0 < a
    → stop < 2 ^ 64
    → Row (w, last) before a (b ∷ c ∷ bs) stop
    → Turns
        (w, last)
        (released (a + b.size) (w, last))
        before
        a
        (if b.used
          then b ∷ absorb (free_block c.size) bs
          else absorb b (absorb (free_block c.size) bs))
        stop
unfolding released
release_second w last before a b c bs stop pos low h =
    let c' = a + b.size in
    let s = freed c' (w, last) in
    let t =
      freed-Turns w last a c' c bs stop (omega arith) low
        (tail-Row w last before a b (c ∷ bs) stop h) in
    let back = Row-prev s a c' (free_block c.size) bs stop t.row in
    let whole =
      cons-Turns (w, last) s before a b (c ∷ bs) (absorb (free_block c.size) bs) stop h
        (cons-link c' c (free_block c.size) bs) t in
    let m = head-magic s before a b (absorb (free_block c.size) bs) stop whole.row in
    elim (Bool-cases b.used) [
      | inl e ↦ simp e (
          subst (λ q. Turns (w, last) q before a (b ∷ absorb (free_block c.size) bs) stop)
            (sym (fronted-used c' a s pos back (m ∙ ap magic_of e))) whole)
      | inr e ↦ simp e (
          subst (λ q. Turns (w, last) q before a (absorb b (absorb (free_block c.size) bs)) stop)
            (sym (fronted-free c' a s pos back (m ∙ ap magic_of e)))
            (then-Turns (w, last) s (coalesced a s) before a (b ∷ absorb (free_block c.size) bs)
              (absorb b (absorb (free_block c.size) bs)) stop whole
              (absorb-Turns s.0 s.1 before a b (absorb (free_block c.size) bs) stop pos low
                whole.row)))
    ]

-- The block at the start of a row that has nothing in front of it.
release_here :
    (w : Words) (last before a offset : ℕ) (d : Block) (bs : List Block) (stop : ℕ)
    → 0 < a
    → stop < 2 ^ 64
    → offset ≡ 0
    → before ≡ 0
    → Row (w, last) before a (d ∷ bs) stop
    → Turns (w, last) (released (a + offset) (w, last)) before a (release_at offset (d ∷ bs)) stop
unfolding release_at
release_here w last before a offset d bs stop pos low z front h =
    let there : a + offset ≡ a = omega arith in
    let start = subst (λ p. Row (w, last) p a (d ∷ bs) stop) front h in
    let t = release_first w last a d bs stop pos low start in
    let t' =
      subst (λ p. Turns (w, last) (released a (w, last)) p a (absorb (free_block d.size) bs) stop)
        (sym front) t in
    rw (there, z) t'

-- The block behind the first one.
behind_row : (d c : Block) (bs : List Block) → List Block
behind_row d c bs =
    if d.used then d ∷ absorb (free_block c.size) bs else absorb d (absorb (free_block c.size) bs)

release_at-behind :
    (offset : ℕ) (d c : Block) (bs : List Block)
    → 0 < d.size
    → offset ≡ d.size
    → release_at offset (d ∷ c ∷ bs) ≡ behind_row d c bs
unfolding release_at behind_row
release_at-behind offset d c bs pos y =
    let inner : offset - d.size ≡ 0 = omega arith in
    let far : (offset == 0) ≡ false = ground arith in
    let near : (offset == d.size) ≡ true = ground arith in
    elim (Bool-cases d.used) [
      | inl u ↦ simp (far, near, inner, u)
      | inr u ↦ simp (far, near, inner, u)
    ]

release_behind :
    (w : Words) (last before a offset : ℕ) (d c : Block) (bs : List Block) (stop : ℕ)
    → 0 < a
    → stop < 2 ^ 64
    → offset ≡ d.size
    → Row (w, last) before a (d ∷ c ∷ bs) stop
    → Turns
        (w, last)
        (released (a + offset) (w, last))
        before
        a
        (release_at offset (d ∷ c ∷ bs))
        stop
unfolding Row Chain behind_row
release_behind w last before a offset d c bs stop pos low y h =
    rw (release_at-behind offset d c bs (omega (arith, h.0.4)) y, y)
      (release_second w last before a d c bs stop pos low h)

-- A block further behind.
release_at-later :
    (offset : ℕ) (d : Block) (bs : List Block)
    → 0 < offset
    → (offset == d.size) ≡ false
    → release_at offset (d ∷ bs) ≡ d ∷ release_at (offset - d.size) bs
unfolding release_at
release_at-later offset d bs pos y = let far : (offset == 0) ≡ false = ground arith in simp (far, y)

pub block_at-later :
    (offset : ℕ) (d b : Block) (bs : List Block)
    → 0 < offset
    → block_at offset (d ∷ bs) ≡ some b
    → d.size ≤ offset × (block_at (offset - d.size) bs ≡ some b)
unfolding block_at
block_at-later offset d b bs pos e = (ground (arith, e), ground (arith, e))

pub release_at-link :
    (x offset : ℕ) (b : Block) (bs : List Block)
    → block_at offset bs ≡ some b
    → link_to x (release_at offset bs) ≡ link_to x bs
unfolding block_at link_to
release_at-link x offset b [] e = absurd (ground (arith, e))
release_at-link x offset b (d ∷ bs) e = release-link x offset d bs

pub nothing_at : (offset : ℕ) (b : Block) → block_at offset [] ≢ some b
unfolding block_at
nothing_at offset b e = cc

at_start : (offset : ℕ) (d b : Block) → block_at offset (d ∷ []) ≡ some b → offset ≡ 0
unfolding block_at
at_start offset d b e = ground (arith, e)

-- Releasing the block at an offset of a row.
pub release-Turns :
    (w : Words) (last before a offset : ℕ) (bs : List Block) (b : Block) (stop : ℕ)
    → 0 < a
    → stop < 2 ^ 64
    → (offset ≡ 0 → before ≡ 0)
    → block_at offset bs ≡ some b
    → Row (w, last) before a bs stop
    → Turns (w, last) (released (a + offset) (w, last)) before a (release_at offset bs) stop
release-Turns w last before a offset [] b stop pos low front e h = absurd (nothing_at offset b e)
release-Turns w last before a offset (d ∷ []) b stop pos low front e h =
    let z = at_start offset d b e in
    release_here w last before a offset d [] stop pos low z (front z) h
release-Turns w last before a offset (d ∷ c ∷ bs) b stop pos low front e h =
    elim (Bool-cases (offset == 0)) [
      | inl z ↦
          let z' : offset ≡ 0 = ground arith in
          release_here w last before a offset d (c ∷ bs) stop pos low z' (front z') h
      | inr z ↦ elim (Bool-cases (offset == d.size)) [
        | inl y ↦ release_behind w last before a offset d c bs stop pos low (ground arith) h
        | inr y ↦
            let some_way : 0 < offset = ground arith in
            let step = block_at-later offset d b (c ∷ bs) some_way e in
            let rest =
              release-Turns w last a (a + d.size) (offset - d.size) (c ∷ bs) b stop (omega arith)
                low (λ q. absurd (ground (arith, step.0, y))) step.1
                (tail-Row w last before a d (c ∷ bs) stop h) in
            let there : a + d.size + (offset - d.size) ≡ a + offset = omega (arith, step.0) in
            rw (release_at-later offset d (c ∷ bs) some_way y) (
              cons-Turns (w, last) (released (a + offset) (w, last)) before a d (c ∷ bs)
                (release_at (offset - d.size) (c ∷ bs)) stop h
                (release_at-link (a + d.size) (offset - d.size) b (c ∷ bs) step.1)
                (subst
                  (λ x.
                    Turns (w, last) (released x (w, last)) a (a + d.size)
                      (release_at (offset - d.size) (c ∷ bs)) stop)
                  there rest))
      ]
    ]
