-- ===== src/Memory/Heap/Take.antt =====
-- Taking a block of a chain, first or further behind, gives the chain of the row with it taken.
use shahi_n_kernel.Prelude.{
  ℕ, ◌+◌, ◌-◌, ◌≤◌, ◌<◌, ◌≡◌, refl, sym, ap, ◌∙◌, true, false, Option, none, some, List, [], ◌∷◌,
  ◌==◌, if◌then◌else◌, leb, arith, align_down, Bool-cases, ◌⊎◌, inl, inr,
}
use mathlib.Core.Option
use mathlib.Core.Path.{subst}
use shahi_n_kernel.Memory.Paging.{Words, put_word}
use shahi_n_kernel.Memory.Heap.{block_used, magic, size, next, prev, clear}
use shahi_n_kernel.Memory.Heap.Blocks.{Block, suits, place, take_first}
use shahi_n_kernel.Memory.Heap.Split.{
  clear-outside, split_words, split-below, taken-split, taken-whole, link-cases,
}
use shahi_n_kernel.Memory.Heap.Chain.{Chain, link_to, last_of, Chain-length}

-- What the allocation makes of the words: the block at `b` is taken, and cleared in part.
abbrev pub need : ℕ → ℕ
need bytes = 32 + align_down 16 (bytes + 15)

unfoldable pub marked : (b n : ℕ) → Words → Words
marked b n w =
    if leb (w (size b)) (n + 32) then put_word (magic b) block_used w else split_words b n w

unfoldable pub taken_words : (b bytes : ℕ) → Words → Words
taken_words b bytes w = clear (b + 32) bytes (marked b (need bytes) w)

taken-marked :
    (b bytes s x : ℕ) (w : Words)
    → need bytes ≤ s
    → x < b + 32 ⊎ b + need bytes ≤ x
    → taken_words b bytes w x ≡ marked b (need bytes) w x
unfolding taken_words
taken-marked b bytes s x w fits out =
    clear-outside (b + 32) bytes x (marked b (need bytes) w) (place_of out)
  where
    place_of : x < b + 32 ⊎ b + need bytes ≤ x → x < b + 32 ⊎ b + 32 + bytes ≤ x
    place_of (inl l) = inl l
    place_of (inr r) = inr (omega arith)

marked-whole :
    (b n s x : ℕ) (w : Words)
    → w (size b) ≡ s
    → leb s (n + 32) ≡ true
    → marked b n w x ≡ put_word (magic b) block_used w x
unfolding marked
marked-whole b n s x w e l = rw (e, l) refl

marked-split :
    (b n s x : ℕ) (w : Words)
    → w (size b) ≡ s
    → leb s (n + 32) ≡ false
    → marked b n w x ≡ split_words b n w x
unfolding marked
marked-split b n s x w e l = rw (e, l) refl

sized :
    (w : Words) (before a : ℕ) (b : Block) (bs : List Block) (stop : ℕ)
    → Chain w before a (b ∷ bs) stop
    → w (size a) ≡ b.size
unfolding Chain
sized w before a b bs stop c = c.1

Chain-tail :
    (w : Words) (before a : ℕ) (b : Block) (bs : List Block) (stop : ℕ)
    → Chain w before a (b ∷ bs) stop
    → Chain w a (a + b.size) bs stop
unfolding Chain
Chain-tail w before a b bs stop c = c.6

-- Taking the first block of a chain.
taken-first :
    (w : Words) (before a bytes : ℕ) (b : Block) (bs : List Block) (stop : ℕ)
    → 0 < a
    → need bytes ≤ b.size
    → Chain w before a (b ∷ bs) stop
    → Chain (taken_words a bytes w) before a (place (need bytes) b bs) stop
unfolding place
taken-first w before a bytes b bs stop pos fits c =
    elim (Bool-cases (leb b.size (need bytes + 32))) [
      | inl e ↦ rw e (
          taken-whole w (taken_words a bytes w) before a b bs stop
            (λ x out.
              taken-marked a bytes b.size x w fits (wider out)
              ∙ marked-whole a (need bytes) b.size x w (sized w before a b bs stop c) e)
            c)
      | inr e ↦ rw e (
          taken-split w (taken_words a bytes w) before a (need bytes) b bs stop pos (omega arith)
            (omega arith) (ground (arith, e))
            (λ x out.
              taken-marked a bytes b.size x w fits out
              ∙ marked-split a (need bytes) b.size x w (sized w before a b bs stop c) e)
            c)
    ]
  where
    wider : {x : ℕ} → x < a + 32 ⊎ a + b.size ≤ x → x < a + 32 ⊎ a + need bytes ≤ x
    wider (inl l) = inl l
    wider (inr r) = inr (omega arith)

-- Nothing in front of the block changes.
marked-below :
    (b n s x : ℕ) (w : Words)
    → w (size b) ≡ s
    → w (next b) ≡ 0 ⊎ (w (next b) ≡ b + s)
    → 32 ≤ n
    → x < b
    → marked b n w x ≡ w x
unfolding marked put_word
marked-below b n s x w e behind low h =
    let split = λ (l : n + 32 < s). split-below b n s w e low l behind x h in
    ground (arith, split, e)

taken-below :
    (w : Words) (before a bytes : ℕ) (b : Block) (bs : List Block) (stop x : ℕ)
    → need bytes ≤ b.size
    → Chain w before a (b ∷ bs) stop
    → x < a
    → taken_words a bytes w x ≡ w x
unfolding Chain
taken-below w before a bytes b bs stop x fits c h =
    taken-marked a bytes b.size x w fits (inl (omega arith))
    ∙ marked-below a (need bytes) b.size x w c.1 (ground (arith, c.2, link-cases (a + b.size) bs))
        (omega arith) h

-- The heap's last block after the block at `b` was taken.
unfoldable pub last_after : Words → (b bytes last : ℕ) → ℕ
last_after w b bytes last =
    if leb (w (size b)) (need bytes + 32)
    then last
    else if w (next b) == 0
    then b + need bytes
    else last

-- What a taking leaves: the chain of the row that is left, nothing changed in front of it, and an
-- empty row only where it was empty.
pub record Leaves (w : Words) (before a bytes : ℕ) (bs : List Block) (stop : ℕ) (r : ℕ × List Block)
    : Type 0 where
  pub chained : Chain (taken_words (a + r.0) bytes w) before a r.1 stop
  pub kept : (x : ℕ) → x < a → taken_words (a + r.0) bytes w x ≡ w x
  pub linked : (x : ℕ) → link_to x r.1 ≡ link_to x bs
  pub within : a + r.0 + 32 ≤ stop
  pub lasts : last_of before a r.1 ≡ last_after w (a + r.0) bytes (last_of before a bs)

LeavesAll :
    Words → (before a bytes : ℕ) → List Block → (stop : ℕ) → Option (ℕ × List Block) → Type 0
LeavesAll w before a bytes bs stop none = Unit
LeavesAll w before a bytes bs stop (some r) = Leaves w before a bytes bs stop r

place-link : (n x : ℕ) (b : Block) (bs : List Block) → link_to x (place n b bs) ≡ x
unfolding place link_to
place-link n x b bs = ground arith

not_zero : (v x : ℕ) → v ≡ x → 0 < x → (v == 0) ≡ false
not_zero v x e h = ground arith

-- The last block of the row with its first block taken.
place-last_of :
    (w : Words) (before a bytes : ℕ) (b : Block) (bs : List Block) (stop : ℕ)
    → 0 < a
    → need bytes ≤ b.size
    → Chain w before a (b ∷ bs) stop
    → last_of before a (place (need bytes) b bs) ≡ last_after w a bytes (last_of before a (b ∷ bs))
unfolding place last_of last_after Chain link_to
place-last_of w before a bytes b [] stop pos fits c = ground (arith, c.1, c.2)
place-last_of w before a bytes b (d ∷ bs) stop pos fits c =
    let there : need bytes ≤ b.size → a + need bytes + (b.size - need bytes) ≡ a + b.size =
      λ l. omega arith in
    let same = ap (λ t. last_of t (t + d.size) bs) (there fits) in
    let occupied = not_zero (w (next a)) (a + b.size) c.2 (omega arith) in
    elim (Bool-cases (leb b.size (need bytes + 32))) [
      | inl e ↦ rw (c.1, e) refl
      | inr e ↦ rw (c.1, e, occupied) same
    ]

first-Leaves :
    (w : Words) (before a bytes : ℕ) (b : Block) (bs : List Block) (stop : ℕ)
    → 0 < a
    → need bytes ≤ b.size
    → Chain w before a (b ∷ bs) stop
    → Leaves w before a bytes (b ∷ bs) stop (0, place (need bytes) b bs)
unfolding link_to
first-Leaves w before a bytes b bs stop pos fits c =
    let here : a ≡ a + 0 = omega arith in
    record {
      chained =
          subst (λ t. Chain (taken_words t bytes w) before a (place (need bytes) b bs) stop) here
            (taken-first w before a bytes b bs stop pos fits c);
      kept = λ x h.
          ap (λ t. taken_words t bytes w x) (sym here)
          ∙ taken-below w before a bytes b bs stop x fits c h;
      linked = λ x. place-link (need bytes) x b bs;
      within = omega (arith, Chain-length w before a (b ∷ bs) stop c);
      lasts =
          place-last_of w before a bytes b bs stop pos fits c
          ∙ ap (λ t. last_after w t bytes (last_of before a (b ∷ bs))) here;
    }

behind-Leaves :
    (w : Words) (before a bytes : ℕ) (b : Block) (bs : List Block) (stop : ℕ) (r : ℕ × List Block)
    → Chain w before a (b ∷ bs) stop
    → Leaves w a (a + b.size) bytes bs stop r
    → Leaves w before a bytes (b ∷ bs) stop (b.size + r.0, b ∷ r.1)
unfolding Chain link_to last_of
behind-Leaves w before a bytes b bs stop r c l =
    let place_of : a + b.size + r.0 ≡ a + (b.size + r.0) = omega arith in
    let kept : (x : ℕ) → x < a + b.size → taken_words (a + (b.size + r.0)) bytes w x ≡ w x =
      λ x h. ap (λ t. taken_words t bytes w x) (sym place_of) ∙ l.kept x h in
    record {
      chained = (
        kept (magic a) (omega (arith, c.4)) ∙ c.0,
        kept (size a) (omega (arith, c.4)) ∙ c.1,
        kept (next a) (omega (arith, c.4)) ∙ (c.2 ∙ sym (l.linked (a + b.size))),
        kept (prev a) (omega (arith, c.4)) ∙ c.3,
        c.4,
        c.5,
        subst (λ t. Chain (taken_words t bytes w) a (a + b.size) r.1 stop) place_of l.chained,
      );
      kept = λ x h. kept x (omega arith);
      linked = λ x. refl;
      within = omega (arith, l.within);
      lasts = l.lasts ∙ ap (λ t. last_after w t bytes (last_of a (a + b.size) bs)) place_of;
    }

more-LeavesAll :
    (w : Words) (before a bytes : ℕ) (b : Block) (bs : List Block) (stop : ℕ)
    (o : Option (ℕ × List Block))
    → Chain w before a (b ∷ bs) stop
    → LeavesAll w a (a + b.size) bytes bs stop o
    → LeavesAll w before a bytes (b ∷ bs) stop (Option.map (λ r. (b.size + r.0, b ∷ r.1)) o)
unfolding LeavesAll
more-LeavesAll w before a bytes b bs stop none c l = tt
more-LeavesAll w before a bytes b bs stop (some r) c l =
    behind-Leaves w before a bytes b bs stop r c l

take-LeavesAll :
    (w : Words) (before a bytes : ℕ) (bs : List Block) (stop : ℕ)
    → 0 < a
    → Chain w before a bs stop
    → LeavesAll w before a bytes bs stop (take_first (need bytes) bs)
unfolding take_first LeavesAll
take-LeavesAll w before a bytes [] stop pos c = tt
take-LeavesAll w before a bytes (b ∷ bs) stop pos c = elim (Bool-cases (suits (need bytes) b)) [
  | inl e ↦ rw e (first-Leaves w before a bytes b bs stop pos (ground (arith, e)) c)
  | inr e ↦ rw e (
      more-LeavesAll w before a bytes b bs stop (take_first (need bytes) bs) c (
        take-LeavesAll w a (a + b.size) bytes bs stop (omega arith)
          (Chain-tail w before a b bs stop c)))
]

-- Taking the block that the search on the row finds.
pub take-Leaves :
    (w : Words) (before a bytes : ℕ) (bs : List Block) (stop : ℕ) (r : ℕ × List Block)
    → 0 < a
    → Chain w before a bs stop
    → take_first (need bytes) bs ≡ some r
    → Leaves w before a bytes bs stop r
unfolding LeavesAll
take-Leaves w before a bytes bs stop r pos c e =
    subst (LeavesAll w before a bytes bs stop) e (take-LeavesAll w before a bytes bs stop pos c)
