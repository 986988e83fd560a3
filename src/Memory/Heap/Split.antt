-- ===== src/Memory/Heap/Split.antt =====
-- The search finds the first block that suits, and taking it makes of the chain that of the row with
-- the block taken.
use shahi_n_kernel.Prelude.{
  ℕ, zero, suc, ◌+◌, ◌-◌, ◌%◌, ◌^◌, ◌≤◌, ◌<◌, ◌≡◌, ◌≢◌, refl, sym, ap, ◌∙◌, ◌&&◌, Option, none,
  some, List, [], ◌∷◌, ◌==◌, if◌then◌else◌, leb, arith, length, add64, ◌⊎◌, inl, inr,
}
use mathlib.Core.Option
use mathlib.Core.Path.{subst}
use shahi_n_kernel.Memory.Paging.{Words, put_word}
use shahi_n_kernel.Memory.Heap.{
  block_used, block_free, magic, size, next, prev, find_block, clear, block_init, header_size,
}
use shahi_n_kernel.Memory.Heap.Blocks.{Block, free_block, used_block, suits, take_first}
use shahi_n_kernel.Memory.Heap.Chain.{Chain, link_to, magic_of, Chain-kept, Chain-relinked}

-- The test of the search loop, on a header that is that of `b`.
suits-header :
    (w : Words) (a payload : ℕ) (b : Block)
    → payload < 2 ^ 63
    → w (magic a) ≡ magic_of b.used
    → w (size a) ≡ b.size
    → ((w (magic a) == block_free) && leb (add64 header_size payload) (w (size a)))
      ≡ suits (32 + payload) b
suits-header w a payload b small m s = ground (arith, m, s)

shift :
    (a n : ℕ) (b : Block) (o : Option (ℕ × List Block))
    → Option.map
        (λ (r : ℕ × List Block). a + r.0)
        (Option.map (λ (r : ℕ × List Block). (n + r.0, b ∷ r.1)) o)
      ≡ Option.map (λ (r : ℕ × List Block). a + n + r.0) o
shift a n b none = refl
shift a n b (some r) = ap some (omega arith)

-- The search answers as `take_first` does on the row.
pub find_block-take_first :
    (fuel : ℕ) (w : Words) (before a payload : ℕ) (bs : List Block) (stop : ℕ)
    → 0 < a
    → payload < 2 ^ 63
    → length bs < fuel
    → Chain w before a bs stop
    → find_block fuel (link_to a bs) payload w
      ≡ Option.map (λ r. a + r.0) (take_first (32 + payload) bs)
unfolding find_block take_first Chain link_to
find_block-take_first zero w before a payload bs stop pos small enough c = absurd (omega arith)
find_block-take_first (suc fuel) w before a payload [] stop pos small enough c = refl
find_block-take_first (suc fuel) w before a payload (b ∷ bs) stop pos small enough c =
    let rest =
      find_block-take_first fuel w a (a + b.size) payload bs stop (omega arith) small (omega arith)
        c.6 in
    let test = suits-header w a payload b small c.0 c.1 in
    let behind = shift a b.size b (take_first (32 + payload) bs) in
    ground (arith, test, rest, behind, c.2)

-- A clearing changes nothing before its range nor behind it.
pub clear-outside : (p bytes x : ℕ) (w : Words) → x < p ⊎ p + bytes ≤ x → clear p bytes w x ≡ w x
unfolding clear
clear-outside p bytes x w h = ground (arith, h)

-- The words after a block was taken, without the clearing.
unfoldable pub split_words : (b n : ℕ) → Words → Words
unfolding put_word block_init
split_words b n w =
    let after : ℕ = w (next b) in
    let rem : ℕ = b + n in
    let w1 = put_word (prev rem) b (block_init rem (w (size b) - n) block_free w) in
    let w2 = put_word (next rem) after w1 in
    let w3 = if after == 0 then w2 else put_word (prev after) rem w2 in
    put_word (magic b) block_used (put_word (next b) rem (put_word (size b) n w3))

-- What stands where after a split.
module _ (b n s : ℕ) (w : Words) (sized : w (size b) ≡ s) (low : 32 ≤ n) (fits : n + 32 < s) where
  split-magic : split_words b n w (magic b) ≡ block_used
  unfolding split_words
  split-magic = ground arith

  split-size : split_words b n w (size b) ≡ n
  unfolding split_words
  split-size = ground arith

  split-next : split_words b n w (next b) ≡ b + n
  unfolding split_words
  split-next = ground arith

  module _ (behind : w (next b) ≡ 0 ⊎ (w (next b) ≡ b + s)) where
    split-prev : split_words b n w (prev b) ≡ w (prev b)
    unfolding split_words
    split-prev = ground (arith, behind, sized)

    split-rest_magic : split_words b n w (magic (b + n)) ≡ block_free
    unfolding split_words
    split-rest_magic = ground (arith, behind, sized)

    split-rest_size : split_words b n w (size (b + n)) ≡ s - n
    unfolding split_words
    split-rest_size = ground (arith, behind, sized)

    split-rest_next : split_words b n w (next (b + n)) ≡ w (next b)
    unfolding split_words
    split-rest_next = ground (arith, behind, sized)

    split-rest_prev : split_words b n w (prev (b + n)) ≡ b
    unfolding split_words
    split-rest_prev = ground (arith, behind, sized)

    pub split-below : (x : ℕ) → x < b → split_words b n w x ≡ w x
    unfolding split_words
    split-below x h = ground (arith, behind, sized)

    split-above : (x : ℕ) → b + s ≤ x → x ≢ prev (b + s) → split_words b n w x ≡ w x
    unfolding split_words
    split-above x h k = ground (arith, behind, sized)

    split-back : w (next b) ≢ 0 → split_words b n w (prev (b + s)) ≡ b + n
    unfolding split_words
    split-back h = ground (arith, behind, sized)

pub link-cases : (x : ℕ) (bs : List Block) → link_to x bs ≡ 0 ⊎ (link_to x bs ≡ x)
unfolding link_to
link-cases x [] = inl refl
link-cases x (b ∷ bs) = inr refl

pub link-occupied : (x : ℕ) (bs : List Block) → bs ≢ [] → 0 < x → link_to x bs ≢ 0
unfolding link_to
link-occupied x [] h pos e = absurd (h refl)
link-occupied x (b ∷ bs) h pos e = omega (arith, e)

-- A chain whose first block is split and taken, whatever is done to the block's payload.
pub taken-split :
    (w w' : Words) (before a n : ℕ) (b : Block) (bs : List Block) (stop : ℕ)
    → 0 < a
    → 32 ≤ n
    → n % 16 ≡ 0
    → n + 32 < b.size
    → ((x : ℕ) → x < a + 32 ⊎ a + n ≤ x → w' x ≡ split_words a n w x)
    → Chain w before a (b ∷ bs) stop
    → Chain w' before a (used_block n ∷ free_block (b.size - n) ∷ bs) stop
unfolding Chain link_to
taken-split w w' before a n b bs stop pos low even fits agrees c =
    let behind : w (next a) ≡ 0 ⊎ (w (next a) ≡ a + b.size) =
      ground (arith, c.2, link-cases (a + b.size) bs) in
    let there : a + n + (b.size - n) ≡ a + b.size = omega arith in
    (
      agrees (magic a) (inl (omega arith)) ∙ split-magic a n b.size w c.1 low fits,
      agrees (size a) (inl (omega arith)) ∙ split-size a n b.size w c.1 low fits,
      agrees (next a) (inl (omega arith)) ∙ split-next a n b.size w c.1 low fits,
      agrees (prev a) (inl (omega arith)) ∙ (split-prev a n b.size w c.1 low fits behind ∙ c.3),
      low,
      even,
      (
        agrees (magic (a + n)) (inr (omega arith))
            ∙ split-rest_magic a n b.size w c.1 low fits behind,
        agrees (size (a + n)) (inr (omega arith))
            ∙ split-rest_size a n b.size w c.1 low fits behind,
        agrees (next (a + n)) (inr (omega arith))
            ∙ (split-rest_next a n b.size w c.1 low fits behind
                ∙ (c.2 ∙ ap (λ t. link_to t bs) (sym there))),
        agrees (prev (a + n)) (inr (omega arith))
            ∙ split-rest_prev a n b.size w c.1 low fits behind,
        omega arith,
        omega (arith, c.5),
        subst (λ t. Chain w' (a + n) t bs stop) (sym there)
            (Chain-relinked w w' a (a + n) (a + b.size) bs stop
              (λ x h k.
                agrees x (inr (omega arith)) ∙ split-above a n b.size w c.1 low fits behind x h k)
              (λ some_behind.
                agrees (prev (a + b.size)) (inr (omega arith))
                ∙ split-back a n b.size w c.1 low fits behind
                    (λ z. link-occupied (a + b.size) bs some_behind (omega arith) (sym c.2 ∙ z)))
              c.6),
      ),
    )

-- A chain whose first block is taken whole.
pub taken-whole :
    (w w' : Words) (before a : ℕ) (b : Block) (bs : List Block) (stop : ℕ)
    → ((x : ℕ) → x < a + 32 ⊎ a + b.size ≤ x → w' x ≡ put_word (magic a) block_used w x)
    → Chain w before a (b ∷ bs) stop
    → Chain w' before a (used_block b.size ∷ bs) stop
unfolding Chain link_to put_word
taken-whole w w' before a b bs stop agrees c = (
  agrees (magic a) (inl (omega arith)) ∙ ground arith,
  agrees (size a) (inl (omega arith)) ∙ ground (arith, c.1),
  agrees (next a) (inl (omega arith)) ∙ ground (arith, c.2),
  agrees (prev a) (inl (omega arith)) ∙ ground (arith, c.3),
  c.4,
  c.5,
  Chain-kept w w' a (a + b.size) bs stop (λ x h. agrees x (inr h) ∙ ground (arith, c.4)) c.6,
)
