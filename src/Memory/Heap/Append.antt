-- ===== src/Memory/Heap/Append.antt =====
-- A new block behind the last one.
use shahi_n_kernel.Prelude.{
  ℕ, ◌+◌, ◌%◌, ◌≤◌, ◌<◌, ◌≡◌, ◌≢◌, refl, sym, ap, ◌∙◌, List, [], ◌∷◌, ◌++◌, arith,
}
use shahi_n_kernel.Memory.Paging.{Words}
use shahi_n_kernel.Memory.Heap.{block_used, magic, size, next, prev}
use shahi_n_kernel.Memory.Heap.Blocks.{Block, used_block}
use shahi_n_kernel.Memory.Heap.Chain.{Chain, link_to, last_of}

-- The last block of a row that is not empty stands at its start or behind.
pub last_of_le :
    (w : Words) (before a : ℕ) (b : Block) (bs : List Block) (stop : ℕ)
    → Chain w before a (b ∷ bs) stop
    → (a ≤ last_of before a (b ∷ bs)) × (last_of before a (b ∷ bs) + 32 ≤ stop)
unfolding Chain last_of
last_of_le w before a b [] stop c = (omega arith, omega (arith, c.4, c.6))
last_of_le w before a b (d ∷ bs) stop c =
    let later = last_of_le w a (a + b.size) d bs stop c.6 in (omega (arith, later.0), later.1)

-- The header of a used block.
unfoldable pub Header : Words → (before a n : ℕ) → Type 0
Header w before a n =
    (w (magic a) ≡ block_used) × (w (size a) ≡ n) × (w (next a) ≡ 0) × (w (prev a) ≡ before)

pub Chain-snoc :
    (w w' : Words) (before a n : ℕ) (bs : List Block) (stop : ℕ)
    → 32 ≤ n
    → n % 16 ≡ 0
    → ((x : ℕ) → x < stop → x ≢ next (last_of before a bs) → w' x ≡ w x)
    → (bs ≢ [] → w' (next (last_of before a bs)) ≡ stop)
    → Header w' (last_of before a bs) stop n
    → Chain w before a bs stop
    → Chain w' before a (bs ++ used_block n ∷ []) (stop + n)
unfolding Chain last_of link_to Header
Chain-snoc w w' before a n [] stop low even same linked new c = (
  ap (λ t. w' (magic t)) c ∙ new.0,
  ap (λ t. w' (size t)) c ∙ new.1,
  ap (λ t. w' (next t)) c ∙ new.2,
  ap (λ t. w' (prev t)) c ∙ new.3,
  low,
  even,
  ap (λ t. t + n) c,
)
Chain-snoc w w' before a n (b ∷ []) stop low even same linked new c = (
  same (magic a) (omega (arith, c.4, c.6)) (omega arith) ∙ c.0,
  same (size a) (omega (arith, c.4, c.6)) (omega arith) ∙ c.1,
  linked (λ e. cc) ∙ sym c.6,
  same (prev a) (omega (arith, c.4, c.6)) (omega arith) ∙ c.3,
  c.4,
  c.5,
  Chain-snoc w w' a (a + b.size) n [] stop low even same (λ h. absurd (h refl)) new c.6,
)
Chain-snoc w w' before a n (b ∷ d ∷ bs) stop low even same linked new c =
    let last = last_of_le w a (a + b.size) d bs stop c.6 in
    (
      same (magic a) (omega (arith, c.4, last)) (omega (arith, c.4, last)) ∙ c.0,
      same (size a) (omega (arith, c.4, last)) (omega (arith, c.4, last)) ∙ c.1,
      same (next a) (omega (arith, c.4, last)) (omega (arith, c.4, last)) ∙ c.2,
      same (prev a) (omega (arith, c.4, last)) (omega (arith, c.4, last)) ∙ c.3,
      c.4,
      c.5,
      Chain-snoc w w' a (a + b.size) n (d ∷ bs) stop low even same (λ h. linked (λ e. cc)) new c.6,
    )

pub last_of-snoc :
    (before a n : ℕ) (w : Words) (bs : List Block) (stop : ℕ)
    → Chain w before a bs stop
    → last_of before a (bs ++ used_block n ∷ []) ≡ stop
unfolding last_of Chain
last_of-snoc before a n w [] stop c = c
last_of-snoc before a n w (b ∷ bs) stop c = last_of-snoc a (a + b.size) n w bs stop c.6
