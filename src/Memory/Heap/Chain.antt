-- ===== src/Memory/Heap/Chain.antt =====
-- What it means that a chain of headers in memory is a row of blocks.
use shahi_n_kernel.Prelude.{
  ℕ, ◌+◌, ◌*◌, ◌%◌, ◌^◌, ◌≤◌, ◌<◌, ◌≡◌, ◌∙◌, Bool, List, [], ◌∷◌, if◌then◌else◌, arith, length, ◌≢◌,
}
use shahi_n_kernel.Memory.Paging.{Words}
use shahi_n_kernel.Memory.Heap.{Heap, block_used, block_free, magic, size, next, prev}
use shahi_n_kernel.Memory.Heap.Blocks.{Block, total}

abbrev pub magic_of : Bool → ℕ
magic_of used = if used then block_used else block_free

-- The address of the block behind one that ends at `a`, or 0.
unfoldable pub link_to : (a : ℕ) → List Block → ℕ
link_to a [] = 0
link_to a (b ∷ bs) = a

-- The headers from `a` to `stop` are those of the row, and the one at `a` points back to `before`.
unfoldable pub Chain : Words → (before a : ℕ) → List Block → (stop : ℕ) → Type 0
unfolding link_to
Chain w before a [] stop = a ≡ stop
Chain w before a (b ∷ bs) stop =
    (w (magic a) ≡ magic_of b.used)
    × (w (size a) ≡ b.size)
    × (w (next a) ≡ link_to (a + b.size) bs)
    × (w (prev a) ≡ before)
    × (32 ≤ b.size)
    × (b.size % 16 ≡ 0)
    × Chain w a (a + b.size) bs stop

-- The address of the row's last block.
unfoldable pub last_of : (before a : ℕ) → List Block → ℕ
last_of before a [] = before
last_of before a (b ∷ bs) = last_of a (a + b.size) bs

-- The heap holds the row.
pub record Holds (h : Heap) (bs : List Block) : Type 0 where
  pub chained : Chain h.words 0 h.heap_start bs h.heap_current
  pub first : h.first_block ≡ link_to h.heap_start bs
  pub last : h.last_block ≡ last_of 0 h.heap_start bs
  pub placed : 32 ≤ h.heap_start
  pub aligned : h.heap_start % 16 ≡ 0
  pub mapped : h.heap_current ≤ h.heap_end
  pub below : h.heap_end < 2 ^ 63

-- A chain depends on the words from its start on.
pub Chain-kept :
    (w w' : Words) (before a : ℕ) (bs : List Block) (stop : ℕ)
    → ((x : ℕ) → a ≤ x → w' x ≡ w x)
    → Chain w before a bs stop
    → Chain w' before a bs stop
unfolding Chain
Chain-kept w w' before a [] stop same c = c
Chain-kept w w' before a (b ∷ bs) stop same c = (
  same (magic a) (omega arith) ∙ c.0,
  same (size a) (omega arith) ∙ c.1,
  same (next a) (omega arith) ∙ c.2,
  same (prev a) (omega arith) ∙ c.3,
  c.4,
  c.5,
  Chain-kept w w' a (a + b.size) bs stop (λ x h. same x (omega arith)) c.6,
)

cons-ne-nil : (b : Block) (bs : List Block) → b ∷ bs ≢ []
cons-ne-nil b bs e = cc

-- The same with another block in front of it.
pub Chain-relinked :
    (w w' : Words) (before before' a : ℕ) (bs : List Block) (stop : ℕ)
    → ((x : ℕ) → a ≤ x → x ≢ prev a → w' x ≡ w x)
    → (bs ≢ [] → w' (prev a) ≡ before')
    → Chain w before a bs stop
    → Chain w' before' a bs stop
unfolding Chain link_to
Chain-relinked w w' before before' a [] stop same back c = c
Chain-relinked w w' before before' a (b ∷ bs) stop same back c = (
  same (magic a) (omega arith) (omega arith) ∙ c.0,
  same (size a) (omega arith) (omega arith) ∙ c.1,
  same (next a) (omega arith) (omega arith) ∙ c.2,
  back (cons-ne-nil b bs),
  c.4,
  c.5,
  Chain-kept w w' a (a + b.size) bs stop (λ x h. same x (omega arith) (omega (arith, c.4))) c.6,
)

-- A chain ends behind its start, by the size of its blocks.
pub Chain-total :
    (w : Words) (before a : ℕ) (bs : List Block) (stop : ℕ)
    → Chain w before a bs stop
    → a + total bs ≡ stop
unfolding Chain total
Chain-total w before a [] stop c = omega (arith, c)
Chain-total w before a (b ∷ bs) stop c = omega (arith, Chain-total w a (a + b.size) bs stop c.6)

pub Chain-length :
    (w : Words) (before a : ℕ) (bs : List Block) (stop : ℕ)
    → Chain w before a bs stop
    → a + 32 * length bs ≤ stop
unfolding Chain
Chain-length w before a [] stop c = omega (arith, c)
Chain-length w before a (b ∷ bs) stop c =
    omega (arith, Chain-length w a (a + b.size) bs stop c.6, c.4)
