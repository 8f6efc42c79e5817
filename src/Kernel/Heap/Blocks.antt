-- ===== src/Kernel/Heap/Blocks.antt =====
-- The blocks of a page of the heap: the list that the headers in its bytes chain together.
use socketapp.Common.{
  ℕ, ◌+◌, ◌-◌, ◌*◌, ◌≤◌, ◌≡◌, refl, ◌∙◌, Bool-cases, inl, inr, false, Bool, ◌&&◌, ◌||◌, leb, Option,
  none, some, List, [], ◌∷◌, ◌++◌, arith, ◌==◌, if◌then◌else◌, length, length-patch, patch,
}
use socketapp.Kernel.Space.{HeapMetadata, encode}
use socketapp.Kernel.Space.Bytes.{block_at, block_at-patch_apart}

-- The headers from `offset` on are those of `blocks`, and the last block ends where the page ends.
abbrev pub IsChain : List ℕ → ℕ → List HeapMetadata → Type 0
IsChain bytes offset [] = offset ≡ length bytes
IsChain bytes offset (block ∷ blocks) =
    (offset + 8 ≤ length bytes)
    × (block_at bytes offset ≡ some block)
    × IsChain bytes (offset + (block.size + 8)) blocks

-- The bytes that the blocks take up, headers included.
abbrev pub span : List HeapMetadata → ℕ
span [] = 0
span (block ∷ blocks) = block.size + 8 + span blocks

abbrev pub free_size : HeapMetadata → ℕ
free_size block = if block.is_free then block.size else 0

-- The bytes of the free blocks, headers excluded: what `freeSpace` stands for.
abbrev pub free_total : List HeapMetadata → ℕ
free_total [] = 0
free_total (block ∷ blocks) = free_size block + free_total blocks

pub IsChain-span :
    (bytes : List ℕ) (offset : ℕ) (blocks : List HeapMetadata)
    → IsChain bytes offset blocks
    → offset + span blocks ≡ length bytes
IsChain-span bytes offset [] h = omega arith
IsChain-span bytes offset (block ∷ blocks) h =
    omega (arith, IsChain-span bytes (offset + (block.size + 8)) blocks h.2)

pub length-le-span : (blocks : List HeapMetadata) → 8 * length blocks ≤ span blocks
length-le-span [] = omega arith
length-le-span (block ∷ blocks) = omega (arith, length-le-span blocks)

pub free_total-le-span : (blocks : List HeapMetadata) → free_total blocks ≤ span blocks
free_total-le-span [] = omega arith
free_total-le-span (block ∷ blocks) = ground (arith, free_total-le-span blocks)

-- A header written before the chain leaves it alone.
pub IsChain-patch :
    (bytes : List ℕ) (w : ℕ) (m : HeapMetadata) (offset : ℕ) (blocks : List HeapMetadata)
    → w + 8 ≤ offset
    → IsChain bytes offset blocks
    → IsChain (patch bytes w (encode m)) offset blocks
IsChain-patch bytes w m offset [] before h = rw length-patch h
IsChain-patch bytes w m offset (block ∷ blocks) before h = (
  rw length-patch (h.0),
  block_at-patch_apart bytes w m offset (inr before) ∙ h.1,
  IsChain-patch bytes w m (offset + (block.size + 8)) blocks (omega arith) h.2,
)

-- `size` bytes fit into a free block of exactly that size, or with room for a further header.
abbrev pub fits : ℕ → HeapMetadata → Bool
fits size block = block.is_free && (size == block.size || leb (size + 8) block.size)

-- Where the first block lies that `size` bytes fit into.
abbrev pub locate : ℕ → ℕ → List HeapMetadata → Option ℕ
locate size offset [] = none
locate size offset (block ∷ blocks) =
    if fits size block then some offset else locate size (offset + (block.size + 8)) blocks

-- The block is used as a whole, or split into a used block and the free rest.
abbrev pub split_block : ℕ → HeapMetadata → List HeapMetadata
split_block size block =
    if size == block.size
    then record block { is_free = false } ∷ []
    else record { size = size; is_free = false }
      ∷ record block { size = block.size - size - 8 }
      ∷ []

-- The blocks after the first that `size` bytes fit into was taken.
abbrev pub take_first : ℕ → List HeapMetadata → List HeapMetadata
take_first size [] = []
take_first size (block ∷ blocks) =
    if fits size block then split_block size block ++ blocks else block ∷ take_first size blocks

-- Adjacent free blocks are one: `prev` is the block before the others.
abbrev pub merge : HeapMetadata → List HeapMetadata → List HeapMetadata
merge prev [] = prev ∷ []
merge prev (current ∷ blocks) =
    let joined = merge (record prev { size = prev.size + 8 + current.size }) blocks in
    let kept = prev ∷ merge current blocks in
    if current.is_free && prev.is_free then joined else kept

pub span-merge :
    (prev : HeapMetadata) (blocks : List HeapMetadata)
    → span (merge prev blocks) ≡ span (prev ∷ blocks)
span-merge prev [] = refl
span-merge prev (current ∷ blocks) = ground (
  arith,
  span-merge current blocks,
  span-merge (record prev { size = prev.size + 8 + current.size }) blocks,
)

-- No free block follows a free block.
abbrev pub IsMerged : List HeapMetadata → Type 0
IsMerged [] = Unit
IsMerged (block ∷ []) = Unit
IsMerged (block ∷ next ∷ blocks) =
    ((next.is_free && block.is_free) ≡ false) × IsMerged (next ∷ blocks)

pub merge-cons :
    (prev : HeapMetadata) (blocks : List HeapMetadata)
    → (head : HeapMetadata) × (tail : List HeapMetadata) × (merge prev blocks ≡ head ∷ tail)
      × (head.is_free ≡ prev.is_free)
merge-cons prev [] = (prev, [], refl, refl)
merge-cons prev (current ∷ blocks) = elim (Bool-cases (current.is_free && prev.is_free)) [
  | inl joined ↦
      let (head, tail, e, free) =
        merge-cons (record prev { size = prev.size + 8 + current.size }) blocks in
      (head, tail, rw (joined, merge) e, free)
  | inr apart ↦ (prev, merge current blocks, rw (apart, merge), refl)
]

pub merge-IsMerged :
    (prev : HeapMetadata) (blocks : List HeapMetadata) → IsMerged (merge prev blocks)
merge-IsMerged prev [] = tt
merge-IsMerged prev (current ∷ blocks) = elim (Bool-cases (current.is_free && prev.is_free)) [
  | inl joined ↦
      rw (joined, merge)
        (merge-IsMerged (record prev { size = prev.size + 8 + current.size }) blocks)
  | inr apart ↦
      let (head, tail, e, free) = merge-cons current blocks in
      let rest = rw e at (merge-IsMerged current blocks) in
      rw (apart, merge) (rw e (rw free apart, rest))
]
