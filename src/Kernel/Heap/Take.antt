-- ===== src/Kernel/Heap/Take.antt =====
-- The writes of `heap_alloc` of heap.c to the block that was located.
use socketapp.Common.{
  ℕ, ◌+◌, ◌-◌, ◌≤◌, ◌<◌, ◌≡◌, ◌∙◌, inl, inr, true, false, some, List, [], ◌∷◌, ◌++◌, subst, arith,
  word, ◌==◌, if◌then◌else◌, length, length-patch, patch, Bool-cases,
}
use socketapp.Kernel.Space.{HeapMetadata, encode}
use socketapp.Kernel.Space.Bytes.{block_at, block_at-patch_self, block_at-patch_apart}
use socketapp.Kernel.Heap.Blocks.{fits}
use socketapp.Kernel.Heap.Blocks.{
  IsChain, IsChain-span, IsChain-patch, free_total, locate, split_block, take_first,
}

-- The bytes of the page after the block at `w` was taken.
abbrev pub taken : ℕ → List ℕ → ℕ → HeapMetadata → List ℕ
taken size bytes w block =
    if size == block.size
    then patch bytes w (encode (record block { is_free = false }))
    else patch (patch bytes w (encode (record { size = size; is_free = false }))) (w + (8 + size))
        (encode (record block { size = block.size - size - 8 }))

-- The located block lies in the chain from `offset` on, and is free and big enough.
pub record Located (size : ℕ) (bytes : List ℕ) (offset : ℕ) (blocks : List HeapMetadata) (w : ℕ)
    : Type 0 where
  pub block : HeapMetadata
  pub behind : offset ≤ w
  pub inside : w + 8 + block.size ≤ length bytes
  pub header : block_at bytes w ≡ some block
  pub enough : fits size block ≡ true
  pub chain : IsChain (taken size bytes w block) offset (take_first size blocks)
  pub less :
      free_total (take_first size blocks) + (if size == block.size then size else size + 8)
      ≡ free_total blocks

module _ (size : ℕ) (bytes : List ℕ) (small : length bytes < word) where
  -- At the head of the chain.
  split-IsChain :
      (offset : ℕ) (block : HeapMetadata) (blocks : List HeapMetadata)
      → fits size block ≡ true
      → IsChain bytes offset (block ∷ blocks)
      → IsChain (taken size bytes offset block) offset (split_block size block ++ blocks)
  split-IsChain offset block blocks hit h =
      let end = IsChain-span bytes (offset + (block.size + 8)) blocks h.2 in
      elim (Bool-cases (size == block.size)) [
        | inl same ↦ rw same (
          rw length-patch h.0,
          block_at-patch_self bytes offset _ (omega arith) h.0,
          IsChain-patch bytes offset _ (offset + (block.size + 8)) blocks (omega arith) h.2,
        )
        | inr other ↦
            let room : size + 8 ≤ block.size = ground arith in
            let used : HeapMetadata = record { size = size; is_free = false } in
            let rest : HeapMetadata = record block { size = block.size - size - 8 } in
            let w = offset + (8 + size) in
            let at_rest : offset + (size + 8) ≡ w = omega arith in
            let at_next : w + (block.size - size - 8 + 8) ≡ offset + (block.size + 8) =
              omega arith in
            let first = patch bytes offset (encode used) in
            let len : length first ≡ length bytes = length-patch bytes offset (encode used) in
            let behind =
              IsChain-patch first w rest (offset + (block.size + 8)) blocks (omega arith) (
                IsChain-patch bytes offset used (offset + (block.size + 8)) blocks (omega arith)
                  h.2) in
            rw other (
              omega (arith, length-patch first w (encode rest)),
              block_at-patch_apart first w rest offset (inl (omega arith))
                  ∙ block_at-patch_self bytes offset used (omega arith) h.0,
              (
                omega (arith, length-patch first w (encode rest)),
                rw at_rest (block_at-patch_self first w rest (omega arith) (omega arith)),
                rw (at_rest, at_next) behind,
              ),
            )
      ]

split_total :
    (size : ℕ) (block : HeapMetadata) (blocks : List HeapMetadata)
    → fits size block ≡ true
    → free_total (split_block size block ++ blocks)
        + (if size == block.size then size else size + 8)
      ≡ free_total (block ∷ blocks)
split_total size block blocks hit = elim (Bool-cases (size == block.size)) [
  | inl same ↦ rw same (ground arith)
  | inr other ↦ rw other (ground arith)
]

pub length-taken :
    (size : ℕ) (bytes : List ℕ) (w : ℕ) (block : HeapMetadata)
    → length (taken size bytes w block) ≡ length bytes
length-taken size bytes w block = elim (Bool-cases (size == block.size)) [
  | inl same ↦ rw same (length-patch bytes w _)
  | inr other ↦ rw other (length-patch _ _ _ ∙ length-patch bytes w _)
]

-- The headers before the block stay.
pub block_at-taken_before :
    (size : ℕ) (bytes : List ℕ) (w : ℕ) (block : HeapMetadata) (i : ℕ)
    → i + 8 ≤ w
    → block_at (taken size bytes w block) i ≡ block_at bytes i
block_at-taken_before size bytes w block i h = elim (Bool-cases (size == block.size)) [
  | inl same ↦ rw same (block_at-patch_apart bytes w _ i (inl h))
  | inr other ↦ rw other (
      block_at-patch_apart _ (w + (8 + size)) _ i (inl (omega arith))
      ∙ block_at-patch_apart bytes w _ i (inl h))
]

module _ (size : ℕ) (bytes : List ℕ) (small : length bytes < word) where
  fits-Located :
      (offset : ℕ) (block : HeapMetadata) (blocks : List HeapMetadata)
      → fits size block ≡ true
      → IsChain bytes offset (block ∷ blocks)
      → Located size bytes offset (block ∷ blocks) offset
  fits-Located offset block blocks hit h =
      let end = IsChain-span bytes (offset + (block.size + 8)) blocks h.2 in
      record {
        block = block;
        behind = omega arith;
        inside = omega arith;
        header = h.1;
        enough = hit;
        chain = rw hit (split-IsChain size bytes small offset block blocks hit h);
        less = rw hit (split_total size block blocks hit);
      }

  pub locate-Located :
      (offset : ℕ) (blocks : List HeapMetadata) (w : ℕ)
      → IsChain bytes offset blocks
      → locate size offset blocks ≡ some w
      → Located size bytes offset blocks w
  locate-Located offset [] w h e = absurd (ground arith)
  locate-Located offset (block ∷ blocks) w h e = elim (Bool-cases (fits size block)) [
    | inl hit ↦
        let here : offset ≡ w = ground arith in
        subst (λ x. Located size bytes offset (block ∷ blocks) x) here
          (fits-Located offset block blocks hit h)
    | inr miss ↦
        let later = locate-Located (offset + (block.size + 8)) blocks w h.2 (ground arith) in
        let far = later.behind in
        let len = length-taken size bytes w later.block in
        record {
          block = later.block;
          behind = omega arith;
          inside = later.inside;
          header = later.header;
          enough = later.enough;
          chain = rw miss (
            omega (arith, h.0),
            block_at-taken_before size bytes w later.block offset (omega arith) ∙ h.1,
            later.chain,
          );
          less = rw miss (omega (arith, later.less));
        }
  ]
