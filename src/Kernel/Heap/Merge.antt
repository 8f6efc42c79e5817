-- ===== src/Kernel/Heap/Merge.antt =====
-- Joining adjacent free blocks, and a block that is taken and freed again.
use socketapp.Common.{
  ℕ, ◌+◌, ◌-◌, ◌≡◌, inl, inr, refl, ap, ◌∙◌, true, false, ◌&&◌, some, List, [], ◌∷◌, ◌++◌, arith,
  ◌==◌, if◌then◌else◌, Bool-cases,
}
use socketapp.Kernel.Space.{HeapMetadata}
use socketapp.Kernel.Heap.Blocks.{fits}
use socketapp.Kernel.Heap.Blocks.{span, locate, split_block, take_first, merge, merge-cons}
use socketapp.Kernel.Heap.Settle.{merge_all}
use socketapp.Kernel.Heap.Free.{freed}

-- What lies behind can be joined first.
merge-merge_all :
    (prev y : HeapMetadata) (ys : List HeapMetadata) → merge prev (merge y ys) ≡ merge prev (y ∷ ys)
merge-merge_all prev y [] = refl
merge-merge_all prev y (z ∷ zs) =
    let size : prev.size + 8 + (y.size + 8 + z.size) ≡ prev.size + 8 + y.size + 8 + z.size =
      omega arith in
    ground (
      arith,
      size,
      merge-merge_all prev (record y { size = y.size + 8 + z.size }) zs,
      merge-merge_all y z zs,
      merge-merge_all (record prev { size = prev.size + 8 + y.size }) z zs,
    )

used-merge :
    (used : HeapMetadata) (ys : List HeapMetadata)
    → used.is_free ≡ false
    → merge used ys ≡ used ∷ merge_all ys
used-merge used [] h = refl
used-merge used (y ∷ ys) h = ground arith

-- A used block parts what is joined before it from what is joined behind it.
merge-append_used :
    (prev : HeapMetadata) (xs : List HeapMetadata) (used : HeapMetadata) (ys : List HeapMetadata)
    → used.is_free ≡ false
    → merge prev (xs ++ (used ∷ ys)) ≡ merge prev xs ++ (used ∷ merge_all ys)
merge-append_used prev [] used ys h = ground (arith, used-merge used ys)
merge-append_used prev (x ∷ xs) used ys h = ground (
  arith,
  merge-append_used (record prev { size = prev.size + 8 + x.size }) xs used ys,
  merge-append_used x xs used ys,
)

pub merge_all-append_used :
    (xs : List HeapMetadata) (used : HeapMetadata) (ys : List HeapMetadata)
    → used.is_free ≡ false
    → merge_all (xs ++ (used ∷ ys)) ≡ merge_all xs ++ (used ∷ merge_all ys)
merge_all-append_used [] used ys h = used-merge used ys h
merge_all-append_used (x ∷ xs) used ys h = merge-append_used x xs used ys h

-- What lies in front can be joined first.
merge_all-merge :
    (x : HeapMetadata) (xs zs : List HeapMetadata)
    → merge_all (merge x xs ++ zs) ≡ merge x (xs ++ zs)
merge_all-merge x [] zs = refl
merge_all-merge x (y ∷ ys) zs =
    let (first, rest, e, same) = merge-cons y ys in
    let behind : merge first (rest ++ zs) ≡ merge y (ys ++ zs) =
      rw e at (merge_all-merge y ys zs) in
    elim (Bool-cases (y.is_free && x.is_free)) [
      | inl both ↦ rw (both) (merge_all-merge (record x { size = x.size + 8 + y.size }) ys zs)
      | inr apart ↦ rw (apart, e, same, apart) (ap (λ l. x ∷ l) behind)
    ]

-- Two free blocks side by side are joined, wherever they lie.
merge-pair :
    (prev : HeapMetadata) (xs : List HeapMetadata) (f r : HeapMetadata) (ys : List HeapMetadata)
    → f.is_free ≡ true
    → r.is_free ≡ true
    → merge prev (xs ++ (f ∷ r ∷ ys))
      ≡ merge prev (xs ++ (record f { size = f.size + 8 + r.size } ∷ ys))
merge-pair prev [] f r ys free free' =
    let size : prev.size + 8 + f.size + 8 + r.size ≡ prev.size + 8 + (f.size + 8 + r.size) =
      omega arith in
    ground (arith, size)
merge-pair prev (x ∷ xs) f r ys free free' = ground (
  arith,
  merge-pair (record prev { size = prev.size + 8 + x.size }) xs f r ys,
  merge-pair x xs f r ys,
)

merge_all-left : (xs zs : List HeapMetadata) → merge_all (merge_all xs ++ zs) ≡ merge_all (xs ++ zs)
merge_all-left [] zs = refl
merge_all-left (x ∷ xs) zs = merge_all-merge x xs zs

merge-right :
    (prev : HeapMetadata) (xs : List HeapMetadata) (f : HeapMetadata) (ys : List HeapMetadata)
    → merge prev (xs ++ (f ∷ merge_all ys)) ≡ merge prev (xs ++ (f ∷ ys))
merge-right prev [] f [] = refl
merge-right prev [] f (y ∷ ys) = ground (
  arith,
  merge-merge_all f y ys,
  merge-merge_all (record prev { size = prev.size + 8 + f.size }) y ys,
)
merge-right prev (x ∷ xs) f ys = ground (
  arith,
  merge-right (record prev { size = prev.size + 8 + x.size }) xs f ys,
  merge-right x xs f ys,
)

merge_all-right :
    (xs : List HeapMetadata) (f : HeapMetadata) (ys : List HeapMetadata)
    → merge_all (xs ++ (f ∷ merge_all ys)) ≡ merge_all (xs ++ (f ∷ ys))
merge_all-right [] f [] = refl
merge_all-right [] f (y ∷ ys) = merge-merge_all f y ys
merge_all-right (x ∷ xs) f ys = merge-right x xs f ys

merge_all-pair :
    (xs : List HeapMetadata) (f r : HeapMetadata) (ys : List HeapMetadata)
    → f.is_free ≡ true
    → r.is_free ≡ true
    → merge_all (xs ++ (f ∷ r ∷ ys))
      ≡ merge_all (xs ++ (record f { size = f.size + 8 + r.size } ∷ ys))
merge_all-pair [] f r ys free free' = ground arith
merge_all-pair (x ∷ xs) f r ys free free' = merge-pair x xs f r ys free free'

-- The block that is handed out, and what is left of the free block.
abbrev pub handed_out : ℕ → HeapMetadata
handed_out size = record { size = size; is_free = false }

abbrev pub left_over : ℕ → HeapMetadata → List HeapMetadata
left_over size block =
    if size == block.size then [] else record block { size = block.size - size - 8 } ∷ []

split_block-handed_out :
    (size : ℕ) (block : HeapMetadata)
    → split_block size block ≡ handed_out size ∷ left_over size block
split_block-handed_out size block = ground arith

-- A block that was taken out of the free blocks is joined with them again when it is free.
pub merge_all-freed :
    (size : ℕ) (before : List HeapMetadata) (block : HeapMetadata) (after : List HeapMetadata)
    → fits size block ≡ true
    → merge_all
        (merge_all before ++ (freed (handed_out size) ∷ merge_all (left_over size block ++ after)))
      ≡ merge_all (before ++ (block ∷ after))
merge_all-freed size before block after fit =
    merge_all-left before (freed (handed_out size) ∷ merge_all (left_over size block ++ after))
    ∙ merge_all-right before (freed (handed_out size)) (left_over size block ++ after)
    ∙ elim (Bool-cases (size == block.size)) [
      | inl whole ↦
          let same : freed (handed_out size) ≡ block = ground arith in
          rw whole (ap (λ x. merge_all (before ++ (x ∷ after))) same)
      | inr part ↦
          let rest : HeapMetadata = record block { size = block.size - size - 8 } in
          let whole : HeapMetadata = record { size = size + 8 + rest.size; is_free = true } in
          let same : whole ≡ block = ground arith in
          rw part (
            merge_all-pair before (freed (handed_out size)) rest after refl (ground arith)
            ∙ ap (λ x. merge_all (before ++ (x ∷ after))) same)
    ]

-- Where the block that was located lies.
pub take_first-split :
    (size offset : ℕ) (blocks : List HeapMetadata) (w : ℕ)
    → locate size offset blocks ≡ some w
    → (before : List HeapMetadata) × (block : HeapMetadata) × (after : List HeapMetadata) × (blocks
        ≡ before ++ (block ∷ after))
      × (offset + span before ≡ w)
      × (fits size block ≡ true)
      × (take_first size blocks ≡ before ++ (handed_out size ∷ (left_over size block ++ after)))
take_first-split size offset [] w h = cc
take_first-split size offset (x ∷ blocks) w h = elim (Bool-cases (fits size x)) [
  | inl here ↦
      let same : some offset ≡ some w = rw here at h in
      (
        [],
        x,
        blocks,
        refl,
        (let none : offset + 0 ≡ offset = omega arith in none ∙ ground arith),
        here,
        rw here (ap (λ l. l ++ blocks) (split_block-handed_out size x)),
      )
  | inr later ↦
      let (before, block, after, split, place, fit, taken) =
        take_first-split size (offset + (x.size + 8)) blocks w (rw later at h) in
      (
        x ∷ before,
        block,
        after,
        ap (λ l. x ∷ l) split,
        omega arith,
        fit,
        rw later (ap (λ l. x ∷ l) taken),
      )
]
