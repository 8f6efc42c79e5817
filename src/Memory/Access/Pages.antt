-- ===== src/Memory/Access/Pages.antt =====
-- The bytes of consecutive pages of a process, and the pieces that a request cuts them into.
use socketapp.Common.{
  ℕ, zero, suc, ◌+◌, ◌-◌, ◌≤◌, ◌≡◌, inl, inr, Option, none, some, List, [], ◌++◌, arith, ltb,
  length, length-drop, take, drop, patch, take_all, take-zero, take-append, drop-append, drop_all,
  patch-append, Bool-cases, Option-cases,
}
use socketapp.Memory.Access.{current_page_size}

-- The bytes of the `n` pages from `page` on, one after the other; `none` if one is missing.
abbrev pub pages : (ℕ → Option (List ℕ)) → ℕ → ℕ → Option (List ℕ)
pages view page zero = some []
pages view page (suc n) = elim (view page) [
  | none ↦ none
  | some bytes ↦ elim (pages view (page + 1) n) [ none ↦ none | some rest ↦ some (bytes ++ rest) ]
]

-- Pages that are all there begin with the first one.
pub pages_split :
    (view : ℕ → Option (List ℕ)) (page n : ℕ) {all : List ℕ}
    → pages view page (suc n) ≡ some all
    → (bytes rest : List ℕ) × (view page ≡ some bytes)
      × (pages view (page + 1) n ≡ some rest)
      × (all ≡ bytes ++ rest)
pages_split view page n e = elim (Option-cases (view page)) [
  | inl gone ↦ absurd (ground arith)
  | inr (bytes, here) ↦ elim (Option-cases (pages view (page + 1) n)) [
    | inl gone ↦ absurd (ground arith)
    | inr (rest, there) ↦ (bytes, rest, here, there, ground arith)
  ]
]

module _ (frame_size offset size : ℕ) (bytes rest : List ℕ) (sized : length bytes ≡ frame_size)
    (inside : offset ≤ frame_size) where
  -- The piece of the first page and the piece of the others make up the whole.
  pub pieces :
      let n = current_page_size frame_size offset size in
      take n (drop offset bytes) ++ take (size - n) rest ≡ take size (drop offset (bytes ++ rest))
  pieces =
      let tail = drop offset bytes in
      let here : length tail ≡ frame_size - offset = omega (arith, length-drop offset bytes) in
      let whole : take size (drop offset (bytes ++ rest))
          ≡ take size tail ++ take (size - length tail) rest =
        rw (drop-append offset bytes rest (omega arith)) (take-append size tail rest) in
      elim (Bool-cases (ltb size (frame_size - offset))) [
        | inl short ↦
            let le : size ≤ length tail = ground arith in
            let e₁ : take (size - size) rest ≡ [] = take-zero (size - size) rest (omega arith) in
            let e₂ : take (size - length tail) rest ≡ [] =
              take-zero (size - length tail) rest (omega arith) in
            rw short (rw e₁ (rw (whole, e₂)))
        | inr long ↦
            let ge : frame_size - offset ≤ size = ground arith in
            let e₁ : take (frame_size - offset) tail ≡ tail = take_all _ tail (omega arith) in
            let e₂ : take size tail ≡ tail = take_all size tail (omega arith) in
            rw long (rw (e₁, whole, e₂, here))
      ]

module _ (frame_size offset : ℕ) (bytes rest buffer : List ℕ) (sized : length bytes ≡ frame_size)
    (inside : offset ≤ frame_size) where
  -- The piece written to the first page and the piece written to the others make up the whole.
  pub patch_pieces :
      let n = current_page_size frame_size offset (length buffer) in
      patch bytes offset (take n buffer) ++ patch rest 0 (drop n buffer)
      ≡ patch (bytes ++ rest) offset buffer
  patch_pieces =
      let room = length bytes - offset in
      let whole = patch-append bytes rest offset buffer (omega arith) in
      let same : room ≡ frame_size - offset = omega arith in
      elim (Bool-cases (ltb (length buffer) (frame_size - offset))) [
        | inl short ↦
            let le : length buffer ≤ room = ground arith in
            let e₁ = take_all (length buffer) buffer (omega arith) in
            let e₂ = drop_all (length buffer) buffer (omega arith) in
            let e₃ = take_all room buffer le in
            let e₄ = drop_all room buffer le in rw short (rw (whole, e₁, e₂, e₃, e₄))
        | inr long ↦ rw long (rw (whole, same))
      ]
