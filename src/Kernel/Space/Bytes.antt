-- ===== src/Kernel/Space/Bytes.antt =====
-- Metadata in the bytes of a page: `memory_read` and `memory_write` inside one page.
use socketapp.Common.{
  ℕ, ◌+◌, ◌≤◌, ◌<◌, ◌≡◌, ◌≢◌, ◌⊎◌, refl, ap, ◌∙◌, true, Option, some, List, [], ◌∷◌, arith, word,
  length, take, drop, patch, take-drop-patch, take-drop-patch_apart,
}
use socketapp.Common.{leb}
use socketapp.Kernel.Space.{
  HeapMetadata, Space, encode, decode, page_bytes, set_page, read_metadata, write_metadata,
}

-- The metadata at an offset of a page.
abbrev pub block_at : List ℕ → ℕ → Option HeapMetadata
block_at bytes offset = decode (take 8 (drop offset bytes))

pub decode-encode : (m : HeapMetadata) → m.size < word → decode (encode m) ≡ some m
unfolding decode encode
decode-encode m h = ground arith

length-encode : (m : HeapMetadata) → length (encode m) ≡ 8
unfolding encode
length-encode m = refl

pub block_at-patch_self :
    (bytes : List ℕ) (offset : ℕ) (m : HeapMetadata)
    → m.size < word
    → offset + 8 ≤ length bytes
    → block_at (patch bytes offset (encode m)) offset ≡ some m
block_at-patch_self bytes offset m small inside =
    ap decode (
      rw (length-encode m) at
        (take-drop-patch bytes offset (encode m) (rw (length-encode m) inside)))
    ∙ decode-encode m small

pub block_at-patch_apart :
    (bytes : List ℕ) (offset : ℕ) (m : HeapMetadata) (i : ℕ)
    → (i + 8 ≤ offset) ⊎ (offset + 8 ≤ i)
    → block_at (patch bytes offset (encode m)) i ≡ block_at bytes i
block_at-patch_apart bytes offset m i h =
    ap decode (take-drop-patch_apart bytes offset (encode m) i 8 (rw (length-encode m) h))

pub page_bytes-set_page_self :
    (space : Space) (page : ℕ) (bytes : List ℕ) {old : List ℕ}
    → page_bytes space page ≡ some old
    → page_bytes (set_page space page bytes) page ≡ some bytes
unfolding page_bytes set_page
page_bytes-set_page_self [] page bytes {old} h = absurd (ground arith)
page_bytes-set_page_self ((p, x) ∷ space) page bytes {old} h =
    ground (arith, page_bytes-set_page_self space page bytes {old = old})

pub page_bytes-set_page_other :
    (space : Space) (page : ℕ) (bytes : List ℕ) (q : ℕ)
    → page ≢ q
    → page_bytes (set_page space page bytes) q ≡ page_bytes space q
unfolding page_bytes set_page
page_bytes-set_page_other [] page bytes q ne = refl
page_bytes-set_page_other ((p, x) ∷ space) page bytes q ne =
    ground (arith, page_bytes-set_page_other space page bytes q)

module _ (space : Space) (page : ℕ) where
  module _ (bytes : List ℕ) (here : page_bytes space page ≡ some bytes) (offset : ℕ)
      (inside : offset + 8 ≤ length bytes) where
    pub read_metadata_inside : read_metadata space page offset ≡ block_at bytes offset
    unfolding read_metadata
    read_metadata_inside =
        let e : leb (offset + 8) (length bytes) ≡ true = ground arith in rw (here, e, read_metadata)

    pub write_metadata_inside :
        (m : HeapMetadata)
        → write_metadata space page offset m
          ≡ some (set_page space page (patch bytes offset (encode m)))
    unfolding write_metadata
    write_metadata_inside m =
        let e : leb (offset + 8) (length bytes) ≡ true = ground arith in
        rw (here, e, write_metadata)
