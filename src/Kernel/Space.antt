-- ===== src/Kernel/Space.antt =====
-- What the Kernel sees of Memory through Kernel/src/interface/memory.c: the pages of one process.
-- The connection holds, so a request fails only if Memory answers so.
pub mod Bytes
use socketapp.Common.{
  ℕ, ◌+◌, ◌*◌, ◌/◌, ◌%◌, ◌^◌, Bool, true, false, ◌&&◌, Option, none, some, List, [], ◌∷◌, ◌++◌, neg,
  ltb, leb, ◌==◌, if◌then◌else◌, take, drop, length, patch,
}

-- `t_heapmetadata`
pub record HeapMetadata : Type 0 where
  pub size : ℕ
  pub is_free : Bool

-- With the three bytes of padding behind `isFree`.
abbrev pub sizeof_heap_metadata : ℕ
sizeof_heap_metadata = 8

abbrev pub bool_byte : Bool → ℕ
bool_byte true = 1
bool_byte false = 0

unfoldable pub encode : HeapMetadata → List ℕ
encode metadata =
    metadata.size % 256
    ∷ metadata.size / 2 ^ 8 % 256
    ∷ metadata.size / 2 ^ 16 % 256
    ∷ metadata.size / 2 ^ 24 % 256
    ∷ bool_byte metadata.is_free
    ∷ 0
    ∷ 0
    ∷ 0
    ∷ []

unfoldable pub decode : List ℕ → Option HeapMetadata
decode (a ∷ b ∷ c ∷ d ∷ free ∷ padding) =
    some (record { size = a + 2 ^ 8 * b + 2 ^ 16 * c + 2 ^ 24 * d; is_free = free == 1 })
decode _ = none

-- The pages that Memory has for the process, by their numbers.
abbrev pub Space : Type 0
Space = List (ℕ × List ℕ)

unfoldable pub page_bytes : Space → ℕ → Option (List ℕ)
page_bytes [] page = none
page_bytes ((p, bytes) ∷ space) page = if p == page then some bytes else page_bytes space page

unfoldable pub set_page : Space → ℕ → List ℕ → Space
set_page [] page bytes = []
set_page ((p, old) ∷ space) page bytes =
    if p == page then (p, bytes) ∷ space else (p, old) ∷ set_page space page bytes

unfoldable pub remove_page : Space → ℕ → Space
remove_page [] page = []
remove_page ((p, bytes) ∷ space) page =
    if p == page then space else (p, bytes) ∷ remove_page space page

-- `memory_read` of a metadata, which may run over the end of the page; `none`: Memory refuses.
unfoldable pub read_metadata : Space → ℕ → ℕ → Option HeapMetadata
read_metadata space page offset = elim (page_bytes space page) [
  | none ↦ none
  | some bytes ↦
      if leb (offset + sizeof_heap_metadata) (length bytes)
      then decode (take sizeof_heap_metadata (drop offset bytes))
      else elim (page_bytes space (page + 1)) [
        | none ↦ none
        | some next ↦ decode (take sizeof_heap_metadata (drop offset (bytes ++ next)))
      ]
]

-- `memory_write` of a metadata.
unfoldable pub write_metadata : Space → ℕ → ℕ → HeapMetadata → Option Space
write_metadata space page offset metadata = elim (page_bytes space page) [
  | none ↦ none
  | some bytes ↦
      if leb (offset + sizeof_heap_metadata) (length bytes)
      then some (set_page space page (patch bytes offset (encode metadata)))
      else elim (page_bytes space (page + 1)) [
        | none ↦ none
        | some next ↦
            let both = patch (bytes ++ next) offset (encode metadata) in
            some (
              set_page (set_page space page (take (length bytes) both)) (page + 1)
                (drop (length bytes) both))
      ]
]
