-- ===== src/Kernel/Requests/Pages.antt =====
-- Pages of the heap of a process: a page past the last one is not there, and one put behind them is found.
use socketapp.Common.{
  ℕ, ◌+◌, ◌<◌, ◌≡◌, ◌≢◌, refl, false, none, some, List, [], ◌∷◌, ◌++◌, arith, ltb, ◌==◌,
  if◌then◌else◌, length, ==_refl, ==-eq-false,
}
use socketapp.Common.{leb}
use socketapp.Kernel.Space.{HeapMetadata, Space, page_bytes, write_metadata}
use socketapp.Kernel.Program.{HeapPage, find_page, max_page_num, space_max}

pub max_page_num-find_page :
    (m : ℕ) (hps : List HeapPage) (page : ℕ)
    → max_page_num m hps < page
    → (find_page hps page ≡ none) × (m < page)
unfolding max_page_num find_page
max_page_num-find_page m [] page h = (refl, h)
max_page_num-find_page m (x ∷ hps) page h =
    let (rest, above) = max_page_num-find_page (if ltb m x.page then x.page else m) hps page h in
    let apart : (x.page == page) ≡ false = ground arith in
    (rw (apart, find_page) rest, ground arith)

pub space_max-page_bytes :
    (m : ℕ) (space : Space) (page : ℕ)
    → space_max m space < page
    → (page_bytes space page ≡ none) × (m < page)
unfolding space_max page_bytes
space_max-page_bytes m [] page h = (refl, h)
space_max-page_bytes m ((p, bytes) ∷ space) page h =
    let (rest, above) = space_max-page_bytes (if ltb m p then p else m) space page h in
    let apart : (p == page) ≡ false = ground arith in (rw (apart, page_bytes) rest, ground arith)

pub find_page-append :
    (hps : List HeapPage) (page n : ℕ)
    → find_page hps page ≡ none
    → find_page (hps ++ (record { page = page; free_space = n } ∷ [])) page
      ≡ some (record { page = page; free_space = n })
unfolding find_page
find_page-append [] page n h = rw ==_refl
find_page-append (x ∷ hps) page n h = ground (arith, find_page-append hps page n)

pub page_bytes-append :
    (space : Space) (page : ℕ) (bytes : List ℕ)
    → page_bytes space page ≡ none
    → page_bytes (space ++ ((page, bytes) ∷ [])) page ≡ some bytes
unfolding page_bytes
page_bytes-append [] page bytes h = rw ==_refl
page_bytes-append ((p, x) ∷ space) page bytes h = ground (arith, page_bytes-append space page bytes)

pub page_bytes-append_other :
    (space : Space) (page q : ℕ) (bytes : List ℕ)
    → page ≢ q
    → page_bytes space q ≡ none
    → page_bytes (space ++ ((page, bytes) ∷ [])) q ≡ none
unfolding page_bytes
page_bytes-append_other [] page q bytes ne h = rw (==-eq-false page q ne)
page_bytes-append_other ((p, x) ∷ space) page q bytes ne h =
    ground (arith, page_bytes-append_other space page q bytes)

pub write_metadata-past :
    (space : Space) (page offset : ℕ) (m : HeapMetadata) (bytes : List ℕ)
    → page_bytes space page ≡ some bytes
    → length bytes < offset + 8
    → page_bytes space (page + 1) ≡ none
    → write_metadata space page offset m ≡ none
unfolding write_metadata
write_metadata-past space page offset m bytes here past next =
    let e : leb (offset + 8) (length bytes) ≡ false = ground arith in
    rw (here, e, next, write_metadata)
