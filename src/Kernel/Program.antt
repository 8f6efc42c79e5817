-- ===== src/Kernel/Program.antt =====
-- The data of the heap of a process: t_program, its list heapPages, and what a heap function results in.
use socketapp.Common.{ℕ, ◌-◌, Option, none, some, List, [], ◌∷◌, neg, ltb, ◌==◌, if◌then◌else◌}
use socketapp.Kernel.Space.{Space}

-- `t_heap_page`
pub record HeapPage : Type 0 where
  pub page : ℕ
  pub free_space : ℕ

-- What the heap functions use of `t_program`: the pages that Memory has, `heapPages`,
-- `interruptionCode` and `stats.bytesFree`.
pub record Program : Type 0 where
  pub space : Space
  pub heap_pages : List HeapPage
  pub interruption_code : ℕ
  pub bytes_free : ℕ

-- A function returns, ends the Kernel (by `exit(EXIT_FAILURE)` or at a null pointer), or never
-- returns.
pub data Run {ℓ} (A : Type ℓ) : Type ℓ where
  ok : A → Run A
  exits : Run A
  diverges : Run A

abbrev pub error_memory : ℕ
error_memory = neg 5

-- What Memory answers to the request for one page: a refusal with its code, or the bytes of the
-- page, which gets the number behind the highest page of the process.
pub data Grant : Type 0 where
  refused : ℕ → Grant
  granted : List ℕ → Grant

-- `list_find` by the number of the page.
unfoldable pub find_page : List HeapPage → ℕ → Option HeapPage
find_page [] page = none
find_page (hp ∷ hps) page = if hp.page == page then some hp else find_page hps page

-- A write of `freeSpace` through the pointer that `list_find` answers.
unfoldable pub set_free_space : List HeapPage → ℕ → ℕ → List HeapPage
set_free_space [] page n = []
set_free_space (hp ∷ hps) page n =
    if hp.page == page then record hp { free_space = n } ∷ hps else hp ∷ set_free_space hps page n

unfoldable pub max_page_num : ℕ → List HeapPage → ℕ
max_page_num max [] = max
max_page_num max (hp ∷ hps) = max_page_num (if ltb max hp.page then hp.page else max) hps

-- `first` is `cantPagsCodigo + stack_size`, the number of pages before the heap.
unfoldable pub heap_max_page_num : ℕ → Program → ℕ
heap_max_page_num first program = max_page_num (first - 1) program.heap_pages

-- The highest page that Memory has for the process; a new page gets the next number.
unfoldable pub space_max : ℕ → Space → ℕ
space_max max [] = max
space_max max ((p, bytes) ∷ space) = space_max (if ltb max p then p else max) space
