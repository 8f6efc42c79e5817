-- ===== src/Tests/Ram.antt =====
-- Memory: a table of three frames, two of which belong to process 1.
use socketapp.Common.{
  ℕ, zero, suc, ◌+◌, ◌*◌, ◌≤◌, ◌<◌, ◌≡◌, ◌≢◌, ◌↔◌, refl, none, some, List, [], ◌∷◌, arith, word,
  neg, length, replicate,
}
use socketapp.Memory.Config.{MemoryConfig, bytes_to_pages}
use socketapp.Memory.Ram.{
  Ram, free_entry, count_first, frame_count, ram_init, ram_frame_lookup, probe, ram_get_pages,
  ram_get_pages_for_process, ram_program_end, ram_free_page, insert_pages, insert_process_page,
  page_max_first, process_page_max, error_no_pages_for_process,
}
use socketapp.Memory.Ram.Valid.{entry_of, Maps, IsValid, lookup_iff}
use socketapp.Memory.Ram.Request.{Granted, ram_get_pages_for_process-Granted, ram_get_pages-Granted}
use socketapp.Memory.Ram.Release.{freed, owned_by, ram_program_end-IsValid, ram_free_page-IsValid}
use socketapp.Memory.Ram.Init.{ram_init-IsValid}

abbrev pub by_page : ℕ → ℕ → ℕ
by_page pid page = page

abbrev pub sample : Ram
sample = record {
  page_table = entry_of 1 0 ∷ entry_of 1 1 ∷ free_entry ∷ [];
  process_page_count = 3;
  free_frame_count = 1;
  frames = (10 ∷ 11 ∷ 12 ∷ 13 ∷ []) ∷ (20 ∷ 21 ∷ 22 ∷ 23 ∷ []) ∷ (0 ∷ 0 ∷ 0 ∷ 0 ∷ []) ∷ [];
}

pub sample-Maps :
    (pid page i : ℕ) → pid ≢ neg 1 → Maps sample pid page i → (pid ≡ 1) × (page ≡ i) × (i < 2)
sample-Maps pid page zero np m = ground arith
sample-Maps pid page (suc zero) np m = ground arith
sample-Maps pid page (suc (suc zero)) np m = ground arith
sample-Maps pid page (suc (suc (suc i))) np m = ground arith

pub sample-IsValid : IsValid sample
unfolding frame_count count_first
sample-IsValid = record {
  bounded = omega arith;
  nonempty = omega arith;
  small = omega arith;
  framed = refl;
  counted = refl;
  distinct = λ pid page i j np m n.
      omega (arith, sample-Maps pid page i np m, sample-Maps pid page j np n);
}

lookup_iff_example : (ram_frame_lookup by_page sample 1 1 ≡ some 1) ↔ Maps sample 1 1 1
lookup_iff_example = lookup_iff by_page sample 1 1 1 sample-IsValid (omega arith)

request_example :
    (1 < 1
      → ram_get_pages_for_process by_page sample 2 1 0 ≡ some (error_no_pages_for_process, sample))
    × (1 ≤ 1
        → (ram' : Ram) × (ram_get_pages_for_process by_page sample 2 1 0 ≡ some (0, ram'))
          × Granted sample ram' 2 0 1)
request_example =
    ram_get_pages_for_process-Granted by_page 2 1 0 sample-IsValid (omega arith) (omega arith)
      (λ q i lo hi m. omega (arith, sample-Maps 2 q i (omega arith) m))

sample_page_max : process_page_max sample 1 + 1 + 1 < word
unfolding process_page_max page_max_first
sample_page_max = omega arith

get_pages_example :
    (1 < 1 → ram_get_pages by_page sample 1 1 ≡ some (error_no_pages_for_process, sample))
    × (1 ≤ 1
        → (ram' : Ram) × (ram_get_pages by_page sample 1 1 ≡ some (0, ram'))
          × Granted sample ram' 1 (process_page_max sample 1 + 1) 1)
get_pages_example = ram_get_pages-Granted by_page 1 1 sample-IsValid (omega arith) sample_page_max

-- The third page of process 1 gets number 2 and the free frame, past the two that are taken.
get_pages_run :
    ram_get_pages by_page sample 1 1
    ≡ some (
      0,
      record sample {
        page_table = entry_of 1 0 ∷ entry_of 1 1 ∷ entry_of 1 2 ∷ [];
        free_frame_count = 0;
      },
    )
unfolding ram_get_pages ram_get_pages_for_process insert_pages insert_process_page probe
    process_page_max page_max_first
get_pages_run = refl

program_end_example :
    IsValid (ram_program_end sample 1)
    × ((ram_program_end sample 1).free_frame_count ≡ 1 + frame_count (owned_by 1) sample)
    × ((p q j : ℕ)
        → p ≢ neg 1
        → Maps (ram_program_end sample 1) p q j ↔ (Maps sample p q j × (p ≢ 1)))
program_end_example = ram_program_end-IsValid 1 sample-IsValid (omega arith)

free_page_example :
    ((i : ℕ)
      → Maps sample 1 1 i
      → (ram_free_page by_page sample 1 1 ≡ (0, freed sample i))
        × IsValid (freed sample i)
        × ((freed sample i).free_frame_count ≡ 2)
        × (ram_frame_lookup by_page (freed sample i) 1 1 ≡ none)
        × ((p q j : ℕ) → p ≢ neg 1 → Maps (freed sample i) p q j ↔ (Maps sample p q j × (j ≢ i))))
    × (ram_frame_lookup by_page sample 1 1 ≡ none
        → ram_free_page by_page sample 1 1 ≡ (neg 1, sample))
free_page_example = ram_free_page-IsValid 1 1 sample-IsValid (omega arith) by_page

-- Sixteen frames of 32 bytes: six hold the table, ten are left.
abbrev small_config : MemoryConfig
small_config = record {
  frame_count = 16;
  frame_size = 32;
  cache_entry_count = 4;
  cache_per_process = 2;
}

abbrev small_block : List (List ℕ)
small_block = replicate 10 (replicate 32 0)

small_admin : bytes_to_pages small_config 192 ≡ 6
unfolding bytes_to_pages
small_admin = refl

ram_init_example :
    let ram = ram_init small_config small_block in
    IsValid ram
    × (ram.free_frame_count ≡ 10)
    × ((pid page i : ℕ) → pid ≢ neg 1 → ¬ (Maps ram pid page i))
    × (12 * length ram.page_table ≤ bytes_to_pages small_config 192 * 32)
ram_init_example =
    ram_init-IsValid small_config small_block (omega arith) (omega arith)
      (omega (arith, small_admin)) (omega (arith, small_admin))
