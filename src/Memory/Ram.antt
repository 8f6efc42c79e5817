-- ===== src/Memory/Ram.antt =====
-- Memory/src/functions/ram.c and frame.c: the page table, a hash table with linear probing whose
-- slot number is the number of the frame, and the pool of free frames.
pub mod Probe
pub mod Count
pub mod Valid
pub mod Insert
pub mod Request
pub mod Release
pub mod Init
use socketapp.Common.{
  ℕ, zero, suc, ◌+◌, ◌-◌, ◌*◌, ◌%◌, Bool, true, false, not, ◌&&◌, Option, none, some, List, [], ◌∷◌,
  word, neg, ltb, ◌==◌, if◌then◌else◌, get_elem?, set, replicate, length, to_nat,
}
use socketapp.Memory.Config.{MemoryConfig, bytes_to_pages}

-- `t_pageTableEntry` without its lock. A free frame has the pattern of -1 in both fields.
pub record PageTableEntry : Type 0 where
  pub pid : ℕ
  pub page : ℕ

abbrev pub free_entry : PageTableEntry
free_entry = record { pid = neg 1; page = neg 1 }

abbrev pub is_frame_free : PageTableEntry → Bool
is_frame_free entry = entry.pid == neg 1

abbrev pub is_frame_occupied : PageTableEntry → Bool
is_frame_occupied entry = not (entry.pid == neg 1)

abbrev pub entry_has_pid_page : ℕ → ℕ → PageTableEntry → Bool
entry_has_pid_page pid page entry = (entry.pid == pid) && (entry.page == page)

-- The globals of declarations.h. `frames` is the block at `proccessPages`, cut at the frames, and
-- a `char*` that `get_frame` returns is the number of the frame.
pub record Ram : Type 0 where
  pub page_table : List PageTableEntry
  pub process_page_count : ℕ
  pub free_frame_count : ℕ
  pub frames : List (List ℕ)

abbrev pub error_no_pages_for_process : ℕ
error_no_pages_for_process = neg 9

abbrev pub sizeof_page_table_entry : ℕ
sizeof_page_table_entry = 12

-- `block` is what `malloc` left in the frames.
unfoldable pub ram_init : MemoryConfig → List (List ℕ) → Ram
ram_init config block =
    let admin_size_in_bytes = sizeof_page_table_entry * config.frame_count % word in
    let admin_size_in_pages = bytes_to_pages config admin_size_in_bytes in
    let count = (config.frame_count + word - admin_size_in_pages) % word in
    record {
      page_table = replicate config.frame_count free_entry;
      process_page_count = count;
      free_frame_count = count;
      frames = block;
    }

-- The loop of both searches: from `index` on, round at `count`, until an entry passes the test;
-- `none` when the rounds are used up (or an index lies outside the table).
unfoldable pub probe : (PageTableEntry → Bool) → List PageTableEntry → ℕ → ℕ → ℕ → Option ℕ
probe test table count zero index = none
probe test table count (suc rounds) index = elim (get_elem? table index) [
  | none ↦ none
  | some entry ↦
      let rest = probe test table count rounds ((index + 1) % count) in
      if test entry then some index else rest
]

-- `frame_count`, over the first `n` entries of the table.
unfoldable pub count_first : (PageTableEntry → Bool) → ℕ → List PageTableEntry → ℕ
count_first test zero table = 0
count_first test (suc n) [] = 0
count_first test (suc n) (entry ∷ table) = to_nat (test entry) + count_first test n table

unfoldable pub frame_count : (PageTableEntry → Bool) → Ram → ℕ
frame_count test ram = count_first test ram.process_page_count ram.page_table

-- `proccess_page_max`; the comparison of `int` and `size_t` is one of `size_t`.
unfoldable pub page_max_first : ℕ → ℕ → List PageTableEntry → ℕ → ℕ
page_max_first pid zero table page_max = page_max
page_max_first pid (suc n) [] page_max = page_max
page_max_first pid (suc n) (entry ∷ table) page_max =
    page_max_first pid n table
      (if (entry.pid == pid) && ltb page_max entry.page then entry.page else page_max)

unfoldable pub process_page_max : Ram → ℕ → ℕ
process_page_max ram pid = page_max_first pid ram.process_page_count ram.page_table 0

-- The loop of `ram_program_end`: the cleared table and the number of frames given back.
unfoldable pub clear_first : ℕ → ℕ → List PageTableEntry → List PageTableEntry
clear_first pid zero table = table
clear_first pid (suc n) [] = []
clear_first pid (suc n) (entry ∷ table) =
    (if entry.pid == pid then free_entry else entry) ∷ clear_first pid n table

unfoldable pub ram_program_end : Ram → ℕ → Ram
ram_program_end ram pid =
    let page_count =
      count_first (λ entry. entry.pid == pid) ram.process_page_count ram.page_table in
    record ram {
      page_table = clear_first pid ram.process_page_count ram.page_table;
      free_frame_count = (ram.free_frame_count + page_count) % word;
    }

-- `hash` is the global function pointer, `ayudante_hash` where nothing sets it.
module _ (hash : ℕ → ℕ → ℕ) where
  -- `none`: the loop never ends.
  unfoldable pub insert_process_page : Ram → ℕ → ℕ → Option (ℕ × Ram)
  insert_process_page ram pid page =
      let count = ram.process_page_count in
      elim (probe is_frame_free ram.page_table count count (hash pid page % count)) [
        | none ↦ none
        | some index ↦ some (
          index,
          record ram { page_table = set ram.page_table index (record { pid = pid; page = page }) },
        )
      ]

  -- The `for` loop: `n` rounds from page `page` on.
  unfoldable pub insert_pages : ℕ → Ram → ℕ → ℕ → Option Ram
  insert_pages zero ram pid page = some ram
  insert_pages (suc n) ram pid page = elim (insert_process_page ram pid page) [
    | none ↦ none
    | some (index, ram') ↦ insert_pages n ram' pid ((page + 1) % word)
  ]

  -- The status and the new memory; `none`: a search for a free frame never ends.
  unfoldable pub ram_get_pages_for_process : Ram → ℕ → ℕ → ℕ → Option (ℕ × Ram)
  ram_get_pages_for_process ram pid page_count start_page =
      if ltb ram.free_frame_count page_count
      then some (error_no_pages_for_process, ram)
      else elim (insert_pages page_count
          (record ram { free_frame_count = ram.free_frame_count - page_count }) pid start_page) [
            | none ↦ none
            | some ram' ↦ some (0, ram')
          ]

  unfoldable pub ram_program_init : Ram → ℕ → ℕ → Option (ℕ × Ram)
  ram_program_init ram pid page_count = ram_get_pages_for_process ram pid page_count 0

  unfoldable pub ram_get_pages : Ram → ℕ → ℕ → Option (ℕ × Ram)
  ram_get_pages ram pid page_count =
      ram_get_pages_for_process ram pid page_count ((process_page_max ram pid + 1) % word)

  -- The frame's index and `*result`.
  unfoldable pub ram_frame_index_lookup : Ram → ℕ → ℕ → ℕ × ℕ
  ram_frame_index_lookup ram pid page =
      let count = ram.process_page_count in
      elim (probe (entry_has_pid_page pid page) ram.page_table count count
        (hash pid page % count)) [ some index ↦ (index, 0) | none ↦ (count, neg 1) ]

  unfoldable pub ram_frame_lookup : Ram → ℕ → ℕ → Option ℕ
  ram_frame_lookup ram pid page =
      let (frame_index, result) = ram_frame_index_lookup ram pid page in
      if result == 0 then some frame_index else none

  unfoldable pub ram_free_page : Ram → ℕ → ℕ → ℕ × Ram
  ram_free_page ram pid page =
      let (frame_index, result) = ram_frame_index_lookup ram pid page in
      if result == 0
      then (
        result,
        record ram {
          page_table = set ram.page_table frame_index free_entry;
          free_frame_count = (ram.free_frame_count + 1) % word;
        },
      )
      else (result, ram)
