-- ===== src/Memory/Ram/Request.antt =====
-- `ram_program_init` and `ram_get_pages` of ram.c: a request for pages.
use socketapp.Common.{
  ℕ, zero, suc, ◌+◌, ◌-◌, ◌%◌, ◌≤◌, ◌<◌, ◌≡◌, ◌≢◌, ◌⊎◌, some, List, [], ◌∷◌, arith, word, neg,
  get_elem?,
}
use native.Mathlib.Nat.{mod-eq_of_lt}
use socketapp.Memory.Ram.{
  PageTableEntry, Ram, frame_count, page_max_first, process_page_max, error_no_pages_for_process,
  ram_get_pages_for_process, ram_get_pages,
}
use socketapp.Memory.Ram.Valid.{entry_of, Maps, IsValid, IsValidWith}
use socketapp.Memory.Ram.Insert.{insert_pages-Allocated}

-- The request for the `n` pages of `pid` from `start` on took `ram` to `ram'`.
pub record Granted (ram ram' : Ram) (pid start n : ℕ) : Type 0 where
  pub valid : IsValid ram'
  pub pool : ram'.free_frame_count + n ≡ ram.free_frame_count
  pub same_count : ram'.process_page_count ≡ ram.process_page_count
  pub same_frames : ram'.frames ≡ ram.frames
  pub kept : (p q j : ℕ) → p ≢ neg 1 → Maps ram p q j → Maps ram' p q j
  pub added : (q : ℕ) → start ≤ q → q < start + n → (j : ℕ) × Maps ram' pid q j
  pub nothing_else :
      (p q j : ℕ)
      → p ≢ neg 1
      → Maps ram' p q j
      → Maps ram p q j ⊎ ((p ≡ pid) × (start ≤ q) × (q < start + n))

-- The maximum of the loop bounds what it starts with and the pages of the process.
page_max_first-ge :
    (pid n : ℕ) (table : List PageTableEntry) (m : ℕ) → m ≤ page_max_first pid n table m
unfolding page_max_first
page_max_first-ge pid zero table m = omega arith
page_max_first-ge pid (suc n) [] m = omega arith
page_max_first-ge pid (suc n) (entry ∷ table) m =
    ground (arith, page_max_first-ge pid n table m, page_max_first-ge pid n table entry.page)

page_max_first-bounds :
    (pid n : ℕ) (table : List PageTableEntry) (m i q : ℕ)
    → i < n
    → get_elem? table i ≡ some (entry_of pid q)
    → q ≤ page_max_first pid n table m
unfolding page_max_first
page_max_first-bounds pid zero table m i q h get = elim h [ ]
page_max_first-bounds pid (suc n) [] m i q h get = absurd (ground arith)
page_max_first-bounds pid (suc n) (entry ∷ table) m zero q h get =
    ground (arith, page_max_first-ge pid n table m, page_max_first-ge pid n table entry.page)
page_max_first-bounds pid (suc n) (entry ∷ table) m (suc i) q h get =
    page_max_first-bounds pid n table _ i q (omega arith) get

-- No page of a process has a number above `proccess_page_max`.
pub page-le-process_page_max :
    (ram : Ram) (pid q i : ℕ) → Maps ram pid q i → q ≤ process_page_max ram pid
unfolding process_page_max
page-le-process_page_max ram pid q i m =
    page_max_first-bounds pid ram.process_page_count ram.page_table 0 i q m.0 m.1

-- The memory after `n` frames left the pool.
abbrev taken : Ram → ℕ → Ram
taken ram n = record ram { free_frame_count = ram.free_frame_count - n }

taken-IsValidWith :
    {ram : Ram} (n : ℕ) → n ≤ ram.free_frame_count → IsValid ram → IsValidWith (n + 0) (taken ram n)
unfolding frame_count
taken-IsValidWith n le v = record {
  bounded = v.bounded;
  nonempty = v.nonempty;
  small = v.small;
  framed = v.framed;
  counted = omega (arith, v.counted);
  distinct = v.distinct;
}

module _ (hash : ℕ → ℕ → ℕ) {ram : Ram} (pid n start : ℕ) (v : IsValid ram) (np : pid ≢ neg 1)
    (small : start + n < word) where
  -- A request for `n` pages from number `start` on, none of which the process has: with fewer
  -- free frames than that it answers ERROR_NO_PAGES_FOR_PROCESS and changes nothing; otherwise it
  -- ends, answers 0, takes `n` frames from the pool, gives each of the `n` pages a frame, leaves
  -- every other page of every process where it was, and keeps the page table well-formed.
  pub ram_get_pages_for_process-Granted :
      ((q i : ℕ) → start ≤ q → q < start + n → ¬ (Maps ram pid q i))
      → (ram.free_frame_count < n
          → ram_get_pages_for_process hash ram pid n start ≡ some (error_no_pages_for_process, ram))
        × (n ≤ ram.free_frame_count
            → (ram' : Ram) × (ram_get_pages_for_process hash ram pid n start ≡ some (0, ram'))
              × Granted ram ram' pid start n)
  unfolding ram_get_pages_for_process
  ram_get_pages_for_process-Granted fresh = (λ few. ground arith, granted)
    where
      granted :
          n ≤ ram.free_frame_count
          → (ram' : Ram) × (ram_get_pages_for_process hash ram pid n start ≡ some (0, ram'))
            × Granted ram ram' pid start n
      granted enough =
          let (ram', run, valid, a) =
            insert_pages-Allocated hash n 0 (taken ram n) pid start np small fresh
              (taken-IsValidWith n enough v) in
          (
            ram',
            ground (arith, run),
            record {
              valid = valid;
              pool = omega (arith, a.same_free);
              same_count = a.same_count;
              same_frames = a.same_frames;
              kept = a.kept;
              added = a.added;
              nothing_else = a.nothing_else;
            },
          )

module _ (hash : ℕ → ℕ → ℕ) {ram : Ram} (pid n : ℕ) (v : IsValid ram) (np : pid ≢ neg 1)
    (small : process_page_max ram pid + 1 + n < word) where
  -- `ram_get_pages` needs no such promise: the pages that it adds start right above the highest
  -- page of the process, so none of them is there before. (The page numbers stay below 2 ^ 32.)
  pub ram_get_pages-Granted :
      (ram.free_frame_count < n
        → ram_get_pages hash ram pid n ≡ some (error_no_pages_for_process, ram))
      × (n ≤ ram.free_frame_count
          → (ram' : Ram) × (ram_get_pages hash ram pid n ≡ some (0, ram'))
            × Granted ram ram' pid (process_page_max ram pid + 1) n)
  unfolding ram_get_pages
  ram_get_pages-Granted =
      let start = process_page_max ram pid + 1 in
      let wrap : start % word ≡ start = mod-eq_of_lt (omega arith) in
      rw wrap (
        ram_get_pages_for_process-Granted hash pid n start v np small
          (λ q i lo hi m. omega (arith, page-le-process_page_max ram pid q i m)))
