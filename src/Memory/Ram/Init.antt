-- ===== src/Memory/Ram/Init.antt =====
-- `ram_init` of ram.c and `bytes_to_pages` of utils.c: the administrative pages.
use socketapp.Common.{
  ltb, true, ◌^◌, ℕ, zero, suc, ◌+◌, ◌-◌, ◌*◌, ◌%◌, ◌≤◌, ◌<◌, ◌≡◌, ◌≢◌, refl, List, arith, word,
  neg, length, replicate, length-replicate, get_elem?-replicate,
}
use native.Mathlib.Nat.{div-add-mod, mod-lt}
use socketapp.Memory.Config.{MemoryConfig, bytes_to_pages}
use socketapp.Memory.Ram.{
  Ram, free_entry, is_frame_free, count_first, frame_count, sizeof_page_table_entry, ram_init,
}
use socketapp.Memory.Ram.Valid.{Maps, IsValid}

-- `bytes_to_pages` answers the least number of pages that hold the bytes.
pub bytes_to_pages-covers :
    (config : MemoryConfig) (n : ℕ)
    → 0 < config.frame_size
    → n < 2 ^ 31
    → (n ≤ bytes_to_pages config n * config.frame_size)
      × (bytes_to_pages config n * config.frame_size < n + config.frame_size)
unfolding bytes_to_pages
bytes_to_pages-covers config n pos small =
    let positive : ltb n (2 ^ 31) ≡ true = ground arith in
    let law = div-add-mod n config.frame_size in
    let rest : n % config.frame_size < config.frame_size = mod-lt n pos in
    rw positive (grind arith, grind arith)

count_first-replicate : (n m : ℕ) → n ≤ m → count_first is_frame_free n (replicate m free_entry) ≡ n
unfolding count_first
count_first-replicate zero m h = refl
count_first-replicate (suc n) zero h = absurd (omega arith)
count_first-replicate (suc n) (suc m) h = omega (arith, count_first-replicate n m (omega arith))

-- The page table with nothing in it.
abbrev fresh : ℕ → List (List ℕ) → Ram
fresh m block = record {
  page_table = replicate m free_entry;
  process_page_count = length block;
  free_frame_count = length block;
  frames = block;
}

fresh_unmapped :
    (m : ℕ) (block : List (List ℕ))
    → length block ≤ m
    → (pid page i : ℕ) → pid ≢ neg 1
    → ¬ (Maps (fresh m block) pid page i)
fresh_unmapped m block le pid page i np h =
    let there = get_elem?-replicate m i free_entry (omega arith) in np (ground arith)

fresh-IsValid :
    (m : ℕ) (block : List (List ℕ))
    → 0 < length block
    → length block ≤ m
    → m < word
    → IsValid (fresh m block)
unfolding frame_count
fresh-IsValid m block pos le small = record {
  bounded = rw length-replicate le;
  nonempty = pos;
  small = omega arith;
  framed = refl;
  counted = omega (arith, count_first-replicate (length block) m le);
  distinct = λ pid page i j np h k. absurd (fresh_unmapped m block le pid page i np h);
}

-- After the start, with frames of some bytes, a table of less than 2 ^ 31 bytes, room for at least one page
-- of a process behind the administrative pages and the block cut into that many frames, the page table is well-formed and maps nothing, every
-- frame is in the pool, and the pages of the processes begin behind the last byte of the table.
pub ram_init-IsValid :
    (config : MemoryConfig) (block : List (List ℕ))
    → 0 < config.frame_size
    → sizeof_page_table_entry * config.frame_count < 2 ^ 31
    → bytes_to_pages config (sizeof_page_table_entry * config.frame_count) < config.frame_count
    → length block + bytes_to_pages config (sizeof_page_table_entry * config.frame_count)
      ≡ config.frame_count
    → let ram = ram_init config block in
      IsValid ram
      × (ram.free_frame_count ≡ length block)
      × ((pid page i : ℕ) → pid ≢ neg 1 → ¬ (Maps ram pid page i))
      × (sizeof_page_table_entry * length ram.page_table
          ≤ bytes_to_pages config (sizeof_page_table_entry * config.frame_count)
            * config.frame_size)
unfolding ram_init
ram_init-IsValid config block pos small room cut =
    let exact : sizeof_page_table_entry * config.frame_count % word
        ≡ sizeof_page_table_entry * config.frame_count =
      omega arith in
    let admin = bytes_to_pages config (sizeof_page_table_entry * config.frame_count) in
    let count : (config.frame_count + word - admin) % word ≡ length block = omega arith in
    rw (exact, count)
      (
        fresh-IsValid config.frame_count block (omega arith) (omega arith) (omega arith),
        refl,
        fresh_unmapped config.frame_count block (omega arith),
        rw length-replicate (bytes_to_pages-covers config _ pos small).0,
      )
