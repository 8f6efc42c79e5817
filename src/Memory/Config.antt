-- ===== src/Memory/Config.antt =====
-- The configuration of Memory/src/commons/structures.h and the sizes that follow from it.
use socketapp.Common.{ℕ, ◌+◌, ◌-◌, ◌/◌, ◌%◌, ◌^◌, word, ltb, if◌then◌else◌}

-- `t_memory`, without the port and the response delay.
pub record MemoryConfig : Type 0 where
  pub frame_count : ℕ
  pub frame_size : ℕ
  pub cache_entry_count : ℕ
  pub cache_per_process : ℕ

-- On an `int`: from 2 ^ 31 on the count is negative, and so are the quotient and the rest.
unfoldable pub bytes_to_pages : MemoryConfig → ℕ → ℕ
bytes_to_pages config byte_count =
    let full_pages = byte_count / config.frame_size in
    let negative_pages = (word - (word - byte_count) / config.frame_size) % word in
    if ltb byte_count (2 ^ 31)
    then (if ltb 0 (byte_count % config.frame_size) then full_pages + 1 else full_pages)
    else negative_pages
