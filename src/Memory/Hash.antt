-- ===== src/Memory/Hash.antt =====
-- Memory/src/functions/hash_function.c: the four hash functions of the page table.
use Prim.Native.Nat.{bit_xor}
use socketapp.Common.{ℕ, ◌+◌, ◌*◌, ◌/◌, ◌%◌, ◌^◌, List, [], ◌∷◌, ◌++◌, word}
use socketapp.Memory.Config.{MemoryConfig}

-- The bytes of a 32-bit word as they stand in memory, the least significant first.
unfoldable pub word_bytes : ℕ → List ℕ
word_bytes w = w % 256 ∷ w / 2 ^ 8 % 256 ∷ w / 2 ^ 16 % 256 ∷ w / 2 ^ 24 % 256 ∷ []

unfoldable pub pid_page_to_char : ℕ → ℕ → List ℕ
unfolding word_bytes
pid_page_to_char pid page = word_bytes pid ++ word_bytes page

unfoldable pub xor_loop : ℕ → List ℕ → ℕ
xor_loop hash [] = hash
xor_loop hash (p ∷ ps) = xor_loop (bit_xor hash p) ps

unfoldable pub xor_hash : ℕ → ℕ → ℕ
unfolding xor_loop pid_page_to_char
xor_hash pid page = xor_loop 0 (pid_page_to_char pid page)

unfoldable pub rot_loop : ℕ → List ℕ → ℕ
rot_loop hash [] = hash
rot_loop hash (p ∷ ps) = rot_loop (bit_xor (bit_xor (hash * 2 ^ 4 % word) (hash / 2 ^ 28)) p) ps

unfoldable pub rot_hash : ℕ → ℕ → ℕ
unfolding rot_loop pid_page_to_char
rot_hash pid page = rot_loop 0 (pid_page_to_char pid page)

-- `*` binds tighter than `^`.
unfoldable pub bernstein_loop : ℕ → List ℕ → ℕ
bernstein_loop hash [] = hash
bernstein_loop hash (p ∷ ps) = bernstein_loop (bit_xor (33 * hash % word) p) ps

unfoldable pub bernstein_hash : ℕ → ℕ → ℕ
unfolding bernstein_loop pid_page_to_char
bernstein_hash pid page = bernstein_loop 0 (pid_page_to_char pid page)

-- `count` is `proccessPageCount`.
unfoldable pub ayudante_hash : MemoryConfig → ℕ → ℕ → ℕ → ℕ
ayudante_hash config count pid page = (pid * count + page * config.frame_size) % word / count
