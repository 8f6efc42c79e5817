-- ===== src/Memory/Ram/Count.antt =====
-- `frame_count` of ram.c under writes to the page table.
use socketapp.Common.{
  ℕ, zero, suc, ◌+◌, ◌≤◌, ◌<◌, ◌≡◌, refl, inl, inr, Bool, true, some, List, [], ◌∷◌, arith, to_nat,
  get_elem?, set, Bool-cases,
}
use socketapp.Memory.Ram.{PageTableEntry, count_first}

module _ (test : PageTableEntry → Bool) where
  pub count_first-set :
      (n : ℕ) (table : List PageTableEntry) (i : ℕ) (old new : PageTableEntry)
      → i < n
      → get_elem? table i ≡ some old
      → count_first test n (set table i new) + to_nat (test old)
        ≡ count_first test n table + to_nat (test new)
  unfolding count_first
  count_first-set zero table i old new h get = elim h [ ]
  count_first-set (suc n) [] i old new h get = absurd (ground arith)
  count_first-set (suc n) (x ∷ table) zero old new h get = ground arith
  count_first-set (suc n) (x ∷ table) (suc i) old new h get =
      omega (arith, count_first-set n table i old new (omega arith) get)

  pub count_first-pos :
      (n : ℕ) (table : List PageTableEntry)
      → 0 < count_first test n table
      → (i : ℕ) × (i < n)
        × (entry : PageTableEntry) × (get_elem? table i ≡ some entry)
        × (test entry ≡ true)
  unfolding count_first
  count_first-pos zero table h = absurd (omega arith)
  count_first-pos (suc n) [] h = absurd (omega arith)
  count_first-pos (suc n) (x ∷ table) h = elim (Bool-cases (test x)) [
    | inl e ↦ (0, omega arith, x, refl, e)
    | inr e ↦
        let (i, lt, entry, get, ok) = count_first-pos n table (ground arith) in
        (suc i, omega arith, entry, get, ok)
  ]

  pub count_first-le : (n : ℕ) (table : List PageTableEntry) → count_first test n table ≤ n
  unfolding count_first
  count_first-le zero table = omega arith
  count_first-le (suc n) [] = omega arith
  count_first-le (suc n) (x ∷ table) = ground (arith, count_first-le n table)
