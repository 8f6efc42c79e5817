-- ===== src/Memory/Ram/Release.antt =====
-- `ram_program_end` and `ram_free_page` of ram.c: frames that go back to the pool.
use socketapp.Common.{
  ℕ, zero, suc, ◌+◌, ◌%◌, ◌<◌, ◌≡◌, ◌≢◌, ◌↔◌, refl, sym, ap, ◌∙◌, inl, inr, Bool, none, some, List,
  [], ◌∷◌, arith, word, neg, ◌==◌, if◌then◌else◌, get_elem?, set, length, get_elem?_of_lt,
  lt_of_get_elem?, get_elem?-set_self, get_elem?-set_ne, length-set, Option-cases,
}
use native.Mathlib.Decide.{ℕ_discrete}
use socketapp.Memory.Ram.{
  PageTableEntry, Ram, free_entry, is_frame_free, count_first, frame_count, clear_first,
  ram_program_end, ram_free_page, ram_frame_lookup,
}
use socketapp.Memory.Ram.Count.{count_first-set, count_first-le}
use socketapp.Memory.Ram.Valid.{
  entry_of, Maps, IsDistinct, IsValid, lookup_iff, lookup-Maps, ram_frame_index_lookup_of_some,
  ram_frame_index_lookup_of_none,
}

abbrev pub owned_by : ℕ → PageTableEntry → Bool
owned_by pid entry = entry.pid == pid

abbrev cleared : ℕ → PageTableEntry → PageTableEntry
cleared pid entry = if entry.pid == pid then free_entry else entry

length-clear_first :
    (pid n : ℕ) (table : List PageTableEntry) → length (clear_first pid n table) ≡ length table
unfolding clear_first
length-clear_first pid zero table = refl
length-clear_first pid (suc n) [] = refl
length-clear_first pid (suc n) (x ∷ table) = ap suc (length-clear_first pid n table)

get_elem?-clear_first :
    (pid n : ℕ) (table : List PageTableEntry) (i : ℕ) (entry : PageTableEntry)
    → i < n
    → get_elem? table i ≡ some entry
    → get_elem? (clear_first pid n table) i ≡ some (cleared pid entry)
unfolding clear_first
get_elem?-clear_first pid zero table i entry h get = elim h [ ]
get_elem?-clear_first pid (suc n) [] i entry h get = absurd (ground arith)
get_elem?-clear_first pid (suc n) (x ∷ table) zero entry h get = ground arith
get_elem?-clear_first pid (suc n) (x ∷ table) (suc i) entry h get =
    get_elem?-clear_first pid n table i entry (omega arith) get

-- Clearing adds the entries of the process to the free ones.
count_first-clear_first :
    (pid n : ℕ) (table : List PageTableEntry)
    → pid ≢ neg 1
    → count_first is_frame_free n (clear_first pid n table)
      ≡ count_first is_frame_free n table + count_first (owned_by pid) n table
unfolding count_first clear_first
count_first-clear_first pid zero table np = omega arith
count_first-clear_first pid (suc n) [] np = omega arith
count_first-clear_first pid (suc n) (x ∷ table) np =
    ground (arith, count_first-clear_first pid n table np)

module _ {ram : Ram} (pid : ℕ) (v : IsValid ram) (np : pid ≢ neg 1) where
  program_end-Maps :
      (p q j : ℕ) → p ≢ neg 1 → Maps (ram_program_end ram pid) p q j ↔ (Maps ram p q j × (p ≢ pid))
  unfolding ram_program_end
  program_end-Maps p q j h = (forth, back)
    where
      forth : Maps (ram_program_end ram pid) p q j → Maps ram p q j × (p ≢ pid)
      forth m =
          let (entry, get) = get_elem?_of_lt ram.page_table j (omega (arith, v.bounded, m.0)) in
          let after =
            get_elem?-clear_first pid ram.process_page_count ram.page_table j entry m.0 get in
          (ground arith, ground arith)

      back : Maps ram p q j × (p ≢ pid) → Maps (ram_program_end ram pid) p q j
      back (m, ne) = (
        m.0,
        get_elem?-clear_first pid ram.process_page_count ram.page_table j (entry_of p q) m.0 m.1
            ∙ ground arith,
      )

  program_end-count :
      (ram_program_end ram pid).free_frame_count
      ≡ frame_count is_frame_free (ram_program_end ram pid)
  unfolding ram_program_end frame_count
  program_end-count =
      let n = ram.process_page_count in
      let sum = count_first-clear_first pid n ram.page_table np in
      let bound = count_first-le is_frame_free n (clear_first pid n ram.page_table) in
      let start = v.counted in omega (arith, v.small)

  program_end-pool :
      (ram_program_end ram pid).free_frame_count
      ≡ ram.free_frame_count + frame_count (owned_by pid) ram
  unfolding ram_program_end frame_count
  program_end-pool =
      let n = ram.process_page_count in
      let sum = count_first-clear_first pid n ram.page_table np in
      let bound = count_first-le is_frame_free n (clear_first pid n ram.page_table) in
      let start = v.counted in omega (arith, v.small)

  program_end-IsDistinct : IsDistinct (ram_program_end ram pid)
  program_end-IsDistinct p q i j h m n =
      v.distinct p q i j h ((program_end-Maps p q i h).0 m).0 ((program_end-Maps p q j h).0 n).0

  program_end-IsValid : IsValid (ram_program_end ram pid)
  unfolding ram_program_end
  program_end-IsValid = record {
    bounded = rw length-clear_first v.bounded;
    nonempty = v.nonempty;
    small = v.small;
    framed = v.framed;
    counted = omega (arith, program_end-count);
    distinct = program_end-IsDistinct;
  }

  -- The end of a process keeps the page table well-formed, gives every frame of the process back
  -- to the pool, and leaves the frames of every other process alone.
  pub ram_program_end-IsValid :
      IsValid (ram_program_end ram pid)
      × ((ram_program_end ram pid).free_frame_count
          ≡ ram.free_frame_count + frame_count (owned_by pid) ram)
      × ((p q j : ℕ)
          → p ≢ neg 1
          → Maps (ram_program_end ram pid) p q j ↔ (Maps ram p q j × (p ≢ pid)))
  ram_program_end-IsValid = (program_end-IsValid, program_end-pool, program_end-Maps)

-- The memory after frame `i` went back to the pool.
abbrev pub freed : Ram → ℕ → Ram
freed ram i = record ram {
  page_table = set ram.page_table i free_entry;
  free_frame_count = (ram.free_frame_count + 1) % word;
}

module _ {ram : Ram} (pid page : ℕ) (v : IsValid ram) (np : pid ≢ neg 1) where
  freed-Maps :
      (i : ℕ)
      → Maps ram pid page i
      → (p q j : ℕ) → p ≢ neg 1
      → Maps (freed ram i) p q j ↔ (Maps ram p q j × (j ≢ i))
  freed-Maps i own p q j h = elim (ℕ_discrete i j) [
    | no ne ↦ (
      (λ m. ((m.0, sym (get_elem?-set_ne ram.page_table i j _ ne) ∙ m.1), λ e. ne (sym e))),
      (λ m. (m.0.0, get_elem?-set_ne ram.page_table i j _ ne ∙ m.0.1)),
    )
    | yes e ↦ (
      (λ m. absurd (
          ground (
            arith,
            get_elem?-set_self ram.page_table i free_entry (lt_of_get_elem? ram.page_table i own.1),
          ))),
      (λ m. absurd (m.1 (sym e))),
    )
  ]

  freed-count :
      (i : ℕ)
      → Maps ram pid page i
      → frame_count is_frame_free (freed ram i) ≡ ram.free_frame_count + 1
  unfolding frame_count
  freed-count i own =
      let start = v.counted in
      ground (
        arith,
        count_first-set is_frame_free ram.process_page_count ram.page_table i (entry_of pid page)
            free_entry own.0 own.1,
      )

  freed-pool :
      (i : ℕ) → Maps ram pid page i → (freed ram i).free_frame_count ≡ ram.free_frame_count + 1
  unfolding frame_count
  freed-pool i own = omega (
    arith,
    v.small,
    freed-count i own,
    count_first-le is_frame_free ram.process_page_count (set ram.page_table i free_entry),
  )

  freed-IsValid : (i : ℕ) → Maps ram pid page i → IsValid (freed ram i)
  freed-IsValid i own = record {
    bounded = rw length-set v.bounded;
    nonempty = v.nonempty;
    small = v.small;
    framed = v.framed;
    counted = omega (arith, freed-count i own, freed-pool i own);
    distinct = λ p q a b h m n.
        v.distinct p q a b h ((freed-Maps i own p q a h).0 m).0 ((freed-Maps i own p q b h).0 n).0;
  }

  freed_unmapped :
      (hash : ℕ → ℕ → ℕ) (i : ℕ)
      → Maps ram pid page i
      → ram_frame_lookup hash (freed ram i) pid page ≡ none
  freed_unmapped hash i own = elim (Option-cases (ram_frame_lookup hash (freed ram i) pid page)) [
    | inl e ↦ e
    | inr (j, e) ↦
        let left =
          (freed-Maps i own pid page j np).0
            (lookup-Maps hash (freed ram i) pid page v.nonempty e) in
        absurd (left.1 (v.distinct pid page j i np left.0 own))
  ]

  -- Freeing a page: if the process has it, the answer is 0, its frame goes back to the pool, no
  -- other page of any process is touched and the page is no longer found; if the process does not
  -- have it, the answer is -1 and nothing changes. Either way the page table stays well-formed.
  pub ram_free_page-IsValid :
      (hash : ℕ → ℕ → ℕ)
      → ((i : ℕ)
          → Maps ram pid page i
          → (ram_free_page hash ram pid page ≡ (0, freed ram i))
            × IsValid (freed ram i)
            × ((freed ram i).free_frame_count ≡ ram.free_frame_count + 1)
            × (ram_frame_lookup hash (freed ram i) pid page ≡ none)
            × ((p q j : ℕ) → p ≢ neg 1 → Maps (freed ram i) p q j ↔ (Maps ram p q j × (j ≢ i))))
        × (ram_frame_lookup hash ram pid page ≡ none
            → ram_free_page hash ram pid page ≡ (neg 1, ram))
  unfolding ram_free_page
  ram_free_page-IsValid hash = (
    λ i own. (
      rw
          (ram_frame_index_lookup_of_some hash ram pid page
            ((lookup_iff hash ram pid page i v np).1 own))
          refl,
      freed-IsValid i own,
      freed-pool i own,
      freed_unmapped hash i own,
      freed-Maps i own,
    ),
    λ e. rw (ram_frame_index_lookup_of_none hash ram pid page e) refl,
  )
