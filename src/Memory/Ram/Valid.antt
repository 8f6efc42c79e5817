-- ===== src/Memory/Ram/Valid.antt =====
-- Well-formed page tables of ram.c, and what the lookup of a frame answers.
use socketapp.Common.{
  ℕ, ◌+◌, ◌%◌, ◌≤◌, ◌<◌, ◌≡◌, ◌≢◌, ◌↔◌, sym, ◌∙◌, inl, inr, true, Option, none, some, arith, word,
  neg, get_elem?, length, Option-cases,
}
use socketapp.Memory.Ram.{
  PageTableEntry, Ram, is_frame_free, entry_has_pid_page, frame_count, probe,
  ram_frame_index_lookup, ram_frame_lookup,
}
use socketapp.Memory.Ram.Probe.{probe-finds, probe-none}

abbrev pub entry_of : ℕ → ℕ → PageTableEntry
entry_of pid page = record { pid = pid; page = page }

-- Frame `i` belongs to page `page` of process `pid`.
abbrev pub Maps : Ram → ℕ → ℕ → ℕ → Type 0
Maps ram pid page i =
    (i < ram.process_page_count) × (get_elem? ram.page_table i ≡ some (entry_of pid page))

-- No two frames belong to one page of a process.
abbrev pub IsDistinct : Ram → Type 0
IsDistinct ram =
    (pid page i j : ℕ) → pid ≢ neg 1 → Maps ram pid page i → Maps ram pid page j → i ≡ j

-- A well-formed page table while requests that took `reserved` frames from the pool have still to
-- insert their pages.
pub record IsValidWith (reserved : ℕ) (ram : Ram) : Type 0 where
  pub bounded : ram.process_page_count ≤ length ram.page_table
  pub nonempty : 0 < ram.process_page_count
  pub small : ram.process_page_count < word
  pub framed : length ram.frames ≡ ram.process_page_count
  pub counted : ram.free_frame_count + reserved ≡ frame_count is_frame_free ram
  pub distinct : IsDistinct ram

-- The page table with no request under way.
abbrev pub IsValid : Ram → Type 0
IsValid = IsValidWith 0

pub entry_has_pid_page-eq :
    (pid page : ℕ) (entry : PageTableEntry)
    → entry_has_pid_page pid page entry ≡ true
    → entry ≡ entry_of pid page
entry_has_pid_page-eq pid page entry h = ground arith

pub entry_has_pid_page_self :
    (pid page : ℕ) → entry_has_pid_page pid page (entry_of pid page) ≡ true
entry_has_pid_page_self pid page = ground arith

module _ (hash : ℕ → ℕ → ℕ) where
  -- The search that the lookup makes.
  abbrev pub search_for : Ram → ℕ → ℕ → Option ℕ
  search_for ram pid page =
      let count = ram.process_page_count in
      probe (entry_has_pid_page pid page) ram.page_table count count (hash pid page % count)

  pub ram_frame_lookup-eq-probe :
      (ram : Ram) (pid page : ℕ) → ram_frame_lookup hash ram pid page ≡ search_for ram pid page
  unfolding ram_frame_lookup ram_frame_index_lookup
  ram_frame_lookup-eq-probe ram pid page = ground arith

  -- The two results of the search agree with the frame that it answers.
  pub ram_frame_index_lookup_of_some :
      (ram : Ram) (pid page : ℕ) {i : ℕ}
      → ram_frame_lookup hash ram pid page ≡ some i
      → ram_frame_index_lookup hash ram pid page ≡ (i, 0)
  unfolding ram_frame_lookup ram_frame_index_lookup
  ram_frame_index_lookup_of_some ram pid page e = ground arith

  pub ram_frame_index_lookup_of_none :
      (ram : Ram) (pid page : ℕ)
      → ram_frame_lookup hash ram pid page ≡ none
      → (ram_frame_index_lookup hash ram pid page).1 ≡ neg 1
  unfolding ram_frame_lookup ram_frame_index_lookup
  ram_frame_index_lookup_of_none ram pid page e = ground arith

  pub lookup-Maps :
      (ram : Ram) (pid page : ℕ) {i : ℕ}
      → 0 < ram.process_page_count
      → ram_frame_lookup hash ram pid page ≡ some i
      → Maps ram pid page i
  lookup-Maps ram pid page h e =
      let (lt, entry, get, hit) =
        probe-finds (entry_has_pid_page pid page) ram.page_table ram.process_page_count
          ram.process_page_count (hash pid page % ram.process_page_count) (grind arith)
          (sym (ram_frame_lookup-eq-probe ram pid page) ∙ e) in
      (lt, rw (← entry_has_pid_page-eq pid page entry hit) get)

  pub lookup-none :
      (ram : Ram) (pid page : ℕ) (i : ℕ)
      → 0 < ram.process_page_count
      → ram.process_page_count ≤ length ram.page_table
      → ram_frame_lookup hash ram pid page ≡ none
      → ¬ (Maps ram pid page i)
  lookup-none ram pid page i h le e m =
      let no_match =
        probe-none (entry_has_pid_page pid page) ram.page_table ram.process_page_count
          (hash pid page % ram.process_page_count) i (entry_of pid page) (grind arith) le
          (sym (ram_frame_lookup-eq-probe ram pid page) ∙ e) m.0 m.1 in
      cc (no_match, entry_has_pid_page_self pid page)

  -- Over a well-formed page table, whatever the hash function, the lookup of a page of a process
  -- answers frame `i` exactly when frame `i` belongs to that page (so it answers NULL exactly when
  -- no frame does), for every identifier but the one that marks a free frame.
  pub lookup_iff :
      {k : ℕ} (ram : Ram) (pid page i : ℕ)
      → IsValidWith k ram
      → pid ≢ neg 1
      → (ram_frame_lookup hash ram pid page ≡ some i) ↔ Maps ram pid page i
  lookup_iff ram pid page i v np = (λ e. lookup-Maps ram pid page v.nonempty e, back)
    where
      back : Maps ram pid page i → ram_frame_lookup hash ram pid page ≡ some i
      back m = elim (Option-cases (ram_frame_lookup hash ram pid page)) [
        | inl e ↦ absurd (lookup-none ram pid page i v.nonempty v.bounded e m)
        | inr (j, e) ↦
            let same : j ≡ i =
              v.distinct pid page j i np (lookup-Maps ram pid page v.nonempty e) m in
            rw (← same) e
      ]
