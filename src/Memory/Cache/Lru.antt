-- ===== src/Memory/Cache/Lru.antt =====
-- The loops of `lruProccess` and `lruAnyProccess` find an entry of the array.
use socketapp.Common.{
  All, ℕ, ◌<◌, ◌≡◌, refl, inl, inr, Bool, true, false, ◌||◌, Option, none, some, List, [], ◌∷◌,
  arith, ltb, if◌then◌else◌, get_elem?, get_elem?_of_lt, length, Bool-cases, Option-cases,
}
use socketapp.Memory.Cache.{
  CacheEntry, ProcessEntries, Lru, is_null, select_lru, lru_process, select_lru_process,
}

-- The entry that was chosen is one of the array.
pub record IsChosen (es : List CacheEntry) (chosen : Option ℕ) : Type 0 where
  pub index : ℕ
  pub entry : CacheEntry
  pub is_some : chosen ≡ some index
  pub there : get_elem? es index ≡ some entry

-- Some process has an entry.
abbrev pub any_entries : List ProcessEntries → Bool
any_entries [] = false
any_entries (process ∷ processes) =
    if ltb (length process.entries) 1 then any_entries processes else true

-- The entries of the processes are below the bound.
abbrev pub Inside : ℕ → List ProcessEntries → Type 0
Inside n processes = All (λ (process : ProcessEntries). All (λ i. i < n) process.entries) processes

select_lru-stays :
    (es : List CacheEntry) (is : List ℕ) (lru : Lru)
    → IsChosen es lru.1
    → IsChosen es (select_lru es is lru).1
unfolding select_lru
select_lru-stays es [] lru h = h
select_lru-stays es (i ∷ is) (t, chosen) h = elim (Option-cases (get_elem? es i)) [
  | inl gone ↦ rw (gone, select_lru) (select_lru-stays es is (t, chosen) h)
  | inr (entry, there) ↦ elim (Bool-cases (ltb entry.last_access t || is_null chosen)) [
    | inl older ↦
        rw (there, older, select_lru)
          (select_lru-stays es is (entry.last_access, some i)
            (record { index = i; entry = entry; is_some = refl; there = there }))
    | inr newer ↦ rw (there, newer, select_lru) (select_lru-stays es is (t, chosen) h)
  ]
]

pub lru_process-IsChosen :
    (es : List CacheEntry) (now : ℕ) (is : List ℕ)
    → 0 < length is
    → All (λ i. i < length es) is
    → IsChosen es (lru_process es now is)
unfolding lru_process select_lru
lru_process-IsChosen es now [] some_entry inside = absurd (omega arith)
lru_process-IsChosen es now (i ∷ is) some_entry (here, inside) =
    let (entry, there) = get_elem?_of_lt es i here in
    elim (Bool-cases (ltb entry.last_access now || true)) [
      | inl first ↦
          rw (lru_process, there, first, select_lru)
            (select_lru-stays es is (entry.last_access, some i)
              (record { index = i; entry = entry; is_some = refl; there = there }))
      | inr never ↦ absurd (ground arith)
    ]

module _ (es : List CacheEntry) (now : ℕ)
    (seen : (i : ℕ) (entry : CacheEntry)
      → get_elem? es i ≡ some entry
      → entry.last_access < now) where
  select_lru_process-stays :
      (processes : List ProcessEntries) (lru : Lru)
      → Inside (length es) processes
      → IsChosen es lru.1
      → IsChosen es (select_lru_process es now processes lru).1
  unfolding select_lru_process
  select_lru_process-stays [] lru inside h = h
  select_lru_process-stays (process ∷ processes) lru (here, inside) h =
      elim (Bool-cases (ltb (length process.entries) 1)) [
        | inl none_here ↦
            rw (none_here, select_lru_process) (select_lru_process-stays processes lru inside h)
        | inr some_here ↦
            let c = lru_process-IsChosen es now process.entries (ground arith) here in
            elim (Bool-cases (ltb c.entry.last_access lru.0)) [
              | inl older ↦
                  rw (some_here, c.is_some, c.there, older, select_lru_process)
                    (select_lru_process-stays processes (c.entry.last_access, some c.index) inside
                      (record {
                        index = c.index;
                        entry = c.entry;
                        is_some = refl;
                        there = c.there;
                      }))
              | inr newer ↦
                  rw (some_here, c.is_some, c.there, newer, select_lru_process)
                    (select_lru_process-stays processes lru inside h)
            ]
      ]

  pub select_lru_process-IsChosen :
      (processes : List ProcessEntries)
      → Inside (length es) processes
      → any_entries processes ≡ true
      → IsChosen es (select_lru_process es now processes (now, none)).1
  unfolding select_lru_process
  select_lru_process-IsChosen [] inside any = cc any
  select_lru_process-IsChosen (process ∷ processes) (here, inside) any =
      elim (Bool-cases (ltb (length process.entries) 1)) [
        | inl none_here ↦
            rw (none_here, select_lru_process)
              (select_lru_process-IsChosen processes inside (rw none_here at any))
        | inr some_here ↦
            let c = lru_process-IsChosen es now process.entries (ground arith) here in
            let older : ltb c.entry.last_access now ≡ true =
              let lt = seen c.index c.entry c.there in ground arith in
            rw (some_here, c.is_some, c.there, older, select_lru_process)
              (select_lru_process-stays processes (c.entry.last_access, some c.index) inside
                (record { index = c.index; entry = c.entry; is_some = refl; there = c.there }))
      ]
