-- ===== src/Memory/Cache/Processes.antt =====
-- The lists of entries that `cacheProcesses` keeps for the processes.
use socketapp.Common.{
  All, All-append, ℕ, ◌<◌, ◌≡◌, refl, inl, inr, true, false, none, some, List, [], ◌∷◌, ◌++◌, arith,
  ltb, ◌==◌, length, length-append, Bool-cases, Option-cases,
}
use socketapp.Memory.Cache.{
  ProcessEntries, find_process, update_process, remove_entry, ensure_process, entries_of,
}
use socketapp.Memory.Cache.Lru.{any_entries, Inside}

remove_entry-below :
    (n i : ℕ) (is : List ℕ) → All (λ j. j < n) is → All (λ j. j < n) (remove_entry i is)
unfolding remove_entry
remove_entry-below n i [] h = tt
remove_entry-below n i (j ∷ js) (here, h) = elim (Bool-cases (j == i)) [
  | inl same ↦ rw (same, remove_entry) h
  | inr other ↦ rw (other, remove_entry) (here, remove_entry-below n i js h)
]

update_process-Inside :
    (n pid : ℕ) (change : List ℕ → List ℕ) (processes : List ProcessEntries)
    → ((is : List ℕ) → All (λ j. j < n) is → All (λ j. j < n) (change is))
    → Inside n processes
    → Inside n (update_process pid change processes)
unfolding update_process
update_process-Inside n pid change [] keeps h = tt
update_process-Inside n pid change (process ∷ processes) keeps (here, h) =
    elim (Bool-cases (process.pid == pid)) [
      | inl same ↦ rw (same, update_process) (keeps process.entries here, h)
      | inr other ↦
          rw (other, update_process) (here, update_process-Inside n pid change processes keeps h)
    ]

pub append-Inside :
    (n pid i : ℕ) (processes : List ProcessEntries)
    → i < n
    → Inside n processes
    → Inside n (update_process pid (λ l. l ++ (i ∷ [])) processes)
append-Inside n pid i processes lt =
    update_process-Inside n pid (λ l. l ++ (i ∷ [])) processes
      (λ is h. All-append (λ j. j < n) is (i ∷ []) h (lt, tt))

pub remove-Inside :
    (n pid i : ℕ) (processes : List ProcessEntries)
    → Inside n processes
    → Inside n (update_process pid (remove_entry i) processes)
remove-Inside n pid i processes =
    update_process-Inside n pid (remove_entry i) processes (λ is h. remove_entry-below n i is h)

-- A process that is listed.
pub record IsListed (pid : ℕ) (processes : List ProcessEntries) : Type 0 where
  pub entries : List ℕ
  pub found : find_process pid processes ≡ some entries

pub update_process-IsListed :
    (pid q : ℕ) (change : List ℕ → List ℕ) (processes : List ProcessEntries)
    → IsListed pid processes
    → IsListed pid (update_process q change processes)
unfolding find_process update_process
update_process-IsListed pid q change [] h = h
update_process-IsListed pid q change (process ∷ processes) h =
    elim (Bool-cases (process.pid == q)) [
      | inl here ↦ elim (Bool-cases (process.pid == pid)) [
        | inl same ↦
            rw (here, update_process)
              (record { entries = change process.entries; found = rw (same, find_process) refl })
        | inr other ↦
            rw (here, update_process)
              (record {
                entries = h.entries;
                found = rw (other, find_process) (rw (other, find_process) at h.found);
              })
      ]
      | inr there ↦ elim (Bool-cases (process.pid == pid)) [
        | inl same ↦
            rw (there, update_process)
              (record { entries = process.entries; found = rw (same, find_process) refl })
        | inr other ↦
            let rest =
              update_process-IsListed pid q change processes
                (record { entries = h.entries; found = rw (other, find_process) at h.found }) in
            rw (there, update_process)
              (record { entries = rest.entries; found = rw (other, find_process) rest.found })
      ]
    ]

pub append-any_entries :
    (pid i : ℕ) (processes : List ProcessEntries)
    → IsListed pid processes
    → any_entries (update_process pid (λ l. l ++ (i ∷ [])) processes) ≡ true
unfolding find_process update_process
append-any_entries pid i [] h = cc (h.found)
append-any_entries pid i (process ∷ processes) h = elim (Bool-cases (process.pid == pid)) [
  | inl same ↦
      let longer = length-append process.entries (i ∷ []) in
      let some_here : ltb (length (process.entries ++ (i ∷ []))) 1 ≡ false = ground arith in
      rw (same, update_process) (rw some_here refl)
  | inr other ↦
      let rest =
        append-any_entries pid i processes
          (record { entries = h.entries; found = rw (other, find_process) at h.found }) in
      rw (other, update_process)
        (elim (Bool-cases (ltb (length process.entries) 1)) [
          | inl none_here ↦ rw (none_here, rest) refl
          | inr some_here ↦ rw some_here refl
        ])
]

find_process-append :
    (pid : ℕ) (processes : List ProcessEntries)
    → find_process pid processes ≡ none
    → find_process pid (processes ++ (record { pid = pid; entries = [] } ∷ [])) ≡ some []
unfolding find_process
find_process-append pid [] h = ground arith
find_process-append pid (process ∷ processes) h = elim (Bool-cases (process.pid == pid)) [
  | inl same ↦ absurd (ground arith)
  | inr other ↦
      rw (other, find_process) (find_process-append pid processes (rw (other, find_process) at h))
]

any_entries-append :
    (pid : ℕ) (processes : List ProcessEntries)
    → any_entries (processes ++ (record { pid = pid; entries = [] } ∷ [])) ≡ any_entries processes
any_entries-append pid [] = refl
any_entries-append pid (process ∷ processes) = rw (any_entries-append pid processes) refl

find_process-Inside :
    (n pid : ℕ) (processes : List ProcessEntries) {is : List ℕ}
    → find_process pid processes ≡ some is
    → Inside n processes
    → All (λ i. i < n) is
unfolding find_process
find_process-Inside n pid [] found h = absurd (cc found)
find_process-Inside n pid (process ∷ processes) {is} found (here, h) =
    elim (Bool-cases (process.pid == pid)) [
      | inl same ↦
          let e : some process.entries ≡ some is = rw (same, find_process) at found in
          let e' : process.entries ≡ is = cc e in rw (← e') here
      | inr other ↦
          find_process-Inside n pid processes {is = is} (rw (other, find_process) at found) h
    ]

find_process-append-IsListed :
    (q : ℕ) (processes : List ProcessEntries) (process : ProcessEntries)
    → IsListed q processes
    → IsListed q (processes ++ (process ∷ []))
unfolding find_process
find_process-append-IsListed q [] process h = absurd (cc (h.found))
find_process-append-IsListed q (x ∷ processes) process h = elim (Bool-cases (x.pid == q)) [
  | inl same ↦ record { entries = x.entries; found = rw (same, find_process) refl }
  | inr other ↦
      let rest =
        find_process-append-IsListed q processes process
          (record { entries = h.entries; found = rw (other, find_process) at h.found }) in
      record { entries = rest.entries; found = rw (other, find_process) rest.found }
]

-- The process is listed, and nothing else changes.
pub record Ensured (n pid : ℕ) (processes processes' : List ProcessEntries) : Type 0 where
  pub listed : IsListed pid processes'
  pub mine : All (λ i. i < n) (entries_of pid processes')
  pub inside : Inside n processes'
  pub any : any_entries processes' ≡ any_entries processes
  pub stay : (q : ℕ) → IsListed q processes → IsListed q processes'

pub ensure_process-Ensured :
    (n pid : ℕ) (processes : List ProcessEntries)
    → Inside n processes
    → Ensured n pid processes (ensure_process pid processes)
unfolding ensure_process
ensure_process-Ensured n pid processes h = elim (Option-cases (find_process pid processes)) [
  | inr (is, found) ↦
      rw (found, ensure_process)
        (record {
          listed = record { entries = is; found = found };
          mine = rw (found, All) (find_process-Inside n pid processes {is = is} found h);
          inside = h;
          any = refl;
          stay = λ q l. l;
        })
  | inl missing ↦
      let now = find_process-append pid processes missing in
      rw (missing, ensure_process)
        (record {
          listed = record { entries = []; found = now };
          mine = rw (now, All) tt;
          inside =
              All-append (λ (p : ProcessEntries). All (λ i. i < n) p.entries) processes
                (record { pid = pid; entries = [] } ∷ []) h (tt, tt);
          any = any_entries-append pid processes;
          stay = λ q l. find_process-append-IsListed q processes _ l;
        })
]
