-- ===== src/Kernel/Files/Borrado.antt =====
-- `handle_cpu_borrar`: what it deletes and when it refuses.
use socketapp.Common.{
  ◌-◌, same_bytes, ◌⊎◌, ◌≢◌, ap, ◌∙◌, none, true, false, ℕ, ◌+◌, ◌≡◌, refl, inl, inr, Bool, not,
  ◌&&◌, Option, some, List, [], ◌∷◌, arith, ◌==◌, Bool-cases, Option-cases,
}
use socketapp.Kernel.Files.{
  GlobalFd, Fd, Owner, Files, Servers, borrar, find_owner, change_owner, count_call, interrupted,
  disconnect, tell, reply, is_positive, find_address, remove_path, file_descriptor_get_by_number,
}
use socketapp.Kernel.Files.Descriptors.{
  handle_cpu_borrar, refuse, without_fd, error_fd_does_not_exist, error_file_bad_delete,
  error_fs_operation,
}
use socketapp.Kernel.Files.Counts.{one, refs, one_self}
use socketapp.Kernel.Files.Owners.{refs-set_owner_same}
use socketapp.Kernel.Files.Matches.{opened_refs, delete-Matches}
use socketapp.Kernel.Files.Consistent.{Consistent, reply-Consistent, refuse-Consistent}
use socketapp.Kernel.Files.Counts.{count_path, path_one}
use socketapp.Kernel.Files.Kept.{counted-Consistent, counted-refs, removed-refs, live}

-- The descriptor with the number refers to the object.
abbrev pub Names : Owner → Files → Option ℕ → Fd → GlobalFd → Type 0
Names owner files number fd g =
    (n : ℕ) × (number ≡ some n)
    × (file_descriptor_get_by_number n owner.file_descriptors ≡ some fd)
    × (find_address fd.global files.globals ≡ some g)

-- No number has come, or it is that of no descriptor, or the file is open more than once, or the
-- FileSystem does not delete it.
abbrev pub IsRefused : Servers → Owner → Files → Option ℕ → Type 0
IsRefused servers owner files number =
    (number ≡ none)
    ⊎ ((n : ℕ) × (number ≡ some n)
        × (file_descriptor_get_by_number n owner.file_descriptors ≡ none))
    ⊎ ((fd : Fd) × (g : GlobalFd) × Names owner files number fd g
        × ((g.opened ≢ 1) ⊎ ((servers.filesystem_delete g.path == 1) ≡ false)))

-- Either the file was open once and the FileSystem has deleted it: then it is in the list no more, and
-- the descriptor is gone; or the request is refused: then the files and the references are those of before.
pub data Borrado (servers : Servers) (owner : Owner) (files : Files) (number : Option ℕ)
    (files' : Files) : Type 0 where
  deleted :
      (fd : Fd) (g : GlobalFd)
      → Names owner files number fd g
      → g.opened ≡ 1
      → (servers.filesystem_delete g.path == 1) ≡ true
      → count_path g.path files'.globals ≡ 0
      → ((b : ℕ) → refs b files'.owners + one fd.global b ≡ refs b files.owners)
      → Borrado servers owner files number files'
  refused :
      IsRefused servers owner files number
      → files'.globals ≡ files.globals
      → ((b : ℕ) → refs b files'.owners ≡ refs b files.owners)
      → Borrado servers owner files number files'

reply-same :
    (pid value : ℕ) (goes : Bool) (files : Files)
    → ((reply pid value goes files).globals ≡ files.globals)
      × ((reply pid value goes files).owners ≡ files.owners)
reply-same pid value true files = (refl, refl)
reply-same pid value false files = (refl, refl)

count_path-remove_path :
    (path : List ℕ) (gs : List GlobalFd)
    → count_path path (remove_path path gs) ≡ count_path path gs - 1
unfolding remove_path
count_path-remove_path path [] = refl
count_path-remove_path path (x ∷ gs) = elim (Bool-cases (same_bytes x.path path)) [
  | inl here ↦ rw (here, remove_path) (omega arith)
  | inr apart ↦
      let other : path_one path x ≡ 0 = rw apart refl in
      rw (apart, remove_path) (omega (arith, other, count_path-remove_path path gs))
]

module _ (servers : Servers) (pid : ℕ) (files : Files) {owner : Owner}
    (found : find_owner pid files.owners ≡ some owner) (h : Consistent files) (number : Option ℕ)
    (goes : Bool) where
  -- What the handler answers, with the files in step and one of the two outcomes.
  Answers : Type 0
  Answers =
      (files' : Files) × (handle_cpu_borrar servers pid number goes files ≡ some files')
      × Consistent files'
      × Borrado servers owner files number files'

  refuse-Borrado :
      (code : ℕ) (asked : Files)
      → IsRefused servers owner files number
      → Consistent asked
      → asked.globals ≡ files.globals
      → ((b : ℕ) → refs b asked.owners ≡ refs b files.owners)
      → Consistent (refuse pid code goes asked)
        × Borrado servers owner files number (refuse pid code goes asked)
  refuse-Borrado code asked why c globals owners =
      let marked = change_owner pid (interrupted code) asked in
      let same = reply-same pid 0 goes marked in
      (
        refuse-Consistent pid code goes asked c,
        refused why (same.0 ∙ globals) (λ b.
            ap (refs b) same.1
            ∙ refs-set_owner_same b pid (interrupted code) asked.owners (λ o. refl)
            ∙ owners b),
      )

  file-Borrado :
      (n : ℕ) (fd : Fd) (g : GlobalFd)
      → number ≡ some n
      → file_descriptor_get_by_number n owner.file_descriptors ≡ some fd
      → find_address fd.global files.globals ≡ some g
      → Answers
  unfolding handle_cpu_borrar Answers
  file-Borrado n fd g came there alive =
      let counted = change_owner pid count_call files in
      let counted-ok = counted-Consistent pid files {owner = owner} found h in
      let same_refs = counted-refs pid files {owner = owner} found h in
      let asked = tell (borrar g.path) counted in
      let after =
        change_owner pid (without_fd fd.value)
          (record asked { globals = remove_path g.path files.globals }) in
      let named : Names owner files number fd g = (n, came, there, alive) in
      elim (Bool-cases (is_positive g.opened && not (g.opened == 1))) [
        | inl shared ↦
            let many : g.opened ≢ 1 = λ e. ground arith in
            let r =
              refuse-Borrado error_file_bad_delete counted (inr (inr (fd, g, named, inl many)))
                counted-ok refl same_refs in
            (
              refuse pid error_file_bad_delete goes counted,
              rw (found, came, there, alive, shared, handle_cpu_borrar) refl,
              r.0,
              r.1,
            )
        | inr alone ↦ elim (Bool-cases (servers.filesystem_delete g.path == 1)) [
          | inr failed ↦
              let r =
                refuse-Borrado error_fs_operation asked (inr (inr (fd, g, named, inr failed)))
                  counted-ok refl same_refs in
              (
                refuse pid error_fs_operation goes asked,
                rw (found, came, there, alive, alone, failed, handle_cpu_borrar) refl,
                r.0,
                r.1,
              )
          | inl gone ↦
              let fewer =
                removed-refs pid files {owner = owner} found h n {fd = fd} files.globals there in
              let single : g.opened ≡ 1 =
                let count = opened_refs h fd.global {g = g} alive in
                let less = fewer fd.global in
                let self = one_self fd.global in let bound = h.small fd.global in ground arith in
              let kept : Consistent after =
                delete-Matches h fd.global {g = g} alive single (λ b. refs b after.owners) fewer in
              let same = reply-same pid 1 goes after in
              (
                reply pid 1 goes after,
                rw (found, came, there, alive, alone, gone, handle_cpu_borrar) refl,
                reply-Consistent pid 1 goes after kept,
                deleted fd g named single gone
                    (ap (count_path g.path) same.0
                      ∙ omega
                          (arith, count_path-remove_path g.path files.globals, h.one_path g.path))
                    (λ b. ap (λ owners. refs b owners + one fd.global b) same.1 ∙ fewer b),
              )
        ]
      ]

  -- A program that is found, where each open file is counted as often as descriptors refer to it and each
  -- descriptor refers to one: handle_cpu_borrar answers, and the counts are in step again. If the descriptor
  -- with the number is the only one of its file and the FileSystem deletes it, the file is in the list no
  -- more and the descriptor is gone; otherwise the open files and the references are those of before.
  pub handle_cpu_borrar-Borrado :
      (files' : Files) × (handle_cpu_borrar servers pid number goes files ≡ some files')
      × Consistent files'
      × Borrado servers owner files number files'
  unfolding handle_cpu_borrar Answers
  handle_cpu_borrar-Borrado =
      let counted = change_owner pid count_call files in
      let counted-ok = counted-Consistent pid files {owner = owner} found h in
      let same_refs = counted-refs pid files {owner = owner} found h in
      elim (Option-cases number) [
        | inl lost ↦ (
          disconnect pid counted,
          rw (found, lost, handle_cpu_borrar) refl,
          counted-ok,
          refused (inl lost) refl same_refs,
        )
        | inr (n, came) ↦
            elim (Option-cases (file_descriptor_get_by_number n owner.file_descriptors)) [
              | inl missing ↦
                  let r =
                    refuse-Borrado error_fd_does_not_exist counted (inr (inl (n, came, missing)))
                      counted-ok refl same_refs in
                  (
                    refuse pid error_fd_does_not_exist goes counted,
                    rw (found, came, missing, handle_cpu_borrar) refl,
                    r.0,
                    r.1,
                  )
              | inr (fd, there) ↦
                  let (g, alive) = live pid files {owner = owner} found h n {fd = fd} there in
                  file-Borrado n fd g came there alive
            ]
      ]
