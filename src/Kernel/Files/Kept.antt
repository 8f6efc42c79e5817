-- ===== src/Kernel/Files/Kept.antt =====
-- The handlers that open, close and delete a file keep the list of open files in step with the descriptors.
use socketapp.Common.{
  ℕ, ◌+◌, ◌^◌, ◌<◌, ◌≡◌, refl, sym, inl, inr, Bool, Option, some, List, [], ◌∷◌, subst, arith,
  Option-cases,
}
use socketapp.Kernel.Files.{
  set_cursor, GlobalFd, Fd, Owner, Files, Servers, find_owner, set_owner, change_owner, count_call,
  interrupted, disconnect, reply, find_address, file_descriptor_get_by_number,
}
use socketapp.Kernel.Files.Descriptors.{
  handle_cpu_mover_cursor, open_file, handle_cpu_abrir, handle_cpu_cerrar, refuse, without_fd,
  released_globals, error_fd_does_not_exist,
}
use socketapp.Kernel.Files.Counts.{one, refs_in, refs, one_self}
use socketapp.Kernel.Files.Owners.{
  refs-set_owner, refs-set_owner_same, find_owner-set_owner, refs_in-owner, get_by_number-value,
  refs_in-remove_fd,
}
use socketapp.Kernel.Files.Matches.{Matches-found, release-Matches}
use socketapp.Kernel.Files.Consistent.{
  Consistent, change_owner-Consistent, reply-Consistent, refuse-Consistent, open_file-Consistent,
}

set_cursor-refs :
    (b number cursor : ℕ) (fds : List Fd) → refs_in b (set_cursor number cursor fds) ≡ refs_in b fds
unfolding set_cursor
set_cursor-refs b number cursor [] = refl
set_cursor-refs b number cursor (x ∷ fds) = ground (arith, set_cursor-refs b number cursor fds)

module _ (pid : ℕ) (files : Files) {owner : Owner}
    (found : find_owner pid files.owners ≡ some owner) (h : Consistent files) where
  pub counted-Consistent : Consistent (change_owner pid count_call files)
  counted-Consistent = change_owner-Consistent pid count_call files (λ a o. refl) h

  pub counted-refs :
      (a : ℕ) → refs a (change_owner pid count_call files).owners ≡ refs a files.owners
  counted-refs a = refs-set_owner_same a pid count_call files.owners (λ o. refl)

  pub counted-found :
      find_owner pid (change_owner pid count_call files).owners ≡ some (count_call owner)
  counted-found = find_owner-set_owner pid count_call files.owners {owner = owner} (λ o. refl) found

  pub removed-refs :
      (number : ℕ) {fd : Fd} (gs : List GlobalFd)
      → file_descriptor_get_by_number number owner.file_descriptors ≡ some fd
      → (b : ℕ)
      → refs b (set_owner pid (without_fd fd.value) (change_owner pid count_call files).owners)
          + one fd.global b
        ≡ refs b files.owners
  removed-refs number {fd} gs there b =
      let counted = change_owner pid count_call files in
      let again : file_descriptor_get_by_number fd.value owner.file_descriptors ≡ some fd =
        subst (λ n. file_descriptor_get_by_number n owner.file_descriptors ≡ some fd)
          (sym (get_by_number-value number owner.file_descriptors {fd = fd} there)) there in
      omega (
        arith,
        counted-refs b,
        refs-set_owner b pid (without_fd fd.value) counted.owners {owner = count_call owner}
            counted-found,
        refs_in-remove_fd b fd.value owner.file_descriptors {fd = fd} again,
      )

  -- A descriptor that a program has refers to an object that is there.
  pub live :
      (number : ℕ) {fd : Fd}
      → file_descriptor_get_by_number number owner.file_descriptors ≡ some fd
      → (g : GlobalFd) × (find_address fd.global files.globals ≡ some g)
  live number {fd} there =
      let self : one fd.global fd.global ≡ 1 = one_self fd.global in
      Matches-found h fd.global (
        omega (
          arith,
          self,
          refs_in-remove_fd fd.global number owner.file_descriptors {fd = fd} there,
          refs_in-owner fd.global pid files.owners {owner = owner} found,
        ))

  -- A program that is found, where each open file is counted as often as descriptors refer to it
  -- and each descriptor refers to one, and no count is at its limit: handle_cpu_abrir answers,
  -- and the counts are in step again, whatever comes from the CPU, whatever the FileSystem
  -- answers and whether the answer goes through.
  pub handle_cpu_abrir-Consistent :
      (servers : Servers) (path flags : Option (List ℕ)) (goes : Bool)
      → ((a : ℕ) → refs a files.owners + 1 < 2 ^ 31)
      → (files' : Files) × (handle_cpu_abrir servers pid path flags goes files ≡ some files')
        × Consistent files'
  unfolding handle_cpu_abrir
  handle_cpu_abrir-Consistent servers path flags goes room =
      let counted = change_owner pid count_call files in
      elim (Option-cases path) [
        | inl lost ↦
            (disconnect pid counted, simp (found, lost, handle_cpu_abrir), counted-Consistent)
        | inr (p, came) ↦ elim (Option-cases flags) [
          | inl lost ↦ (
            disconnect pid counted,
            simp (found, came, lost, handle_cpu_abrir),
            counted-Consistent,
          )
          | inr (f, came') ↦
              let opened = open_file servers pid owner.incremental_fd p f counted in
              let room' : (a : ℕ) → refs a counted.owners + 1 < 2 ^ 31 =
                λ a. omega (arith, counted-refs a, room a) in
              let kept =
                open_file-Consistent pid counted {owner = count_call owner} counted-found
                  counted-Consistent servers owner.incremental_fd p f room' in
              (
                reply pid opened.0 goes opened.1,
                simp (found, came, came', handle_cpu_abrir),
                reply-Consistent pid opened.0 goes opened.1 kept,
              )
        ]
      ]

  -- A program that is found, where the counts of the open files are in step with the
  -- descriptors: handle_cpu_cerrar answers, and the counts are in step again; a file goes from
  -- the list with its last descriptor.
  pub handle_cpu_cerrar-Consistent :
      (number : Option ℕ) (goes : Bool)
      → (files' : Files) × (handle_cpu_cerrar pid number goes files ≡ some files')
        × Consistent files'
  unfolding handle_cpu_cerrar
  handle_cpu_cerrar-Consistent number goes =
      let counted = change_owner pid count_call files in
      elim (Option-cases number) [
        | inl lost ↦
            (disconnect pid counted, rw (found, lost, handle_cpu_cerrar), counted-Consistent)
        | inr (n, came) ↦
            elim (Option-cases (file_descriptor_get_by_number n owner.file_descriptors)) [
              | inl missing ↦ (
                refuse pid error_fd_does_not_exist goes counted,
                rw (found, came, missing, handle_cpu_cerrar),
                refuse-Consistent pid error_fd_does_not_exist goes counted counted-Consistent,
              )
              | inr (fd, there) ↦
                  let (g, alive) = live n {fd = fd} there in
                  let after =
                    change_owner pid (without_fd fd.value)
                      (record counted { globals = released_globals g files.globals }) in
                  let kept : Consistent after =
                    release-Matches h fd.global {g = g} alive (λ b. refs b after.owners)
                      (removed-refs n {fd = fd} files.globals there) in
                  (
                    reply pid 1 goes after,
                    rw (found, came, there, alive, handle_cpu_cerrar),
                    reply-Consistent pid 1 goes after kept,
                  )
            ]
      ]

  pub handle_cpu_mover_cursor-Consistent :
      (number position : Option ℕ)
      → (files' : Files) × (handle_cpu_mover_cursor pid number position files ≡ some files')
        × Consistent files'
  unfolding handle_cpu_mover_cursor
  handle_cpu_mover_cursor-Consistent number position =
      let counted = change_owner pid count_call files in
      elim (Option-cases number) [
        | inl lost ↦
            (disconnect pid counted, rw (found, lost, handle_cpu_mover_cursor), counted-Consistent)
        | inr (n, came) ↦ elim (Option-cases position) [
          | inl lost ↦ (
            disconnect pid counted,
            rw (found, came, lost, handle_cpu_mover_cursor),
            counted-Consistent,
          )
          | inr (p, came') ↦
              elim (Option-cases (file_descriptor_get_by_number n owner.file_descriptors)) [
                | inl missing ↦ (
                  change_owner pid (interrupted error_fd_does_not_exist) counted,
                  rw (found, came, came', missing, handle_cpu_mover_cursor),
                  change_owner-Consistent pid (interrupted error_fd_does_not_exist) counted
                      (λ a o. refl) counted-Consistent,
                )
                | inr (fd, there) ↦
                    let move = λ (o : Owner). record o {
                      file_descriptors = set_cursor n p o.file_descriptors;
                    } in
                    (
                      change_owner pid move counted,
                      rw (found, came, came', there, handle_cpu_mover_cursor),
                      change_owner-Consistent pid move counted
                          (λ a o. set_cursor-refs a n p o.file_descriptors) counted-Consistent,
                    )
              ]
        ]
      ]
