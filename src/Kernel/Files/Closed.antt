-- ===== src/Kernel/Files/Closed.antt =====
-- A program that ends gives back all its files: `close_opened_files` of functions/program.c.
use socketapp.Common.{
  ℕ, ◌+◌, ◌≤◌, ◌<◌, ◌≡◌, refl, sym, ap, ◌∙◌, inl, inr, true, false, some, List, [], ◌∷◌, subst,
  arith, ◌==◌, ==_iff, ==_refl, Bool-cases, same_bytes, same_bytes_refl,
}
use mathlib.Core.Option.{some-injective}
use socketapp.Kernel.Files.{
  GlobalFd, Fd, Owner, Files, find_owner, set_owner, change_owner, find_address, remove_path,
  set_opened, down,
}
use socketapp.Kernel.Files.Descriptors.{
  released_globals, remove_closed, delete_file_from_process_file_table, close_all,
  close_opened_files,
}
use socketapp.Kernel.Files.Counts.{
  one, refs_in, refs, AllOpen, count_path, find_address-address, find_address-counted,
  set_opened-AllOpen,
}
use socketapp.Kernel.Files.Owners.{refs-set_owner}
use socketapp.Kernel.Files.Matches.{Matches, Matches-found, release-Matches, remove_path-set_opened}
use socketapp.Kernel.Files.Created.{Matches-refs}
use socketapp.Kernel.Files.Consistent.{Consistent}

remove_closed-AllOpen : (gs : List GlobalFd) → AllOpen gs → remove_closed gs ≡ gs
unfolding remove_closed
remove_closed-AllOpen [] all = refl
remove_closed-AllOpen (x ∷ gs) all =
    let not_zero : (x.opened == 0) ≡ false = let h = all.0 in ground arith in
    rw (not_zero, remove_closed) (ap (λ l. x ∷ l) (remove_closed-AllOpen gs all.1))

-- If every other object is open, the first that is not is the one whose count fell to 0.
remove_closed-set_opened :
    (a : ℕ) (change : ℕ → ℕ) (gs : List GlobalFd) {g : GlobalFd}
    → find_address a gs ≡ some g
    → AllOpen gs
    → change g.opened ≡ 0
    → count_path g.path gs ≤ 1
    → remove_closed (set_opened a change gs) ≡ remove_path g.path gs
unfolding find_address remove_closed set_opened remove_path
remove_closed-set_opened a change [] {g} h all last single = absurd (ground arith)
remove_closed-set_opened a change (x ∷ gs) {g} h all last single =
    elim (Bool-cases (x.address == a)) [
      | inl here ↦
          let e : some x ≡ some g = rw (here, find_address) at h in
          let same = some-injective x g e in
          let own : same_bytes x.path g.path ≡ true =
            subst (λ y. same_bytes y.path g.path ≡ true) (sym same) (same_bytes_refl g.path) in
          let none_left : (change x.opened == 0) ≡ true =
            (==_iff (change x.opened) 0).1 (ap (λ y. change y.opened) same ∙ last) in
          rw (here, set_opened) (rw (none_left, remove_closed) (rw (own, remove_path) refl))
      | inr apart ↦
          let e : find_address a gs ≡ some g = rw (apart, find_address) at h in
          let counted = (find_address-counted a gs {g = g} e).0 in
          let other : same_bytes x.path g.path ≡ false = ground arith in
          let not_zero : (x.opened == 0) ≡ false = let p = all.0 in ground arith in
          rw (apart, set_opened)
            (rw (not_zero, remove_closed)
              (rw (other, remove_path)
                (ap (λ l. x ∷ l)
                  (remove_closed-set_opened a change gs {g = g} e all.1 last (omega arith)))))
    ]

-- The two ways in which the code gives a reference back agree.
remove_closed-released :
    (a : ℕ) (gs : List GlobalFd) {g : GlobalFd}
    → find_address a gs ≡ some g
    → AllOpen gs
    → count_path g.path gs ≤ 1
    → remove_closed (set_opened g.address down gs) ≡ released_globals g gs
remove_closed-released a gs {g} found all single =
    let same = find_address-address a gs {g = g} found in
    let found' : find_address g.address gs ≡ some g =
      subst (λ n. find_address n gs ≡ some g) (sym same) found in
    elim (Bool-cases (down g.opened == 0)) [
      | inl last ↦ rw last (
          remove_closed-set_opened g.address down gs {g = g} found' all
            ((==_iff (down g.opened) 0).0 last) single
          ∙ sym (remove_path-set_opened g.address down gs {g = g} found' single))
      | inr more ↦
          let left : 0 < down g.opened = ground arith in
          rw more (
            remove_closed-AllOpen (set_opened g.address down gs)
              (set_opened-AllOpen g.address down gs {g = g} found' left all))
    ]

close_all-Matches :
    {next : ℕ} (fds : List Fd) (gs : List GlobalFd) {r : ℕ → ℕ}
    → Matches next gs r
    → (r' : ℕ → ℕ) → ((b : ℕ) → r' b + refs_in b fds ≡ r b)
    → (gs' : List GlobalFd) × (close_all fds gs ≡ some gs') × Matches next gs' r'
unfolding close_all delete_file_from_process_file_table
close_all-Matches [] gs {r} m r' left = (gs, refl, Matches-refs m (λ b. omega (arith, left b)))
close_all-Matches {next} (fd ∷ fds) gs {r} m r' left =
    let self : one fd.global fd.global ≡ 1 = rw (==_refl fd.global) refl in
    let (g, alive) = Matches-found m fd.global (omega (arith, left fd.global, self)) in
    let closed = remove_closed (set_opened g.address down gs) in
    let released : Matches next (released_globals g gs) (λ b. r' b + refs_in b fds) =
      release-Matches m fd.global {g = g} alive (λ b. r' b + refs_in b fds)
        (λ b. omega (arith, left b)) in
    let kept : Matches next closed (λ b. r' b + refs_in b fds) =
      subst (λ l. Matches next l (λ b. r' b + refs_in b fds))
        (sym (remove_closed-released fd.global gs {g = g} alive m.all_open (m.one_path g.path)))
        released in
    let (gs', closes, rest) = close_all-Matches fds closed kept r' (λ b. refl) in
    (gs', rw alive closes, rest)

-- A program that is found, where the counts of the open files are in step with the descriptors:
-- close_opened_files answers, the counts are in step again, and each object has as many
-- references fewer as the program had descriptors of it.
pub close_opened_files-Consistent :
    (pid : ℕ) (files : Files) {owner : Owner}
    → find_owner pid files.owners ≡ some owner
    → Consistent files
    → (files' : Files) × (close_opened_files pid files ≡ some files')
      × Consistent files'
      × ((b : ℕ) → refs b files'.owners + refs_in b owner.file_descriptors ≡ refs b files.owners)
unfolding close_opened_files
close_opened_files-Consistent pid files {owner} found h =
    let clear = λ (o : Owner). record o { file_descriptors = [] } in
    let left : (b : ℕ)
        → refs b (set_owner pid clear files.owners) + refs_in b owner.file_descriptors
          ≡ refs b files.owners =
      λ b. omega (arith, refs-set_owner b pid clear files.owners {owner = owner} found) in
    let (gs, closes, kept) =
      close_all-Matches owner.file_descriptors files.globals h
        (λ b. refs b (set_owner pid clear files.owners)) left in
    (
      change_owner pid clear (record files { globals = gs }),
      rw (found, closes, close_opened_files),
      kept,
      left,
    )
