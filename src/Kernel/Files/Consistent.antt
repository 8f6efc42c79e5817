-- ===== src/Kernel/Files/Consistent.antt =====
-- The list of open files is in step with the descriptors, and stays so when a file is opened.
use socketapp.Common.{
  ℕ, ◌+◌, ◌^◌, ◌<◌, ◌≡◌, refl, inl, inr, Bool, true, false, none, some, List, [], ◌∷◌, arith, ◌==◌,
  Bool-cases, Option-cases,
}
use socketapp.Kernel.Files.{
  Fd, Owner, Files, Servers, validar, find_owner, set_owner, change_owner, interrupted, tell, reply,
  with_descriptor, strstr, permission_create, file_descriptor_global_get_by_path,
  file_descriptor_create, file_descriptor_global_create,
}
use socketapp.Kernel.Files.Descriptors.{
  open_file, create_both, refuse, error_fs_operation, error_file_create_permision,
}
use socketapp.Kernel.Files.Counts.{one, refs_in, refs, refs_in-append}
use socketapp.Kernel.Files.Owners.{refs-set_owner, refs-set_owner_same}
use socketapp.Kernel.Files.Matches.{Matches, raise-Matches}
use socketapp.Kernel.Files.Created.{Matches-refs, by_path-find_address, create-Matches}

-- Each object in the list is open as often as descriptors refer to it, and each descriptor refers to one.
abbrev pub Consistent : Files → Type 0
Consistent files = Matches files.next_address files.globals (λ a. refs a files.owners)

pub change_owner-Consistent :
    (pid : ℕ) (change : Owner → Owner) (files : Files)
    → ((a : ℕ) (owner : Owner)
        → refs_in a (change owner).file_descriptors ≡ refs_in a owner.file_descriptors)
    → Consistent files
    → Consistent (change_owner pid change files)
change_owner-Consistent pid change files keeps h =
    Matches-refs h (λ a. refs-set_owner_same a pid change files.owners (keeps a))

pub reply-Consistent :
    (pid value : ℕ) (goes : Bool) (files : Files)
    → Consistent files
    → Consistent (reply pid value goes files)
reply-Consistent pid value true files h = h
reply-Consistent pid value false files h = h

pub refuse-Consistent :
    (pid code : ℕ) (goes : Bool) (files : Files)
    → Consistent files
    → Consistent (refuse pid code goes files)
refuse-Consistent pid code goes files h =
    let marked = change_owner pid (interrupted code) files in
    reply-Consistent pid 0 goes marked
      (change_owner-Consistent pid (interrupted code) files (λ a o. refl) h)

module _ (pid : ℕ) (files : Files) {owner : Owner}
    (found : find_owner pid files.owners ≡ some owner) (h : Consistent files) where
  with_descriptor-refs :
      (address : ℕ) (permissions : List ℕ) (b : ℕ)
      → refs b (set_owner pid (with_descriptor address permissions) files.owners)
        ≡ refs b files.owners + one address b
  with_descriptor-refs address permissions b =
      let fd : Fd = record {
        value = owner.incremental_fd;
        cursor = 0;
        permissions = permissions;
        global = address;
      } in
      omega (
        arith,
        refs-set_owner b pid (with_descriptor address permissions) files.owners {owner = owner}
            found,
        refs_in-append b owner.file_descriptors (fd ∷ []),
      )

  create_both-Consistent :
      (path flags : List ℕ)
      → file_descriptor_global_get_by_path path files.globals ≡ none
      → Consistent (create_both pid path flags files)
  unfolding file_descriptor_create file_descriptor_global_create
  create_both-Consistent path flags missing =
      Matches-refs (create-Matches h path missing) (with_descriptor-refs files.next_address flags)

  -- What `handle_cpu_abrir` does between its locks, whatever the FileSystem answers.
  pub open_file-Consistent :
      (servers : Servers) (number : ℕ) (path flags : List ℕ)
      → ((a : ℕ) → refs a files.owners + 1 < 2 ^ 31)
      → Consistent (open_file servers pid number path flags files).1
  unfolding open_file file_descriptor_create file_descriptor_global_create
  open_file-Consistent servers number path flags room =
      elim (Option-cases (file_descriptor_global_get_by_path path files.globals)) [
        | inr (g, there) ↦
            let at_address = by_path-find_address path files.globals {g = g} h.single there in
            rw (there, open_file)
              (Matches-refs (raise-Matches h g.address {g = g} at_address (room g.address))
                (with_descriptor-refs g.address flags))
        | inl missing ↦
            let both = create_both-Consistent path flags missing in
            let asked = tell (validar path) files in
            elim (Bool-cases (servers.filesystem_validate path == 1)) [
              | inl valid ↦ rw (missing, valid, open_file) both
              | inr invalid ↦ elim (Bool-cases (strstr flags permission_create)) [
                | inr forbidden ↦
                    simp (missing, invalid, forbidden, open_file)
                      (change_owner-Consistent pid (interrupted error_file_create_permision) asked
                        (λ a o. refl) h)
                | inl allowed ↦ elim (Bool-cases (servers.filesystem_create path == 1)) [
                  | inl created ↦ simp (missing, invalid, allowed, created, open_file) both
                  | inr failed ↦
                      simp (missing, invalid, allowed, failed, open_file)
                        (change_owner-Consistent pid (interrupted error_fs_operation) asked
                          (λ a o. refl) h)
                ]
              ]
            ]
      ]
