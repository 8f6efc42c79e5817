-- ===== src/Kernel/Files/Owners.antt =====
-- The descriptors of one program among those of all.
use socketapp.Common.{
  ℕ, ◌+◌, ◌≤◌, ◌≡◌, refl, sym, ap, ◌∙◌, inl, inr, true, some, List, [], ◌∷◌, arith, ◌==◌, ==_iff,
  Bool-cases,
}
use mathlib.Core.Option.{some-injective}
use socketapp.Kernel.Files.{
  Fd, Owner, find_owner, set_owner, file_descriptor_get_by_number, remove_fd,
}
use socketapp.Kernel.Files.Counts.{one, refs_in, refs}

pub refs-set_owner :
    (b pid : ℕ) (change : Owner → Owner) (owners : List Owner) {owner : Owner}
    → find_owner pid owners ≡ some owner
    → refs b (set_owner pid change owners) + refs_in b owner.file_descriptors
      ≡ refs b owners + refs_in b (change owner).file_descriptors
unfolding find_owner set_owner
refs-set_owner b pid change [] {owner} h = absurd (ground arith)
refs-set_owner b pid change (x ∷ owners) {owner} h = elim (Bool-cases (x.pid == pid)) [
  | inl here ↦
      let e : some x ≡ some owner = rw (here, find_owner) at h in
      let same = some-injective x owner e in
      rw (here, set_owner)
        (omega (
          arith,
          ap (λ o. refs_in b o.file_descriptors) same,
          ap (λ o. refs_in b (change o).file_descriptors) same,
        ))
  | inr apart ↦
      let e : find_owner pid owners ≡ some owner = rw (apart, find_owner) at h in
      rw (apart, set_owner) (omega (arith, refs-set_owner b pid change owners {owner = owner} e))
]

pub refs-set_owner_same :
    (b pid : ℕ) (change : Owner → Owner) (owners : List Owner)
    → ((owner : Owner)
        → refs_in b (change owner).file_descriptors ≡ refs_in b owner.file_descriptors)
    → refs b (set_owner pid change owners) ≡ refs b owners
unfolding set_owner
refs-set_owner_same b pid change [] keeps = refl
refs-set_owner_same b pid change (x ∷ owners) keeps = elim (Bool-cases (x.pid == pid)) [
  | inl here ↦ rw (here, set_owner) (omega (arith, keeps x))
  | inr apart ↦ rw (apart, set_owner) (omega (arith, refs-set_owner_same b pid change owners keeps))
]

pub find_owner-set_owner :
    (pid : ℕ) (change : Owner → Owner) (owners : List Owner) {owner : Owner}
    → ((o : Owner) → (change o).pid ≡ o.pid)
    → find_owner pid owners ≡ some owner
    → find_owner pid (set_owner pid change owners) ≡ some (change owner)
unfolding find_owner set_owner
find_owner-set_owner pid change [] {owner} keeps h = absurd (ground arith)
find_owner-set_owner pid change (x ∷ owners) {owner} keeps h = elim (Bool-cases (x.pid == pid)) [
  | inl here ↦
      let e : some x ≡ some owner = rw (here, find_owner) at h in
      let still : ((change x).pid == pid) ≡ true = ap (λ n. n == pid) (keeps x) ∙ here in
      rw (here, set_owner)
        (rw (still, find_owner) (ap (λ o. some (change o)) (some-injective x owner e)))
  | inr apart ↦
      let e : find_owner pid owners ≡ some owner = rw (apart, find_owner) at h in
      rw (apart, set_owner)
        (rw (apart, find_owner) (find_owner-set_owner pid change owners {owner = owner} keeps e))
]

pub refs_in-owner :
    (b pid : ℕ) (owners : List Owner) {owner : Owner}
    → find_owner pid owners ≡ some owner
    → refs_in b owner.file_descriptors ≤ refs b owners
unfolding find_owner
refs_in-owner b pid [] {owner} h = absurd (ground arith)
refs_in-owner b pid (x ∷ owners) {owner} h = elim (Bool-cases (x.pid == pid)) [
  | inl here ↦
      let e : some x ≡ some owner = rw (here, find_owner) at h in
      omega (arith, ap (λ o. refs_in b o.file_descriptors) (some-injective x owner e))
  | inr apart ↦
      omega (arith, refs_in-owner b pid owners {owner = owner} (rw (apart, find_owner) at h))
]

pub get_by_number-value :
    (number : ℕ) (fds : List Fd) {fd : Fd}
    → file_descriptor_get_by_number number fds ≡ some fd
    → fd.value ≡ number
unfolding file_descriptor_get_by_number
get_by_number-value number [] {fd} h = absurd (ground arith)
get_by_number-value number (x ∷ fds) {fd} h = elim (Bool-cases (x.value == number)) [
  | inl here ↦
      let e : some x ≡ some fd = rw (here, file_descriptor_get_by_number) at h in
      sym (ap (λ y. y.value) (some-injective x fd e)) ∙ (==_iff x.value number).0 here
  | inr apart ↦
      get_by_number-value number fds {fd = fd} (rw (apart, file_descriptor_get_by_number) at h)
]

-- A descriptor that is found and removed is one reference less.
pub refs_in-remove_fd :
    (b number : ℕ) (fds : List Fd) {fd : Fd}
    → file_descriptor_get_by_number number fds ≡ some fd
    → refs_in b (remove_fd number fds) + one fd.global b ≡ refs_in b fds
unfolding file_descriptor_get_by_number remove_fd
refs_in-remove_fd b number [] {fd} h = absurd (ground arith)
refs_in-remove_fd b number (x ∷ fds) {fd} h = elim (Bool-cases (x.value == number)) [
  | inl here ↦
      let e : some x ≡ some fd = rw (here, file_descriptor_get_by_number) at h in
      rw (here, remove_fd) (omega (arith, ap (λ y. one y.global b) (some-injective x fd e)))
  | inr apart ↦
      let e : file_descriptor_get_by_number number fds ≡ some fd =
        rw (apart, file_descriptor_get_by_number) at h in
      rw (apart, remove_fd) (omega (arith, refs_in-remove_fd b number fds {fd = fd} e))
]
