-- ===== src/Kernel/Files/Counts.antt =====
-- How often each file is open: its count, and the descriptors that refer to it.
use socketapp.Common.{
  ℕ, ◌+◌, ◌≤◌, ◌<◌, ◌≡◌, refl, sym, ap, ◌∙◌, inl, inr, true, false, none, some, List, [], ◌∷◌, ◌++◌,
  subst, arith, ◌==◌, if◌then◌else◌, ==_iff, ==_refl, Bool-cases, Option-cases, same_bytes,
  same_bytes_refl,
}
use mathlib.Core.Option.{some-injective}
use socketapp.Kernel.Files.{GlobalFd, Fd, Owner, find_address, remove_path, set_opened}

abbrev pub one : ℕ → ℕ → ℕ
one a b = if a == b then 1 else 0

-- The descriptors of a program that refer to an object, and those of all programs.
abbrev pub refs_in : ℕ → List Fd → ℕ
refs_in b [] = 0
refs_in b (fd ∷ fds) = one fd.global b + refs_in b fds

abbrev pub refs : ℕ → List Owner → ℕ
refs b [] = 0
refs b (owner ∷ owners) = refs_in b owner.file_descriptors + refs b owners

abbrev pub opens_one : ℕ → GlobalFd → ℕ
opens_one b g = if g.address == b then g.opened else 0

abbrev pub opens : ℕ → List GlobalFd → ℕ
opens b [] = 0
opens b (g ∷ gs) = opens_one b g + opens b gs

abbrev pub count_address : ℕ → List GlobalFd → ℕ
count_address b [] = 0
count_address b (g ∷ gs) = one g.address b + count_address b gs

abbrev pub path_one : List ℕ → GlobalFd → ℕ
path_one path g = if same_bytes g.path path then 1 else 0

abbrev pub count_path : List ℕ → List GlobalFd → ℕ
count_path path [] = 0
count_path path (g ∷ gs) = path_one path g + count_path path gs

-- Every object in the list is open.
abbrev pub AllOpen : List GlobalFd → Type 0
AllOpen [] = Unit {0}
AllOpen (g ∷ gs) = (0 < g.opened) × AllOpen gs

pub one_self : (a : ℕ) → one a a ≡ 1
one_self a = rw ==_refl

pub refs_in-append : (b : ℕ) (xs ys : List Fd) → refs_in b (xs ++ ys) ≡ refs_in b xs + refs_in b ys
refs_in-append b [] ys = omega arith
refs_in-append b (x ∷ xs) ys = omega (arith, refs_in-append b xs ys)

pub find_address-address :
    (a : ℕ) (gs : List GlobalFd) {g : GlobalFd} → find_address a gs ≡ some g → g.address ≡ a
unfolding find_address
find_address-address a [] {g} h = absurd (ground arith)
find_address-address a (x ∷ gs) {g} h = elim (Bool-cases (x.address == a)) [
  | inl here ↦
      let e : some x ≡ some g = rw (here, find_address) at h in
      sym (ap (λ y. y.address) (some-injective x g e)) ∙ (==_iff x.address a).0 here
  | inr apart ↦ find_address-address a gs {g = g} (rw (apart, find_address) at h)
]

-- An object that is found is counted.
pub find_address-counted :
    (a : ℕ) (gs : List GlobalFd) {g : GlobalFd}
    → find_address a gs ≡ some g
    → (0 < count_path g.path gs) × (g.opened ≤ opens a gs)
unfolding find_address
find_address-counted a [] {g} h = absurd (ground arith)
find_address-counted a (x ∷ gs) {g} h = elim (Bool-cases (x.address == a)) [
  | inl here ↦
      let e : some x ≡ some g = rw (here, find_address) at h in
      let same = some-injective x g e in
      let counted : path_one g.path x ≡ 1 =
        subst (λ y. path_one g.path y ≡ 1) (sym same) (rw (same_bytes_refl g.path) refl) in
      let opened : opens_one a x ≡ g.opened = rw here (ap (λ y. y.opened) same) in
      (omega (arith, counted), omega (arith, opened))
  | inr apart ↦
      let e : find_address a gs ≡ some g = rw (apart, find_address) at h in
      let ih = find_address-counted a gs {g = g} e in (omega (arith, ih.0), omega (arith, ih.1))
]

find_address-none : (a : ℕ) (gs : List GlobalFd) → find_address a gs ≡ none → opens a gs ≡ 0
unfolding find_address
find_address-none a [] h = refl
find_address-none a (x ∷ gs) h = elim (Bool-cases (x.address == a)) [
  | inl here ↦ let e : some x ≡ none = rw (here, find_address) at h in absurd (ground arith)
  | inr apart ↦
      let e : find_address a gs ≡ none = rw (apart, find_address) at h in
      rw apart (omega (arith, find_address-none a gs e))
]

-- An object that is open is found.
pub find_address-some :
    (a : ℕ) (gs : List GlobalFd) → 0 < opens a gs → (g : GlobalFd) × (find_address a gs ≡ some g)
find_address-some a gs h = elim (Option-cases (find_address a gs)) [
  | inl missing ↦ absurd (omega (arith, find_address-none a gs missing))
  | inr there ↦ there
]

pub opens-set_opened :
    (a b : ℕ) (change : ℕ → ℕ) (gs : List GlobalFd) {g : GlobalFd}
    → find_address a gs ≡ some g
    → opens b (set_opened a change gs) + (if a == b then g.opened else 0)
      ≡ opens b gs + (if a == b then change g.opened else 0)
unfolding find_address set_opened
opens-set_opened a b change [] {g} h = absurd (ground arith)
opens-set_opened a b change (x ∷ gs) {g} h = elim (Bool-cases (x.address == a)) [
  | inl here ↦
      let e : some x ≡ some g = rw (here, find_address) at h in
      let same = some-injective x g e in
      let at_a = (==_iff x.address a).0 here in
      let was : opens_one b x ≡ (if a == b then g.opened else 0) =
        ap (λ (n : ℕ). if n == b then x.opened else 0) at_a
        ∙ ap (λ y. if a == b then y.opened else 0) same in
      let now : (if x.address == b then change x.opened else 0)
          ≡ (if a == b then change g.opened else 0) =
        ap (λ (n : ℕ). if n == b then change x.opened else 0) at_a
        ∙ ap (λ y. if a == b then change y.opened else 0) same in
      rw (here, set_opened) (omega (arith, was, now))
  | inr apart ↦
      let e : find_address a gs ≡ some g = rw (apart, find_address) at h in
      rw (apart, set_opened) (omega (arith, opens-set_opened a b change gs {g = g} e))
]

-- A change of a count leaves addresses and paths.
pub set_opened-counts :
    (a : ℕ) (change : ℕ → ℕ) (gs : List GlobalFd) (b : ℕ) (path : List ℕ)
    → (count_address b (set_opened a change gs) ≡ count_address b gs)
      × (count_path path (set_opened a change gs) ≡ count_path path gs)
unfolding set_opened
set_opened-counts a change [] b path = (refl, refl)
set_opened-counts a change (x ∷ gs) b path = elim (Bool-cases (x.address == a)) [
  | inl here ↦ rw (here, set_opened) (refl, refl)
  | inr apart ↦
      let ih = set_opened-counts a change gs b path in
      rw (apart, set_opened) (omega (arith, ih.0), omega (arith, ih.1))
]

pub set_opened-AllOpen :
    (a : ℕ) (change : ℕ → ℕ) (gs : List GlobalFd) {g : GlobalFd}
    → find_address a gs ≡ some g
    → 0 < change g.opened
    → AllOpen gs
    → AllOpen (set_opened a change gs)
unfolding find_address set_opened
set_opened-AllOpen a change [] {g} h pos all = tt
set_opened-AllOpen a change (x ∷ gs) {g} h pos all = elim (Bool-cases (x.address == a)) [
  | inl here ↦
      let e : some x ≡ some g = rw (here, find_address) at h in
      rw (here, set_opened)
        (subst (λ y. 0 < change y.opened) (sym (some-injective x g e)) pos, all.1)
  | inr apart ↦
      let e : find_address a gs ≡ some g = rw (apart, find_address) at h in
      rw (apart, set_opened) (all.0, set_opened-AllOpen a change gs {g = g} e pos all.1)
]

-- What `remove_path` leaves, when the path of an object is its own.
pub remove_path-counts :
    (a : ℕ) (gs : List GlobalFd) {g : GlobalFd}
    → find_address a gs ≡ some g
    → count_path g.path gs ≤ 1
    → (b : ℕ) (path : List ℕ)
    → (opens b (remove_path g.path gs) + (if a == b then g.opened else 0) ≡ opens b gs)
      × (count_address b (remove_path g.path gs) ≤ count_address b gs)
      × (count_path path (remove_path g.path gs) ≤ count_path path gs)
unfolding find_address remove_path
remove_path-counts a [] {g} h single b path = absurd (ground arith)
remove_path-counts a (x ∷ gs) {g} h single b path = elim (Bool-cases (x.address == a)) [
  | inl here ↦
      let e : some x ≡ some g = rw (here, find_address) at h in
      let same = some-injective x g e in
      let own : same_bytes x.path g.path ≡ true =
        subst (λ y. same_bytes y.path g.path ≡ true) (sym same) (same_bytes_refl g.path) in
      let was : opens_one b x ≡ (if a == b then g.opened else 0) =
        ap (λ (n : ℕ). if n == b then x.opened else 0) ((==_iff x.address a).0 here)
        ∙ ap (λ y. if a == b then y.opened else 0) same in
      rw (own, remove_path) (omega (arith, was), omega arith, omega arith)
  | inr apart ↦
      let e : find_address a gs ≡ some g = rw (apart, find_address) at h in
      let counted = (find_address-counted a gs {g = g} e).0 in
      let other : same_bytes x.path g.path ≡ false = ground arith in
      let ih = remove_path-counts a gs {g = g} e (omega arith) b path in
      rw (other, remove_path) (omega (arith, ih.0), omega (arith, ih.1), omega (arith, ih.2))
]

pub remove_path-AllOpen :
    (path : List ℕ) (gs : List GlobalFd) → AllOpen gs → AllOpen (remove_path path gs)
unfolding remove_path
remove_path-AllOpen path [] all = tt
remove_path-AllOpen path (x ∷ gs) all = elim (Bool-cases (same_bytes x.path path)) [
  | inl here ↦ rw (here, remove_path) all.1
  | inr apart ↦ rw (apart, remove_path) (all.0, remove_path-AllOpen path gs all.1)
]
