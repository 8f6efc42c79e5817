-- ===== src/Kernel/Files/Created.antt =====
-- A file that is opened: a reference to an object that is there, or to a new one.
use socketapp.Common.{
  ℕ, ◌+◌, ◌≤◌, ◌<◌, ◌≡◌, refl, sym, ap, ◌∙◌, inl, inr, Bool, true, false, none, some, List, [], ◌∷◌,
  ◌++◌, subst, arith, ◌==◌, if◌then◌else◌, ==_iff, ==_refl, Bool-cases, same_bytes, same_bytes_iff,
}
use mathlib.Core.Option.{some-injective}
use socketapp.Kernel.Files.{
  GlobalFd, find_address, file_descriptor_global_get_by_path, set_opened, up,
}
use socketapp.Kernel.Files.Counts.{
  one, one_self, opens, count_address, count_path, path_one, AllOpen,
}
use socketapp.Kernel.Files.Matches.{Matches, opens-none}

pub Matches-refs :
    {next : ℕ} {gs : List GlobalFd} {r r' : ℕ → ℕ}
    → Matches next gs r
    → ((a : ℕ) → r' a ≡ r a)
    → Matches next gs r'
Matches-refs m same = record {
  balanced = λ a. m.balanced a ∙ sym (same a);
  single = m.single;
  fresh = m.fresh;
  one_path = m.one_path;
  all_open = m.all_open;
  small = λ a. omega (arith, same a, m.small a);
}

by_path-counted :
    (path : List ℕ) (gs : List GlobalFd) {g : GlobalFd}
    → file_descriptor_global_get_by_path path gs ≡ some g
    → 0 < count_address g.address gs
unfolding file_descriptor_global_get_by_path
by_path-counted path [] {g} h = absurd (ground arith)
by_path-counted path (x ∷ gs) {g} h = elim (Bool-cases (same_bytes x.path path)) [
  | inl here ↦
      let e : some x ≡ some g = rw (here, file_descriptor_global_get_by_path) at h in
      let self : one x.address g.address ≡ 1 =
        subst (λ y. one x.address y.address ≡ 1) (some-injective x g e) (one_self x.address) in
      omega (arith, self)
  | inr apart ↦
      omega (
        arith,
        by_path-counted path gs {g = g} (rw (apart, file_descriptor_global_get_by_path) at h),
      )
]

-- An object that is found by its path is the one behind its address.
pub by_path-find_address :
    (path : List ℕ) (gs : List GlobalFd) {g : GlobalFd}
    → ((a : ℕ) → count_address a gs ≤ 1)
    → file_descriptor_global_get_by_path path gs ≡ some g
    → find_address g.address gs ≡ some g
unfolding file_descriptor_global_get_by_path find_address
by_path-find_address path [] {g} single h = absurd (ground arith)
by_path-find_address path (x ∷ gs) {g} single h = elim (Bool-cases (same_bytes x.path path)) [
  | inl here ↦
      let e : some x ≡ some g = rw (here, file_descriptor_global_get_by_path) at h in
      let same = some-injective x g e in
      let self : (x.address == g.address) ≡ true =
        subst (λ y. (x.address == y.address) ≡ true) same (==_refl x.address) in
      rw (self, find_address) e
  | inr apart ↦
      let e : file_descriptor_global_get_by_path path gs ≡ some g =
        rw (apart, file_descriptor_global_get_by_path) at h in
      let counted = by_path-counted path gs {g = g} e in
      let limit = single g.address in
      let other : (x.address == g.address) ≡ false = ground arith in
      rw (other, find_address)
        (by_path-find_address path gs {g = g} (λ a. omega (arith, single a)) e)
]

by_path-none :
    (path : List ℕ) (gs : List GlobalFd)
    → file_descriptor_global_get_by_path path gs ≡ none
    → count_path path gs ≡ 0
unfolding file_descriptor_global_get_by_path
by_path-none path [] h = refl
by_path-none path (x ∷ gs) h = elim (Bool-cases (same_bytes x.path path)) [
  | inl here ↦
      let e : some x ≡ none = rw (here, file_descriptor_global_get_by_path) at h in
      absurd (ground arith)
  | inr apart ↦
      let e : file_descriptor_global_get_by_path path gs ≡ none =
        rw (apart, file_descriptor_global_get_by_path) at h in
      rw apart (omega (arith, by_path-none path gs e))
]

set_opened-last :
    (change : ℕ → ℕ) (gs : List GlobalFd) (g : GlobalFd)
    → count_address g.address gs ≡ 0
    → set_opened g.address change (gs ++ (g ∷ []))
      ≡ gs ++ (record g { opened = change g.opened } ∷ [])
unfolding set_opened
set_opened-last change [] g h =
    let self : (g.address == g.address) ≡ true = ==_refl g.address in rw (self, set_opened) refl
set_opened-last change (x ∷ gs) g h =
    let other : (x.address == g.address) ≡ false = ground arith in
    rw (other, set_opened) (ap (λ l. x ∷ l) (set_opened-last change gs g (omega arith)))

append-counts :
    (b : ℕ) (path : List ℕ) (gs : List GlobalFd) (g : GlobalFd)
    → (opens b (gs ++ (g ∷ [])) ≡ opens b gs + (if g.address == b then g.opened else 0))
      × (count_address b (gs ++ (g ∷ [])) ≡ count_address b gs + one g.address b)
      × (count_path path (gs ++ (g ∷ [])) ≡ count_path path gs + path_one path g)
append-counts b path [] g = (omega arith, omega arith, omega arith)
append-counts b path (x ∷ gs) g =
    let ih = append-counts b path gs g in
    (omega (arith, ih.0), omega (arith, ih.1), omega (arith, ih.2))

append-AllOpen :
    (gs : List GlobalFd) (g : GlobalFd) → AllOpen gs → 0 < g.opened → AllOpen (gs ++ (g ∷ []))
append-AllOpen [] g all h = (h, tt)
append-AllOpen (x ∷ gs) g all h = (all.0, append-AllOpen gs g all.1 h)

at_most_one : (b : Bool) → (if b then 1 else 0) ≤ 1
at_most_one b = ground arith

-- A new object, with one reference.
pub create-Matches :
    {next : ℕ} {gs : List GlobalFd} {r : ℕ → ℕ}
    → Matches next gs r
    → (path : List ℕ) → file_descriptor_global_get_by_path path gs ≡ none
    → Matches
        (next + 1)
        (set_opened next up (gs ++ (record { address = next; path = path; opened = 0 } ∷ [])))
        (λ b. r b + one next b)
create-Matches {next} {gs} {r} m path missing =
    let new : GlobalFd = record { address = next; path = path; opened = 0 } in
    let made : GlobalFd = record { address = next; path = path; opened = 1 } in
    let unused = m.fresh next (omega arith) in
    let no_refs : r next ≡ 0 = sym (m.balanced next) ∙ opens-none next gs unused in
    let absent = by_path-none path gs missing in
    let at_end : set_opened next up (gs ++ (new ∷ [])) ≡ gs ++ (made ∷ []) =
      set_opened-last up gs new unused in
    let counts = λ (b : ℕ) (p : List ℕ). append-counts b p gs made in
    let holds : Matches (next + 1) (gs ++ (made ∷ [])) (λ b. r b + one next b) = record {
      balanced = λ b. omega (arith, (counts b []).0, m.balanced b);
      single = λ b. elim (Bool-cases (next == b)) [
        | inl same ↦
            let free = subst (λ c. count_address c gs ≡ 0) ((==_iff next b).0 same) unused in
            omega (arith, (counts b []).1, free, at_most_one (next == b))
        | inr different ↦
            let no_one : one next b ≡ 0 = rw different refl in
            omega (arith, (counts b []).1, m.single b, no_one)
      ];
      fresh = λ b h.
          let no_one : one next b ≡ 0 = ground arith in
          omega (arith, (counts b []).1, m.fresh b (omega arith), no_one);
      one_path = λ p. elim (Bool-cases (same_bytes path p)) [
        | inl same ↦
            let free = subst (λ q. count_path q gs ≡ 0) ((same_bytes_iff path p).0 same) absent in
            omega (arith, (counts 0 p).2, free, at_most_one (same_bytes path p))
        | inr different ↦
            let no_one : path_one p made ≡ 0 = rw different refl in
            omega (arith, (counts 0 p).2, m.one_path p, no_one)
      ];
      all_open = append-AllOpen gs made m.all_open (omega arith);
      small = λ b. elim (Bool-cases (next == b)) [
        | inl same ↦
            let zero_refs = subst (λ c. r c ≡ 0) ((==_iff next b).0 same) no_refs in
            omega (arith, zero_refs, at_most_one (next == b))
        | inr different ↦
            let no_one : one next b ≡ 0 = rw different refl in omega (arith, m.small b, no_one)
      ];
    } in
    subst (λ l. Matches (next + 1) l (λ b. r b + one next b)) (sym at_end) holds
