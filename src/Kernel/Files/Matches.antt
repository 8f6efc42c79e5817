-- ===== src/Kernel/Files/Matches.antt =====
-- The list of open files matches the references to it, and what raises and lowers a count keeps that.
use socketapp.Common.{
  ℕ, ◌+◌, ◌^◌, ◌≤◌, ◌<◌, ◌≡◌, refl, sym, ap, ◌∙◌, inl, inr, true, false, some, List, [], ◌∷◌, subst,
  arith, ◌==◌, ==_iff, ==-eq-false, Bool-cases, same_bytes, same_bytes_refl,
}
use mathlib.Core.Option.{some-injective}
use socketapp.Kernel.Files.{GlobalFd, find_address, remove_path, set_opened, up, down}
use socketapp.Kernel.Files.Descriptors.{released_globals}
use socketapp.Kernel.Files.Counts.{
  one, one_self, opens, opens_one, count_address, count_path, AllOpen, find_address-address,
  find_address-counted, find_address-some, opens-set_opened, set_opened-counts, set_opened-AllOpen,
  remove_path-counts, remove_path-AllOpen,
}

-- `r` says how many references each object has; `next` is the next address.
pub record Matches (next : ℕ) (gs : List GlobalFd) (r : ℕ → ℕ) : Type 0 where
  pub balanced : (a : ℕ) → opens a gs ≡ r a
  pub single : (a : ℕ) → count_address a gs ≤ 1
  pub fresh : (a : ℕ) → next ≤ a → count_address a gs ≡ 0
  pub one_path : (path : List ℕ) → count_path path gs ≤ 1
  pub all_open : AllOpen gs
  pub small : (a : ℕ) → r a < 2 ^ 31

pub opens-none : (a : ℕ) (gs : List GlobalFd) → count_address a gs ≡ 0 → opens a gs ≡ 0
opens-none a [] h = refl
opens-none a (x ∷ gs) h =
    let ih = opens-none a gs (omega arith) in
    elim (Bool-cases (x.address == a)) [
      | inl here ↦
          let one_here : one x.address a ≡ 1 = rw here refl in absurd (omega (arith, one_here))
      | inr apart ↦ rw apart (omega (arith, ih))
    ]

-- An object with a reference is there, and its count is the number of references.
pub Matches-found :
    {next : ℕ} {gs : List GlobalFd} {r : ℕ → ℕ}
    → Matches next gs r
    → (a : ℕ) → 0 < r a
    → (g : GlobalFd) × (find_address a gs ≡ some g)
Matches-found {gs = gs} m a h = find_address-some a gs (omega (arith, m.balanced a))

opens-found :
    (a : ℕ) (gs : List GlobalFd) {g : GlobalFd}
    → find_address a gs ≡ some g
    → count_address a gs ≤ 1
    → opens a gs ≡ g.opened
unfolding find_address
opens-found a [] {g} h single = absurd (ground arith)
opens-found a (x ∷ gs) {g} h single = elim (Bool-cases (x.address == a)) [
  | inl here ↦
      let e : some x ≡ some g = rw (here, find_address) at h in
      let one_here : one x.address a ≡ 1 = rw here refl in
      let opened : opens_one a x ≡ g.opened = rw here (ap (λ y. y.opened) (some-injective x g e)) in
      omega (arith, opened, opens-none a gs (omega (arith, one_here)))
  | inr apart ↦
      let e : find_address a gs ≡ some g = rw (apart, find_address) at h in
      rw apart (omega (arith, opens-found a gs {g = g} e (omega arith)))
]

-- The path of an object is its own, so that its count does not matter when it is removed.
pub remove_path-set_opened :
    (a : ℕ) (change : ℕ → ℕ) (gs : List GlobalFd) {g : GlobalFd}
    → find_address a gs ≡ some g
    → count_path g.path gs ≤ 1
    → remove_path g.path (set_opened a change gs) ≡ remove_path g.path gs
unfolding find_address remove_path set_opened
remove_path-set_opened a change [] {g} h single = absurd (ground arith)
remove_path-set_opened a change (x ∷ gs) {g} h single = elim (Bool-cases (x.address == a)) [
  | inl here ↦
      let e : some x ≡ some g = rw (here, find_address) at h in
      let own : same_bytes x.path g.path ≡ true =
        subst (λ y. same_bytes y.path g.path ≡ true) (sym (some-injective x g e))
          (same_bytes_refl g.path) in
      rw (here, set_opened) (rw (own, remove_path) refl)
  | inr apart ↦
      let e : find_address a gs ≡ some g = rw (apart, find_address) at h in
      let counted = (find_address-counted a gs {g = g} e).0 in
      let other : same_bytes x.path g.path ≡ false = ground arith in
      rw (apart, set_opened)
        (rw (other, remove_path)
          (ap (λ l. x ∷ l) (remove_path-set_opened a change gs {g = g} e (omega arith))))
]

module _ {next : ℕ} {gs : List GlobalFd} {r : ℕ → ℕ} (m : Matches next gs r) (a : ℕ) {g : GlobalFd}
    (found : find_address a gs ≡ some g) where
  pub opened_refs : g.opened ≡ r a
  opened_refs = sym (opens-found a gs {g = g} found (m.single a)) ∙ m.balanced a

  -- One reference more.
  pub raise-Matches : r a + 1 < 2 ^ 31 → Matches next (set_opened a up gs) (λ b. r b + one a b)
  raise-Matches bound =
      let count = opened_refs in
      let more : up g.opened ≡ g.opened + 1 = omega arith in
      record {
        balanced = λ b.
            let e = opens-set_opened a b up gs {g = g} found in
            let m₁ = m.balanced b in ground (arith, more);
        single = λ b. omega (arith, (set_opened-counts a up gs b []).0, m.single b);
        fresh = λ b h. (set_opened-counts a up gs b []).0 ∙ m.fresh b h;
        one_path = λ p. omega (arith, (set_opened-counts a up gs a p).1, m.one_path p);
        all_open = set_opened-AllOpen a up gs {g = g} found (omega (arith, more)) m.all_open;
        small = λ b. elim (Bool-cases (a == b)) [
          | inl same ↦
              subst (λ c. r c + one a c < 2 ^ 31) ((==_iff a b).0 same)
                (omega (arith, bound, one_self a))
          | inr different ↦
              let none_here : one a b ≡ 0 = rw different refl in omega (arith, none_here, m.small b)
        ];
      }

  -- The last reference goes, and the object with it.
  pub delete-Matches :
      g.opened ≡ 1
      → (r' : ℕ → ℕ) → ((b : ℕ) → r' b + one a b ≡ r b)
      → Matches next (remove_path g.path gs) r'
  delete-Matches last r' fewer =
      let counts =
        λ (b : ℕ) (p : List ℕ). remove_path-counts a gs {g = g} found (m.one_path g.path) b p in
      record {
        balanced = λ b.
            let c = (counts b []).0 in
            let f = fewer b in let m₁ = m.balanced b in ground (arith, last);
        single = λ b. omega (arith, (counts b []).1, m.single b);
        fresh = λ b h. omega (arith, (counts b []).1, m.fresh b h);
        one_path = λ p. omega (arith, (counts a p).2, m.one_path p);
        all_open = remove_path-AllOpen g.path gs m.all_open;
        small = λ b. omega (arith, fewer b, m.small b);
      }

  -- One reference less: the object goes with its last one.
  pub release-Matches :
      (r' : ℕ → ℕ) → ((b : ℕ) → r' b + one a b ≡ r b) → Matches next (released_globals g gs) r'
  release-Matches r' fewer =
      let count = opened_refs in
      let self = one_self a in
      let at_a = fewer a in
      let bound = m.small a in
      let less : down g.opened + 1 ≡ g.opened = omega arith in
      let same_address = find_address-address a gs {g = g} found in
      let lowered = set_opened g.address down gs in
      let found' : find_address g.address gs ≡ some g =
        subst (λ n. find_address n gs ≡ some g) (sym same_address) found in
      let one_at = λ (b : ℕ). ap (λ n. one n b) same_address in
      let moved = λ (b : ℕ). opens-set_opened g.address b down gs {g = g} found' in
      let counts = λ (b : ℕ) (p : List ℕ). set_opened-counts g.address down gs b p in
      let small' : (b : ℕ) → r' b < 2 ^ 31 = λ b. omega (arith, fewer b, m.small b) in
      let balanced' : (b : ℕ) → opens b lowered ≡ r' b = λ b.
        let e = moved b in
        let f = fewer b in let o = one_at b in let m₁ = m.balanced b in ground (arith, less) in
      elim (Bool-cases (down g.opened == 0)) [
        | inr more ↦
            let left : 0 < down g.opened = let d = ==-eq-false (down g.opened) 0 in ground arith in
            rw more (record {
              balanced = balanced';
              single = λ b. omega (arith, (counts b []).0, m.single b);
              fresh = λ b h. (counts b []).0 ∙ m.fresh b h;
              one_path = λ p. omega (arith, (counts a p).1, m.one_path p);
              all_open = set_opened-AllOpen g.address down gs {g = g} found' left m.all_open;
              small = small';
            })
        | inl last ↦
            let single : g.opened ≡ 1 = let z = (==_iff (down g.opened) 0).0 last in omega arith in
            rw last (
              subst (λ l. Matches next l r')
                (sym (remove_path-set_opened g.address down gs {g = g} found' (m.one_path g.path)))
                (delete-Matches single r' fewer))
      ]
