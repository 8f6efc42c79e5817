-- ===== src/Memory/Ram/Probe.antt =====
-- The probe loop that both searches of ram.c share.
use native.Mathlib.Nat.{mod-add-mod, mod-eq_of_lt, mod-eq-sub-mod}
use native.Mathlib.Decide.{dec_lt}
use socketapp.Common.{
  ℕ, zero, suc, ◌+◌, ◌-◌, ◌%◌, ◌≤◌, ◌<◌, ◌≡◌, Bool, true, false, none, some, List, arith, get_elem?,
  length, get_elem?_of_lt, Bool-cases, Option-cases, inl, inr,
}
use socketapp.Memory.Ram.{PageTableEntry, probe}

shift : (index k : ℕ) → index + 1 + k ≡ index + suc k
shift index k = omega arith

round_ahead : (index i count : ℕ) → index ≤ i → i < count → (index + (i - index)) % count ≡ i
round_ahead index i count le lt =
    let e : index + (i - index) ≡ i = omega arith in rw e (mod-eq_of_lt lt)

round_behind :
    (index i count : ℕ) → i < index → index < count → (index + (i + count - index)) % count ≡ i
round_behind index i count lt h =
    let e : index + (i + count - index) ≡ i + count = omega arith in
    let back : i + count - count ≡ i = omega arith in
    rw (e, mod-eq-sub-mod {n = i + count} {m = count} (omega arith), back)
      (mod-eq_of_lt (omega arith))

module _ (test : PageTableEntry → Bool) (table : List PageTableEntry) (count : ℕ) where
  -- What the loop finds passes the test, and lies inside the first `count` entries.
  pub probe-finds :
      (rounds index : ℕ) {i : ℕ}
      → index < count
      → probe test table count rounds index ≡ some i
      → (i < count)
        × (entry : PageTableEntry) × (get_elem? table i ≡ some entry)
        × (test entry ≡ true)
  unfolding probe
  probe-finds zero index h e = absurd (ground arith)
  probe-finds (suc rounds) index {i} h e = elim (Option-cases (get_elem? table index)) [
    | inl out ↦ absurd (ground arith)
    | inr (entry, get) ↦ elim (Bool-cases (test entry)) [
      | inl hit ↦ let here : index ≡ i = ground arith in rw (← here) (h, entry, get, hit)
      | inr miss ↦ probe-finds rounds ((index + 1) % count) (omega (arith)) (ground arith)
    ]
  ]

  probe-skips :
      (rounds index k : ℕ) (entry : PageTableEntry)
      → index < count
      → count ≤ length table
      → probe test table count rounds index ≡ none
      → k < rounds
      → get_elem? table ((index + k) % count) ≡ some entry
      → test entry ≡ false
  unfolding probe
  probe-skips zero index k entry h len e lt get = elim lt [ ]
  probe-skips (suc rounds) index zero entry h len e lt get =
      let here : (index + 0) % count ≡ index = grind (arith, mod-eq_of_lt) in
      let get' : get_elem? table index ≡ some entry = rw here at get in ground arith
  probe-skips (suc rounds) index (suc k) entry h len e lt get =
      let (other, get') = get_elem?_of_lt table index (omega arith) in
      probe-skips rounds ((index + 1) % count) k entry (omega arith) len (ground arith)
        (omega arith) (rw mod-add-mod (rw (shift index k) get))

  -- A loop of `count` rounds that finds nothing has tested every entry.
  pub probe-none :
      (index i : ℕ) (entry : PageTableEntry)
      → index < count
      → count ≤ length table
      → probe test table count count index ≡ none
      → i < count
      → get_elem? table i ≡ some entry
      → test entry ≡ false
  probe-none index i entry h len e lt get = elim (dec_lt i index) [
    | no p ↦
        probe-skips count index (i - index) entry h len e (omega arith)
          (rw (round_ahead index i count (omega arith) lt) get)
    | yes p ↦
        probe-skips count index (i + count - index) entry h len e (omega arith)
          (rw (round_behind index i count p h) get)
  ]
