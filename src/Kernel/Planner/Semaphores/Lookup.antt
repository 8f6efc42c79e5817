-- ===== src/Kernel/Planner/Semaphores/Lookup.antt =====
-- What a lookup of a semaphore or a shared variable finds after a write.
use socketapp.Common.{
  ℕ, ◌≡◌, refl, sym, inl, inr, Bool, true, false, Option, none, some, List, [], ◌∷◌, subst, arith,
  Bool-cases, same_bytes, same_bytes_iff,
}
use socketapp.Kernel.Planner.{Semaforo}
use socketapp.Kernel.Planner.Semaphores.{find_nombre, set_value}

-- The value of a semaphore that was found, if it is the written one.
abbrev pub written : Bool → ℕ → Option Semaforo → Option Semaforo
written true value (some sem) = some (record sem { value = value })
written true value none = none
written false value sem = sem

same_bytes-apart :
    (a b c : List ℕ) → same_bytes a c ≡ true → same_bytes b c ≡ false → same_bytes a b ≡ false
same_bytes-apart a b c p q = elim (Bool-cases (same_bytes a b)) [
  | inl same ↦
      let e : same_bytes b c ≡ true =
        subst (λ x. same_bytes x c ≡ true) ((same_bytes_iff a b).0 same) p in
      absurd (ground arith)
  | inr apart ↦ apart
]

same_bytes-apart_left :
    (a b c : List ℕ) → same_bytes a c ≡ false → same_bytes b c ≡ true → same_bytes a b ≡ false
same_bytes-apart_left a b c p q = elim (Bool-cases (same_bytes a b)) [
  | inl same ↦
      let e : same_bytes b c ≡ false =
        subst (λ x. same_bytes x c ≡ false) ((same_bytes_iff a b).0 same) p in
      absurd (ground arith)
  | inr apart ↦ apart
]

-- A lookup after a write finds the written value under the written name, and what was there
-- under any other name; a name that is missing stays missing.
pub find_nombre-set_value :
    (nombre other : List ℕ) (value : ℕ) (sems : List Semaforo)
    → find_nombre other (set_value nombre value sems)
      ≡ written (same_bytes nombre other) value (find_nombre other sems)
unfolding find_nombre set_value
find_nombre-set_value nombre other value [] = ground arith
find_nombre-set_value nombre other value (sem ∷ sems) =
    elim (Bool-cases (same_bytes nombre sem.nombre)) [
      | inl here ↦ elim (Bool-cases (same_bytes other sem.nombre)) [
        | inl there ↦
            let both : same_bytes nombre other ≡ true =
              subst (λ x. same_bytes nombre x ≡ true)
                (sym ((same_bytes_iff other sem.nombre).0 there)) here in
            rw (here, set_value, there, both, find_nombre) refl
        | inr apart ↦
            rw
              (
                here,
                set_value,
                apart,
                same_bytes-apart nombre other sem.nombre here apart,
                find_nombre,
              )
              refl
      ]
      | inr not_here ↦ elim (Bool-cases (same_bytes other sem.nombre)) [
        | inl there ↦
            rw
              (
                not_here,
                set_value,
                there,
                same_bytes-apart_left nombre other sem.nombre not_here there,
                find_nombre,
              )
              refl
        | inr apart ↦
            rw (not_here, set_value, apart, find_nombre)
              (find_nombre-set_value nombre other value sems)
      ]
    ]
