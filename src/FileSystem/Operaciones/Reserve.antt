-- ===== src/FileSystem/Operaciones/Reserve.antt =====
-- The blocks that `guardarDatos` adds to a file: free ones, each of them once.
use socketapp.Common.{
  All, All-append, All-map, ℕ, zero, suc, ◌≤◌, ◌<◌, ◌≡◌, ◌≢◌, inl, inr, refl, sym, ap, ◌∙◌, List,
  [], true, false, ◌∷◌, ◌++◌, arith, length, append_assoc, append-nil, subst,
}
use socketapp.FileSystem.Bitmap.{
  BitArray, encontrar_un_bloque_libre, ocupar_bloque_libre, cant_bloques_libres_bitmap,
}
use socketapp.FileSystem.Bitmap.Counts.{IsBitArray, encontrar-ocupar}
use socketapp.FileSystem.Operaciones.{asignar_bloques}
use socketapp.FileSystem.Operaciones.Blocks.{Apart}

Apart-snoc : (xs : List ℕ) (p : ℕ) → Apart xs → All (λ x. x ≢ p) xs → Apart (xs ++ (p ∷ []))
Apart-snoc [] p apart out = (tt, tt)
Apart-snoc (x ∷ xs) p (outx, apart) (ne, out) =
    (All-append (λ b. b ≢ x) xs (p ∷ []) outx ((λ e. ne (sym e)), tt), Apart-snoc xs p apart out)

module _ {B : Type 0} (bits : BitArray B) where
  -- The blocks are marked as used.
  abbrev pub Used : B → List ℕ → Type 0
  Used bitarray = All (λ b. bits.test_bit bitarray b ≡ true)

  apart_bits :
      (bitarray : B) {x y : ℕ}
      → bits.test_bit bitarray x ≡ true
      → bits.test_bit bitarray y ≡ false
      → x ≢ y
  apart_bits bitarray u free e = cc (ap (bits.test_bit bitarray) e)

  -- These blocks were free, and there are `n` of them; with those that the file had they are marked, and
  -- no block stands twice.
  pub record Asignado (n : ℕ) (bloques : List ℕ) (bitarray : B) : Type 0 where
    pub nuevos : List ℕ
    pub answers : (asignar_bloques bits n bloques bitarray).0 ≡ bloques ++ nuevos
    pub as_many : length nuevos ≡ n
    pub were_free :
        All (λ b. (bits.test_bit bitarray b ≡ false) × (b < bits.get_max_bit bitarray)) nuevos
    pub apart : Apart (bloques ++ nuevos)
    pub stays_used :
        (b : ℕ)
        → bits.test_bit bitarray b ≡ true
        → bits.test_bit (asignar_bloques bits n bloques bitarray).1 b ≡ true
    pub max_same :
        bits.get_max_bit (asignar_bloques bits n bloques bitarray).1 ≡ bits.get_max_bit bitarray
    pub used : Used (asignar_bloques bits n bloques bitarray).1 (bloques ++ nuevos)

  module _ (laws : IsBitArray bits) where
    pub asignar_bloques-Asignado :
        (n : ℕ) (bloques : List ℕ) (bitarray : B)
        → n ≤ cant_bloques_libres_bitmap bits (bits.get_max_bit bitarray) bitarray
        → Apart bloques
        → Used bitarray bloques
        → Asignado n bloques bitarray
    unfolding asignar_bloques ocupar_bloque_libre
    asignar_bloques-Asignado zero bloques bitarray le apart used = record {
      nuevos = [];
      answers = sym (append-nil bloques);
      as_many = refl;
      were_free = tt;
      apart = rw append-nil apart;
      stays_used = λ b u. u;
      max_same = refl;
      used = rw append-nil used;
    }
    asignar_bloques-Asignado (suc n) bloques bitarray le apart used =
        elim (encontrar-ocupar bits laws bitarray (bits.get_max_bit bitarray) refl) [
          | inl (no_block, none_free) ↦ absurd (omega arith)
          | inr (found, marked, one_less) ↦
              let p = encontrar_un_bloque_libre bits bitarray in
              let bitarray' = ocupar_bloque_libre bits bitarray p in
              let inside : p < bits.get_max_bit bitarray = omega (arith, found.inside) in
              let max_same : bits.get_max_bit bitarray' ≡ bits.get_max_bit bitarray =
                laws.max_bit-set bitarray p in
              let out : All (λ x. x ≢ p) bloques =
                All-map (λ x. bits.test_bit bitarray x ≡ true) (λ x. x ≢ p) bloques
                  (λ x u. apart_bits bitarray u found.free) used in
              let used' : Used bitarray' (bloques ++ (p ∷ [])) =
                All-append (λ x. bits.test_bit bitarray' x ≡ true) bloques (p ∷ [])
                  (All-map (λ x. bits.test_bit bitarray x ≡ true)
                    (λ x. bits.test_bit bitarray' x ≡ true) bloques
                    (λ x u.
                      laws.test-set_other bitarray p x
                        (λ e. apart_bits bitarray u found.free (sym e))
                      ∙ u)
                    used)
                  (marked, tt) in
              let enough : n
                  ≤ cant_bloques_libres_bitmap bits (bits.get_max_bit bitarray') bitarray' =
                rw max_same (omega (arith, one_less)) in
              let rest =
                asignar_bloques-Asignado n (bloques ++ (p ∷ [])) bitarray' enough
                  (Apart-snoc bloques p apart out) used' in
              let regroup = append_assoc bloques (p ∷ []) rest.nuevos in
              record {
                nuevos = p ∷ rest.nuevos;
                answers = rest.answers ∙ regroup;
                as_many = ap suc rest.as_many;
                were_free = (
                  (found.free, inside),
                  All-map
                      (λ b. (bits.test_bit bitarray' b ≡ false) × (b < bits.get_max_bit bitarray'))
                      (λ b. (bits.test_bit bitarray b ≡ false) × (b < bits.get_max_bit bitarray))
                      rest.nuevos
                      (λ b (free, below). (
                        sym (
                              laws.test-set_other bitarray p b
                                (λ e. apart_bits bitarray' marked free e))
                            ∙ free,
                        subst (λ m. b < m) max_same below,
                      ))
                      rest.were_free,
                );
                apart = subst Apart regroup rest.apart;
                stays_used = λ b u. rest.stays_used b (
                    laws.test-set_other bitarray p b (λ e. apart_bits bitarray u found.free (sym e))
                    ∙ u);
                max_same = rest.max_same ∙ max_same;
                used =
                    subst (Used (asignar_bloques bits n (bloques ++ (p ∷ [])) bitarray').1) regroup
                      rest.used;
              }
        ]
