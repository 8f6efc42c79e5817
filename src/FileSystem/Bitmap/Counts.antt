-- ===== src/FileSystem/Bitmap/Counts.antt =====
-- What the functions of the bitmap count and find.
use socketapp.Common.{
  ℕ, zero, suc, ◌+◌, ◌≤◌, ◌<◌, ◌≡◌, ◌≢◌, ◌↔◌, ◌⊎◌, refl, sym, inl, inr, true, false, subst, arith,
  neg, ◌==◌, ==_iff, Bool-cases,
}
use socketapp.FileSystem.Bitmap.{
  BitArray, first_free, encontrar_un_bloque_libre, reaches, hay_n_bloques_libres,
  ocupar_bloque_libre, count_free, cant_bloques_libres_bitmap,
}

-- What the commons library documents: a bit is set or cleaned, the others and their number stay.
pub record IsBitArray {B : Type 0} (bits : BitArray B) : Type 0 where
  pub test-set_self :
      (b : B) (i : ℕ) → i < bits.get_max_bit b → bits.test_bit (bits.set_bit b i) i ≡ true
  pub test-set_other :
      (b : B) (i j : ℕ) → i ≢ j → bits.test_bit (bits.set_bit b i) j ≡ bits.test_bit b j
  pub max_bit-set : (b : B) (i : ℕ) → bits.get_max_bit (bits.set_bit b i) ≡ bits.get_max_bit b
  pub test-clean_self :
      (b : B) (i : ℕ) → i < bits.get_max_bit b → bits.test_bit (bits.clean_bit b i) i ≡ false
  pub test-clean_other :
      (b : B) (i j : ℕ) → i ≢ j → bits.test_bit (bits.clean_bit b i) j ≡ bits.test_bit b j
  pub max_bit-clean : (b : B) (i : ℕ) → bits.get_max_bit (bits.clean_bit b i) ≡ bits.get_max_bit b

module _ {B : Type 0} (bits : BitArray B) where
  reaches-count_free :
      (b : B) (necesitados n i libres : ℕ)
      → libres < necesitados
      → (reaches bits b necesitados n i libres ≡ true)
        ↔ (necesitados ≤ libres + count_free bits b n i)
  unfolding reaches count_free
  reaches-count_free b necesitados zero i libres lt =
      (λ e. absurd (ground arith), λ le. absurd (omega arith))
  reaches-count_free b necesitados (suc n) i libres lt = elim (Bool-cases (bits.test_bit b i)) [
    | inl used ↦
        rw (used, reaches, count_free) (reaches-count_free b necesitados n (i + 1) libres lt)
    | inr free ↦ elim (Bool-cases ((libres + 1) == necesitados)) [
      | inl here ↦ rw (free, here, reaches, count_free) (λ e. ground arith, λ le. refl)
      | inr later ↦
          let rest = reaches-count_free b necesitados n (i + 1) (libres + 1) (ground arith) in
          rw (free, later, reaches, count_free)
            (λ e. omega (arith, rest.0 e), λ le. rest.1 (omega arith))
    ]
  ]

  -- `hayNBloquesLibres` says whether as many blocks are free as `cantBloquesLibresBitmap` counts, when
  -- one is needed at least and the bitmap has one bit for each block.
  pub hay_n_bloques_libres_iff :
      (b : B) (necesitados cantidad : ℕ)
      → 0 < necesitados
      → bits.get_max_bit b ≡ cantidad
      → (hay_n_bloques_libres bits b necesitados ≡ true)
        ↔ (necesitados ≤ cant_bloques_libres_bitmap bits cantidad b)
  unfolding hay_n_bloques_libres cant_bloques_libres_bitmap
  hay_n_bloques_libres_iff b necesitados cantidad pos same =
      let iff = reaches-count_free b necesitados (bits.get_max_bit b) 0 0 pos in
      (λ e. rw (sym same) (omega (arith, iff.0 e)), λ le. iff.1 (rw same (omega arith)))

  -- The first free block among `n` from `pos` on.
  pub record FirstFree (b : B) (pos n p : ℕ) : Type 0 where
    pub behind : pos ≤ p
    pub inside : p < pos + n
    pub free : bits.test_bit b p ≡ false
    pub used_before : (j : ℕ) → pos ≤ j → j < p → bits.test_bit b j ≡ true

  first_free-cases :
      (b : B) (n pos : ℕ)
      → FirstFree b pos n (first_free bits b n pos)
        ⊎ ((first_free bits b n pos ≡ neg 1) × (count_free bits b n pos ≡ 0))
  unfolding first_free count_free
  first_free-cases b zero pos = inr (refl, refl)
  first_free-cases b (suc n) pos = elim (Bool-cases (bits.test_bit b pos)) [
    | inr free ↦ inl (
        rw (free, first_free)
          (record {
            behind = omega arith;
            inside = omega arith;
            free = free;
            used_before = λ j le lt. absurd (omega arith);
          }))
    | inl used ↦ elim (first_free-cases b n (pos + 1)) [
      | inl found ↦ inl (
          rw (used, first_free)
            (record {
              behind = omega (arith, found.behind);
              inside = omega (arith, found.inside);
              free = found.free;
              used_before = λ j le lt. elim (Bool-cases (pos == j)) [
                | inl here ↦ subst (λ x. bits.test_bit b x ≡ true) ((==_iff pos j).0 here) used
                | inr apart ↦ found.used_before j (ground arith) lt
              ];
            }))
      | inr (none_free, count) ↦ inr (rw (used, first_free) none_free, rw (used, count_free) count)
    ]
  ]

  module _ (laws : IsBitArray bits) (b : B) (p : ℕ) where
    count_free-set_apart :
        (n i : ℕ) → p < i → count_free bits (bits.set_bit b p) n i ≡ count_free bits b n i
    unfolding count_free
    count_free-set_apart zero i lt = refl
    count_free-set_apart (suc n) i lt = rw (
      laws.test-set_other b p i (λ same. absurd (omega arith)),
      count_free-set_apart n (i + 1) (omega arith),
      count_free,
    )

    count_free-set :
        (n i : ℕ)
        → p < bits.get_max_bit b
        → bits.test_bit b p ≡ false
        → i ≤ p
        → p < i + n
        → count_free bits (bits.set_bit b p) n i + 1 ≡ count_free bits b n i
    unfolding count_free
    count_free-set zero i room free le lt = absurd (omega arith)
    count_free-set (suc n) i room free le lt = elim (Bool-cases (p == i)) [
      | inl here ↦
          let same : i ≡ p = ground arith in
          let after = laws.test-set_self b p room in
          let rest = count_free-set_apart n (p + 1) (omega arith) in
          rw (same, after, free, count_free) (omega (arith, rest))
      | inr apart ↦
          let other = laws.test-set_other b p i (λ same. absurd (ground arith)) in
          let rest = count_free-set n (i + 1) room free (ground arith) (omega arith) in
          elim (Bool-cases (bits.test_bit b i)) [
            | inl used ↦ rw (other, used, count_free) rest
            | inr vacant ↦ rw (other, vacant, count_free) (omega (arith, rest))
          ]
    ]

  -- `encontrarUnBloqueLibre` answers -1 when no block is free, and otherwise the first free block;
  -- after `ocuparBloqueLibre` of it that block is not free any more, and one block less is free. The bitmap has one bit
  -- for each block.
  pub encontrar-ocupar :
      (laws : IsBitArray bits) (b : B) (cantidad : ℕ)
      → bits.get_max_bit b ≡ cantidad
      → ((encontrar_un_bloque_libre bits b ≡ neg 1)
          × (cant_bloques_libres_bitmap bits cantidad b ≡ 0))
        ⊎ (FirstFree b 0 cantidad (encontrar_un_bloque_libre bits b)
            × (bits.test_bit
                  (ocupar_bloque_libre bits b (encontrar_un_bloque_libre bits b))
                  (encontrar_un_bloque_libre bits b)
                ≡ true)
            × (cant_bloques_libres_bitmap bits cantidad
                    (ocupar_bloque_libre bits b (encontrar_un_bloque_libre bits b))
                  + 1
                ≡ cant_bloques_libres_bitmap bits cantidad b))
  unfolding encontrar_un_bloque_libre cant_bloques_libres_bitmap ocupar_bloque_libre
  encontrar-ocupar laws b cantidad same = elim (first_free-cases b (bits.get_max_bit b) 0) [
    | inr (nothing, count) ↦ inl (nothing, rw (sym same) count)
    | inl found ↦
        let inside = found.inside in
        let room : first_free bits b (bits.get_max_bit b) 0 < bits.get_max_bit b = omega arith in
        inr (
          subst (λ n. FirstFree b 0 n (first_free bits b (bits.get_max_bit b) 0)) same found,
          laws.test-set_self b (first_free bits b (bits.get_max_bit b) 0) room,
          subst
              (λ n.
                count_free bits (bits.set_bit b (first_free bits b (bits.get_max_bit b) 0)) n 0 + 1
                ≡ count_free bits b n 0)
              same
              (count_free-set laws b (first_free bits b (bits.get_max_bit b) 0) (bits.get_max_bit b)
                0 room found.free (omega arith) found.inside),
        )
  ]
