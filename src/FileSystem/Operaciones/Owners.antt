-- ===== src/FileSystem/Operaciones/Owners.antt =====
-- `guardarDatos` against the ownership of the blocks.
use socketapp.Common.{
  All, All-append, All-map, ℕ, ◌+◌, ◌*◌, ◌/◌, ◌-◌, ◌<◌, ◌≡◌, ◌≢◌, inl, inr, sym, ap, Option, some,
  List, [], true, false, ◌∷◌, ◌++◌, subst, ◌==◌, Bool-cases, Option-cases, if◌then◌else◌, ltb, leb,
  not, ◌&&◌, length, drop,
}
use mathlib.Core.Option.{some-injective}
use socketapp.FileSystem.Bitmap.{BitArray, hay_n_bloques_libres}
use socketapp.FileSystem.Bitmap.Counts.{IsBitArray}
use socketapp.FileSystem.Operaciones.{
  Metadata, Archivo, Disk, find_archivo, eliminar_metadata_archivo, metadata_fs_write,
  guardar_datos, asignar_bloques, bloques_nuevos, escribir_bloques,
}
use socketapp.FileSystem.Operaciones.Owned.{
  all_blocks, Foreign, All-find, Apart-find, All-eliminar, Apart-eliminar, Foreign-eliminar,
  Apart-join,
}
use socketapp.FileSystem.Operaciones.Reserve.{Asignado, asignar_bloques-Asignado}
use socketapp.FileSystem.Operaciones.Room.{not_lacking}
use socketapp.FileSystem.Operaciones.Create.{Marked, IsValid}

module _ {B : Type 0} (bits : BitArray B) (metadata : Metadata) (mapped : ℕ)
    (ceil_float : ℕ → ℕ → ℕ) where
  module _ (laws : IsBitArray bits) where
    -- The blocks that a file gets are nobody's.
    Foreign-new :
        (bitarray : B) (nuevos ys : List ℕ)
        → All (λ b. (bits.test_bit bitarray b ≡ false) × (b < bits.get_max_bit bitarray)) nuevos
        → All (Marked bits laws bitarray) ys
        → Foreign nuevos ys
    Foreign-new bitarray nuevos [] free marked = tt
    Foreign-new bitarray nuevos (y ∷ ys) free (m, marked) = (
      All-map (λ b. (bits.test_bit bitarray b ≡ false) × (b < bits.get_max_bit bitarray))
          (λ x. x ≢ y) nuevos (λ b f e. cc (ap (bits.test_bit bitarray) e, f.0, m.0)) free,
      Foreign-new bitarray nuevos ys free marked,
    )

    Foreign-append : (xs xs' ys : List ℕ) → Foreign xs ys → Foreign xs' ys → Foreign (xs ++ xs') ys
    Foreign-append xs xs' [] f g = tt
    Foreign-append xs xs' (y ∷ ys) (f, fs) (g, gs) =
        (All-append (λ x. x ≢ y) xs xs' f g, Foreign-append xs xs' ys fs gs)

    both : (P Q : ℕ → Type 0) (xs : List ℕ) → All P xs → All Q xs → All (λ x. P x × Q x) xs
    both P Q [] p q = tt
    both P Q (x ∷ xs) (p, ps) (q, qs) = ((p, q), both P Q xs ps qs)

    module _ (path : List ℕ) (disk : Disk B) {archivo : Archivo} (n : ℕ)
        (added : Asignado bits n archivo.bloques disk.bitarray)
        (found : find_archivo path disk.archivos ≡ some archivo)
        (valid : IsValid bits laws disk) where
      abbrev after : B
      after = (asignar_bloques bits n archivo.bloques disk.bitarray).1

      stays : (b : ℕ) → Marked bits laws disk.bitarray b → Marked bits laws after b
      stays b (used, below) =
          (added.stays_used b used, subst (λ m. b < m) (sym added.max_same) below)

      -- The new blocks are marked, and the file is not written.
      not_opened-IsValid :
          (bloques : List (List ℕ))
          → IsValid bits laws (record disk { bitarray = after; bloques = bloques })
      not_opened-IsValid bloques = (
        valid.0,
        All-map (Marked bits laws disk.bitarray) (Marked bits laws after) (all_blocks disk.archivos)
            stays valid.1,
      )

      opened-IsValid :
          (bloques : List (List ℕ)) (tamanio : ℕ)
          → IsValid bits laws (record disk {
            archivos =
                metadata_fs_write path
                  (record {
                    tamanio = tamanio;
                    bloques = (asignar_bloques bits n archivo.bloques disk.bitarray).0;
                  })
                  disk.archivos;
            bitarray = after;
            bloques = bloques;
          })
      unfolding metadata_fs_write
      opened-IsValid bloques tamanio =
          let others = all_blocks (eliminar_metadata_archivo path disk.archivos) in
          let kept = All-eliminar path (Marked bits laws disk.bitarray) disk.archivos valid.1 in
          let mine = All-find path (Marked bits laws disk.bitarray) disk.archivos found valid.1 in
          let foreign =
            Foreign-append archivo.bloques added.nuevos others
              (Foreign-eliminar path disk.archivos found valid.0)
              (Foreign-new disk.bitarray added.nuevos others added.were_free kept) in
          let below : All (λ b. b < bits.get_max_bit after) (archivo.bloques ++ added.nuevos) =
            rw added.max_same (
              All-append (λ b. b < bits.get_max_bit disk.bitarray) archivo.bloques added.nuevos
                (All-map (Marked bits laws disk.bitarray) (λ b. b < bits.get_max_bit disk.bitarray)
                  archivo.bloques (λ b m. m.1) mine)
                (All-map
                  (λ b.
                    (bits.test_bit disk.bitarray b ≡ false) × (b < bits.get_max_bit disk.bitarray))
                  (λ b. b < bits.get_max_bit disk.bitarray) added.nuevos (λ b f. f.1)
                  added.were_free)) in
          rw added.answers (
            Apart-join (archivo.bloques ++ added.nuevos) others added.apart
                (Apart-eliminar path disk.archivos valid.0) foreign,
            All-append (Marked bits laws after) (archivo.bloques ++ added.nuevos) others
                (both (λ b. bits.test_bit after b ≡ true) (λ b. b < bits.get_max_bit after)
                  (archivo.bloques ++ added.nuevos) added.used below)
                (All-map (Marked bits laws disk.bitarray) (Marked bits laws after) others stays
                  kept),
          )

    as_answered :
        {answer answer' : ℕ} {disk disk' : Disk B}
        → IsValid bits laws disk
        → ◌≡◌ {A = Option (ℕ × Disk B)} (some (answer, disk)) (some (answer', disk'))
        → IsValid bits laws disk'
    as_answered {answer} {answer'} {disk} {disk'} valid e =
        subst (λ (d : Disk B). IsValid bits laws d)
          (ap (λ (t : ℕ × Disk B). t.1) (some-injective (answer, disk) (answer', disk') e)) valid

    pub guardar_datos-IsValid :
        (path : List ℕ) (offset : ℕ) (buffer : List ℕ) (disk : Disk B) {answer : ℕ} {disk' : Disk B}
        → IsValid bits laws disk
        → guardar_datos bits metadata mapped ceil_float path offset buffer disk
          ≡ some (answer, disk')
        → IsValid bits laws disk'
    unfolding guardar_datos
    guardar_datos-IsValid path offset buffer disk valid h =
        let t = metadata.tamanio_bloques in
        let end = offset + length buffer in
        elim (Bool-cases (leb (metadata.cantidad_bloques * t) end)) [
          | inl behind ↦ as_answered valid (rw behind at h)
          | inr inside ↦ elim (Bool-cases (length buffer == 0)) [
            | inl nothing ↦ as_answered valid (rw (inside, nothing) at h)
            | inr something ↦ elim (Option-cases (find_archivo path disk.archivos)) [
              | inl absent ↦ as_answered valid (rw (inside, something, absent) at h)
              | inr (archivo, found) ↦
                  let n = bloques_nuevos bits ceil_float t (length archivo.bloques) end in
                  elim (Bool-cases (ltb 0 n && not (hay_n_bloques_libres bits disk.bitarray n))) [
                    | inl lacking ↦ as_answered valid (rw (inside, something, found, lacking) at h)
                    | inr passed ↦
                        let added =
                          asignar_bloques-Asignado bits laws n archivo.bloques disk.bitarray
                            (not_lacking bits disk.bitarray n passed)
                            (Apart-find path disk.archivos found valid.0)
                            (All-map (Marked bits laws disk.bitarray)
                              (λ b. bits.test_bit disk.bitarray b ≡ true) archivo.bloques
                              (λ b m. m.0)
                              (All-find path (Marked bits laws disk.bitarray) disk.archivos found
                                valid.1)) in
                        elim (Option-cases (
                          escribir_bloques t mapped
                            (drop (offset / t)
                              (asignar_bloques bits n archivo.bloques disk.bitarray).0)
                            (offset - offset / t * t) buffer disk.bloques)) [
                              | inl crash ↦ cc (rw (inside, something, found, passed, crash) at h)
                              | inr ((true, written), answers) ↦
                                  as_answered
                                    (opened-IsValid path disk n added found valid written
                                      (if ltb archivo.tamanio end then end else archivo.tamanio))
                                    (rw (inside, something, found, passed, answers) at h)
                              | inr ((false, written), answers) ↦
                                  as_answered
                                    (not_opened-IsValid path disk n added found valid written)
                                    (rw (inside, something, found, passed, answers) at h)
                            ]
                  ]
            ]
          ]
        ]
