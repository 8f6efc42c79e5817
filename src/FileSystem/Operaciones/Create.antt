-- ===== src/FileSystem/Operaciones/Create.antt =====
-- `crear` and `borrar`: which blocks are marked, and whose they are.
use socketapp.Common.{
  All, All-map, ℕ, ◌<◌, ◌^◌, ◌≡◌, ◌≢◌, inl, inr, refl, sym, ap, ◌∙◌, none, some, List, [], Bool,
  true, false, ◌∷◌, arith, subst, ==_iff, ◌==◌, Bool-cases, ltb,
}
use socketapp.FileSystem.Bitmap.{
  BitArray, encontrar_un_bloque_libre, ocupar_bloque_libre, liberar_bloque_del_bitmap,
}
use socketapp.FileSystem.Bitmap.Counts.{IsBitArray, encontrar-ocupar}
use socketapp.FileSystem.Operaciones.{
  Archivo, Disk, find_archivo, eliminar_metadata_archivo, validar, crear_archivo, crear,
  liberar_bloques, borrar,
}
use socketapp.FileSystem.Operaciones.Blocks.{Apart}
use socketapp.FileSystem.Operaciones.Paths.{find_archivo-eliminar_self}
use socketapp.FileSystem.Operaciones.Owned.{
  all_blocks, Foreign, All-find, All-eliminar, Apart-eliminar, Foreign-eliminar,
}

module _ {B : Type 0} (bits : BitArray B) (laws : IsBitArray bits) where
  -- The block is marked as used, and there.
  abbrev pub Marked : B → ℕ → Type 0
  Marked bitarray b = (bits.test_bit bitarray b ≡ true) × (b < bits.get_max_bit bitarray)

  -- No block is in two places of files, and the blocks of the files are marked.
  abbrev pub IsValid : Disk B → Type 0
  IsValid disk =
      Apart (all_blocks disk.archivos) × All (Marked disk.bitarray) (all_blocks disk.archivos)

  Marked-set :
      (bitarray : B) (p b : ℕ)
      → p < bits.get_max_bit bitarray
      → Marked bitarray b
      → Marked (bits.set_bit bitarray p) b
  Marked-set bitarray p b below (used, inside) = (
    elim (Bool-cases (p == b)) [
      | inl same ↦
          subst (λ x. bits.test_bit (bits.set_bit bitarray p) x ≡ true) ((==_iff p b).0 same)
            (laws.test-set_self bitarray p below)
      | inr other ↦ laws.test-set_other bitarray p b (λ e. ground arith) ∙ used
    ],
    rw (laws.max_bit-set bitarray p) inside,
  )

  crear_archivo-IsValid :
      (opens : Bool) (path : List ℕ) (p : ℕ) (disk : Disk B)
      → IsValid disk
      → Marked disk.bitarray p
      → All (λ b. b ≢ p) (all_blocks disk.archivos)
      → IsValid (crear_archivo opens path p disk)
  unfolding crear_archivo
  crear_archivo-IsValid true path p disk (apart, marked) mine out = ((out, apart), (mine, marked))
  crear_archivo-IsValid false path p disk valid mine out = valid

  -- A new file has the first free block, and every block of a file is marked afterwards, whether the
  -- file could be made or not.
  pub crear-IsValid :
      (opens directorios opens' : Bool) (path : List ℕ) (disk : Disk B)
      → IsValid disk
      → IsValid (crear bits opens directorios opens' path disk).1
  unfolding crear ocupar_bloque_libre
  crear-IsValid opens directorios opens' path disk (apart, marked) =
      let p = encontrar_un_bloque_libre bits disk.bitarray in
      elim (Bool-cases (validar path disk == 1)) [
        | inl there ↦ rw there (apart, marked)
        | inr new ↦
            elim (encontrar-ocupar bits laws disk.bitarray (bits.get_max_bit disk.bitarray) refl) [
              | inl (full, count) ↦ rw (new, full) (apart, marked)
              | inr (found, now_used, one_less) ↦
                  let below : p < bits.get_max_bit disk.bitarray = omega (arith, found.inside) in
                  let kept =
                    All-map (Marked disk.bitarray) (Marked (bits.set_bit disk.bitarray p))
                      (all_blocks disk.archivos) (λ b m. Marked-set disk.bitarray p b below m)
                      marked in
                  let mine : Marked (bits.set_bit disk.bitarray p) p = (
                    laws.test-set_self disk.bitarray p below,
                    rw (laws.max_bit-set disk.bitarray p) below,
                  ) in
                  let out : All (λ b. b ≢ p) (all_blocks disk.archivos) =
                    All-map (Marked disk.bitarray) (λ b. b ≢ p) (all_blocks disk.archivos)
                      (λ b m e. cc (ap (bits.test_bit disk.bitarray) e, m.0, found.free)) marked in
                  elim (Bool-cases (ltb p (2 ^ 31))) [
                    | inr none_found ↦ rw (new, none_found) (apart, marked)
                    | inl positive ↦
                        let taken = record disk { bitarray = bits.set_bit disk.bitarray p } in
                        let made = λ (flag : Bool).
                          crear_archivo-IsValid flag path p taken (apart, kept) mine out in
                        elim (Bool-cases opens) [
                          | inl at_once ↦ rw (new, positive, at_once) (made true)
                          | inr not_yet ↦ elim (Bool-cases directorios) [
                            | inl dirs ↦ rw (new, positive, not_yet, dirs) (made opens')
                            | inr no_dirs ↦ rw (new, positive, not_yet, no_dirs) (made opens')
                          ]
                        ]
                  ]
            ]
      ]

  cleaned-stays :
      (bloques : List ℕ) (bitarray : B) (b : ℕ)
      → b < bits.get_max_bit bitarray
      → bits.test_bit bitarray b ≡ false
      → bits.test_bit (liberar_bloques bits bloques bitarray) b ≡ false
  unfolding liberar_bloques liberar_bloque_del_bitmap
  cleaned-stays [] bitarray b below free = free
  cleaned-stays (x ∷ bloques) bitarray b below free =
      let still : bits.test_bit (bits.clean_bit bitarray x) b ≡ false = elim (Bool-cases (x == b)) [
        | inl same ↦
            subst (λ y. bits.test_bit (bits.clean_bit bitarray y) b ≡ false)
              (sym ((==_iff x b).0 same)) (laws.test-clean_self bitarray b below)
        | inr other ↦ laws.test-clean_other bitarray x b (λ e. ground arith) ∙ free
      ] in
      cleaned-stays bloques (bits.clean_bit bitarray x) b (rw (laws.max_bit-clean bitarray x) below)
        still

  liberar_bloques-free :
      (bloques : List ℕ) (bitarray : B)
      → All (λ b. b < bits.get_max_bit bitarray) bloques
      → All (λ b. bits.test_bit (liberar_bloques bits bloques bitarray) b ≡ false) bloques
  unfolding liberar_bloques liberar_bloque_del_bitmap
  liberar_bloques-free [] bitarray h = tt
  liberar_bloques-free (b ∷ bloques) bitarray (below, rest) =
      let max_same = laws.max_bit-clean bitarray b in
      (
        cleaned-stays bloques (bits.clean_bit bitarray b) b (rw max_same below)
            (laws.test-clean_self bitarray b below),
        liberar_bloques-free bloques (bits.clean_bit bitarray b) (rw max_same rest),
      )

  liberar_bloques-other :
      (bloques : List ℕ) (bitarray : B) (b : ℕ)
      → All (λ x. x ≢ b) bloques
      → bits.test_bit (liberar_bloques bits bloques bitarray) b ≡ bits.test_bit bitarray b
  unfolding liberar_bloques liberar_bloque_del_bitmap
  liberar_bloques-other [] bitarray b out = refl
  liberar_bloques-other (x ∷ bloques) bitarray b (ne, out) =
      liberar_bloques-other bloques (bits.clean_bit bitarray x) b out
      ∙ laws.test-clean_other bitarray x b ne

  max_bit-liberar_bloques :
      (bloques : List ℕ) (bitarray : B)
      → bits.get_max_bit (liberar_bloques bits bloques bitarray) ≡ bits.get_max_bit bitarray
  unfolding liberar_bloques liberar_bloque_del_bitmap
  max_bit-liberar_bloques [] bitarray = refl
  max_bit-liberar_bloques (x ∷ bloques) bitarray =
      max_bit-liberar_bloques bloques (bits.clean_bit bitarray x) ∙ laws.max_bit-clean bitarray x

  -- borrar of a file that is there answers 1, frees exactly the blocks of the file, and leaves the others
  -- to their files; the file is not found any more.
  pub borrar-IsValid :
      (path : List ℕ) (disk : Disk B) {archivo : Archivo}
      → IsValid disk
      → find_archivo path disk.archivos ≡ some archivo
      → let result = borrar bits path disk in
        (result.0 ≡ 1)
        × IsValid result.1
        × (find_archivo path result.1.archivos ≡ none)
        × All (λ b. bits.test_bit result.1.bitarray b ≡ false) archivo.bloques
        × ((b : ℕ)
            → All (λ x. x ≢ b) archivo.bloques
            → bits.test_bit result.1.bitarray b ≡ bits.test_bit disk.bitarray b)
  unfolding borrar
  borrar-IsValid path disk {archivo} (apart, marked) found =
      let bitarray' = liberar_bloques bits archivo.bloques disk.bitarray in
      let left = all_blocks (eliminar_metadata_archivo path disk.archivos) in
      let foreign = Foreign-eliminar path disk.archivos found apart in
      let kept = All-eliminar path (Marked disk.bitarray) disk.archivos marked in
      let mine =
        All-find path (λ b. b < bits.get_max_bit disk.bitarray) disk.archivos found
          (All-map (Marked disk.bitarray) (λ b. b < bits.get_max_bit disk.bitarray)
            (all_blocks disk.archivos) (λ b m. m.1) marked) in
      rw (found, borrar)
        (
          refl,
          (Apart-eliminar path disk.archivos apart, still_marked left kept foreign),
          find_archivo-eliminar_self path disk.archivos,
          liberar_bloques-free archivo.bloques disk.bitarray mine,
          liberar_bloques-other archivo.bloques disk.bitarray,
        )
    where
      still_marked :
          (bs : List ℕ)
          → All (Marked disk.bitarray) bs
          → Foreign archivo.bloques bs
          → All (Marked (liberar_bloques bits archivo.bloques disk.bitarray)) bs
      still_marked [] m f = tt
      still_marked (b ∷ bs) ((used, below), m) (f, fs) = (
        (
          liberar_bloques-other archivo.bloques disk.bitarray b f ∙ used,
          rw (max_bit-liberar_bloques archivo.bloques disk.bitarray) below,
        ),
        still_marked bs m fs,
      )
