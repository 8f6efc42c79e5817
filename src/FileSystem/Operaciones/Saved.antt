-- ===== src/FileSystem/Operaciones/Saved.antt =====
-- What `guardarDatos` needs of the disk, and what it leaves there.
use socketapp.Common.{
  All, ℕ, ◌+◌, ◌-◌, ◌*◌, ◌/◌, ◌^◌, ◌≤◌, ◌<◌, ◌≡◌, ◌≢◌, refl, sym, ap, ◌∙◌, some, List, [], false,
  ◌∷◌, ◌++◌, get_elem?, length, append_assoc, subst, patch, same_bytes, ltb, if◌then◌else◌,
}
use socketapp.FileSystem.Bitmap.{BitArray, cant_bloques_libres_bitmap}
use socketapp.FileSystem.Operaciones.{Metadata, Archivo, Disk, find_archivo}
use socketapp.FileSystem.Operaciones.Blocks.{Apart, HasBytes, Sized}
use socketapp.FileSystem.Operaciones.Write.{portion}
use socketapp.FileSystem.Operaciones.Reserve.{Used}

pub HasBytes-append :
    (tamanio : ℕ) (disk : List (List ℕ)) (bs cs xs ys : List ℕ)
    → HasBytes tamanio disk bs xs
    → HasBytes tamanio disk cs ys
    → HasBytes tamanio disk (bs ++ cs) (xs ++ ys)
HasBytes-append tamanio disk [] cs xs ys h k =
    subst (λ l. HasBytes tamanio disk cs (l ++ ys)) (sym h) k
HasBytes-append tamanio disk (b ∷ bs) cs xs ys (bloque, more, there, full, split, rest) k = (
  bloque,
  more ++ ys,
  there,
  full,
  ap (λ l. l ++ ys) split ∙ append_assoc bloque more ys,
  HasBytes-append tamanio disk bs cs more ys rest k,
)

module _ {B : Type 0} (bits : BitArray B) (metadata : Metadata) where
  -- Each bit has a block file of the size of a block.
  abbrev pub Formatted : Disk B → Type 0
  Formatted disk =
      (b : ℕ)
      → b < bits.get_max_bit disk.bitarray
      → (bloque : List ℕ) × (get_elem? disk.bloques b ≡ some bloque)
        × (length bloque ≡ metadata.tamanio_bloques)

  -- The file is on the disk with these bytes in its blocks, which are marked as used.
  pub record Holds (path : List ℕ) (archivo : Archivo) (bytes : List ℕ) (disk : Disk B)
      : Type 0 where
    pub found : find_archivo path disk.archivos ≡ some archivo
    pub has_bytes : HasBytes metadata.tamanio_bloques disk.bloques archivo.bloques bytes
    pub apart : Apart archivo.bloques
    pub used : Used bits disk.bitarray archivo.bloques
    pub sized : Sized metadata.tamanio_bloques archivo

  -- The write is of some bytes, ends before the end of the disk and below 2 ^ 24, has its blocks free, and
  -- stays within the pages that its first block is mapped to.
  abbrev pub Admits : ℕ → Archivo → ℕ → List ℕ → Disk B → Type 0
  Admits mapped archivo offset buffer disk =
      let t = metadata.tamanio_bloques in
      (0 < t)
      × (t ≤ mapped)
      × (offset - offset / t * t + portion t buffer ≤ mapped)
      × (0 < length buffer)
      × (offset + length buffer < 2 ^ 24)
      × (offset + length buffer < metadata.cantidad_bloques * t)
      × (offset + length buffer
          ≤ (length archivo.bloques
              + cant_bloques_libres_bitmap bits (bits.get_max_bit disk.bitarray) disk.bitarray)
            * t)

  pub new_bytes :
      (disk : Disk B) (nuevos : List ℕ)
      → Formatted disk
      → All
          (λ b. (bits.test_bit disk.bitarray b ≡ false) × (b < bits.get_max_bit disk.bitarray))
          nuevos
      → (extra : List ℕ) × HasBytes metadata.tamanio_bloques disk.bloques nuevos extra
  new_bytes disk [] formatted free = ([], refl)
  new_bytes disk (b ∷ nuevos) formatted ((free, below), rest) =
      let (bloque, there, full) = formatted b below in
      let (extra, has) = new_bytes disk nuevos formatted rest in
      (bloque ++ extra, (bloque, extra, there, full, refl, has))

  -- The bytes are in the file, which has got free blocks where it needed them; no other file and no
  -- other block has changed.
  pub record Guardado (path : List ℕ) (archivo : Archivo) (bytes : List ℕ) (offset : ℕ)
      (buffer : List ℕ) (disk disk' : Disk B) : Type 0 where
    pub nuevos : List ℕ
    pub extra : List ℕ
    pub archivo' : Archivo
    pub size : archivo'.tamanio ≡ (
        if ltb archivo.tamanio (offset + length buffer)
        then offset + length buffer
        else archivo.tamanio)
    pub blocks : archivo'.bloques ≡ archivo.bloques ++ nuevos
    pub were_free :
        All
          (λ b. (bits.test_bit disk.bitarray b ≡ false) × (b < bits.get_max_bit disk.bitarray))
          nuevos
    pub holds : Holds path archivo' (patch (bytes ++ extra) offset buffer) disk'
    pub same_files :
        (p : List ℕ)
        → same_bytes path p ≡ false
        → find_archivo p disk'.archivos ≡ find_archivo p disk.archivos
    pub same_blocks :
        (b : ℕ)
        → All (λ x. x ≢ b) archivo'.bloques
        → get_elem? disk'.bloques b ≡ get_elem? disk.bloques b
