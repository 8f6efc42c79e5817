-- ===== src/FileSystem/Operaciones/Save.antt =====
-- `guardarDatos` against the bytes of the file, and `obtenerDatos` behind it.
use socketapp.Common.{
  ℕ, ◌+◌, ◌-◌, ◌*◌, ◌^◌, ◌≤◌, ◌<◌, ◌≡◌, ◌⊎◌, inl, inr, refl, ap, ◌∙◌, some, List, true, false, ◌++◌,
  arith, length, length-append, length-patch, ◌==◌, Bool-cases, patch, same_bytes_refl, leb, ltb,
  if◌then◌else◌, min, take-drop-patch,
}
use socketapp.FileSystem.Bitmap.{BitArray, cant_bloques_libres_bitmap}
use socketapp.FileSystem.Bitmap.Counts.{IsBitArray}
use socketapp.FileSystem.Operaciones.{
  Metadata, Archivo, Disk, enospc, find_archivo, metadata_fs_write, asignar_bloques, bloques_nuevos,
  guardar_datos, obtener_datos,
}
use socketapp.FileSystem.Operaciones.Blocks.{length-HasBytes}
use socketapp.FileSystem.Operaciones.Read.{obtener_datos-bytes}
use socketapp.FileSystem.Operaciones.Offset.{escribir_bloques-EscritoDesde}
use socketapp.FileSystem.Operaciones.Reserve.{asignar_bloques-Asignado}
use socketapp.FileSystem.Operaciones.Room.{
  IsCeil, enough_blocks, Sized-after, new_blocks, new_blocks-full,
}
use socketapp.FileSystem.Operaciones.Paths.{find_archivo-metadata_fs_write}
use socketapp.FileSystem.Operaciones.Saved.{
  HasBytes-append, Formatted, Holds, Admits, new_bytes, Guardado,
}

module _ {B : Type 0} (bits : BitArray B) (metadata : Metadata) where
  module _ (laws : IsBitArray bits) (mapped : ℕ) (ceil_float : ℕ → ℕ → ℕ)
      (ceils : IsCeil ceil_float) (path : List ℕ) (archivo : Archivo) (bytes : List ℕ) (offset : ℕ)
      (buffer : List ℕ) (disk : Disk B) where
    -- Over a file that holds its bytes in marked blocks of its own, on a disk with a file for each block,
    -- guardarDatos of some bytes that end before the end of the disk and below 2 ^ 24, that the blocks of the
    -- file and the free ones hold, and that stay within the pages that the first block is mapped to, answers
    -- 1. The file then holds its bytes with those written over them from the offset on, in its blocks and in
    -- blocks that were free, and no other file or block has changed.
    pub guardar_datos-Guardado :
        Admits bits metadata mapped archivo offset buffer disk
        → Holds bits metadata path archivo bytes disk
        → Formatted bits metadata disk
        → (disk' : Disk B) × (guardar_datos bits metadata mapped ceil_float path offset buffer disk
            ≡ some (1, disk'))
          × Guardado bits metadata path archivo bytes offset buffer disk disk'
    unfolding guardar_datos
    guardar_datos-Guardado (pos, one_page, page, some_bytes, exact, inside_disk, free_room) old
          formatted =
        let t = metadata.tamanio_bloques in
        let end = offset + length buffer in
        let n = bloques_nuevos bits ceil_float t (length archivo.bloques) end in
        let count =
          new_blocks bits ceil_float ceils t (length archivo.bloques) end
            (cant_bloques_libres_bitmap bits (bits.get_max_bit disk.bitarray) disk.bitarray) pos
            exact free_room in
        let added =
          asignar_bloques-Asignado bits laws n archivo.bloques disk.bitarray count.0 old.apart
            old.used in
        let (extra, has_extra) =
          new_bytes bits metadata disk added.nuevos formatted added.were_free in
        let bloques = archivo.bloques ++ added.nuevos in
        let has =
          HasBytes-append t disk.bloques archivo.bloques added.nuevos bytes extra old.has_bytes
            has_extra in
        let many : length bloques ≡ length archivo.bloques + n =
          omega (arith, length-append archivo.bloques added.nuevos, added.as_many) in
        let whole : length (bytes ++ extra) ≡ (length archivo.bloques + n) * t =
          length-HasBytes t disk.bloques bloques (bytes ++ extra) has ∙ ap (λ k. k * t) many in
        let written =
          escribir_bloques-EscritoDesde t mapped bloques (bytes ++ extra) offset buffer disk.bloques
            pos one_page has added.apart (omega (arith, whole, count.1)) page in
        let archivo' : Archivo = record {
          tamanio = if ltb archivo.tamanio end then end else archivo.tamanio;
          bloques = bloques;
        } in
        let disk' : Disk B = record {
          archivos = metadata_fs_write path archivo' disk.archivos;
          bitarray = (asignar_bloques bits n archivo.bloques disk.bitarray).1;
          bloques = written.disk';
        } in
        let fits : leb (metadata.cantidad_bloques * t) end ≡ false = ground arith in
        let something : (length buffer == 0) ≡ false = ground arith in
        let enough = enough_blocks bits disk.bitarray n count.0 in
        let found = find_archivo-metadata_fs_write path in
        (
          disk',
          rw (fits, something, old.found, enough, added.answers, written.answers, guardar_datos)
              refl,
          record {
            nuevos = added.nuevos;
            extra = extra;
            archivo' = archivo';
            size = refl;
            blocks = refl;
            were_free = added.were_free;
            holds = record {
              found = rw (found path archivo' disk.archivos, same_bytes_refl path) refl;
              has_bytes = written.has_bytes;
              apart = added.apart;
              used = added.used;
              sized = rw many (Sized-after t archivo n end old.sized (omega arith) count.1 count.2);
            };
            same_files = λ p ne. rw (found p archivo' disk.archivos, ne) refl;
            same_blocks = written.same;
          },
        )

    -- A read at the place of a write that was answered by 1 gives the bytes that were written.
    pub obtener_datos-guardar_datos :
        (garbage : ℕ → List ℕ)
        → ((n : ℕ) → length (garbage n) ≡ n)
        → archivo.tamanio < 2 ^ 31
        → Admits bits metadata mapped archivo offset buffer disk
        → Holds bits metadata path archivo bytes disk
        → Formatted bits metadata disk
        → (disk' : Disk B) × (guardar_datos bits metadata mapped ceil_float path offset buffer disk
            ≡ some (1, disk'))
          × (obtener_datos metadata garbage path offset (length buffer) disk'
              ≡ some (length buffer, some buffer))
    obtener_datos-guardar_datos garbage fresh small admits old formatted =
        let (disk', answers, saved) = guardar_datos-Guardado admits old formatted in
        let end = offset + length buffer in
        let content = patch (bytes ++ saved.extra) offset buffer in
        let size = saved.size in
        let some_bytes = admits.3 in
        let exact = admits.4 in
        let small' : saved.archivo'.tamanio < 2 ^ 31 = ground arith in
        let whole : end ≤ saved.archivo'.tamanio = ground arith in
        let inside : leb offset saved.archivo'.tamanio ≡ true = ground arith in
        let n : min (length buffer) (saved.archivo'.tamanio - offset) ≡ length buffer =
          omega arith in
        let read =
          obtener_datos-bytes metadata garbage path offset (length buffer) disk' saved.archivo'
            content admits.0 fresh saved.holds.found saved.holds.has_bytes saved.holds.sized
            small' in
        (
          disk',
          answers,
          read
              ∙ rw (inside, n)
                  (ap (λ l. some (length buffer, some l))
                    (take-drop-patch (bytes ++ saved.extra) offset buffer (
                      omega (
                        arith,
                        saved.holds.sized.0,
                        length-patch (bytes ++ saved.extra) offset buffer,
                        length-HasBytes metadata.tamanio_bloques disk'.bloques
                            saved.archivo'.bloques content saved.holds.has_bytes,
                      )))),
        )

    -- When the blocks of the file and the free ones do not hold the bytes, or the disk ends before them,
    -- guardarDatos answers -ENOSPC and changes nothing.
    pub guardar_datos-full :
        0 < metadata.tamanio_bloques
        → 0 < length buffer
        → find_archivo path disk.archivos ≡ some archivo
        → (metadata.cantidad_bloques * metadata.tamanio_bloques ≤ offset + length buffer)
          ⊎ ((offset + length buffer < 2 ^ 24)
              × ((length archivo.bloques
                      + cant_bloques_libres_bitmap bits
                          (bits.get_max_bit disk.bitarray)
                          disk.bitarray)
                    * metadata.tamanio_bloques
                  < offset + length buffer))
        → guardar_datos bits metadata mapped ceil_float path offset buffer disk
          ≡ some (enospc, disk)
    unfolding guardar_datos
    guardar_datos-full pos some_bytes found (inl behind) =
        let e : leb (metadata.cantidad_bloques * metadata.tamanio_bloques) (offset + length buffer)
            ≡ true =
          ground arith in
        rw (e, guardar_datos) refl
    guardar_datos-full pos some_bytes found (inr (exact, full)) =
        let t = metadata.tamanio_bloques in
        let something : (length buffer == 0) ≡ false = ground arith in
        let lacking =
          new_blocks-full bits ceil_float ceils disk.bitarray t (length archivo.bloques)
            (offset + length buffer) pos exact full in
        elim (Bool-cases (leb (metadata.cantidad_bloques * t) (offset + length buffer))) [
          | inl behind ↦ rw (behind, guardar_datos) refl
          | inr inside ↦ rw (inside, something, found, lacking, guardar_datos) refl
        ]
