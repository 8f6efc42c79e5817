-- ===== src/FileSystem/Operaciones/Read.antt =====
-- `obtenerDatos` against the bytes of the file.
use socketapp.Common.{
  ℕ, ◌+◌, ◌-◌, ◌*◌, ◌/◌, ◌^◌, ◌≤◌, ◌<◌, ◌≡◌, inl, inr, refl, ap, ◌∙◌, none, some, List, arith,
  length, length-take, length-drop, take, drop, patch, Bool-cases, leb, if◌then◌else◌, min, neg,
}
use socketapp.FileSystem.Operaciones.{
  Metadata, Archivo, Disk, find_archivo, size_to_read, obtener_datos,
}
use socketapp.FileSystem.Operaciones.Blocks.{
  HasBytes, Sized, patch_all, drop-drop, length-HasBytes, HasBytes-drop, offset_split, le_of_mul,
}
use socketapp.FileSystem.Operaciones.ReadLoop.{leer_bloques-bytes}

size_to_read_lem :
    (offset size file_size : ℕ)
    → size_to_read offset size file_size
      ≡ (if leb offset file_size then some (min size (file_size - offset)) else none)
unfolding size_to_read
size_to_read_lem offset size file_size = ground arith

module _ (metadata : Metadata) (garbage : ℕ → List ℕ) (path : List ℕ) (offset size : ℕ) {B : Type 0}
    (disk : Disk B) (archivo : Archivo) (bytes : List ℕ) where
  -- With blocks of a byte at least, and a file that is found, whose blocks are there and fit its size,
  -- which is below 2 ^ 31: obtenerDatos ends and answers the bytes from the offset on, as many as asked
  -- for, up to the end of the file; behind the end it answers -1 and no bytes.
  pub obtener_datos-bytes :
      0 < metadata.tamanio_bloques
      → ((n : ℕ) → length (garbage n) ≡ n)
      → find_archivo path disk.archivos ≡ some archivo
      → HasBytes metadata.tamanio_bloques disk.bloques archivo.bloques bytes
      → Sized metadata.tamanio_bloques archivo
      → archivo.tamanio < 2 ^ 31
      → obtener_datos metadata garbage path offset size disk ≡ (
          if leb offset archivo.tamanio
          then some (
            min size (archivo.tamanio - offset),
            some (take (min size (archivo.tamanio - offset)) (drop offset bytes)),
          )
          else some (neg 1, none))
  unfolding obtener_datos
  obtener_datos-bytes pos fresh found has sized small =
      elim (Bool-cases (leb offset archivo.tamanio)) [
        | inr behind ↦
            rw (found, size_to_read_lem offset size archivo.tamanio, behind, obtener_datos) refl
        | inl inside ↦
            let tamanio = metadata.tamanio_bloques in
            let arranque = offset / tamanio in
            let n = min size (archivo.tamanio - offset) in
            let (below, above) = offset_split offset tamanio pos in
            let blocks : arranque ≤ length archivo.bloques =
              le_of_mul arranque (length archivo.bloques) tamanio pos (ground (arith, sized.0)) in
            let has' =
              HasBytes-drop tamanio disk.bloques arranque archivo.bloques bytes blocks has in
            let whole = length-HasBytes tamanio disk.bloques archivo.bloques bytes has in
            let read =
              leer_bloques-bytes tamanio n archivo.tamanio offset disk.bloques small (ground arith)
                (drop arranque archivo.bloques) (drop (arranque * tamanio) bytes)
                (offset - arranque * tamanio) 0 (garbage n) has' (omega arith) (omega arith)
                (fresh n) (ground (arith, sized.0, length-drop (arranque * tamanio) bytes))
                (λ lt. ground (arith, sized.1, length-drop (arranque * tamanio) bytes)) in
            let place : arranque * tamanio + (offset - arranque * tamanio) ≡ offset = omega arith in
            let whole_size : n - 0 ≡ n = omega arith in
            let all : patch (garbage n) 0 (
                  take (n - 0)
                    (drop (offset - arranque * tamanio) (drop (arranque * tamanio) bytes)))
                ≡ take n (drop offset bytes) =
              rw (drop-drop (offset - arranque * tamanio) (arranque * tamanio) bytes, place)
                (patch_all (garbage n) (take (n - 0) (drop offset bytes)) (
                    ground (
                      arith,
                      sized.0,
                      fresh n,
                      length-take (n - 0) (drop offset bytes),
                      length-drop offset bytes,
                    ))
                  ∙ ap (λ k. take k (drop offset bytes)) whole_size) in
            rw
              (
                found,
                size_to_read_lem offset size archivo.tamanio,
                inside,
                read,
                all,
                obtener_datos,
              )
              refl
      ]
