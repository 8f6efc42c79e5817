-- ===== src/FileSystem/Operaciones.antt =====
-- FileSystem/src/functions/operaciones.c: files as lists of blocks of the disk. The metadata of a file
-- is kept as its two fields, a block as the bytes of its file, and the paths as the list of those that
-- are there. `none`: memory is accessed outside of what was allocated or mapped.
pub mod Blocks
pub mod ReadLoop
pub mod Read
pub mod Write
pub mod Offset
pub mod Reserve
pub mod Paths
pub mod Room
pub mod Saved
pub mod Save
pub mod Owned
pub mod Create
pub mod Owners
use socketapp.Common.{
  ℕ, zero, suc, ◌+◌, ◌-◌, ◌*◌, ◌/◌, ◌%◌, ◌^◌, ◌≤◌, ◌<◌, ◌≡◌, Bool, true, false, not, ◌&&◌, Option,
  none, some, List, [], ◌∷◌, ◌++◌, word, neg, ltb, leb, ◌==◌, if◌then◌else◌, ◌>>=◌, get_elem?, set,
  length, take, drop, patch, same_bytes, arith,
}
use socketapp.FileSystem.Bitmap.{
  BitArray, encontrar_un_bloque_libre, hay_n_bloques_libres, ocupar_bloque_libre,
  liberar_bloque_del_bitmap,
}

-- `t_metadata`.
pub record Metadata : Type 0 where
  pub tamanio_bloques : ℕ
  pub cantidad_bloques : ℕ

-- `t_metadata_archivo`.
pub record Archivo : Type 0 where
  pub tamanio : ℕ
  pub bloques : List ℕ

pub record Disk (B : Type 0) : Type 0 where
  pub archivos : List (List ℕ × Archivo)
  pub bitarray : B
  pub bloques : List (List ℕ)

abbrev pub enoent : ℕ
enoent = neg 2

abbrev pub enospc : ℕ
enospc = neg 28

unfoldable pub find_archivo : List ℕ → List (List ℕ × Archivo) → Option Archivo
find_archivo path [] = none
find_archivo path ((p, archivo) ∷ archivos) =
    let rest = find_archivo path archivos in if same_bytes p path then some archivo else rest

-- `remove`.
unfoldable pub eliminar_metadata_archivo :
    List ℕ → List (List ℕ × Archivo) → List (List ℕ × Archivo)
eliminar_metadata_archivo path [] = []
eliminar_metadata_archivo path ((p, archivo) ∷ archivos) =
    let rest = eliminar_metadata_archivo path archivos in
    if same_bytes p path then rest else (p, archivo) ∷ rest

-- The file is removed and written again.
unfoldable pub metadata_fs_write :
    List ℕ → Archivo → List (List ℕ × Archivo) → List (List ℕ × Archivo)
metadata_fs_write path archivo archivos = (path, archivo) ∷ eliminar_metadata_archivo path archivos

module _ {B : Type 0} where
  unfoldable pub validar : List ℕ → Disk B → ℕ
  validar path disk = elim (find_archivo path disk.archivos) [ none ↦ enoent | some archivo ↦ 1 ]

  -- `fopen` of a new file goes through, or does not; then nothing is written.
  unfoldable pub crear_archivo : Bool → List ℕ → ℕ → Disk B → Disk B
  crear_archivo opens path bloque disk =
      if opens
      then record disk {
        archivos = (path, record { tamanio = 0; bloques = bloque ∷ [] }) ∷ disk.archivos;
      }
      else disk

module _ {B : Type 0} (bits : BitArray B) where
  -- Given are whether the file can be made at once, whether the directories on its path can be made, and
  -- whether it can be made then.
  unfoldable pub crear : Bool → Bool → Bool → List ℕ → Disk B → ℕ × Disk B
  crear opens directorios opens' path disk =
      let bloque = encontrar_un_bloque_libre bits disk.bitarray in
      let taken = record disk { bitarray = ocupar_bloque_libre bits disk.bitarray bloque } in
      if validar path disk == 1
      then (enoent, disk)
      else if ltb bloque (2 ^ 31)
      then (if opens
          then (1, crear_archivo true path bloque taken)
          else if directorios
          then (1, crear_archivo opens' path bloque taken)
          else (enoent, crear_archivo opens' path bloque taken))
      else (enoent, disk)

  unfoldable pub liberar_bloques : List ℕ → B → B
  liberar_bloques [] bitarray = bitarray
  liberar_bloques (b ∷ bloques) bitarray =
      liberar_bloques bloques (liberar_bloque_del_bitmap bits bitarray b)

  unfoldable pub borrar : List ℕ → Disk B → ℕ × Disk B
  borrar path disk = elim (find_archivo path disk.archivos) [
    | none ↦ (enoent, disk)
    | some archivo ↦ (
      1,
      record disk {
        archivos = eliminar_metadata_archivo path disk.archivos;
        bitarray = liberar_bloques archivo.bloques disk.bitarray;
      },
    )
  ]

-- The difference of two `int`, and whether an `int` is above zero.
abbrev pub resta : ℕ → ℕ → ℕ
resta a b = (a + word - b) % word

abbrev pub positive : ℕ → Bool
positive n = ltb 0 n && ltb n (2 ^ 31)

-- `memcpy` of `n` bytes of a mapped block from `comienzo` on to the buffer.
unfoldable pub copiar : List ℕ → ℕ → ℕ → ℕ → List ℕ → Option (List ℕ)
copiar buf desplazamiento n comienzo bloque =
    if leb (comienzo + n) (length bloque) && leb (desplazamiento + n) (length buf)
    then some (patch buf desplazamiento (take n (drop comienzo bloque)))
    else none

-- How many bytes are copied from a block, and the displacement behind them.
unfoldable pub tramo : ℕ → ℕ → ℕ → ℕ → ℕ → ℕ → ℕ × ℕ
tramo tamanio i_size file_size offset comienzo desplazamiento =
    if leb (tamanio - comienzo) (resta file_size desplazamiento - offset)
    then if leb (tamanio - comienzo) (resta i_size desplazamiento)
      then (tamanio - comienzo, (desplazamiento + (tamanio - comienzo)) % word)
      else (resta i_size desplazamiento, (desplazamiento + resta i_size desplazamiento) % word)
    else (
      resta i_size desplazamiento,
      (desplazamiento + resta i_size desplazamiento + word - offset % word) % word,
    )

module _ (tamanio i_size file_size offset : ℕ) (disk : List (List ℕ)) where
  -- The loop goes through the blocks that `avanzarBloque` answers from the first one on, until it
  -- answers -1.
  unfoldable pub leer_bloques : List ℕ → ℕ → ℕ → List ℕ → Option (List ℕ)
  leer_bloques [] comienzo desplazamiento buf = some buf
  leer_bloques (b ∷ bloques) comienzo desplazamiento buf =
      if positive (resta i_size desplazamiento)
        && (positive (resta file_size desplazamiento)
            && ltb offset (resta file_size desplazamiento))
      then (do
        bloque ← get_elem? disk b
        let (n, next) = tramo tamanio i_size file_size offset comienzo desplazamiento
        buf' ← copiar buf desplazamiento n comienzo bloque
        leer_bloques bloques 0 next buf')
      else some buf

-- The size of the buffer, or that the offset is behind the end of the file.
unfoldable pub size_to_read : ℕ → ℕ → ℕ → Option ℕ
size_to_read offset i_size file_size =
    if (offset == 0) && leb i_size file_size
    then some i_size
    else if (offset == 0) && ltb file_size i_size
    then some file_size
    else if ltb 0 offset && (leb offset file_size && ((i_size + offset) == file_size))
    then some i_size
    else if ltb 0 offset && (leb offset file_size && ltb file_size (i_size + offset))
    then some (file_size - offset)
    else if ltb 0 offset && (leb offset file_size && ltb (i_size + offset) file_size)
    then some i_size
    else none

-- The answer, and the buffer where one was allocated; `garbage n` is what `realloc` to `n` bytes left
-- in them. The size is below 2 ^ 31.
unfoldable pub obtener_datos :
    {B : Type 0} → Metadata → (ℕ → List ℕ) → List ℕ → ℕ → ℕ → Disk B → Option (ℕ × Option (List ℕ))
obtener_datos metadata garbage path offset size disk = elim (find_archivo path disk.archivos) [
  | none ↦ some (enoent, none)
  | some archivo ↦
      let tamanio = metadata.tamanio_bloques in
      let arranque = offset / tamanio in
      elim (size_to_read offset size archivo.tamanio) [
        | none ↦ some (neg 1, none)
        | some i_size ↦
            leer_bloques tamanio i_size archivo.tamanio offset disk.bloques
              (drop arranque archivo.bloques) (offset - arranque * tamanio) 0 (garbage i_size)
            >>= λ buf. some (i_size, some buf)
      ]
]

-- `mapped` is the size of the pages that a block is mapped to. The bytes that the page has behind the
-- end of the block are not kept. The answer says whether every block could be opened.
module _ (tamanio mapped : ℕ) where
  unfoldable pub escribir_bloques :
      List ℕ → ℕ → List ℕ → List (List ℕ) → Option (Bool × List (List ℕ))
  escribir_bloques [] comienzo resto disk = if length resto == 0 then some (true, disk) else none
  escribir_bloques (b ∷ bloques) comienzo resto disk =
      let bytes = if leb (length resto) tamanio then length resto else tamanio in
      if length resto == 0 then some (true, disk) else elim (get_elem? disk b) [
        | none ↦ some (false, disk)
        | some bloque ↦
            if leb (comienzo + bytes) mapped
            then escribir_bloques bloques 0 (drop (tamanio - comienzo) resto)
                (set disk b (patch bloque comienzo (take bytes resto)))
            else none
      ]

module _ {B : Type 0} (bits : BitArray B) where
  unfoldable pub asignar_bloques : ℕ → List ℕ → B → List ℕ × B
  asignar_bloques zero bloques bitarray = (bloques, bitarray)
  asignar_bloques (suc n) bloques bitarray =
      let libre = encontrar_un_bloque_libre bits bitarray in
      asignar_bloques n (bloques ++ (libre ∷ [])) (ocupar_bloque_libre bits bitarray libre)

  -- `ceil_float x t` is the ceiling of the quotient of `x` and `t` as `float`.
  unfoldable pub bloques_nuevos : (ℕ → ℕ → ℕ) → ℕ → ℕ → ℕ → ℕ
  bloques_nuevos ceil_float tamanio bloques end =
      if ltb (bloques * tamanio) end then ceil_float (end - bloques * tamanio) tamanio else 0

  unfoldable pub guardar_datos :
      Metadata → ℕ → (ℕ → ℕ → ℕ) → List ℕ → ℕ → List ℕ → Disk B → Option (ℕ × Disk B)
  guardar_datos metadata mapped ceil_float path offset buffer disk =
      let tamanio = metadata.tamanio_bloques in
      let end = offset + length buffer in
      if leb (metadata.cantidad_bloques * tamanio) end
      then some (enospc, disk)
      else if length buffer == 0
      then some (enoent, disk)
      else elim (find_archivo path disk.archivos) [
        | none ↦ some (enoent, disk)
        | some archivo ↦
            let nuevos = bloques_nuevos ceil_float tamanio (length archivo.bloques) end in
            let arranque = offset / tamanio in
            if ltb 0 nuevos && not (hay_n_bloques_libres bits disk.bitarray nuevos)
            then some (enospc, disk)
            else let (bloques, bitarray) = asignar_bloques nuevos archivo.bloques disk.bitarray in
              let size = if ltb archivo.tamanio end then end else archivo.tamanio in
              let archivo' : Archivo = record { tamanio = size; bloques = bloques } in
              escribir_bloques tamanio mapped (drop arranque bloques) (offset - arranque * tamanio)
                buffer disk.bloques
              >>= λ (opened, written).
                  let left = record disk { bitarray = bitarray; bloques = written } in
                  if opened
                  then some
                      (1, record left { archivos = metadata_fs_write path archivo' disk.archivos })
                  else some (neg 1, left)
      ]
