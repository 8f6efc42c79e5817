-- ===== src/Tests/FileSystem.antt =====
-- FileSystem: a disk of eight blocks of four bytes, with one file of three bytes in the third block.
use socketapp.Common.{
  All, ℕ, zero, suc, ◌-◌, ◌/◌, ◌≢◌, inr, replicate, length-replicate, ◌+◌, ◌≡◌, refl, ap, Bool,
  true, false, Option, none, some, List, [], ◌∷◌, arith, get_elem?, set, length, get_elem?-set_self,
  get_elem?-set_ne, length-set,
}
use socketapp.FileSystem.Bitmap.{BitArray, cant_bloques_libres_bitmap, count_free}
use socketapp.FileSystem.Bitmap.Counts.{IsBitArray}
use socketapp.FileSystem.Operaciones.{
  Metadata, Archivo, Disk, enospc, find_archivo, borrar, obtener_datos, guardar_datos,
}
use socketapp.FileSystem.Operaciones.Blocks.{offset_split}
use socketapp.FileSystem.Operaciones.Read.{obtener_datos-bytes}
use socketapp.FileSystem.Operaciones.Room.{IsCeil}
use socketapp.FileSystem.Operaciones.Save.{
  guardar_datos-Guardado, obtener_datos-guardar_datos, guardar_datos-full,
}
use socketapp.FileSystem.Operaciones.Saved.{Formatted, Holds, Guardado, Admits}
use socketapp.FileSystem.Operaciones.Create.{IsValid, borrar-IsValid}
use socketapp.FileSystem.Handler.{to_write, sent_int, hacer_lo_que_corresponda}
use socketapp.FileSystem.Handler.Runs.{here, next, DiskRun-IsValid}

abbrev pub bit_at : Option Bool → Bool
bit_at none = false
bit_at (some b) = b

abbrev pub list_bits : BitArray (List Bool)
list_bits = record {
  get_max_bit = length;
  test_bit = λ b i. bit_at (get_elem? b i);
  set_bit = λ b i. set b i true;
  clean_bit = λ b i. set b i false;
}

pub list_bits-IsBitArray : IsBitArray list_bits
list_bits-IsBitArray = record {
  test-set_self = λ b i lt. ap bit_at (get_elem?-set_self b i true lt);
  test-set_other = λ b i j ne. ap bit_at (get_elem?-set_ne b i j true ne);
  max_bit-set = λ b i. length-set b i true;
  test-clean_self = λ b i lt. ap bit_at (get_elem?-set_self b i false lt);
  test-clean_other = λ b i j ne. ap bit_at (get_elem?-set_ne b i j false ne);
  max_bit-clean = λ b i. length-set b i false;
}

-- The quotient is exact.
abbrev ceil : ℕ → ℕ → ℕ
ceil x t = (x + (t - 1)) / t

ceil-IsCeil : IsCeil ceil
ceil-IsCeil x t pos exact =
    let (below, above) = offset_split (x + (t - 1)) t pos in (omega arith, omega arith)

abbrev metadata : Metadata
metadata = record { tamanio_bloques = 4; cantidad_bloques = 8 }

abbrev archivo : Archivo
archivo = record { tamanio = 3; bloques = 2 ∷ [] }

abbrev block : List ℕ
block = 10 ∷ 20 ∷ 30 ∷ 0 ∷ []

abbrev path : List ℕ
path = 47 ∷ 97 ∷ []

abbrev disk : Disk (List Bool)
disk = record {
  archivos = (path, archivo) ∷ [];
  bitarray = true ∷ false ∷ true ∷ false ∷ false ∷ [];
  bloques = block ∷ block ∷ block ∷ block ∷ block ∷ [];
}

abbrev garbage : ℕ → List ℕ
garbage n = replicate n 7

abbrev buffer : List ℕ
buffer = 1 ∷ 2 ∷ 3 ∷ 4 ∷ 5 ∷ []

found : find_archivo path disk.archivos ≡ some archivo
unfolding find_archivo
found = refl

disk-Holds : Holds list_bits metadata path archivo block disk
disk-Holds = record {
  found = found;
  has_bytes = (block, [], refl, refl, refl, refl);
  apart = (tt, tt);
  used = (refl, tt);
  sized = omega arith;
}

disk-IsValid : IsValid list_bits list_bits-IsBitArray disk
disk-IsValid = ((tt, tt), ((refl, omega arith), tt))

disk-Formatted : Formatted list_bits metadata disk
disk-Formatted zero lt = (block, refl, refl)
disk-Formatted (suc zero) lt = (block, refl, refl)
disk-Formatted (suc (suc zero)) lt = (block, refl, refl)
disk-Formatted (suc (suc (suc zero))) lt = (block, refl, refl)
disk-Formatted (suc (suc (suc (suc zero)))) lt = (block, refl, refl)
disk-Formatted (suc (suc (suc (suc (suc b))))) lt = absurd (omega arith)

three_free : cant_bloques_libres_bitmap list_bits 5 disk.bitarray ≡ 3
unfolding cant_bloques_libres_bitmap count_free
three_free = refl

disk-Admits : Admits list_bits metadata 4096 archivo 2 buffer disk
disk-Admits = omega (arith, three_free)

obtener_datos-bytes_example :
    obtener_datos metadata garbage path 1 9 disk ≡ some (2, some (20 ∷ 30 ∷ []))
obtener_datos-bytes_example =
    obtener_datos-bytes metadata garbage path 1 9 disk archivo block (omega arith)
      (λ n. length-replicate n 7) found disk-Holds.has_bytes (omega arith) (omega arith)

guardar_datos-Guardado_example :
    (disk' : Disk (List Bool)) × (guardar_datos list_bits metadata 4096 ceil path 2 buffer disk
      ≡ some (1, disk'))
    × Guardado list_bits metadata path archivo block 2 buffer disk disk'
guardar_datos-Guardado_example =
    guardar_datos-Guardado list_bits metadata list_bits-IsBitArray 4096 ceil ceil-IsCeil path
      archivo block 2 buffer disk disk-Admits disk-Holds disk-Formatted

obtener_datos-guardar_datos_example :
    (disk' : Disk (List Bool)) × (guardar_datos list_bits metadata 4096 ceil path 2 buffer disk
      ≡ some (1, disk'))
    × (obtener_datos metadata garbage path 2 5 disk' ≡ some (5, some buffer))
obtener_datos-guardar_datos_example =
    obtener_datos-guardar_datos list_bits metadata list_bits-IsBitArray 4096 ceil ceil-IsCeil path
      archivo block 2 buffer disk garbage (λ n. length-replicate n 7) (omega arith) disk-Admits
      disk-Holds disk-Formatted

guardar_datos-full_example :
    guardar_datos list_bits metadata 4096 ceil path 12 buffer disk ≡ some (enospc, disk)
guardar_datos-full_example =
    guardar_datos-full list_bits metadata list_bits-IsBitArray 4096 ceil ceil-IsCeil path archivo
      block 12 buffer disk (omega arith) (omega arith) found
      (inr (omega arith, omega (arith, three_free)))

borrar-IsValid_example :
    ((borrar list_bits path disk).0 ≡ 1)
    × IsValid list_bits list_bits-IsBitArray (borrar list_bits path disk).1
    × (find_archivo path (borrar list_bits path disk).1.archivos ≡ none)
    × All
        (λ b. list_bits.test_bit (borrar list_bits path disk).1.bitarray b ≡ false)
        archivo.bloques
    × ((b : ℕ)
        → All (λ x. x ≢ b) archivo.bloques
        → list_bits.test_bit (borrar list_bits path disk).1.bitarray b
          ≡ list_bits.test_bit disk.bitarray b)
borrar-IsValid_example =
    borrar-IsValid list_bits list_bits-IsBitArray path disk {archivo = archivo} disk-IsValid found

-- Bytes are written to the file.
saved :
    (disk' : Disk (List Bool)) × (guardar_datos list_bits metadata 4096 ceil path 2 buffer disk
      ≡ some (1, disk'))
    × Guardado list_bits metadata path archivo block 2 buffer disk disk'
saved =
    guardar_datos-Guardado list_bits metadata list_bits-IsBitArray 4096 ceil ceil-IsCeil path
      archivo block 2 buffer disk disk-Admits disk-Holds disk-Formatted

written :
    hacer_lo_que_corresponda list_bits metadata 4096 ceil garbage (to_write path 2 buffer) disk
    ≡ some (sent_int 1 ∷ [], saved.0)
unfolding hacer_lo_que_corresponda
written = rw saved.1 refl

DiskRun-IsValid_example : IsValid list_bits list_bits-IsBitArray saved.0
DiskRun-IsValid_example =
    DiskRun-IsValid list_bits metadata 4096 ceil garbage list_bits-IsBitArray
      (next (to_write path 2 buffer) here written) disk-IsValid
