-- ===== src/FileSystem/Operaciones/Room.antt =====
-- How many blocks `guardarDatos` adds, and whether they are there.
use socketapp.Common.{
  ℕ, ◌+◌, ◌-◌, ◌*◌, ◌^◌, ◌≤◌, ◌<◌, ◌≡◌, inl, inr, refl, true, false, ◌&&◌, not, arith, length,
  Bool-cases, ltb, if◌then◌else◌,
}
use native.Mathlib.Decide.{dec_lt}
use socketapp.FileSystem.Bitmap.{BitArray, hay_n_bloques_libres, cant_bloques_libres_bitmap}
use socketapp.FileSystem.Bitmap.Counts.{hay_n_bloques_libres_iff}
use socketapp.FileSystem.Operaciones.{Archivo, bloques_nuevos}
use socketapp.FileSystem.Operaciones.Blocks.{Sized, le_of_mul}

-- The ceiling of a quotient of `float` is exact below 2 ^ 24, where every integer is a `float`.
abbrev pub IsCeil : (ℕ → ℕ → ℕ) → Type 0
IsCeil ceil_float =
    (x t : ℕ) → 0 < t → x < 2 ^ 24 → (x ≤ ceil_float x t * t) × (ceil_float x t * t < x + t)

pub enough_blocks :
    {B : Type 0} (bits : BitArray B) (bitarray : B) (n : ℕ)
    → n ≤ cant_bloques_libres_bitmap bits (bits.get_max_bit bitarray) bitarray
    → (ltb 0 n && not (hay_n_bloques_libres bits bitarray n)) ≡ false
enough_blocks bits bitarray n le = elim (Bool-cases (ltb 0 n)) [
  | inr none_new ↦ rw none_new refl
  | inl more ↦
      let there =
        (hay_n_bloques_libres_iff bits bitarray n (bits.get_max_bit bitarray) (ground arith) refl).1
          le in
      rw (more, there) refl
]

-- What the test of `guardarDatos` lets through.
pub not_lacking :
    {B : Type 0} (bits : BitArray B) (bitarray : B) (n : ℕ)
    → (ltb 0 n && not (hay_n_bloques_libres bits bitarray n)) ≡ false
    → n ≤ cant_bloques_libres_bitmap bits (bits.get_max_bit bitarray) bitarray
not_lacking bits bitarray n passed = elim (Bool-cases (hay_n_bloques_libres bits bitarray n)) [
  | inl there ↦ elim (Bool-cases (ltb 0 n)) [
    | inl more ↦
        (hay_n_bloques_libres_iff bits bitarray n (bits.get_max_bit bitarray) (ground arith) refl).0
          there
    | inr none_new ↦ ground arith
  ]
  | inr lacking ↦ let none_new : ltb 0 n ≡ false = ground arith in ground arith
]

-- The size of a file after a write up to `end` fits its blocks, with the added ones.
pub Sized-after :
    (t : ℕ) (archivo : Archivo) (n end : ℕ)
    → Sized t archivo
    → 0 < end
    → end ≤ (length archivo.bloques + n) * t
    → ((0 < n) → (length archivo.bloques + n) * t < end + t)
    → let size = if ltb archivo.tamanio end then end else archivo.tamanio in
      (size ≤ (length archivo.bloques + n) * t)
      × (0 < size → (length archivo.bloques + n) * t < size + t)
      × ((length archivo.bloques + n) * t ≤ size + t)
Sized-after t archivo n end (inside, close, at_most) some_bytes room none_in_vain =
    let split : (length archivo.bloques + n) * t ≡ length archivo.bloques * t + n * t =
      grind arith in
    elim (dec_lt 0 n) [
      | yes new ↦ elim (Bool-cases (ltb archivo.tamanio end)) [
        | inl grows ↦ rw grows (room, λ lt. none_in_vain new, omega (arith, none_in_vain new))
        | inr stays ↦
            let le : end ≤ archivo.tamanio = ground arith in
            rw stays
              (omega arith, λ lt. omega (arith, none_in_vain new), omega (arith, none_in_vain new))
      ]
      | no old ↦
          let none_new : n * t ≡ 0 = (let e : n ≡ 0 = omega arith in rw e (omega arith)) in
          elim (Bool-cases (ltb archivo.tamanio end)) [
            | inl grows ↦
                let lt : archivo.tamanio < end = ground arith in
                rw grows (room, λ some_end. omega arith, omega arith)
            | inr stays ↦
                let le : end ≤ archivo.tamanio = ground arith in
                rw stays (omega arith, λ lt. omega (arith, close lt), omega arith)
          ]
    ]

-- How many blocks are added: enough, none in vain, and no more than are free.
pub new_blocks :
    {B : Type 0} (bits : BitArray B) (ceil_float : ℕ → ℕ → ℕ)
    → IsCeil ceil_float
    → (t len end free : ℕ) → 0 < t
    → end < 2 ^ 24
    → end ≤ (len + free) * t
    → let n = bloques_nuevos bits ceil_float t len end in
      (n ≤ free) × (end ≤ (len + n) * t) × ((0 < n) → (len + n) * t < end + t)
unfolding bloques_nuevos
new_blocks bits ceil_float ceils t len end free pos exact room =
    elim (Bool-cases (ltb (len * t) end)) [
      | inr none_new ↦
          let same : (len + 0) * t ≡ len * t = omega arith in
          rw none_new (omega arith, rw same (ground arith), λ lt. absurd (omega arith))
      | inl more ↦
          let c = ceil_float (end - len * t) t in
          let (above, below) = ceils (end - len * t) t pos (omega arith) in
          let split : (len + c) * t ≡ len * t + c * t = grind arith in
          let split' : (len + free) * t ≡ len * t + free * t = grind arith in
          let inside : len * t < end = ground arith in
          rw more (le_of_mul c free t pos (omega arith), omega arith, λ lt. omega arith)
    ]

-- More bytes than the blocks of the file and the free blocks hold ask for more blocks than are free.
pub new_blocks-full :
    {B : Type 0} (bits : BitArray B) (ceil_float : ℕ → ℕ → ℕ)
    → IsCeil ceil_float
    → (bitarray : B) (t len end : ℕ) → 0 < t
    → end < 2 ^ 24
    → (len + cant_bloques_libres_bitmap bits (bits.get_max_bit bitarray) bitarray) * t < end
    → let n = bloques_nuevos bits ceil_float t len end in
      (ltb 0 n && not (hay_n_bloques_libres bits bitarray n)) ≡ true
unfolding bloques_nuevos
new_blocks-full bits ceil_float ceils bitarray t len end pos exact full =
    let free = cant_bloques_libres_bitmap bits (bits.get_max_bit bitarray) bitarray in
    let split : (len + free) * t ≡ len * t + free * t = grind arith in
    let more : ltb (len * t) end ≡ true = ground arith in
    let c = ceil_float (end - len * t) t in
    let (above, below) = ceils (end - len * t) t pos (omega arith) in
    let too_many : free < c = not_le free c t (omega arith) in
    let some_new : ltb 0 c ≡ true = ground arith in
    elim (Bool-cases (hay_n_bloques_libres bits bitarray c)) [
      | inr lacking ↦ rw (more, some_new, lacking) refl
      | inl there ↦ absurd (
          omega (
            arith,
            (hay_n_bloques_libres_iff bits bitarray c (bits.get_max_bit bitarray) (omega arith)
                  refl).0
                there,
          ))
    ]
  where
    not_le : (n m k : ℕ) → n * k < m * k → n < m
    not_le n m k h = elim (dec_lt n m) [
      | yes lt ↦ lt
      | no le ↦ let more : m * k ≤ n * k = grind arith in absurd (omega (arith, more))
    ]
