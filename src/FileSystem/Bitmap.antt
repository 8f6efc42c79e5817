-- ===== src/FileSystem/Bitmap.antt =====
-- FileSystem/src/functions/bitmap.c: the bitmap of the blocks of the disk.
pub mod Counts
use socketapp.Common.{
  ℕ, zero, suc, ◌+◌, ◌-◌, ◌*◌, ◌%◌, ◌≤◌, ◌<◌, ◌≡◌, ◌≢◌, ◌↔◌, ◌⊎◌, refl, sym, ap, ◌∙◌, inl, inr,
  Bool, true, false, not, ◌&&◌, Option, none, some, List, [], ◌∷◌, ◌++◌, subst, arith, word, neg,
  ltb, ◌==◌, if◌then◌else◌, to_nat, get_elem?, set, length, replicate, get_elem?_of_lt,
  lt_of_get_elem?, get_elem?-set_self, get_elem?-set_ne, length-set, length-replicate, length-take,
  length-drop, length-append, length-patch, take, drop, patch, take_all, take-zero, take-drop-patch,
  take-append, drop-append, drop_all, take-drop-patch_apart, patch-append, patch-nil, append-nil,
  append_assoc, min, get_elem?-replicate, get_elem?-set-cases, ==_iff, ==_refl, ==-eq-false,
  Bool-cases, Option-cases,
}
use socketapp.Common.{leb}

-- The operations of the commons library's `t_bitarray` that the code uses.
pub record BitArray (B : Type 0) : Type 0 where
  pub get_max_bit : B → ℕ
  pub test_bit : B → ℕ → Bool
  pub set_bit : B → ℕ → B
  pub clean_bit : B → ℕ → B

module _ {B : Type 0} (bits : BitArray B) where
  -- The loops look at `n` bits from `pos` on.
  unfoldable pub first_free : B → ℕ → ℕ → ℕ
  first_free bitarray zero pos = neg 1
  first_free bitarray (suc n) pos =
      let rest = first_free bitarray n (pos + 1) in
      if not (bits.test_bit bitarray pos) then pos else rest

  unfoldable pub encontrar_un_bloque_libre : B → ℕ
  encontrar_un_bloque_libre bitarray = first_free bitarray (bits.get_max_bit bitarray) 0

  unfoldable pub reaches : B → ℕ → ℕ → ℕ → ℕ → Bool
  reaches bitarray necesitados zero i libres = false
  reaches bitarray necesitados (suc n) i libres =
      let free = reaches bitarray necesitados n (i + 1) (libres + 1) in
      let used = reaches bitarray necesitados n (i + 1) libres in
      if not (bits.test_bit bitarray i)
      then (if (libres + 1) == necesitados then true else free)
      else used

  unfoldable pub hay_n_bloques_libres : B → ℕ → Bool
  hay_n_bloques_libres bitarray necesitados =
      reaches bitarray necesitados (bits.get_max_bit bitarray) 0 0

  unfoldable pub ocupar_bloque_libre : B → ℕ → B
  ocupar_bloque_libre bitarray bloque = bits.set_bit bitarray bloque

  unfoldable pub liberar_bloque_del_bitmap : B → ℕ → B
  liberar_bloque_del_bitmap bitarray bloque = bits.clean_bit bitarray bloque

  unfoldable pub count_free : B → ℕ → ℕ → ℕ
  count_free bitarray zero i = 0
  count_free bitarray (suc n) i =
      let rest = count_free bitarray n (i + 1) in
      if not (bits.test_bit bitarray i) then rest + 1 else rest

  -- `cantidad` is `configMetadata->cantidadBloques`.
  unfoldable pub cant_bloques_libres_bitmap : ℕ → B → ℕ
  cant_bloques_libres_bitmap cantidad bitarray = count_free bitarray cantidad 0
