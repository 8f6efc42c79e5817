-- ===== src/FileSystem/Operaciones/Blocks.antt =====
-- The bytes of a file: those of its blocks, one after another.
use socketapp.Common.{
  All, ℕ, zero, suc, ◌+◌, ◌*◌, ◌/◌, ◌≤◌, ◌<◌, ◌≡◌, ◌≢◌, refl, sym, ap, ◌∙◌, some, List, [], ◌∷◌,
  ◌++◌, arith, get_elem?, length, length-append, drop, patch, drop_all,
}
use socketapp.FileSystem.Operaciones.{Archivo}
use native.Mathlib.Decide.{dec_lt}
use native.Mathlib.Nat.{div-add-mod, mod-lt}

-- The block files of these numbers hold these bytes, each of them `tamanio` bytes.
abbrev pub HasBytes : ℕ → List (List ℕ) → List ℕ → List ℕ → Type 0
HasBytes tamanio disk [] bytes = bytes ≡ []
HasBytes tamanio disk (b ∷ bloques) bytes =
    (bloque more : List ℕ) × (get_elem? disk b ≡ some bloque)
    × (length bloque ≡ tamanio)
    × (bytes ≡ bloque ++ more)
    × HasBytes tamanio disk bloques more

module _ {ℓ} {A : Type ℓ} where
  pub patch-patch :
      (xs : List A) (offset : ℕ) (ys zs : List A)
      → patch (patch xs offset ys) (offset + length ys) zs ≡ patch xs offset (ys ++ zs)
  patch-patch [] offset ys zs = refl
  patch-patch (x ∷ xs) (suc offset) ys zs =
      let e : suc offset + length ys ≡ suc (offset + length ys) = omega arith in
      rw e (ap (λ l. x ∷ l) (patch-patch xs offset ys zs))
  patch-patch (x ∷ xs) zero [] zs = refl
  patch-patch (x ∷ xs) zero (y ∷ ys) zs =
      let e : 0 + length (y ∷ ys) ≡ suc (0 + length ys) = omega arith in
      rw e (ap (λ l. y ∷ l) (patch-patch xs zero ys zs))

  pub patch_all : (xs ys : List A) → length ys ≡ length xs → patch xs 0 ys ≡ ys
  patch_all [] [] h = refl
  patch_all [] (y ∷ ys) h = absurd (omega arith)
  patch_all (x ∷ xs) [] h = absurd (omega arith)
  patch_all (x ∷ xs) (y ∷ ys) h = ap (λ l. y ∷ l) (patch_all xs ys (omega arith))

  pub drop-drop : (n m : ℕ) (xs : List A) → drop n (drop m xs) ≡ drop (m + n) xs
  drop-drop n zero xs = let e : 0 + n ≡ n = omega arith in rw e refl
  drop-drop n (suc m) [] = drop_all n [] (omega arith) ∙ sym (drop_all (suc m + n) [] (omega arith))
  drop-drop n (suc m) (x ∷ xs) =
      let e : suc m + n ≡ suc (m + n) = omega arith in rw e (drop-drop n m xs)

-- No number stands twice.
abbrev pub Apart : List ℕ → Type 0
Apart [] = Unit
Apart (x ∷ xs) = All (λ b. b ≢ x) xs × Apart xs

-- The metadata fits the blocks: what is written lies in them, and no block is behind it, but that a new
-- file has one.
abbrev pub Sized : ℕ → Archivo → Type 0
Sized tamanio archivo =
    (archivo.tamanio ≤ length archivo.bloques * tamanio)
    × (0 < archivo.tamanio → length archivo.bloques * tamanio < archivo.tamanio + tamanio)
    × (length archivo.bloques * tamanio ≤ archivo.tamanio + tamanio)

pub drop-past : (xs ys : List ℕ) (k : ℕ) → drop (length xs + k) (xs ++ ys) ≡ drop k ys
drop-past [] ys k = let e : 0 + k ≡ k = omega arith in rw e refl
drop-past (x ∷ xs) ys k =
    let e : suc (length xs) + k ≡ suc (length xs + k) = omega arith in rw e (drop-past xs ys k)

module _ (tamanio : ℕ) (disk : List (List ℕ)) where
  pub length-HasBytes :
      (bloques bytes : List ℕ)
      → HasBytes tamanio disk bloques bytes
      → length bytes ≡ length bloques * tamanio
  length-HasBytes [] bytes h = rw h (omega arith)
  length-HasBytes (b ∷ bloques) bytes (bloque, more, there, sized, split, rest) =
      rw split (grind (arith, length-append bloque more, length-HasBytes bloques more rest))

  pub HasBytes-drop :
      (n : ℕ) (bloques bytes : List ℕ)
      → n ≤ length bloques
      → HasBytes tamanio disk bloques bytes
      → HasBytes tamanio disk (drop n bloques) (drop (n * tamanio) bytes)
  HasBytes-drop zero bloques bytes le h = let e : 0 * tamanio ≡ 0 = omega arith in rw e h
  HasBytes-drop (suc n) [] bytes le h = absurd (omega arith)
  HasBytes-drop (suc n) (b ∷ bloques) bytes le (bloque, more, there, sized, split, rest) =
      let e : suc n * tamanio ≡ length bloque + n * tamanio = grind arith in
      rw (split, e, drop-past bloque more (n * tamanio))
        (HasBytes-drop n bloques more (omega arith) rest)

-- The block and the place in it that an offset stands for.
pub offset_split :
    (offset tamanio : ℕ)
    → 0 < tamanio
    → (offset / tamanio * tamanio ≤ offset) × (offset < offset / tamanio * tamanio + tamanio)
offset_split offset tamanio h =
    grind (arith, div-add-mod offset tamanio, mod-lt offset {m = tamanio} h)

pub le_of_mul : (n m k : ℕ) → 0 < k → n * k < m * k + k → n ≤ m
le_of_mul n m k pos h = elim (dec_lt m n) [
  | no le ↦ omega arith
  | yes lt ↦ let more : (m + 1) * k ≤ n * k = grind arith in absurd (omega (arith, more))
]
