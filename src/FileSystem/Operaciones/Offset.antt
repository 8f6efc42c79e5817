-- ===== src/FileSystem/Operaciones/Offset.antt =====
-- A write to the blocks of a file from the one on that the offset lies in.
use socketapp.Common.{
  ◌/◌, All, ℕ, zero, suc, ◌+◌, ◌-◌, ◌*◌, ◌≤◌, ◌<◌, ◌≡◌, ◌≢◌, refl, ap, ◌∙◌, some, List, [], true,
  ◌∷◌, ◌++◌, arith, get_elem?, length, length-drop, drop, patch,
}
use socketapp.FileSystem.Operaciones.{escribir_bloques}
use socketapp.FileSystem.Operaciones.Blocks.{
  HasBytes, Apart, drop-past, length-HasBytes, HasBytes-drop, offset_split, le_of_mul,
}
use socketapp.FileSystem.Operaciones.Write.{portion, escribir_bloques-Escrito}

All-drop : (P : ℕ → Type 0) (n : ℕ) (xs : List ℕ) → All P xs → All P (drop n xs)
All-drop P zero xs h = h
All-drop P (suc n) [] h = tt
All-drop P (suc n) (x ∷ xs) h = All-drop P n xs h.1

Apart-drop : (n : ℕ) (xs : List ℕ) → Apart xs → Apart (drop n xs)
Apart-drop zero xs h = h
Apart-drop (suc n) [] h = tt
Apart-drop (suc n) (x ∷ xs) h = Apart-drop n xs h.1

patch-past :
    (xs ys : List ℕ) (k : ℕ) (zs : List ℕ)
    → patch (xs ++ ys) (length xs + k) zs ≡ xs ++ patch ys k zs
patch-past [] ys k zs = let e : 0 + k ≡ k = omega arith in rw e refl
patch-past (x ∷ xs) ys k zs =
    let e : suc (length xs) + k ≡ suc (length xs + k) = omega arith in
    rw e (ap (λ l. x ∷ l) (patch-past xs ys k zs))

-- A write to the blocks from the `n`th one on is a write to the bytes of the file.
HasBytes-splice :
    (tamanio : ℕ) (disk disk' : List (List ℕ)) (n comienzo : ℕ) (bloques bytes buffer : List ℕ)
    → Apart bloques
    → HasBytes tamanio disk bloques bytes
    → n ≤ length bloques
    → ((b : ℕ) → All (λ x. x ≢ b) (drop n bloques) → get_elem? disk' b ≡ get_elem? disk b)
    → HasBytes tamanio disk' (drop n bloques) (patch (drop (n * tamanio) bytes) comienzo buffer)
    → HasBytes tamanio disk' bloques (patch bytes (n * tamanio + comienzo) buffer)
HasBytes-splice tamanio disk disk' zero comienzo bloques bytes buffer apart h le same h' =
    let e : 0 * tamanio ≡ 0 = omega arith in
    let e' : 0 + comienzo ≡ comienzo = omega arith in rw (e, e') (rw e at h')
HasBytes-splice tamanio disk disk' (suc n) comienzo [] bytes buffer apart h le same h' =
    absurd (omega arith)
HasBytes-splice tamanio disk disk' (suc n) comienzo (b ∷ bloques) bytes buffer (out, apart)
      (bloque, more, there, full, split, rest) le same h' =
    let e : suc n * tamanio ≡ length bloque + n * tamanio = grind arith in
    let e' : suc n * tamanio + comienzo ≡ length bloque + (n * tamanio + comienzo) =
      omega (arith, e) in
    let behind : drop (suc n * tamanio) bytes ≡ drop (n * tamanio) more =
      rw (split, e) (drop-past bloque more (n * tamanio)) in
    (
      bloque,
      patch more (n * tamanio + comienzo) buffer,
      same b (All-drop (λ x. x ≢ b) n bloques out) ∙ there,
      full,
      rw (split, e') (patch-past bloque more (n * tamanio + comienzo) buffer),
      HasBytes-splice tamanio disk disk' n comienzo bloques more buffer apart rest (omega arith)
          same (rw behind at h'),
    )

module _ (tamanio mapped : ℕ) where
  -- The bytes are written over those of the file from the offset on, and to its blocks only.
  pub record EscritoDesde (bloques bytes : List ℕ) (offset : ℕ) (buffer : List ℕ)
      (disk : List (List ℕ)) : Type 0 where
    pub disk' : List (List ℕ)
    pub answers :
        escribir_bloques tamanio mapped
          (drop (offset / tamanio) bloques)
          (offset - offset / tamanio * tamanio)
          buffer
          disk
        ≡ some (true, disk')
    pub has_bytes : HasBytes tamanio disk' bloques (patch bytes offset buffer)
    pub same : (b : ℕ) → All (λ x. x ≢ b) bloques → get_elem? disk' b ≡ get_elem? disk b

  pub escribir_bloques-EscritoDesde :
      (bloques bytes : List ℕ) (offset : ℕ) (buffer : List ℕ) (disk : List (List ℕ))
      → 0 < tamanio
      → tamanio ≤ mapped
      → HasBytes tamanio disk bloques bytes
      → Apart bloques
      → offset + length buffer ≤ length bytes
      → offset - offset / tamanio * tamanio + portion tamanio buffer ≤ mapped
      → EscritoDesde bloques bytes offset buffer disk
  escribir_bloques-EscritoDesde bloques bytes offset buffer disk pos one_page has apart room page =
      let arranque = offset / tamanio in
      let (below, above) = offset_split offset tamanio pos in
      let whole = length-HasBytes tamanio disk bloques bytes has in
      let blocks : arranque ≤ length bloques =
        le_of_mul arranque (length bloques) tamanio pos (omega (arith, whole)) in
      let written =
        escribir_bloques-Escrito tamanio mapped one_page (drop arranque bloques)
          (drop (arranque * tamanio) bytes) (offset - arranque * tamanio) buffer disk
          (HasBytes-drop tamanio disk arranque bloques bytes blocks has)
          (Apart-drop arranque bloques apart) (omega arith)
          (omega (arith, length-drop (arranque * tamanio) bytes)) page in
      let place : arranque * tamanio + (offset - arranque * tamanio) ≡ offset = omega arith in
      let spliced =
        HasBytes-splice tamanio disk written.disk' arranque (offset - arranque * tamanio) bloques
          bytes buffer apart has blocks written.same written.has_bytes in
      record {
        disk' = written.disk';
        answers = written.answers;
        has_bytes = rw place at spliced;
        same = λ b out. written.same b (All-drop (λ x. x ≢ b) arranque bloques out);
      }
