-- ===== src/FileSystem/Operaciones/ReadLoop.antt =====
-- The loop of `obtenerDatos` over the blocks.
use socketapp.Common.{
  ℕ, ◌+◌, ◌-◌, ◌%◌, ◌^◌, ◌≤◌, ◌<◌, ◌≡◌, ◌⊎◌, inl, inr, refl, ap, ◌∙◌, some, List, [], true, word,
  ◌∷◌, ◌++◌, arith, get_elem?, length, length-append, length-drop, length-patch, take, drop, patch,
  take-zero, take-append, take_all, drop-append, patch-nil, append-nil, Bool-cases, ltb, leb,
}
use socketapp.FileSystem.Operaciones.{resta, positive, copiar, tramo, leer_bloques}
use native.Mathlib.Decide.{dec_lt}
use socketapp.FileSystem.Operaciones.Blocks.{HasBytes, patch-patch}

-- A difference of numbers that are no negative `int`.
resta_of_le : (a b : ℕ) → b ≤ a → a < 2 ^ 31 → resta a b ≡ a - b
resta_of_le a b le lt = omega arith

copiar-inside :
    (buf : List ℕ) (desplazamiento n comienzo : ℕ) (bloque : List ℕ)
    → comienzo + n ≤ length bloque
    → desplazamiento + n ≤ length buf
    → copiar buf desplazamiento n comienzo bloque
      ≡ some (patch buf desplazamiento (take n (drop comienzo bloque)))
unfolding copiar
copiar-inside buf desplazamiento n comienzo bloque le le' =
    let e : leb (comienzo + n) (length bloque) ≡ true = ground arith in
    let e' : leb (desplazamiento + n) (length buf) ≡ true = ground arith in rw (e, e') refl

take-drop-split :
    (n comienzo : ℕ) (xs ys : List ℕ)
    → comienzo ≤ length xs
    → take n (drop comienzo (xs ++ ys))
      ≡ take n (drop comienzo xs) ++ take (n - (length xs - comienzo)) ys
take-drop-split n comienzo xs ys le =
    rw (drop-append comienzo xs ys le, take-append n (drop comienzo xs) ys, length-drop comienzo xs)
      refl

last_block :
    (tamanio : ℕ) (disk : List (List ℕ)) (bloques bytes : List ℕ)
    → HasBytes tamanio disk bloques bytes
    → length bytes < tamanio
    → (bloques ≡ []) × (bytes ≡ [])
last_block tamanio disk [] bytes h lt = (refl, h)
last_block tamanio disk (b ∷ bloques) bytes (bloque, more, there, full, split, rest) lt =
    absurd (omega (arith, ap length split, length-append bloque more))

module _ (tamanio i_size file_size offset : ℕ) (disk : List (List ℕ)) (small : file_size < 2 ^ 31)
    (fits : i_size + offset ≤ file_size) where
  leer_bloques-done :
      (bloques : List ℕ) (comienzo : ℕ) (buf : List ℕ)
      → leer_bloques tamanio i_size file_size offset disk bloques comienzo i_size buf ≡ some buf
  unfolding leer_bloques
  leer_bloques-done [] comienzo buf = refl
  leer_bloques-done (b ∷ bloques) comienzo buf =
      let e : resta i_size i_size ≡ 0 = omega arith in rw e refl

  leer_bloques-end :
      (comienzo desplazamiento : ℕ) (buf : List ℕ)
      → leer_bloques tamanio i_size file_size offset disk [] comienzo desplazamiento buf ≡ some buf
  unfolding leer_bloques
  leer_bloques-end comienzo desplazamiento buf = refl

  -- How many bytes are copied from a block.
  tramo-cases :
      (comienzo desplazamiento : ℕ)
      → desplazamiento < i_size
      → comienzo < tamanio
      → let left = file_size - offset - desplazamiento in
        (tamanio - comienzo ≤ left)
          × (tamanio - comienzo ≤ i_size - desplazamiento)
          × (tramo tamanio i_size file_size offset comienzo desplazamiento
              ≡ (tamanio - comienzo, desplazamiento + (tamanio - comienzo)))
        ⊎ (tamanio - comienzo ≤ left)
          × (i_size - desplazamiento < tamanio - comienzo)
          × (tramo tamanio i_size file_size offset comienzo desplazamiento
              ≡ (i_size - desplazamiento, i_size))
        ⊎ (left < tamanio - comienzo)
          × ((tramo tamanio i_size file_size offset comienzo desplazamiento).0
              ≡ i_size - desplazamiento)
  unfolding tramo
  tramo-cases comienzo desplazamiento lt inside =
      let to_read = resta_of_le i_size desplazamiento (omega arith) (omega arith) in
      let in_file : resta file_size desplazamiento - offset ≡ file_size - offset - desplazamiento =
        omega arith in
      elim (Bool-cases (leb (tamanio - comienzo) (file_size - offset - desplazamiento))) [
        | inr end ↦ inr (inr (ground arith, rw (to_read, in_file, end, tramo) refl))
        | inl more ↦ elim (Bool-cases (leb (tamanio - comienzo) (i_size - desplazamiento))) [
          | inl whole ↦
              let next : (desplazamiento + (tamanio - comienzo)) % word
                  ≡ desplazamiento + (tamanio - comienzo) =
                ground arith in
              inl (ground arith, ground arith, rw (to_read, in_file, more, whole, next, tramo) refl)
          | inr part ↦
              let next : (desplazamiento + (i_size - desplazamiento)) % word ≡ i_size =
                omega arith in
              inr (
                inl
                  (ground arith, ground arith, rw (to_read, in_file, more, part, next, tramo) refl))
        ]
      ]

  leer_bloques-step :
      (b : ℕ) (bloques bloque : List ℕ) (comienzo desplazamiento n : ℕ) (buf : List ℕ)
      → desplazamiento < i_size
      → get_elem? disk b ≡ some bloque
      → length bloque ≡ tamanio
      → length buf ≡ i_size
      → (tramo tamanio i_size file_size offset comienzo desplazamiento).0 ≡ n
      → comienzo + n ≤ tamanio
      → desplazamiento + n ≤ i_size
      → leer_bloques tamanio i_size file_size offset disk (b ∷ bloques) comienzo desplazamiento buf
        ≡ leer_bloques tamanio i_size file_size offset disk bloques 0
            (tramo tamanio i_size file_size offset comienzo desplazamiento).1
            (patch buf desplazamiento (take n (drop comienzo bloque)))
  unfolding leer_bloques
  leer_bloques-step b bloques bloque comienzo desplazamiento n buf lt there full sized e inside
        within =
      let to_read = resta_of_le i_size desplazamiento (omega arith) (omega arith) in
      let in_file = resta_of_le file_size desplazamiento (omega arith) small in
      let some_left : positive (i_size - desplazamiento) ≡ true = ground arith in
      let some_in_file : positive (file_size - desplazamiento) ≡ true = ground arith in
      let behind : ltb offset (file_size - desplazamiento) ≡ true = ground arith in
      let copy = copiar-inside buf desplazamiento n comienzo bloque (omega arith) (omega arith) in
      rw (to_read, in_file, some_left, some_in_file, behind, there, e, copy) refl

  -- One block of the file, with the bytes of the blocks behind it.
  module _ (b : ℕ) (bloques bloque more bytes : List ℕ) (comienzo desplazamiento : ℕ) (buf : List ℕ)
      (there : get_elem? disk b ≡ some bloque) (full : length bloque ≡ tamanio)
      (split : bytes ≡ bloque ++ more) (inside : comienzo < tamanio) (lt : desplazamiento < i_size)
      (sized : length buf ≡ i_size) where
    -- The bytes that are left to read, those in this block first.
    parts :
        take (i_size - desplazamiento) (drop comienzo bytes)
        ≡ take (i_size - desplazamiento) (drop comienzo bloque)
          ++ take (i_size - desplazamiento - (tamanio - comienzo)) more
    parts =
        rw (split, ← full)
          (take-drop-split (i_size - desplazamiento) comienzo bloque more (omega arith))

    leer_bloques-goes_on :
        tamanio - comienzo ≤ i_size - desplazamiento
        → tramo tamanio i_size file_size offset comienzo desplazamiento
          ≡ (tamanio - comienzo, desplazamiento + (tamanio - comienzo))
        → leer_bloques tamanio i_size file_size offset disk bloques 0
            (desplazamiento + (tamanio - comienzo))
            (patch buf desplazamiento (drop comienzo bloque))
          ≡ some (
              patch
                (patch buf desplazamiento (drop comienzo bloque))
                (desplazamiento + (tamanio - comienzo))
                (take (i_size - (desplazamiento + (tamanio - comienzo))) more))
        → leer_bloques tamanio i_size file_size offset disk
            (b ∷ bloques)
            comienzo
            desplazamiento
            buf
          ≡ some (patch buf desplazamiento (take (i_size - desplazamiento) (drop comienzo bytes)))
    leer_bloques-goes_on whole e next =
        let n = tamanio - comienzo in
        let cut = drop comienzo bloque in
        let cut_size : length cut ≡ n = omega (arith, length-drop comienzo bloque) in
        let all : take n cut ≡ cut = take_all n cut (omega arith) in
        let all' : take (i_size - desplazamiento) cut ≡ cut =
          take_all (i_size - desplazamiento) cut (omega arith) in
        let left : i_size - desplazamiento - n ≡ i_size - (desplazamiento + n) = omega arith in
        let joined = patch-patch buf desplazamiento cut (take (i_size - desplazamiento - n) more) in
        leer_bloques-step b bloques bloque comienzo desplazamiento n buf lt there full sized
          (ap (λ t. t.0) e) (omega arith) (omega arith)
        ∙ rw (all, ap (λ (t : ℕ × ℕ). t.1) e)
            (next ∙ ap some (rw (parts, all', ← joined, cut_size, left) refl))

    leer_bloques-ends :
        comienzo + (i_size - desplazamiento) ≤ tamanio
        → (tramo tamanio i_size file_size offset comienzo desplazamiento).0
          ≡ i_size - desplazamiento
        → ((buf' : List ℕ)
            → leer_bloques tamanio i_size file_size offset disk bloques 0
                (tramo tamanio i_size file_size offset comienzo desplazamiento).1
                buf'
              ≡ some buf')
        → leer_bloques tamanio i_size file_size offset disk
            (b ∷ bloques)
            comienzo
            desplazamiento
            buf
          ≡ some (patch buf desplazamiento (take (i_size - desplazamiento) (drop comienzo bytes)))
    leer_bloques-ends short e ends =
        let size = i_size - desplazamiento in
        let nothing : take (size - (tamanio - comienzo)) more ≡ [] =
          take-zero (size - (tamanio - comienzo)) more (omega arith) in
        leer_bloques-step b bloques bloque comienzo desplazamiento size buf lt there full sized e
          short (omega arith)
        ∙ rw (parts, nothing, append-nil)
            (ends (patch buf desplazamiento (take size (drop comienzo bloque))))

  pub leer_bloques-bytes :
      (bloques bytes : List ℕ) (comienzo desplazamiento : ℕ) (buf : List ℕ)
      → HasBytes tamanio disk bloques bytes
      → comienzo < tamanio
      → desplazamiento ≤ i_size
      → length buf ≡ i_size
      → comienzo + (file_size - offset - desplazamiento) ≤ length bytes
      → (desplazamiento < i_size
          → length bytes < comienzo + (file_size - offset - desplazamiento) + tamanio)
      → leer_bloques tamanio i_size file_size offset disk bloques comienzo desplazamiento buf
        ≡ some (patch buf desplazamiento (take (i_size - desplazamiento) (drop comienzo bytes)))
  leer_bloques-bytes [] bytes comienzo desplazamiento buf h inside le sized room last =
      let none_left : i_size - desplazamiento ≡ 0 = omega (arith, ap length h) in
      rw (none_left, take-zero 0 (drop comienzo bytes) refl, patch-nil buf desplazamiento)
        (leer_bloques-end comienzo desplazamiento buf)
  leer_bloques-bytes (b ∷ bloques) bytes comienzo desplazamiento buf
        (bloque, more, there, full, split, rest) inside le sized room last =
      elim (dec_lt desplazamiento i_size) [
        | no done ↦
            let same : desplazamiento ≡ i_size = omega arith in
            let none_left : i_size - i_size ≡ 0 = omega arith in
            rw (same, none_left, take-zero 0 (drop comienzo bytes) refl, patch-nil buf i_size)
              (leer_bloques-done (b ∷ bloques) comienzo buf)
        | yes lt ↦
            let block = ap length split ∙ length-append bloque more in
            elim (tramo-cases comienzo desplazamiento lt inside) [
              | inl (within, whole, e) ↦
                  leer_bloques-goes_on b bloques bloque more bytes comienzo desplazamiento buf there
                    full split inside lt sized whole e
                    (leer_bloques-bytes bloques more 0 (desplazamiento + (tamanio - comienzo))
                      (patch buf desplazamiento (drop comienzo bloque)) rest (omega arith)
                      (omega arith) (length-patch buf desplazamiento (drop comienzo bloque) ∙ sized)
                      (omega (arith, block)) (λ lt'. omega (arith, last lt, block)))
              | inr (inl (within, part, e)) ↦
                  leer_bloques-ends b bloques bloque more bytes comienzo desplazamiento buf there
                    full split inside lt sized (omega arith) (ap (λ t. t.0) e)
                    (λ buf'. rw (ap (λ (t : ℕ × ℕ). t.1) e) (leer_bloques-done bloques 0 buf'))
              | inr (inr (end, e)) ↦
                  let (no_more, no_bytes) =
                    last_block tamanio disk bloques more rest (omega (arith, last lt, block)) in
                  leer_bloques-ends b bloques bloque more bytes comienzo desplazamiento buf there
                    full split inside lt sized (omega (arith, block, ap length no_bytes)) e
                    (λ buf'. rw no_more (
                      leer_bloques-end 0
                        (tramo tamanio i_size file_size offset comienzo desplazamiento).1 buf'))
            ]
      ]
