-- ===== src/FileSystem/Operaciones/Write.antt =====
-- The loop of `guardarDatos` that writes to the blocks.
use socketapp.Common.{
  All, ℕ, zero, suc, ◌+◌, ◌-◌, ◌≤◌, ◌<◌, ◌≡◌, ◌≢◌, inl, inr, refl, sym, ap, ◌∙◌, some, List, [],
  true, ◌∷◌, ◌++◌, arith, get_elem?, set, get_elem?-set_self, get_elem?-set_ne, lt_of_get_elem?,
  length, length-append, length-drop, length-patch, take, drop, patch, take_all, patch-nil,
  patch-append, Bool-cases, leb, ◌==◌, if◌then◌else◌,
}
use socketapp.FileSystem.Operaciones.{escribir_bloques}
use socketapp.FileSystem.Operaciones.Blocks.{HasBytes, Apart}

HasBytes-set :
    (tamanio : ℕ) (disk : List (List ℕ)) (b : ℕ) (v bloques bytes : List ℕ)
    → All (λ x. x ≢ b) bloques
    → HasBytes tamanio disk bloques bytes
    → HasBytes tamanio (set disk b v) bloques bytes
HasBytes-set tamanio disk b v [] bytes out h = h
HasBytes-set tamanio disk b v (x ∷ bloques) bytes (ne, out)
      (bloque, more, there, full, split, rest) =
    (
      bloque,
      more,
      get_elem?-set_ne disk b x v (λ e. ne (sym e)) ∙ there,
      full,
      split,
      HasBytes-set tamanio disk b v bloques more out rest,
    )

-- A write stops at the end of the array.
patch-take :
    (xs : List ℕ) (offset n : ℕ) (ys : List ℕ)
    → length xs - offset ≤ n
    → patch xs offset (take n ys) ≡ patch xs offset ys
patch-take [] offset n ys h = refl
patch-take (x ∷ xs) (suc offset) n ys h = ap (λ l. x ∷ l) (patch-take xs offset n ys (omega arith))
patch-take (x ∷ xs) zero zero ys h = absurd (omega arith)
patch-take (x ∷ xs) zero (suc n) [] h = refl
patch-take (x ∷ xs) zero (suc n) (y ∷ ys) h =
    ap (λ l. y ∷ l) (patch-take xs zero n ys (omega arith))

length_zero : (xs : List ℕ) → length xs ≡ 0 → xs ≡ []
length_zero [] h = refl
length_zero (x ∷ xs) h = absurd (omega arith)

module _ (tamanio : ℕ) where
  -- How many bytes are written to a block.
  abbrev pub portion : List ℕ → ℕ
  portion resto = if leb (length resto) tamanio then length resto else tamanio

  portion-patch :
      (xs : List ℕ) (offset : ℕ) (resto : List ℕ)
      → length xs ≤ tamanio
      → patch xs offset (take (portion resto) resto) ≡ patch xs offset resto
  portion-patch xs offset resto le = elim (Bool-cases (leb (length resto) tamanio)) [
    | inl short ↦ rw (short, take_all (length resto) resto (omega arith)) refl
    | inr long ↦ rw long (patch-take xs offset tamanio resto (omega arith))
  ]

module _ (tamanio mapped : ℕ) (room_mapped : tamanio ≤ mapped) where
  -- The write goes through, and writes to these blocks only.
  pub record Escrito (bloques bytes : List ℕ) (comienzo : ℕ) (resto : List ℕ) (disk : List (List ℕ))
      : Type 0 where
    pub disk' : List (List ℕ)
    pub answers : escribir_bloques tamanio mapped bloques comienzo resto disk ≡ some (true, disk')
    pub has_bytes : HasBytes tamanio disk' bloques (patch bytes comienzo resto)
    pub same : (b : ℕ) → All (λ x. x ≢ b) bloques → get_elem? disk' b ≡ get_elem? disk b

  pub escribir_bloques-Escrito :
      (bloques bytes : List ℕ) (comienzo : ℕ) (resto : List ℕ) (disk : List (List ℕ))
      → HasBytes tamanio disk bloques bytes
      → Apart bloques
      → comienzo < tamanio
      → comienzo + length resto ≤ length bytes
      → comienzo + portion tamanio resto ≤ mapped
      → Escrito bloques bytes comienzo resto disk
  unfolding escribir_bloques
  escribir_bloques-Escrito [] bytes comienzo resto disk h apart inside fits page =
      let nothing : length resto ≡ 0 = omega (arith, ap length h) in
      record {
        disk' = disk;
        answers = rw nothing refl;
        has_bytes = rw (length_zero resto nothing, h) refl;
        same = λ b out. refl;
      }
  escribir_bloques-Escrito (b ∷ bloques) bytes comienzo resto disk
        (bloque, more, there, full, split, rest) (out, apart) inside fits page =
      elim (Bool-cases (length resto == 0)) [
        | inl nothing ↦ record {
          disk' = disk;
          answers = rw nothing refl;
          has_bytes =
              rw (length_zero resto (ground arith), patch-nil bytes comienzo)
                (bloque, more, there, full, split, rest);
          same = λ b' out'. refl;
        }
        | inr something ↦
            let new = patch bloque comienzo (take (portion tamanio resto) resto) in
            let resto' = drop (tamanio - comienzo) resto in
            let after =
              escribir_bloques-Escrito bloques more 0 resto' (set disk b new)
                (HasBytes-set tamanio disk b new bloques more out rest) apart (omega arith)
                (omega (
                  arith,
                  ap length split,
                  length-append bloque more,
                  length-drop (tamanio - comienzo) resto,
                ))
                (ground arith) in
            let mapped_there : leb (comienzo + portion tamanio resto) mapped ≡ true =
              ground arith in
            let inside_disk = lt_of_get_elem? disk b there in
            let written : get_elem? after.disk' b ≡ some new =
              after.same b out ∙ get_elem?-set_self disk b new inside_disk in
            let same_new : new ≡ patch bloque comienzo (take (length bloque - comienzo) resto) =
              portion-patch tamanio bloque comienzo resto (omega arith)
              ∙ sym (patch-take bloque comienzo (length bloque - comienzo) resto (omega arith)) in
            let cut : length bloque - comienzo ≡ tamanio - comienzo = omega arith in
            let both : patch bytes comienzo resto ≡ new ++ patch more 0 resto' =
              rw (split, same_new, ← cut) (patch-append bloque more comienzo resto (omega arith)) in
            record {
              disk' = after.disk';
              answers = rw (something, there, mapped_there) after.answers;
              has_bytes = (
                new,
                patch more 0 resto',
                written,
                length-patch bloque comienzo (take (portion tamanio resto) resto) ∙ full,
                both,
                after.has_bytes,
              );
              same = λ b' out'. after.same b' out'.1 ∙ get_elem?-set_ne disk b b' new out'.0;
            }
      ]
