-- ===== src/FileSystem/Operaciones/Owned.antt =====
-- Whose the blocks of the disk are, before and after a file is removed.
use socketapp.Common.{
  All, All-append, All-map, ℕ, ◌≡◌, ◌≢◌, inl, inr, sym, some, List, [], ◌∷◌, ◌++◌, subst,
  Bool-cases, same_bytes,
}
use mathlib.Core.Option.{some-injective}
use socketapp.FileSystem.Operaciones.{Archivo, find_archivo, eliminar_metadata_archivo}
use socketapp.FileSystem.Operaciones.Blocks.{Apart}

abbrev pub all_blocks : List (List ℕ × Archivo) → List ℕ
all_blocks [] = []
all_blocks ((path, archivo) ∷ archivos) = archivo.bloques ++ all_blocks archivos

All-left : (P : ℕ → Type 0) (xs ys : List ℕ) → All P (xs ++ ys) → All P xs × All P ys
All-left P [] ys h = (tt, h)
All-left P (x ∷ xs) ys (h, hs) = let (left, right) = All-left P xs ys hs in ((h, left), right)

-- No number of `ys` is one of `xs`.
abbrev pub Foreign : List ℕ → List ℕ → Type 0
Foreign xs ys = All (λ y. All (λ x. x ≢ y) xs) ys

Apart-left : (xs ys : List ℕ) → Apart (xs ++ ys) → Apart xs × Apart ys × Foreign xs ys
Apart-left [] [] h = (tt, h, tt)
Apart-left [] (y ∷ ys) h = (tt, h, (tt, (Apart-left [] ys h.1).2))
Apart-left (x ∷ xs) ys (out, h) =
    let (left, right) = All-left (λ b. b ≢ x) xs ys out in
    let (apart, apart', foreign) = Apart-left xs ys h in
    ((left, apart), apart', both ys right foreign)
  where
    both : (zs : List ℕ) → All (λ b. b ≢ x) zs → Foreign xs zs → Foreign (x ∷ xs) zs
    both [] r f = tt
    both (z ∷ zs) (r, rs) (f, fs) = (((λ e. r (sym e)), f), both zs rs fs)

pub Apart-join : (xs ys : List ℕ) → Apart xs → Apart ys → Foreign xs ys → Apart (xs ++ ys)
Apart-join [] ys h k f = k
Apart-join (x ∷ xs) ys (out, h) k f = (
  All-append (λ b. b ≢ x) xs ys out
      (All-map (λ y. All (λ x'. x' ≢ y) (x ∷ xs)) (λ y. y ≢ x) ys (λ y h' e. h'.0 (sym e)) f),
  Apart-join xs ys h k
      (All-map (λ y. All (λ x'. x' ≢ y) (x ∷ xs)) (λ y. All (λ x'. x' ≢ y) xs) ys (λ y h'. h'.1) f),
)

module _ (path : List ℕ) where
  pub All-find :
      (P : ℕ → Type 0) (archivos : List (List ℕ × Archivo)) {archivo : Archivo}
      → find_archivo path archivos ≡ some archivo
      → All P (all_blocks archivos)
      → All P archivo.bloques
  unfolding find_archivo
  All-find P [] found h = cc
  All-find P ((p, a) ∷ archivos) {archivo} found h =
      let (mine, rest) = All-left P a.bloques (all_blocks archivos) h in
      elim (Bool-cases (same_bytes p path)) [
        | inl here ↦
            let e : some a ≡ some archivo = rw here at found in
            subst (λ (x : Archivo). All P x.bloques) (some-injective a archivo e) mine
        | inr apart ↦ All-find P archivos (rw apart at found) rest
      ]

  pub Apart-find :
      (archivos : List (List ℕ × Archivo)) {archivo : Archivo}
      → find_archivo path archivos ≡ some archivo
      → Apart (all_blocks archivos)
      → Apart archivo.bloques
  unfolding find_archivo
  Apart-find [] found h = cc
  Apart-find ((p, a) ∷ archivos) {archivo} found h =
      let (mine, rest, foreign) = Apart-left a.bloques (all_blocks archivos) h in
      elim (Bool-cases (same_bytes p path)) [
        | inl here ↦
            let e : some a ≡ some archivo = rw here at found in
            subst (λ (x : Archivo). Apart x.bloques) (some-injective a archivo e) mine
        | inr apart ↦ Apart-find archivos (rw apart at found) rest
      ]

  pub All-eliminar :
      (P : ℕ → Type 0) (archivos : List (List ℕ × Archivo))
      → All P (all_blocks archivos)
      → All P (all_blocks (eliminar_metadata_archivo path archivos))
  unfolding eliminar_metadata_archivo
  All-eliminar P [] h = tt
  All-eliminar P ((p, a) ∷ archivos) h =
      let (mine, rest) = All-left P a.bloques (all_blocks archivos) h in
      elim (Bool-cases (same_bytes p path)) [
        | inl here ↦ rw here (All-eliminar P archivos rest)
        | inr apart ↦ rw apart (
            All-append P a.bloques (all_blocks (eliminar_metadata_archivo path archivos)) mine
              (All-eliminar P archivos rest))
      ]

  pub Apart-eliminar :
      (archivos : List (List ℕ × Archivo))
      → Apart (all_blocks archivos)
      → Apart (all_blocks (eliminar_metadata_archivo path archivos))
  unfolding eliminar_metadata_archivo
  Apart-eliminar [] h = tt
  Apart-eliminar ((p, a) ∷ archivos) h =
      let (mine, rest, foreign) = Apart-left a.bloques (all_blocks archivos) h in
      elim (Bool-cases (same_bytes p path)) [
        | inl here ↦ rw here (Apart-eliminar archivos rest)
        | inr apart ↦ rw apart (
            Apart-join a.bloques (all_blocks (eliminar_metadata_archivo path archivos)) mine
              (Apart-eliminar archivos rest)
              (All-eliminar (λ y. All (λ x. x ≢ y) a.bloques) archivos foreign))
      ]

  pub Foreign-eliminar :
      (archivos : List (List ℕ × Archivo)) {archivo : Archivo}
      → find_archivo path archivos ≡ some archivo
      → Apart (all_blocks archivos)
      → Foreign archivo.bloques (all_blocks (eliminar_metadata_archivo path archivos))
  unfolding find_archivo eliminar_metadata_archivo
  Foreign-eliminar [] found h = cc
  Foreign-eliminar ((p, a) ∷ archivos) {archivo} found h =
      let (mine, rest, foreign) = Apart-left a.bloques (all_blocks archivos) h in
      elim (Bool-cases (same_bytes p path)) [
        | inl here ↦
            let e : some a ≡ some archivo = rw here at found in
            rw here (
              subst
                (λ (x : Archivo).
                  Foreign x.bloques (all_blocks (eliminar_metadata_archivo path archivos)))
                (some-injective a archivo e)
                (All-eliminar (λ y. All (λ x. x ≢ y) a.bloques) archivos foreign))
        | inr apart ↦
            let found' : find_archivo path archivos ≡ some archivo = rw apart at found in
            rw apart (
              All-append (λ y. All (λ x. x ≢ y) archivo.bloques) a.bloques
                (all_blocks (eliminar_metadata_archivo path archivos))
                (swap archivo.bloques a.bloques
                  (All-find (λ y. All (λ x. x ≢ y) a.bloques) archivos found' foreign))
                (Foreign-eliminar archivos found' rest))
      ]
    where
      pull : (x : ℕ) (xs ys : List ℕ) → Foreign (x ∷ xs) ys → All (λ y. y ≢ x) ys
      pull x xs [] f = tt
      pull x xs (y ∷ ys) (f, fs) = ((λ e. f.0 (sym e)), pull x xs ys fs)

      tail : (x : ℕ) (xs ys : List ℕ) → Foreign (x ∷ xs) ys → Foreign xs ys
      tail x xs [] f = tt
      tail x xs (y ∷ ys) (f, fs) = (f.1, tail x xs ys fs)

      swap : (xs ys : List ℕ) → Foreign ys xs → Foreign xs ys
      swap xs [] f = tt
      swap xs (y ∷ ys) f = (pull y ys xs f, swap xs ys (tail y ys xs f))
