-- ===== src/FileSystem/Operaciones/Paths.antt =====
-- The files of the disk by their paths: a write, a removal and what is found then.
use socketapp.Common.{
  ℕ, ◌≡◌, ◌≢◌, inl, inr, refl, sym, ◌∙◌, none, some, List, [], ◌∷◌, Bool-cases, same_bytes,
  same_bytes_iff, if◌then◌else◌,
}
use socketapp.FileSystem.Operaciones.{
  Archivo, find_archivo, eliminar_metadata_archivo, metadata_fs_write,
}

pub find_archivo-eliminar_self :
    (path : List ℕ) (archivos : List (List ℕ × Archivo))
    → find_archivo path (eliminar_metadata_archivo path archivos) ≡ none
unfolding find_archivo eliminar_metadata_archivo
find_archivo-eliminar_self path [] = refl
find_archivo-eliminar_self path ((p, archivo) ∷ archivos) = elim (Bool-cases (same_bytes p path)) [
  | inl here ↦ rw here (find_archivo-eliminar_self path archivos)
  | inr apart ↦ rw (apart, find_archivo, apart) (find_archivo-eliminar_self path archivos)
]

pub find_archivo-eliminar_other :
    (path p : List ℕ) (archivos : List (List ℕ × Archivo))
    → p ≢ path
    → find_archivo p (eliminar_metadata_archivo path archivos) ≡ find_archivo p archivos
unfolding find_archivo eliminar_metadata_archivo
find_archivo-eliminar_other path p [] ne = refl
find_archivo-eliminar_other path p ((q, archivo) ∷ archivos) ne =
    let rest = find_archivo-eliminar_other path p archivos ne in
    elim (Bool-cases (same_bytes q path)) [
      | inr apart ↦ rw (apart, find_archivo, rest) refl
      | inl here ↦ elim (Bool-cases (same_bytes q p)) [
        | inl both ↦
            absurd (ne (sym ((same_bytes_iff q p).0 both) ∙ (same_bytes_iff q path).0 here))
        | inr other ↦ rw (here, other) rest
      ]
    ]

-- What is found at each path after a file was written.
pub find_archivo-metadata_fs_write :
    (path p : List ℕ) (archivo : Archivo) (archivos : List (List ℕ × Archivo))
    → find_archivo p (metadata_fs_write path archivo archivos)
      ≡ (if same_bytes path p then some archivo else find_archivo p archivos)
unfolding find_archivo metadata_fs_write
find_archivo-metadata_fs_write path p archivo archivos = elim (Bool-cases (same_bytes path p)) [
  | inl here ↦ rw (here, find_archivo) refl
  | inr apart ↦
      rw (apart, find_archivo)
        (find_archivo-eliminar_other path p archivos
          (λ e. cc (apart, (same_bytes_iff path p).1 (sym e))))
]
