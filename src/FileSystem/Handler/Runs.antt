-- ===== src/FileSystem/Handler/Runs.antt =====
-- The requests of the Kernel one after another: a step relation, and what every run keeps.
use socketapp.Common.{ℕ, ◌≡◌, ap, inl, inr, Option, some, List, [], subst, Option-cases}
use mathlib.Core.Option.{some-injective}
use socketapp.FileSystem.Bitmap.{BitArray}
use socketapp.FileSystem.Bitmap.Counts.{IsBitArray}
use socketapp.FileSystem.Operaciones.{
  Metadata, Disk, find_archivo, crear, borrar, obtener_datos, guardar_datos,
}
use socketapp.FileSystem.Operaciones.Create.{IsValid, crear-IsValid, borrar-IsValid}
use socketapp.FileSystem.Operaciones.Owners.{guardar_datos-IsValid}
use socketapp.FileSystem.Handler.{
  Mensaje, to_validate, to_create, to_delete, to_read, to_write, other, Enviado,
  hacer_lo_que_corresponda,
}

module _ {B : Type 0} (bits : BitArray B) (metadata : Metadata) (mapped : ℕ)
    (ceil_float : ℕ → ℕ → ℕ) (garbage : ℕ → List ℕ) where
  -- The requests, in their order, with what was answered to each.
  pub data DiskRun (disk : Disk B) : Disk B → Type 0 where
    here : DiskRun disk disk
    next :
        {disk' disk'' : Disk B} (mensaje : Mensaje) {sent : List Enviado}
        → DiskRun disk disk'
        → hacer_lo_que_corresponda bits metadata mapped ceil_float garbage mensaje disk'
          ≡ some (sent, disk'')
        → DiskRun disk disk''

  module _ (laws : IsBitArray bits) where
    as_sent :
        (sent sent' : List Enviado) (disk disk' : Disk B)
        → IsValid bits laws disk
        → ◌≡◌ {A = Option (List Enviado × Disk B)} (some (sent, disk)) (some (sent', disk'))
        → IsValid bits laws disk'
    as_sent sent sent' disk disk' valid e =
        subst (λ (d : Disk B). IsValid bits laws d)
          (ap (λ (t : List Enviado × Disk B). t.1) (some-injective (sent, disk) (sent', disk') e))
          valid

    borrar-kept :
        (path : List ℕ) (disk : Disk B)
        → IsValid bits laws disk
        → IsValid bits laws (borrar bits path disk).1
    unfolding borrar
    borrar-kept path disk valid = elim (Option-cases (find_archivo path disk.archivos)) [
      | inl absent ↦ rw (absent, borrar) valid
      | inr (archivo, found) ↦ (borrar-IsValid bits laws path disk valid found).1
    ]

    hacer_lo_que_corresponda-IsValid :
        (mensaje : Mensaje) (disk : Disk B) (sent : List Enviado) (disk' : Disk B)
        → IsValid bits laws disk
        → hacer_lo_que_corresponda bits metadata mapped ceil_float garbage mensaje disk
          ≡ some (sent, disk')
        → IsValid bits laws disk'
    unfolding hacer_lo_que_corresponda
    hacer_lo_que_corresponda-IsValid (to_validate path) disk sent disk' valid e =
        as_sent _ sent disk disk' valid e
    hacer_lo_que_corresponda-IsValid (to_create opens directorios opens' path) disk sent disk' valid
          e =
        as_sent _ sent (crear bits opens directorios opens' path disk).1 disk'
          (crear-IsValid bits laws opens directorios opens' path disk valid) e
    hacer_lo_que_corresponda-IsValid (to_delete path) disk sent disk' valid e =
        as_sent _ sent (borrar bits path disk).1 disk' (borrar-kept path disk valid) e
    hacer_lo_que_corresponda-IsValid (to_read path offset size) disk sent disk' valid e =
        elim (Option-cases (obtener_datos metadata garbage path offset size disk)) [
          | inl crash ↦ cc (rw crash at e)
          | inr (read, answers) ↦ as_sent _ sent disk disk' valid (rw answers at e)
        ]
    hacer_lo_que_corresponda-IsValid (to_write path offset buffer) disk sent disk' valid e =
        elim (Option-cases
          (guardar_datos bits metadata mapped ceil_float path offset buffer disk)) [
            | inl crash ↦ cc (rw crash at e)
            | inr ((resultado, written), answers) ↦
                as_sent _ sent written disk'
                  (guardar_datos-IsValid bits metadata mapped ceil_float laws path offset buffer
                    disk valid answers)
                  (rw answers at e)
          ]
    hacer_lo_que_corresponda-IsValid other disk sent disk' valid e =
        as_sent [] sent disk disk' valid e

    -- Whatever requests come, in whatever order, and whatever is answered: no block is in two places of
    -- files, and the blocks of the files are marked as used.
    pub DiskRun-IsValid :
        {disk disk' : Disk B}
        → DiskRun disk disk'
        → IsValid bits laws disk
        → IsValid bits laws disk'
    DiskRun-IsValid here valid = valid
    DiskRun-IsValid {disk} {disk'} (next {disk' = middle} mensaje {sent} run answers) valid =
        hacer_lo_que_corresponda-IsValid mensaje middle sent disk' (DiskRun-IsValid run valid)
          answers
