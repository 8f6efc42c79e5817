-- ===== src/FileSystem/Handler.antt =====
-- FileSystem/src/functions/handler.c: the requests of the Kernel. A request is received whole.
pub mod Runs
use socketapp.Common.{
  ℕ, Bool, true, false, Option, none, some, List, [], ◌∷◌, ◌++◌, take, if◌then◌else◌, ◌>>=◌,
}
use socketapp.FileSystem.Bitmap.{BitArray}
use socketapp.FileSystem.Operaciones.{
  Metadata, Disk, validar, crear, borrar, obtener_datos, guardar_datos, positive,
}

-- The operation, and for `crear` whether a new file and its directories can be made.
pub data Mensaje : Type 0 where
  to_validate : List ℕ → Mensaje
  to_create : Bool → Bool → Bool → List ℕ → Mensaje
  to_delete : List ℕ → Mensaje
  to_read : List ℕ → ℕ → ℕ → Mensaje
  to_write : List ℕ → ℕ → List ℕ → Mensaje
  other : Mensaje

pub data Enviado : Type 0 where
  sent_int : ℕ → Enviado
  sent_bytes : List ℕ → Enviado

-- The bytes that are sent behind a result above zero.
abbrev pub sent_buffer : ℕ → Option (List ℕ) → List Enviado
sent_buffer resultado none = []
sent_buffer resultado (some buffer) =
    if positive resultado then sent_bytes (take resultado buffer) ∷ [] else []

module _ {B : Type 0} (bits : BitArray B) (metadata : Metadata) (mapped : ℕ)
    (ceil_float : ℕ → ℕ → ℕ) (garbage : ℕ → List ℕ) where
  unfoldable pub hacer_lo_que_corresponda : Mensaje → Disk B → Option (List Enviado × Disk B)
  hacer_lo_que_corresponda (to_validate path) disk = some (sent_int (validar path disk) ∷ [], disk)
  hacer_lo_que_corresponda (to_create opens directorios opens' path) disk =
      let (resultado, disk') = crear bits opens directorios opens' path disk in
      some (sent_int resultado ∷ [], disk')
  hacer_lo_que_corresponda (to_delete path) disk =
      let (resultado, disk') = borrar bits path disk in some (sent_int resultado ∷ [], disk')
  hacer_lo_que_corresponda (to_read path offset size) disk =
      obtener_datos metadata garbage path offset size disk >>= λ (resultado, buffer).
      some (sent_int resultado ∷ sent_buffer resultado buffer, disk)
  hacer_lo_que_corresponda (to_write path offset buffer) disk =
      guardar_datos bits metadata mapped ceil_float path offset buffer disk
      >>= λ (resultado, disk'). some (sent_int resultado ∷ [], disk')
  hacer_lo_que_corresponda other disk = some ([], disk)
