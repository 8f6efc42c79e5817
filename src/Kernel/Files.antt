-- ===== src/Kernel/Files.antt =====
-- Kernel/src/functions/file_descriptor.c, and the handlers of threads/cpu/handler.c that use files: the
-- files that are open and the file descriptors of each process. `none`: a pointer to nothing is read.
pub mod Descriptors
pub mod Counts
pub mod Owners
pub mod Matches
pub mod Created
pub mod Consistent
pub mod Kept
pub mod Borrado
pub mod Closed
pub mod Permissions
use socketapp.Common.{
  ℕ, zero, suc, ◌+◌, ◌-◌, ◌*◌, ◌/◌, ◌%◌, ◌^◌, ◌≤◌, ◌<◌, ◌≡◌, ◌≢◌, ◌↔◌, ◌⊎◌, refl, sym, ap, ◌∙◌, inl,
  inr, Bool, true, false, not, ◌&&◌, ◌||◌, Option, none, some, List, [], ◌∷◌, ◌++◌, subst, arith,
  word, neg, ltb, leb, ◌==◌, if◌then◌else◌, ◌>>=◌, get_elem?, set, length, replicate,
  get_elem?_of_lt, lt_of_get_elem?, get_elem?-set_self, get_elem?-set_ne, length-set, length-append,
  take, drop, append-nil, append_assoc, ==_iff, ==_refl, ==-eq-false, Bool-cases, Option-cases,
  same_bytes, same_bytes_iff, List-cases,
}

-- `t_global_fd`; a pointer to it is its address, which `malloc` gives anew.
pub record GlobalFd : Type 0 where
  pub address : ℕ
  pub path : List ℕ
  pub opened : ℕ

-- `t_fd`
pub record Fd : Type 0 where
  pub value : ℕ
  pub cursor : ℕ
  pub permissions : List ℕ
  pub global : ℕ

-- What the handlers use of a `t_program`.
pub record Owner : Type 0 where
  pub pid : ℕ
  pub interruption_code : ℕ
  pub file_descriptors : List Fd
  pub incremental_fd : ℕ
  pub calls : ℕ

-- What goes to the FileSystem, to the program's CPU and console, and to Memory.
pub data Request : Type 0 where
  validar crear borrar : List ℕ → Request
  guardar_datos : List ℕ → ℕ → List ℕ → Request
  obtener_datos : List ℕ → ℕ → ℕ → Request
  answer : ℕ → ℕ → Request
  imprimir : ℕ → List ℕ → Request
  store : ℕ → ℕ → List ℕ → Request

pub record Files : Type 0 where
  pub next_address : ℕ
  pub globals : List GlobalFd
  pub owners : List Owner
  pub disconnected : List ℕ
  pub requests : List Request

-- What the FileSystem and Memory answer.
pub record Servers : Type 0 where
  pub filesystem_validate : List ℕ → ℕ
  pub filesystem_create : List ℕ → ℕ
  pub filesystem_delete : List ℕ → ℕ
  pub filesystem_write : List ℕ → ℕ → List ℕ → ℕ
  pub filesystem_read : List ℕ → ℕ → ℕ → ℕ × Option (List ℕ)
  pub memory_write : ℕ → ℕ → List ℕ → ℕ

abbrev pub starts_with : List ℕ → List ℕ → Bool
starts_with [] text = true
starts_with (c ∷ needle) [] = false
starts_with (c ∷ needle) (d ∷ text) =
    let rest = starts_with needle text in if c == d then rest else false

-- `strstr(text, needle) != NULL`
abbrev pub strstr : List ℕ → List ℕ → Bool
strstr [] needle = starts_with needle []
strstr (c ∷ text) needle =
    let rest = strstr text needle in if starts_with needle (c ∷ text) then true else rest

-- "r", "w" and "c"
abbrev pub permission_read : List ℕ
permission_read = 114 ∷ []

abbrev pub permission_write : List ℕ
permission_write = 119 ∷ []

abbrev pub permission_create : List ℕ
permission_create = 99 ∷ []

abbrev pub is_positive : ℕ → Bool
is_positive value = ltb 0 value && ltb value (2 ^ 31)

unfoldable pub find_owner : ℕ → List Owner → Option Owner
find_owner pid [] = none
find_owner pid (owner ∷ owners) = if owner.pid == pid then some owner else find_owner pid owners

unfoldable pub set_owner : ℕ → (Owner → Owner) → List Owner → List Owner
set_owner pid change [] = []
set_owner pid change (owner ∷ owners) =
    if owner.pid == pid then change owner ∷ owners else owner ∷ set_owner pid change owners

abbrev pub change_owner : ℕ → (Owner → Owner) → Files → Files
change_owner pid change files = record files { owners = set_owner pid change files.owners }

abbrev pub count_call : Owner → Owner
count_call owner = record owner { calls = owner.calls + 1 }

abbrev pub interrupted : ℕ → Owner → Owner
interrupted code owner = record owner { interruption_code = code }

abbrev pub disconnect : ℕ → Files → Files
disconnect pid files = record files { disconnected = files.disconnected ++ (pid ∷ []) }

abbrev pub tell : Request → Files → Files
tell request files = record files { requests = files.requests ++ (request ∷ []) }

-- The answer to the CPU; if it does not go through, the CPU is marked.
abbrev pub reply : ℕ → ℕ → Bool → Files → Files
reply pid value true files = tell (answer pid value) files
reply pid value false files = disconnect pid files

-- The object behind a pointer.
unfoldable pub find_address : ℕ → List GlobalFd → Option GlobalFd
find_address address [] = none
find_address address (g ∷ gs) = if g.address == address then some g else find_address address gs

unfoldable pub file_descriptor_global_get_by_path : List ℕ → List GlobalFd → Option GlobalFd
file_descriptor_global_get_by_path path [] = none
file_descriptor_global_get_by_path path (g ∷ gs) =
    if same_bytes g.path path then some g else file_descriptor_global_get_by_path path gs

unfoldable pub remove_path : List ℕ → List GlobalFd → List GlobalFd
remove_path path [] = []
remove_path path (g ∷ gs) = if same_bytes g.path path then gs else g ∷ remove_path path gs

unfoldable pub set_opened : ℕ → (ℕ → ℕ) → List GlobalFd → List GlobalFd
set_opened address change [] = []
set_opened address change (g ∷ gs) =
    if g.address == address
    then record g { opened = change g.opened } ∷ gs
    else g ∷ set_opened address change gs

unfoldable pub file_descriptor_get_by_number : ℕ → List Fd → Option Fd
file_descriptor_get_by_number number [] = none
file_descriptor_get_by_number number (fd ∷ fds) =
    if fd.value == number then some fd else file_descriptor_get_by_number number fds

unfoldable pub remove_fd : ℕ → List Fd → List Fd
remove_fd number [] = []
remove_fd number (fd ∷ fds) = if fd.value == number then fds else fd ∷ remove_fd number fds

unfoldable pub set_cursor : ℕ → ℕ → List Fd → List Fd
set_cursor number cursor [] = []
set_cursor number cursor (fd ∷ fds) =
    if fd.value == number
    then record fd { cursor = cursor } ∷ fds
    else fd ∷ set_cursor number cursor fds

abbrev pub up : ℕ → ℕ
up count = (count + 1) % word

abbrev pub down : ℕ → ℕ
down count = (count + word - 1) % word

-- The new descriptor, and the program that has it.
abbrev pub with_descriptor : ℕ → List ℕ → Owner → Owner
with_descriptor address permissions owner = record owner {
  file_descriptors =
      owner.file_descriptors
      ++ (record {
        value = owner.incremental_fd;
        cursor = 0;
        permissions = permissions;
        global = address;
      }
          ∷ []);
  incremental_fd = up owner.incremental_fd;
}

unfoldable pub file_descriptor_create : ℕ → ℕ → List ℕ → Files → Files
file_descriptor_create pid address permissions files = record files {
  globals = set_opened address up files.globals;
  owners = set_owner pid (with_descriptor address permissions) files.owners;
}

unfoldable pub file_descriptor_global_create : List ℕ → Files → Files
file_descriptor_global_create path files = record files {
  next_address = files.next_address + 1;
  globals =
      files.globals ++ (record { address = files.next_address; path = path; opened = 0 } ∷ []);
}
