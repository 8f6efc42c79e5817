-- ===== src/Kernel/Files/Descriptors.antt =====
-- The handlers of threads/cpu/handler.c that open, close, delete, move in, write and read a file.
use socketapp.Common.{
  ℕ, ◌^◌, Bool, not, ◌&&◌, Option, none, some, List, [], ◌∷◌, neg, ltb, ◌==◌, if◌then◌else◌, ◌>>=◌,
  take,
}
use socketapp.Kernel.Planner.{is_console_error}
use socketapp.Kernel.Files.{
  GlobalFd, Fd, Owner, Files, Servers, validar, crear, borrar, guardar_datos, obtener_datos,
  imprimir, store, strstr, permission_read, permission_write, permission_create, is_positive,
  find_owner, change_owner, count_call, interrupted, disconnect, tell, reply, find_address,
  file_descriptor_global_get_by_path, remove_path, set_opened, file_descriptor_get_by_number,
  remove_fd, set_cursor, down, file_descriptor_create, file_descriptor_global_create,
}

abbrev pub error_file_no_read_permision : ℕ
error_file_no_read_permision = neg 3

abbrev pub error_file_no_write_permision : ℕ
error_file_no_write_permision = neg 4

abbrev pub error_file_bad_delete : ℕ
error_file_bad_delete = neg 10

abbrev pub error_fd_does_not_exist : ℕ
error_fd_does_not_exist = neg 11

abbrev pub error_file_create_permision : ℕ
error_file_create_permision = neg 12

abbrev pub error_fs_operation : ℕ
error_fs_operation = neg 13

-- A new object for a path, and a descriptor of it.
abbrev pub create_both : ℕ → List ℕ → List ℕ → Files → Files
create_both pid path flags files =
    file_descriptor_create pid files.next_address flags (file_descriptor_global_create path files)

-- Between the locks of `handle_cpu_abrir`: the number of the descriptor, or 0, and the files after it.
unfoldable pub open_file : Servers → ℕ → ℕ → List ℕ → List ℕ → Files → ℕ × Files
open_file servers pid number path flags files =
    elim (file_descriptor_global_get_by_path path files.globals) [
      | some g ↦ (number, file_descriptor_create pid g.address flags files)
      | none ↦
          let asked = tell (validar path) files in
          if servers.filesystem_validate path == 1
          then (number, create_both pid path flags asked)
          else if strstr flags permission_create
          then (if servers.filesystem_create path == 1
              then (number, create_both pid path flags (tell (crear path) asked))
              else (0, change_owner pid (interrupted error_fs_operation) (tell (crear path) asked)))
          else (0, change_owner pid (interrupted error_file_create_permision) asked)
    ]

unfoldable pub handle_cpu_abrir :
    Servers → ℕ → Option (List ℕ) → Option (List ℕ) → Bool → Files → Option Files
handle_cpu_abrir servers pid path flags goes files = do
  owner ← find_owner pid files.owners
  let counted = change_owner pid count_call files
  elim path [
    | none ↦ some (disconnect pid counted)
    | some path ↦ elim flags [
      | none ↦ some (disconnect pid counted)
      | some flags ↦
          let (value, after) = open_file servers pid owner.incremental_fd path flags counted in
          some (reply pid value goes after)
    ]
  ]

-- `onDeleteError`, and the same answer when a descriptor is not found.
abbrev pub refuse : ℕ → ℕ → Bool → Files → Files
refuse pid code goes files = reply pid 0 goes (change_owner pid (interrupted code) files)

abbrev pub without_fd : ℕ → Owner → Owner
without_fd number owner = record owner {
  file_descriptors = remove_fd number owner.file_descriptors;
}

unfoldable pub handle_cpu_borrar : Servers → ℕ → Option ℕ → Bool → Files → Option Files
handle_cpu_borrar servers pid number goes files = do
  owner ← find_owner pid files.owners
  let counted = change_owner pid count_call files
  elim number [
    | none ↦ some (disconnect pid counted)
    | some number ↦ elim (file_descriptor_get_by_number number owner.file_descriptors) [
      | none ↦ some (refuse pid error_fd_does_not_exist goes counted)
      | some fd ↦ do
        g ← find_address fd.global files.globals
        let asked = tell (borrar g.path) counted
        some (
            if is_positive g.opened && not (g.opened == 1)
            then refuse pid error_file_bad_delete goes counted
            else if servers.filesystem_delete g.path == 1
            then reply pid 1 goes (
                change_owner pid (without_fd fd.value)
                  (record asked { globals = remove_path g.path files.globals }))
            else refuse pid error_fs_operation goes asked)
    ]
  ]

-- The global descriptors after one reference to an object is given back.
abbrev pub released_globals : GlobalFd → List GlobalFd → List GlobalFd
released_globals g gs =
    let lowered = set_opened g.address down gs in
    if down g.opened == 0 then remove_path g.path lowered else lowered

unfoldable pub handle_cpu_cerrar : ℕ → Option ℕ → Bool → Files → Option Files
handle_cpu_cerrar pid number goes files = do
  owner ← find_owner pid files.owners
  let counted = change_owner pid count_call files
  elim number [
    | none ↦ some (disconnect pid counted)
    | some number ↦ elim (file_descriptor_get_by_number number owner.file_descriptors) [
      | none ↦ some (refuse pid error_fd_does_not_exist goes counted)
      | some fd ↦ do
        g ← find_address fd.global files.globals
        some (
            reply pid 1 goes (
              change_owner pid (without_fd fd.value)
                (record counted { globals = released_globals g files.globals })))
    ]
  ]

unfoldable pub handle_cpu_mover_cursor : ℕ → Option ℕ → Option ℕ → Files → Option Files
handle_cpu_mover_cursor pid number position files = do
  owner ← find_owner pid files.owners
  let counted = change_owner pid count_call files
  elim number [
    | none ↦ some (disconnect pid counted)
    | some number ↦ elim position [
      | none ↦ some (disconnect pid counted)
      | some position ↦ elim (file_descriptor_get_by_number number owner.file_descriptors) [
        | none ↦ some (change_owner pid (interrupted error_fd_does_not_exist) counted)
        | some fd ↦ some (
            change_owner pid
              (λ owner. record owner {
                file_descriptors = set_cursor number position owner.file_descriptors;
              })
              counted)
      ]
    ]
  ]

-- What the FileSystem answers to a write, as an interruption code or none.
abbrev pub after_write : ℕ → ℕ → Files → Files
after_write pid result files =
    if is_positive result
    then files
    else if result == neg 28
    then change_owner pid (interrupted (neg 28)) files
    else change_owner pid (interrupted error_fs_operation) files

-- `salida` is the descriptor of the console, DESCRIPTOR_SALIDA of the parser's library.
unfoldable pub handle_cpu_escribir :
    Servers → ℕ → ℕ → Option ℕ → Option (List ℕ) → Files → Option Files
handle_cpu_escribir servers salida pid number buffer files = do
  owner ← find_owner pid files.owners
  let counted = change_owner pid count_call files
  elim number [
    | none ↦ some counted
    | some number ↦ elim buffer [
      | none ↦ some counted
      | some buffer ↦
          if number == salida
          then some (
              if is_console_error owner.interruption_code
              then counted
              else tell (imprimir pid buffer) counted)
          else elim (file_descriptor_get_by_number number owner.file_descriptors) [
            | none ↦ some (change_owner pid (interrupted error_fd_does_not_exist) counted)
            | some fd ↦
                if strstr fd.permissions permission_write
                then (do
                  g ← find_address fd.global files.globals
                  some (
                      after_write pid (servers.filesystem_write g.path fd.cursor buffer)
                        (tell (guardar_datos g.path fd.cursor buffer) counted)))
                else some (change_owner pid (interrupted error_file_no_write_permision) counted)
          ]
    ]
  ]

-- The bytes that were read go to the process's memory; the number for the CPU.
abbrev pub store_read : Servers → ℕ → ℕ → ℕ × Option (List ℕ) → Files → ℕ × Files
store_read servers pid position (count, none) files = (count, files)
store_read servers pid position (count, some buffer) files =
    let result = servers.memory_write pid position (take count buffer) in
    let stored = tell (store pid position (take count buffer)) files in
    if ltb result (2 ^ 31)
    then (1, stored)
    else (result, change_owner pid (interrupted result) stored)

unfoldable pub handle_cpu_leer : Servers → ℕ → Option (ℕ × ℕ × ℕ) → Bool → Files → Option Files
handle_cpu_leer servers pid received goes files = do
  owner ← find_owner pid files.owners
  let counted = change_owner pid count_call files
  elim received [
    | none ↦ some (disconnect pid counted)
    | some (number, position, size) ↦
        elim (file_descriptor_get_by_number number owner.file_descriptors) [
          | none ↦ some (
              reply pid error_fd_does_not_exist goes
                (change_owner pid (interrupted error_fd_does_not_exist) counted))
          | some fd ↦
              if strstr fd.permissions permission_read
              then (do
                g ← find_address fd.global files.globals
                let (result, after) =
                    store_read servers pid position (servers.filesystem_read g.path fd.cursor size)
                      (tell (obtener_datos g.path fd.cursor size) counted)
                some (reply pid result goes after))
              else some (
                  reply pid error_file_no_read_permision goes
                    (change_owner pid (interrupted error_file_no_read_permision) counted))
        ]
  ]

-- `deleteFileFromProcessFileTable` of functions/program.c: the first object that nobody has open goes.
unfoldable pub remove_closed : List GlobalFd → List GlobalFd
remove_closed [] = []
remove_closed (g ∷ gs) = if g.opened == 0 then gs else g ∷ remove_closed gs

unfoldable pub delete_file_from_process_file_table : Fd → List GlobalFd → Option (List GlobalFd)
delete_file_from_process_file_table fd gs = do
  g ← find_address fd.global gs
  some (remove_closed (set_opened g.address down gs))

unfoldable pub close_all : List Fd → List GlobalFd → Option (List GlobalFd)
close_all [] gs = some gs
close_all (fd ∷ fds) gs = delete_file_from_process_file_table fd gs >>= close_all fds

unfoldable pub close_opened_files : ℕ → Files → Option Files
close_opened_files pid files = do
  owner ← find_owner pid files.owners
  gs ← close_all owner.file_descriptors files.globals
  some (
      change_owner pid (λ owner. record owner { file_descriptors = [] })
        (record files { globals = gs }))
