-- ===== src/Tests/Files.antt =====
-- Kernel: process 1 has the file `a` open, to read, as descriptor 3, and process 2 has it open to write.
use socketapp.Common.{ℕ, ◌+◌, ◌^◌, ◌<◌, ◌≡◌, ◌⊎◌, refl, true, some, [], ◌∷◌, arith}
use socketapp.Kernel.Files.{GlobalFd, Fd, Owner, Files, Servers, find_owner, permission_write}
use socketapp.Kernel.Files.Descriptors.{
  handle_cpu_abrir, handle_cpu_borrar, handle_cpu_cerrar, handle_cpu_escribir, close_opened_files,
}
use socketapp.Kernel.Files.Counts.{refs_in, refs}
use socketapp.Kernel.Files.Consistent.{Consistent}
use socketapp.Kernel.Files.Kept.{handle_cpu_abrir-Consistent, handle_cpu_cerrar-Consistent}
use socketapp.Kernel.Files.Borrado.{Borrado, handle_cpu_borrar-Borrado}
use socketapp.Kernel.Files.{
  borrar, answer, set_owner, file_descriptor_get_by_number, find_address, remove_path, remove_fd,
}
use socketapp.Kernel.Files.Closed.{close_opened_files-Consistent}
use socketapp.Kernel.Files.Permissions.{writes, Permitted, handle_cpu_escribir-Permitted}

abbrev shared : GlobalFd
shared = record { address = 5; path = 97 ∷ []; opened = 2 }

abbrev reader_fd : Fd
reader_fd = record { value = 3; cursor = 0; permissions = 114 ∷ []; global = 5 }

abbrev writer_fd : Fd
writer_fd = record { value = 3; cursor = 4; permissions = 119 ∷ []; global = 5 }

abbrev reader : Owner
reader = record {
  pid = 1;
  interruption_code = 0;
  file_descriptors = reader_fd ∷ [];
  incremental_fd = 4;
  calls = 1;
}

abbrev writer : Owner
writer = record {
  pid = 2;
  interruption_code = 0;
  file_descriptors = writer_fd ∷ [];
  incremental_fd = 4;
  calls = 1;
}

abbrev two_files : Files
two_files = record {
  next_address = 6;
  globals = shared ∷ [];
  owners = reader ∷ writer ∷ [];
  disconnected = [];
  requests = [];
}

abbrev willing : Servers
willing = record {
  filesystem_validate = λ path. 1;
  filesystem_create = λ path. 1;
  filesystem_delete = λ path. 1;
  filesystem_write = λ path offset bytes. 1;
  filesystem_read = λ path offset size. (1, some (7 ∷ []));
  memory_write = λ pid position bytes. 1;
}

two_files-Consistent : Consistent two_files
two_files-Consistent = record {
  balanced = λ a. grind arith;
  single = λ a. grind arith;
  fresh = λ a h. grind arith;
  one_path = λ path. grind arith;
  all_open = (omega arith, tt);
  small = λ a. grind arith;
}

reader-found : find_owner 1 two_files.owners ≡ some reader
unfolding find_owner
reader-found = refl

writer-found : find_owner 2 two_files.owners ≡ some writer
unfolding find_owner
writer-found = refl

room : (a : ℕ) → refs a two_files.owners + 1 < 2 ^ 31
room a = grind arith

handle_cpu_abrir-Consistent_example :
    (files' : Files) × (handle_cpu_abrir willing 1 (some (98 ∷ [])) (some (119 ∷ [])) true two_files
      ≡ some files')
    × Consistent files'
handle_cpu_abrir-Consistent_example =
    handle_cpu_abrir-Consistent 1 two_files {owner = reader} reader-found two_files-Consistent
      willing (some (98 ∷ [])) (some (119 ∷ [])) true room

handle_cpu_cerrar-Consistent_example :
    (files' : Files) × (handle_cpu_cerrar 1 (some 3) true two_files ≡ some files')
    × Consistent files'
handle_cpu_cerrar-Consistent_example =
    handle_cpu_cerrar-Consistent 1 two_files {owner = reader} reader-found two_files-Consistent
      (some 3) true

-- Process 2 has the file `b` open, alone.
abbrev one_file : Files
one_file = record two_files {
  globals = record { address = 5; path = 98 ∷ []; opened = 1 } ∷ [];
  owners = writer ∷ [];
}

one_file-Consistent : Consistent one_file
one_file-Consistent = record {
  balanced = λ a. grind arith;
  single = λ a. grind arith;
  fresh = λ a h. grind arith;
  one_path = λ path. grind arith;
  all_open = (omega arith, tt);
  small = λ a. grind arith;
}

alone-found : find_owner 2 one_file.owners ≡ some writer
unfolding find_owner
alone-found = refl

-- The run deletes it.
borrar_run :
    handle_cpu_borrar willing 2 (some 3) true one_file
    ≡ some (record one_file {
      globals = [];
      owners = record writer { file_descriptors = []; calls = 2 } ∷ [];
      requests = borrar (98 ∷ []) ∷ answer 2 1 ∷ [];
    })
unfolding handle_cpu_borrar find_owner set_owner file_descriptor_get_by_number find_address
    remove_path remove_fd
borrar_run = refl

handle_cpu_borrar-Borrado_example :
    (files' : Files) × (handle_cpu_borrar willing 2 (some 3) true one_file ≡ some files')
    × Consistent files'
    × Borrado willing writer one_file (some 3) files'
handle_cpu_borrar-Borrado_example =
    handle_cpu_borrar-Borrado willing 2 one_file {owner = writer} alone-found one_file-Consistent
      (some 3) true

close_opened_files-Consistent_example :
    (files' : Files) × (close_opened_files 1 two_files ≡ some files')
    × Consistent files'
    × ((b : ℕ) → refs b files'.owners + refs_in b reader.file_descriptors ≡ refs b two_files.owners)
close_opened_files-Consistent_example =
    close_opened_files-Consistent 1 two_files {owner = reader} reader-found two_files-Consistent

handle_cpu_escribir-Permitted_example :
    (files' : Files) × (handle_cpu_escribir willing 1 2 (some 3) (some (8 ∷ [])) two_files
      ≡ some files')
    × Consistent files'
    × ((writes files' ≡ writes two_files)
        ⊎ (Permitted permission_write 3 writer × (writes files' ≡ writes two_files + 1)))
handle_cpu_escribir-Permitted_example =
    handle_cpu_escribir-Permitted willing 2 two_files {owner = writer} writer-found
      two_files-Consistent 1 3 (some (8 ∷ []))
