-- ===== src/Kernel/Files/Permissions.antt =====
-- A process reads and writes a file only with the permission to.
use socketapp.Common.{
  ℕ, ◌+◌, ◌^◌, ◌≡◌, ◌⊎◌, refl, ap, ◌∙◌, inl, inr, Bool, true, false, Option, none, some, List, [],
  ◌∷◌, ◌++◌, arith, neg, ltb, ◌==◌, if◌then◌else◌, take, Bool-cases, Option-cases,
}
use socketapp.Kernel.Planner.{is_console_error}
use socketapp.Kernel.Files.{
  Fd, Owner, Files, Servers, Request, guardar_datos, obtener_datos, answer, imprimir, store,
  find_owner, change_owner, count_call, interrupted, tell, reply, strstr, permission_read,
  permission_write, is_positive, file_descriptor_get_by_number,
}
use socketapp.Kernel.Files.Descriptors.{
  handle_cpu_escribir, handle_cpu_leer, after_write, store_read, error_fd_does_not_exist,
  error_file_no_write_permision, error_file_no_read_permision,
}
use socketapp.Kernel.Files.Consistent.{Consistent, change_owner-Consistent}
use socketapp.Kernel.Files.Kept.{live}

-- Whether a request writes to a file, and whether it reads one.
abbrev pub is_write : Request → Bool
is_write (guardar_datos path offset bytes) = true
is_write _ = false

abbrev pub is_read : Request → Bool
is_read (obtener_datos path offset size) = true
is_read _ = false

abbrev pub count_requests : (Request → Bool) → List Request → ℕ
count_requests test [] = 0
count_requests test (request ∷ requests) =
    (if test request then 1 else 0) + count_requests test requests

count_requests-append :
    (test : Request → Bool) (xs : List Request) (request : Request)
    → count_requests test (xs ++ (request ∷ []))
      ≡ count_requests test xs + (if test request then 1 else 0)
count_requests-append test [] request = omega arith
count_requests-append test (x ∷ xs) request = omega (arith, count_requests-append test xs request)

abbrev pub writes : Files → ℕ
writes files = count_requests is_write files.requests

abbrev pub reads : Files → ℕ
reads files = count_requests is_read files.requests

-- What a request was made for: a descriptor of the program with the permission.
abbrev pub Permitted : List ℕ → ℕ → Owner → Type 0
Permitted permission number owner =
    (fd : Fd) × (file_descriptor_get_by_number number owner.file_descriptors ≡ some fd)
    × (strstr fd.permissions permission ≡ true)

after_write-Consistent :
    (pid result : ℕ) (files : Files)
    → Consistent files
    → Consistent (after_write pid result files)
      × ((after_write pid result files).requests ≡ files.requests)
after_write-Consistent pid result files h = elim (Bool-cases (is_positive result)) [
  | inl good ↦ rw good (h, refl)
  | inr bad ↦ elim (Bool-cases (result == neg 28)) [
    | inl full ↦
        rw (bad, full)
          (change_owner-Consistent pid (interrupted (neg 28)) files (λ a o. refl) h, refl)
    | inr other ↦
        rw (bad, other)
          (change_owner-Consistent pid (interrupted (neg 13)) files (λ a o. refl) h, refl)
  ]
]

reply-reads :
    (pid value : ℕ) (goes : Bool) (files : Files)
    → Consistent files
    → Consistent (reply pid value goes files) × (reads (reply pid value goes files) ≡ reads files)
reply-reads pid value true files h =
    (h, omega (arith, count_requests-append is_read files.requests (answer pid value)))
reply-reads pid value false files h = (h, refl)

store_read-Consistent :
    (servers : Servers) (pid position : ℕ) (got : ℕ × Option (List ℕ)) (files : Files)
    → Consistent files
    → Consistent (store_read servers pid position got files).1
      × (reads (store_read servers pid position got files).1 ≡ reads files)
store_read-Consistent servers pid position (count, none) files h = (h, refl)
store_read-Consistent servers pid position (count, some buffer) files h =
    let result = servers.memory_write pid position (take count buffer) in
    let request = store pid position (take count buffer) in
    let same = count_requests-append is_read files.requests request in
    elim (Bool-cases (ltb result (2 ^ 31))) [
      | inl good ↦ rw good (h, omega (arith, same))
      | inr bad ↦ rw bad (
        change_owner-Consistent pid (interrupted result) (tell request files) (λ a o. refl) h,
        omega (arith, same),
      )
    ]

module _ (servers : Servers) (pid : ℕ) (files : Files) {owner : Owner}
    (found : find_owner pid files.owners ≡ some owner) (h : Consistent files) where
  counted-Consistent : Consistent (change_owner pid count_call files)
  counted-Consistent = change_owner-Consistent pid count_call files (λ a o. refl) h

  marked-Consistent :
      (code : ℕ)
      → Consistent (change_owner pid (interrupted code) (change_owner pid count_call files))
  marked-Consistent code =
      change_owner-Consistent pid (interrupted code) (change_owner pid count_call files)
        (λ a o. refl) counted-Consistent

  -- A program that is found, where the counts of the open files are in step with the
  -- descriptors: handle_cpu_escribir answers once the descriptor has come, keeps the counts in
  -- step, and asks the FileSystem for no write, or for one by a descriptor of the program with
  -- the permission to write.
  pub handle_cpu_escribir-Permitted :
      (salida : ℕ) (number : ℕ) (buffer : Option (List ℕ))
      → (files' : Files) × (handle_cpu_escribir servers salida pid (some number) buffer files
          ≡ some files')
        × Consistent files'
        × ((writes files' ≡ writes files)
            ⊎ (Permitted permission_write number owner × (writes files' ≡ writes files + 1)))
  unfolding handle_cpu_escribir
  handle_cpu_escribir-Permitted salida number buffer =
      let counted = change_owner pid count_call files in
      elim (Option-cases buffer) [
        | inl lost ↦ (counted, rw (found, lost, handle_cpu_escribir), counted-Consistent, inl refl)
        | inr (bytes, came) ↦ elim (Bool-cases (number == salida)) [
          | inl console ↦ elim (Bool-cases (is_console_error owner.interruption_code)) [
            | inl gone ↦ (
              counted,
              rw (found, came, console, gone, handle_cpu_escribir),
              counted-Consistent,
              inl refl,
            )
            | inr there ↦ (
              tell (imprimir pid bytes) counted,
              rw (found, came, console, there, handle_cpu_escribir),
              counted-Consistent,
              inl (
                  omega
                    (arith, count_requests-append is_write files.requests (imprimir pid bytes))),
            )
          ]
          | inr file ↦
              elim (Option-cases (file_descriptor_get_by_number number owner.file_descriptors)) [
                | inl missing ↦ (
                  change_owner pid (interrupted error_fd_does_not_exist) counted,
                  rw (found, came, file, missing, handle_cpu_escribir),
                  marked-Consistent error_fd_does_not_exist,
                  inl refl,
                )
                | inr (fd, there) ↦ elim (Bool-cases (strstr fd.permissions permission_write)) [
                  | inr forbidden ↦ (
                    change_owner pid (interrupted error_file_no_write_permision) counted,
                    rw (found, came, file, there, forbidden, handle_cpu_escribir),
                    marked-Consistent error_file_no_write_permision,
                    inl refl,
                  )
                  | inl allowed ↦
                      let (g, alive) =
                        live pid files {owner = owner} found h number {fd = fd} there in
                      let request = guardar_datos g.path fd.cursor bytes in
                      let asked = tell request counted in
                      let result = servers.filesystem_write g.path fd.cursor bytes in
                      let after = after_write-Consistent pid result asked counted-Consistent in
                      (
                        after_write pid result asked,
                        rw (found, came, file, there, allowed, alive, handle_cpu_escribir),
                        after.0,
                        inr (
                          (fd, there, allowed),
                          ap (count_requests is_write) after.1
                              ∙ count_requests-append is_write files.requests request,
                        ),
                      )
                ]
              ]
        ]
      ]

  -- A program that is found, where the counts of the open files are in step with the
  -- descriptors: handle_cpu_leer answers once its three numbers have come, keeps the counts in
  -- step, and asks the FileSystem for no read, or for one by a descriptor of the program with
  -- the permission to read.
  pub handle_cpu_leer-Permitted :
      (received : Option (ℕ × ℕ × ℕ)) (number position size : ℕ) (goes : Bool)
      → received ≡ some (number, position, size)
      → (files' : Files) × (handle_cpu_leer servers pid received goes files ≡ some files')
        × Consistent files'
        × ((reads files' ≡ reads files)
            ⊎ (Permitted permission_read number owner × (reads files' ≡ reads files + 1)))
  unfolding handle_cpu_leer
  handle_cpu_leer-Permitted received number position size goes came =
      let counted = change_owner pid count_call files in
      elim (Option-cases (file_descriptor_get_by_number number owner.file_descriptors)) [
        | inl missing ↦
            let marked = change_owner pid (interrupted error_fd_does_not_exist) counted in
            let told =
              reply-reads pid error_fd_does_not_exist goes marked
                (marked-Consistent error_fd_does_not_exist) in
            (
              reply pid error_fd_does_not_exist goes marked,
              rw (found, came, missing, handle_cpu_leer),
              told.0,
              inl told.1,
            )
        | inr (fd, there) ↦ elim (Bool-cases (strstr fd.permissions permission_read)) [
          | inr forbidden ↦
              let marked = change_owner pid (interrupted error_file_no_read_permision) counted in
              let told =
                reply-reads pid error_file_no_read_permision goes marked
                  (marked-Consistent error_file_no_read_permision) in
              (
                reply pid error_file_no_read_permision goes marked,
                rw (found, came, there, forbidden, handle_cpu_leer),
                told.0,
                inl told.1,
              )
          | inl allowed ↦
              let (g, alive) = live pid files {owner = owner} found h number {fd = fd} there in
              let request = obtener_datos g.path fd.cursor size in
              let asked = tell request counted in
              let got = servers.filesystem_read g.path fd.cursor size in
              let stored = store_read servers pid position got asked in
              let kept = store_read-Consistent servers pid position got asked counted-Consistent in
              let told = reply-reads pid stored.0 goes stored.1 kept.0 in
              (
                reply pid stored.0 goes stored.1,
                rw (found, came, there, allowed, alive, handle_cpu_leer),
                told.0,
                inr (
                  (fd, there, allowed),
                  told.1 ∙ kept.1 ∙ count_requests-append is_read files.requests request,
                ),
              )
        ]
      ]
