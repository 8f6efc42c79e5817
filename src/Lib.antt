-- ===== src/Lib.antt =====
-- socketapp: a Kernel, CPUs, a Memory, a FileSystem and Consoles, each a process of its own, which
-- simulate an operating system over sockets. This library models the C code of those processes and
-- states what makes it correct.
--
-- Common: Boolean tests, arrays as lists, and 32-bit words. An `int` and a `size_t` are 32-bit
--   patterns (the code's target is a 32-bit one: rot_hash shifts by 28), so -1 is 2 ^ 32 - 1.
-- Memory (Memory/src): the process that holds the pages.
--   Memory/Config: t_memory of commons/structures.h, bytes_to_pages of functions/utils.c.
--   Memory/Hash: functions/hash_function.c.
--   Memory/Ram: functions/ram.c and frame.c. The page table is a list; the block of frames is cut
--     at the frames, and a frame's address is its number. Every loop is a recursion; the two probe
--     loops run for as many rounds as there are frames, after which the code's lookup gives up and
--     its insertion would go round for ever (`none`).
--   Memory/Cache: functions/cache.c. An entry's address is its index; clock() and time() are a
--     parameter that gives the answer to the n-th call. list_find, list_add, list_iterate and
--     list_remove_by_condition of the commons library are the list functions that they describe.
--     Entries and Filled: the array. Processes: the lists of the processes. Lru and Replaced: the
--     choice of an entry.
--     A null pointer that cache_cache_contents follows gives no entry.
--   Memory/Access: functions/memory.c. The loops run on fuel, two more rounds than bytes: a round
--     moves a byte at least, or starts at the end of a page. A failed assertion, a copy of a
--     negative size and running out of fuel are results of their own. What a write needs of the
--     cache is the interface Caching of Access/WritePage, which Access/Filling fills for every quota.
--   The locks and the response delay are left out: requests are served one at a time.
-- Kernel (Kernel/src): the heap of a process.
--   Kernel/Space: what the Kernel sees of Memory through interface/memory.c: the pages of one
--     process by their numbers, with the reads and writes of a block's header in its eight bytes.
--   Kernel/Program: t_program and t_heap_page of commons/structures.h.
--   Kernel/Heap and Kernel/Requests: functions/heap.c, memory_heap_alloc and memory_heap_free of
--     interface/memory.c, and handle_cpu_alocar and handle_cpu_liberar of threads/cpu/handler.c, given
--     the number that comes, if one comes, and whether the answer goes through. The size of a page is
--     a parameter, of a header's eight bytes at least. The walks over a page run on fuel, one round more than the page has bytes: every
--     block has a header of eight bytes, so a page whose headers chain up has fewer blocks.
--     exit(EXIT_FAILURE), a null pointer and a call that never returns are results of their own. What
--     Memory answers to the request for a page is a parameter. Heap/Blocks reads the bytes of a page
--     as the list of its blocks, and the theorems compare the code with operations on that list.
--     The count of freed bytes, the pointers and the test of a size are those of 32-bit numbers; an
--     offset into a page and `freeSpace` are unbounded, and stay below the size of a page where the page
--     has its blocks.
--   Left out there: the socket exchange and its error -20, and the printing.
--   Kernel/Planner: the programs and the CPUs. The state is a record with the queues of
--     commons/declarations.h, the semaphores, the shared variables and what was sent; a handler is a
--     function on it, given what it receives, if that comes, and whether its sends go through. It runs
--     as one step, since it holds the mutex of the CPUs. A pid stands for the pointer to a program, and
--     a PCB that comes back has the pid that it had. What Memory answers is a parameter.
--     Planner.antt: planner/ltp.c, planner/dispatcher.c, and program_to_ready, program_finish and
--       cpu_inactive_planner of functions/program.c and cpu.c. Places: where each program stands.
--     Planner/Programs: program_process_new and program_interrup of functions/program.c.
--     Planner/Cpus: threads/cpu/handler.c and select.c: bursts, and CPUs that come and are lost.
--     Planner/Semaphores: handle_cpu_wait, handle_cpu_signal and the shared variables of handler.c, and
--       program_unblock. Balance: the value of a semaphore against the programs that wait for it.
--     Planner/Steps: one handler after another, as a step relation with its runs. EndBurst: a burst
--       that ends against the balance of the semaphores. A CPU that is lost between its PCB and the
--       number behind it is a step of its own; the requests for the heap and for files are none.
--     Left out there: the locks, the delay, the parsing of the code, and the closing of files.
--   Kernel/Files: the files that are open. A pointer to a t_global_fd is the address that malloc gave it,
--     and an object that is not in the list is freed; a pointer to such a one, or to no program, is
--     `none`. What the FileSystem and Memory answer is a parameter; the requests to them are recorded.
--     Files.antt: functions/file_descriptor.c. Files/Descriptors: the handlers of files in
--       threads/cpu/handler.c, and close_opened_files of functions/program.c.
--     Files/Counts, Owners and Matches: how often an object is open against the descriptors that refer to
--       it. Files/Kept, Borrado, Closed and Permissions: what each handler does to that.
--     Left out there: the end that is put behind a text for the console.
-- Serialization (CPU/src/functions/serialization.c and its copy in Kernel/src): the PCB as it
--   travels between the Kernel and a CPU. A stream is the list of the bytes from the pointer on, so
--   an offset stays within the blob, whose size is a u_int32_t; a read past the end, an array with
--   fewer elements than are counted and the failed assertion are `none`. The dictionary of the
--   commons library is a parameter, with what its documentation says as the laws IsDictionary; the
--   copiers of the values are an interface (Copier) with the law IsCopier. The release of blocks and
--   the comparison functions are left out.
-- Cpu/Stack (CPU/src): functions/stack.c, and the primitives of functions/primitivas.c that work on the
--   stack of contexts of a PCB. The PCB and the dictionary are those of Serialization; where a label
--   leads and what Memory answers are parameters, and so is what malloc left in the places for
--   arguments. Stack/Body, Inside and Calls run a body as a list of the primitives that define and
--   read. The size of a dictionary is the number of its entries, with what its documentation says as
--   the laws CountsKeys.
--   Left out: the primitives that only send a request to the Kernel, and the instruction cycle.
-- FileSystem (FileSystem/src): the blocks of the disk.
--   FileSystem/Bitmap: functions/bitmap.c. The bit array of the commons library is a parameter, with
--     what its documentation says as the laws IsBitArray.
--   FileSystem/Operaciones: functions/operaciones.c, and what it uses of functions/auxiliares.c and
--     functions/config.c. The state is a record of the files by path, the bitmap, and the bytes of each
--     block. The ceiling of a quotient of floats is a parameter that is exact below 2 ^ 24; whether a new
--     file and its directories can be made, what realloc leaves in a buffer, and the size of the pages
--     that a block is mapped to are given. A copy out of a buffer or a mapping is `none`, and so is a
--     block behind the last one of a file; the bytes that a page has behind its block are not kept.
--     Blocks, Paths and Owned: the bytes of a file, and whose the blocks are. ReadLoop and Read:
--       obtenerDatos. Room, Reserve, Write, Offset, Saved and Save: guardarDatos. Create: crear and borrar.
--       Owners: guardarDatos against whose the blocks are.
--   FileSystem/Handler: functions/handler.c, a request as a value. Handler/Runs: requests in any order.
--     Left out there: the text of the metadata, directories, a failing mmap, sizes from 2 ^ 31 on.
-- Tests: the theorems at concrete inputs.
pub mod Common
pub mod Cpu
pub mod Memory
pub mod Kernel
pub mod FileSystem
pub mod Serialization
mod Tests
