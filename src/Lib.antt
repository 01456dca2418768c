-- ===== src/Lib.antt =====
-- Mochi Bake stores regions of bytes on storage targets behind an RPC service. This library models
-- the client, the messages, the provider with its RPC handlers, its two backends, and the textual
-- ids.
--
-- How the parts interact. A function of src/bake-client.c makes a request, which the encoders of
-- src/bake-rpc.h turn into bytes, and Margo carries it to the provider. A request reaches a handler
-- of src/bake-server.c, which finds the provider and the target in the provider's table and calls
-- the target's backend through the table of functions of src/bake-backend.h. The file backend,
-- src/bake-file-backend.c, keeps the regions of a target in a log file: it hands out extents of the
-- log, and moves bytes between the log and the message, or between the log and the caller's memory
-- by bulk transfers that several threads share. The pmem backend, src/bake-pmem-backend.c, keeps
-- them in a libpmemobj pool.
--
-- Which file models which part:
--   ReturnCode: the codes of include/bake.h, `bake_err_str` of src/util.c.
--   Base64: src/base64/encode.c and decode.c. Ids: the id functions of src/util.c.
--   Host: abt-io, `posix_memalign` and Margo's bulk calls, as a parameter; Host.Disk says what a
--     disk that works does: a call transfers at most what Linux lets it, and memory is aligned to
--     powers of two of at least the size of a pointer. Host.Remote says what bulk transfers that
--     work do.
--   FileBackend: `bake_file_entry_t`, `file_region_id_t`, `bake_file_create`, `_write_raw`,
--     `_read_raw`, `_persist`, `_remove`. FileBackend.Transfer: `transfer_data`, `xfer_ult`,
--     `bake_file_write_bulk`, `bake_file_read_bulk`; FileBackend.Transfer.Crew: the threads of a
--     transfer side by side, one step per section under the mutex. FileBackend.Pool:
--     `bake_file_makepool`, `bake_file_backend_initialize`, `bake_file_backend_finalize`.
--   Pmem: the regions of src/bake-pmem-backend.c, over libpmemobj and the memory of a pool as a
--     parameter; Pmem.Transfer: `write_transfer_data` and its `xfer_ult`; Pmem.Memory says what
--     memory that works does; Pmem.Service: pools, migration, and `g_bake_pmem_backend` as a
--     backend of the handlers; Pmem.Requests: requests for a target of it. `sizecheck` is whether
--     USE_SIZECHECK_HEADERS is defined.
--   Backend: `bake_backend`. Table: the hash table of uthash, as a parameter with its documented
--     laws.
--   Provider: `bake_provider` and the functions that attach, create, detach, count and list
--     targets, `setup_poolset` and `bake_provider_set_param`. Provider.Rpc: the handlers and the
--     macros that they share. Provider.FileService: `g_bake_file_backend` as a backend of the
--     handlers.
--   Registry: the RPCs by their names, and a Margo instance that they are registered in, as a
--     parameter. Provider.Setup: `bake_provider_register`, `_deregister`, the validation of the
--     configuration and the targets that it lists. Client.Register: `bake_client_register`.
--   Messages: the structs of src/bake-rpc.h; Wire: its encoders, over those of Mercury.
--   Client: what src/bake-client.c asks of Margo, and what its functions share; Client.Calls and
--     Client.Reads: the functions; Client.Handles: clients and provider handles with their counts,
--     in the memory that they are allocated in; Client.Service: client, provider and file backend
--     together.
--   Examples: concrete inputs at which the theorems are applied.
--
-- State is passed explicitly. A function that changes state returns the new one; a call that does
-- not come back, or whose behaviour C leaves undefined, is `none` or an outcome of its own. Words
-- of 64 bits are natural numbers with `% 2 ^ 64` written out. A count that the code stores in an
-- int is narrowed to one. The operations of Provider and FileBackend are one step each; where the
-- code leaves its lock in between, FileBackend.Race and FileBackend.Transfer.Crew have the
-- interleavings.
--
-- Fuel. `count_ults` and `xfer_loop` run on fuel: each round of the first counts a thread, and each
-- round of the second takes a chunk of at least one byte, so the size of the extent and that of a
-- buffer together are enough. Running out is an outcome of its own, `out_of_fuel`; the step
-- relation of the threads needs no fuel. `count_pmem_ults` and `pmem_xfer_loop` move at least one
-- byte in each round, so fuel above the size of the request is enough for them.
--
-- Not modelled: migration with REMI, the C++ wrappers, the programs around the libraries, and
-- uthash and json-c, which are other projects' libraries.
pub mod Prelude
pub mod Base64
pub mod Registry
pub mod ReturnCode
pub mod Ids
pub mod Host
pub mod FileBackend
pub mod Backend
pub mod Table
pub mod Messages
pub mod Provider
pub mod Client
pub mod Wire
pub mod Pmem
pub mod Examples
