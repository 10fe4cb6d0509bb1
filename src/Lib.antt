-- ===== src/Lib.antt =====
-- CacheFS: a FUSE file system that mirrors a directory on a NAS and keeps the blocks that were
-- read or written in a cache directory, with an SQLite database that lists the blocks.
--
-- The parts of the program, and the files here that model them:
--   src/metadata/meta.c, the bookkeeping: Sql.antt has the tables and the SQL statements with their
--     meaning, Meta.antt the functions of the file, under their names, on the record `Meta` (the
--     database and the static counters). Meta/Numbers.antt is `init_cache_used_size`, and
--     Meta/Evict.antt the two eviction functions, which nothing calls.
--     Meta/Threads.antt is `write_blks` in several threads at once, cut into single statements and
--     single accesses to the counter.
--   src/log.c: Log.antt has its functions with their printing, and Log/Dumps.antt those that print a
--     structure; `log_syscall`, `log_retstat` and `log_error` without the text stand in Posix.antt,
--     beside the system calls, where the callbacks use them.
--   src/cacheHelp.c and the block arithmetic of `cfs_read` and `cfs_write`: Cfs/Align.antt.
--   src/cachefs.c, the callbacks of FUSE: Cfs/Paths.antt, Cfs/Attributes.antt, Cfs/Namespace.antt,
--     Cfs/Handles.antt, Cfs/Directory.antt, Cfs/Open.antt, Cfs/CacheWrite.antt, Cfs/Read.antt and
--     Cfs/Write.antt, with the table of callbacks, `cfs_oper`, as `dispatch` of Cfs/Requests.antt.
--     Main.antt is `main` up to `fuse_main`, with its command line in Main/CommandLine.antt, and
--     Main/Served.antt a run of the whole program.
--
-- A callback is a function on the state `Sys`: the world of the kernel and `Meta`. What the
-- program calls is a parameter: `Os` for the C library and the kernel, `Engine` for SQLite.
-- The theorems name what they rely on: `IsHealthy` says that a statement does what its SQL
-- says, and that the engine fails only where the statement does; `IsDisk` that `pread`,
-- `pwrite` and `malloc` do what their manuals say on the two files of a handle,
-- `IsWritable` (Cfs/Write/Through.antt) the same of writing the NAS file and of `lstat`,
-- and `IsPrinted` (Main/Restart.antt) how SQLite prints a sum; `IsBounded`
-- (Cfs/Read/Yields.antt) that `pread` gives no more bytes than it is asked for. To print a
-- message to the log file may change `errno`, which `Os` gives by the number of messages
-- since the last call, and nothing else. SQLite leaves open what `delete_file` reads as the
-- size of a file that has no row: the theorems on the counter take it to be called for a
-- file that has one. The callbacks that move data end in an `Outcome`: `done`, `hang` for a
-- loop that never ends, or `fault` for undefined behaviour (a division by zero, memory out
-- of bounds), and `Yields` (Cfs/Outcome/Yields.antt) says which of these are possible. A
-- run of the program is a sequence of `Step`s (Cfs/Requests/Served.antt), requests one
-- after the other with changes of the files from outside between them. Sql/Cached.antt is
-- the abstract view of the tables, which offsets of which paths are cached,
-- Meta/Updates.antt the operations on it, and Cfs/Requests/Forwarded.antt the table of what
-- is sent on to the NAS; Cfs/Read/Coherent.antt ties the view to the bytes of the two
-- files.
--
-- Numbers: `size_t` is a number below 2 ^ 64 and wraps around where the source computes the
-- counter; `SUM` overflows from 2 ^ 63 on, and the sizes of single files are taken to be
-- smaller; offsets are taken to be below 2 ^ 63, paths to fit PATH_MAX, and sizes to fit an
-- `int` where the source stores them in one. The fuel of `wait_for_space` is the number of
-- rounds of its loop: one is enough when there is room, and none is when there is not,
-- since a round changes nothing. A schedule of threads is a list of thread numbers;
-- `Enough` (Meta/Threads/Ends.antt) says how many turns each thread needs to return.
--
-- Not modelled: threads in other functions than `write_blks`, but for one that deletes a
-- file and makes it again (elsewhere requests are taken one after the other); what is
-- printed to stdout and stderr; src/metadata/hash.h, which nothing includes; the benchmark
-- under example/, which is another project's.
pub mod Prelude
pub mod Sql
pub mod Meta
pub mod Posix
pub mod Log
pub mod Cfs
pub mod Main
mod Tests
