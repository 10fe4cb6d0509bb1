-- ===== src/Cfs/Write.antt =====
-- `cfs_write` of src/cachefs.c: to the NAS, and from there, in whole blocks, to the cache.
pub mod Range
pub mod Cached
pub mod Through
pub mod Total
pub mod Back
pub mod Stale
use ece566_project.Prelude.{ℕ, ◌+◌, ◌%◌, ◌==◌, ltb, if◌then◌else◌, List, Name, take}
use ece566_project.Prelude.Int.{ℤ, pos, word}
use ece566_project.Sql.Engine.{Engine}
use ece566_project.Meta.{sub_size}
use ece566_project.Posix.{Syscall, Os, Sys, issue, checked, log_syscall}
use ece566_project.Cfs.{Config, FileInfo}
use ece566_project.Cfs.Paths.{cfs_path_to_file_name}
use ece566_project.Cfs.Align.{align_lower_offset, aligned_size}
use ece566_project.Cfs.Attributes.{cfs_get_nas_attr}
use ece566_project.Cfs.Outcome.{Run, pure, undefined, lift, ◌>>=◌, ◌>>◌, store}
use ece566_project.Cfs.CacheWrite.{cfs_cache_write}

-- `nasReadSize`: the aligned size, cut at the end of the NAS file, in `size_t` arithmetic
unfoldable pub nas_read_size : ℕ → ℕ → ℕ → ℕ
nas_read_size aligned lower st_size =
    if ltb st_size ((aligned + lower) % word) then sub_size st_size lower else aligned

unfoldable pub cfs_write :
    (cfg : Config) (os : Os) (e : Engine)
    → ℕ
    → Name
    → List ℕ
    → ℕ
    → ℕ
    → FileInfo
    → Run (Sys os.World e.Db) ℤ
cfs_write cfg os e fuel path buf size offset fi =
    let bs = cfg.block_size in
    let lower = align_lower_offset bs offset in
    let aligned = aligned_size bs size in
    let name = cfs_path_to_file_name path in
    if bs == 0 then undefined else (do
      retstat ← lift (checked os (Syscall.pwrite fi.fh.nas_fh (take size buf) offset))
      (_, nas_attr) ← lift (cfs_get_nas_attr cfg os path)
      cache_buf ← (λ s. pure (os.malloc aligned s.world) s)
      r ← lift (
          issue os
            (Syscall.pread fi.fh.nas_fh (nas_read_size aligned lower nas_attr.st_size) lower))
      lift (log_syscall os r.value (pos 0))
      cache_buf' ← store cache_buf 0 r.bytes
      cfs_cache_write cfg os e fuel name cache_buf' aligned lower fi
      pure retstat)
