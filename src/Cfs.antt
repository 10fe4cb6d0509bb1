-- ===== src/Cfs.antt =====
-- src/cachefs.c: the callbacks that FUSE makes. A callback runs on the state of the process, with
-- the mount's directories and sizes as a parameter.
pub mod Paths
pub mod Align
pub mod Attributes
pub mod Namespace
pub mod Handles
pub mod Directory
pub mod Open
pub mod Bytes
pub mod Outcome
pub mod Disk
pub mod CacheWrite
pub mod Read
pub mod Write
pub mod Ends
pub mod Requests
use ece566_project.Prelude.{ℕ, Name}
use ece566_project.Prelude.Int.{ℤ}

-- `struct cfs_state` of params.h and the sizes of cacheHelp.h, in KiB and in bytes.
pub record Config : Type 0 where
  pub nasdir : Name
  pub cachedir : Name
  pub cache_size : ℕ
  pub block_size : ℕ

-- `struct dualFileHandle`: two `int` descriptors stored as 64-bit words.
pub record DualFileHandle : Type 0 where
  pub nas_fh : ℤ
  pub cache_fh : ℤ

-- What the code uses of `struct fuse_file_info`; `fh` points to the handle made by `cfs_open`.
pub record FileInfo : Type 0 where
  pub flags : ℕ
  pub fh : DualFileHandle
