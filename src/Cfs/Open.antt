-- ===== src/Cfs/Open.antt =====
-- `cfs_open` of src/cachefs.c.
pub mod Missing
pub mod Present
pub mod Cached
pub mod Reads
pub mod Handle
use Prim.Native.Nat.{bit_and, bit_or}
use ece566_project.Prelude.{
  ℕ, Bool, true, false, Option, none, some, ◌==◌, ltb, if◌then◌else◌, Name,
}
use ece566_project.Prelude.Int.{ℤ, pos, ltb_ℤ}
use ece566_project.Sql.Engine.{Engine}
use ece566_project.Meta.{truthy, is_file_in_cache, delete_file, create_file}
use ece566_project.Posix.{
  Syscall, Stat, Os, Sys, State, pure, ◌>>=◌, ◌>>◌, checked, log_error, meta_op,
}
use ece566_project.Cfs.{Config, DualFileHandle}
use ece566_project.Cfs.Paths.{cfs_full_nas_path, cfs_path_to_file_name}
use ece566_project.Cfs.Attributes.{cfs_get_nas_attr, cfs_get_cache_attr}
use ece566_project.Cfs.Namespace.{cache_path, cfs_mk_cache_nod}

-- A write-only open becomes one for reading and writing.
unfoldable pub switch_flags : ℕ → ℕ
switch_flags flags = if bit_and flags 0x3 == 1 then bit_or (bit_and flags 8589934588) 2 else flags

-- O_RDWR
abbrev pub o_rdwr : ℕ
o_rdwr = 2

module _ (cfg : Config) (os : Os) (e : Engine) where
  open os use {World}

  -- A cached file is forgotten, with its copy.
  unfoldable pub forget_file : Name → State (Sys World e.Db) (Unit {0})
  forget_file path = do
    meta_op (delete_file e (cfs_path_to_file_name path))
    checked os (Syscall.unlink (cache_path cfg path))
    pure tt

  -- `presentInCache` after the check against the time of the NAS file
  unfoldable pub check_up_to_date : Name → Stat → Bool → State (Sys World e.Db) Bool
  check_up_to_date path nas_info false = pure false
  check_up_to_date path nas_info true = do
    (_, cache_info) ← cfs_get_cache_attr cfg os path
    (if ltb cache_info.st_mtime nas_info.st_mtime
        then (do forget_file path; pure false)
        else pure true)

  -- A file that is not in the cache gets a row and an empty copy.
  unfoldable pub make_entry : Name → Stat → Bool → State (Sys World e.Db) (Unit {0})
  make_entry path nas_info true = pure tt
  make_entry path nas_info false = do
    meta_op (create_file e (cfs_path_to_file_name path) nas_info.st_size)
    cfs_mk_cache_nod os (cache_path cfg path) nas_info.st_mode nas_info.st_dev
    pure tt

  -- the branch of a file that is not on the NAS
  unfoldable pub open_missing : Name → Bool → ℤ → State (Sys World e.Db) (ℤ × Option DualFileHandle)
  open_missing path true nas_fd = do forget_file path; pure (nas_fd, none)
  open_missing path false nas_fd = pure (nas_fd, none)

  -- what follows once the NAS file is open
  unfoldable pub open_present : Name → Bool → ℤ → State (Sys World e.Db) (ℤ × Option DualFileHandle)
  open_present path present nas_fd = do
    (_, nas_info) ← cfs_get_nas_attr cfg os path
    still ← check_up_to_date path nas_info present
    make_entry path nas_info still
    cache_fd ← checked os (Syscall.open_file (cache_path cfg path) o_rdwr 0)
    retstat ← (if ltb_ℤ cache_fd (pos 0) then log_error os 1 else pure (pos 0))
    pure (retstat, some (record { nas_fh = nas_fd; cache_fh = cache_fd }))

  -- the status, and the handle that is stored in `fi->fh`, if one is
  unfoldable pub cfs_open : Name → ℕ → State (Sys World e.Db) (ℤ × Option DualFileHandle)
  cfs_open path flags = do
    nas_fd ← checked os (Syscall.open_file (cfs_full_nas_path cfg path) (switch_flags flags) 0)
    found ← meta_op (is_file_in_cache e (cfs_path_to_file_name path))
    (if ltb_ℤ nas_fd (pos 0)
        then open_missing path (truthy found) nas_fd
        else open_present path (truthy found) nas_fd)
