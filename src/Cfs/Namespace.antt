-- ===== src/Cfs/Namespace.antt =====
-- The callbacks of src/cachefs.c that make, remove and rename files. Where the cache directory has
-- a file of its own, it is changed first, and its status is only logged.
use Prim.Native.Nat.{bit_and}
use ece566_project.Prelude.{ℕ, Bool, ◌==◌, if◌then◌else◌, Name}
use ece566_project.Prelude.Int.{ℤ, pos, ltb_ℤ}
use ece566_project.Sql.Engine.{Engine}
use ece566_project.Meta.{delete_file}
use ece566_project.Posix.{Syscall, Os, Sys, State, pure, ◌>>=◌, ◌>>◌, checked, meta_op}
use ece566_project.Cfs.{Config}
use ece566_project.Cfs.Paths.{cfs_full_nas_path, cfs_full_cache_path, cfs_path_to_file_name}

-- `S_ISREG` and `S_ISFIFO`
abbrev pub is_regular : ℕ → Bool
is_regular mode = bit_and mode 0o170000 == 0o100000

abbrev pub is_fifo : ℕ → Bool
is_fifo mode = bit_and mode 0o170000 == 0o010000

-- O_CREAT | O_EXCL | O_WRONLY
abbrev pub create_flags : ℕ
create_flags = 0o301

-- The name of the cached copy of a file.
unfoldable pub cache_path : Config → Name → Name
cache_path cfg path = cfs_full_cache_path cfg (cfs_path_to_file_name path)

module _ (os : Os) {Db : Type 0} where
  open os use {World}

  -- The same text stands in `cfs_mknod` and in `cfs_mkCacheNod`.
  unfoldable pub make_node : Name → ℕ → ℕ → State (Sys World Db) ℤ
  make_node full_path mode dev =
      if is_regular mode
      then (do
        retstat ← checked os (Syscall.open_file full_path create_flags mode)
        if ltb_ℤ retstat (pos 0) then pure retstat else checked os (Syscall.close retstat))
      else (if is_fifo mode
          then checked os (Syscall.mkfifo full_path mode)
          else checked os (Syscall.mknod full_path mode dev))

  unfoldable pub cfs_mk_cache_nod : Name → ℕ → ℕ → State (Sys World Db) ℤ
  cfs_mk_cache_nod full_path mode dev = make_node full_path mode dev

module _ (cfg : Config) (os : Os) {Db : Type 0} where
  open os use {World}

  unfoldable pub cfs_mknod : Name → ℕ → ℕ → State (Sys World Db) ℤ
  cfs_mknod path mode dev = make_node os (cfs_full_nas_path cfg path) mode dev

  unfoldable pub cfs_mkdir : Name → ℕ → State (Sys World Db) ℤ
  cfs_mkdir path mode = checked os (Syscall.mkdir (cfs_full_nas_path cfg path) mode)

  unfoldable pub cfs_rmdir : Name → State (Sys World Db) ℤ
  cfs_rmdir path = checked os (Syscall.rmdir (cfs_full_nas_path cfg path))

  -- The cached link points to the cached copy, the link on the NAS to the path as given.
  unfoldable pub cfs_symlink : Name → Name → State (Sys World Db) ℤ
  cfs_symlink path link = do
    checked os (Syscall.symlink (cache_path cfg path) (cache_path cfg link))
    checked os (Syscall.symlink path (cfs_full_nas_path cfg link))

  unfoldable pub cfs_rename : Name → Name → State (Sys World Db) ℤ
  cfs_rename path newpath = do
    checked os (Syscall.rename (cache_path cfg path) (cache_path cfg newpath))
    checked os (Syscall.rename (cfs_full_nas_path cfg path) (cfs_full_nas_path cfg newpath))

  unfoldable pub cfs_link : Name → Name → State (Sys World Db) ℤ
  cfs_link path newpath = do
    checked os (Syscall.link (cache_path cfg path) (cache_path cfg newpath))
    checked os (Syscall.link (cfs_full_nas_path cfg path) (cfs_full_nas_path cfg newpath))

  unfoldable pub cfs_truncate : Name → ℕ → State (Sys World Db) ℤ
  cfs_truncate path newsize = do
    checked os (Syscall.truncate (cache_path cfg path) newsize)
    checked os (Syscall.truncate (cfs_full_nas_path cfg path) newsize)

  unfoldable pub cfs_utime : Name → ℕ → ℕ → State (Sys World Db) ℤ
  cfs_utime path actime modtime = do
    checked os (Syscall.utime (cache_path cfg path) actime modtime)
    checked os (Syscall.utime (cfs_full_nas_path cfg path) actime modtime)

module _ (cfg : Config) (os : Os) (e : Engine) where
  open os use {World}

  unfoldable pub cfs_unlink : Name → State (Sys World e.Db) ℤ
  cfs_unlink path = do
    meta_op (delete_file e (cfs_path_to_file_name path))
    checked os (Syscall.unlink (cache_path cfg path))
    checked os (Syscall.unlink (cfs_full_nas_path cfg path))
