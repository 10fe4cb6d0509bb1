-- ===== src/Cfs/Attributes.antt =====
-- The callbacks of src/cachefs.c that ask about files or set what the cache does not hold: they go
-- to the NAS alone.
use ece566_project.Prelude.{◌+◌, ◌%◌, ℕ, ◌-◌, List, [], ◌∷◌, if◌then◌else◌, Name, same, take}
use ece566_project.Prelude.Int.{word, ℤ, pos, pos_part, ltb_ℤ}
use ece566_project.Posix.{
  Syscall, Stat, Os, Sys, State, pure, ◌>>=◌, issue, checked, log_error, log_syscall,
}
use ece566_project.Cfs.{Config, FileInfo}
use ece566_project.Cfs.Paths.{cfs_full_nas_path, cfs_full_cache_path, cfs_path_to_file_name}

module _ (cfg : Config) (os : Os) {Db : Type 0} where
  open os use {World}

  -- the status, and the `struct stat` that the call filled
  unfoldable pub cfs_get_nas_attr : Name → State (Sys World Db) (ℤ × Stat)
  cfs_get_nas_attr path = do
    r ← issue os (Syscall.lstat (cfs_full_nas_path cfg path))
    retstat ← log_syscall os r.value (pos 0)
    pure (retstat, r.stat)

  unfoldable pub cfs_get_cache_attr : Name → State (Sys World Db) (ℤ × Stat)
  cfs_get_cache_attr path = do
    r ← issue os (Syscall.lstat (cfs_full_cache_path cfg (cfs_path_to_file_name path)))
    retstat ← log_syscall os r.value (pos 0)
    pure (retstat, r.stat)

  -- `link[retstat] = '\0'` cuts the buffer at the length returned.
  unfoldable pub cfs_readlink : Name → ℕ → State (Sys World Db) (ℤ × Name)
  cfs_readlink path size = do
    r ← issue os (Syscall.readlink (cfs_full_nas_path cfg path) ((size + (word - 1)) % word))
    retstat ← log_syscall os r.value (pos 0)
    pure (
        if ltb_ℤ retstat (pos 0)
        then (retstat, r.bytes)
        else (pos 0, take (pos_part retstat) r.bytes))

  unfoldable pub cfs_chmod : Name → ℕ → State (Sys World Db) ℤ
  cfs_chmod path mode = checked os (Syscall.chmod (cfs_full_nas_path cfg path) mode)

  unfoldable pub cfs_chown : Name → ℕ → ℕ → State (Sys World Db) ℤ
  cfs_chown path uid gid = checked os (Syscall.chown (cfs_full_nas_path cfg path) uid gid)

  unfoldable pub cfs_statfs : Name → State (Sys World Db) ℤ
  cfs_statfs path = checked os (Syscall.statvfs (cfs_full_nas_path cfg path))

  unfoldable pub cfs_setxattr : Name → Name → List ℕ → ℕ → State (Sys World Db) ℤ
  cfs_setxattr path name value flags =
      checked os (Syscall.lsetxattr (cfs_full_nas_path cfg path) name value flags)

  -- the status, and the bytes of the value
  unfoldable pub cfs_getxattr : Name → Name → ℕ → State (Sys World Db) (ℤ × List ℕ)
  cfs_getxattr path name size = do
    r ← issue os (Syscall.lgetxattr (cfs_full_nas_path cfg path) name size)
    retstat ← log_syscall os r.value (pos 0)
    pure (retstat, r.bytes)

  -- the status, and the bytes of the list, which the source also walks to print them
  unfoldable pub cfs_listxattr : Name → ℕ → State (Sys World Db) (ℤ × List ℕ)
  cfs_listxattr path size = do
    r ← issue os (Syscall.llistxattr (cfs_full_nas_path cfg path) size)
    retstat ← log_syscall os r.value (pos 0)
    pure (retstat, r.bytes)

  unfoldable pub cfs_removexattr : Name → Name → State (Sys World Db) ℤ
  cfs_removexattr path name = checked os (Syscall.lremovexattr (cfs_full_nas_path cfg path) name)

  unfoldable pub cfs_access : Name → ℕ → State (Sys World Db) ℤ
  cfs_access path mask = do
    r ← issue os (Syscall.access (cfs_full_nas_path cfg path) mask)
    if ltb_ℤ r.value (pos 0) then log_error os 0 else pure r.value

  unfoldable pub cfs_fgetattr : Name → FileInfo → State (Sys World Db) (ℤ × Stat)
  cfs_fgetattr path fi = if same path (b'/' ∷ []) then cfs_get_nas_attr path else (do
    r ← issue os (Syscall.fstat fi.fh.nas_fh)
    retstat ← (if ltb_ℤ r.value (pos 0) then log_error os 0 else pure r.value)
    pure (retstat, r.stat))
