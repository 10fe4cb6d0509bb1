-- ===== src/Cfs/Handles.antt =====
-- The callbacks of src/cachefs.c on an open file that move no data: they act on the cached copy
-- and on the NAS file of the handle.
use ece566_project.Prelude.{ℕ, Bool, ◌&&◌, ◌++◌, if◌then◌else◌, Name, codes, take}
use ece566_project.Prelude.Int.{ℤ, pos, ltb_ℤ}
use ece566_project.Posix.{Syscall, Os, Sys, State, pure, ◌>>=◌, ◌>>◌, issue, checked, log_error}
use ece566_project.Cfs.{Config, FileInfo}
use ece566_project.Cfs.Paths.{path_max}
use ece566_project.Cfs.Namespace.{cache_path}

-- `fallocate -d FILE`
unfoldable pub fallocate_call : Config → Name → Name
fallocate_call cfg path = codes "fallocate -d " ++ take path_max (cache_path cfg path)

module _ (os : Os) {Db : Type 0} where
  open os use {World}

  unfoldable pub cfs_flush : Name → FileInfo → State (Sys World Db) ℤ
  cfs_flush path fi = pure (pos 0)

  unfoldable pub cfs_release : Config → Name → FileInfo → State (Sys World Db) ℤ
  cfs_release cfg path fi = do
    checked os (Syscall.system (fallocate_call cfg path))
    checked os (Syscall.close fi.fh.cache_fh)
    checked os (Syscall.close fi.fh.nas_fh)

  unfoldable pub sync_both : (ℤ → Syscall) → FileInfo → State (Sys World Db) ℤ
  sync_both sync fi = do checked os (sync fi.fh.cache_fh); checked os (sync fi.fh.nas_fh)

  -- `have_fdatasync` is HAVE_FDATASYNC of config.h.
  unfoldable pub cfs_fsync : Bool → Bool → FileInfo → State (Sys World Db) ℤ
  cfs_fsync have_fdatasync datasync fi =
      if have_fdatasync && datasync
      then sync_both Syscall.fdatasync fi
      else sync_both Syscall.fsync fi

  -- a status, or `-errno`
  unfoldable pub or_errno : ℤ → State (Sys World Db) ℤ
  or_errno retstat = if ltb_ℤ retstat (pos 0) then log_error os 0 else pure retstat

  unfoldable pub cfs_ftruncate : ℕ → FileInfo → State (Sys World Db) ℤ
  cfs_ftruncate offset fi = do
    r ← issue os (Syscall.ftruncate fi.fh.cache_fh offset)
    or_errno r.value
    r' ← issue os (Syscall.ftruncate fi.fh.nas_fh offset)
    or_errno r'.value
