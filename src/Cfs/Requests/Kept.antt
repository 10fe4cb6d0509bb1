-- ===== src/Cfs/Requests/Kept.antt =====
-- The callbacks that leave the metadata alone.
use ece566_project.Prelude.{ℕ, Bool, List, Name}
use ece566_project.Prelude.Int.{ℤ}
use ece566_project.Posix.{Os}
use ece566_project.Posix.Kept.{KeepsMeta, kept_rules}
use ece566_project.Cfs.{Config, FileInfo}
use ece566_project.Cfs.Attributes.{
  cfs_get_nas_attr, cfs_readlink, cfs_chmod, cfs_chown, cfs_statfs, cfs_setxattr, cfs_getxattr,
  cfs_listxattr, cfs_removexattr, cfs_access, cfs_fgetattr,
}
use ece566_project.Cfs.Namespace.{
  make_node, cfs_mknod, cfs_mkdir, cfs_rmdir, cfs_symlink, cfs_rename, cfs_link, cfs_truncate,
  cfs_utime,
}
use ece566_project.Cfs.Handles.{
  cfs_flush, cfs_release, cfs_fsync, cfs_ftruncate, sync_both, or_errno,
}
use ece566_project.Cfs.Directory.{cfs_opendir, cfs_releasedir, cfs_fsyncdir}

module _ (cfg : Config) (os : Os) {Db : Type 0} where
  pub mknod-KeepsMeta :
      (p : Name) (mode dev : ℕ) → KeepsMeta (cfs_mknod cfg os {Db = Db} p mode dev)
  unfolding cfs_mknod make_node
  mknod-KeepsMeta p mode dev = search kept_rules

  pub mkdir-KeepsMeta : (p : Name) (mode : ℕ) → KeepsMeta (cfs_mkdir cfg os {Db = Db} p mode)
  unfolding cfs_mkdir
  mkdir-KeepsMeta p mode = search kept_rules

  pub rmdir-KeepsMeta : (p : Name) → KeepsMeta (cfs_rmdir cfg os {Db = Db} p)
  unfolding cfs_rmdir
  rmdir-KeepsMeta p = search kept_rules

  pub symlink-KeepsMeta : (p q : Name) → KeepsMeta (cfs_symlink cfg os {Db = Db} p q)
  unfolding cfs_symlink
  symlink-KeepsMeta p q = search kept_rules

  pub rename-KeepsMeta : (p q : Name) → KeepsMeta (cfs_rename cfg os {Db = Db} p q)
  unfolding cfs_rename
  rename-KeepsMeta p q = search kept_rules

  pub link-KeepsMeta : (p q : Name) → KeepsMeta (cfs_link cfg os {Db = Db} p q)
  unfolding cfs_link
  link-KeepsMeta p q = search kept_rules

  pub truncate-KeepsMeta : (p : Name) (n : ℕ) → KeepsMeta (cfs_truncate cfg os {Db = Db} p n)
  unfolding cfs_truncate
  truncate-KeepsMeta p n = search kept_rules

  pub utime-KeepsMeta : (p : Name) (m n : ℕ) → KeepsMeta (cfs_utime cfg os {Db = Db} p m n)
  unfolding cfs_utime
  utime-KeepsMeta p m n = search kept_rules

  pub get_nas_attr-KeepsMeta : (p : Name) → KeepsMeta (cfs_get_nas_attr cfg os {Db = Db} p)
  unfolding cfs_get_nas_attr
  get_nas_attr-KeepsMeta p = search kept_rules

  pub readlink-KeepsMeta : (p : Name) (n : ℕ) → KeepsMeta (cfs_readlink cfg os {Db = Db} p n)
  unfolding cfs_readlink
  readlink-KeepsMeta p n = search kept_rules

  pub chmod-KeepsMeta : (p : Name) (n : ℕ) → KeepsMeta (cfs_chmod cfg os {Db = Db} p n)
  unfolding cfs_chmod
  chmod-KeepsMeta p n = search kept_rules

  pub chown-KeepsMeta : (p : Name) (m n : ℕ) → KeepsMeta (cfs_chown cfg os {Db = Db} p m n)
  unfolding cfs_chown
  chown-KeepsMeta p m n = search kept_rules

  pub statfs-KeepsMeta : (p : Name) → KeepsMeta (cfs_statfs cfg os {Db = Db} p)
  unfolding cfs_statfs
  statfs-KeepsMeta p = search kept_rules

  pub setxattr-KeepsMeta :
      (p q : Name) (bs : List ℕ) (n : ℕ) → KeepsMeta (cfs_setxattr cfg os {Db = Db} p q bs n)
  unfolding cfs_setxattr
  setxattr-KeepsMeta p q bs n = search kept_rules

  pub getxattr-KeepsMeta : (p q : Name) (n : ℕ) → KeepsMeta (cfs_getxattr cfg os {Db = Db} p q n)
  unfolding cfs_getxattr
  getxattr-KeepsMeta p q n = search kept_rules

  pub listxattr-KeepsMeta : (p : Name) (n : ℕ) → KeepsMeta (cfs_listxattr cfg os {Db = Db} p n)
  unfolding cfs_listxattr
  listxattr-KeepsMeta p n = search kept_rules

  pub removexattr-KeepsMeta : (p q : Name) → KeepsMeta (cfs_removexattr cfg os {Db = Db} p q)
  unfolding cfs_removexattr
  removexattr-KeepsMeta p q = search kept_rules

  pub access-KeepsMeta : (p : Name) (n : ℕ) → KeepsMeta (cfs_access cfg os {Db = Db} p n)
  unfolding cfs_access
  access-KeepsMeta p n = search kept_rules

  pub fgetattr-KeepsMeta :
      (p : Name) (fi : FileInfo) → KeepsMeta (cfs_fgetattr cfg os {Db = Db} p fi)
  unfolding cfs_fgetattr cfs_get_nas_attr
  fgetattr-KeepsMeta p fi = search kept_rules

  pub flush-KeepsMeta : (p : Name) (fi : FileInfo) → KeepsMeta (cfs_flush os {Db = Db} p fi)
  unfolding cfs_flush
  flush-KeepsMeta p fi = search kept_rules

  pub release-KeepsMeta : (p : Name) (fi : FileInfo) → KeepsMeta (cfs_release os {Db = Db} cfg p fi)
  unfolding cfs_release
  release-KeepsMeta p fi = search kept_rules

  pub fsync-KeepsMeta :
      (have datasync : Bool) (fi : FileInfo) → KeepsMeta (cfs_fsync os {Db = Db} have datasync fi)
  unfolding cfs_fsync sync_both
  fsync-KeepsMeta have datasync fi = search kept_rules

  pub ftruncate-KeepsMeta : (n : ℕ) (fi : FileInfo) → KeepsMeta (cfs_ftruncate os {Db = Db} n fi)
  unfolding cfs_ftruncate or_errno
  ftruncate-KeepsMeta n fi = search kept_rules

  pub opendir-KeepsMeta : (p : Name) → KeepsMeta (cfs_opendir cfg os {Db = Db} p)
  unfolding cfs_opendir
  opendir-KeepsMeta p = search kept_rules

  pub releasedir-KeepsMeta : (dp : ℤ) → KeepsMeta (cfs_releasedir cfg os {Db = Db} dp)
  unfolding cfs_releasedir
  releasedir-KeepsMeta dp = search kept_rules

  pub fsyncdir-KeepsMeta :
      (p : Name) (datasync : Bool) → KeepsMeta (cfs_fsyncdir cfg os {Db = Db} p datasync)
  unfolding cfs_fsyncdir
  fsyncdir-KeepsMeta p datasync = search kept_rules
