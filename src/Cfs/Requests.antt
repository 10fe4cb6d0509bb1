-- ===== src/Cfs/Requests.antt =====
-- `cfs_oper` of src/cachefs.c: the table of callbacks by which FUSE calls CacheFS. A request is a
-- callback with its arguments, and `dispatch` calls the function that the table names. The
-- entries for extended attributes stand under HAVE_SYS_XATTR_H, which is taken to be defined.
pub mod Kept
pub mod Forwarded
pub mod Frame
pub mod Served
pub mod Full
use ece566_project.Prelude.{ℕ, Bool, Option, List, Name}
use ece566_project.Prelude.Int.{ℤ}
use ece566_project.Sql.Engine.{Engine}
use ece566_project.Posix.{Os, Sys, State, Stat}
use ece566_project.Cfs.{Config, FileInfo, DualFileHandle}
use ece566_project.Cfs.Attributes.{
  cfs_get_nas_attr, cfs_readlink, cfs_chmod, cfs_chown, cfs_statfs, cfs_setxattr, cfs_getxattr,
  cfs_listxattr, cfs_removexattr, cfs_access, cfs_fgetattr,
}
use ece566_project.Cfs.Namespace.{
  cfs_mknod, cfs_mkdir, cfs_unlink, cfs_rmdir, cfs_symlink, cfs_rename, cfs_link, cfs_truncate,
  cfs_utime,
}
use ece566_project.Cfs.Handles.{cfs_flush, cfs_release, cfs_fsync, cfs_ftruncate}
use ece566_project.Cfs.Directory.{
  cfs_opendir, cfs_readdir, cfs_releasedir, cfs_fsyncdir, cfs_init, cfs_destroy,
}
use ece566_project.Cfs.Open.{cfs_open}
use ece566_project.Cfs.Read.{cfs_read}
use ece566_project.Cfs.Write.{cfs_write}
use ece566_project.Cfs.Outcome.{Run, pure, lift, ◌>>=◌}

-- `Buf` is the buffer into which FUSE's filler takes the names of a directory.
pub data Request (Buf : Type 0) : Type 0 where
  getattr : Name → Request Buf
  readlink : Name → ℕ → Request Buf
  mknod : Name → ℕ → ℕ → Request Buf
  mkdir : Name → ℕ → Request Buf
  unlink : Name → Request Buf
  rmdir : Name → Request Buf
  symlink : Name → Name → Request Buf
  rename : Name → Name → Request Buf
  link : Name → Name → Request Buf
  chmod : Name → ℕ → Request Buf
  chown : Name → ℕ → ℕ → Request Buf
  truncate : Name → ℕ → Request Buf
  utime : Name → ℕ → ℕ → Request Buf
  open_file : Name → ℕ → Request Buf
  read : Name → ℕ → ℕ → FileInfo → Request Buf
  write : Name → List ℕ → ℕ → ℕ → FileInfo → Request Buf
  statfs : Name → Request Buf
  flush : Name → FileInfo → Request Buf
  release : Name → FileInfo → Request Buf
  fsync : Bool → FileInfo → Request Buf
  setxattr : Name → Name → List ℕ → ℕ → Request Buf
  getxattr : Name → Name → ℕ → Request Buf
  listxattr : Name → ℕ → Request Buf
  removexattr : Name → Name → Request Buf
  opendir : Name → Request Buf
  readdir : (Buf → Name → ℤ × Buf) → ℤ → Buf → Request Buf
  releasedir : ℤ → Request Buf
  fsyncdir : Name → Bool → Request Buf
  init : Request Buf
  destroy : Request Buf
  access : Name → ℕ → Request Buf
  ftruncate : ℕ → FileInfo → Request Buf
  fgetattr : Name → FileInfo → Request Buf

-- What a callback hands back: its status, with what it stored for its caller.
pub data Response (Buf : Type 0) : Type 0 where
  status : ℤ → Response Buf
  attributes : ℤ × Stat → Response Buf
  bytes : ℤ × List ℕ → Response Buf
  handle : ℤ × Option DualFileHandle → Response Buf
  stream : ℤ × ℤ → Response Buf
  names : ℤ × Buf → Response Buf
  context : Config → Response Buf
  nothing : Response Buf

-- the result of a callback as a response
abbrev pub respond : {S A B : Type 0} → (A → B) → State S A → Run S B
respond f m = do a ← lift m; pure (f a)

module _ {Buf : Type 0} (cfg : Config) (os : Os) (e : Engine) (have_fdatasync : Bool)
    (fuel : ℕ) where
  open os use {World}

  unfoldable pub dispatch : Request Buf → Run (Sys World e.Db) (Response Buf)
  dispatch (Request.getattr path) = respond Response.attributes (cfs_get_nas_attr cfg os path)
  dispatch (Request.readlink path size) = respond Response.bytes (cfs_readlink cfg os path size)
  dispatch (Request.mknod path mode dev) = respond Response.status (cfs_mknod cfg os path mode dev)
  dispatch (Request.mkdir path mode) = respond Response.status (cfs_mkdir cfg os path mode)
  dispatch (Request.unlink path) = respond Response.status (cfs_unlink cfg os e path)
  dispatch (Request.rmdir path) = respond Response.status (cfs_rmdir cfg os path)
  dispatch (Request.symlink path target) = respond Response.status (cfs_symlink cfg os path target)
  dispatch (Request.rename path newpath) = respond Response.status (cfs_rename cfg os path newpath)
  dispatch (Request.link path newpath) = respond Response.status (cfs_link cfg os path newpath)
  dispatch (Request.chmod path mode) = respond Response.status (cfs_chmod cfg os path mode)
  dispatch (Request.chown path uid gid) = respond Response.status (cfs_chown cfg os path uid gid)
  dispatch (Request.truncate path newsize) =
      respond Response.status (cfs_truncate cfg os path newsize)
  dispatch (Request.utime path actime modtime) =
      respond Response.status (cfs_utime cfg os path actime modtime)
  dispatch (Request.open_file path flags) = respond Response.handle (cfs_open cfg os e path flags)
  dispatch (Request.read path size offset fi) = do
    r ← cfs_read cfg os e fuel path size offset fi
    pure (Response.bytes r)
  dispatch (Request.write path buf size offset fi) = do
    retstat ← cfs_write cfg os e fuel path buf size offset fi
    pure (Response.status retstat)
  dispatch (Request.statfs path) = respond Response.status (cfs_statfs cfg os path)
  dispatch (Request.flush path fi) = respond Response.status (cfs_flush os path fi)
  dispatch (Request.release path fi) = respond Response.status (cfs_release os cfg path fi)
  dispatch (Request.fsync datasync fi) =
      respond Response.status (cfs_fsync os have_fdatasync datasync fi)
  dispatch (Request.setxattr path name value flags) =
      respond Response.status (cfs_setxattr cfg os path name value flags)
  dispatch (Request.getxattr path name size) =
      respond Response.bytes (cfs_getxattr cfg os path name size)
  dispatch (Request.listxattr path size) = respond Response.bytes (cfs_listxattr cfg os path size)
  dispatch (Request.removexattr path name) =
      respond Response.status (cfs_removexattr cfg os path name)
  dispatch (Request.opendir path) = respond Response.stream (cfs_opendir cfg os path)
  dispatch (Request.readdir filler dp buf) =
      respond Response.names (cfs_readdir cfg os filler dp buf)
  dispatch (Request.releasedir dp) = respond Response.status (cfs_releasedir cfg os dp)
  dispatch (Request.fsyncdir path datasync) =
      respond Response.status (cfs_fsyncdir cfg os path datasync)
  dispatch Request.init = respond Response.context (cfs_init cfg os)
  dispatch Request.destroy = respond (λ _. Response.nothing) (cfs_destroy cfg os)
  dispatch (Request.access path mask) = respond Response.status (cfs_access cfg os path mask)
  dispatch (Request.ftruncate offset fi) = respond Response.status (cfs_ftruncate os offset fi)
  dispatch (Request.fgetattr path fi) = respond Response.attributes (cfs_fgetattr cfg os path fi)
