-- ===== src/Log/Dumps.antt =====
-- The functions of src/log.c that print a structure: its name, then a line for each field, in the
-- order of the source. A macro argument such as `0x % 08lx` is printed as it is spelled.
use ece566_project.Prelude.{ℕ, List, [], ◌∷◌, Name, codes}
use ece566_project.Log.{Logger, Ctype, Arg, Line, log_msg, log_lines}
use Prim.Native.String.{String}

-- The fields that are printed.
pub record FuseContext : Type 0 where
  pub fuse : ℕ
  pub uid : ℕ
  pub gid : ℕ
  pub pid : ℕ
  pub private_data : ℕ
  pub logfile : ℕ
  pub nasdir : Name
  pub umask : ℕ

pub record FuseConnInfo : Type 0 where
  pub proto_major : ℕ
  pub proto_minor : ℕ
  pub async_read : ℕ
  pub max_write : ℕ
  pub max_readahead : ℕ
  pub capable : ℕ
  pub want : ℕ
  pub max_background : ℕ
  pub congestion_threshold : ℕ

pub record FuseFileInfo : Type 0 where
  pub flags : ℕ
  pub fh_old : ℕ
  pub writepage : ℕ
  pub direct_io : ℕ
  pub keep_cache : ℕ
  pub fh : ℕ
  pub lock_owner : ℕ

pub record StatFields : Type 0 where
  pub st_dev : ℕ
  pub st_ino : ℕ
  pub st_mode : ℕ
  pub st_nlink : ℕ
  pub st_uid : ℕ
  pub st_gid : ℕ
  pub st_rdev : ℕ
  pub st_size : ℕ
  pub st_blksize : ℕ
  pub st_blocks : ℕ
  pub st_atime : ℕ
  pub st_mtime : ℕ
  pub st_ctime : ℕ

pub record StatVfs : Type 0 where
  pub f_bsize : ℕ
  pub f_frsize : ℕ
  pub f_blocks : ℕ
  pub f_bfree : ℕ
  pub f_bavail : ℕ
  pub f_files : ℕ
  pub f_ffree : ℕ
  pub f_favail : ℕ
  pub f_fsid : ℕ
  pub f_flag : ℕ
  pub f_namemax : ℕ

pub record Utimbuf : Type 0 where
  pub actime : ℕ
  pub modtime : ℕ

abbrev line : String → String → Ctype → ℕ → Line
line field format type value = record {
  field = codes field;
  format = codes format;
  arg = Arg.number type value;
}

unfoldable pub context_lines : FuseContext → List Line
context_lines context =
    line "fuse" "% 08x" Ctype.pointer_t context.fuse
    ∷ line "uid" "% d" Ctype.uid_t context.uid
    ∷ line "gid" "% d" Ctype.gid_t context.gid
    ∷ line "pid" "% d" Ctype.pid_t context.pid
    ∷ line "private_data" "% 08x" Ctype.pointer_t context.private_data
    ∷ line "logfile" "% 08x" Ctype.pointer_t context.logfile
    ∷ record { field = codes "nasdir"; format = codes "% s"; arg = Arg.text context.nasdir }
    ∷ line "umask" "% 05o" Ctype.mode_t context.umask
    ∷ []

unfoldable pub conn_lines : FuseConnInfo → List Line
conn_lines conn =
    line "proto_major" "% d" Ctype.unsigned_t conn.proto_major
    ∷ line "proto_minor" "% d" Ctype.unsigned_t conn.proto_minor
    ∷ line "async_read" "% d" Ctype.unsigned_t conn.async_read
    ∷ line "max_write" "% d" Ctype.unsigned_t conn.max_write
    ∷ line "max_readahead" "% d" Ctype.unsigned_t conn.max_readahead
    ∷ line "capable" "% 08x" Ctype.unsigned_t conn.capable
    ∷ line "want" "% 08x" Ctype.unsigned_t conn.want
    ∷ line "max_background" "% d" Ctype.unsigned_t conn.max_background
    ∷ line "congestion_threshold" "% d" Ctype.unsigned_t conn.congestion_threshold
    ∷ []

unfoldable pub fi_lines : FuseFileInfo → List Line
fi_lines fi =
    line "flags" "0x % 08x" Ctype.int_t fi.flags
    ∷ line "fh_old" "0x % 08lx" Ctype.unsigned_long_t fi.fh_old
    ∷ line "writepage" "% d" Ctype.int_t fi.writepage
    ∷ line "direct_io" "% d" Ctype.int_t fi.direct_io
    ∷ line "keep_cache" "% d" Ctype.int_t fi.keep_cache
    ∷ line "fh" "0x % 016llx" Ctype.uint64_t fi.fh
    ∷ line "lock_owner" "0x % 016llx" Ctype.uint64_t fi.lock_owner
    ∷ []

unfoldable pub stat_lines : StatFields → List Line
stat_lines si =
    line "st_dev" "% lld" Ctype.dev_t si.st_dev
    ∷ line "st_ino" "% lld" Ctype.ino_t si.st_ino
    ∷ line "st_mode" "0 % o" Ctype.mode_t si.st_mode
    ∷ line "st_nlink" "% d" Ctype.nlink_t si.st_nlink
    ∷ line "st_uid" "% d" Ctype.uid_t si.st_uid
    ∷ line "st_gid" "% d" Ctype.gid_t si.st_gid
    ∷ line "st_rdev" "% lld" Ctype.dev_t si.st_rdev
    ∷ line "st_size" "% lld" Ctype.off_t si.st_size
    ∷ line "st_blksize" "% ld" Ctype.blksize_t si.st_blksize
    ∷ line "st_blocks" "% lld" Ctype.blkcnt_t si.st_blocks
    ∷ line "st_atime" "0x % 08lx" Ctype.time_t si.st_atime
    ∷ line "st_mtime" "0x % 08lx" Ctype.time_t si.st_mtime
    ∷ line "st_ctime" "0x % 08lx" Ctype.time_t si.st_ctime
    ∷ []

unfoldable pub statvfs_lines : StatVfs → List Line
statvfs_lines sv =
    line "f_bsize" "% ld" Ctype.unsigned_long_t sv.f_bsize
    ∷ line "f_frsize" "% ld" Ctype.unsigned_long_t sv.f_frsize
    ∷ line "f_blocks" "% lld" Ctype.fsblkcnt_t sv.f_blocks
    ∷ line "f_bfree" "% lld" Ctype.fsblkcnt_t sv.f_bfree
    ∷ line "f_bavail" "% lld" Ctype.fsblkcnt_t sv.f_bavail
    ∷ line "f_files" "% lld" Ctype.fsfilcnt_t sv.f_files
    ∷ line "f_ffree" "% lld" Ctype.fsfilcnt_t sv.f_ffree
    ∷ line "f_favail" "% lld" Ctype.fsfilcnt_t sv.f_favail
    ∷ line "f_fsid" "% ld" Ctype.unsigned_long_t sv.f_fsid
    ∷ line "f_flag" "0x % 08lx" Ctype.unsigned_long_t sv.f_flag
    ∷ line "f_namemax" "% ld" Ctype.unsigned_long_t sv.f_namemax
    ∷ []

unfoldable pub utime_lines : Utimbuf → List Line
utime_lines buf =
    line "actime" "0x % 08lx" Ctype.time_t buf.actime
    ∷ line "modtime" "0x % 08lx" Ctype.time_t buf.modtime
    ∷ []

module _ (l : Logger) where
  open l use {World}

  unfoldable pub log_fuse_context : FuseContext → World → World
  log_fuse_context context w =
      log_lines l (context_lines context) (log_msg l (codes "    context:\n") [] w)

  unfoldable pub log_conn : FuseConnInfo → World → World
  log_conn conn w = log_lines l (conn_lines conn) (log_msg l (codes "    conn:\n") [] w)

  unfoldable pub log_fi : FuseFileInfo → World → World
  log_fi fi w = log_lines l (fi_lines fi) (log_msg l (codes "    fi:\n") [] w)

  unfoldable pub log_stat : StatFields → World → World
  log_stat si w = log_lines l (stat_lines si) (log_msg l (codes "    si:\n") [] w)

  unfoldable pub log_statvfs : StatVfs → World → World
  log_statvfs sv w = log_lines l (statvfs_lines sv) (log_msg l (codes "    sv:\n") [] w)

  unfoldable pub log_utime : Utimbuf → World → World
  log_utime buf w = log_lines l (utime_lines buf) (log_msg l (codes "    buf:\n") [] w)
