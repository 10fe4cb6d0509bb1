-- ===== src/Tests/Logging.antt =====
-- Log files in memory, on a full disk: printing changes `errno`.
use ece566_project.Prelude.{
  ℕ, ◌≡◌, ◌↔◌, length, refl, ◌==◌, if◌then◌else◌, true, false, some, List, [], ◌∷◌, Name, codes,
}
use ece566_project.Prelude.Int.{pos, negsuc, neg}
use ece566_project.Posix.{Os, Sys}
use ece566_project.Posix as P
use ece566_project.Log.{Logger, log_open, log_msg, Ctype, log_error, log_retstat, log_syscall}
use ece566_project.Log.Dumps.{
  FuseContext, FuseConnInfo, FuseFileInfo, StatFields, StatVfs, context_lines, conn_lines, fi_lines,
  stat_lines, statvfs_lines, utime_lines,
}
use ece566_project.Log.Formats.{typed, IsUsual, dumps_typed}
use ece566_project.Log.Status.{IsBeside, log_syscall_refines, log_syscall_status_iff}
use ece566_project.Main.{start}
use ece566_project.Main.CommandLine.{main, fuse_arguments, main_takes_last_five}
use ece566_project.Tests.Memory.{memory, meta}
use ece566_project.Tests.Disk.{disk, Files, files}
use ece566_project.Tests.Callbacks.{state}

-- The formats that were printed, and `errno`.
record Journal : Type 0 where
  printed : List Name
  error : ℕ

-- Printing fails when the disk is full, with ENOSPC.
abbrev full_disk : Logger
full_disk = record {
  World = Journal;
  File = ℕ;
  vfprintf = λ format args w. record w { error = 28 };
  strerror = λ n. codes "error";
  errno = λ w. w.error;
  set_errno = λ n w. record w { error = n };
  fopen = λ name mode w. (some 1, w);
  perror = λ text w. w;
  setvbuf = λ f w. w;
}

log_syscall_status_iff_example :
    let w : Journal = record { printed = []; error = 2 } in
    let (error, w') =
      log_error full_disk (codes "lstat") (log_retstat full_disk (codes "lstat") (negsuc 0) w) in
    (error ≡ neg 2)
    × (((log_syscall full_disk (codes "lstat") (negsuc 0) (pos 0) w).0 ≡ neg 2) ↔ (w'.error ≡ 2))
log_syscall_status_iff_example =
    log_syscall_status_iff full_disk (λ n w. refl) (codes "lstat") (negsuc 0) (pos 0)
      (record { printed = []; error = 2 }) refl

-- The files, what was printed beside them, and `errno`.
record Beside : Type 0 where
  files_then : Files
  printed : List Name
  error : ℕ

abbrev journal : Logger
journal = record {
  World = Beside;
  File = ℕ;
  vfprintf = λ format args w. record w { printed = format ∷ w.printed; error = 28 };
  strerror = λ n. codes "error";
  errno = λ w. w.error;
  set_errno = λ n w. record w { error = n };
  fopen = λ name mode w. (some 1, w);
  perror = λ text w. w;
  setvbuf = λ f w. w;
}

-- The same system, with what printing to a full disk leaves in `errno`.
abbrev full : Os
full = record disk { errno = λ n w. if n == 0 then 2 else 28 }

journal-IsBeside : IsBeside journal full (λ w. w.files_then)
unfolding log_error log_msg
journal-IsBeside = record {
  vfprintf = λ f a w. refl;
  set_errno = λ n w. refl;
  kept = λ n w. refl;
  printed = λ func w current. refl;
}

log_syscall_refines_example :
    let (status, w') =
      log_syscall journal
        (codes "lstat")
        (negsuc 0)
        (pos 0)
        (record { files_then = files; printed = []; error = 2 }) in
    let (status', s') = P.log_syscall full (negsuc 0) (pos 0) state in
    (status ≡ status') × (w'.files_then ≡ s'.world)
log_syscall_refines_example =
    log_syscall_refines journal full (λ w. w.files_then) journal-IsBeside (codes "lstat") (negsuc 0)
      (pos 0) (record { files_then = files; printed = []; error = 2 }) state refl refl

-- The sizes on 64-bit Linux.
abbrev linux : Ctype → ℕ
linux Ctype.int_t = 4
linux Ctype.unsigned_t = 4
linux Ctype.uid_t = 4
linux Ctype.gid_t = 4
linux Ctype.pid_t = 4
linux Ctype.mode_t = 4
linux _ = 8

linux-IsUsual : IsUsual linux
linux-IsUsual = record {
  unsigned_t = refl;
  uid_t = refl;
  gid_t = refl;
  pid_t = refl;
  mode_t = refl;
  unsigned_long_t = refl;
  blksize_t = refl;
  time_t = refl;
  uint64_t = refl;
  dev_t = refl;
  ino_t = refl;
  off_t = refl;
  blkcnt_t = refl;
  fsblkcnt_t = refl;
  fsfilcnt_t = refl;
}

abbrev context : FuseContext
context = record {
  fuse = 1;
  uid = 2;
  gid = 3;
  pid = 4;
  private_data = 5;
  logfile = 6;
  nasdir = codes "/nas";
  umask = 18;
}

abbrev conn : FuseConnInfo
conn = record {
  proto_major = 7;
  proto_minor = 23;
  async_read = 1;
  max_write = 131072;
  max_readahead = 131072;
  capable = 3;
  want = 1;
  max_background = 12;
  congestion_threshold = 9;
}

abbrev fi : FuseFileInfo
fi = record {
  flags = 2;
  fh_old = 0;
  writepage = 0;
  direct_io = 0;
  keep_cache = 0;
  fh = 99;
  lock_owner = 0;
}

abbrev si : StatFields
si = record {
  st_dev = 1;
  st_ino = 2;
  st_mode = 33188;
  st_nlink = 1;
  st_uid = 1000;
  st_gid = 1000;
  st_rdev = 0;
  st_size = 8;
  st_blksize = 4096;
  st_blocks = 8;
  st_atime = 5;
  st_mtime = 6;
  st_ctime = 7;
}

abbrev sv : StatVfs
sv = record {
  f_bsize = 4096;
  f_frsize = 4096;
  f_blocks = 100;
  f_bfree = 50;
  f_bavail = 40;
  f_files = 10;
  f_ffree = 5;
  f_favail = 5;
  f_fsid = 1;
  f_flag = 0;
  f_namemax = 255;
}

dumps_typed_example :
    (typed linux (conn_lines conn) ≡ true)
    × (typed linux (fi_lines fi) ≡ true)
    × (typed linux (statvfs_lines sv) ≡ true)
    × (typed linux (utime_lines (record { actime = 1; modtime = 2 })) ≡ true)
    × (typed linux (context_lines context) ≡ false)
    × (typed linux (stat_lines si) ≡ false)
dumps_typed_example =
    dumps_typed linux linux-IsUsual context conn fi si sv (record { actime = 1; modtime = 2 })

main_takes_last_five_example :
    ((main memory journal 1000 1000
        (λ number. length number)
        (codes "cachefs"
          ∷ codes "-d"
          ∷ codes "100"
          ∷ codes "4096"
          ∷ codes "/nas"
          ∷ codes "/mnt"
          ∷ codes "/cache"
          ∷ [])
        (λ path. path)
        (some 500)
        meta
        (record { files_then = files; printed = []; error = 2 })).0
      ≡ start memory 1000 1000
          (record {
            argc = 7;
            nas_dir = codes "/nas";
            mount_dir = codes "/mnt";
            cache_dir = codes "/cache";
            user_size = 3;
            block_size = 4;
          })
          (λ path. path)
          (some 500)
          meta)
    × (fuse_arguments (
          codes "cachefs"
          ∷ codes "-d"
          ∷ codes "100"
          ∷ codes "4096"
          ∷ codes "/nas"
          ∷ codes "/mnt"
          ∷ codes "/cache"
          ∷ [])
        ≡ some (codes "cachefs") ∷ some (codes "-d") ∷ [])
unfolding log_open
main_takes_last_five_example =
    main_takes_last_five (codes "cachefs") (codes "-d" ∷ []) (codes "100") (codes "4096")
      (codes "/nas") (codes "/mnt") (codes "/cache") memory journal 1000 1000
      (λ number. length number) (λ path. path) (some 500) meta
      (record { files_then = files; printed = []; error = 2 }) 1 refl
