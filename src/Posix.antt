-- ===== src/Posix.antt =====
-- The system calls that CacheFS makes, which the kernel and the C library provide: a parameter
-- `Os`, with one constructor of `Syscall` for each function of libc that src/cachefs.c calls. The
-- status logging of src/log.c, as the callbacks use it: it turns the result of a call into a return
-- value. Of what it prints, only the effect on `errno` is kept here; the messages are in Log.antt.
pub mod Kept
use ece566_project.Prelude.{ℕ, ◌≡◌, ap, arith, List, if◌then◌else◌, Name}
use ece566_project.Prelude.Int.{ℤ, pos, neg, ltb_ℤ}
use ece566_project.Meta.{Meta}

-- File descriptors are `int`s. `open` has flags and mode, `pwrite` the bytes and the offset.
pub data Syscall : Type 0 where
  lstat : Name → Syscall
  fstat : ℤ → Syscall
  statvfs : Name → Syscall
  access : Name → ℕ → Syscall
  readlink : Name → ℕ → Syscall
  open_file : Name → ℕ → ℕ → Syscall
  close : ℤ → Syscall
  mkfifo : Name → ℕ → Syscall
  mknod : Name → ℕ → ℕ → Syscall
  mkdir : Name → ℕ → Syscall
  unlink : Name → Syscall
  rmdir : Name → Syscall
  symlink : Name → Name → Syscall
  rename : Name → Name → Syscall
  link : Name → Name → Syscall
  chmod : Name → ℕ → Syscall
  chown : Name → ℕ → ℕ → Syscall
  truncate : Name → ℕ → Syscall
  ftruncate : ℤ → ℕ → Syscall
  utime : Name → ℕ → ℕ → Syscall
  pread : ℤ → ℕ → ℕ → Syscall
  pwrite : ℤ → List ℕ → ℕ → Syscall
  fsync : ℤ → Syscall
  fdatasync : ℤ → Syscall
  system : Name → Syscall
  lsetxattr : Name → Name → List ℕ → ℕ → Syscall
  lgetxattr : Name → Name → ℕ → Syscall
  llistxattr : Name → ℕ → Syscall
  lremovexattr : Name → Name → Syscall
  opendir : Name → Syscall
  closedir : ℤ → Syscall

-- The fields of `struct stat` that the code reads.
pub record Stat : Type 0 where
  pub st_mode : ℕ
  pub st_dev : ℕ
  pub st_size : ℕ
  pub st_mtime : ℕ

-- The return value, the bytes read, and the `struct stat` buffer after the call.
pub record Reply : Type 0 where
  pub value : ℤ
  pub bytes : List ℕ
  pub stat : Stat

-- `errno n` is `errno` once `n` messages were printed to the log file since the last call: to print
-- one may fail, and changes nothing else that a call of CacheFS can see. `entries` are the names
-- left on a directory stream, which `readdir` yields one by one, and `read_on` is the world after
-- some calls of it. `malloc` is what a new block of memory holds before it is written.
pub record Os : Type 1 where
  pub World : Type 0
  pub call : Syscall → World → Reply × World
  pub errno : ℕ → World → ℕ
  pub entries : ℤ → World → List Name
  pub read_on : ℤ → ℕ → World → World
  pub malloc : ℕ → World → List ℕ

-- The state of the process: the world of the kernel and the metadata.
pub record Sys (W Db : Type 0) : Type 0 where
  pub world : W
  pub meta : Meta Db

-- A computation that changes the state.
abbrev pub State : Type 0 → Type 0 → Type 0
State S A = S → A × S

abbrev pub pure : {S A : Type 0} → A → State S A
pure a s = (a, s)

infixl 5 ◌>>=◌ ◌>>◌
abbrev pub ◌>>=◌ : {S A B : Type 0} → State S A → (A → State S B) → State S B
◌>>=◌ m f s = let (a, s') = m s in f a s'

abbrev pub ◌>>◌ : {S A B : Type 0} → State S A → State S B → State S B
m >> k = m >>= λ _. k

-- A metadata operation as a step of the whole process.
abbrev pub meta_op : {W Db A : Type 0} → State (Meta Db) A → State (Sys W Db) A
meta_op f s = let (a, m) = f s.meta in (a, record s { meta = m })

module _ (os : Os) {Db : Type 0} where
  open os use {World}

  abbrev pub issue : Syscall → State (Sys World Db) Reply
  issue c s = let (r, w) = os.call c s.world in (r, record s { world = w })

  -- `log_error`: `-errno`, as it is before the error is printed. The number says how many messages
  -- were printed since the last call.
  unfoldable pub log_error : ℕ → State (Sys World Db) ℤ
  log_error printed s = (neg (os.errno printed s.world), s)

  -- `log_retstat` prints a status and restores `errno`.
  unfoldable pub log_retstat : ℤ → State (Sys World Db) (Unit {0})
  log_retstat retstat s = (tt, s)

  -- `log_syscall`: a status below the least good one is replaced by `-errno`, which is read again
  -- once `log_error` has printed its message.
  unfoldable pub log_syscall : ℤ → ℤ → State (Sys World Db) ℤ
  log_syscall retstat min_ret = do
    log_retstat retstat
    (if ltb_ℤ retstat min_ret
        then (do log_error 0; λ s. (neg (os.errno 1 s.world), s))
        else pure retstat)

  -- Looking at a status changes nothing.
  pub log_syscall_state :
      (retstat min_ret : ℤ) (s : Sys World Db)
      → log_syscall retstat min_ret s ≡ ((log_syscall retstat min_ret s).0, s)
  unfolding log_syscall log_retstat log_error
  log_syscall_state retstat min_ret s = ground arith

  pub log_keeps : (retstat min_ret : ℤ) (s : Sys World Db) → (log_syscall retstat min_ret s).1 ≡ s
  log_keeps retstat min_ret s = ap (λ r. r.1) (log_syscall_state retstat min_ret s)

  -- `log_syscall("...", call(...), 0)`
  abbrev pub checked : Syscall → State (Sys World Db) ℤ
  checked c = do r ← issue c; log_syscall r.value (pos 0)
