-- ===== src/Log/Formats.antt =====
-- The formats of src/log.c against the types of the fields that are printed with them.
use ece566_project.Prelude.{
  ℕ, ◌≡◌, Bool, true, false, ◌&&◌, ◌||◌, ◌==◌, Option, none, some, List, [], ◌∷◌, arith, leb,
  if◌then◌else◌, Name, codes, same,
}
use ece566_project.Log.{Ctype, Arg, Line}
use ece566_project.Log.Dumps.{
  FuseContext, FuseConnInfo, FuseFileInfo, StatFields, StatVfs, Utimbuf, context_lines, conn_lines,
  fi_lines, stat_lines, statvfs_lines, utime_lines,
}

-- What a conversion takes from the arguments of `printf`: an `int`, a `long`, a `long long` or a
-- text.
pub data Reads : Type 0 where
  as_int as_long as_long_long as_text : Reads

-- From the length modifier on.
abbrev conversion : Name → Option Reads
conversion [] = none
conversion (c ∷ cs) =
    if same (c ∷ cs) (codes "lld") || same (c ∷ cs) (codes "llx")
    then some Reads.as_long_long
    else if same (c ∷ cs) (codes "ld") || same (c ∷ cs) (codes "lx")
    then some Reads.as_long
    else if c == b'd' || c == b'x' || c == b'o'
    then some Reads.as_int
    else if c == b's'
    then some Reads.as_text
    else none

-- A blank, and the digits of the flags and of the width, are skipped.
unfoldable pub after_percent : Name → Option Reads
unfolding same
after_percent [] = none
after_percent (c ∷ cs) =
    let rest = after_percent cs in
    if c == b' ' || (leb b'0' c && leb c b'9') then rest else conversion (c ∷ cs)

-- The conversion of a format with one `%`.
unfoldable pub reads : Name → Option Reads
unfolding after_percent
reads [] = none
reads (c ∷ cs) = let rest = reads cs in if c == b'%' then after_percent cs else rest

-- Whether an argument is passed in as many bytes as are read, with the sizes of the types.
abbrev pub fits_arg : (Ctype → ℕ) → Option Reads → Arg → Bool
fits_arg size (some Reads.as_int) (Arg.number t _) = size t == size Ctype.int_t
fits_arg size (some Reads.as_long) (Arg.number t _) = size t == size Ctype.long_t
fits_arg size (some Reads.as_long_long) (Arg.number t _) = size t == size Ctype.long_long_t
fits_arg size (some Reads.as_int) (Arg.signed _) = true
fits_arg size (some Reads.as_text) (Arg.text _) = true
fits_arg size _ _ = false

unfoldable pub typed : (Ctype → ℕ) → List Line → Bool
typed size [] = true
typed size (s ∷ ss) = fits_arg size (reads s.format) s.arg && typed size ss

-- The sizes of the types on Linux with 64-bit files, but for those of a pointer and a link count.
pub record IsUsual (size : Ctype → ℕ) : Type 0 where
  pub unsigned_t : size Ctype.unsigned_t ≡ size Ctype.int_t
  pub uid_t : size Ctype.uid_t ≡ size Ctype.int_t
  pub gid_t : size Ctype.gid_t ≡ size Ctype.int_t
  pub pid_t : size Ctype.pid_t ≡ size Ctype.int_t
  pub mode_t : size Ctype.mode_t ≡ size Ctype.int_t
  pub unsigned_long_t : size Ctype.unsigned_long_t ≡ size Ctype.long_t
  pub blksize_t : size Ctype.blksize_t ≡ size Ctype.long_t
  pub time_t : size Ctype.time_t ≡ size Ctype.long_t
  pub uint64_t : size Ctype.uint64_t ≡ size Ctype.long_long_t
  pub dev_t : size Ctype.dev_t ≡ size Ctype.long_long_t
  pub ino_t : size Ctype.ino_t ≡ size Ctype.long_long_t
  pub off_t : size Ctype.off_t ≡ size Ctype.long_long_t
  pub blkcnt_t : size Ctype.blkcnt_t ≡ size Ctype.long_long_t
  pub fsblkcnt_t : size Ctype.fsblkcnt_t ≡ size Ctype.long_long_t
  pub fsfilcnt_t : size Ctype.fsfilcnt_t ≡ size Ctype.long_long_t

-- With the usual sizes of the types, each format of `log_conn`, `log_fi`, `log_statvfs` and
-- `log_utime` reads as many bytes from the arguments as its field is passed in; those of
-- `log_fuse_context` do exactly when a pointer has the size of an `int`, and those of `log_stat`
-- exactly when a link count has it.
pub dumps_typed :
    (size : Ctype → ℕ)
    → IsUsual size
    → (context : FuseContext) (conn : FuseConnInfo) (fi : FuseFileInfo) (si : StatFields)
      (sv : StatVfs) (buf : Utimbuf)
    → (typed size (conn_lines conn) ≡ true)
      × (typed size (fi_lines fi) ≡ true)
      × (typed size (statvfs_lines sv) ≡ true)
      × (typed size (utime_lines buf) ≡ true)
      × (typed size (context_lines context) ≡ (size Ctype.pointer_t == size Ctype.int_t))
      × (typed size (stat_lines si) ≡ (size Ctype.nlink_t == size Ctype.int_t))
unfolding typed reads after_percent same conn_lines fi_lines statvfs_lines utime_lines context_lines
    stat_lines
dumps_typed size u context conn fi si sv buf = (
  ground (arith, u),
  ground (arith, u),
  ground (arith, u),
  ground (arith, u),
  ground (arith, u),
  ground (arith, u),
)
