-- ===== src/Log.antt =====
-- src/log.c: what the callbacks print to the log file, and the status that `log_syscall` makes of a
-- return value. Printing itself is a parameter, with `errno`, which it may change. A line of a
-- structure is `log_struct` of src/log.h: the text of the format, and the field that is printed.
pub mod Status
pub mod Dumps
pub mod Formats
use ece566_project.Prelude.{ℕ, List, [], ◌∷◌, ◌++◌, Option, none, some, if◌then◌else◌, Name, codes}
use ece566_project.Prelude.Int.{ℤ, neg, ltb_ℤ}

-- The types of what is printed, as the source names them. A bit-field is passed as an `int`.
pub data Ctype : Type 0 where
  int_t unsigned_t long_t unsigned_long_t long_long_t uint64_t pointer_t text_t uid_t gid_t pid_t
        mode_t dev_t ino_t nlink_t off_t blksize_t blkcnt_t time_t fsblkcnt_t fsfilcnt_t :
      Ctype

-- An argument of a variadic call: its type, and its bits or its text.
pub data Arg : Type 0 where
  number : Ctype → ℕ → Arg
  signed : ℤ → Arg
  text : Name → Arg

-- What log.c calls: `vfprintf` on the log file, `strerror`, `fopen`, `setvbuf`, and `errno`.
pub record Logger : Type 1 where
  pub World : Type 0
  pub File : Type 0
  pub vfprintf : Name → List Arg → World → World
  pub strerror : ℕ → Name
  pub errno : World → ℕ
  pub set_errno : ℕ → World → World
  pub fopen : Name → Name → World → Option File × World
  pub perror : Name → World → World
  pub setvbuf : File → World → World

-- A line that `log_struct` prints.
pub record Line : Type 0 where
  pub field : Name
  pub format : Name
  pub arg : Arg

module _ (l : Logger) where
  open l use {World, File}

  -- `none` is `exit(EXIT_FAILURE)`.
  unfoldable pub log_open : World → Option File × World
  log_open w =
      let (logfile, w1) = l.fopen (codes "cachefs.log") (codes "w") w in
      elim logfile [
        | none ↦ (none, l.perror (codes "logfile") w1)
        | some f ↦ (some f, l.setvbuf f w1)
      ]

  unfoldable pub log_msg : Name → List Arg → World → World
  log_msg format args w = l.vfprintf format args w

  unfoldable pub log_error : Name → World → ℤ × World
  log_error func w =
      let ret = neg (l.errno w) in
      (
        ret,
        log_msg (codes "    ERROR %s: %s\n")
            (Arg.text func ∷ Arg.text (l.strerror (l.errno w)) ∷ []) w,
      )

  unfoldable pub log_retstat : Name → ℤ → World → World
  log_retstat func retstat w =
      let errsave = l.errno w in
      l.set_errno errsave
        (log_msg (codes "    %s returned %d\n") (Arg.text func ∷ Arg.signed retstat ∷ []) w)

  unfoldable pub log_syscall : Name → ℤ → ℤ → World → ℤ × World
  log_syscall func retstat min_ret w =
      let w1 = log_retstat func retstat w in
      if ltb_ℤ retstat min_ret
      then (let (_, w2) = log_error func w1 in (neg (l.errno w2), w2))
      else (retstat, w1)

  unfoldable pub log_struct : Line → World → World
  log_struct s w =
      log_msg (codes "    " ++ s.field ++ codes " = " ++ s.format ++ codes "\n") (s.arg ∷ []) w

  -- One `log_struct` after the other.
  unfoldable pub log_lines : List Line → World → World
  log_lines [] w = w
  log_lines (s ∷ ss) w = log_lines ss (log_struct s w)
