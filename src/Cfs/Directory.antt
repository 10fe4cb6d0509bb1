-- ===== src/Cfs/Directory.antt =====
-- The directory callbacks of src/cachefs.c, and `cfs_init` and `cfs_destroy`.
pub mod Fill
use ece566_project.Prelude.{ℕ, suc, Bool, List, [], ◌∷◌, ◌==◌, not, if◌then◌else◌, Name}
use ece566_project.Prelude.Int.{ℤ, pos, neg}
use ece566_project.Posix.{Syscall, Os, Sys, State, pure, ◌>>=◌, ◌>>◌, issue, log_error}
use ece566_project.Cfs.{Config}
use ece566_project.Cfs.Paths.{cfs_full_nas_path}
use ece566_project.Meta.{truthy}

-- ENOMEM of Linux
abbrev pub enomem : ℕ
enomem = 12

-- `filler` of FUSE: it takes a name into its buffer, and answers other than 0 when that is full.
unfoldable pub fill_entries : {B : Type 0} → (B → Name → ℤ × B) → List Name → B → ℤ × B
fill_entries filler [] buf = (pos 0, buf)
fill_entries filler (name ∷ names) buf =
    let (full, buf') = filler buf name in
    let rest = fill_entries filler names buf' in if truthy full then (neg enomem, buf') else rest

-- The calls of `readdir`: one for each name that is offered, and the one that finds no more.
unfoldable pub readdir_calls : {B : Type 0} → (B → Name → ℤ × B) → List Name → B → ℕ
readdir_calls filler [] buf = 1
readdir_calls filler (name ∷ names) buf =
    let (full, buf') = filler buf name in
    let rest = readdir_calls filler names buf' in if truthy full then 1 else suc rest

module _ (cfg : Config) (os : Os) {Db : Type 0} where
  open os use {World}

  -- A stream is a non-zero pointer; the status, and the stream that is stored in `fi->fh`.
  unfoldable pub cfs_opendir : Name → State (Sys World Db) (ℤ × ℤ)
  cfs_opendir path = do
    r ← issue os (Syscall.opendir (cfs_full_nas_path cfg path))
    retstat ← (if truthy r.value then pure (pos 0) else log_error os 1)
    pure (retstat, r.value)

  -- The first `readdir` must yield a name; `retstat` is 0 until then. What it returned is printed
  -- before `log_error`.
  unfoldable pub read_entries :
      {B : Type 0} → (B → Name → ℤ × B) → List Name → B → State (Sys World Db) (ℤ × B)
  read_entries filler [] buf = do retstat ← log_error os 1; pure (retstat, buf)
  read_entries filler (name ∷ names) buf = pure (fill_entries filler (name ∷ names) buf)

  unfoldable pub cfs_readdir :
      {B : Type 0} → (B → Name → ℤ × B) → ℤ → B → State (Sys World Db) (ℤ × B)
  cfs_readdir filler dp buf s =
      let names = os.entries dp s.world in
      read_entries filler names buf
        (record s { world = os.read_on dp (readdir_calls filler names buf) s.world })

  unfoldable pub cfs_releasedir : ℤ → State (Sys World Db) ℤ
  cfs_releasedir dp = do issue os (Syscall.closedir dp); pure (pos 0)

  unfoldable pub cfs_fsyncdir : Name → Bool → State (Sys World Db) ℤ
  cfs_fsyncdir path datasync = pure (pos 0)

  -- `CFS_DATA` is handed back.
  unfoldable pub cfs_init : State (Sys World Db) Config
  cfs_init = pure cfg

  unfoldable pub cfs_destroy : State (Sys World Db) (Unit {0})
  cfs_destroy = pure tt
