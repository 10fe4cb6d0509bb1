-- ===== src/Main.antt =====
-- `main` of src/cachefs.c up to the call of `fuse_main`: the checks of the user and the command
-- line, the size of the cache, and the metadata. Directory names, the numbers that `sscanf` reads
-- and the free space that `statvfs` reports are inputs.
pub mod Sizing
pub mod CommandLine
pub mod Restart
pub mod Served
use ece566_project.Prelude.{
  ℕ, ◌-◌, ◌==◌, ltb, Bool, false, ◌&&◌, ◌||◌, Option, none, some, [], ◌∷◌, if◌then◌else◌, Name,
}
use ece566_project.Sql.Engine.{Engine}
use ece566_project.Meta.{Meta, sub_size, open_db, create_tables, set_block_size}
use ece566_project.Meta.Numbers.{init_cache_used_size}
use ece566_project.Cfs.{Config}

-- `cache_size` in KiB: `none` is a `statvfs` that failed.
unfoldable pub choose_cache_size : Option ℕ → ℕ → ℕ
choose_cache_size none user_size = user_size
choose_cache_size (some fs_avail_kb) user_size =
    if ltb (sub_size fs_avail_kb 100) user_size && ltb 100 fs_avail_kb
    then fs_avail_kb - 100
    else if ltb fs_avail_kb user_size
    then fs_avail_kb
    else user_size

abbrev pub starts_with_dash : Name → Bool
starts_with_dash [] = false
starts_with_dash (c ∷ _) = c == b'-'

-- The command line: the number of arguments, and the last three.
pub record Arguments : Type 0 where
  pub argc : ℕ
  pub nas_dir : Name
  pub mount_dir : Name
  pub cache_dir : Name
  pub user_size : ℕ
  pub block_size : ℕ

-- How `main` goes on: it returns 1 for root, aborts with the usage, exits where the metadata
-- cannot be read, or calls `fuse_main`.
pub data Start (Db : Type 0) : Type 0 where
  refused_root usage_abort exited : Start Db
  started : Config → Meta Db → Start Db

abbrev pub bad_arguments : Arguments → Bool
bad_arguments args =
    ltb args.argc 6
    || (starts_with_dash args.nas_dir
        || (starts_with_dash args.mount_dir || starts_with_dash args.cache_dir))

module _ (e : Engine) where
  -- the metadata: the results of `open_db` and `create_tables` are not used
  unfoldable pub init_metadata : ℕ → Meta e.Db → Option (Meta e.Db)
  init_metadata block_size m =
      let m1 = (open_db e m).1 in
      let m2 = (create_tables e m1).1 in init_cache_used_size e (set_block_size e block_size m2)

  unfoldable pub start : ℕ → ℕ → Arguments → (Name → Name) → Option ℕ → Meta e.Db → Start e.Db
  start uid euid args realpath fs_avail_kb m =
      if uid == 0 || euid == 0
      then Start.refused_root
      else if bad_arguments args
      then Start.usage_abort
      else elim (init_metadata args.block_size m) [
        | none ↦ Start.exited
        | some m' ↦
            Start.started
              (record {
                nasdir = realpath args.nas_dir;
                cachedir = realpath args.cache_dir;
                cache_size = choose_cache_size fs_avail_kb args.user_size;
                block_size = args.block_size;
              })
              m'
      ]
