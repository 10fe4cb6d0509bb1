-- ===== src/Cfs/CacheWrite.antt =====
-- `cfs_cacheWrite` of src/cachefs.c. Its loop waits for room in the cache: `fuel` is the number of
-- rounds that are run, and a run that needs more is `hang`.
pub mod Space
pub mod Ready
use ece566_project.Prelude.{
  ℕ, zero, suc, ◌+◌, ◌*◌, ◌/◌, ◌%◌, ◌==◌, leb, if◌then◌else◌, List, Name, take,
}
use ece566_project.Prelude.Int.{ℤ, word}
use ece566_project.Sql.Engine.{Engine}
use ece566_project.Meta.{get_cache_used_size, write_blks}
use ece566_project.Posix.{Syscall, Os, Sys, checked, meta_op}
use ece566_project.Cfs.{Config, FileInfo}
use ece566_project.Cfs.Align.{offset_array}
use ece566_project.Cfs.Outcome.{Outcome, Run, pure, undefined, lift, ◌>>=◌, ◌>>◌}

module _ (cfg : Config) (os : Os) (e : Engine) where
  open os use {World}

  -- `while (get_cache_used_size () >= cache_size * 1024)`: the eviction of the body is commented
  -- out in the source, so a round changes nothing.
  unfoldable pub wait_for_space : ℕ → Run (Sys World e.Db) (Unit {0})
  wait_for_space zero s = Outcome.hang
  wait_for_space (suc fuel) s =
      let rest = wait_for_space fuel s in
      if leb (cfg.cache_size * 1024 % word) (get_cache_used_size e s.meta) then rest else pure tt s

  unfoldable pub cfs_cache_write : ℕ → Name → List ℕ → ℕ → ℕ → FileInfo → Run (Sys World e.Db) ℤ
  cfs_cache_write fuel cache_file_name buf size offset fi =
      if cfg.block_size == 0 then undefined else (do
        wait_for_space fuel
        lift (
            meta_op (
              write_blks e cache_file_name
                (offset_array cfg.block_size offset (size / cfg.block_size))))
        lift (checked os (Syscall.pwrite fi.fh.cache_fh (take size buf) offset)))
