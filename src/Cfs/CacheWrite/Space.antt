-- ===== src/Cfs/CacheWrite/Space.antt =====
-- The loop of `cfs_cacheWrite` that waits for room.
use ece566_project.Prelude.{ℕ, zero, suc, ◌*◌, ◌%◌, ◌≤◌, ◌<◌, ◌≡◌, refl, ◌≢◌, arith, List, Name}
use ece566_project.Prelude.Int.{word}
use ece566_project.Sql.Engine.{Engine}
use ece566_project.Meta.{get_cache_used_size}
use ece566_project.Posix.{Os, Sys}
use ece566_project.Cfs.{Config, FileInfo}
use ece566_project.Cfs.Outcome.{Outcome}
use ece566_project.Cfs.CacheWrite.{wait_for_space, cfs_cache_write}

module _ (cfg : Config) (os : Os) (e : Engine) (s : Sys os.World e.Db) where
  pub wait_full :
      (fuel : ℕ)
      → cfg.cache_size * 1024 % word ≤ s.meta.cache_used_size
      → wait_for_space cfg os e fuel s ≡ Outcome.hang
  unfolding wait_for_space get_cache_used_size
  wait_full zero full = refl
  wait_full (suc fuel) full = ground (arith, wait_full fuel full)

  pub wait_room :
      (fuel : ℕ)
      → s.meta.cache_used_size < cfg.cache_size * 1024 % word
      → wait_for_space cfg os e (suc fuel) s ≡ Outcome.done (tt, s)
  unfolding wait_for_space get_cache_used_size
  wait_room fuel room = ground arith

  -- Once the cache is full, and the block size is not 0, the loop never ends, whatever is written:
  -- no number of rounds is enough.
  pub cfs_cache_write_hangs :
      (fuel : ℕ) (name : Name) (buf : List ℕ) (size offset : ℕ) (fi : FileInfo)
      → cfg.block_size ≢ 0
      → cfg.cache_size * 1024 % word ≤ s.meta.cache_used_size
      → cfs_cache_write cfg os e fuel name buf size offset fi s ≡ Outcome.hang
  unfolding cfs_cache_write
  cfs_cache_write_hangs fuel name buf size offset fi h full = ground (arith, wait_full fuel full)
