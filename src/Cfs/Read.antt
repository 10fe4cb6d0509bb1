-- ===== src/Cfs/Read.antt =====
-- `cfs_read` of src/cachefs.c.
pub mod Coherent
pub mod Blocks
pub mod Loop
pub mod Rounds
pub mod Correct
pub mod Total
pub mod Yields
use ece566_project.Prelude.{
  ℕ, zero, suc, ◌+◌, ◌-◌, ◌*◌, ◌/◌, ◌%◌, ◌==◌, leb, Bool, true, false, if◌then◌else◌, List, [], ◌∷◌,
  Name, length, take, drop,
}
use ece566_project.Prelude.Int.{ℤ, pos, ◌+ℤ◌, ltb_ℤ}
use ece566_project.Sql.Engine.{Engine}
use ece566_project.Meta.{truthy, are_blocks_in_cache}
use ece566_project.Posix.{Syscall, Os, Sys, State, issue, log_syscall, log_error, meta_op}
use ece566_project.Cfs.{Config, FileInfo}
use ece566_project.Cfs.Paths.{cfs_path_to_file_name}
use ece566_project.Cfs.Align.{align_lower_offset, aligned_size, offset_array}
use ece566_project.Cfs.Bytes.{slice}
use ece566_project.Cfs.Outcome.{Outcome, Run, pure, undefined, lift, ◌>>=◌, ◌>>◌, store}
use ece566_project.Cfs.CacheWrite.{cfs_cache_write}

-- `memcpy (buf, cacheBuf + start, size)`
unfoldable pub copy_out : {S : Type 0} → List ℕ → ℕ → ℕ → Run S (List ℕ)
copy_out cache_buf start size =
    if leb (start + size) (length cache_buf) then pure (slice size start cache_buf) else undefined

module _ (cfg : Config) (os : Os) (e : Engine) (fuel : ℕ) (name : Name) (fi : FileInfo) where
  open os use {World}
  open cfg use {block_size}

  -- The loop over the blocks: `at` is `block_index * block_size`, the place in `cacheBuf`.
  unfoldable pub read_blocks : List ℤ → List ℕ → ℕ → ℤ → List ℕ → Run (Sys World e.Db) (ℤ × List ℕ)
  read_blocks (hit ∷ hits) (off ∷ offs) at retstat cache_buf =
      if truthy hit
      then (do
        r ← lift (issue os (Syscall.pread fi.fh.cache_fh block_size off))
        cache_buf' ← store cache_buf at r.bytes
        read_blocks hits offs (at + block_size) (retstat +ℤ r.value) cache_buf')
      else (do
        r ← lift (issue os (Syscall.pread fi.fh.nas_fh block_size off))
        cache_buf' ← store cache_buf at r.bytes
        cfs_cache_write cfg os e fuel name (drop at cache_buf') block_size off fi
        read_blocks hits offs (at + block_size) (retstat +ℤ r.value) cache_buf')
  read_blocks _ _ at retstat cache_buf = pure (retstat, cache_buf)

  -- one `pread` from the cache where every block is there, block by block otherwise
  unfoldable pub fetch : Bool → List ℤ → ℕ → ℕ → List ℕ → Run (Sys World e.Db) (ℤ × List ℕ)
  fetch true hits lower size cache_buf = do
    r ← lift (issue os (Syscall.pread fi.fh.cache_fh size lower))
    retstat ← lift (log_syscall os r.value (pos 0))
    cache_buf' ← store cache_buf 0 r.bytes
    pure (retstat, cache_buf')
  fetch false hits lower size cache_buf =
      read_blocks hits (offset_array block_size lower (size / block_size)) 0 (pos 0) cache_buf

  -- `cacheDataHit`
  unfoldable pub data_hit : ℤ → State (Sys World e.Db) Bool
  data_hit data_check s =
      if ltb_ℤ data_check (pos 0) then (false, (log_error os 0 s).1) else (truthy data_check, s)

-- the status, and the `size` bytes stored in `buf`
unfoldable pub cfs_read :
    (cfg : Config) (os : Os) (e : Engine)
    → ℕ
    → Name
    → ℕ
    → ℕ
    → FileInfo
    → Run (Sys os.World e.Db) (ℤ × List ℕ)
cfs_read cfg os e fuel path size offset fi =
    let bs = cfg.block_size in
    let lower = align_lower_offset bs offset in
    let aligned = aligned_size bs size in
    let name = cfs_path_to_file_name path in
    if bs == 0 then undefined else (do
      (data_check, hits) ← lift (λ s.
          let (total, hits, m) =
            are_blocks_in_cache e name (offset_array bs lower (aligned / bs)) s.meta in
          ((total, hits), record s { meta = m }))
      hit ← lift (data_hit cfg os e fuel name fi data_check)
      cache_buf ← (λ s. pure (os.malloc aligned s.world) s)
      (retstat, cache_buf') ← fetch cfg os e fuel name fi hit hits lower aligned cache_buf
      buf ← copy_out cache_buf' (offset - lower) size
      pure (retstat, buf))
