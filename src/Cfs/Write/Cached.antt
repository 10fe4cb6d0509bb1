-- ===== src/Cfs/Write/Cached.antt =====
-- The blocks that `cfs_write` puts into the cache after it has read them back from the NAS.
use ece566_project.Prelude.{
  ℕ, suc, ◌+◌, ◌*◌, ◌%◌, ◌≤◌, ◌<◌, ◌≡◌, ap, ◌∙◌, List, arith, Name, length,
}
use ece566_project.Prelude.Int.{ℤ, pos, word}
use ece566_project.Sql.Engine.{Engine, IsHealthy}
use ece566_project.Meta.{write_blks}
use ece566_project.Meta.Lookups.Ranges.{write_blks-cached}
use ece566_project.Meta.Invariant.{write_blks-IsValid}
use ece566_project.Meta.Growth.{write_blks-Grows}
use ece566_project.Posix.{Os, Sys, Syscall, log_syscall, log_syscall_state}
use ece566_project.Cfs.{Config, FileInfo}
use ece566_project.Cfs.Align.{offset_array}
use ece566_project.Cfs.Align.Bounds.{length-offset_array}
use ece566_project.Cfs.Bytes.{slice, overwrite, length-slice, length-overwrite, take_all}
use ece566_project.Cfs.Disk.{IsDisk}
use ece566_project.Cfs.Outcome.{Outcome}
use ece566_project.Cfs.CacheWrite.{cfs_cache_write}
use ece566_project.Cfs.CacheWrite.Space.{wait_room}
use ece566_project.Cfs.Read.Blocks.{Steady}
use ece566_project.Cfs.Write.Range.{member-offset_array, range-Coherent}
use native.Mathlib.Nat.{mul-div_cancel_left, mul-le-mul_left}

more_than : (b m n n' limit : ℕ) → n' ≤ m + n → b * (m + n) < limit → b * (n' + 0) < limit
more_than b m n n' limit h r =
    let le : b * (n' + 0) ≤ b * (m + n) = mul-le-mul_left b (omega arith) in omega arith

module _ (cfg : Config) (os : Os) (e : Engine) (h : IsHealthy e) (contents : ℤ → os.World → List ℕ)
    (fi : FileInfo) (disk : IsDisk os contents fi.fh) (name : Name)
    (pos_b : 0 < cfg.block_size) where
  open os use {World}
  open cfg use {block_size}

  module _ (n off : ℕ) (nas bytes block : List ℕ) (s : Sys World e.Db) (w : World)
      (st : Steady cfg os e contents fi.fh name nas n s) (start : off % block_size ≡ 0)
      (inside : off + block_size * n ≤ length nas) (fits : length bytes ≤ block_size * n)
      (from_nas : block ≡ slice (block_size * n) off (overwrite nas off bytes))
      (new_nas : contents fi.fh.nas_fh w ≡ overwrite nas off bytes)
      (same_cache : contents fi.fh.cache_fh w ≡ contents fi.fh.cache_fh s.world) where
    -- The state once the blocks are cached.
    abbrev pub after_write : Sys World e.Db
    after_write = record {
      world = (os.call (Syscall.pwrite fi.fh.cache_fh block off) w).1;
      meta = (write_blks e name (offset_array block_size off n) s.meta).1;
    }

    pub after_write-Steady :
        Steady cfg os e contents fi.fh name (overwrite nas off bytes) 0 after_write
    after_write-Steady =
        let offs = offset_array block_size off n in
        let g = write_blks-Grows e h name offs s.meta st.valid in
        record {
          valid = write_blks-IsValid e h name offs s.meta st.valid;
          sizes = g.meta_block_size ∙ st.sizes;
          nas_bytes = disk.apart block off w ∙ new_nas;
          coherent =
              rw (disk.written, same_cache)
                (range-Coherent block_size off n nas bytes _ block pos_b start inside fits from_nas
                  (e.tables s.meta.db) _ name
                  (λ o q. ground (
                    arith,
                    write_blks-cached e h name offs s.meta st.valid name o,
                    member-offset_array block_size o off n start,
                  ))
                  st.coherent);
          room =
              more_than block_size (length (e.tables s.meta.db).blocks) n _ _
                (omega (arith, g.blocks, length-offset_array block_size off n)) st.room;
        }

    whole_block : length block ≡ block_size * n
    whole_block =
        ap length from_nas
        ∙ length-slice (block_size * n) off (overwrite nas off bytes)
            (omega (arith, length-overwrite nas off bytes (omega arith)))

    has_room : s.meta.cache_used_size < cfg.cache_size * 1024 % word
    has_room =
        let m = length (e.tables s.meta.db).blocks in
        let used : s.meta.cache_used_size ≡ (block_size * m) % word =
          rw (← st.sizes) st.valid.counted in
        let le : block_size * m ≤ block_size * (m + n) = mul-le-mul_left block_size (omega arith) in
        omega (arith, used, st.room)

    pub cache_range :
        (fuel : ℕ)
        → (v : ℤ) × (cfs_cache_write cfg os e
              (suc fuel)
              name
              block
              (block_size * n)
              off
              fi
              (record s { world = w })
            ≡ Outcome.done (v, after_write))
    unfolding cfs_cache_write
    cache_range fuel =
        let value = (os.call (Syscall.pwrite fi.fh.cache_fh block off) w).0.value in
        (
          (log_syscall os value (pos 0) after_write).0,
          ground (
            arith,
            wait_room cfg os e (record s { world = w }) fuel has_room,
            mul-div_cancel_left n pos_b,
            take_all (block_size * n) block (omega (arith, whole_block)),
            log_syscall_state os value (pos 0) after_write,
          ),
        )
