-- ===== src/Cfs/Read/Blocks.antt =====
-- One block of `cfs_read`: what `cfs_cacheWrite` does with a block that came from the NAS.
use ece566_project.Prelude.{
  ℕ, suc, ◌+◌, ◌*◌, ◌%◌, ◌≤◌, ◌<◌, ◌≡◌, ◌∙◌, List, [], ◌∷◌, arith, Name, length, take,
}
use ece566_project.Prelude.Int.{ℤ, pos, word}
use ece566_project.Sql.Engine.{Engine, IsHealthy}
use ece566_project.Meta.{write_blks}
use ece566_project.Meta.Invariant.{IsValid, write_blks-IsValid}
use ece566_project.Meta.Lookups.Ranges.{write_blks-cached}
use ece566_project.Meta.Growth.{write_blks-Grows}
use ece566_project.Posix.{Os, Sys, Syscall, log_syscall, log_syscall_state}
use ece566_project.Cfs.{Config, FileInfo, DualFileHandle}
use ece566_project.Cfs.Align.{offset_array}
use ece566_project.Cfs.Bytes.{slice}
use ece566_project.Cfs.Disk.{IsDisk}
use ece566_project.Cfs.Outcome.{Outcome}
use ece566_project.Cfs.CacheWrite.{cfs_cache_write}
use ece566_project.Cfs.CacheWrite.Space.{wait_room}
use ece566_project.Cfs.Read.Coherent.{Coherent, overwrite-Coherent}
use native.Mathlib.Nat.{div_self, mul-le-mul_left}

-- The state of a read with room for `k` more blocks, for a file whose bytes on the NAS are `nas`.
pub record Steady (cfg : Config) (os : Os) (e : Engine) (contents : ℤ → os.World → List ℕ)
    (fh : DualFileHandle) (name : Name) (nas : List ℕ) (k : ℕ) (s : Sys os.World e.Db)
    : Type 0 where
  pub valid : IsValid e s.meta
  pub sizes : s.meta.meta_block_size ≡ cfg.block_size
  pub nas_bytes : contents fh.nas_fh s.world ≡ nas
  pub coherent :
      Coherent cfg.block_size (e.tables s.meta.db) name nas (contents fh.cache_fh s.world)
  pub room :
      cfg.block_size * (length (e.tables s.meta.db).blocks + k) < cfg.cache_size * 1024 % word

pub more_blocks : (b n n' k limit : ℕ) → n' ≤ n + 1 → b * (n + suc k) < limit → b * (n' + k) < limit
more_blocks b n n' k limit h r =
    let m : b * (n' + k) ≤ b * (n + suc k) = mul-le-mul_left b (omega arith) in omega arith

module _ (cfg : Config) (os : Os) (e : Engine) (h : IsHealthy e) (contents : ℤ → os.World → List ℕ)
    (fi : FileInfo) (disk : IsDisk os contents fi.fh) (name : Name) (nas : List ℕ)
    (pos_b : 0 < cfg.block_size) where
  open os use {World}

  -- The state after the block at `off` is cached.
  unfoldable pub after_block : List ℕ → ℕ → Sys World e.Db → Sys World e.Db
  after_block block off s = record {
    world = (os.call (Syscall.pwrite fi.fh.cache_fh block off) s.world).1;
    meta = (write_blks e name (off ∷ []) s.meta).1;
  }

  has_room :
      (k : ℕ) (s : Sys World e.Db)
      → Steady cfg os e contents fi.fh name nas (suc k) s
      → s.meta.cache_used_size < cfg.cache_size * 1024 % word
  has_room k s st =
      let n = length (e.tables s.meta.db).blocks in
      let used : s.meta.cache_used_size ≡ (cfg.block_size * n) % word =
        rw (← st.sizes) st.valid.counted in
      omega (arith, used, st.room)

  pub after_block-Steady :
      (k off : ℕ) (block : List ℕ) (s : Sys World e.Db)
      → Steady cfg os e contents fi.fh name nas (suc k) s
      → off % cfg.block_size ≡ 0
      → off + cfg.block_size ≤ length nas
      → block ≡ slice cfg.block_size off nas
      → Steady cfg os e contents fi.fh name nas k (after_block block off s)
  unfolding after_block
  after_block-Steady k off block s st start inside from_nas =
      let g = write_blks-Grows e h name (off ∷ []) s.meta st.valid in
      record {
        valid = write_blks-IsValid e h name (off ∷ []) s.meta st.valid;
        sizes = g.meta_block_size ∙ st.sizes;
        nas_bytes = disk.apart block off s.world ∙ st.nas_bytes;
        coherent = rw disk.written (
            overwrite-Coherent cfg.block_size off (e.tables s.meta.db) _ name nas _ block pos_b
              start inside from_nas
              (λ o q. ground (arith, write_blks-cached e h name (off ∷ []) s.meta st.valid name o))
              st.coherent);
        room = more_blocks cfg.block_size _ _ k _ g.blocks st.room;
      }

  pub cache_block :
      (fuel k off : ℕ) (buf : List ℕ) (s : Sys World e.Db)
      → Steady cfg os e contents fi.fh name nas (suc k) s
      → (v : ℤ) × (cfs_cache_write cfg os e (suc fuel) name buf cfg.block_size off fi s
          ≡ Outcome.done (v, after_block (take cfg.block_size buf) off s))
  unfolding cfs_cache_write offset_array after_block
  cache_block fuel k off buf s st =
      let w = Syscall.pwrite fi.fh.cache_fh (take cfg.block_size buf) off in
      let value = (os.call w s.world).0.value in
      let s' = after_block (take cfg.block_size buf) off s in
      (
        (log_syscall os value (pos 0) s').0,
        ground (
          arith,
          wait_room cfg os e s fuel (has_room k s st),
          div_self pos_b,
          log_syscall_state os value (pos 0) s',
        ),
      )
