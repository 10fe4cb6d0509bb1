-- ===== src/Cfs/Write/Total.antt =====
-- `cfs_write` whatever the system calls answer: when it ends, when it has no undefined behaviour, and
-- that it keeps the metadata valid.
use ece566_project.Prelude.{
  ℕ, suc, ◌+◌, ◌/◌, ◌≤◌, ◌<◌, ◌≡◌, ◌⊎◌, ◌↔◌, inl, inr, false, List, arith, ◌==◌, Name, length, take,
}
use ece566_project.Prelude.Int.{word}
use ece566_project.Sql.Engine.{Engine, IsHealthy}
use ece566_project.Posix.{Os, Sys, Syscall, log_keeps}
use ece566_project.Cfs.{Config, FileInfo}
use ece566_project.Cfs.Paths.{cfs_path_to_file_name, cfs_full_nas_path}
use ece566_project.Cfs.Align.{align_lower_offset, aligned_size}
use ece566_project.Cfs.Attributes.{cfs_get_nas_attr}
use ece566_project.Cfs.Outcome.{store}
use ece566_project.Cfs.Outcome.Yields.{Yields, Yields-bind}
use ece566_project.Cfs.CacheWrite.{cfs_cache_write}
use ece566_project.Cfs.CacheWrite.Ready.{Ready, Ready-le, cfs_cache_write-Yields}
use ece566_project.Cfs.Read.Yields.{IsBounded, store-Yields}
use ece566_project.Cfs.Write.{cfs_write, nas_read_size}

-- The read for the cache fits the buffer exactly when the NAS file reaches the first block; otherwise
-- its size wraps around.
pub nas_read_size_iff :
    (aligned lower st_size : ℕ)
    → aligned + lower < word
    → st_size < word
    → (nas_read_size aligned lower st_size ≤ aligned) ↔ (lower ≤ st_size)
unfolding nas_read_size
nas_read_size_iff aligned lower st_size h k = ground arith

-- What `lstat` reports in `cfs_write`, after the NAS is written.
abbrev pub size_after : Config → (os : Os) → Name → List ℕ → ℕ → ℕ → FileInfo → os.World → ℕ
size_after cfg os path buf size offset fi w =
    (os.call (Syscall.lstat (cfs_full_nas_path cfg path))
      (os.call (Syscall.pwrite fi.fh.nas_fh (take size buf) offset) w).1).0.stat.st_size

-- The world when `cfs_write` turns to the cache.
abbrev pub world_after : Config → (os : Os) → Name → List ℕ → ℕ → ℕ → FileInfo → os.World → os.World
world_after cfg os path buf size offset fi w =
    let lower = align_lower_offset cfg.block_size offset in
    let n =
      nas_read_size (aligned_size cfg.block_size size) lower
        (size_after cfg os path buf size offset fi w) in
    let w1 = (os.call (Syscall.pwrite fi.fh.nas_fh (take size buf) offset) w).1 in
    let w2 = (os.call (Syscall.lstat (cfs_full_nas_path cfg path)) w1).1 in
    (os.call (Syscall.pread fi.fh.nas_fh n lower) w2).1

module _ (H F : Type 0) (cfg : Config) (os : Os) (e : Engine) (h : IsHealthy e)
    (bounded : IsBounded os ⊎ F) (pos_b : 0 < cfg.block_size) (fuel : ℕ) (path : Name)
    (buf : List ℕ) (size offset : ℕ) (fi : FileInfo) where
  open os use {World}

  -- What `pread` answered is stored where `malloc` gave room for at least as much as was asked.
  read_fits :
      (n aligned off : ℕ) (w : World)
      → (n ≤ aligned) ⊎ F
      → (0 + length (os.call (Syscall.pread fi.fh.nas_fh n off) w).0.bytes
          ≤ length (os.malloc aligned w))
        ⊎ F
  read_fits n aligned off w (inr excuse) = inr excuse
  read_fits n aligned off w (inl le) = elim bounded [
    | inl b ↦ inl (omega (arith, le, b.malloc aligned w, b.pread fi.fh.nas_fh n off w))
    | inr excuse ↦ inr excuse
  ]

  -- `cfs_write` is what its last step makes of a buffer of the aligned size.
  pub cfs_write_then :
      (R : Sys World e.Db → Type 0) (s : Sys World e.Db)
      → (nas_read_size
            (aligned_size cfg.block_size size)
            (align_lower_offset cfg.block_size offset)
            (size_after cfg os path buf size offset fi s.world)
          ≤ aligned_size cfg.block_size size)
        ⊎ F
      → ((mem : List ℕ) (s' : Sys World e.Db)
          → s' ≡ record s { world = world_after cfg os path buf size offset fi s.world }
          → Yields H F
              (λ _ s2. R s2)
              (cfs_cache_write cfg os e
                (suc fuel)
                (cfs_path_to_file_name path)
                mem
                (aligned_size cfg.block_size size)
                (align_lower_offset cfg.block_size offset)
                fi
                s'))
      → Yields H F (λ _ s'. R s') (cfs_write cfg os e (suc fuel) path buf size offset fi s)
  unfolding cfs_write cfs_get_nas_attr
  cfs_write_then R s fits last =
      let bs = cfg.block_size in
      let lower = align_lower_offset bs offset in
      let aligned = aligned_size bs size in
      let name = cfs_path_to_file_name path in
      let nonzero : (bs == 0) ≡ false = ground arith in
      let w2 =
        (os.call (Syscall.lstat (cfs_full_nas_path cfg path))
          (os.call (Syscall.pwrite fi.fh.nas_fh (take size buf) offset) s.world).1).1 in
      let mem = os.malloc aligned w2 in
      rw (nonzero, log_keeps, log_keeps, log_keeps)
        (Yields-bind H F (store mem 0 _) _ _ (λ mem' s'. (s' ≡ _) × (length mem' ≡ length mem)) _
          (store-Yields H F mem 0 _ _ (read_fits _ aligned lower w2 fits))
          (λ mem' s' q.
            Yields-bind H F (cfs_cache_write cfg os e (suc fuel) name mem' aligned lower fi) _ s'
              (λ _ s2. R s2) _ (last mem' s' q.0) (λ _ s2 r2. r2)))

  -- The room for `k` blocks more than those of the range is left.
  pub cfs_write_room-Yields :
      (k : ℕ) (s : Sys World e.Db)
      → Ready H cfg e (k + aligned_size cfg.block_size size / cfg.block_size) s.meta
      → (nas_read_size
            (aligned_size cfg.block_size size)
            (align_lower_offset cfg.block_size offset)
            (size_after cfg os path buf size offset fi s.world)
          ≤ aligned_size cfg.block_size size)
        ⊎ F
      → Yields H F
          (λ _ s'. Ready H cfg e k s'.meta)
          (cfs_write cfg os e (suc fuel) path buf size offset fi s)
  cfs_write_room-Yields k s r fits =
      cfs_write_then (λ s'. Ready H cfg e k s'.meta) s fits
        (λ mem s' same.
          cfs_cache_write-Yields H cfg e os F fuel k (aligned_size cfg.block_size size)
            (align_lower_offset cfg.block_size offset) (cfs_path_to_file_name path) mem fi s' h
            pos_b (rw same r))

  pub cfs_write-Yields :
      (s : Sys World e.Db)
      → Ready H cfg e (aligned_size cfg.block_size size / cfg.block_size) s.meta
      → (nas_read_size
            (aligned_size cfg.block_size size)
            (align_lower_offset cfg.block_size offset)
            (size_after cfg os path buf size offset fi s.world)
          ≤ aligned_size cfg.block_size size)
        ⊎ F
      → Yields H F
          (λ _ s'. Ready H cfg e 0 s'.meta)
          (cfs_write cfg os e (suc fuel) path buf size offset fi s)
  cfs_write-Yields s r fits =
      cfs_write_room-Yields 0 s (Ready-le H cfg e _ _ s.meta (omega arith) r) fits
