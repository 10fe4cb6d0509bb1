-- ===== src/Cfs/Ends.antt =====
-- How the callbacks of src/cachefs.c that move data can end, whatever the system calls answer.
use ece566_project.Prelude.{
  ℕ, suc, ◌+◌, ◌-◌, ◌*◌, ◌/◌, ◌%◌, ◌≤◌, ◌<◌, ◌≡◌, ◌≢◌, refl, ◌⊎◌, ◌↔◌, inl, inr, List, arith, Name,
  length, take,
}
use ece566_project.Prelude.Int.{pos, word}
use ece566_project.Sql.Engine.{Engine, IsHealthy}
use ece566_project.Meta.{write_blks}
use ece566_project.Meta.Invariant.{IsValid}
use ece566_project.Posix.{Os, Sys, Syscall, issue, log_syscall}
use ece566_project.Cfs.{Config, FileInfo}
use ece566_project.Cfs.Align.{align_lower_offset, aligned_size, offset_array}
use ece566_project.Cfs.Align.Bounds.{aligned_range_short, align_lower_offset_lem}
use ece566_project.Cfs.Outcome.{Outcome}
use ece566_project.Cfs.Outcome.Yields.{Yields}
use ece566_project.Cfs.CacheWrite.{cfs_cache_write}
use ece566_project.Cfs.CacheWrite.Space.{wait_room, cfs_cache_write_hangs}
use ece566_project.Cfs.CacheWrite.Ready.{Ready}
use ece566_project.Cfs.Read.{cfs_read}
use ece566_project.Cfs.Read.Total.{cfs_read-Yields, cfs_read_beyond}
use ece566_project.Cfs.Read.Yields.{IsBounded}
use ece566_project.Cfs.Write.{cfs_write}
use ece566_project.Cfs.Write.Total.{nas_read_size_iff, cfs_write-Yields, size_after}
use native.Mathlib.Decide.{dec_lt}

module _ {S A : Type 0} (F : Type 0) (Q : A → S → Type 0) where
  no_hang : (o : Outcome (A × S)) → Yields ⊥ F Q o → o ≢ Outcome.hang
  no_hang (Outcome.done r) y h = cc
  no_hang Outcome.hang y h = y
  no_hang Outcome.fault y h = cc

module _ {S A : Type 0} (H : Type 0) (Q : A → S → Type 0) where
  no_fault : (o : Outcome (A × S)) → Yields H ⊥ Q o → o ≢ Outcome.fault
  no_fault (Outcome.done r) y h = cc
  no_fault Outcome.hang y h = cc
  no_fault Outcome.fault y h = y

only_fault :
    {S A : Type 0} (o : Outcome (A × S))
    → Yields ⊥ (Unit {0}) (λ (a : A) (s : S). ⊥) o
    → o ≡ Outcome.fault
only_fault (Outcome.done r) y = absurd y
only_fault Outcome.hang y = absurd y
only_fault Outcome.fault y = refl

module _ (cfg : Config) (os : Os) (e : Engine) (h : IsHealthy e) (pos_b : 0 < cfg.block_size)
    (fuel : ℕ) (path : Name) (fi : FileInfo) (s : Sys os.World e.Db) (v : IsValid e s.meta)
    (sizes : s.meta.meta_block_size ≡ cfg.block_size) where
  ready :
      {H : Type 0} (k : ℕ)
      → (cfg.block_size * (length (e.tables s.meta.db).blocks + k) < cfg.cache_size * 1024 % word)
        ⊎ H
      → Ready H cfg e k s.meta
  ready k room = record { valid = v; sizes = sizes; room = room }

  -- A read does not run for ever if the cache has room for all blocks of its range, whatever the
  -- system calls answer. The bookkeeping is valid before, for the block size of the mount, which
  -- is not 0, the engine does not fail, and `wait_for_space` has at least one round.
  pub cfs_read_ends :
      (size offset : ℕ)
      → cfg.block_size
          * (length (e.tables s.meta.db).blocks + aligned_size cfg.block_size size / cfg.block_size)
        < cfg.cache_size * 1024 % word
      → cfs_read cfg os e (suc fuel) path size offset fi s ≢ Outcome.hang
  cfs_read_ends size offset room = no_hang (Unit {0}) _ _ (
      cfs_read-Yields ⊥ (Unit {0}) cfg os e h (inr tt) pos_b fuel path size offset fi s
        (ready _ (inl room)) (inr tt))

  -- A read whose bytes lie inside its aligned range stays inside its buffers, whatever else the
  -- system calls answer, if `pread` gives no more bytes than it is asked for and `malloc` what it
  -- is asked for. The bookkeeping is valid before, for the block size of the mount, which is not
  -- 0, the engine does not fail, and `wait_for_space` has at least one round.
  pub cfs_read_no_fault :
      (size offset : ℕ)
      → IsBounded os
      → offset - align_lower_offset cfg.block_size offset + size ≤ aligned_size cfg.block_size size
      → cfs_read cfg os e (suc fuel) path size offset fi s ≢ Outcome.fault
  cfs_read_no_fault size offset b within = no_fault (Unit {0}) _ _ (
      cfs_read-Yields (Unit {0}) ⊥ cfg os e h (inl b) pos_b fuel path size offset fi s
        (ready _ (inr tt)) (inl within))

  -- A write does not run for ever if the cache has room for all blocks of its range, whatever the
  -- system calls answer. The bookkeeping is valid before, for the block size of the mount, which
  -- is not 0, the engine does not fail, and `wait_for_space` has at least one round.
  pub cfs_write_ends :
      (buf : List ℕ) (size offset : ℕ)
      → cfg.block_size
          * (length (e.tables s.meta.db).blocks + aligned_size cfg.block_size size / cfg.block_size)
        < cfg.cache_size * 1024 % word
      → cfs_write cfg os e (suc fuel) path buf size offset fi s ≢ Outcome.hang
  cfs_write_ends buf size offset room = no_hang (Unit {0}) _ _ (
      cfs_write-Yields ⊥ (Unit {0}) cfg os e h (inr tt) pos_b fuel path buf size offset fi s
        (ready _ (inl room)) (inr tt))

  -- A write stays inside its buffer if the NAS file, as `lstat` reports it once the bytes are
  -- written, reaches the first block of the range, and if `pread` gives no more bytes than it is
  -- asked for and `malloc` what it is asked for. The sizes fit a `size_t`, the bookkeeping is
  -- valid before, for the block size of the mount, which is not 0, the engine does not fail, and
  -- `wait_for_space` has at least one round.
  pub cfs_write_no_fault :
      (buf : List ℕ) (size offset : ℕ)
      → IsBounded os
      → aligned_size cfg.block_size size + align_lower_offset cfg.block_size offset < word
      → size_after cfg os path buf size offset fi s.world < word
      → align_lower_offset cfg.block_size offset ≤ size_after cfg os path buf size offset fi s.world
      → cfs_write cfg os e (suc fuel) path buf size offset fi s ≢ Outcome.fault
  cfs_write_no_fault buf size offset b small fits reaches = no_fault (Unit {0}) _ _ (
      cfs_write-Yields (Unit {0}) ⊥ cfg os e h (inl b) pos_b fuel path buf size offset fi s
        (ready _ (inr tt)) (inl ((nas_read_size_iff _ _ _ small fits).1 reaches)))

  -- A read of whole blocks that starts inside a block ends in undefined behaviour: it copies from
  -- beyond its buffer. `malloc` gives what it is asked for, the cache has room for the blocks of
  -- the range, the bookkeeping is valid before, for the block size of the mount, which is not 0,
  -- the engine does not fail, and `wait_for_space` has at least one round.
  pub cfs_read_overruns :
      (size offset : ℕ)
      → ((n : ℕ) (w : os.World) → length (os.malloc n w) ≡ n)
      → offset % cfg.block_size ≢ 0
      → size % cfg.block_size ≡ 0
      → cfg.block_size
          * (length (e.tables s.meta.db).blocks + aligned_size cfg.block_size size / cfg.block_size)
        < cfg.cache_size * 1024 % word
      → cfs_read cfg os e (suc fuel) path size offset fi s ≡ Outcome.fault
  cfs_read_overruns size offset malloc inside whole room =
      let lower = align_lower_offset_lem cfg.block_size offset pos_b in
      let short = aligned_range_short cfg.block_size offset size pos_b inside whole in
      only_fault _ (
        cfs_read_beyond ⊥ (Unit {0}) cfg os e h (inr tt) pos_b fuel path size offset fi s
          (ready _ (inl room))
          (omega (arith, lower, short, malloc (aligned_size cfg.block_size size) s.world)) tt)

-- A write to the cache ends exactly when fewer bytes are counted than the cache may hold, for a
-- block size that is not 0 and at least one round of the loop.
pub cfs_cache_write_ends_iff :
    (cfg : Config) (os : Os) (e : Engine) (s : Sys os.World e.Db) (fuel : ℕ) (name : Name)
    (buf : List ℕ) (size offset : ℕ) (fi : FileInfo)
    → cfg.block_size ≢ 0
    → (cfs_cache_write cfg os e (suc fuel) name buf size offset fi s ≢ Outcome.hang)
      ↔ (s.meta.cache_used_size < cfg.cache_size * 1024 % word)
unfolding cfs_cache_write
cfs_cache_write_ends_iff cfg os e s fuel name buf size offset fi nonzero =
    elim (dec_lt s.meta.cache_used_size (cfg.cache_size * 1024 % word)) [
      | yes room ↦
          let m =
            (write_blks e name (offset_array cfg.block_size offset (size / cfg.block_size))
              s.meta).1 in
          let r =
            issue os (Syscall.pwrite fi.fh.cache_fh (take size buf) offset)
              (record s { meta = m }) in
          let ended : cfs_cache_write cfg os e (suc fuel) name buf size offset fi s
              ≡ Outcome.done (log_syscall os r.0.value (pos 0) r.1) =
            ground (arith, wait_room cfg os e s fuel room) in
          (λ _. room, λ _ q. cc (ended, q))
      | no full ↦ (
        λ ends. absurd (
            ends (
              cfs_cache_write_hangs cfg os e s (suc fuel) name buf size offset fi nonzero
                (omega arith))),
        λ room. absurd (full room),
      )
    ]
