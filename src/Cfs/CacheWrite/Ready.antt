-- ===== src/Cfs/CacheWrite/Ready.antt =====
-- What `cfs_cacheWrite` needs of the state and keeps, whatever the system calls answer. `H` is what
-- excuses a loop that does not end.
use ece566_project.Prelude.{
  ℕ, suc, ◌+◌, ◌-◌, ◌*◌, ◌/◌, ◌%◌, ◌≤◌, ◌<◌, ◌≡◌, refl, ◌∙◌, ◌⊎◌, inl, inr, false, List, arith,
  ◌==◌, Name, length,
}
use ece566_project.Prelude.Int.{word}
use ece566_project.Sql.Engine.{Engine, IsHealthy}
use ece566_project.Meta.{Meta, write_blks}
use ece566_project.Meta.Invariant.{IsValid, write_blks-IsValid}
use ece566_project.Meta.Growth.{Grows, write_blks-Grows}
use ece566_project.Posix.{Os, Sys, log_keeps}
use ece566_project.Cfs.{Config, FileInfo}
use ece566_project.Cfs.Align.{offset_array}
use ece566_project.Cfs.Align.Bounds.{length-offset_array}
use ece566_project.Cfs.Outcome.Yields.{Yields, Yields-bind}
use ece566_project.Cfs.CacheWrite.{cfs_cache_write, wait_for_space}
use ece566_project.Cfs.CacheWrite.Space.{wait_room, wait_full}
use native.Mathlib.Nat.{mul-le-mul_left}
use native.Mathlib.Decide.{dec_lt}

-- The metadata is valid for the block size of the mount, and has room for `k` more blocks.
pub record Ready (H : Type 0) (cfg : Config) (e : Engine) (k : ℕ) (m : Meta e.Db) : Type 0 where
  pub valid : IsValid e m
  pub sizes : m.meta_block_size ≡ cfg.block_size
  pub room :
      (cfg.block_size * (length (e.tables m.db).blocks + k) < cfg.cache_size * 1024 % word) ⊎ H

pub shrink_room :
    (b n n' k j limit : ℕ) → n' ≤ n + j → b * (n + (k + j)) < limit → b * (n' + k) < limit
shrink_room b n n' k j limit h r =
    let le : b * (n' + k) ≤ b * (n + (k + j)) = mul-le-mul_left b (omega arith) in omega arith

module _ (H : Type 0) (cfg : Config) (e : Engine) where
  counter_room :
      (k : ℕ) (m : Meta e.Db)
      → IsValid e m
      → m.meta_block_size ≡ cfg.block_size
      → cfg.block_size * (length (e.tables m.db).blocks + k) < cfg.cache_size * 1024 % word
      → m.cache_used_size < cfg.cache_size * 1024 % word
  counter_room k m v sizes r =
      let n = length (e.tables m.db).blocks in
      let used : m.cache_used_size ≡ (cfg.block_size * n) % word = rw (← sizes) v.counted in
      let le : cfg.block_size * n ≤ cfg.block_size * (n + k) =
        mul-le-mul_left cfg.block_size (omega arith) in
      omega (arith, used)

  -- An operation that adds at most `j` blocks uses up the room of `j`.
  pub Grows-Ready :
      (k j : ℕ) (m m' : Meta e.Db)
      → IsValid e m'
      → Grows e j m m'
      → Ready H cfg e (k + j) m
      → Ready H cfg e k m'
  Grows-Ready k j m m' v g r = record {
    valid = v;
    sizes = g.meta_block_size ∙ r.sizes;
    room = elim r.room [
      | inl here ↦ inl (shrink_room cfg.block_size _ _ k j _ g.blocks here)
      | inr excuse ↦ inr excuse
    ];
  }

  pub Ready-le : (k n : ℕ) (m : Meta e.Db) → k ≤ n → Ready H cfg e n m → Ready H cfg e k m
  Ready-le k n m le r =
      let split : n ≡ k + (n - k) = omega arith in
      Grows-Ready k (n - k) m m r.valid (record { meta_block_size = refl; blocks = omega arith })
        (rw split at r)

  module _ (os : Os) where
    open os use {World}

    -- The wait leaves the state as it is.
    pub wait-Yields :
        (F : Type 0) (fuel k : ℕ) (s : Sys World e.Db)
        → Ready H cfg e k s.meta
        → Yields H F (λ _ s'. s' ≡ s) (wait_for_space cfg os e (suc fuel) s)
    wait-Yields F fuel k s r = elim (dec_lt s.meta.cache_used_size (cfg.cache_size * 1024 % word)) [
      | yes here ↦ rw (wait_room cfg os e s fuel here) refl
      | no full ↦ elim r.room [
        | inl room ↦ absurd (full (counter_room k s.meta r.valid r.sizes room))
        | inr excuse ↦ rw (wait_full cfg os e s (suc fuel) (omega arith)) excuse
      ]
    ]

    -- Writing to the cache ends if it has room for the blocks, has no undefined behaviour, and leaves
    -- that much less room, whatever `pwrite` answers.
    pub cfs_cache_write-Yields :
        (F : Type 0) (fuel k size offset : ℕ) (name : Name) (buf : List ℕ) (fi : FileInfo)
        (s : Sys World e.Db)
        → IsHealthy e
        → 0 < cfg.block_size
        → Ready H cfg e (k + size / cfg.block_size) s.meta
        → Yields H F
            (λ _ s'. Ready H cfg e k s'.meta)
            (cfs_cache_write cfg os e (suc fuel) name buf size offset fi s)
    unfolding cfs_cache_write
    cfs_cache_write-Yields F fuel k size offset name buf fi s h pos_b r =
        let n = size / cfg.block_size in
        let offs = offset_array cfg.block_size offset n in
        let nonzero : (cfg.block_size == 0) ≡ false = ground arith in
        let g : Grows e n s.meta (write_blks e name offs s.meta).1 =
          rw length-offset_array at (write_blks-Grows e h name offs s.meta r.valid) in
        let after =
          Grows-Ready k n s.meta (write_blks e name offs s.meta).1
            (write_blks-IsValid e h name offs s.meta r.valid) g r in
        rw nonzero (
          Yields-bind H F (wait_for_space cfg os e (suc fuel)) _ s (λ _ s'. s' ≡ s) _
            (wait-Yields F fuel (k + n) s r) (λ _ s' same. rw (same, log_keeps) after))
