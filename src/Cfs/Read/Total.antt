-- ===== src/Cfs/Read/Total.antt =====
-- `cfs_read` whatever the system calls answer: it ends if the cache has room, it has no undefined
-- behaviour if the answers are no longer than asked for, and it keeps the metadata valid.
use ece566_project.Prelude.{
  ℕ, suc, ◌+◌, ◌-◌, ◌/◌, ◌≤◌, ◌<◌, ◌≡◌, refl, ◌⊎◌, inl, inr, true, false, List, arith, ◌==◌, leb,
  Name, length,
}
use ece566_project.Prelude.Int.{ℤ}
use ece566_project.Sql.Engine.{Engine, IsHealthy}
use ece566_project.Meta.{Meta, are_blocks_in_cache}
use ece566_project.Meta.Invariant.{are_blocks_in_cache-IsValid}
use ece566_project.Meta.Growth.{are_blocks_in_cache-Grows}
use ece566_project.Posix.{Os, Sys, log_error}
use ece566_project.Cfs.{Config, FileInfo}
use ece566_project.Cfs.Paths.{cfs_path_to_file_name}
use ece566_project.Cfs.Align.{offset_array, align_lower_offset, aligned_size}
use ece566_project.Cfs.Bytes.{length-slice}
use ece566_project.Cfs.Outcome.{pure, ◌>>=◌}
use ece566_project.Cfs.Outcome.Yields.{Yields, Yields-bind}
use ece566_project.Cfs.CacheWrite.Ready.{Ready, Ready-le, Grows-Ready}
use ece566_project.Cfs.Read.{cfs_read, fetch, data_hit, copy_out}
use native.Mathlib.Decide.{dec_le}
use ece566_project.Cfs.Read.Yields.{IsBounded, fetch-Yields}

pub copy_out-Yields :
    {S : Type 0} (H F : Type 0) (buf : List ℕ) (start size : ℕ) (s : S)
    → (start + size ≤ length buf) ⊎ F
    → Yields H F (λ out s'. (s' ≡ s) × (length out ≡ size)) (copy_out buf start size s)
unfolding copy_out
copy_out-Yields H F buf start size s fits = elim (dec_le (start + size) (length buf)) [
  | yes le ↦
      let t : leb (start + size) (length buf) ≡ true = ground arith in
      rw t (refl, length-slice size start buf le)
  | no gt ↦
      let f : leb (start + size) (length buf) ≡ false = ground arith in
      rw f (elim fits [ inl le ↦ absurd (gt le) | inr excuse ↦ excuse ])
]

module _ (H F : Type 0) (cfg : Config) (os : Os) (e : Engine) (h : IsHealthy e)
    (bounded : IsBounded os ⊎ F) (pos_b : 0 < cfg.block_size) (fuel : ℕ) (path : Name)
    (size offset : ℕ) (fi : FileInfo) where
  open os use {World}

  -- The state after the blocks were looked up.
  looked_up-Ready :
      (k : ℕ) (name : Name) (offs : List ℕ) (m : Meta e.Db)
      → Ready H cfg e k m
      → Ready H cfg e k (are_blocks_in_cache e name offs m).2
  looked_up-Ready k name offs m r =
      Grows-Ready H cfg e k 0 m (are_blocks_in_cache e name offs m).2
        (are_blocks_in_cache-IsValid e h name offs m r.valid)
        (are_blocks_in_cache-Grows e h name offs m r.valid)
        (Ready-le H cfg e (k + 0) k m (omega arith) r)

  data_hit-state :
      (data_check : ℤ) (name : Name) (s : Sys World e.Db)
      → (data_hit cfg os e (suc fuel) name fi data_check s).1 ≡ s
  unfolding data_hit log_error
  data_hit-state data_check name s = ground arith

  -- `cfs_read` is what its last step makes of a buffer of the aligned size.
  cfs_read_then :
      (R : ℤ × List ℕ → Sys World e.Db → Type 0) (s : Sys World e.Db)
      → Ready H cfg e (aligned_size cfg.block_size size / cfg.block_size) s.meta
      → ((retstat : ℤ) (out : List ℕ) (s' : Sys World e.Db)
          → Ready H cfg e 0 s'.meta
          → length out ≡ length (os.malloc (aligned_size cfg.block_size size) s.world)
          → Yields H F R (
              (copy_out out (offset - align_lower_offset cfg.block_size offset) size >>= λ buf.
              pure (retstat, buf))
                s'))
      → Yields H F R (cfs_read cfg os e (suc fuel) path size offset fi s)
  unfolding cfs_read
  cfs_read_then R s r last =
      let bs = cfg.block_size in
      let lower = align_lower_offset bs offset in
      let aligned = aligned_size bs size in
      let name = cfs_path_to_file_name path in
      let offs = offset_array bs lower (aligned / bs) in
      let (total, hits, m) = are_blocks_in_cache e name offs s.meta in
      let s1 : Sys World e.Db = record s { meta = m } in
      let buf = os.malloc aligned s.world in
      let nonzero : (bs == 0) ≡ false = ground arith in
      let ready = looked_up-Ready (aligned / bs) name offs s.meta r in
      rw (nonzero, data_hit-state)
        (Yields-bind H F (fetch cfg os e (suc fuel) name fi _ hits lower aligned buf) _ s1
          (λ p s'. Ready H cfg e 0 s'.meta × (length p.1 ≡ length buf)) R
          (fetch-Yields H F cfg os e h bounded pos_b fuel name fi _ hits lower aligned buf s1 ready
            (allocated aligned s.world))
          (λ p s' q. last p.0 p.1 s' q.0 q.1))
    where
      allocated : (n : ℕ) (w : World) → (n ≤ length (os.malloc n w)) ⊎ F
      allocated n w = elim bounded [
        | inl b ↦ inl (omega (arith, b.malloc n w))
        | inr excuse ↦ inr excuse
      ]

  pub cfs_read-Yields :
      (s : Sys World e.Db)
      → Ready H cfg e (aligned_size cfg.block_size size / cfg.block_size) s.meta
      → (offset - align_lower_offset cfg.block_size offset + size
          ≤ aligned_size cfg.block_size size)
        ⊎ F
      → Yields H F
          (λ p s'. Ready H cfg e 0 s'.meta × (length p.1 ≡ size))
          (cfs_read cfg os e (suc fuel) path size offset fi s)
  cfs_read-Yields s r fits = cfs_read_then _ s r (λ retstat out s' ready len.
      Yields-bind H F (copy_out out _ size) _ s' (λ out2 s2. (s2 ≡ s') × (length out2 ≡ size)) _
        (copy_out-Yields H F out _ size s' (within out len)) (λ out2 s2 q. (rw q.0 ready, q.1)))
    where
      within :
          (out : List ℕ)
          → length out ≡ length (os.malloc (aligned_size cfg.block_size size) s.world)
          → (offset - align_lower_offset cfg.block_size offset + size ≤ length out) ⊎ F
      within out len = elim bounded [
        | inl b ↦ elim fits [
          | inl le ↦ inl (omega (arith, len, b.malloc (aligned_size cfg.block_size size) s.world))
          | inr excuse ↦ inr excuse
        ]
        | inr excuse ↦ inr excuse
      ]

  -- Beyond the buffer the copy is undefined, so the read does not return.
  pub cfs_read_beyond :
      (s : Sys World e.Db)
      → Ready H cfg e (aligned_size cfg.block_size size / cfg.block_size) s.meta
      → length (os.malloc (aligned_size cfg.block_size size) s.world)
        < offset - align_lower_offset cfg.block_size offset + size
      → F
      → Yields H F (λ _ _. ⊥) (cfs_read cfg os e (suc fuel) path size offset fi s)
  unfolding copy_out
  cfs_read_beyond s r beyond excuse = cfs_read_then _ s r (λ retstat out s' ready len.
      let f : leb (offset - align_lower_offset cfg.block_size offset + size) (length out) ≡ false =
        ground arith in
      rw f excuse)
