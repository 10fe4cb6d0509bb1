-- ===== src/Cfs/Read/Yields.antt =====
-- The loop of `cfs_read`, and its single read of cached blocks, whatever the system calls answer.
use ece566_project.Prelude.{
  ℕ, suc, ◌+◌, ◌*◌, ◌/◌, ◌≤◌, ◌<◌, ◌≡◌, refl, ◌⊎◌, inl, inr, Bool, true, false, List, [], ◌∷◌,
  arith, leb, Name, length, drop, Bool-cases,
}
use ece566_project.Prelude.Int.{ℤ, pos}
use ece566_project.Sql.Engine.{Engine, IsHealthy}
use ece566_project.Meta.{truthy}
use ece566_project.Posix.{Os, Sys, Syscall, log_keeps}
use ece566_project.Cfs.{Config, FileInfo}
use ece566_project.Cfs.Align.{offset_array}
use ece566_project.Cfs.Align.Bounds.{length-offset_array}
use ece566_project.Cfs.Bytes.{length-overwrite}
use ece566_project.Cfs.Outcome.{store}
use ece566_project.Cfs.Outcome.Yields.{Yields, Yields-bind}
use ece566_project.Cfs.CacheWrite.{cfs_cache_write}
use ece566_project.Cfs.CacheWrite.Ready.{Ready, Ready-le, cfs_cache_write-Yields}
use ece566_project.Cfs.Read.{fetch, read_blocks}
use native.Mathlib.Decide.{dec_le}
use native.Mathlib.Nat.{div_self, div-add-mod}

-- `pread` never answers with more bytes than it was asked for, and `malloc` gives what it was asked
-- for. Any call may still fail, and any read may be short.
pub record IsBounded (os : Os) : Type 0 where
  pub pread :
      (fd : ℤ) (n off : ℕ) (w : os.World) → length (os.call (Syscall.pread fd n off) w).0.bytes ≤ n
  pub malloc : (n : ℕ) (w : os.World) → length (os.malloc n w) ≡ n

pub store-Yields :
    {S : Type 0} (H F : Type 0) (buf : List ℕ) (at : ℕ) (bytes : List ℕ) (s : S)
    → (at + length bytes ≤ length buf) ⊎ F
    → Yields H F (λ buf' s'. (s' ≡ s) × (length buf' ≡ length buf)) (store buf at bytes s)
store-Yields H F buf at bytes s fits = elim (dec_le (at + length bytes) (length buf)) [
  | yes le ↦
      let t : leb (at + length bytes) (length buf) ≡ true = ground arith in
      rw t (refl, length-overwrite buf at bytes le)
  | no gt ↦
      let f : leb (at + length bytes) (length buf) ≡ false = ground arith in
      rw f (elim fits [ inl le ↦ absurd (gt le) | inr excuse ↦ excuse ])
]

module _ (H F : Type 0) (cfg : Config) (os : Os) (e : Engine) (h : IsHealthy e)
    (bounded : IsBounded os ⊎ F) (pos_b : 0 < cfg.block_size) (fuel : ℕ) (name : Name)
    (fi : FileInfo) where
  open os use {World}
  open cfg use {block_size}

  -- What `pread` answered is stored where the buffer has room for what was asked.
  pread_fits :
      (fd : ℤ) (n off at : ℕ) (buf : List ℕ) (w : World)
      → (at + n ≤ length buf) ⊎ F
      → (at + length (os.call (Syscall.pread fd n off) w).0.bytes ≤ length buf) ⊎ F
  pread_fits fd n off at buf w (inr excuse) = inr excuse
  pread_fits fd n off at buf w (inl fits) = elim bounded [
    | inl b ↦ inl (omega (arith, b.pread fd n off w))
    | inr excuse ↦ inr excuse
  ]

  one_block :
      (at n : ℕ) (buf : List ℕ)
      → (at + block_size * suc n ≤ length buf) ⊎ F
      → (at + block_size ≤ length buf) ⊎ F
  one_block at n buf (inr excuse) = inr excuse
  one_block at n buf (inl fits) =
      let e : block_size * suc n ≡ block_size + block_size * n = omega arith in inl (omega arith)

  other_blocks :
      (at n : ℕ) (buf : List ℕ)
      → (at + block_size * suc n ≤ length buf) ⊎ F
      → (at + block_size + block_size * n ≤ length buf) ⊎ F
  other_blocks at n buf (inr excuse) = inr excuse
  other_blocks at n buf (inl fits) =
      let e : block_size * suc n ≡ block_size + block_size * n = omega arith in inl (omega arith)

  blocks_yield :
      (hits : List ℤ) (offs : List ℕ) (at : ℕ) (retstat : ℤ) (buf : List ℕ) (s : Sys World e.Db)
      → Ready H cfg e (length offs) s.meta
      → (at + block_size * length offs ≤ length buf) ⊎ F
      → Yields H F
          (λ p s'. Ready H cfg e 0 s'.meta × (length p.1 ≡ length buf))
          (read_blocks cfg os e (suc fuel) name fi hits offs at retstat buf s)
  unfolding read_blocks
  blocks_yield [] offs at retstat buf s r fits = (Ready-le H cfg e 0 _ s.meta (omega arith) r, refl)
  blocks_yield (hit ∷ hits) [] at retstat buf s r fits = (r, refl)
  blocks_yield (hit ∷ hits) (off ∷ offs) at retstat buf s r fits =
      let n = length offs in
      let here : (at + block_size ≤ length buf) ⊎ F = one_block at n buf fits in
      elim (Bool-cases (truthy hit)) [
        | inl cached ↦ rw cached (
            Yields-bind H F (store buf at _) _ _ (λ buf' s'. (s' ≡ _) × (length buf' ≡ length buf))
              _
              (store-Yields H F buf at _ _
                (pread_fits fi.fh.cache_fh block_size off at buf s.world here))
              (λ buf' s' q. rw (← q.1) (
                blocks_yield hits offs (at + block_size) _ buf' s'
                  (rw q.0 (Ready-le H cfg e n (suc n) s.meta (omega arith) r))
                  (rw q.1 (other_blocks at n buf fits)))))
        | inr missing ↦ rw missing (
            Yields-bind H F (store buf at _) _ _ (λ buf' s'. (s' ≡ _) × (length buf' ≡ length buf))
              _
              (store-Yields H F buf at _ _
                (pread_fits fi.fh.nas_fh block_size off at buf s.world here))
              (λ buf' s' q.
                Yields-bind H F
                  (cfs_cache_write cfg os e (suc fuel) name (drop at buf') block_size off fi) _ s'
                  (λ _ s2. Ready H cfg e n s2.meta) _
                  (cfs_cache_write-Yields H cfg e os F fuel n block_size off name (drop at buf') fi
                    s' h pos_b
                    (rw (q.0, div_self pos_b)
                      (Ready-le H cfg e (n + 1) (suc n) s.meta (omega arith) r)))
                  (λ _ s2 r2. rw (← q.1) (
                    blocks_yield hits offs (at + block_size) _ buf' s2 r2
                      (rw q.1 (other_blocks at n buf fits))))))
      ]

  pub fetch-Yields :
      (hit : Bool) (hits : List ℤ) (lower size : ℕ) (buf : List ℕ) (s : Sys World e.Db)
      → Ready H cfg e (size / block_size) s.meta
      → (size ≤ length buf) ⊎ F
      → Yields H F
          (λ p s'. Ready H cfg e 0 s'.meta × (length p.1 ≡ length buf))
          (fetch cfg os e (suc fuel) name fi hit hits lower size buf s)
  unfolding fetch
  fetch-Yields true hits lower size buf s r fits =
      Yields-bind H F (store buf 0 _) _ _ (λ buf' s'. (s' ≡ _) × (length buf' ≡ length buf)) _
        (store-Yields H F buf 0 _ _
          (pread_fits fi.fh.cache_fh size lower 0 buf s.world (from_start fits)))
        (λ buf' s' q. (rw (q.0, log_keeps) (Ready-le H cfg e 0 _ s.meta (omega arith) r), q.1))
    where
      from_start : (size ≤ length buf) ⊎ F → (0 + size ≤ length buf) ⊎ F
      from_start (inl le) = inl (omega arith)
      from_start (inr excuse) = inr excuse
  fetch-Yields false hits lower size buf s r fits =
      blocks_yield hits (offset_array block_size lower (size / block_size)) 0 (pos 0) buf s
        (rw length-offset_array r) (rw length-offset_array (whole_blocks fits))
    where
      whole_blocks :
          (size ≤ length buf) ⊎ F → (0 + block_size * (size / block_size) ≤ length buf) ⊎ F
      whole_blocks (inl le) = inl (omega (arith, div-add-mod size block_size))
      whole_blocks (inr excuse) = inr excuse
