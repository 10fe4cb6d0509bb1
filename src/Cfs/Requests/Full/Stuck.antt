-- ===== src/Cfs/Requests/Full/Stuck.antt =====
-- Reads and writes with a full cache: a write never returns, and a read returns only if it caches
-- nothing.
use ece566_project.Prelude.{
  ℕ, ◌+◌, ◌-◌, ◌*◌, ◌/◌, ◌%◌, ◌≤◌, ◌≡◌, ◌≢◌, refl, ◌∙◌, inl, inr, Bool, Bool-cases, true, false,
  List, [], ◌∷◌, ◌==◌, arith, Name, length, take, drop,
}
use ece566_project.Prelude.Int.{ℤ, pos, word}
use ece566_project.Sql.{Statement}
use ece566_project.Sql.Engine.{Engine}
use ece566_project.Meta.{
  Meta, truthy, prepare, finalize, probe, is_blk_in_cache, check_blocks, are_blocks_in_cache,
}
use ece566_project.Posix.{Os, Sys, Syscall, log_error, log_keeps}
use ece566_project.Cfs.{Config, FileInfo}
use ece566_project.Cfs.Align.{align_lower_offset, aligned_size, offset_array}
use ece566_project.Cfs.Paths.{cfs_full_nas_path, cfs_path_to_file_name}
use ece566_project.Cfs.Attributes.{cfs_get_nas_attr}
use ece566_project.Cfs.Outcome.{Outcome, store, pure, ◌>>=◌}
use ece566_project.Cfs.Outcome.Yields.{Yields, Yields-bind}
use ece566_project.Cfs.CacheWrite.{cfs_cache_write}
use ece566_project.Cfs.CacheWrite.Space.{cfs_cache_write_hangs}
use ece566_project.Cfs.Read.{cfs_read, fetch, read_blocks, data_hit, copy_out}
use ece566_project.Cfs.Read.Total.{copy_out-Yields}
use ece566_project.Cfs.Read.Yields.{store-Yields}
use ece566_project.Cfs.Write.{cfs_write}

module _ (e : Engine) where
  probe-used : (q : Statement) (m : Meta e.Db) → (probe e q m).1.cache_used_size ≡ m.cache_used_size
  unfolding probe prepare finalize
  probe-used q m = ground arith

  check_blocks-used :
      (name : Name) (offs : List ℕ) (total : ℤ) (m : Meta e.Db)
      → (check_blocks e name offs total m).2.cache_used_size ≡ m.cache_used_size
  unfolding check_blocks is_blk_in_cache
  check_blocks-used name [] total m = refl
  check_blocks-used name (off ∷ offs) total m = check_blocks-used name offs _ _ ∙ probe-used _ m

module _ (cfg : Config) (os : Os) (e : Engine) (nonzero : cfg.block_size ≢ 0) (fuel : ℕ) where
  open os use {World}
  open cfg use {block_size}

  abbrev pub IsFull : Sys World e.Db → Type 0
  IsFull s = cfg.cache_size * 1024 % word ≤ s.meta.cache_used_size

  -- A computation that, if it is done, counts as many bytes as before.
  abbrev Keeps : {A : Type 0} → Sys World e.Db → Outcome (A × Sys World e.Db) → Type 0
  Keeps s o = Yields Unit Unit (λ _ s'. s'.meta.cache_used_size ≡ s.meta.cache_used_size) o

  cfs_cache_write_stuck :
      (name : Name) (buf : List ℕ) (size offset : ℕ) (fi : FileInfo) (s : Sys World e.Db)
      → IsFull s
      → Yields Unit Unit (λ _ _. ⊥) (cfs_cache_write cfg os e fuel name buf size offset fi s)
  cfs_cache_write_stuck name buf size offset fi s full =
      rw (cfs_cache_write_hangs cfg os e s fuel name buf size offset fi nonzero full) tt

  blocks_kept :
      (name : Name) (fi : FileInfo) (hits : List ℤ) (offs : List ℕ) (at : ℕ) (retstat : ℤ)
      (buf : List ℕ) (s : Sys World e.Db)
      → IsFull s
      → Keeps s (read_blocks cfg os e fuel name fi hits offs at retstat buf s)
  unfolding read_blocks
  blocks_kept name fi [] offs at retstat buf s full = refl
  blocks_kept name fi (hit ∷ hits) [] at retstat buf s full = refl
  blocks_kept name fi (hit ∷ hits) (off ∷ offs) at retstat buf s full =
      elim (Bool-cases (truthy hit)) [
        | inl there ↦ rw there (
            Yields-bind Unit Unit (store buf at _) _ _
              (λ buf' s'. (s' ≡ _) × (length buf' ≡ length buf)) _
              (store-Yields Unit Unit buf at _ _ (inr tt))
              (λ buf' s' q. rw q.0 (blocks_kept name fi hits offs (at + block_size) _ buf' _ full)))
        | inr missing ↦ rw missing (
            Yields-bind Unit Unit (store buf at _) _ _
              (λ buf' s'. (s' ≡ _) × (length buf' ≡ length buf)) _
              (store-Yields Unit Unit buf at _ _ (inr tt))
              (λ buf' s' q.
                Yields-bind Unit Unit
                  (cfs_cache_write cfg os e fuel name (drop at buf') block_size off fi) _ s'
                  (λ _ _. ⊥) _
                  (cfs_cache_write_stuck name (drop at buf') block_size off fi s' (rw q.0 full))
                  (λ _ _ never. absurd never)))
      ]

  fetch_kept :
      (name : Name) (fi : FileInfo) (hit : Bool) (hits : List ℤ) (lower size : ℕ) (buf : List ℕ)
      (s : Sys World e.Db)
      → IsFull s
      → Keeps s (fetch cfg os e fuel name fi hit hits lower size buf s)
  unfolding fetch
  fetch_kept name fi false hits lower size buf s full = blocks_kept name fi hits _ 0 _ buf s full
  fetch_kept name fi true hits lower size buf s full = rw log_keeps (
      Yields-bind Unit Unit (store buf 0 _) _ _ (λ buf' s'. (s' ≡ _) × (length buf' ≡ length buf)) _
        (store-Yields Unit Unit buf 0 _ _ (inr tt)) (λ buf' s' q. rw q.0 refl))

  data_hit_kept :
      (check : ℤ) (name : Name) (fi : FileInfo) (s : Sys World e.Db)
      → (data_hit cfg os e fuel name fi check s).1 ≡ s
  unfolding data_hit log_error
  data_hit_kept check name fi s = ground arith

  pub cfs_read_kept :
      (path : Name) (size offset : ℕ) (fi : FileInfo) (s : Sys World e.Db)
      → IsFull s
      → Keeps s (cfs_read cfg os e fuel path size offset fi s)
  unfolding cfs_read are_blocks_in_cache
  cfs_read_kept path size offset fi s full =
      let bs = cfg.block_size in
      let lower = align_lower_offset bs offset in
      let aligned = aligned_size bs size in
      let name = cfs_path_to_file_name path in
      let (total, hits, m) =
        check_blocks e name (offset_array bs lower (aligned / bs)) (pos 1) s.meta in
      let s1 : Sys World e.Db = record s { meta = m } in
      let used : m.cache_used_size ≡ s.meta.cache_used_size = check_blocks-used e name _ _ s.meta in
      let not_zero : (bs == 0) ≡ false = ground arith in
      rw (not_zero, data_hit_kept)
        (Yields-bind Unit Unit
          (fetch cfg os e fuel name fi _ hits lower aligned (os.malloc aligned s.world)) _ s1
          (λ _ s'. s'.meta.cache_used_size ≡ m.cache_used_size) _
          (fetch_kept name fi _ hits lower aligned (os.malloc aligned s.world) s1 (rw used full))
          (λ p s' q. last p.0 p.1 (offset - lower) s' (q ∙ used)))
    where
      last :
          (r : ℤ) (out : List ℕ) (start : ℕ) (s' : Sys World e.Db)
          → s'.meta.cache_used_size ≡ s.meta.cache_used_size
          → Keeps {A = ℤ × List ℕ} s ((copy_out out start size >>= λ buf. pure (r, buf)) s')
      last r out start s' q =
          Yields-bind Unit Unit (copy_out out start size) _ s'
            (λ out2 s2. (s2 ≡ s') × (length out2 ≡ size)) _
            (copy_out-Yields Unit Unit out start size s' (inr tt)) (λ out2 s2 k. rw k.0 q)

  -- A write to a full cache never returns.
  pub cfs_write_stuck :
      (path : Name) (buf : List ℕ) (size offset : ℕ) (fi : FileInfo) (s : Sys World e.Db)
      → IsFull s
      → Yields Unit Unit (λ _ _. ⊥) (cfs_write cfg os e fuel path buf size offset fi s)
  unfolding cfs_write cfs_get_nas_attr
  cfs_write_stuck path buf size offset fi s full =
      let bs = cfg.block_size in
      let lower = align_lower_offset bs offset in
      let aligned = aligned_size bs size in
      let name = cfs_path_to_file_name path in
      let not_zero : (bs == 0) ≡ false = ground arith in
      let w2 =
        (os.call (Syscall.lstat (cfs_full_nas_path cfg path))
          (os.call (Syscall.pwrite fi.fh.nas_fh (take size buf) offset) s.world).1).1 in
      let mem0 = os.malloc aligned w2 in
      rw (not_zero, log_keeps, log_keeps)
        (Yields-bind Unit Unit (store mem0 0 _) _ _
          (λ mem s'. (s' ≡ _) × (length mem ≡ length mem0)) _
          (store-Yields Unit Unit mem0 0 _ _ (inr tt))
          (λ mem s' q.
            Yields-bind Unit Unit (cfs_cache_write cfg os e fuel name mem aligned lower fi) _ s'
              (λ _ _. ⊥) _
              (cfs_cache_write_stuck name mem aligned lower fi s' (rw (q.0, log_keeps) full))
              (λ _ _ never. never)))
