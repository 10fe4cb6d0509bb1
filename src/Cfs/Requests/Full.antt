-- ===== src/Cfs/Requests/Full.antt =====
-- CacheFS with a full cache: `wait_for_space` has nothing that makes room, so only the requests that
-- forget files do.
pub mod Stuck
use ece566_project.Prelude.{
  ℕ, zero, suc, ◌+◌, ◌-◌, ◌*◌, ◌/◌, ◌%◌, ◌≤◌, ◌≡◌, ◌≢◌, refl, ap, ◌∙◌, sym, inl, inr, Bool,
  Bool-cases, true, false, List, [], ◌∷◌, ◌==◌, arith, Name, length, take, drop,
}
use ece566_project.Prelude.Int.{ℤ, pos, word}
use ece566_project.Sql.{Statement}
use ece566_project.Sql.Engine.{Engine}
use ece566_project.Meta.{
  Meta, truthy, prepare, finalize, probe, is_blk_in_cache, check_blocks, are_blocks_in_cache,
}
use ece566_project.Posix.{Os, Sys, Syscall, log_error, log_keeps, issue}
use ece566_project.Cfs.{Config, FileInfo}
use ece566_project.Cfs.Align.{align_lower_offset, aligned_size, offset_array}
use ece566_project.Cfs.Paths.{cfs_full_nas_path, cfs_path_to_file_name}
use ece566_project.Cfs.Attributes.{cfs_get_nas_attr}
use ece566_project.Cfs.Outcome.{Outcome, store, lift, pure, ◌>>=◌}
use ece566_project.Cfs.Outcome.Yields.{Yields, Yields-bind}
use ece566_project.Cfs.CacheWrite.{cfs_cache_write}
use ece566_project.Cfs.CacheWrite.Space.{cfs_cache_write_hangs}
use ece566_project.Cfs.Read.{cfs_read, fetch, read_blocks, data_hit, copy_out}
use ece566_project.Cfs.Read.Total.{copy_out-Yields}
use ece566_project.Cfs.Read.Yields.{store-Yields}
use ece566_project.Cfs.Write.{cfs_write}
use ece566_project.Cfs.Requests.{Request, Response, dispatch}
use ece566_project.Cfs.Requests.Frame.{keeps_metadata, dispatch_frame}
use ece566_project.Cfs.Requests.Full.Stuck.{IsFull, cfs_read_kept, cfs_write_stuck}

-- A cached file can be forgotten by these two alone.
unfoldable pub forgets : {Buf : Type 0} → Request Buf → Bool
forgets (Request.unlink path) = true
forgets (Request.open_file path flags) = true
forgets _ = false

module _ (Buf : Type 0) (cfg : Config) (os : Os) (e : Engine) (have_fdatasync : Bool)
    (fuel : ℕ) where
  open os use {World}

  -- Requests that forget no file, with changes of the files from outside between them.
  pub data Lasts : Sys World e.Db → Sys World e.Db → Type 0 where
    here : {s : Sys World e.Db} → Lasts s s
    request :
        {s s' s'' : Sys World e.Db} (rq : Request Buf) (r : Response Buf)
        → forgets rq ≡ false
        → dispatch cfg os e have_fdatasync fuel rq s ≡ Outcome.done (r, s')
        → Lasts s' s''
        → Lasts s s''
    outside :
        {s s'' : Sys World e.Db} (w : World) → Lasts (record s { world = w }) s'' → Lasts s s''

module _ (Buf : Type 0) (cfg : Config) (os : Os) (e : Engine) (have_fdatasync : Bool) (fuel : ℕ)
    (nonzero : cfg.block_size ≢ 0) where
  open os use {World}

  framed_kept :
      (rq : Request Buf) (s : Sys World e.Db)
      → keeps_metadata rq ≡ true
      → Yields Unit Unit
          (λ _ s'. s'.meta.cache_used_size ≡ s.meta.cache_used_size)
          (dispatch cfg os e have_fdatasync fuel rq s)
  framed_kept rq s k =
      let (r, s', ended, kept) = dispatch_frame cfg os e have_fdatasync fuel rq s k in
      rw (ended, kept) refl

  dispatch_kept :
      (rq : Request Buf) (s : Sys World e.Db)
      → forgets rq ≡ false
      → IsFull cfg os e nonzero fuel s
      → Yields Unit Unit
          (λ _ s'. s'.meta.cache_used_size ≡ s.meta.cache_used_size)
          (dispatch cfg os e have_fdatasync fuel rq s)
  unfolding dispatch keeps_metadata forgets
  dispatch_kept (Request.unlink path) s k full = absurd (cc)
  dispatch_kept (Request.open_file path flags) s k full = absurd (cc)
  dispatch_kept (Request.read path size offset fi) s k full =
      Yields-bind Unit Unit (cfs_read cfg os e fuel path size offset fi) _ s
        (λ _ s'. s'.meta.cache_used_size ≡ s.meta.cache_used_size) _
        (cfs_read_kept cfg os e nonzero fuel path size offset fi s full) (λ p s' q. q)
  dispatch_kept (Request.write path buf size offset fi) s k full =
      Yields-bind Unit Unit (cfs_write cfg os e fuel path buf size offset fi) _ s (λ _ _. ⊥) _
        (cfs_write_stuck cfg os e nonzero fuel path buf size offset fi s full)
        (λ p s' never. absurd never)
  dispatch_kept rq s k full = framed_kept rq s refl

  -- The counter of a full cache does not move.
  full_stays :
      (s s' : Sys World e.Db)
      → Lasts Buf cfg os e have_fdatasync fuel s s'
      → IsFull cfg os e nonzero fuel s
      → s'.meta.cache_used_size ≡ s.meta.cache_used_size
  full_stays s s' Lasts.here full = refl
  full_stays s s' (Lasts.request rq r k ended rest) full =
      let step = rw ended at (dispatch_kept rq s k full) in
      full_stays _ s' rest (rw step full) ∙ step
  full_stays s s' (Lasts.outside w rest) full = full_stays _ s' rest full

  -- Once the cache is full it stays so, and no write returns, through any sequence of requests
  -- that end, other than unlink and open, and of changes of the files from outside, whatever the
  -- system calls and the database answer and however many rounds the loop makes. The block size is
  -- not 0.
  pub full_blocks_writes :
      (s s' : Sys World e.Db) (path : Name) (buf : List ℕ) (size offset : ℕ) (fi : FileInfo) (r : ℤ)
      (t : Sys World e.Db)
      → cfg.cache_size * 1024 % word ≤ s.meta.cache_used_size
      → Lasts Buf cfg os e have_fdatasync fuel s s'
      → (s'.meta.cache_used_size ≡ s.meta.cache_used_size)
        × (cfs_write cfg os e fuel path buf size offset fi s' ≢ Outcome.done (r, t))
  full_blocks_writes s s' path buf size offset fi r t full lasts =
      let kept = full_stays s s' lasts full in
      let stuck = cfs_write_stuck cfg os e nonzero fuel path buf size offset fi s' (rw kept full) in
      (kept, λ ended. rw ended at stuck)
