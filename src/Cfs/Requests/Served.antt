-- ===== src/Cfs/Requests/Served.antt =====
-- CacheFS at work: FUSE makes requests one after the other, and the files on the NAS and in the
-- cache directory can change between them.
use ece566_project.Prelude.{ℕ, suc, ◌<◌, ◌≡◌, refl, ◌∙◌, inr, Bool, true, length}
use ece566_project.Sql.Engine.{Engine, IsHealthy}
use ece566_project.Meta.{Meta}
use ece566_project.Sql.Cached.{known}
use ece566_project.Cfs.Paths.{cfs_path_to_file_name}
use ece566_project.Meta.Invariant.{IsValid}
use ece566_project.Posix.{Os, Sys}
use ece566_project.Cfs.{Config}
use ece566_project.Cfs.Open.Missing.{cfs_unlink-IsValid, cfs_unlink-block_size}
use ece566_project.Cfs.Open.Cached.{cfs_open-IsValid, cfs_open-block_size}
use ece566_project.Cfs.Outcome.{Outcome}
use ece566_project.Cfs.Outcome.Yields.{Yields, Yields-bind}
use ece566_project.Cfs.CacheWrite.Ready.{Ready}
use ece566_project.Cfs.Read.{cfs_read}
use ece566_project.Cfs.Read.Total.{cfs_read-Yields}
use ece566_project.Cfs.Write.{cfs_write}
use ece566_project.Cfs.Write.Total.{cfs_write-Yields}
use ece566_project.Cfs.Requests.{Request, Response, dispatch}
use ece566_project.Cfs.Requests.Frame.{keeps_metadata, dispatch_frame}

-- The bookkeeping is valid, for the block size of the mount.
pub record Mounted (cfg : Config) (e : Engine) (m : Meta e.Db) : Type 0 where
  pub valid : IsValid e m
  pub sizes : m.meta_block_size ≡ cfg.block_size

module _ (cfg : Config) (e : Engine) where
  Ready-Mounted : (m : Meta e.Db) → Ready Unit cfg e 0 m → Mounted cfg e m
  Ready-Mounted m r = record { valid = r.valid; sizes = r.sizes }

  Mounted-Ready : (k : ℕ) (m : Meta e.Db) → Mounted cfg e m → Ready Unit cfg e k m
  Mounted-Ready k m i = record { valid = i.valid; sizes = i.sizes; room = inr tt }

-- SQLite leaves open what `delete_file` reads as the size of a file that is not in the cache, and
-- `cfs_unlink` calls it for any: the behaviour is defined for one that is.
unfoldable pub UnlinksKnown : {Buf W : Type 0} (e : Engine) → Request Buf → Sys W e.Db → Type 0
UnlinksKnown e (Request.unlink path) s =
    known (e.tables s.meta.db) (cfs_path_to_file_name path) ≡ true
UnlinksKnown e _ s = Unit

module _ (Buf : Type 0) (cfg : Config) (os : Os) (e : Engine) (have_fdatasync : Bool)
    (fuel : ℕ) where
  open os use {World}

  -- One request, or a change of the files from outside.
  pub data Step : Sys World e.Db → Sys World e.Db → Type 0 where
    request :
        {s s' : Sys World e.Db} (rq : Request Buf) (r : Response Buf)
        → dispatch cfg os e have_fdatasync fuel rq s ≡ Outcome.done (r, s')
        → Step s s'
    outside : {s : Sys World e.Db} (w : World) → Step s (record s { world = w })

  pub data Reach : Sys World e.Db → Sys World e.Db → Type 0 where
    here : {s : Sys World e.Db} → Reach s s
    next : {s s' s'' : Sys World e.Db} → Step s s' → Reach s' s'' → Reach s s''

  unfoldable pub IsKnownStep : {s s' : Sys World e.Db} → Step s s' → Type 0
  IsKnownStep (Step.request {s} rq r ended) = UnlinksKnown e rq s
  IsKnownStep (Step.outside w) = Unit

  -- Each file that is unlinked in a run is in the cache then.
  unfoldable pub IsKnownRun : {s s' : Sys World e.Db} → Reach s s' → Type 0
  IsKnownRun Reach.here = Unit
  IsKnownRun (Reach.next step rest) = IsKnownStep step × IsKnownRun rest

module _ (Buf : Type 0) (cfg : Config) (os : Os) (e : Engine) (have_fdatasync : Bool) (fuel : ℕ)
    (h : IsHealthy e) (pos_b : 0 < cfg.block_size) where
  open os use {World}

  Ends : Outcome (Response Buf × Sys World e.Db) → Type 0
  Ends o = Yields Unit Unit (λ r s'. Mounted cfg e s'.meta) o

  framed :
      (rq : Request Buf) (s : Sys World e.Db)
      → Mounted cfg e s.meta
      → keeps_metadata rq ≡ true
      → Ends (dispatch cfg os e have_fdatasync (suc fuel) rq s)
  unfolding Ends
  framed rq s i k =
      let (r, s', ended, kept) = dispatch_frame cfg os e have_fdatasync (suc fuel) rq s k in
      rw (ended, kept) i

  -- Every request that is defined and ends keeps the bookkeeping valid.
  dispatch-Mounted :
      (rq : Request Buf) (s : Sys World e.Db)
      → Mounted cfg e s.meta
      → UnlinksKnown e rq s
      → Ends (dispatch cfg os e have_fdatasync (suc fuel) rq s)
  unfolding UnlinksKnown dispatch Ends keeps_metadata
  dispatch-Mounted (Request.unlink path) s i d = record {
    valid = cfs_unlink-IsValid cfg os e h path s i.valid d;
    sizes = cfs_unlink-block_size cfg os e h path s i.valid ∙ i.sizes;
  }
  dispatch-Mounted (Request.open_file path flags) s i d = record {
    valid = cfs_open-IsValid cfg os e h path s i.valid flags;
    sizes = cfs_open-block_size cfg os e h path s i.valid flags ∙ i.sizes;
  }
  dispatch-Mounted (Request.read path size offset fi) s i d =
      Yields-bind Unit Unit (cfs_read cfg os e (suc fuel) path size offset fi) _ s
        (λ p s'. Ready Unit cfg e 0 s'.meta × (length p.1 ≡ size)) _
        (cfs_read-Yields Unit Unit cfg os e h (inr tt) pos_b fuel path size offset fi s
          (Mounted-Ready cfg e _ s.meta i) (inr tt))
        (λ p s' q. Ready-Mounted cfg e s'.meta q.0)
  dispatch-Mounted (Request.write path buf size offset fi) s i d =
      Yields-bind Unit Unit (cfs_write cfg os e (suc fuel) path buf size offset fi) _ s
        (λ _ s'. Ready Unit cfg e 0 s'.meta) _
        (cfs_write-Yields Unit Unit cfg os e h (inr tt) pos_b fuel path buf size offset fi s
          (Mounted-Ready cfg e _ s.meta i) (inr tt))
        (λ p s' q. Ready-Mounted cfg e s'.meta q)
  dispatch-Mounted rq s i d = framed rq s i refl

  Step-Mounted :
      (s s' : Sys World e.Db)
      → (step : Step Buf cfg os e have_fdatasync (suc fuel) s s')
      → IsKnownStep Buf cfg os e have_fdatasync (suc fuel) step
      → Mounted cfg e s.meta
      → Mounted cfg e s'.meta
  unfolding Ends IsKnownStep
  Step-Mounted s s' (Step.request rq r ended) d i = rw ended at (dispatch-Mounted rq s i d)
  Step-Mounted s s' (Step.outside w) d i = i

  -- Whatever else is requested, and whatever changes outside, valid bookkeeping stays valid.
  pub Reach-Mounted :
      (s s' : Sys World e.Db)
      → (run : Reach Buf cfg os e have_fdatasync (suc fuel) s s')
      → IsKnownRun Buf cfg os e have_fdatasync (suc fuel) run
      → Mounted cfg e s.meta
      → Mounted cfg e s'.meta
  unfolding IsKnownRun
  Reach-Mounted s s' Reach.here d i = i
  Reach-Mounted s s' (Reach.next step rest) d i =
      Reach-Mounted _ s' rest d.1 (Step-Mounted s _ step d.0 i)
