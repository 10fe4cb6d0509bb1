-- ===== src/Cfs/Requests/Forwarded.antt =====
-- The requests that end with a system call on the NAS whose status is the one handed back: all but
-- reads, writes, opens, and what acts on no file. README.md says that any call except for reads is
-- forwarded to the NAS.
use ece566_project.Prelude.{
  ℕ, ◌≡◌, refl, ap, Bool, true, false, ◌&&◌, Option, none, some, List, [], ◌∷◌, same, arith,
  if◌then◌else◌,
}
use ece566_project.Prelude.Int.{ℤ, pos, neg, ltb_ℤ}
use ece566_project.Sql.Engine.{Engine}
use ece566_project.Posix.{Os, Sys, State, Syscall, issue, log_error, log_retstat, log_syscall}
use ece566_project.Cfs.{Config}
use ece566_project.Cfs.Paths.{cfs_full_nas_path}
use ece566_project.Cfs.Attributes.{
  cfs_get_nas_attr, cfs_chmod, cfs_chown, cfs_statfs, cfs_setxattr, cfs_getxattr, cfs_listxattr,
  cfs_removexattr, cfs_access, cfs_fgetattr,
}
use ece566_project.Cfs.Namespace.{
  is_regular, is_fifo, cache_path, make_node, cfs_mknod, cfs_mkdir, cfs_unlink, cfs_rmdir,
  cfs_symlink, cfs_rename, cfs_link, cfs_truncate, cfs_utime,
}
use ece566_project.Cfs.Handles.{
  fallocate_call, sync_both, or_errno, cfs_release, cfs_fsync, cfs_ftruncate,
}
use ece566_project.Cfs.Outcome.{Outcome}
use ece566_project.Cfs.Requests.{Request, Response, dispatch, respond}

-- The calls on the cached copy that come first, and the call on the NAS.
abbrev pub Calls : Type 0
Calls = List Syscall × Syscall

unfoldable pub forwarded : {Buf : Type 0} → Config → Bool → Request Buf → Option Calls
forwarded cfg have (Request.getattr p) = some ([], Syscall.lstat (cfs_full_nas_path cfg p))
forwarded cfg have (Request.mknod p mode dev) =
    if is_regular mode
    then none
    else (if is_fifo mode
        then some ([], Syscall.mkfifo (cfs_full_nas_path cfg p) mode)
        else some ([], Syscall.mknod (cfs_full_nas_path cfg p) mode dev))
forwarded cfg have (Request.mkdir p mode) = some ([], Syscall.mkdir (cfs_full_nas_path cfg p) mode)
forwarded cfg have (Request.unlink p) =
    some (Syscall.unlink (cache_path cfg p) ∷ [], Syscall.unlink (cfs_full_nas_path cfg p))
forwarded cfg have (Request.rmdir p) = some ([], Syscall.rmdir (cfs_full_nas_path cfg p))
forwarded cfg have (Request.symlink p q) = some (
  Syscall.symlink (cache_path cfg p) (cache_path cfg q) ∷ [],
  Syscall.symlink p (cfs_full_nas_path cfg q),
)
forwarded cfg have (Request.rename p q) = some (
  Syscall.rename (cache_path cfg p) (cache_path cfg q) ∷ [],
  Syscall.rename (cfs_full_nas_path cfg p) (cfs_full_nas_path cfg q),
)
forwarded cfg have (Request.link p q) = some (
  Syscall.link (cache_path cfg p) (cache_path cfg q) ∷ [],
  Syscall.link (cfs_full_nas_path cfg p) (cfs_full_nas_path cfg q),
)
forwarded cfg have (Request.chmod p mode) = some ([], Syscall.chmod (cfs_full_nas_path cfg p) mode)
forwarded cfg have (Request.chown p uid gid) =
    some ([], Syscall.chown (cfs_full_nas_path cfg p) uid gid)
forwarded cfg have (Request.truncate p n) =
    some (Syscall.truncate (cache_path cfg p) n ∷ [], Syscall.truncate (cfs_full_nas_path cfg p) n)
forwarded cfg have (Request.utime p at mt) =
    some
      (Syscall.utime (cache_path cfg p) at mt ∷ [], Syscall.utime (cfs_full_nas_path cfg p) at mt)
forwarded cfg have (Request.statfs p) = some ([], Syscall.statvfs (cfs_full_nas_path cfg p))
forwarded cfg have (Request.release p fi) = some (
  Syscall.system (fallocate_call cfg p) ∷ Syscall.close fi.fh.cache_fh ∷ [],
  Syscall.close fi.fh.nas_fh,
)
forwarded cfg have (Request.fsync datasync fi) =
    if have && datasync
    then some (Syscall.fdatasync fi.fh.cache_fh ∷ [], Syscall.fdatasync fi.fh.nas_fh)
    else some (Syscall.fsync fi.fh.cache_fh ∷ [], Syscall.fsync fi.fh.nas_fh)
forwarded cfg have (Request.setxattr p name value n) =
    some ([], Syscall.lsetxattr (cfs_full_nas_path cfg p) name value n)
forwarded cfg have (Request.getxattr p name n) =
    some ([], Syscall.lgetxattr (cfs_full_nas_path cfg p) name n)
forwarded cfg have (Request.listxattr p n) =
    some ([], Syscall.llistxattr (cfs_full_nas_path cfg p) n)
forwarded cfg have (Request.removexattr p name) =
    some ([], Syscall.lremovexattr (cfs_full_nas_path cfg p) name)
forwarded cfg have (Request.access p mask) =
    some ([], Syscall.access (cfs_full_nas_path cfg p) mask)
forwarded cfg have (Request.ftruncate n fi) =
    some (Syscall.ftruncate fi.fh.cache_fh n ∷ [], Syscall.ftruncate fi.fh.nas_fh n)
forwarded cfg have (Request.fgetattr p fi) =
    if same p (b'/' ∷ [])
    then some ([], Syscall.lstat (cfs_full_nas_path cfg p))
    else some ([], Syscall.fstat fi.fh.nas_fh)
forwarded cfg have _ = none

unfoldable pub status_of : {Buf : Type 0} → Response Buf → ℤ
status_of (Response.status r) = r
status_of (Response.attributes r) = r.0
status_of (Response.bytes r) = r.0
status_of (Response.handle r) = r.0
status_of (Response.stream r) = r.0
status_of (Response.names r) = r.0
status_of _ = pos 0

module _ (os : Os) where
  open os use {World}

  unfoldable pub run_calls : List Syscall → World → World
  run_calls [] w = w
  run_calls (c ∷ cs) w = run_calls cs (os.call c w).1

  -- The value of a call, or `-errno` if it is negative, read after a number of messages.
  abbrev pub result_after : ℕ → ℤ → World → ℤ
  result_after n r w = if ltb_ℤ r (pos 0) then neg (os.errno n w) else r

  -- The value of a call, or the `-errno` of it.
  abbrev pub result : ℤ → World → ℤ
  result = result_after 0

  pub log_result :
      {Db : Type 0} (r : ℤ) (s : Sys World Db)
      → log_syscall os r (pos 0) s ≡ (result_after 1 r s.world, s)
  unfolding log_syscall log_retstat log_error
  log_result r s = ground arith

  or_errno-result :
      {Db : Type 0} (r : ℤ) (s : Sys World Db) → or_errno os r s ≡ (result r s.world, s)
  unfolding or_errno log_error
  or_errno-result r s = ground arith

  issued_result :
      {Db : Type 0} (c : Syscall) (s : Sys World Db)
      → or_errno os (issue os c s).0.value (issue os c s).1
        ≡ (result (os.call c s.world).0.value (os.call c s.world).1, (issue os c s).1)
  issued_result c s = or_errno-result _ _

module _ {Buf : Type 0} (cfg : Config) (os : Os) (e : Engine) (have : Bool) (fuel : ℕ) where
  open os use {World}

  -- The outcome is a response as the calls say: its status is what the last one returned, where
  -- printing the error leaves `errno` alone, and the world is the one after it.
  abbrev Meets : Option Calls → Outcome (Response Buf × Sys World e.Db) → World → Type 0
  Meets none o w = Unit
  Meets (some (before, c)) o w =
      let (reply, w') = os.call c (run_calls os before w) in
      (r : Response Buf) × (s' : Sys World e.Db) × (o ≡ Outcome.done (r, s'))
      × (os.errno 1 w' ≡ os.errno 0 w' → status_of r ≡ result os reply.value w')
      × (s'.world ≡ w')

  Meets-if :
      {A : Type 0} (b : Bool) (x y : Option Calls) (f : A → Response Buf)
      (m n : State (Sys World e.Db) A) (s : Sys World e.Db)
      → Meets x (respond f m s) s.world
      → Meets y (respond f n s) s.world
      → Meets (if b then x else y) (respond f (if b then m else n) s) s.world
  Meets-if true x y f m n s p q = p
  Meets-if false x y f m n s p q = q

  meets :
      (rq : Request Buf) (s : Sys World e.Db)
      → Meets (forwarded cfg have rq) (dispatch cfg os e have fuel rq s) s.world
  unfolding dispatch forwarded status_of run_calls cfs_get_nas_attr cfs_chmod cfs_chown cfs_statfs
      cfs_setxattr cfs_getxattr cfs_listxattr cfs_removexattr cfs_access cfs_fgetattr make_node
      cfs_mknod cfs_mkdir cfs_unlink cfs_rmdir cfs_symlink cfs_rename cfs_link cfs_truncate
      cfs_utime sync_both or_errno cfs_release cfs_fsync cfs_ftruncate
  meets (Request.getattr p) s = (_, _, refl, (λ q. rw (log_result, q) refl), rw log_result refl)
  meets (Request.mkdir p m) s = (_, _, refl, (λ q. rw (log_result, q) refl), rw log_result refl)
  meets (Request.rmdir p) s = (_, _, refl, (λ q. rw (log_result, q) refl), rw log_result refl)
  meets (Request.chmod p m) s = (_, _, refl, (λ q. rw (log_result, q) refl), rw log_result refl)
  meets (Request.chown p u g) s = (_, _, refl, (λ q. rw (log_result, q) refl), rw log_result refl)
  meets (Request.statfs p) s = (_, _, refl, (λ q. rw (log_result, q) refl), rw log_result refl)
  meets (Request.setxattr p q v n) s =
      (_, _, refl, (λ q. rw (log_result, q) refl), rw log_result refl)
  meets (Request.getxattr p q n) s =
      (_, _, refl, (λ q. rw (log_result, q) refl), rw log_result refl)
  meets (Request.listxattr p n) s = (_, _, refl, (λ q. rw (log_result, q) refl), rw log_result refl)
  meets (Request.removexattr p q) s =
      (_, _, refl, (λ q. rw (log_result, q) refl), rw log_result refl)
  meets (Request.unlink p) s =
      (_, _, refl, (λ q. rw (log_result, log_result, q) refl), rw (log_result, log_result) refl)
  meets (Request.symlink p q) s =
      (_, _, refl, (λ q. rw (log_result, log_result, q) refl), rw (log_result, log_result) refl)
  meets (Request.rename p q) s =
      (_, _, refl, (λ q. rw (log_result, log_result, q) refl), rw (log_result, log_result) refl)
  meets (Request.link p q) s =
      (_, _, refl, (λ q. rw (log_result, log_result, q) refl), rw (log_result, log_result) refl)
  meets (Request.truncate p n) s =
      (_, _, refl, (λ q. rw (log_result, log_result, q) refl), rw (log_result, log_result) refl)
  meets (Request.utime p a m) s =
      (_, _, refl, (λ q. rw (log_result, log_result, q) refl), rw (log_result, log_result) refl)
  meets (Request.release p fi) s = (
    _,
    _,
    refl,
    λ q. rw (log_result, log_result, log_result, q) refl,
    rw (log_result, log_result, log_result) refl,
  )
  meets (Request.readlink p n) s = tt
  meets (Request.open_file p n) s = tt
  meets (Request.read p n o fi) s = tt
  meets (Request.write p b n o fi) s = tt
  meets (Request.flush p fi) s = tt
  meets (Request.opendir p) s = tt
  meets (Request.readdir f dp b) s = tt
  meets (Request.releasedir dp) s = tt
  meets (Request.fsyncdir p d) s = tt
  meets Request.init s = tt
  meets Request.destroy s = tt
  meets (Request.access p m) s =
      let lem = issued_result os (Syscall.access (cfs_full_nas_path cfg p) m) s in
      (_, _, refl, (λ q. ap (λ r. r.0) lem), ap (λ r. r.1.world) lem)
  meets (Request.ftruncate n fi) s = (
    _,
    _,
    refl,
    λ q. rw (or_errno-result, or_errno-result) refl,
    rw (or_errno-result, or_errno-result) refl,
  )
  meets (Request.mknod p m d) s = Meets-if (is_regular m) _ _ Response.status _ _ s tt (
      Meets-if (is_fifo m) _ _ Response.status _ _ s
        (_, _, refl, (λ q. rw (log_result, q) refl), rw log_result refl)
        (_, _, refl, (λ q. rw (log_result, q) refl), rw log_result refl))
  meets (Request.fsync d fi) s =
      Meets-if (have && d) _ _ Response.status _ _ s
        (_, _, refl, (λ q. rw (log_result, log_result, q) refl), rw (log_result, log_result) refl)
        (_, _, refl, (λ q. rw (log_result, log_result, q) refl), rw (log_result, log_result) refl)
  meets (Request.fgetattr p fi) s =
      let lem = issued_result os (Syscall.fstat fi.fh.nas_fh) s in
      Meets-if (same p (b'/' ∷ [])) _ _ Response.attributes _ _ s
        (_, _, refl, (λ q. rw (log_result, q) refl), rw log_result refl)
        (_, _, refl, (λ q. ap (λ r. r.0) lem), ap (λ r. r.1.world) lem)

  -- A request that the table `forwarded` lists is done: it leaves the world as the calls on the
  -- cached copy that the table names and then the one on the NAS leave it, and its status is what
  -- the last one returned, or `-errno` if that is negative, whatever the calls on the cached copy
  -- return. To print a message after the last call leaves `errno` as it was.
  pub dispatch_forwards :
      (rq : Request Buf) (before : List Syscall) (c : Syscall) (s : Sys World e.Db)
      → forwarded cfg have rq ≡ some (before, c)
      → (let w = (os.call c (run_calls os before s.world)).1 in os.errno 1 w ≡ os.errno 0 w)
      → (r : Response Buf) × (s' : Sys World e.Db) × (dispatch cfg os e have fuel rq s
          ≡ Outcome.done (r, s'))
        × (status_of r
            ≡ result os
                (os.call c (run_calls os before s.world)).0.value
                (os.call c (run_calls os before s.world)).1)
        × (s'.world ≡ (os.call c (run_calls os before s.world)).1)
  dispatch_forwards rq before c s h quiet =
      let (r, s', ended, status, world) = rw h at (meets rq s) in
      (r, s', ended, status quiet, world)
