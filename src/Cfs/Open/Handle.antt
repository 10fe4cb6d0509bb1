-- ===== src/Cfs/Open/Handle.antt =====
-- The handle that `cfs_open` stores, and its status.
use ece566_project.Prelude.{
  Bool-cases, inl, inr, ℕ, ◌≡◌, refl, Bool, Option, some, Name, if◌then◌else◌,
}
use ece566_project.Prelude.Int.{ℤ, pos, neg, ltb_ℤ}
use ece566_project.Sql.Engine.{Engine}
use ece566_project.Posix.{Os, Sys, Syscall, log_error, checked, pure, ◌>>=◌}
use ece566_project.Cfs.{Config, DualFileHandle}
use ece566_project.Cfs.Paths.{cfs_full_nas_path}
use ece566_project.Cfs.Namespace.{cache_path}
use ece566_project.Cfs.Open.{cfs_open, open_present, switch_flags, o_rdwr}
use ece566_project.Cfs.Open.Cached.{log_good, positive}
use ece566_project.Cfs.Requests.Forwarded.{result_after, log_result}

module _ (cfg : Config) (os : Os) (e : Engine) (path : Name) where
  open os use {World}

  -- What an open with a handle ends with: the call that opens the copy, whose value, or `-errno`,
  -- the handle has; the status is 0, or `-errno` if the copy could not be opened.
  abbrev Opens : ℕ → (ℤ × Option DualFileHandle) × Sys World e.Db → Type 0
  Opens fd r =
      (handle : DualFileHandle) × (w : World) × (handle.nas_fh ≡ pos fd)
      × (handle.cache_fh
          ≡ result_after os 1 (os.call (Syscall.open_file (cache_path cfg path) o_rdwr 0) w).0.value
              r.1.world)
      × (r.1.world ≡ (os.call (Syscall.open_file (cache_path cfg path) o_rdwr 0) w).1)
      × (r.0 ≡ (
        if ltb_ℤ handle.cache_fh (pos 0) then neg (os.errno 1 r.1.world) else pos 0,
        some handle,
      ))

  last_steps-Opens :
      (fd : ℕ) (s : Sys World e.Db)
      → Opens fd (
          (do
            cache_fd ← checked os (Syscall.open_file (cache_path cfg path) o_rdwr 0)
            retstat ← (if ltb_ℤ cache_fd (pos 0) then log_error os 1 else pure (pos 0))
            pure (retstat, some (record { nas_fh = pos fd; cache_fh = cache_fd })))
            s)
  unfolding log_error
  last_steps-Opens fd s =
      let c = Syscall.open_file (cache_path cfg path) o_rdwr 0 in
      let cache_fd = result_after os 1 (os.call c s.world).0.value (os.call c s.world).1 in
      elim (Bool-cases (ltb_ℤ cache_fd (pos 0))) [
        | inl failed ↦
            rw (log_result, failed)
              (
                record { nas_fh = pos fd; cache_fh = cache_fd },
                s.world,
                refl,
                refl,
                refl,
                rw failed refl,
              )
        | inr good ↦
            rw (log_result, good)
              (
                record { nas_fh = pos fd; cache_fh = cache_fd },
                s.world,
                refl,
                refl,
                refl,
                rw good refl,
              )
      ]

  open_present-Opens :
      (present : Bool) (fd : ℕ) (s : Sys World e.Db)
      → Opens fd (open_present cfg os e path present (pos fd) s)
  unfolding open_present
  open_present-Opens present fd s = last_steps-Opens fd _

  -- The last call of an open whose NAS file can be opened is the one that opens the copy in the
  -- cache for reading and writing. The open stores a handle with the descriptor of the NAS file
  -- and that of the copy, or `-errno` in its place if the copy could not be opened; the status is
  -- 0 or, for a negative descriptor of the copy, `-errno`. Both times `errno` is the one after an
  -- error is printed.
  pub cfs_open_handle :
      (flags fd : ℕ) (s : Sys World e.Db)
      → (os.call
          (Syscall.open_file (cfs_full_nas_path cfg path) (switch_flags flags) 0)
          s.world).0.value
        ≡ pos fd
      → let (r, s') = cfs_open cfg os e path flags s in
        let copy = Syscall.open_file (cache_path cfg path) o_rdwr 0 in
        (handle : DualFileHandle) × (w : World) × (handle.nas_fh ≡ pos fd)
        × (handle.cache_fh ≡ result_after os 1 (os.call copy w).0.value s'.world)
        × (s'.world ≡ (os.call copy w).1)
        × (r ≡ (
          if ltb_ℤ handle.cache_fh (pos 0) then neg (os.errno 1 s'.world) else pos 0,
          some handle,
        ))
  unfolding cfs_open
  cfs_open_handle flags fd s good =
      rw (good, log_good os fd, positive fd) (open_present-Opens _ fd _)
