-- ===== src/Cfs/Open/Missing.antt =====
-- What `cfs_unlink` and `cfs_open` forget about a file that goes or is gone.
use ece566_project.Prelude.{
  ℕ, suc, ◌≡◌, refl, true, not, ◌&&◌, none, arith, Name, same, Bool-cases, inl, inr,
}
use ece566_project.Prelude.Int.{pos, negsuc, ltb_ℤ}
use ece566_project.Sql.Cached.{cached, known}
use ece566_project.Sql.Engine.{Engine, IsHealthy}
use ece566_project.Meta.{is_file_in_cache}
use ece566_project.Meta.Invariant.{IsValid, is_file_in_cache-IsValid}
use ece566_project.Meta.Files.{
  known-IsValid, delete_file-block_size, unknown-cached, delete_any-cached, is_file_in_cache-known,
}
use ece566_project.Posix.{Os, Sys, Syscall, log_syscall, log_retstat, log_error, log_keeps}
use ece566_project.Cfs.{Config}
use ece566_project.Cfs.Paths.{cfs_path_to_file_name, cfs_full_nas_path}
use ece566_project.Cfs.Namespace.{cfs_unlink}
use ece566_project.Cfs.Open.{cfs_open, open_missing, forget_file, switch_flags}

log_failed :
    (os : Os) {Db : Type 0} (k n : ℕ) (s : Sys os.World Db)
    → os.errno 1 s.world ≡ suc n
    → log_syscall os (negsuc k) (pos 0) s ≡ (negsuc n, s)
unfolding log_syscall log_retstat log_error
log_failed os k n s h = ground arith

negative : (n : ℕ) → ltb_ℤ (negsuc n) (pos 0) ≡ true
negative n = ground arith

module _ (cfg : Config) (os : Os) (e : Engine) (h : IsHealthy e) (path : Name)
    (s : Sys os.World e.Db) (v : IsValid e s.meta) where
  open os use {World}

  -- After `cfs_unlink` no block of the file is listed, and the blocks of the other files are as
  -- before, whether or not the calls that remove the two files succeed. The bookkeeping is valid
  -- before and the engine does not fail.
  pub cfs_unlink-cached :
      (q : Name) (o : ℕ)
      → cached (e.tables (cfs_unlink cfg os e path s).1.meta.db) q o
        ≡ (cached (e.tables s.meta.db) q o && not (same q (cfs_path_to_file_name path)))
  unfolding cfs_unlink
  cfs_unlink-cached q o =
      rw (log_keeps, log_keeps) (delete_any-cached e h (cfs_path_to_file_name path) s.meta v q o)

  -- An open whose NAS file cannot be opened returns `-errno`, with the `errno` after the error is
  -- printed, where that is not 0, stores no handle and leaves no block of the file listed; the
  -- blocks of the other files are as before. The bookkeeping is valid before and the engine does
  -- not fail.
  pub cfs_open_missing :
      (flags k n : ℕ) (q : Name) (o : ℕ)
      → (os.call
          (Syscall.open_file (cfs_full_nas_path cfg path) (switch_flags flags) 0)
          s.world).0.value
        ≡ negsuc k
      → os.errno 1
          (os.call
            (Syscall.open_file (cfs_full_nas_path cfg path) (switch_flags flags) 0)
            s.world).1
        ≡ suc n
      → ((cfs_open cfg os e path flags s).0 ≡ (negsuc n, none))
        × (cached (e.tables (cfs_open cfg os e path flags s).1.meta.db) q o
            ≡ (cached (e.tables s.meta.db) q o && not (same q (cfs_path_to_file_name path))))
  unfolding cfs_open open_missing forget_file
  cfs_open_missing flags k n q o failed reason =
      let name = cfs_path_to_file_name path in
      let c = Syscall.open_file (cfs_full_nas_path cfg path) (switch_flags flags) 0 in
      let (answer, kept) = is_file_in_cache-known e h name s.meta v in
      let m1 = (is_file_in_cache e name s.meta).1 in
      let v1 = is_file_in_cache-IsValid e h name s.meta v in
      let opened = log_failed os k n (record s { world = (os.call c s.world).1 }) reason in
      elim (Bool-cases (known (e.tables s.meta.db) name)) [
        | inl here ↦
            rw (failed, opened, negative, answer, here)
              (refl, rw log_keeps (rw kept at (delete_any-cached e h name m1 v1 q o)))
        | inr absent ↦
            rw (failed, opened, negative, answer, absent)
              (refl, rw kept (unknown-cached e name s.meta absent q o))
      ]

  -- Unlinking a file that is known keeps the bookkeeping valid.
  pub cfs_unlink-IsValid :
      known (e.tables s.meta.db) (cfs_path_to_file_name path) ≡ true
      → IsValid e (cfs_unlink cfg os e path s).1.meta
  unfolding cfs_unlink
  cfs_unlink-IsValid here =
      rw (log_keeps, log_keeps) (known-IsValid e h (cfs_path_to_file_name path) s.meta v here)

  pub cfs_unlink-block_size :
      (cfs_unlink cfg os e path s).1.meta.meta_block_size ≡ s.meta.meta_block_size
  unfolding cfs_unlink
  cfs_unlink-block_size =
      rw (log_keeps, log_keeps) (delete_file-block_size e h (cfs_path_to_file_name path) s.meta v)
