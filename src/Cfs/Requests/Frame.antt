-- ===== src/Cfs/Requests/Frame.antt =====
-- The requests that leave the metadata of src/metadata/meta.c alone.
use ece566_project.Prelude.{ℕ, ◌≡◌, refl, Bool, true, false, List, [], ◌∷◌, Name}
use ece566_project.Prelude.Int.{ℤ}
use ece566_project.Sql.Engine.{Engine}
use ece566_project.Posix.{Os, Sys, log_error}
use ece566_project.Cfs.{Config}
use ece566_project.Cfs.Directory.{cfs_readdir, read_entries, cfs_init, cfs_destroy}
use ece566_project.Cfs.Outcome.{Outcome}
use ece566_project.Cfs.Requests.{Request, Response, dispatch}
use ece566_project.Cfs.Requests.Kept

-- All but the four that the metadata are for.
unfoldable pub keeps_metadata : {Buf : Type 0} → Request Buf → Bool
keeps_metadata (Request.unlink path) = false
keeps_metadata (Request.open_file path flags) = false
keeps_metadata (Request.read path size offset fi) = false
keeps_metadata (Request.write path buf size offset fi) = false
keeps_metadata _ = true

module _ {Buf : Type 0} (cfg : Config) (os : Os) (e : Engine) (have_fdatasync : Bool)
    (fuel : ℕ) where
  open os use {World}

  read_entries-meta :
      (filler : Buf → Name → ℤ × Buf) (names : List Name) (buf : Buf) (s : Sys World e.Db)
      → (read_entries cfg os filler names buf s).1.meta ≡ s.meta
  unfolding read_entries log_error
  read_entries-meta filler [] buf s = refl
  read_entries-meta filler (name ∷ names) buf s = refl

  -- A request other than unlink, open, read and write is done and leaves the metadata as they are,
  -- `cfs_rename` among them: the database keeps the old name of a renamed file.
  pub dispatch_frame :
      (rq : Request Buf) (s : Sys World e.Db)
      → keeps_metadata rq ≡ true
      → (r : Response Buf) × (s' : Sys World e.Db) × (dispatch cfg os e have_fdatasync fuel rq s
          ≡ Outcome.done (r, s'))
        × (s'.meta ≡ s.meta)
  unfolding dispatch keeps_metadata cfs_readdir cfs_init cfs_destroy
  dispatch_frame (Request.getattr p) s h = (_, _, refl, (Kept.get_nas_attr-KeepsMeta cfg os p).at s)
  dispatch_frame (Request.readlink p n) s h =
      (_, _, refl, (Kept.readlink-KeepsMeta cfg os p n).at s)
  dispatch_frame (Request.mknod p m d) s h = (_, _, refl, (Kept.mknod-KeepsMeta cfg os p m d).at s)
  dispatch_frame (Request.mkdir p m) s h = (_, _, refl, (Kept.mkdir-KeepsMeta cfg os p m).at s)
  dispatch_frame (Request.rmdir p) s h = (_, _, refl, (Kept.rmdir-KeepsMeta cfg os p).at s)
  dispatch_frame (Request.symlink p q) s h = (_, _, refl, (Kept.symlink-KeepsMeta cfg os p q).at s)
  dispatch_frame (Request.rename p q) s h = (_, _, refl, (Kept.rename-KeepsMeta cfg os p q).at s)
  dispatch_frame (Request.link p q) s h = (_, _, refl, (Kept.link-KeepsMeta cfg os p q).at s)
  dispatch_frame (Request.chmod p m) s h = (_, _, refl, (Kept.chmod-KeepsMeta cfg os p m).at s)
  dispatch_frame (Request.chown p u g) s h = (_, _, refl, (Kept.chown-KeepsMeta cfg os p u g).at s)
  dispatch_frame (Request.truncate p n) s h =
      (_, _, refl, (Kept.truncate-KeepsMeta cfg os p n).at s)
  dispatch_frame (Request.utime p a m) s h = (_, _, refl, (Kept.utime-KeepsMeta cfg os p a m).at s)
  dispatch_frame (Request.statfs p) s h = (_, _, refl, (Kept.statfs-KeepsMeta cfg os p).at s)
  dispatch_frame (Request.flush p fi) s h = (_, _, refl, (Kept.flush-KeepsMeta cfg os p fi).at s)
  dispatch_frame (Request.release p fi) s h =
      (_, _, refl, (Kept.release-KeepsMeta cfg os p fi).at s)
  dispatch_frame (Request.fsync d fi) s h =
      (_, _, refl, (Kept.fsync-KeepsMeta cfg os have_fdatasync d fi).at s)
  dispatch_frame (Request.setxattr p q v n) s h =
      (_, _, refl, (Kept.setxattr-KeepsMeta cfg os p q v n).at s)
  dispatch_frame (Request.getxattr p q n) s h =
      (_, _, refl, (Kept.getxattr-KeepsMeta cfg os p q n).at s)
  dispatch_frame (Request.listxattr p n) s h =
      (_, _, refl, (Kept.listxattr-KeepsMeta cfg os p n).at s)
  dispatch_frame (Request.removexattr p q) s h =
      (_, _, refl, (Kept.removexattr-KeepsMeta cfg os p q).at s)
  dispatch_frame (Request.opendir p) s h = (_, _, refl, (Kept.opendir-KeepsMeta cfg os p).at s)
  dispatch_frame (Request.releasedir dp) s h =
      (_, _, refl, (Kept.releasedir-KeepsMeta cfg os dp).at s)
  dispatch_frame (Request.fsyncdir p d) s h =
      (_, _, refl, (Kept.fsyncdir-KeepsMeta cfg os p d).at s)
  dispatch_frame (Request.access p m) s h = (_, _, refl, (Kept.access-KeepsMeta cfg os p m).at s)
  dispatch_frame (Request.ftruncate n fi) s h =
      (_, _, refl, (Kept.ftruncate-KeepsMeta cfg os n fi).at s)
  dispatch_frame (Request.fgetattr p fi) s h =
      (_, _, refl, (Kept.fgetattr-KeepsMeta cfg os p fi).at s)
  dispatch_frame (Request.readdir filler dp buf) s h =
      (_, _, refl, read_entries-meta filler (os.entries dp s.world) buf _)
  dispatch_frame Request.init s h = (_, _, refl, refl)
  dispatch_frame Request.destroy s h = (_, _, refl, refl)
  dispatch_frame (Request.unlink p) s h = cc
  dispatch_frame (Request.open_file p n) s h = cc
  dispatch_frame (Request.read p n o fi) s h = cc
  dispatch_frame (Request.write p b n o fi) s h = cc
