-- ===== src/Cfs/Open/Present.antt =====
-- What `cfs_open` does to the metadata when the NAS file can be opened.
use ece566_project.Prelude.{
  ℕ, ◌≡◌, refl, ap, ◌∙◌, Bool, true, false, not, Option, some, Name, ltb, if◌then◌else◌, Bool-cases,
  inl, inr,
}
use ece566_project.Prelude.Int.{ℤ, pos, ltb_ℤ}
use ece566_project.Sql.Engine.{Engine}
use ece566_project.Meta.{Meta, delete_file, create_file}
use ece566_project.Posix.{Os, Sys, Stat, Syscall, log_keeps, log_error, checked, pure, ◌>>=◌}
use ece566_project.Posix.Kept.{KeepsMeta, kept_rules}
use ece566_project.Cfs.{Config, DualFileHandle}
use ece566_project.Cfs.Paths.{cfs_path_to_file_name, cfs_full_nas_path}
use ece566_project.Cfs.Attributes.{cfs_get_nas_attr, cfs_get_cache_attr}
use ece566_project.Cfs.Namespace.{cache_path, make_node, cfs_mk_cache_nod}
use ece566_project.Cfs.Open.{
  switch_flags, open_present, check_up_to_date, make_entry, forget_file, o_rdwr,
}

-- The world once the NAS file is opened.
abbrev pub opened : Config → (os : Os) → Name → ℕ → os.World → os.World
opened cfg os path flags w =
    (os.call (Syscall.open_file (cfs_full_nas_path cfg path) (switch_flags flags) 0) w).1

-- The copy is older than the NAS file: `st_mtime` of the two, as `cfs_open` asks for them.
abbrev pub is_stale : Config → (os : Os) → Name → os.World → Bool
is_stale cfg os path w =
    let (nas, w1) = os.call (Syscall.lstat (cfs_full_nas_path cfg path)) w in
    let (cache, w2) = os.call (Syscall.lstat (cache_path cfg path)) w1 in
    ltb cache.stat.st_mtime nas.stat.st_mtime

abbrev pub nas_size : Config → (os : Os) → Name → os.World → ℕ
nas_size cfg os path w = (os.call (Syscall.lstat (cfs_full_nas_path cfg path)) w).0.stat.st_size

-- The metadata of `open_present`, without the system calls.
abbrev pub opened_meta : (e : Engine) → Name → ℕ → Bool → Bool → Meta e.Db → Meta e.Db
opened_meta e name size false stale m = (create_file e name size m).1
opened_meta e name size true true m = (create_file e name size (delete_file e name m).1).1
opened_meta e name size true false m = m

module _ (cfg : Config) (os : Os) (e : Engine) (path : Name) where
  open os use {World}

  make_node-meta :
      (p : Name) (mode dev : ℕ) (s : Sys World e.Db) → (make_node os p mode dev s).1.meta ≡ s.meta
  unfolding make_node
  make_node-meta p mode dev s =
      let k : KeepsMeta (make_node os {Db = e.Db} p mode dev) = search kept_rules in k.at s

  nas_attr-state :
      (s : Sys World e.Db)
      → (cfs_get_nas_attr cfg os path s).1
        ≡ record s { world = (os.call (Syscall.lstat (cfs_full_nas_path cfg path)) s.world).1 }
  unfolding cfs_get_nas_attr
  nas_attr-state s = rw log_keeps refl

  cache_attr-state :
      (s : Sys World e.Db)
      → (cfs_get_cache_attr cfg os path s).1
        ≡ record s { world = (os.call (Syscall.lstat (cache_path cfg path)) s.world).1 }
  unfolding cfs_get_cache_attr cache_path
  cache_attr-state s = rw log_keeps refl

  pub forget_file-meta :
      (s : Sys World e.Db)
      → (forget_file cfg os e path s).1.meta ≡ (delete_file e (cfs_path_to_file_name path) s.meta).1
  unfolding forget_file
  forget_file-meta s = rw log_keeps refl

  -- what `make_entry` then leaves
  abbrev entered : Stat → Bool → Meta e.Db → Meta e.Db
  entered info true m = m
  entered info false m = (create_file e (cfs_path_to_file_name path) info.st_size m).1

  make_entry-meta :
      (info : Stat) (still : Bool) (s : Sys World e.Db)
      → (make_entry cfg os e path info still s).1.meta ≡ entered info still s.meta
  unfolding make_entry cfs_mk_cache_nod
  make_entry-meta info true s = refl
  make_entry-meta info false s = rw make_node-meta refl

  abbrev newer : Stat → World → Bool
  newer info w = ltb (os.call (Syscall.lstat (cache_path cfg path)) w).0.stat.st_mtime info.st_mtime

  check_up_to_date_lem :
      (info : Stat) (s : Sys World e.Db)
      → ((check_up_to_date cfg os e path info true s).0 ≡ not (newer info s.world))
        × ((check_up_to_date cfg os e path info true s).1.meta ≡ (
            if newer info s.world
            then (delete_file e (cfs_path_to_file_name path) s.meta).1
            else s.meta))
  unfolding check_up_to_date cfs_get_cache_attr cache_path
  check_up_to_date_lem info s = elim (Bool-cases (newer info s.world)) [
    | inl old ↦ rw (old, log_keeps) (refl, forget_file-meta _)
    | inr fresh ↦ rw (fresh, log_keeps) (refl, refl)
  ]

  last_steps-KeepsMeta :
      (fd : ℤ)
      → KeepsMeta {W = World} {Db = e.Db} {A = ℤ × Option DualFileHandle} (do
        cache_fd ← checked os (Syscall.open_file (cache_path cfg path) o_rdwr 0)
        retstat ← (if ltb_ℤ cache_fd (pos 0) then log_error os 1 else pure (pos 0))
        pure (retstat, some (record { nas_fh = fd; cache_fh = cache_fd })))
  last_steps-KeepsMeta fd = search kept_rules

  entry-meta_absent :
      (info : Stat) (s : Sys World e.Db)
      → entered info
          (check_up_to_date cfg os e path info false s).0
          (check_up_to_date cfg os e path info false s).1.meta
        ≡ (create_file e (cfs_path_to_file_name path) info.st_size s.meta).1
  unfolding check_up_to_date
  entry-meta_absent info s = refl

  entry-meta :
      (info : Stat) (present : Bool) (s : Sys World e.Db)
      → entered info
          (check_up_to_date cfg os e path info present s).0
          (check_up_to_date cfg os e path info present s).1.meta
        ≡ opened_meta e
            (cfs_path_to_file_name path)
            info.st_size
            present
            (newer info s.world)
            s.meta
  entry-meta info false s = entry-meta_absent info s
  entry-meta info true s =
      let lem = check_up_to_date_lem info s in
      elim (Bool-cases (newer info s.world)) [
        | inl old ↦ rw (lem.0, lem.1, old) refl
        | inr fresh ↦ rw (lem.0, lem.1, fresh) refl
      ]

  pub open_present-meta :
      (present : Bool) (fd : ℤ) (s : Sys World e.Db)
      → (open_present cfg os e path present fd s).1.meta
        ≡ opened_meta e
            (cfs_path_to_file_name path)
            (nas_size cfg os path s.world)
            present
            (is_stale cfg os path s.world)
            s.meta
  unfolding open_present cfs_get_nas_attr
  open_present-meta present fd s =
      let info = (cfs_get_nas_attr cfg os path s).0.1 in
      let s1 = (cfs_get_nas_attr cfg os path s).1 in
      let (still, s2) = check_up_to_date cfg os e path info present s1 in
      (last_steps-KeepsMeta fd).at (make_entry cfg os e path info still s2).1
      ∙ make_entry-meta info still s2
      ∙ entry-meta info present s1
      ∙ ap
          (λ (t : Sys World e.Db).
            opened_meta e (cfs_path_to_file_name path) info.st_size present (newer info t.world)
              t.meta)
          (nas_attr-state s)
