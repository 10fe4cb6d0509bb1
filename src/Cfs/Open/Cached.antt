-- ===== src/Cfs/Open/Cached.antt =====
-- What `cfs_open` leaves in the tables, and that it keeps the bookkeeping valid.
use ece566_project.Prelude.{
  length, ◌≤◌, ℕ, ◌≡◌, refl, ap, ◌∙◌, Bool, true, false, not, ◌&&◌, ◌||◌, arith, Name, same,
  eq_of_same, Bool-cases, inl, inr,
}
use ece566_project.Prelude.Int.{pos, ltb_ℤ}
use ece566_project.Sql.Cached.{cached, known}
use ece566_project.Sql.Engine.{Engine, IsHealthy}
use ece566_project.Meta.{Meta, truthy, delete_file, is_file_in_cache}
use ece566_project.Meta.Files.{
  known-IsValid, unknown-cached, delete_any-cached, delete_any-known, is_file_in_cache-known,
  create_file-cached, create_file-known, create_file-block_size, create_file-blocks,
  delete_file-blocks, delete_file-block_size, is_file_in_cache-block_size,
}
use ece566_project.Meta.Invariant.{IsValid, is_file_in_cache-IsValid, create_file-IsValid}
use ece566_project.Meta.Lookups.{bit}
use ece566_project.Posix.{Os, Sys, Syscall, log_syscall, log_retstat, log_keeps}
use ece566_project.Cfs.{Config}
use ece566_project.Cfs.Paths.{cfs_path_to_file_name, cfs_full_nas_path}
use ece566_project.Cfs.Open.{cfs_open, open_missing, switch_flags}
use ece566_project.Cfs.Open.Present.{
  opened, is_stale, nas_size, opened_meta, open_present-meta, forget_file-meta,
}

module _ (e : Engine) (h : IsHealthy e) (p : Name) (n : ℕ) (m : Meta e.Db) (v : IsValid e m) where
  opened_meta-blocks :
      (present stale : Bool)
      → known (e.tables m.db) p ≡ present
      → length (e.tables (opened_meta e p n present stale m).db).blocks
        ≤ length (e.tables m.db).blocks
  opened_meta-blocks false stale k = create_file-blocks e h p m v n
  opened_meta-blocks true true k = omega (
    arith,
    create_file-blocks e h p _ (known-IsValid e h p m v k) n,
    delete_file-blocks e h p m v,
  )
  opened_meta-blocks true false k = omega arith

  opened_meta-block_size :
      (present stale : Bool)
      → known (e.tables m.db) p ≡ present
      → (opened_meta e p n present stale m).meta_block_size ≡ m.meta_block_size
  opened_meta-block_size false stale k = create_file-block_size e h p m v n
  opened_meta-block_size true true k =
      create_file-block_size e h p _ (known-IsValid e h p m v k) n
      ∙ delete_file-block_size e h p m v
  opened_meta-block_size true false k = refl

  pub opened_meta-IsValid :
      (present stale : Bool)
      → known (e.tables m.db) p ≡ present
      → IsValid e (opened_meta e p n present stale m)
  opened_meta-IsValid false stale k = create_file-IsValid e h p m v n
  opened_meta-IsValid true true k = create_file-IsValid e h p _ (known-IsValid e h p m v k) n
  opened_meta-IsValid true false k = v

  opened_meta-cached :
      (present stale : Bool)
      → known (e.tables m.db) p ≡ present
      → (q : Name) (o : ℕ)
      → cached (e.tables (opened_meta e p n present stale m).db) q o
        ≡ (cached (e.tables m.db) q o && not (same q p && stale))
  opened_meta-cached false stale k q o =
      create_file-cached e h p m v n q o ∙ ground (arith, unknown-cached e p m k q o)
  opened_meta-cached true true k q o =
      create_file-cached e h p _ (known-IsValid e h p m v k) n q o
      ∙ ground (arith, delete_any-cached e h p m v q o)
  opened_meta-cached true false k q o = ground arith

  opened_meta-known :
      (present stale : Bool)
      → known (e.tables m.db) p ≡ present
      → (q : Name)
      → known (e.tables (opened_meta e p n present stale m).db) q
        ≡ (known (e.tables m.db) q || same q p)
  opened_meta-known false stale k q = create_file-known e h p m v n q
  opened_meta-known true true k q =
      create_file-known e h p _ (known-IsValid e h p m v k) n q
      ∙ ground (arith, delete_any-known e h p m v q)
  opened_meta-known true false k q = ground (arith, eq_of_same q p)

truthy-bit : (b : Bool) → truthy (bit b) ≡ b
truthy-bit true = refl
truthy-bit false = refl

pub log_good :
    (os : Os) {Db : Type 0} (n : ℕ) (s : Sys os.World Db)
    → log_syscall os (pos n) (pos 0) s ≡ (pos n, s)
unfolding log_syscall log_retstat
log_good os n s = ground arith

pub positive : (n : ℕ) → ltb_ℤ (pos n) (pos 0) ≡ false
positive n = ground arith

module _ (cfg : Config) (os : Os) (e : Engine) (h : IsHealthy e) (path : Name)
    (s : Sys os.World e.Db) (v : IsValid e s.meta) where
  open os use {World}

  -- the metadata after the question whether the file is cached
  abbrev asked : Meta e.Db
  asked = (is_file_in_cache e (cfs_path_to_file_name path) s.meta).1

  pub cfs_open-meta :
      (flags fd : ℕ)
      → (os.call
          (Syscall.open_file (cfs_full_nas_path cfg path) (switch_flags flags) 0)
          s.world).0.value
        ≡ pos fd
      → (cfs_open cfg os e path flags s).1.meta
        ≡ opened_meta e
            (cfs_path_to_file_name path)
            (nas_size cfg os path (opened cfg os path flags s.world))
            (known (e.tables s.meta.db) (cfs_path_to_file_name path))
            (is_stale cfg os path (opened cfg os path flags s.world))
            asked
  unfolding cfs_open
  cfs_open-meta flags fd good =
      let (answer, kept) = is_file_in_cache-known e h (cfs_path_to_file_name path) s.meta v in
      rw (good, log_good os fd, positive fd, answer, truthy-bit)
        (open_present-meta cfg os e path _ _ _)

  -- An open whose NAS file can be opened leaves the blocks of the file listed unless the copy in
  -- the cache is older than the NAS file, and none of them if it is; the blocks of the other files
  -- are as before, the file is then known, and no other file becomes known or unknown. The
  -- bookkeeping is valid before and the engine does not fail.
  pub cfs_open_present :
      (flags fd : ℕ) (q : Name) (o : ℕ)
      → (os.call
          (Syscall.open_file (cfs_full_nas_path cfg path) (switch_flags flags) 0)
          s.world).0.value
        ≡ pos fd
      → (cached (e.tables (cfs_open cfg os e path flags s).1.meta.db) q o ≡ (
          cached (e.tables s.meta.db) q o
          && not (
              same q (cfs_path_to_file_name path)
              && is_stale cfg os path (opened cfg os path flags s.world))))
        × (known (e.tables (cfs_open cfg os e path flags s).1.meta.db) q
            ≡ (known (e.tables s.meta.db) q || same q (cfs_path_to_file_name path)))
  cfs_open_present flags fd q o good =
      let name = cfs_path_to_file_name path in
      let n = nas_size cfg os path (opened cfg os path flags s.world) in
      let stale = is_stale cfg os path (opened cfg os path flags s.world) in
      let kept = (is_file_in_cache-known e h name s.meta v).1 in
      let v1 = is_file_in_cache-IsValid e h name s.meta v in
      let k = ap (λ t. known t name) kept in
      rw (cfs_open-meta flags fd good) (
        opened_meta-cached e h name n asked v1 _ stale k q o
            ∙ ap (λ t. cached t q o && not (same q name && stale)) kept,
        opened_meta-known e h name n asked v1 _ stale k q ∙ ap (λ t. known t q || same q name) kept,
      )

  -- The metadata that `cfs_open` may leave: with the file as it was found, gone, or opened.
  cfs_open-cases :
      (flags : ℕ) (R : Meta e.Db → Type 0)
      → ((present stale : Bool) (n : ℕ)
          → known (e.tables s.meta.db) (cfs_path_to_file_name path) ≡ present
          → R (opened_meta e (cfs_path_to_file_name path) n present stale asked))
      → (known (e.tables s.meta.db) (cfs_path_to_file_name path) ≡ false → R asked)
      → (known (e.tables s.meta.db) (cfs_path_to_file_name path) ≡ true
          → R (delete_file e (cfs_path_to_file_name path) asked).1)
      → R (cfs_open cfg os e path flags s).1.meta
  unfolding cfs_open open_missing
  cfs_open-cases flags R there absent gone =
      let name = cfs_path_to_file_name path in
      let c = Syscall.open_file (cfs_full_nas_path cfg path) (switch_flags flags) 0 in
      let (fd, _) =
        log_syscall os (os.call c s.world).0.value (pos 0)
          (record s { world = opened cfg os path flags s.world }) in
      let (answer, kept) = is_file_in_cache-known e h name s.meta v in
      elim (Bool-cases (ltb_ℤ fd (pos 0))) [
        | inr good ↦ rw (good, log_keeps, answer, truthy-bit, open_present-meta) (there _ _ _ refl)
        | inl bad ↦ elim (Bool-cases (known (e.tables s.meta.db) name)) [
          | inl here ↦ rw (bad, log_keeps, answer, truthy-bit, here, forget_file-meta) (gone here)
          | inr none_there ↦ rw (bad, log_keeps, answer, truthy-bit, none_there) (absent none_there)
        ]
      ]

  asked-known :
      known (e.tables asked.db) (cfs_path_to_file_name path)
      ≡ known (e.tables s.meta.db) (cfs_path_to_file_name path)
  asked-known =
      ap (λ t. known t (cfs_path_to_file_name path))
        (is_file_in_cache-known e h (cfs_path_to_file_name path) s.meta v).1

  asked-IsValid : IsValid e asked
  asked-IsValid = is_file_in_cache-IsValid e h (cfs_path_to_file_name path) s.meta v

  -- An open keeps the bookkeeping valid, whatever the system calls answer.
  pub cfs_open-IsValid : (flags : ℕ) → IsValid e (cfs_open cfg os e path flags s).1.meta
  cfs_open-IsValid flags =
      cfs_open-cases flags (λ m. IsValid e m)
        (λ present stale n k.
          opened_meta-IsValid e h _ n asked asked-IsValid present stale (asked-known ∙ k))
        (λ _. asked-IsValid) (λ here. known-IsValid e h _ asked asked-IsValid (asked-known ∙ here))

  pub cfs_open-block_size :
      (flags : ℕ) → (cfs_open cfg os e path flags s).1.meta.meta_block_size ≡ s.meta.meta_block_size
  cfs_open-block_size flags =
      let name = cfs_path_to_file_name path in
      let same_size = is_file_in_cache-block_size e h name s.meta v in
      cfs_open-cases flags (λ m. m.meta_block_size ≡ s.meta.meta_block_size)
        (λ present stale n k.
          opened_meta-block_size e h _ n asked asked-IsValid present stale (asked-known ∙ k)
          ∙ same_size)
        (λ _. same_size) (λ here. delete_file-block_size e h name asked asked-IsValid ∙ same_size)

  -- An open lists no block.
  pub cfs_open-blocks :
      (flags : ℕ)
      → length (e.tables (cfs_open cfg os e path flags s).1.meta.db).blocks
        ≤ length (e.tables s.meta.db).blocks
  cfs_open-blocks flags =
      let name = cfs_path_to_file_name path in
      let kept = (is_file_in_cache-known e h name s.meta v).1 in
      cfs_open-cases flags (λ m. length (e.tables m.db).blocks ≤ length (e.tables s.meta.db).blocks)
        (λ present stale n k.
          rw kept at
            (opened_meta-blocks e h name n asked asked-IsValid present stale (asked-known ∙ k)))
        (λ _. rw kept (omega arith))
        (λ here. rw kept at (delete_file-blocks e h name asked asked-IsValid))
