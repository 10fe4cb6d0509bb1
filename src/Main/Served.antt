-- ===== src/Main/Served.antt =====
-- From the start of the program through any run: `main`, then the callbacks.
use ece566_project.Prelude.{
  ℕ, suc, ◌*◌, ◌%◌, ◌^◌, ◌<◌, ◌≡◌, ◌∙◌, ◌⊎◌, inl, inr, Bool, false, Option, some, arith, length,
  Name,
}
use ece566_project.Prelude.Int.{word}
use ece566_project.Sql.Catalog.{IsConsistent}
use ece566_project.Sql.Engine.{Engine, IsHealthy}
use ece566_project.Meta.{Meta}
use ece566_project.Posix.{Os, Sys}
use ece566_project.Cfs.{Config}
use ece566_project.Cfs.Requests.Served.{Mounted, Reach, IsKnownRun, Reach-Mounted}
use ece566_project.Main.{Start, Arguments, start, init_metadata}
use ece566_project.Main.Restart.{
  IsPrinted, enforced, prepared, empty-IsConsistent, init_metadata-prepared, created, kept,
}

-- The database is new, or that of an earlier run with the same block size.
abbrev pub IsUsable : (e : Engine) → ℕ → Meta e.Db → Type 0
IsUsable e bs m =
    (((e.tables m.db).has_files ≡ false) × ((e.tables m.db).has_blocks ≡ false))
    ⊎ (IsConsistent bs (enforced (e.tables m.db)) × (bs * length (e.tables m.db).blocks < 2 ^ 63))

module _ (e : Engine) (h : IsHealthy e) (print : IsPrinted e) where
  Mounted-prepared :
      (cfg : Config) (m m' : Meta e.Db)
      → m.cache_used_size ≡ 0
      → cfg.block_size < 2 ^ 63
      → IsConsistent cfg.block_size (prepared e h cfg.block_size m)
      → cfg.block_size * length (prepared e h cfg.block_size m).blocks < 2 ^ 63
      → init_metadata e cfg.block_size m ≡ some m'
      → Mounted cfg e m'
  Mounted-prepared cfg m m' unused small c fits ran =
      let (m2, ran2, _, sizes, v) =
        init_metadata-prepared e h cfg.block_size m c print unused small fits in
      let eq : m2 ≡ m' = cc in rw (← eq) (record { valid = v; sizes = sizes })

  init_metadata-Mounted :
      (cfg : Config) (m m' : Meta e.Db)
      → m.cache_used_size ≡ 0
      → cfg.block_size < 2 ^ 63
      → IsUsable e cfg.block_size m
      → init_metadata e cfg.block_size m ≡ some m'
      → Mounted cfg e m'
  init_metadata-Mounted cfg m m' unused small usable ran = elim usable [
    | inl (no_files, no_blocks) ↦
        let t = created e h cfg.block_size m no_files no_blocks in
        Mounted-prepared cfg m m' unused small (rw t (empty-IsConsistent e h cfg.block_size m))
          (rw t (omega arith)) ran
    | inr (c, fits) ↦
        let k = kept e h cfg.block_size m c in
        Mounted-prepared cfg m m' unused small (rw k c) (rw k fits) ran
  ]

  started-inv :
      (uid euid : ℕ) (args : Arguments) (realpath : Name → Name) (fs_avail_kb : Option ℕ)
      (cfg : Config) (m m' : Meta e.Db)
      → start e uid euid args realpath fs_avail_kb m ≡ Start.started cfg m'
      → (init_metadata e args.block_size m ≡ some m') × (cfg.block_size ≡ args.block_size)
  unfolding start
  started-inv uid euid args realpath fs_avail_kb cfg m m' ran = ground arith

  -- From a start on a new database, or on the consistent database of an earlier run with the same
  -- block size, through any sequence of requests that end and of changes of the files from
  -- outside, in which a file is in the cache when it is unlinked: the tables are consistent, the
  -- counter is the size of all listed blocks, modulo 2 ^ 64, and the block size is the one that
  -- was given. The engine does not fail and prints numbers in decimal; the counter starts at 0,
  -- the block size is neither 0 nor 2 ^ 63 or more, the blocks listed at the start take less than
  -- 2 ^ 63 bytes, and `wait_for_space` has at least one round.
  pub start_serves :
      (uid euid : ℕ) (args : Arguments) (realpath : Name → Name) (fs_avail_kb : Option ℕ)
      (cfg : Config) (m m' : Meta e.Db)
      → start e uid euid args realpath fs_avail_kb m ≡ Start.started cfg m'
      → m.cache_used_size ≡ 0
      → 0 < args.block_size
      → args.block_size < 2 ^ 63
      → IsUsable e args.block_size m
      → (Buf : Type 0) (os : Os) (have_fdatasync : Bool) (fuel : ℕ) (w : os.World)
        (s : Sys os.World e.Db)
      → (run : Reach Buf cfg os e have_fdatasync (suc fuel) (record { world = w; meta = m' }) s)
      → IsKnownRun Buf cfg os e have_fdatasync (suc fuel) run
      → (s.meta.meta_block_size ≡ args.block_size)
        × IsConsistent args.block_size (e.tables s.meta.db)
        × (s.meta.cache_used_size ≡ (args.block_size * length (e.tables s.meta.db).blocks) % word)
  start_serves uid euid args realpath fs_avail_kb cfg m m' ran unused pos_b small usable Buf os
        have_fdatasync fuel w s reach known_run =
      let (init, size) = started-inv uid euid args realpath fs_avail_kb cfg m m' ran in
      let first : Mounted cfg e m' =
        init_metadata-Mounted cfg m m' unused (rw size small) (rw size usable) (rw size init) in
      let last =
        Reach-Mounted Buf cfg os e have_fdatasync fuel h (rw size pos_b)
          (record { world = w; meta = m' }) s reach known_run first in
      let sizes = last.sizes ∙ size in
      (sizes, rw (← sizes) last.valid.consistent, rw (← sizes) last.valid.counted)
