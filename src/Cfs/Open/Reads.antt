-- ===== src/Cfs/Open/Reads.antt =====
-- The first read after an open that finds no copy of the file in the cache, or an old one.
use ece566_project.Prelude.{
  some, ap, sym, ℕ, suc, ◌+◌, ◌-◌, ◌*◌, ◌/◌, ◌%◌, ◌≤◌, ◌<◌, ◌≡◌, refl, ◌∙◌, ◌⊎◌, inl, inr, true,
  false, List, arith, Name, length, same_refl,
}
use ece566_project.Prelude.Int.{ℤ, pos, word}
use ece566_project.Sql.Cached.{cached, known}
use ece566_project.Sql.Engine.{Engine, IsHealthy}
use ece566_project.Meta.Files.{unknown-cached}
use ece566_project.Meta.Invariant.{IsValid}
use ece566_project.Posix.{Os, Sys, Syscall}
use ece566_project.Cfs.{Config, FileInfo, DualFileHandle}
use ece566_project.Cfs.Open.Handle.{cfs_open_handle}
use ece566_project.Cfs.Paths.{cfs_path_to_file_name, cfs_full_nas_path}
use ece566_project.Cfs.Align.{align_lower_offset, aligned_size}
use ece566_project.Cfs.Bytes.{slice}
use ece566_project.Cfs.Disk.{IsDisk}
use ece566_project.Cfs.Open.{cfs_open, switch_flags}
use ece566_project.Cfs.Open.Present.{opened, is_stale}
use ece566_project.Cfs.Open.Cached.{
  cfs_open_present, cfs_open-IsValid, cfs_open-block_size, cfs_open-blocks,
}
use ece566_project.Cfs.Outcome.{Outcome}
use ece566_project.Cfs.Read.{cfs_read}
use ece566_project.Cfs.Read.Blocks.{Steady}
use ece566_project.Cfs.Read.Correct.{cfs_read_returns_nas}
use native.Mathlib.Nat.{mul-le-mul_left}

fewer : (b n n' k limit : ℕ) → n' ≤ n → b * (n + k) < limit → b * (n' + k) < limit
fewer b n n' k limit le room =
    let less : b * (n' + k) ≤ b * (n + k) = mul-le-mul_left b (omega arith) in omega arith

module _ (cfg : Config) (os : Os) (e : Engine) (h : IsHealthy e) (path : Name)
    (s : Sys os.World e.Db) (v : IsValid e s.meta) (flags fd : ℕ)
    (good : (os.call
        (Syscall.open_file (cfs_full_nas_path cfg path) (switch_flags flags) 0)
        s.world).0.value
      ≡ pos fd) where
  open os use {World}

  -- An unknown file has no blocks, and those of an old copy are forgotten.
  nothing_cached :
      (known (e.tables s.meta.db) (cfs_path_to_file_name path) ≡ false)
        ⊎ (is_stale cfg os path (opened cfg os path flags s.world) ≡ true)
      → (o : ℕ)
      → cached (e.tables (cfs_open cfg os e path flags s).1.meta.db) (cfs_path_to_file_name path) o
        ≡ false
  nothing_cached outdated o =
      let name = cfs_path_to_file_name path in
      let left = (cfs_open_present cfg os e h path s v flags fd name o good).0 in
      left ∙ elim outdated [
        | inl unknown ↦ ground (arith, unknown-cached e name s.meta unknown name o, same_refl name)
        | inr stale ↦ ground (arith, same_refl name)
      ]

  -- After an open that returns 0 and stores a handle, of a file that is not in the cache or whose
  -- copy is older than the NAS file, a read with that handle, whose blocks lie inside the NAS file
  -- and whose bytes lie inside its blocks, ends and yields the bytes that the file behind the
  -- descriptor of the NAS open has then, whatever the copy held. The file system and `malloc`
  -- behave as documented on the two descriptors of the handle, the database does not fail, the
  -- block size is not 0, the bookkeeping is valid before the open, and the cache has room for the
  -- blocks.
  pub cfs_open_reads_nas :
      (contents : ℤ → World → List ℕ) (fi : FileInfo)
      → IsDisk os contents fi.fh
      → 0 < cfg.block_size
      → (cfs_open cfg os e path flags s).0 ≡ (pos 0, some fi.fh)
      → s.meta.meta_block_size ≡ cfg.block_size
      → (known (e.tables s.meta.db) (cfs_path_to_file_name path) ≡ false)
        ⊎ (is_stale cfg os path (opened cfg os path flags s.world) ≡ true)
      → (fuel size offset : ℕ)
      → let aligned = aligned_size cfg.block_size size in
        let lower = align_lower_offset cfg.block_size offset in
        let s1 = (cfs_open cfg os e path flags s).1 in
        let nas = contents (pos fd) s1.world in
        cfg.block_size * (length (e.tables s.meta.db).blocks + aligned / cfg.block_size)
          < cfg.cache_size * 1024 % word
        → lower + aligned ≤ length nas
        → offset - lower + size ≤ aligned
        → (s' : Sys World e.Db) × (cfs_read cfg os e (suc fuel) path size offset fi s1
            ≡ Outcome.done ((pos aligned, slice size offset nas), s'))
  cfs_open_reads_nas contents fi disk pos_b stored sizes outdated fuel size offset room inside
        within =
      let s1 = (cfs_open cfg os e path flags s).1 in
      let none_cached = nothing_cached outdated in
      let (handle, _, nas_fd, _, _, status) = cfs_open_handle cfg os e path flags fd s good in
      let both : some fi.fh ≡ some handle = ap (λ r. r.1) (sym stored ∙ status) in
      let one : fi.fh ≡ handle = cc in
      let same : fi.fh.nas_fh ≡ pos fd = ap (λ (h : DualFileHandle). h.nas_fh) one ∙ nas_fd in
      let steady : Steady cfg os e contents fi.fh (cfs_path_to_file_name path)
          (contents fi.fh.nas_fh s1.world) (aligned_size cfg.block_size size / cfg.block_size) s1 =
        record {
          valid = cfs_open-IsValid cfg os e h path s v flags;
          sizes = cfs_open-block_size cfg os e h path s v flags ∙ sizes;
          nas_bytes = refl;
          coherent = record {
            aligned = λ o k. absurd (cc (none_cached o, k));
            agrees = λ o k g. absurd (cc (none_cached o, k));
          };
          room = fewer cfg.block_size _ _ _ _ (cfs_open-blocks cfg os e h path s v flags) room;
        } in
      let (s', got, _) =
        cfs_read_returns_nas cfg os e h contents fi disk (contents fi.fh.nas_fh s1.world) pos_b fuel
          path size offset s1 steady (rw same inside) within in
      rw (← same) (s', got)
