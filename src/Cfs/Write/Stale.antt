-- ===== src/Cfs/Write/Stale.antt =====
-- The block that a write from inside a block leaves behind: `alignedSize` does not count the part of
-- the first block before the offset.
use ece566_project.Prelude.{
  ℕ, suc, ◌+◌, ◌*◌, ◌/◌, ◌%◌, ◌≤◌, ◌<◌, ◌≡◌, refl, ap, ◌∙◌, inl, true, false, ◌==◌, List, arith,
  Name, length, length-take, take,
}
use ece566_project.Prelude.Int.{ℤ, word}
use ece566_project.Sql.Cached.{cached}
use ece566_project.Sql.Engine.{Engine, IsHealthy}
use ece566_project.Meta.{write_blks}
use ece566_project.Meta.Invariant.{IsValid}
use ece566_project.Meta.Lookups.Ranges.{write_blks-cached}
use ece566_project.Posix.{Os, Sys, Syscall, log_keeps}
use ece566_project.Cfs.{Config, FileInfo}
use ece566_project.Cfs.Paths.{cfs_path_to_file_name, cfs_full_nas_path}
use ece566_project.Cfs.Align.{align_lower_offset, aligned_size, offset_array}
use ece566_project.Cfs.Bytes.{slice, overwrite, slice-overwrite_ne}
use ece566_project.Cfs.Disk.{IsDisk}
use ece566_project.Cfs.Outcome.{Outcome}
use ece566_project.Cfs.Outcome.Yields.{Yields, Yields-bind}
use ece566_project.Cfs.CacheWrite.{cfs_cache_write, wait_for_space}
use ece566_project.Cfs.CacheWrite.Ready.{Ready, wait-Yields}
use ece566_project.Cfs.Read.Yields.{IsBounded}
use ece566_project.Cfs.Write.{cfs_write}
use ece566_project.Cfs.Write.Through.{IsWritable}
use ece566_project.Cfs.Write.Total.{size_after, world_after, nas_read_size_iff, cfs_write_then}

done_of :
    {S A : Type 0} (Q : S → Type 0) (o : Outcome (A × S))
    → Yields ⊥ ⊥ (λ _ s. Q s) o
    → (r : A) × (s : S) × (o ≡ Outcome.done (r, s)) × Q s
done_of Q (Outcome.done (r, s)) q = (r, s, refl, q)
done_of Q Outcome.hang never = absurd never
done_of Q Outcome.fault never = absurd never

module _ (cfg : Config) (os : Os) (e : Engine) (h : IsHealthy e) (contents : ℤ → os.World → List ℕ)
    (fi : FileInfo) (disk : IsDisk os contents fi.fh) (pos_b : 0 < cfg.block_size) (fuel : ℕ) where
  open os use {World}

  -- A block that is listed stays listed with its bytes.
  record Left (name : Name) (o : ℕ) (s s' : Sys World e.Db) : Type 0 where
    listed : cached (e.tables s'.meta.db) name o ≡ true
    bytes :
        slice cfg.block_size o (contents fi.fh.cache_fh s'.world)
        ≡ slice cfg.block_size o (contents fi.fh.cache_fh s.world)
    nas : contents fi.fh.nas_fh s'.world ≡ contents fi.fh.nas_fh s.world

  cfs_cache_write-Left :
      (k size offset o : ℕ) (name : Name) (buf : List ℕ) (s : Sys World e.Db)
      → Ready ⊥ cfg e k s.meta
      → cached (e.tables s.meta.db) name o ≡ true
      → offset + size ≤ o
      → o + cfg.block_size ≤ length (contents fi.fh.cache_fh s.world)
      → Yields ⊥ ⊥
          (λ _ s'. Left name o s s')
          (cfs_cache_write cfg os e (suc fuel) name buf size offset fi s)
  unfolding cfs_cache_write
  cfs_cache_write-Left k size offset o name buf s r old beyond inside =
      let offs = offset_array cfg.block_size offset (size / cfg.block_size) in
      let nonzero : (cfg.block_size == 0) ≡ false = ground arith in
      let left : Left name o s (record {
        world = (os.call (Syscall.pwrite fi.fh.cache_fh (take size buf) offset) s.world).1;
        meta = (write_blks e name offs s.meta).1;
      }) =
        record {
          listed = write_blks-cached e h name offs s.meta r.valid name o ∙ ground arith;
          bytes =
              ap (slice cfg.block_size o) (disk.written (take size buf) offset s.world)
              ∙ slice-overwrite_ne (contents fi.fh.cache_fh s.world) offset (take size buf)
                  cfg.block_size o inside (inl (omega (arith, length-take {0} size buf)));
          nas = disk.apart (take size buf) offset s.world;
        } in
      rw nonzero (
        Yields-bind ⊥ ⊥ (wait_for_space cfg os e (suc fuel)) _ s (λ _ s'. s' ≡ s) _
          (wait-Yields ⊥ cfg e os ⊥ fuel k s r) (λ _ s' same. rw (same, log_keeps) left))

  module _ (path : Name) (wr : IsWritable os contents fi.fh (cfs_full_nas_path cfg path))
      (bounded : IsBounded os) where
    world_after_nas :
        (buf : List ℕ) (size offset : ℕ) (w : World)
        → contents fi.fh.nas_fh (world_after cfg os path buf size offset fi w)
          ≡ overwrite (contents fi.fh.nas_fh w) offset (take size buf)
    world_after_nas buf size offset w =
        disk.nas.kept _ _ _ _ ∙ wr.kept _ _ ∙ wr.written (take size buf) offset w

    world_after_cache :
        (buf : List ℕ) (size offset : ℕ) (w : World)
        → contents fi.fh.cache_fh (world_after cfg os path buf size offset fi w)
          ≡ contents fi.fh.cache_fh w
    world_after_cache buf size offset w =
        disk.nas.kept _ _ _ _ ∙ wr.kept _ _ ∙ wr.apart (take size buf) offset w

    -- A write ends and puts its bytes into the NAS file, and a listed block that starts where the
    -- aligned range ends, or later, stays listed with the bytes that its copy had. The two files
    -- behave as documented, `pread` gives no more bytes than it is asked for and `malloc` what it
    -- is asked for; the NAS file reaches the first block of the range once the bytes are written,
    -- the sizes fit a `size_t`, the cache has room for the blocks of the range, the bookkeeping is
    -- valid before, for the block size of the mount, which is not 0, the engine does not fail, and
    -- `wait_for_space` has at least one round.
    pub cfs_write_leaves_block :
        (buf : List ℕ) (size offset o : ℕ) (s : Sys World e.Db)
        → IsValid e s.meta
        → s.meta.meta_block_size ≡ cfg.block_size
        → cfg.block_size
            * (length (e.tables s.meta.db).blocks
                + aligned_size cfg.block_size size / cfg.block_size)
          < cfg.cache_size * 1024 % word
        → aligned_size cfg.block_size size + align_lower_offset cfg.block_size offset < word
        → size_after cfg os path buf size offset fi s.world < word
        → align_lower_offset cfg.block_size offset
          ≤ size_after cfg os path buf size offset fi s.world
        → cached (e.tables s.meta.db) (cfs_path_to_file_name path) o ≡ true
        → align_lower_offset cfg.block_size offset + aligned_size cfg.block_size size ≤ o
        → o + cfg.block_size ≤ length (contents fi.fh.cache_fh s.world)
        → (r : ℤ) × (s' : Sys World e.Db) × (cfs_write cfg os e (suc fuel) path buf size offset fi s
            ≡ Outcome.done (r, s'))
          × (cached (e.tables s'.meta.db) (cfs_path_to_file_name path) o ≡ true)
          × (slice cfg.block_size o (contents fi.fh.cache_fh s'.world)
              ≡ slice cfg.block_size o (contents fi.fh.cache_fh s.world))
          × (contents fi.fh.nas_fh s'.world
              ≡ overwrite (contents fi.fh.nas_fh s.world) offset (take size buf))
    cfs_write_leaves_block buf size offset o s v sizes room small fits reaches old beyond inside =
        let name = cfs_path_to_file_name path in
        let s1 : Sys World e.Db = record s {
          world = world_after cfg os path buf size offset fi s.world;
        } in
        let same_cache = world_after_cache buf size offset s.world in
        let k = aligned_size cfg.block_size size / cfg.block_size in
        let (r, s', ended, left) =
          done_of (λ s'. Left name o s1 s') _
            (cfs_write_then ⊥ ⊥ cfg os e h (inl bounded) pos_b fuel path buf size offset fi
              (λ s'. Left name o s1 s') s (inl ((nas_read_size_iff _ _ _ small fits).1 reaches))
              (λ mem s2 same. rw same (
                cfs_cache_write-Left k (aligned_size cfg.block_size size)
                  (align_lower_offset cfg.block_size offset) o name mem s1
                  (record { valid = v; sizes = sizes; room = inl room }) old beyond
                  (rw same_cache inside)))) in
        (
          r,
          s',
          ended,
          left.listed,
          left.bytes ∙ ap (slice cfg.block_size o) same_cache,
          left.nas ∙ world_after_nas buf size offset s.world,
        )
