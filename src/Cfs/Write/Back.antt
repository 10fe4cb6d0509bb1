-- ===== src/Cfs/Write/Back.antt =====
-- What was written is read back.
use ece566_project.Prelude.{
  ℕ, suc, ◌+◌, ◌*◌, ◌/◌, ◌%◌, ◌≤◌, ◌<◌, ◌≡◌, inl, inr, List, arith, Name, length,
}
use ece566_project.Prelude.Int.{ℤ, pos, word}
use ece566_project.Sql.Engine.{Engine, IsHealthy}
use ece566_project.Posix.{Os, Sys}
use ece566_project.Cfs.{Config, FileInfo}
use ece566_project.Cfs.Paths.{cfs_path_to_file_name, cfs_full_nas_path}
use ece566_project.Cfs.Align.{align_lower_offset, aligned_size}
use ece566_project.Cfs.Align.Bounds.{aligned_size_lem}
use ece566_project.Cfs.Bytes.{overwrite, slice-overwrite_self, length-overwrite}
use ece566_project.Cfs.Disk.{IsDisk}
use ece566_project.Cfs.Outcome.{Outcome}
use ece566_project.Cfs.CacheWrite.Ready.{Ready, shrink_room}
use ece566_project.Cfs.Read.{cfs_read}
use ece566_project.Cfs.Read.Blocks.{Steady}
use ece566_project.Cfs.Read.Correct.{cfs_read_returns_nas}
use ece566_project.Cfs.Write.{cfs_write}
use ece566_project.Cfs.Write.Through.{IsWritable, cfs_write_through}
use ece566_project.Cfs.Write.Total.{cfs_write_room-Yields}

block_start : (b offset : ℕ) → 0 < b → offset % b ≡ 0 → align_lower_offset b offset ≡ offset
unfolding align_lower_offset
block_start b offset pos_b start = omega (arith, start)

module _ (cfg : Config) (os : Os) (e : Engine) (h : IsHealthy e) (contents : ℤ → os.World → List ℕ)
    (fi : FileInfo) (disk : IsDisk os contents fi.fh) (path : Name)
    (wr : IsWritable os contents fi.fh (cfs_full_nas_path cfg path)) (nas bytes : List ℕ)
    (pos_b : 0 < cfg.block_size) (fuel offset : ℕ) where
  open os use {World}

  -- A write that is done leaves the room that it does not need.
  room_left :
      (k : ℕ) (s s' : Sys World e.Db) (r : ℤ)
      → Steady cfg os e contents fi.fh
          (cfs_path_to_file_name path)
          nas
          (k + aligned_size cfg.block_size (length bytes) / cfg.block_size)
          s
      → cfs_write cfg os e (suc fuel) path bytes (length bytes) offset fi s ≡ Outcome.done (r, s')
      → Ready ⊥ cfg e k s'.meta
  room_left k s s' r st ended = rw ended at (
      cfs_write_room-Yields ⊥ Unit cfg os e h (inr tt) pos_b fuel path bytes (length bytes) offset
        fi k s (record { valid = st.valid; sizes = st.sizes; room = inl st.room }) (inr tt))

  -- The same state with room for another number of blocks.
  with_room :
      (j k : ℕ) (nas' : List ℕ) (s : Sys World e.Db)
      → Steady cfg os e contents fi.fh (cfs_path_to_file_name path) nas' j s
      → cfg.block_size * (length (e.tables s.meta.db).blocks + k) < cfg.cache_size * 1024 % word
      → Steady cfg os e contents fi.fh (cfs_path_to_file_name path) nas' k s
  with_room j k nas' s st room = record {
    valid = st.valid;
    sizes = st.sizes;
    nas_bytes = st.nas_bytes;
    coherent = st.coherent;
    room = room;
  }

  Ready-room :
      (k : ℕ) (s : Sys World e.Db)
      → Ready ⊥ cfg e k s.meta
      → cfg.block_size * (length (e.tables s.meta.db).blocks + k) < cfg.cache_size * 1024 % word
  Ready-room k s r = elim r.room [ inl room ↦ room | inr empty ↦ absurd empty ]

  -- What is written from a block's start on, into whole blocks that lie inside the NAS file, is
  -- read back by the next read of the range: both end, and the read yields the bytes of the write.
  -- The status of the read counts whole blocks. The file system and `malloc` behave as documented,
  -- the database does not fail, the block size is not 0, the file's length fits a `size_t`, and
  -- before the write the cache is coherent, the metadata valid, and there is room for twice the
  -- blocks of the range.
  pub cfs_write_reads_back :
      (s : Sys World e.Db)
      → let n = aligned_size cfg.block_size (length bytes) / cfg.block_size in
        Steady cfg os e contents fi.fh (cfs_path_to_file_name path) nas (n + n) s
        → offset % cfg.block_size ≡ 0
        → offset + aligned_size cfg.block_size (length bytes) ≤ length nas
        → length nas < word
        → (s' : Sys World e.Db) × (s'' : Sys World e.Db) × (cfs_write cfg os e
              (suc fuel)
              path
              bytes
              (length bytes)
              offset
              fi
              s
            ≡ Outcome.done (pos (length bytes), s'))
          × (cfs_read cfg os e (suc fuel) path (length bytes) offset fi s'
              ≡ Outcome.done ((pos (aligned_size cfg.block_size (length bytes)), bytes), s''))
  cfs_write_reads_back s st start inside small =
      let aligned = aligned_size cfg.block_size (length bytes) in
      let n = aligned / cfg.block_size in
      let nas' = overwrite nas offset bytes in
      let lower = block_start cfg.block_size offset pos_b start in
      let fits = aligned_size_lem cfg.block_size (length bytes) pos_b in
      let half =
        shrink_room cfg.block_size _ (length (e.tables s.meta.db).blocks) n n _ (omega arith)
          st.room in
      let (s', wrote, steady) =
        cfs_write_through cfg os e h contents fi disk path wr nas bytes pos_b fuel offset s
          (with_room _ n nas s st half) start inside small in
      let again = with_room 0 n nas' s' steady (Ready-room n s' (room_left n s s' _ st wrote)) in
      let (s'', got, _) =
        cfs_read_returns_nas cfg os e h contents fi disk nas' pos_b fuel path (length bytes) offset
          s' again (omega (arith, lower, length-overwrite nas offset bytes (omega (arith, fits))))
          (omega (arith, lower, fits)) in
      (s', s'', wrote, rw slice-overwrite_self at got)
