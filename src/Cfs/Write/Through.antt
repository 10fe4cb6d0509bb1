-- ===== src/Cfs/Write/Through.antt =====
-- `cfs_write` into a file that is long enough: what the NAS and the cache hold after it.
use ece566_project.Prelude.{
  ℕ, suc, ◌+◌, ◌*◌, ◌/◌, ◌%◌, ◌≤◌, ◌<◌, ◌≡◌, sym, ap, ◌∙◌, false, List, arith, ◌==◌, Name, length,
}
use ece566_project.Prelude.Int.{ℤ, pos, word}
use ece566_project.Sql.Engine.{Engine, IsHealthy}
use ece566_project.Posix.{Os, Sys, Syscall, log_syscall, log_retstat, log_syscall_state}
use ece566_project.Cfs.{Config, FileInfo, DualFileHandle}
use ece566_project.Cfs.Paths.{cfs_path_to_file_name, cfs_full_nas_path}
use ece566_project.Cfs.Align.{align_lower_offset, aligned_size}
use ece566_project.Cfs.Align.Bounds.{aligned_size_lem}
use ece566_project.Cfs.Attributes.{cfs_get_nas_attr}
use ece566_project.Cfs.Bytes.{slice, overwrite, length-slice, length-overwrite, take_all}
use ece566_project.Cfs.Disk.{IsDisk}
use ece566_project.Cfs.Outcome.{Outcome}
use ece566_project.Cfs.CacheWrite.{cfs_cache_write}
use ece566_project.Cfs.Read.Blocks.{Steady}
use ece566_project.Cfs.Read.Correct.{overwrite_whole}
use ece566_project.Cfs.Write.{cfs_write, nas_read_size}
use native.Mathlib.Nat.{div-add-mod}
use ece566_project.Cfs.Write.Cached.{after_write, after_write-Steady, cache_range}

-- The NAS file of a handle can be written, `lstat` of its path tells its length, and neither touches
-- the cached copy.
pub record IsWritable (os : Os) (contents : ℤ → os.World → List ℕ) (fh : DualFileHandle)
    (path : Name) : Type 0 where
  pub written :
      (bytes : List ℕ) (off : ℕ) (w : os.World)
      → contents fh.nas_fh (os.call (Syscall.pwrite fh.nas_fh bytes off) w).1
        ≡ overwrite (contents fh.nas_fh w) off bytes
  pub value :
      (bytes : List ℕ) (off : ℕ) (w : os.World)
      → (os.call (Syscall.pwrite fh.nas_fh bytes off) w).0.value ≡ pos (length bytes)
  pub apart :
      (bytes : List ℕ) (off : ℕ) (w : os.World)
      → contents fh.cache_fh (os.call (Syscall.pwrite fh.nas_fh bytes off) w).1
        ≡ contents fh.cache_fh w
  pub st_size :
      (w : os.World)
      → (os.call (Syscall.lstat path) w).0.stat.st_size ≡ length (contents fh.nas_fh w)
  pub kept : (w : os.World) (g : ℤ) → contents g (os.call (Syscall.lstat path) w).1 ≡ contents g w

whole_read :
    (aligned lower st_size : ℕ)
    → lower + aligned ≤ st_size
    → st_size < word
    → nas_read_size aligned lower st_size ≡ aligned
unfolding nas_read_size
whole_read aligned lower st_size h small = ground arith

log_ok :
    (os : Os) {Db : Type 0} (n : ℕ) (s : Sys os.World Db)
    → log_syscall os (pos n) (pos 0) s ≡ (pos n, s)
unfolding log_syscall log_retstat
log_ok os n s = ground arith

block_start : (b offset : ℕ) → offset % b ≡ 0 → align_lower_offset b offset ≡ offset
unfolding align_lower_offset
block_start b offset h = omega arith

-- What the NAS and the cache hold once the bytes are written to the NAS file, its length is looked
-- up and its blocks are read again, and what the last two calls answered.
read_again :
    (os : Os) (contents : ℤ → os.World → List ℕ) (fi : FileInfo) (disk : IsDisk os contents fi.fh)
    (full : Name) (wr : IsWritable os contents fi.fh full) (nas bytes : List ℕ) (offset aligned : ℕ)
    (w : os.World)
    → contents fi.fh.nas_fh w ≡ nas
    → let nas' = overwrite nas offset bytes in
      let w1 = (os.call (Syscall.pwrite fi.fh.nas_fh bytes offset) w).1 in
      let w2 = (os.call (Syscall.lstat full) w1).1 in
      let w3 = (os.call (Syscall.pread fi.fh.nas_fh aligned offset) w2).1 in
      (contents fi.fh.nas_fh w3 ≡ nas')
      × (contents fi.fh.cache_fh w3 ≡ contents fi.fh.cache_fh w)
      × ((os.call (Syscall.lstat full) w1).0.stat.st_size ≡ length nas')
      × ((os.call (Syscall.pread fi.fh.nas_fh aligned offset) w2).0.bytes
          ≡ slice aligned offset nas')
read_again os contents fi disk full wr nas bytes offset aligned w held =
    let w1 = (os.call (Syscall.pwrite fi.fh.nas_fh bytes offset) w).1 in
    let w2 = (os.call (Syscall.lstat full) w1).1 in
    let nas1 : contents fi.fh.nas_fh w1 ≡ overwrite nas offset bytes =
      wr.written bytes offset w ∙ ap (λ (x : List ℕ). overwrite x offset bytes) held in
    let nas2 = wr.kept w1 fi.fh.nas_fh ∙ nas1 in
    (
      disk.nas.kept aligned offset w2 fi.fh.nas_fh ∙ nas2,
      disk.nas.kept aligned offset w2 fi.fh.cache_fh
          ∙ wr.kept w1 fi.fh.cache_fh
          ∙ wr.apart bytes offset w,
      wr.st_size w1 ∙ ap (length {A = ℕ}) nas1,
      disk.nas.bytes aligned offset w2 ∙ ap (slice aligned offset) nas2,
    )

-- A write from a block's start on, whose whole blocks lie inside the NAS file, ends with the
-- number of its bytes; the NAS file then has them in their place, the cache is coherent with the
-- new NAS file, and the metadata is valid. The file system and `malloc` behave as documented, the
-- database does not fail, the block size is not 0, the file's length fits a `size_t`, and before
-- the write the cache is coherent, the metadata valid, and there is room for the blocks.
pub cfs_write_through :
    (cfg : Config) (os : Os) (e : Engine) (h : IsHealthy e) (contents : ℤ → os.World → List ℕ)
    (fi : FileInfo) (disk : IsDisk os contents fi.fh) (path : Name)
    (wr : IsWritable os contents fi.fh (cfs_full_nas_path cfg path)) (nas bytes : List ℕ)
    (pos_b : 0 < cfg.block_size) (fuel offset : ℕ) (s : Sys os.World e.Db)
    → let aligned = aligned_size cfg.block_size (length bytes) in
      let name = cfs_path_to_file_name path in
      Steady cfg os e contents fi.fh name nas (aligned / cfg.block_size) s
      → offset % cfg.block_size ≡ 0
      → offset + aligned ≤ length nas
      → length nas < word
      → (s' : Sys os.World e.Db) × (cfs_write cfg os e
            (suc fuel)
            path
            bytes
            (length bytes)
            offset
            fi
            s
          ≡ Outcome.done (pos (length bytes), s'))
        × Steady cfg os e contents fi.fh name (overwrite nas offset bytes) 0 s'
unfolding cfs_write cfs_get_nas_attr
cfs_write_through cfg os e h contents fi disk path wr nas bytes pos_b fuel offset s st start inside
      small =
    let bs = cfg.block_size in
    let aligned = aligned_size bs (length bytes) in
    let name = cfs_path_to_file_name path in
    let full = cfs_full_nas_path cfg path in
    let n = aligned / bs in
    let nas' = overwrite nas offset bytes in
    let size_facts = aligned_size_lem bs (length bytes) pos_b in
    let whole : bs * n ≡ aligned = omega (arith, div-add-mod aligned bs, size_facts.0) in
    let w1 = (os.call (Syscall.pwrite fi.fh.nas_fh bytes offset) s.world).1 in
    let w2 = (os.call (Syscall.lstat full) w1).1 in
    let w3 = (os.call (Syscall.pread fi.fh.nas_fh aligned offset) w2).1 in
    let (nas3, cache3, st_size, got) =
      read_again os contents fi disk full wr nas bytes offset aligned s.world st.nas_bytes in
    let len : length nas' ≡ length nas = length-overwrite nas offset bytes (omega arith) in
    let block = slice aligned offset nas' in
    let from_nas : block ≡ slice (bs * n) offset nas' =
      ap (λ (k : ℕ). slice k offset nas') (sym whole) in
    let s' =
      after_write cfg os e h contents fi disk name pos_b n offset nas bytes block s w3 st start
        (rw whole inside) (omega arith) from_nas nas3 cache3 in
    let ran =
      cache_range cfg os e h contents fi disk name pos_b n offset nas bytes block s w3 st start
        (rw whole inside) (omega arith) from_nas nas3 cache3 fuel in
    let ran' : cfs_cache_write cfg os e (suc fuel) name block aligned offset fi
          (record s { world = w3 })
        ≡ Outcome.done (ran.0, s') =
      rw whole at ran.1 in
    let looked =
      log_syscall_state os (os.call (Syscall.lstat full) w1).0.value (pos 0)
        (record s { world = w2 }) in
    let logged =
      log_syscall_state os (os.call (Syscall.pread fi.fh.nas_fh aligned offset) w2).0.value (pos 0)
        (record s { world = w3 }) in
    let nonzero : (bs == 0) ≡ false = ground arith in
    let lower = block_start bs offset start in
    let reading =
      whole_read aligned offset (os.call (Syscall.lstat full) w1).0.stat.st_size
        (omega (arith, st_size, len)) (omega (arith, st_size, len)) in
    let filled : length block ≡ aligned = length-slice aligned offset nas' (omega (arith, len)) in
    let room = disk.malloc aligned w2 in
    let stored = overwrite_whole (os.malloc aligned w2) block (omega (arith, room, filled)) in
    let taken = take_all (length bytes) bytes (omega arith) in
    let steady : Steady cfg os e contents fi.fh name nas' 0 s' =
      after_write-Steady cfg os e h contents fi disk name pos_b n offset nas bytes block s w3 st
        start (rw whole inside) (omega arith) from_nas nas3 cache3 in
    (
      s',
      rw (nonzero, lower, taken, wr.value, log_ok os (length bytes), looked, reading, got, logged)
          (ground (arith, stored, filled, room, ran')),
      steady,
    )
