-- ===== src/Cfs/Read/Correct.antt =====
-- `cfs_read` on a range inside the NAS file.
use ece566_project.Prelude.{
  ℕ, zero, suc, ◌+◌, ◌-◌, ◌*◌, ◌/◌, ◌%◌, ◌≤◌, ◌<◌, ◌≡◌, sym, ap, ◌∙◌, inl, inr, true, false, List,
  map, arith, Name, length, Bool-cases,
}
use ece566_project.Prelude.Int.{ℤ, pos, ◌+ℤ◌}
use ece566_project.Sql.{Tables}
use ece566_project.Sql.Cached.{cached}
use ece566_project.Sql.Engine.{Engine, IsHealthy}
use ece566_project.Meta.{are_blocks_in_cache}
use ece566_project.Meta.Lookups.{bit}
use ece566_project.Meta.Lookups.Ranges.{all_cached, are_blocks_in_cache-cached}
use ece566_project.Meta.Invariant.{are_blocks_in_cache-IsValid}
use ece566_project.Meta.Growth.{are_blocks_in_cache-Grows}
use ece566_project.Posix.{Os, Sys, Syscall, log_syscall, log_retstat}
use ece566_project.Cfs.{Config, FileInfo}
use ece566_project.Cfs.Paths.{cfs_path_to_file_name}
use ece566_project.Cfs.Align.{offset_array, align_lower_offset, aligned_size}
use ece566_project.Cfs.Align.Bounds.{align_lower_offset_lem, aligned_size_lem}
use ece566_project.Cfs.Bytes.{
  slice, overwrite, length-slice, length-overwrite, take-overwrite_next, slice-add, slice-slice,
  take_all,
}
use ece566_project.Cfs.Disk.{IsDisk}
use ece566_project.Cfs.Outcome.{Outcome}
use ece566_project.Cfs.Read.{cfs_read, fetch, data_hit, copy_out}
use ece566_project.Cfs.Read.Coherent.{Coherent}
use ece566_project.Cfs.Read.Blocks.{Steady}
use ece566_project.Cfs.Read.Loop.{read_blocks_lem}
use ece566_project.Cfs.Read.Rounds.{after_pread-Steady}
use mathlib.Core.Path.{ap₂}
use native.Mathlib.Nat.{mul-mod_right, div-add-mod, mul-zero, mul-div_cancel_left}

-- Where every block of a range is cached, the cache holds the bytes of the NAS there.
Coherent-range :
    (b n start : ℕ) (t : Tables) (name : Name) (nas cache : List ℕ)
    → Coherent b t name nas cache
    → all_cached t name (offset_array b start n) ≡ true
    → start + b * n ≤ length nas
    → slice (b * n) start cache ≡ slice (b * n) start nas
unfolding offset_array
Coherent-range b zero start t name nas cache c all inside = rw mul-zero
Coherent-range b (suc n) start t name nas cache c all inside =
    let e : b * suc n ≡ b + b * n = omega arith in
    let here = c.agrees start (ground arith) (omega arith) in
    let rest = Coherent-range b n (start + b) t name nas cache c (ground arith) (omega arith) in
    rw (e, slice-add, here, rest) (sym (slice-add b (b * n) start nas))

fewer_blocks : (b n k limit : ℕ) → b * (n + k) < limit → b * (n + 0) < limit
fewer_blocks b n k limit h = omega arith

pub overwrite_whole :
    (buf bytes : List ℕ) → length bytes ≡ length buf → overwrite buf 0 bytes ≡ bytes
overwrite_whole buf bytes h =
    sym (
      take_all (0 + length bytes) (overwrite buf 0 bytes)
        (omega (arith, length-overwrite buf 0 bytes (omega arith))))
    ∙ take-overwrite_next buf 0 bytes (omega arith)

from_zero : (l : ℕ) → pos 0 +ℤ pos l ≡ pos l
unfolding ◌+ℤ◌
from_zero l = ground arith

module _ (cfg : Config) (os : Os) (e : Engine) (h : IsHealthy e) (contents : ℤ → os.World → List ℕ)
    (fi : FileInfo) (disk : IsDisk os contents fi.fh) (name : Name) (nas : List ℕ)
    (pos_b : 0 < cfg.block_size) where
  open os use {World}
  open cfg use {block_size}

  module _ (fuel n lower : ℕ) (s : Sys World e.Db)
      (st : Steady cfg os e contents fi.fh name nas n s) (start : lower % block_size ≡ 0)
      (inside : lower + block_size * n ≤ length nas) (buf : List ℕ)
      (size : length buf ≡ block_size * n) where
    hits : List ℤ
    hits = map (λ o. bit (cached (e.tables s.meta.db) name o)) (offset_array block_size lower n)

    -- All from the cache.
    fetch_hit :
        all_cached (e.tables s.meta.db) name (offset_array block_size lower n) ≡ true
        → fetch cfg os e (suc fuel) name fi true hits lower (block_size * n) buf s
          ≡ Outcome.done (
            (pos (block_size * n), slice (block_size * n) lower nas),
            record s {
              world = (os.call (Syscall.pread fi.fh.cache_fh (block_size * n) lower) s.world).1;
            },
          )
    unfolding fetch log_syscall log_retstat
    fetch_hit all =
        let bytes = slice (block_size * n) lower nas in
        let same_bytes =
          Coherent-range block_size n lower (e.tables s.meta.db) name nas _ st.coherent all
            inside in
        let len = length-slice (block_size * n) lower nas inside in
        ground (
          arith,
          disk.cache.bytes (block_size * n) lower s.world,
          disk.cache.value (block_size * n) lower s.world,
          same_bytes,
          len,
          overwrite_whole buf bytes,
        )

    fetch_blocks :
        (s' : Sys World e.Db) × (fetch cfg os e
            (suc fuel)
            name
            fi
            false
            hits
            lower
            (block_size * n)
            buf
            s
          ≡ Outcome.done ((pos (block_size * n), slice (block_size * n) lower nas), s'))
        × Steady cfg os e contents fi.fh name nas 0 s'
    unfolding fetch hits
    fetch_blocks =
        let (r, buf', s', e1, f) =
          read_blocks_lem cfg os e h contents fi disk name nas pos_b fuel n lower 0
            (e.tables s.meta.db) (pos 0) buf s st (λ o q. q) start inside (omega arith) in
        let status : r ≡ pos (block_size * n) = f.status ∙ from_zero (block_size * n) in
        let bytes : buf' ≡ slice (block_size * n) lower nas =
          sym (take_all (0 + block_size * n) buf' (omega (arith, f.size))) ∙ f.bytes in
        (
          s',
          rw (mul-div_cancel_left n pos_b)
              (e1 ∙ ap₂ (λ x y. Outcome.done ((x, y), s')) status bytes),
          f.steady,
        )

  -- Looking the blocks up keeps the state, but for the open statements.
  looked_up-Steady :
      (k : ℕ) (offs : List ℕ) (s : Sys World e.Db)
      → Steady cfg os e contents fi.fh name nas k s
      → Steady cfg os e contents fi.fh name nas k
          (record s { meta = (are_blocks_in_cache e name offs s.meta).2 })
  looked_up-Steady k offs s st =
      let g = are_blocks_in_cache-Grows e h name offs s.meta st.valid in
      let kept = (are_blocks_in_cache-cached e h name offs s.meta st.valid).2 in
      record {
        valid = are_blocks_in_cache-IsValid e h name offs s.meta st.valid;
        sizes = g.meta_block_size ∙ st.sizes;
        nas_bytes = st.nas_bytes;
        coherent = rw kept st.coherent;
        room = rw kept st.room;
      }

  fetch_lem :
      (fuel n lower : ℕ) (s : Sys World e.Db) (buf : List ℕ) (t : Tables)
      → Steady cfg os e contents fi.fh name nas n s
      → t ≡ e.tables s.meta.db
      → lower % block_size ≡ 0
      → lower + block_size * n ≤ length nas
      → length buf ≡ block_size * n
      → (s' : Sys World e.Db) × (fetch cfg os e
            (suc fuel)
            name
            fi
            (all_cached t name (offset_array block_size lower n))
            (map (λ o. bit (cached t name o)) (offset_array block_size lower n))
            lower
            (block_size * n)
            buf
            s
          ≡ Outcome.done ((pos (block_size * n), slice (block_size * n) lower nas), s'))
        × Steady cfg os e contents fi.fh name nas 0 s'
  unfolding hits
  fetch_lem fuel n lower s buf t st same start inside size =
      let all = all_cached (e.tables s.meta.db) name (offset_array block_size lower n) in
      rw same (elim (Bool-cases all) [
        | inl every ↦ (
          record s {
            world = (os.call (Syscall.pread fi.fh.cache_fh (block_size * n) lower) s.world).1;
          },
          rw every (fetch_hit fuel n lower s st start inside buf size every),
          fewer n _ (
              after_pread-Steady cfg os e h contents fi disk name nas pos_b fi.fh.cache_fh
                (block_size * n) lower n s disk.cache st),
        )
        | inr some_missing ↦ rw some_missing (fetch_blocks fuel n lower s st start inside buf size)
      ])
    where
      fewer :
          (k : ℕ) (s : Sys World e.Db)
          → Steady cfg os e contents fi.fh name nas k s
          → Steady cfg os e contents fi.fh name nas 0 s
      fewer k s st = record {
        valid = st.valid;
        sizes = st.sizes;
        nas_bytes = st.nas_bytes;
        coherent = st.coherent;
        room = fewer_blocks block_size (length (e.tables s.meta.db).blocks) k _ st.room;
      }

-- A read whose blocks lie inside the NAS file, and whose bytes lie inside its blocks, ends and
-- yields exactly the bytes of the NAS file, however many of its blocks were cached; the cache
-- stays coherent and the metadata valid. The status counts the whole blocks. The file system and
-- `malloc` behave as documented, the database does not fail, the block size is not 0, and before
-- the read the cache is coherent, the metadata valid, and there is room for the blocks.
pub cfs_read_returns_nas :
    (cfg : Config) (os : Os) (e : Engine) (h : IsHealthy e) (contents : ℤ → os.World → List ℕ)
    (fi : FileInfo) (disk : IsDisk os contents fi.fh) (nas : List ℕ) (pos_b : 0 < cfg.block_size)
    (fuel : ℕ) (path : Name) (size offset : ℕ) (s : Sys os.World e.Db)
    → let aligned = aligned_size cfg.block_size size in
      let lower = align_lower_offset cfg.block_size offset in
      let name = cfs_path_to_file_name path in
      Steady cfg os e contents fi.fh name nas (aligned / cfg.block_size) s
      → lower + aligned ≤ length nas
      → offset - lower + size ≤ aligned
      → (s' : Sys os.World e.Db) × (cfs_read cfg os e (suc fuel) path size offset fi s
          ≡ Outcome.done ((pos aligned, slice size offset nas), s'))
        × Steady cfg os e contents fi.fh name nas 0 s'
unfolding cfs_read data_hit copy_out
cfs_read_returns_nas cfg os e h contents fi disk nas pos_b fuel path size offset s st inside
      within =
    let bs = cfg.block_size in
    let aligned = aligned_size bs size in
    let lower = align_lower_offset bs offset in
    let name = cfs_path_to_file_name path in
    let n = aligned / bs in
    let offs = offset_array bs lower n in
    let lower_facts = align_lower_offset_lem bs offset pos_b in
    let start : lower % bs ≡ 0 =
      ap (λ (l : ℕ). l % bs) lower_facts.0 ∙ mul-mod_right bs (offset / bs) in
    let whole : bs * n ≡ aligned =
      omega (arith, div-add-mod aligned bs, (aligned_size_lem bs size pos_b).0) in
    let s1 = record s { meta = (are_blocks_in_cache e name offs s.meta).2 } in
    let lookups = are_blocks_in_cache-cached e h name offs s.meta st.valid in
    let buf = os.malloc aligned s.world in
    let (s', fetched, steady) =
      fetch_lem cfg os e h contents fi disk name nas pos_b fuel n lower s1 buf (e.tables s.meta.db)
        (looked_up-Steady cfg os e h contents fi disk name nas pos_b n offs s st) (sym lookups.2)
        start (rw whole inside) (disk.malloc aligned s.world ∙ sym whole) in
    let fetched' = rw whole at fetched in
    let len = length-slice aligned lower nas inside in
    let part : slice size (offset - lower) (slice aligned lower nas) ≡ slice size offset nas =
      slice-slice size (offset - lower) aligned lower nas within
      ∙ ap (λ (o : ℕ). slice size o nas) (omega (arith, lower_facts)) in
    (s', ground (arith, lookups, fetched', len, part), steady)
