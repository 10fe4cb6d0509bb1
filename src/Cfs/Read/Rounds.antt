-- ===== src/Cfs/Read/Rounds.antt =====
-- One round of the loop of `cfs_read` over the blocks of a range that lies inside the NAS file:
-- a block that is cached and one that is not, and what is known of the buffer after it.
use ece566_project.Prelude.{
  ℕ, suc, ◌+◌, ◌*◌, ◌%◌, ◌≤◌, ◌<◌, ◌≡◌, refl, sym, ap, ◌∙◌, true, List, [], ◌∷◌, ◌++◌, arith, Name,
  length, take, drop,
}
use ece566_project.Prelude.Int.{ℤ, pos, ◌+ℤ◌, +ℤ_pos_pos}
use ece566_project.Sql.Cached.{cached}
use ece566_project.Sql.Engine.{Engine, IsHealthy}
use ece566_project.Meta.Lookups.Ranges.{write_blks-cached}
use ece566_project.Posix.{Os, Sys, Syscall}
use ece566_project.Cfs.{Config, FileInfo}
use ece566_project.Cfs.Bytes.{
  slice, overwrite, slice-overwrite_self, length-slice, length-overwrite, take-overwrite_next,
  slice-add,
}
use ece566_project.Cfs.Disk.{IsDisk, IsReadable}
use ece566_project.Cfs.Outcome.{Outcome}
use ece566_project.Cfs.Read.{read_blocks}
use ece566_project.Cfs.Read.Blocks.{
  Steady, after_block, after_block-Steady, cache_block, more_blocks,
}
use mathlib.Core.List.{append_assoc}

module _ (cfg : Config) (os : Os) (e : Engine) (h : IsHealthy e) (contents : ℤ → os.World → List ℕ)
    (fi : FileInfo) (disk : IsDisk os contents fi.fh) (name : Name) (nas : List ℕ)
    (pos_b : 0 < cfg.block_size) where
  open os use {World}
  open cfg use {block_size}

  abbrev pub after_pread : ℤ → ℕ → ℕ → Sys World e.Db → Sys World e.Db
  after_pread fd n off s = record s { world = (os.call (Syscall.pread fd n off) s.world).1 }

  -- A read leaves everything as it was, with room for one block to spare.
  pub after_pread-Steady :
      (fd : ℤ) (n off k : ℕ) (s : Sys World e.Db)
      → IsReadable os contents fd
      → Steady cfg os e contents fi.fh name nas k s
      → Steady cfg os e contents fi.fh name nas k (after_pread fd n off s)
  after_pread-Steady fd n off k s r st = record {
    valid = st.valid;
    sizes = st.sizes;
    nas_bytes = r.kept n off s.world fi.fh.nas_fh ∙ st.nas_bytes;
    coherent = rw r.kept st.coherent;
    room = st.room;
  }

  pub spare :
      (k : ℕ) (s : Sys World e.Db)
      → Steady cfg os e contents fi.fh name nas (suc k) s
      → Steady cfg os e contents fi.fh name nas k s
  spare k s st = record {
    valid = st.valid;
    sizes = st.sizes;
    nas_bytes = st.nas_bytes;
    coherent = st.coherent;
    room = more_blocks block_size (length (e.tables s.meta.db).blocks) _ k _ (omega arith) st.room;
  }

  -- What is known of `cacheBuf` and the state once the blocks of a range have been read into it.
  pub record Filled (n start at : ℕ) (retstat : ℤ) (buf : List ℕ) (r : ℤ) (buf' : List ℕ)
      (s' : Sys World e.Db) : Type 0 where
    pub status : r ≡ retstat +ℤ pos (block_size * n)
    pub bytes : take (at + block_size * n) buf' ≡ take at buf ++ slice (block_size * n) start nas
    pub size : length buf' ≡ length buf
    pub steady : Steady cfg os e contents fi.fh name nas 0 s'

  -- The rounds over these blocks end, and have read the range into the buffer.
  abbrev pub Fills : ℕ → List ℤ → List ℕ → ℕ → ℕ → ℕ → ℤ → List ℕ → Sys World e.Db → Type 0
  Fills fuel hits offs n start at retstat buf s =
      (r : ℤ) × (buf' : List ℕ) × (s' : Sys World e.Db) × (read_blocks cfg os e (suc fuel) name fi
          hits offs at retstat buf s
        ≡ Outcome.done ((r, buf'), s'))
      × Filled n start at retstat buf r buf' s'

  module _ (fuel : ℕ) (hits : List ℤ) (offs : List ℕ) (at : ℕ) (retstat : ℤ) (buf : List ℕ)
      (k off : ℕ) (s : Sys World e.Db) (st : Steady cfg os e contents fi.fh name nas (suc k) s)
      (inside : off + block_size ≤ length nas) (fits : at + block_size ≤ length buf) where
    abbrev pub next_buf : List ℕ
    next_buf = overwrite buf at (slice block_size off nas)

    hit_step :
        slice block_size off (contents fi.fh.cache_fh s.world) ≡ slice block_size off nas
        → read_blocks cfg os e (suc fuel) name fi (pos 1 ∷ hits) (off ∷ offs) at retstat buf s
          ≡ read_blocks cfg os e
              (suc fuel)
              name
              fi
              hits
              offs
              (at + block_size)
              (retstat +ℤ pos block_size)
              next_buf
              (after_pread fi.fh.cache_fh block_size off s)
    unfolding read_blocks
    hit_step agrees = ground (
      arith,
      disk.cache.bytes block_size off s.world,
      disk.cache.value block_size off s.world,
      length-slice block_size off nas inside,
    )

    abbrev nas_read : Sys World e.Db
    nas_read = after_pread fi.fh.nas_fh block_size off s

    abbrev pub after_miss : Sys World e.Db
    after_miss =
        after_block cfg os e h contents fi disk name nas pos_b (slice block_size off nas) off
          nas_read

    -- the bytes handed to `cfs_cacheWrite` are those just read
    just_read : take block_size (drop at next_buf) ≡ slice block_size off nas
    just_read =
        ap (λ (n : ℕ). slice n at next_buf) (sym (length-slice block_size off nas inside))
        ∙ slice-overwrite_self buf at (slice block_size off nas)

    miss_step :
        read_blocks cfg os e (suc fuel) name fi (pos 0 ∷ hits) (off ∷ offs) at retstat buf s
        ≡ read_blocks cfg os e
            (suc fuel)
            name
            fi
            hits
            offs
            (at + block_size)
            (retstat +ℤ pos block_size)
            next_buf
            after_miss
    unfolding read_blocks
    miss_step =
        let steady = after_pread-Steady fi.fh.nas_fh block_size off (suc k) s disk.nas st in
        let written =
          cache_block cfg os e h contents fi disk name nas pos_b fuel k off (drop at next_buf)
            nas_read steady in
        ground (
          arith,
          disk.nas.bytes block_size off s.world,
          disk.nas.value block_size off s.world,
          st.nas_bytes,
          just_read,
          written,
          length-slice block_size off nas inside,
        )

    pub miss-Steady : off % block_size ≡ 0 → Steady cfg os e contents fi.fh name nas k after_miss
    miss-Steady start =
        after_block-Steady cfg os e h contents fi disk name nas pos_b k off
          (slice block_size off nas) nas_read
          (after_pread-Steady fi.fh.nas_fh block_size off (suc k) s disk.nas st) start inside refl

    pub miss_mono :
        (o : ℕ)
        → cached (e.tables s.meta.db) name o ≡ true
        → cached (e.tables after_miss.meta.db) name o ≡ true
    unfolding after_block
    miss_mono o q = ground (arith, write_blks-cached e h name (off ∷ []) s.meta st.valid name o)

    next_bytes :
        (n : ℕ) (buf' : List ℕ)
        → take (at + block_size + block_size * n) buf'
          ≡ take (at + block_size) next_buf ++ slice (block_size * n) (off + block_size) nas
        → take (at + block_size * suc n) buf' ≡ take at buf ++ slice (block_size * suc n) off nas
    next_bytes n buf' q =
        let block = slice block_size off nas in
        let filled : take (at + block_size) next_buf ≡ take at buf ++ block =
          ap (λ (l : ℕ). take (at + l) next_buf) (sym (length-slice block_size off nas inside))
          ∙ take-overwrite_next buf at block (omega arith) in
        let whole : slice (block_size * suc n) off nas
            ≡ block ++ slice (block_size * n) (off + block_size) nas =
          ap (λ (l : ℕ). slice l off nas) (omega arith)
          ∙ slice-add block_size (block_size * n) off nas in
        ap (λ (l : ℕ). take l buf') (omega arith)
        ∙ q
        ∙ ap (λ (l : List ℕ). l ++ slice (block_size * n) (off + block_size) nas) filled
        ∙ append_assoc (take at buf) block _
        ∙ ap (λ (l : List ℕ). take at buf ++ l) (sym whole)

    pub next_fits : length next_buf ≡ length buf
    next_fits = length-overwrite buf at _ (omega (arith, length-slice block_size off nas inside))

    next_Filled :
        (n : ℕ) (r : ℤ) (buf' : List ℕ) (s' : Sys World e.Db)
        → Filled n
            (off + block_size)
            (at + block_size)
            (retstat +ℤ pos block_size)
            next_buf
            r
            buf'
            s'
        → Filled (suc n) off at retstat buf r buf' s'
    next_Filled n r buf' s' f = record {
      status =
          f.status
          ∙ +ℤ_pos_pos retstat block_size (block_size * n)
          ∙ ap (λ (l : ℕ). retstat +ℤ pos l) (omega arith);
      bytes = next_bytes n buf' f.bytes;
      size = f.size ∙ next_fits;
      steady = f.steady;
    }

    -- A block that is cached and agrees with the NAS file, before the rounds over the others.
    pub hit_round :
        (n : ℕ)
        → slice block_size off (contents fi.fh.cache_fh s.world) ≡ slice block_size off nas
        → Fills fuel hits offs n
            (off + block_size)
            (at + block_size)
            (retstat +ℤ pos block_size)
            next_buf
            (after_pread fi.fh.cache_fh block_size off s)
        → Fills fuel (pos 1 ∷ hits) (off ∷ offs) (suc n) off at retstat buf s
    hit_round n agrees (r, buf', s', ran, f) =
        (r, buf', s', hit_step agrees ∙ ran, next_Filled n r buf' s' f)

    -- A block that is not, which is copied into the cache.
    pub miss_round :
        (n : ℕ)
        → Fills fuel hits offs n
            (off + block_size)
            (at + block_size)
            (retstat +ℤ pos block_size)
            next_buf
            after_miss
        → Fills fuel (pos 0 ∷ hits) (off ∷ offs) (suc n) off at retstat buf s
    miss_round n (r, buf', s', ran, f) = (r, buf', s', miss_step ∙ ran, next_Filled n r buf' s' f)
