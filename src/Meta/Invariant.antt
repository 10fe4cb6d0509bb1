-- ===== src/Meta/Invariant.antt =====
-- The counter of meta.c is the size of the blocks that the database lists, through every
-- operation that CacheFS calls.
use ece566_project.Prelude.{
  ℕ, suc, ◌+◌, ◌*◌, ◌%◌, ◌<◌, ◌^◌, ◌≡◌, sym, ap, ◌∙◌, true, some, List, [], ◌∷◌, arith, is_some,
  Name, length, Option-cases, inl, inr,
}
use ece566_project.Prelude.Int.{ℤ, word, to_int64}
use ece566_project.Sql.{FileRow, Tables, find_path, find_block, remove_id}
use ece566_project.Sql.Counts.{count_of, length-touch}
use ece566_project.Sql.Catalog.{
  there, IsConsistent, drop_file_size, add_file-IsConsistent, add_block-IsConsistent,
  drop_file-IsConsistent, refresh_block-IsConsistent,
}
use ece566_project.Sql.Engine.{Engine, IsHealthy}
use ece566_project.Meta.{
  Meta, sub_size, create_file, insert_block, insert_blocks, delete_file, is_file_in_cache,
  is_blk_in_cache, check_blocks, update_blk_time, write_blk, write_each, write_blks,
  are_blocks_in_cache,
}
use ece566_project.Meta.Effects.{After}
use ece566_project.Meta.Effects.Blocks.{
  insert_block_new, insert_block_refused, update_blk_time_lem, is_blk_in_cache_found,
  is_blk_in_cache_missed, is_blk_in_cache_unknown, update_blk_time_unknown,
}
use ece566_project.Meta.Effects.Files.{
  is_file_in_cache_found, is_file_in_cache_missed, create_file_new, create_file_twice,
  delete_file_found,
}

pub record IsValid (e : Engine) (m : Meta e.Db) : Type 0 where
  pub consistent : IsConsistent m.meta_block_size (e.tables m.db)
  pub counted : m.cache_used_size ≡ (m.meta_block_size * length (e.tables m.db).blocks) % word
  pub small : m.meta_block_size < 2 ^ 63

-- Adding and taking away whole blocks, modulo the word.
pub add_counted :
    (bs n used : ℕ) → used ≡ (bs * n) % word → (used + bs) % word ≡ (bs * suc n) % word
add_counted bs n used h = omega arith

pub sub_counted :
    (bs k n l used : ℕ)
    → n + k ≡ l
    → used ≡ (bs * l) % word
    → sub_size used ((bs * k) % word) ≡ (bs * n) % word
sub_counted bs k n l used s h =
    let e : bs * n + bs * k ≡ bs * l = omega (arith, ap (λ (t : ℕ). bs * t) s) in omega arith

module _ (e : Engine) (h : IsHealthy e) where
  open e use {Db}

  pub After-IsValid :
      (m m' : Meta Db) (t : Tables) (used stmts : ℕ)
      → After e m t used stmts m'
      → IsConsistent m.meta_block_size t
      → used ≡ (m.meta_block_size * length t.blocks) % word
      → m.meta_block_size < 2 ^ 63
      → IsValid e m'
  After-IsValid m m' t used stmts a c n small = record {
    consistent = rw (a.tables, a.meta_block_size) c;
    counted = rw (a.tables, a.meta_block_size, a.cache_used_size) n;
    small = rw a.meta_block_size small;
  }

  module _ (p : Name) (m : Meta Db) (v : IsValid e m) where
    -- Creating a file keeps the bookkeeping valid, also where the file is there already. The
    -- engine does not fail.
    pub create_file-IsValid : (n : ℕ) → IsValid e (create_file e p n m).1
    create_file-IsValid n = elim (Option-cases (find_path p (e.tables m.db).files)) [
      | inl absent ↦
          After-IsValid m _ _ _ _ (create_file_new e h p m (there v.consistent) n absent).1
            (add_file-IsConsistent _ _ v.consistent (e.moment m.db) p (to_int64 n) absent
              (h.lawful.unused m.db))
            v.counted v.small
      | inr (f, found) ↦
          After-IsValid m _ _ _ _ (create_file_twice e h p m (there v.consistent) n f found).1
            v.consistent v.counted v.small
    ]

    -- Inserting a block keeps the bookkeeping valid, also where it is refused. The engine does not
    -- fail.
    pub insert_block-IsValid : (off : ℕ) → IsValid e (insert_block e p off m).1
    insert_block-IsValid off = elim (Option-cases (find_path p (e.tables m.db).files)) [
      | inl absent ↦ refused λ f found. absurd (cc)
      | inr (f, found) ↦ elim (Option-cases (find_block off f.file_id (e.tables m.db).blocks)) [
        | inl new ↦
            After-IsValid m _ _ _ _
              (insert_block_new e h p off m v.consistent v.small f found new).1
              (add_block-IsConsistent _ _ v.consistent (e.moment m.db) p off f found new)
              (add_counted m.meta_block_size (length (e.tables m.db).blocks) m.cache_used_size
                v.counted)
              v.small
        | inr (b, old) ↦ refused λ g found'. ground arith
      ]
    ]
      where
        refused :
            ((f : FileRow)
              → find_path p (e.tables m.db).files ≡ some f
              → is_some (find_block off f.file_id (e.tables m.db).blocks) ≡ true)
            → IsValid e (insert_block e p off m).1
        refused listed =
            After-IsValid m _ _ _ _ (insert_block_refused e h p off m v.consistent v.small listed).1
              v.consistent v.counted v.small

    -- Deleting a file that is in the cache keeps the bookkeeping valid: the counter loses exactly
    -- the size of the blocks that the cascade deletes. The engine does not fail.
    pub delete_file-IsValid :
        (f : FileRow) → find_path p (e.tables m.db).files ≡ some f → IsValid e (delete_file e p m).1
    delete_file-IsValid f found =
        let s = drop_file_size _ _ v.consistent p f found in
        After-IsValid m _ _ _ _ (delete_file_found e h p m (there v.consistent) f found).1
          (drop_file-IsConsistent _ _ v.consistent p f found)
          (rw s.0 (
            sub_counted m.meta_block_size (count_of f.file_id (e.tables m.db).blocks)
              (length (remove_id f.file_id (e.tables m.db).blocks)) (length (e.tables m.db).blocks)
              m.cache_used_size s.1 v.counted))
          v.small

    pub is_blk_in_cache-IsValid : (off : ℕ) → IsValid e (is_blk_in_cache e p off m).1
    is_blk_in_cache-IsValid off = elim (Option-cases (find_path p (e.tables m.db).files)) [
      | inl absent ↦ unchanged _ (is_blk_in_cache_unknown e h p off m v.consistent v.small absent).1
      | inr (f, found) ↦ elim (Option-cases (find_block off f.file_id (e.tables m.db).blocks)) [
        | inl miss ↦ unchanged _ (is_blk_in_cache_missed e h p off m v.consistent f found miss).1
        | inr (b, hit) ↦
            unchanged _ (is_blk_in_cache_found e h p off m v.consistent f found b hit).1
      ]
    ]
      where
        unchanged :
            (n : ℕ)
            → After e m (e.tables m.db) m.cache_used_size n (is_blk_in_cache e p off m).1
            → IsValid e (is_blk_in_cache e p off m).1
        unchanged n a = After-IsValid m _ _ _ n a v.consistent v.counted v.small

    pub is_file_in_cache-IsValid : IsValid e (is_file_in_cache e p m).1
    is_file_in_cache-IsValid = elim (Option-cases (find_path p (e.tables m.db).files)) [
      | inl absent ↦
          After-IsValid m _ _ _ _ (is_file_in_cache_missed e h p m (there v.consistent) absent).1
            v.consistent v.counted v.small
      | inr (f, found) ↦
          After-IsValid m _ _ _ _ (is_file_in_cache_found e h p m (there v.consistent) f found).1
            v.consistent v.counted v.small
    ]

    -- Touching a block keeps the bookkeeping valid, also for an unknown file or block.
    pub update_blk_time-IsValid : (off : ℕ) → IsValid e (update_blk_time e p off m).1
    update_blk_time-IsValid off = elim (Option-cases (find_path p (e.tables m.db).files)) [
      | inl absent ↦
          After-IsValid m _ _ _ _
            (update_blk_time_unknown e h p off m v.consistent v.small absent).1 v.consistent
            v.counted v.small
      | inr (f, found) ↦
          After-IsValid m _ _ _ _ (update_blk_time_lem e h p off m v.consistent v.small f found).1
            (refresh_block-IsConsistent _ _ v.consistent (e.moment m.db).now off f.file_id)
            (v.counted
              ∙ ap (λ (n : ℕ). (m.meta_block_size * n) % word)
                  (sym (length-touch (e.moment m.db).now off f.file_id (e.tables m.db).blocks)))
            v.small
    ]

    pub write_blk-IsValid : (hit : ℤ) (off : ℕ) → IsValid e (write_blk e p hit off m)
    unfolding write_blk
    write_blk-IsValid hit off =
        ground (arith, update_blk_time-IsValid off, insert_block-IsValid off)

  module _ (p : Name) where
    pub insert_blocks-IsValid :
        (offs : List ℕ) (m : Meta Db) → IsValid e m → IsValid e (insert_blocks e p offs m).1
    unfolding insert_blocks
    insert_blocks-IsValid [] m v = v
    insert_blocks-IsValid (off ∷ offs) m v =
        insert_blocks-IsValid offs _ (insert_block-IsValid p m v off)

    check_blocks-IsValid :
        (offs : List ℕ) (total_hit : ℤ) (m : Meta Db)
        → IsValid e m
        → IsValid e (check_blocks e p offs total_hit m).2
    unfolding check_blocks
    check_blocks-IsValid [] total_hit m v = v
    check_blocks-IsValid (off ∷ offs) total_hit m v =
        check_blocks-IsValid offs _ _ (is_blk_in_cache-IsValid p m v off)

    pub are_blocks_in_cache-IsValid :
        (offs : List ℕ) (m : Meta Db) → IsValid e m → IsValid e (are_blocks_in_cache e p offs m).2
    unfolding are_blocks_in_cache
    are_blocks_in_cache-IsValid offs m v = check_blocks-IsValid offs _ m v

    write_each-IsValid :
        (hits : List ℤ) (offs : List ℕ) (m : Meta Db)
        → IsValid e m
        → IsValid e (write_each e p hits offs m)
    unfolding write_each
    write_each-IsValid [] offs m v = v
    write_each-IsValid (hit ∷ hits) [] m v = v
    write_each-IsValid (hit ∷ hits) (off ∷ offs) m v =
        write_each-IsValid hits offs _ (write_blk-IsValid p m v hit off)

    -- Writing blocks keeps the bookkeeping valid, whichever of them were cached before: the tables
    -- stay consistent and the counter is the size of all listed blocks. The engine does not fail.
    pub write_blks-IsValid :
        (offs : List ℕ) (m : Meta Db) → IsValid e m → IsValid e (write_blks e p offs m).1
    unfolding write_blks
    write_blks-IsValid offs m v = write_each-IsValid _ offs _ (are_blocks_in_cache-IsValid offs m v)
