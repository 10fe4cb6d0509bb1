-- ===== src/Meta/Effects/Blocks.antt =====
-- What the operations of Meta.antt on blocks do, on an engine that fails only where the SQL does.
use ece566_project.Prelude.{
  ℕ, ◌+◌, ◌%◌, ◌<◌, ◌^◌, ◌≡◌, true, none, some, [], ◌∷◌, arith, is_some, Name, Option-cases, inl,
  inr,
}
use ece566_project.Prelude.Int.{pos, ◌+ℤ◌, word, to_int64, to_int64_small}
use ece566_project.Sql.{FileRow, BlockRow, Statement, Value, meaning, find_path, find_block, resize}
use ece566_project.Sql.Catalog.{IsConsistent, new_block, add_block, refresh_block}
use ece566_project.Sql.Engine.{Engine, IsHealthy}
use ece566_project.Meta.{
  Meta, success, failure, perform, grow_file, insert_block, is_blk_in_cache, update_blk_time,
}
use ece566_project.Meta.Effects.{After, perform-some, perform-none, probe_found, probe_missed}

module _ (e : Engine) (h : IsHealthy e) where
  open e use {Db}

  module _ (p : Name) (m : Meta Db) where
    grow_file_lem :
        m.meta_block_size < 2 ^ 63
        → (e.tables m.db).has_files ≡ true
        → ((grow_file e p m).0 ≡ success)
          × After e m
              (record (e.tables m.db) {
                files = resize (λ z. z +ℤ pos m.meta_block_size) p (e.tables m.db).files;
              })
              ((m.cache_used_size + m.meta_block_size) % word)
              m.open_stmts
              (grow_file e p m).1
    unfolding grow_file meaning
    grow_file_lem small has =
        let s = Statement.add_local_size (to_int64 m.meta_block_size) p in
        let t = record (e.tables m.db) {
          files = resize (λ z. z +ℤ pos m.meta_block_size) p (e.tables m.db).files;
        } in
        ground (arith, perform-some e h s m t, to_int64_small m.meta_block_size small)

  module _ (p : Name) (off : ℕ) (m : Meta Db) (c : IsConsistent m.meta_block_size (e.tables m.db))
      (small : m.meta_block_size < 2 ^ 63) where
    -- A new block of a known file.
    pub insert_block_new :
        (f : FileRow)
        → find_path p (e.tables m.db).files ≡ some f
        → find_block off f.file_id (e.tables m.db).blocks ≡ none
        → ((insert_block e p off m).0 ≡ success)
          × After e m
              (add_block (e.moment m.db) m.meta_block_size p off f.file_id (e.tables m.db))
              ((m.cache_used_size + m.meta_block_size) % word)
              m.open_stmts
              (insert_block e p off m).1
    unfolding insert_block meaning
    insert_block_new f found new =
        let s = Statement.insert_datablock off p in
        let t = record (e.tables m.db) {
          blocks = new_block (e.moment m.db) off f.file_id ∷ (e.tables m.db).blocks;
        } in
        ground (arith, c.has_files, perform-some e h s m t, grow_file_lem p (perform e s m).1)

    -- A block that is listed already, or one of an unknown file, is refused: only the statement
    -- that stays open is new.
    pub insert_block_refused :
        ((f : FileRow)
          → find_path p (e.tables m.db).files ≡ some f
          → is_some (find_block off f.file_id (e.tables m.db).blocks) ≡ true)
        → ((insert_block e p off m).0 ≡ failure)
          × After e m
              (e.tables m.db)
              m.cache_used_size
              (m.open_stmts + 1)
              (insert_block e p off m).1
    unfolding insert_block meaning
    insert_block_refused listed =
        let s = Statement.insert_datablock off p in
        elim (Option-cases (find_path p (e.tables m.db).files)) [
          | inl unknown ↦ ground (arith, c.has_files, c.has_blocks, perform-none e h s m)
          | inr (f, found) ↦
              ground (arith, c.has_files, c.has_blocks, listed f found, perform-none e h s m)
        ]

    pub is_blk_in_cache_unknown :
        find_path p (e.tables m.db).files ≡ none
        → ((is_blk_in_cache e p off m).0 ≡ pos 0)
          × After e m
              (e.tables m.db)
              m.cache_used_size
              (m.open_stmts + 1)
              (is_blk_in_cache e p off m).1
    unfolding is_blk_in_cache meaning
    is_blk_in_cache_unknown unknown =
        ground
          (arith, c.has_files, c.has_blocks, probe_missed e h (Statement.select_block_id off p) m)

    pub update_blk_time_unknown :
        find_path p (e.tables m.db).files ≡ none
        → ((update_blk_time e p off m).0 ≡ success)
          × After e m (e.tables m.db) m.cache_used_size m.open_stmts (update_blk_time e p off m).1
    unfolding update_blk_time meaning
    update_blk_time_unknown unknown =
        let s = Statement.touch_datablock off p in
        ground (arith, c.has_files, c.has_blocks, perform-some e h s m (e.tables m.db))

    pub update_blk_time_lem :
        (f : FileRow)
        → find_path p (e.tables m.db).files ≡ some f
        → ((update_blk_time e p off m).0 ≡ success)
          × After e m
              (refresh_block (e.moment m.db).now off f.file_id (e.tables m.db))
              m.cache_used_size
              m.open_stmts
              (update_blk_time e p off m).1
    unfolding update_blk_time meaning
    update_blk_time_lem f found =
        let s = Statement.touch_datablock off p in
        let t = refresh_block (e.moment m.db).now off f.file_id (e.tables m.db) in
        ground (arith, c.has_files, c.has_blocks, perform-some e h s m t)

  module _ (p : Name) (off : ℕ) (m : Meta Db) (c : IsConsistent m.meta_block_size (e.tables m.db))
      (f : FileRow) (found : find_path p (e.tables m.db).files ≡ some f) where
    pub is_blk_in_cache_found :
        (b : BlockRow)
        → find_block off f.file_id (e.tables m.db).blocks ≡ some b
        → ((is_blk_in_cache e p off m).0 ≡ pos 1)
          × After e m (e.tables m.db) m.cache_used_size m.open_stmts (is_blk_in_cache e p off m).1
    unfolding is_blk_in_cache meaning
    is_blk_in_cache_found b here = ground (
      arith,
      c.has_files,
      c.has_blocks,
      probe_found e h (Statement.select_block_id off p) m (Value.integer (pos b.block_id) ∷ []),
    )

    -- A query for a block that is not listed, of a known file, answers 0 and leaves one more
    -- statement open; the tables and the counter are kept. The tables are consistent and the
    -- engine does not fail.
    pub is_blk_in_cache_missed :
        find_block off f.file_id (e.tables m.db).blocks ≡ none
        → ((is_blk_in_cache e p off m).0 ≡ pos 0)
          × After e m
              (e.tables m.db)
              m.cache_used_size
              (m.open_stmts + 1)
              (is_blk_in_cache e p off m).1
    unfolding is_blk_in_cache meaning
    is_blk_in_cache_missed absent =
        ground
          (arith, c.has_files, c.has_blocks, probe_missed e h (Statement.select_block_id off p) m)
