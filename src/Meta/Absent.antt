-- ===== src/Meta/Absent.antt =====
-- `delete_block` of meta.c for a block that is not listed.
use ece566_project.Prelude.{ℕ, ◌<◌, ◌^◌, ◌≡◌, refl, true, none, some, List, [], ◌∷◌, arith, Name}
use ece566_project.Prelude.Int.{pos, ◌-ℤ◌, to_int64, to_int64_small}
use ece566_project.Sql.{
  FileRow, BlockRow, Tables, Statement, meaning, find_path, find_block, remove_block, resize,
}
use ece566_project.Sql.Catalog.{IsConsistent}
use ece566_project.Sql.Engine.{Engine, IsHealthy}
use ece566_project.Meta.{Meta, success, sub_size, perform, delete_block, shrink_file}
use ece566_project.Meta.Effects.{After, perform-some}

remove_block_absent :
    (off i : ℕ) (bs : List BlockRow) → find_block off i bs ≡ none → remove_block off i bs ≡ bs
unfolding find_block remove_block
remove_block_absent off i [] h = refl
remove_block_absent off i (b ∷ bs) h = ground (arith, remove_block_absent off i bs)

module _ (e : Engine) (h : IsHealthy e) (p : Name) (m : Meta e.Db) where
  open e use {Db}

  abbrev shrunk : Tables → Tables
  shrunk t = record t { files = resize (λ z. z -ℤ pos m.meta_block_size) p t.files }

  shrink_file_lem :
      m.meta_block_size < 2 ^ 63
      → (e.tables m.db).has_files ≡ true
      → ((shrink_file e p m).0 ≡ success)
        × After e m
            (shrunk (e.tables m.db))
            (sub_size m.cache_used_size m.meta_block_size)
            m.open_stmts
            (shrink_file e p m).1
  unfolding shrink_file meaning
  shrink_file_lem small has =
      let s = Statement.sub_local_size (to_int64 m.meta_block_size) p in
      ground (
        arith,
        perform-some e h s m (shrunk (e.tables m.db)),
        to_int64_small m.meta_block_size small,
      )

module _ (e : Engine) (h : IsHealthy e) (p : Name) (off : ℕ) (m : Meta e.Db)
    (c : IsConsistent m.meta_block_size (e.tables m.db)) where
  -- Deleting a block that is not listed, of a known file, succeeds, keeps the listed blocks, and
  -- still takes a block off the file's size and off the counter, which wraps around. The tables
  -- are consistent, the block size is below 2 ^ 63 and the engine does not fail.
  pub delete_block_absent :
      (f : FileRow)
      → m.meta_block_size < 2 ^ 63
      → find_path p (e.tables m.db).files ≡ some f
      → find_block off f.file_id (e.tables m.db).blocks ≡ none
      → ((delete_block e p off m).0 ≡ success)
        × After e m
            (record (e.tables m.db) {
              files = resize (λ z. z -ℤ pos m.meta_block_size) p (e.tables m.db).files;
            })
            (sub_size m.cache_used_size m.meta_block_size)
            m.open_stmts
            (delete_block e p off m).1
  unfolding delete_block meaning
  delete_block_absent f small found absent =
      let s = Statement.delete_datablock off p in
      ground (
        arith,
        c.has_files,
        c.has_blocks,
        remove_block_absent off f.file_id (e.tables m.db).blocks absent,
        perform-some e h s m (e.tables m.db),
        shrink_file_lem e h p (perform e s m).1,
      )
