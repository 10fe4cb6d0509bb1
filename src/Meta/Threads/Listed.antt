-- ===== src/Meta/Threads/Listed.antt =====
-- A call of `write_blks` with one block, up to where the block is listed.
use ece566_project.Prelude.{
  Option-cases, inl, inr, ℕ, ◌≡◌, ◌∙◌, true, false, some, none, [], ◌∷◌, arith, Name,
}
use ece566_project.Sql.{FileRow, Statement, meaning, find_path, find_block}
use ece566_project.Sql.Cached.{cached, known}
use ece566_project.Sql.Catalog.{IsConsistent, there, new_block}
use ece566_project.Sql.Engine.{Engine, IsHealthy}
use ece566_project.Meta.{Meta, perform, is_blk_in_cache}
use ece566_project.Meta.Effects.{perform-some}
use ece566_project.Meta.Effects.Blocks.{is_blk_in_cache_missed}
use ece566_project.Meta.Threads.{Thread, call, ask_step, insert_step, write_step, advance, advances}
use ece566_project.Meta.Threads.Sound.{Leaves}

module _ (e : Engine) (h : IsHealthy e) where
  open e use {Db, tables}

  pub known-some :
      (p : Name) (m : Meta Db)
      → known (tables m.db) p ≡ true
      → (f : FileRow) × (find_path p (tables m.db).files ≡ some f)
  known-some p m k = elim (Option-cases (find_path p (tables m.db).files)) [
    | inl absent ↦ absurd (ground arith)
    | inr found ↦ found
  ]

  pub uncached-none :
      (q : Name) (o : ℕ) (m : Meta Db) (f : FileRow)
      → find_path q (tables m.db).files ≡ some f
      → cached (tables m.db) q o ≡ false
      → find_block o f.file_id (tables m.db).blocks ≡ none
  unfolding cached
  uncached-none q o m f found new =
      elim (Option-cases (find_block o f.file_id (tables m.db).blocks)) [
        | inl absent ↦ absent
        | inr (b, there) ↦ absurd (ground arith)
      ]

  module _ (p : Name) (off : ℕ) (m : Meta Db) (c : IsConsistent m.meta_block_size (tables m.db))
      (f : FileRow) (found : find_path p (tables m.db).files ≡ some f)
      (new : find_block off f.file_id (tables m.db).blocks ≡ none) where
    abbrev pub asked : Meta Db
    asked = (is_blk_in_cache e p off m).1

    abbrev pub inserted : Meta Db
    inserted = (perform e (Statement.insert_datablock off p) asked).1

    pub until_listed :
        (advances e 3 (call p (off ∷ []), m) ≡ (Thread.grows p [] [], inserted))
        × Leaves e
            (record (tables m.db) {
              blocks = new_block (e.moment asked.db) off f.file_id ∷ (tables m.db).blocks;
            })
            m
            inserted
    unfolding advances advance ask_step write_step insert_step meaning
    until_listed =
        let (missed, a) = is_blk_in_cache_missed e h p off m c f found new in
        let t = tables m.db in
        let t1 = record t { blocks = new_block (e.moment asked.db) off f.file_id ∷ t.blocks } in
        let (ok, b) =
          perform-some e h (Statement.insert_datablock off p) asked t1
            (rw a.tables (ground (arith, c.has_files, c.has_blocks))) in
        (
          ground (arith, missed, a, ok, b),
          record {
            tables = b.tables;
            cache_used_size = b.cache_used_size ∙ a.cache_used_size;
            meta_block_size = b.meta_block_size ∙ a.meta_block_size;
          },
        )
