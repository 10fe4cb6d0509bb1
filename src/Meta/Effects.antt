-- ===== src/Meta/Effects.antt =====
-- What a statement and a query of Meta.antt do to the tables, the counter and the open statements,
-- on an engine that fails only where the SQL does.
pub mod Blocks
pub mod Files
use ece566_project.Prelude.{
  ℕ, ◌+◌, ◌%◌, ◌<◌, ◌^◌, ◌≡◌, refl, true, false, none, some, List, [], ◌∷◌, arith, is_some, Name,
  Option-cases, inl, inr,
}
use ece566_project.Prelude.Int.{pos, ◌+ℤ◌, word, to_size, to_int64, to_int64_small}
use ece566_project.Sql.{
  FileRow, BlockRow, Tables, Statement, Row, Value, meaning, find_path, find_block, resize,
}
use ece566_project.Sql.Rows.{remove_path_absent}
use ece566_project.Sql.Catalog.{
  IsConsistent, new_block, add_file, add_block, drop_file, refresh_block,
}
use ece566_project.Sql.Engine.{Engine, IsHealthy, run_some, run_none}
use ece566_project.Meta.{
  Meta, success, failure, sub_size, prepare, finalize, perform, probe, create_file, grow_file,
  insert_block, drop_file as drop_rows, delete_file, is_file_in_cache, is_blk_in_cache,
  update_blk_time, step_rows, is_sqlite_done, first_cell, step,
}

-- The state after a call: its tables, counter and open statements. The block size is kept.
pub record After (e : Engine) (m : Meta e.Db) (t : Tables) (used stmts : ℕ) (m' : Meta e.Db)
    : Type 0 where
  pub tables : e.tables m'.db ≡ t
  pub cache_used_size : m'.cache_used_size ≡ used
  pub meta_block_size : m'.meta_block_size ≡ m.meta_block_size
  pub open_stmts : m'.open_stmts ≡ stmts

step_failed : (rows : List Row) → is_sqlite_done (step_rows rows false).0 ≡ false
step_failed [] = refl
step_failed (r ∷ rows) = refl

module _ (e : Engine) (h : IsHealthy e) where
  open e use {Db}

  module _ (s : Statement) (m : Meta Db) where
    pub perform-some :
        (t : Tables)
        → meaning (e.moment m.db) s (e.tables m.db) ≡ some ([], t)
        → ((perform e s m).0 ≡ true) × After e m t m.cache_used_size m.open_stmts (perform e s m).1
    unfolding perform prepare finalize
    perform-some t p = ground (arith, run_some e h s m.db p, h.finalizes (e.run s m.db).1)

    pub perform-none :
        meaning (e.moment m.db) s (e.tables m.db) ≡ none
        → ((perform e s m).0 ≡ false)
          × After e m (e.tables m.db) m.cache_used_size (m.open_stmts + 1) (perform e s m).1
    unfolding perform prepare finalize
    perform-none p = ground (arith, run_none e h s m.db p, step_failed (e.run s m.db).0.rows)

  module _ (s : Statement) (m : Meta Db) where
    -- A query that finds one row answers 1 and closes its statement.
    pub probe_found :
        (r : Row)
        → meaning (e.moment m.db) s (e.tables m.db) ≡ some (r ∷ [], e.tables m.db)
        → ((probe e s m).0 ≡ pos 1)
          × After e m (e.tables m.db) m.cache_used_size m.open_stmts (probe e s m).1
    unfolding probe prepare finalize
    probe_found r q = ground (arith, run_some e h s m.db q, h.finalizes (e.run s m.db).1)

    -- A query that finds none answers 0 and leaves its statement open.
    pub probe_missed :
        meaning (e.moment m.db) s (e.tables m.db) ≡ some ([], e.tables m.db)
        → ((probe e s m).0 ≡ pos 0)
          × After e m (e.tables m.db) m.cache_used_size (m.open_stmts + 1) (probe e s m).1
    unfolding probe prepare
    probe_missed q = ground (arith, run_some e h s m.db q)
