-- ===== src/Meta/Effects/Files.antt =====
-- What the operations of Meta.antt on files do, on an engine that fails only where the SQL does.
use ece566_project.Prelude.{ℕ, ◌+◌, ◌≡◌, true, none, some, [], ◌∷◌, arith, Name}
use ece566_project.Prelude.Int.{pos, to_size, to_int64}
use ece566_project.Sql.{FileRow, Statement, Value, meaning, find_path}
use ece566_project.Sql.Rows.{remove_path_absent}
use ece566_project.Sql.Catalog.{IsThere, add_file, drop_file}
use ece566_project.Sql.Engine.{Engine, IsHealthy, run_some}
use ece566_project.Meta.{
  Meta, success, failure, sub_size, prepare, finalize, create_file, drop_file as drop_rows,
  delete_file, is_file_in_cache, first_cell, step,
}
use ece566_project.Meta.Effects.{After, perform-some, perform-none, probe_found, probe_missed}

module _ (e : Engine) (h : IsHealthy e) where
  open e use {Db}

  module _ (p : Name) (m : Meta Db) where
    drop_rows_found :
        (f : FileRow)
        → (e.tables m.db).has_files ≡ true
        → (e.tables m.db).foreign_keys ≡ true
        → find_path p (e.tables m.db).files ≡ some f
        → ((drop_rows e p m).0 ≡ success)
          × After e m
              (drop_file p f.file_id (e.tables m.db))
              m.cache_used_size
              m.open_stmts
              (drop_rows e p m).1
    unfolding drop_rows meaning
    drop_rows_found f has keys found =
        let t = drop_file p f.file_id (e.tables m.db) in
        ground (arith, perform-some e h (Statement.delete_from_files p) m t)

    drop_rows_missed :
        (e.tables m.db).has_files ≡ true
        → find_path p (e.tables m.db).files ≡ none
        → ((drop_rows e p m).0 ≡ success)
          × After e m (e.tables m.db) m.cache_used_size m.open_stmts (drop_rows e p m).1
    unfolding drop_rows meaning
    drop_rows_missed has absent = ground (
      arith,
      remove_path_absent p (e.tables m.db).files absent,
      perform-some e h (Statement.delete_from_files p) m (e.tables m.db),
    )

    -- The state of `delete_file` before its second statement.
    after_select : Meta Db
    unfolding prepare finalize
    after_select =
        let (a, m1) = prepare e (Statement.select_local_size p) m in
        let m2 = record m1 {
          cache_used_size =
              sub_size m1.cache_used_size (to_size (e.column_int64 (first_cell (step a).0)));
        } in
        (finalize e m2).1

  module _ (p : Name) (m : Meta Db) (c : IsThere (e.tables m.db)) where
    pub is_file_in_cache_found :
        (f : FileRow)
        → find_path p (e.tables m.db).files ≡ some f
        → ((is_file_in_cache e p m).0 ≡ pos 1)
          × After e m (e.tables m.db) m.cache_used_size m.open_stmts (is_file_in_cache e p m).1
    unfolding is_file_in_cache meaning
    is_file_in_cache_found f found = ground (
      arith,
      c.has_files,
      probe_found e h (Statement.select_file_id p) m (Value.integer (pos f.file_id) ∷ []),
    )

    pub is_file_in_cache_missed :
        find_path p (e.tables m.db).files ≡ none
        → ((is_file_in_cache e p m).0 ≡ pos 0)
          × After e m
              (e.tables m.db)
              m.cache_used_size
              (m.open_stmts + 1)
              (is_file_in_cache e p m).1
    unfolding is_file_in_cache meaning
    is_file_in_cache_missed none_found =
        ground (arith, c.has_files, probe_missed e h (Statement.select_file_id p) m)

    -- A new file gets a row of its own, with no bytes cached; the counter is kept.
    pub create_file_new :
        (n : ℕ)
        → find_path p (e.tables m.db).files ≡ none
        → ((create_file e p n m).0 ≡ success)
          × After e m
              (add_file (e.moment m.db) p (to_int64 n) (e.tables m.db))
              m.cache_used_size
              m.open_stmts
              (create_file e p n m).1
    unfolding create_file meaning
    create_file_new n none_found =
        let t = add_file (e.moment m.db) p (to_int64 n) (e.tables m.db) in
        ground (arith, c.has_files, perform-some e h (Statement.insert_file p (to_int64 n)) m t)

    -- A second file of the same path is refused: the tables and the counter are kept, and one more
    -- statement is open. The tables are consistent and the engine does not fail.
    pub create_file_twice :
        (n : ℕ) (f : FileRow)
        → find_path p (e.tables m.db).files ≡ some f
        → ((create_file e p n m).0 ≡ failure)
          × After e m (e.tables m.db) m.cache_used_size (m.open_stmts + 1) (create_file e p n m).1
    unfolding create_file meaning
    create_file_twice n f found =
        ground (arith, c.has_files, perform-none e h (Statement.insert_file p (to_int64 n)) m)

    pub delete_file_found :
        (f : FileRow)
        → find_path p (e.tables m.db).files ≡ some f
        → ((delete_file e p m).0 ≡ success)
          × After e m
              (drop_file p f.file_id (e.tables m.db))
              (sub_size m.cache_used_size (to_size f.local_size))
              m.open_stmts
              (delete_file e p m).1
    unfolding delete_file prepare finalize meaning after_select
    delete_file_found f found =
        let s = Statement.select_local_size p in
        ground (
          arith,
          c.has_files,
          c.foreign_keys,
          run_some e h s m.db {rows = (Value.integer f.local_size ∷ []) ∷ []} {t = e.tables m.db},
          h.finalizes (e.run s m.db).1,
          h.lawful.column_int64_integer f.local_size,
          drop_rows_found p (after_select p m) f,
        )

    pub delete_file_missed :
        find_path p (e.tables m.db).files ≡ none
        → ((delete_file e p m).0 ≡ success)
          × After e m
              (e.tables m.db)
              (sub_size m.cache_used_size (to_size (e.column_int64 none)))
              m.open_stmts
              (delete_file e p m).1
    unfolding delete_file prepare finalize meaning after_select
    delete_file_missed none_found =
        let s = Statement.select_local_size p in
        ground (
          arith,
          c.has_files,
          c.foreign_keys,
          run_some e h s m.db {rows = []} {t = e.tables m.db},
          h.finalizes (e.run s m.db).1,
          drop_rows_missed p (after_select p m),
        )
