-- ===== src/Meta/Evict/Kept.antt =====
-- What `evict_blocks` and `get_filename_from_fileid` do to the database, and where the copy of a name
-- overflows.
use ece566_project.Prelude.{
  get_elem?, set, ℕ, suc, ◌≤◌, ◌≡◌, ◌↔◌, ◌⊎◌, refl, ◌∙◌, true, Bool-cases, Option, Option-cases,
  none, some, List, [], ◌∷◌, arith, Name, length, inl, inr,
}
use ece566_project.Prelude.Int.{ℤ, to_size}
use ece566_project.Sql.{FileRow, Statement, Row, Value, Tables, meaning, find_id}
use ece566_project.Sql.Engine.{Engine, IsLawful, IsHealthy, run_some}
use ece566_project.Meta.{Meta, success, failure, prepare, finalize}
use ece566_project.Meta.Evict.{
  Arrays, column_int, copy_name, get_filename_from_fileid, name_row, evict_rows, evict_blocks,
}

-- The tables and the counter are as before.
pub record Same (e : Engine) (m m' : Meta e.Db) : Type 0 where
  pub tables : e.tables m'.db ≡ e.tables m.db
  pub cache_used_size : m'.cache_used_size ≡ m.cache_used_size

module _ (e : Engine) (lawful : IsLawful e) where
  open e use {Db}

  pub Same-trans : (m1 m2 m3 : Meta Db) → Same e m1 m2 → Same e m2 m3 → Same e m1 m3
  Same-trans m1 m2 m3 p q = record {
    tables = q.tables ∙ p.tables;
    cache_used_size = q.cache_used_size ∙ p.cache_used_size;
  }

  pub finalize-Same : (m : Meta Db) → Same e m (finalize e m).1
  unfolding finalize
  finalize-Same m = record { tables = refl; cache_used_size = refl }

  -- A query changes nothing, whether or not it ends well.
  query-Same :
      (s : Statement) (m : Meta Db)
      → ((rows : List Row) (t : Tables)
          → meaning (e.moment m.db) s (e.tables m.db) ≡ some (rows, t)
          → t ≡ e.tables m.db)
      → Same e m (prepare e s m).1
  unfolding prepare
  query-Same s m query = record {
    tables = elim (Bool-cases (e.run s m.db).0.is_done) [
      | inl ended ↦ query _ _ ((lawful.explained s m.db).0 ended)
      | inr failed ↦ (lawful.explained s m.db).1 failed
    ];
    cache_used_size = refl;
  }

  name-Same : (i : ℕ) (m : Meta Db) → Same e m (prepare e (Statement.select_relative_path i) m).1
  unfolding meaning
  name-Same i m = query-Same _ m (λ rows t h. ground arith)

  pub oldest-Same : (n : ℕ) (m : Meta Db) → Same e m (prepare e (Statement.select_oldest n) m).1
  unfolding meaning
  oldest-Same n m = query-Same _ m (λ rows t h. ground arith)

  pub get_filename-Same :
      (i : ℕ) (old name : Option Name) (m m' : Meta Db) (r : ℤ)
      → get_filename_from_fileid e i old m ≡ some (r, name, m')
      → Same e m m'
  unfolding get_filename_from_fileid
  get_filename-Same i old name m m' r h =
      let p = name-Same i m in
      let q = finalize-Same (prepare e (Statement.select_relative_path i) m).1 in ground arith

  name_row-Same :
      (row i : ℕ) (arr arr' : Arrays) (m m' : Meta Db)
      → name_row e row i arr m ≡ some (arr', m')
      → Same e m m'
  unfolding name_row
  name_row-Same row i arr arr' m m' h = elim (Option-cases (get_elem? arr.filenames row)) [
    | inl outside ↦ ground arith
    | inr (old, there) ↦ elim (Option-cases (get_filename_from_fileid e i old m)) [
      | inl overflow ↦ ground arith
      | inr ((r, name, m2), got) ↦ ground (arith, get_filename-Same i old name m m2 r got)
    ]
  ]

  pub evict_rows-Same :
      (row : ℕ) (rows : List Row) (arr arr' : Arrays) (m m' : Meta Db)
      → evict_rows e row rows arr m ≡ some (arr', m')
      → Same e m m'
  unfolding evict_rows
  evict_rows-Same row [] arr arr' m m' h = ground arith
  evict_rows-Same row ([] ∷ rows) arr arr' m m' h = ground arith
  evict_rows-Same row ((off ∷ []) ∷ rows) arr arr' m m' h = ground arith
  evict_rows-Same row ((off ∷ id ∷ x ∷ xs) ∷ rows) arr arr' m m' h = ground arith
  evict_rows-Same row ((off ∷ id ∷ []) ∷ rows) arr arr' m m' h =
      let file_id = column_int e id in
      let stored = record arr {
        blk_offsets = set arr.blk_offsets row (to_size (e.column_int64 (some off)));
        file_ids = set arr.file_ids row file_id;
      } in
      elim (Option-cases (name_row e row file_id stored m)) [
        | inl overflow ↦ ground arith
        | inr ((arr2, m2), named) ↦
            let first = name_row-Same row file_id stored arr2 m m2 named in
            let rest = evict_rows-Same (suc row) rows arr2 arr' m2 m' in ground (arith, first, rest)
      ]

  -- Where `evict_blocks` returns at all, it has left the tables and the counter as they were:
  -- nothing is evicted. Its status is 0 or -1. The engine does what its SQL says or fails.
  pub evict_blocks_keeps :
      (n : ℕ) (arr arr' : Arrays) (m m' : Meta Db) (r : ℤ)
      → evict_blocks e n arr m ≡ some (r, arr', m')
      → (e.tables m'.db ≡ e.tables m.db)
        × (m'.cache_used_size ≡ m.cache_used_size)
        × ((r ≡ success) ⊎ (r ≡ failure))
  unfolding evict_blocks
  evict_blocks_keeps n arr arr' m m' r h =
      let (a, m1) = prepare e (Statement.select_oldest n) m in
      let first = oldest-Same n m in
      elim (Option-cases (evict_rows e 0 a.rows arr m1)) [
        | inl overflow ↦ ground arith
        | inr ((arr2, m2), filled) ↦
            let rest = evict_rows-Same 0 a.rows arr arr2 m1 m2 filled in
            let last = finalize-Same m2 in ground (arith, first, rest, last)
      ]

-- For a file id that is listed, `get_filename_from_fileid` writes beyond its new block of memory
-- exactly when the path has 8 bytes or more. The table is there, the engine does not fail and
-- hands out the path as it is stored.
pub get_filename_overflows_iff :
    (e : Engine) (h : IsHealthy e) (i : ℕ) (old : Option Name) (f : FileRow) (m : Meta e.Db)
    → (e.tables m.db).has_files ≡ true
    → find_id i (e.tables m.db).files ≡ some f
    → e.column_text (some (Value.text f.relative_path)) ≡ some f.relative_path
    → (get_filename_from_fileid e i old m ≡ none) ↔ (8 ≤ length f.relative_path)
unfolding get_filename_from_fileid prepare meaning copy_name
get_filename_overflows_iff e h i old f m has found read =
    let ran =
      run_some e h (Statement.select_relative_path i) m.db
        {rows = (Value.text f.relative_path ∷ []) ∷ []} {t = e.tables m.db} (ground arith) in
    ground (arith, ran)
