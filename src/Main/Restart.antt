-- ===== src/Main/Restart.antt =====
-- `main` started again on the database of an earlier run.
use ece566_project.Prelude.{
  ℕ, ◌*◌, ◌^◌, ◌<◌, ◌≡◌, refl, ◌∙◌, true, false, none, some, List, [], ◌∷◌, arith, same_refl,
  length,
}
use ece566_project.Prelude.Int.{pos, word}
use ece566_project.Sql.{FileRow, Statement, Value, Tables, meaning, sum_sizes, sum_value}
use ece566_project.Sql.Catalog.{IsConsistent}
use ece566_project.Sql.Engine.{Engine, IsHealthy, run_some, run_none}
use ece566_project.Sql.Totals.{sum_sizes_lem, sums_fit_lem}
use ece566_project.Meta.{Meta, open_db, create_tables, set_block_size}
use ece566_project.Meta.Invariant.{IsValid}
use ece566_project.Meta.Numbers.{init_cache_used_size, exec_rows, callback, sum_column}
use ece566_project.Meta.Numbers.Decimal.{decimal, str_to_num-decimal}
use ece566_project.Main.{init_metadata}

-- How SQLite hands a sum to the callback: as a decimal text, or as a null pointer, under the text of
-- the expression.
pub record IsPrinted (e : Engine) : Type 0 where
  pub column_text_integer :
      (n : ℕ) → e.column_text (some (Value.integer (pos n))) ≡ some (decimal n)
  pub column_text_null : e.column_text (some Value.null) ≡ none
  pub column_name : e.column_name Statement.sum_local_size ≡ sum_column

-- The tables of a connection that enforces foreign keys, as every new one is made to.
abbrev pub enforced : Tables → Tables
enforced t = record t { foreign_keys = true }

sum_cell :
    (e : Engine) (print : IsPrinted e) (fs : List FileRow) (n : ℕ)
    → sum_sizes fs ≡ pos n
    → n < word
    → exec_rows e 0 ((sum_value fs ∷ []) ∷ []) ≡ some n
unfolding exec_rows callback sum_value sum_sizes
sum_cell e print [] n sum h = ground (arith, print.column_text_null)
sum_cell e print (f ∷ fs) n sum h = rw sum (
    ground (
      arith,
      print.column_text_integer n,
      print.column_name,
      str_to_num-decimal n h,
      same_refl sum_column,
    ))

-- The sum of the sizes as the callback reads it.
sum_callback :
    (e : Engine) (print : IsPrinted e) (bs : ℕ) (t : Tables)
    → IsConsistent bs t
    → bs * length t.blocks < word
    → exec_rows e 0 ((sum_value t.files ∷ []) ∷ []) ≡ some (bs * length t.blocks)
sum_callback e print bs t c small =
    sum_cell e print t.files (bs * length t.blocks)
      (sum_sizes_lem bs t.blocks t.files c.distinct c.owned c.sized) small

module _ (e : Engine) (h : IsHealthy e) (bs : ℕ) (m : Meta e.Db) where
  -- the tables when the counter is read
  abbrev pub prepared : Tables
  prepared = e.tables (create_tables e (open_db e m).1).1.db

  opened : e.tables (open_db e m).1.db ≡ enforced (e.tables m.db)
  unfolding open_db meaning
  opened = (run_some e h Statement.foreign_keys_on m.db refl).1

  used_kept : (create_tables e (open_db e m).1).1.cache_used_size ≡ m.cache_used_size
  unfolding create_tables open_db
  used_kept = ground arith

  -- What follows once the tables are there.
  pub init_metadata-prepared :
      IsConsistent bs prepared
      → IsPrinted e
      → m.cache_used_size ≡ 0
      → bs < 2 ^ 63
      → bs * length prepared.blocks < 2 ^ 63
      → (m' : Meta e.Db) × (init_metadata e bs m ≡ some m')
        × (e.tables m'.db ≡ prepared)
        × (m'.meta_block_size ≡ bs)
        × IsValid e m'
  unfolding init_metadata init_cache_used_size set_block_size meaning
  init_metadata-prepared c print unused small fits =
      let m2 = (create_tables e (open_db e m).1).1 in
      let s = Statement.sum_local_size in
      let sums = sums_fit_lem bs prepared.blocks prepared.files c.distinct c.owned c.sized fits in
      let n = bs * length prepared.blocks in
      let cell = (sum_value prepared.files ∷ []) ∷ [] in
      let ran =
        run_some e h s m2.db {rows = cell} {t = prepared} (ground (arith, c.has_files, sums)) in
      let after : Meta e.Db = record m2 {
        db = (e.run s m2.db).1;
        cache_used_size = n;
        meta_block_size = bs;
      } in
      (
        after,
        ground (
          arith,
          ran,
          sum_callback e print bs prepared c (omega (arith, fits)),
          used_kept,
          unused,
        ),
        ran.1,
        refl,
        record { consistent = rw ran.1 c; counted = ground (arith, ran.1); small = small },
      )

  -- The tables that the schema makes.
  abbrev pub empty_tables : Tables
  empty_tables = record {
    has_files = true;
    has_blocks = true;
    foreign_keys = true;
    files = [];
    blocks = [];
  }

  pub empty-IsConsistent : IsConsistent bs empty_tables
  empty-IsConsistent = record {
    has_files = refl;
    has_blocks = refl;
    foreign_keys = refl;
    distinct = tt;
    indexed = tt;
    sized = tt;
    owned = tt;
  }

  pub created :
      (e.tables m.db).has_files ≡ false
      → (e.tables m.db).has_blocks ≡ false
      → prepared ≡ empty_tables
  unfolding create_tables meaning
  created no_files no_blocks =
      let db = (open_db e m).1.db in
      let first =
        run_some e h Statement.create_files db {rows = []}
          {t = record (enforced (e.tables m.db)) { has_files = true; files = [] }}
          (ground (arith, opened)) in
      let db1 = (e.run Statement.create_files db).1 in
      let second =
        run_some e h Statement.create_datablocks db1 {rows = []} {t = empty_tables}
          (ground (arith, first)) in
      ground (arith, first, second)

  -- On a database without tables the start makes them, empty, leaves the counter at 0 and the
  -- bookkeeping valid. The engine does not fail and prints numbers in decimal, the counter starts
  -- at 0 and the block size is below 2 ^ 63.
  pub init_metadata-fresh :
      IsPrinted e
      → (e.tables m.db).has_files ≡ false
      → (e.tables m.db).has_blocks ≡ false
      → m.cache_used_size ≡ 0
      → bs < 2 ^ 63
      → (m' : Meta e.Db) × (init_metadata e bs m ≡ some m')
        × (e.tables m'.db ≡ empty_tables)
        × (m'.cache_used_size ≡ 0)
        × IsValid e m'
  init_metadata-fresh print no_files no_blocks unused small =
      let t = created no_files no_blocks in
      let (m', ran, tables, _, v) =
        init_metadata-prepared (rw t empty-IsConsistent) print unused small (rw t (omega arith)) in
      let now : e.tables m'.db ≡ empty_tables = tables ∙ t in
      (m', ran, now, v.counted ∙ rw now (omega arith), v)

module _ (e : Engine) (h : IsHealthy e) (bs : ℕ) (m : Meta e.Db)
    (c : IsConsistent bs (enforced (e.tables m.db))) where
  pub kept : prepared e h bs m ≡ enforced (e.tables m.db)
  unfolding create_tables meaning
  kept =
      let db = (open_db e m).1.db in
      let before = opened e h bs m in
      let has : (e.tables db).has_files ≡ true = ground (arith, before, c.has_files) in
      ground (arith, before, run_none e h Statement.create_files db (ground (arith, has)))

  -- Where the database of an earlier run is consistent for the block size that is given again, the
  -- start keeps its tables, finds the counter in them, and leaves the bookkeeping valid. The
  -- engine does not fail and prints numbers in decimal, the counter starts at 0, the block size is
  -- below 2 ^ 63, and the listed blocks take less than 2 ^ 63 bytes.
  pub init_metadata-IsValid :
      IsPrinted e
      → m.cache_used_size ≡ 0
      → bs < 2 ^ 63
      → bs * length (e.tables m.db).blocks < 2 ^ 63
      → (m' : Meta e.Db) × (init_metadata e bs m ≡ some m')
        × (e.tables m'.db ≡ enforced (e.tables m.db))
        × IsValid e m'
  init_metadata-IsValid print unused small fits =
      let (m', ran, tables, _, v) =
        init_metadata-prepared e h bs m (rw kept c) print unused small (rw kept fits) in
      (m', ran, tables ∙ kept, v)
