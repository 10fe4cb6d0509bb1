-- ===== src/Sql/Engine.antt =====
-- The database engine behind sqlite3.h, which is not in the repository: a parameter. `run` is a
-- prepared and bound statement stepped until it returns no more rows. What meta.c relies on is
-- SQLite's documentation: a statement that fails leaves the tables as they were, one that ends
-- with SQLITE_DONE has done what its SQL says, and the rowid of a new row is not in use, and a scan
-- meets every row once.
use ece566_project.Prelude.{◌≡◌, ◌≢◌, Bool, true, false, Option, none, some, List, Name, arith}
use ece566_project.Prelude.Int.{ℤ}
use mathlib.Core.List.{Perm}
use ece566_project.Sql.{BlockRow, Tables, Moment, Statement, Value, Row, meaning, find_id}

-- The rows that stepping yields, and whether it ends with SQLITE_DONE.
pub record Answer : Type 0 where
  pub rows : List Row
  pub is_done : Bool

-- `column_int64` and `column_text` read a cell, `none` where no row is at hand, and `column_name`
-- is the name of a query's first column.
pub record Engine : Type 1 where
  pub Db : Type 0
  pub tables : Db → Tables
  pub moment : Db → Moment
  pub run : Statement → Db → Answer × Db
  pub finalize_ok : Db → Bool
  pub column_int64 : Option Value → ℤ
  pub column_text : Option Value → Option Name
  pub column_name : Statement → Name

-- An answer that ended well is the meaning of the statement; any other changed nothing.
abbrev pub Explains : Moment → Statement → Tables → Answer → Tables → Type 0
Explains m s t a t' =
    (a.is_done ≡ true → meaning m s t ≡ some (a.rows, t')) × (a.is_done ≡ false → t' ≡ t)

pub record IsLawful (e : Engine) : Type 0 where
  pub explained :
      (s : Statement) (db : e.Db)
      → Explains (e.moment db) s (e.tables db) (e.run s db).0 (e.tables (e.run s db).1)
  pub unused : (db : e.Db) → find_id (e.moment db).rowid (e.tables db).files ≡ none
  pub scanned : (db : e.Db) (bs : List BlockRow) → Perm ((e.moment db).scan bs) bs
  pub column_int64_integer : (z : ℤ) → e.column_int64 (some (Value.integer z)) ≡ z

-- No failure but those that the statements themselves cause: no full disk, no lock, no I/O error.
pub record IsHealthy (e : Engine) : Type 0 where
  pub lawful : IsLawful e
  pub answers :
      (s : Statement) (db : e.Db)
      → meaning (e.moment db) s (e.tables db) ≢ none
      → (e.run s db).0.is_done ≡ true
  pub finalizes : (db : e.Db) → e.finalize_ok db ≡ true

module _ (e : Engine) (h : IsHealthy e) (s : Statement) (db : e.Db) where
  pub run_some :
      {rows : List Row} {t : Tables}
      → meaning (e.moment db) s (e.tables db) ≡ some (rows, t)
      → ((e.run s db).0 ≡ record { rows = rows; is_done = true }) × (e.tables (e.run s db).1 ≡ t)
  run_some p = ground (arith, h.answers s db, h.lawful.explained s db)

  pub run_none :
      meaning (e.moment db) s (e.tables db) ≡ none
      → ((e.run s db).0.is_done ≡ false) × (e.tables (e.run s db).1 ≡ e.tables db)
  run_none p = ground (arith, h.lawful.explained s db)
