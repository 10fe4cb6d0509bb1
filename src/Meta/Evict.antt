-- ===== src/Meta/Evict.antt =====
-- `evict_blocks` and `get_filename_from_fileid` of meta.c. The caller's arrays are lists of their
-- sizes, and `none` is a read or a write out of bounds.
pub mod Kept
pub mod Rows
pub mod Total
use ece566_project.Prelude.{
  ℕ, zero, suc, ◌+◌, ◌%◌, ◌^◌, leb, ltb, ◌&&◌, Option, none, some, List, [], ◌∷◌, if◌then◌else◌,
  Name, length, get_elem?, set,
}
use ece566_project.Prelude.Int.{ℤ, to_size}
use ece566_project.Sql.{Statement, Row, Value}
use ece566_project.Sql.Engine.{Engine}
use ece566_project.Meta.{Meta, Code, step, is_sqlite_done, success, failure, prepare, finalize}

-- `malloc (sizeof (filename_on_stack))` is the size of a pointer.
abbrev pub pointer_size : ℕ
pointer_size = 8

-- `strcpy` into the new block, with the terminating zero
unfoldable pub copy_name : Name → Option Name
copy_name name = if leb (length name + 1) pointer_size then some name else none

-- An element at an `int`, of which the upper half of the values is negative.
abbrev pub int_index {ℓ} : {A : Type ℓ} → List A → ℕ → Option A
int_index xs i = if ltb i (2 ^ 31) then get_elem? xs i else none

-- The arrays of the caller.
pub record Arrays : Type 0 where
  pub file_ids : List ℕ
  pub filenames : List (Option Name)
  pub blk_offsets : List ℕ

module _ (e : Engine) where
  open e use {Db, column_int64, column_text}

  -- the string stored in `*filename`, which is kept where no row is found
  abbrev filename_of : Code → Option Name → Option (Option Name)
  filename_of (Code.sqlite_row (v ∷ _)) old = elim (column_text (some v)) [
    | none ↦ none
    | some name ↦ elim (copy_name name) [ none ↦ none | some copy ↦ some (some copy) ]
  ]
  filename_of _ old = some old

  unfoldable pub get_filename_from_fileid :
      ℕ → Option Name → Meta Db → Option (ℤ × Option Name × Meta Db)
  get_filename_from_fileid file_id old m =
      let (a, m1) = prepare e (Statement.select_relative_path file_id) m in
      let (c, a1) = step a in
      elim (filename_of c old) [
        | none ↦ none
        | some filename ↦
            if is_sqlite_done (step a1).0
            then (let (ok, m2) = finalize e m1 in
                some (if ok then success else failure, filename, m2))
            else some (failure, filename, m1)
      ]

  -- `sqlite3_column_int`, as the 32 bits of an `int`
  abbrev pub column_int : Value → ℕ
  column_int v = to_size (column_int64 (some v)) % 2 ^ 32

  -- the name of row `row`: the source looks the array up at the file id, and fills it at the row
  unfoldable pub name_row : ℕ → ℕ → Arrays → Meta Db → Option (Arrays × Meta Db)
  name_row row file_id arr m = elim (int_index arr.filenames file_id) [
    | none ↦ none
    | some (some queried) ↦ some (arr, m)
    | some none ↦ elim (get_elem? arr.filenames row) [
      | none ↦ none
      | some old ↦ elim (get_filename_from_fileid file_id old m) [
        | none ↦ none
        | some (_, filename, m') ↦
            some (record arr { filenames = set arr.filenames row filename }, m')
      ]
    ]
  ]

  unfoldable pub evict_rows : ℕ → List Row → Arrays → Meta Db → Option (Arrays × Meta Db)
  evict_rows row ((off ∷ id ∷ []) ∷ rows) arr m =
      let file_id = column_int id in
      let arr' = record arr {
        blk_offsets = set arr.blk_offsets row (to_size (column_int64 (some off)));
        file_ids = set arr.file_ids row file_id;
      } in
      if leb (suc row) (length arr.blk_offsets) && leb (suc row) (length arr.file_ids)
      then elim (name_row row file_id arr' m) [
        | none ↦ none
        | some (arr2, m2) ↦ evict_rows (suc row) rows arr2 m2
      ]
      else none
  evict_rows row _ arr m = some (arr, m)

  -- Nothing is deleted, and the status is 0 or -1.
  unfoldable pub evict_blocks : ℕ → Arrays → Meta Db → Option (ℤ × Arrays × Meta Db)
  evict_blocks num_blks arr m =
      let (a, m1) = prepare e (Statement.select_oldest num_blks) m in
      elim (evict_rows 0 a.rows arr m1) [
        | none ↦ none
        | some (arr', m2) ↦
            if a.is_done
            then (let (ok, m3) = finalize e m2 in some (if ok then success else failure, arr', m3))
            else some (failure, arr', m2)
      ]
