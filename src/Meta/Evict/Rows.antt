-- ===== src/Meta/Evict/Rows.antt =====
-- The loop of `evict_blocks` of meta.c over the rows of its query: when it reaches the last one,
-- and what the caller's arrays hold then.
use ece566_project.Prelude.{
  length-set, get_elem?-some, ℕ, suc, ◌+◌, ◌≤◌, ◌<◌, ◌%◌, ◌^◌, ◌≡◌, refl, true, Option, some, List,
  [], ◌∷◌, arith, map, All, Name, length, set, Option-cases, inl, inr,
}
use ece566_project.Prelude.Int.{ℤ, pos, word, to_size, to_int64}
use ece566_project.Sql.{FileRow, BlockRow, Statement, Value, meaning, find_id, oldest_rows}
use ece566_project.Sql.Engine.{Engine, IsHealthy, run_some}
use ece566_project.Meta.{Meta, prepare}
use ece566_project.Meta.Evict.{
  Arrays, pointer_size, copy_name, get_filename_from_fileid, name_row, evict_rows,
}
use ece566_project.Meta.Evict.Kept.{get_filename-Same, Same-trans, Same}

-- The array from an index on, filled.
abbrev pub fill : ℕ → List ℕ → List ℕ → List ℕ
fill row [] xs = xs
fill row (v ∷ vs) xs = fill (suc row) vs (set xs row v)

-- What the source takes for granted of a block: its file id is an index of the names.
abbrev pub Indexes : ℕ → BlockRow → Type 0
Indexes n b = (b.file_id < n) × (b.file_id < 2 ^ 31) × (b.blk_start_offset < word)

-- A name with its terminating zero fits into a pointer.
abbrev pub IsShort : FileRow → Type 0
IsShort f = length f.relative_path < pointer_size

to_size-to_int64 : (n : ℕ) → n < word → to_size (to_int64 n) ≡ n
to_size-to_int64 n lt = ground arith

find_id-IsShort :
    (i : ℕ) (fs : List FileRow) (f : FileRow) → All IsShort fs → find_id i fs ≡ some f → IsShort f
unfolding find_id
find_id-IsShort i [] f a found = absurd (cc)
find_id-IsShort i (g ∷ fs) f a found = ground (arith, find_id-IsShort i fs f a.1)

module _ (e : Engine) (h : IsHealthy e)
    (read : (name : Name) → e.column_text (some (Value.text name)) ≡ some name) where
  open e use {Db, tables}

  -- The table of files is there, and its paths are short.
  pub record IsReady (m : Meta Db) : Type 0 where
    pub has_files : (tables m.db).has_files ≡ true
    pub short : All IsShort (tables m.db).files

  get_filename_returns :
      (i : ℕ) (old : Option Name) (m : Meta Db)
      → IsReady m
      → (r : ℤ × Option Name × Meta Db) × (get_filename_from_fileid e i old m ≡ some r)
  unfolding get_filename_from_fileid prepare meaning copy_name
  get_filename_returns i old m k = elim (Option-cases (get_filename_from_fileid e i old m)) [
    | inr returns ↦ returns
    | inl overflows ↦ elim (Option-cases (find_id i (tables m.db).files)) [
      | inl absent ↦
          let ran =
            run_some e h (Statement.select_relative_path i) m.db {rows = []} {t = tables m.db}
              (ground (arith, k.has_files)) in
          absurd (ground (arith, ran))
      | inr (f, found) ↦
          let ran =
            run_some e h (Statement.select_relative_path i) m.db
              {rows = (Value.text f.relative_path ∷ []) ∷ []} {t = tables m.db}
              (ground (arith, k.has_files)) in
          absurd (
            ground (
              arith,
              ran,
              read f.relative_path,
              find_id-IsShort i (tables m.db).files f k.short found,
            ))
    ]
  ]

  Same-IsReady : (m m' : Meta Db) → Same e m m' → IsReady m → IsReady m'
  Same-IsReady m m' s k = record {
    has_files = rw s.tables k.has_files;
    short = rw s.tables k.short;
  }

  -- A name is filled in, or the entry at the file id was not null.
  name_row_returns :
      (row i : ℕ) (arr : Arrays) (m : Meta Db)
      → IsReady m
      → i < length arr.filenames
      → i < 2 ^ 31
      → row < length arr.filenames
      → (names : List (Option Name)) × (m' : Meta Db) × (name_row e row i arr m
          ≡ some (record arr { filenames = names }, m'))
        × (length names ≡ length arr.filenames)
        × Same e m m'
  unfolding name_row
  name_row_returns row i arr m k lt small lt' =
      let (queried, there) = get_elem?-some arr.filenames i lt in
      let (old, here) = get_elem?-some arr.filenames row lt' in
      elim (Option-cases queried) [
        | inr (name, is_set) ↦
            (arr.filenames, m, ground arith, refl, record { tables = refl; cache_used_size = refl })
        | inl is_null ↦
            let ((r, name, m'), got) = get_filename_returns i old m k in
            (
              set arr.filenames row name,
              m',
              ground (arith, got),
              length-set arr.filenames row name,
              get_filename-Same e h.lawful i old name m m' r got,
            )
      ]

  pub rows_return :
      (bs : List BlockRow) (row : ℕ) (arr : Arrays) (m : Meta Db)
      → IsReady m
      → row + length bs ≤ length arr.blk_offsets
      → row + length bs ≤ length arr.file_ids
      → row + length bs ≤ length arr.filenames
      → All (Indexes (length arr.filenames)) bs
      → (names : List (Option Name)) × (m' : Meta Db) × (evict_rows e row (oldest_rows bs) arr m
          ≡ some (
            record {
              file_ids = fill row (map (λ b. b.file_id) bs) arr.file_ids;
              filenames = names;
              blk_offsets = fill row (map (λ b. b.blk_start_offset) bs) arr.blk_offsets;
            },
            m',
          ))
        × Same e m m'
  unfolding evict_rows oldest_rows
  rows_return [] row arr m k a b c ix =
      (arr.filenames, m, refl, record { tables = refl; cache_used_size = refl })
  rows_return (b ∷ bs) row arr m k fits fits' fits'' ix =
      let stored : Arrays = record arr {
        blk_offsets = set arr.blk_offsets row b.blk_start_offset;
        file_ids = set arr.file_ids row b.file_id;
      } in
      let (names, m1, first, same_length, s1) =
        name_row_returns row b.file_id stored m k ix.0.0 ix.0.1 (omega arith) in
      let filled_row : Arrays = record stored { filenames = names } in
      let ls = length-set arr.blk_offsets row b.blk_start_offset in
      let ls' = length-set arr.file_ids row b.file_id in
      let (names', m2, rest, s2) =
        rows_return bs (suc row) filled_row m1 (Same-IsReady m m1 s1 k) (omega (arith, ls))
          (omega (arith, ls')) (omega (arith, same_length)) (rw same_length ix.1) in
      let id = h.lawful.column_int64_integer (pos b.file_id) in
      let off = h.lawful.column_int64_integer (to_int64 b.blk_start_offset) in
      let kept = to_size-to_int64 b.blk_start_offset ix.0.2 in
      let kept' : to_size (pos b.file_id) % 2 ^ 32 ≡ b.file_id = omega (arith, ix.0.1) in
      (
        names',
        m2,
        rw (off, kept, id, kept') (ground (arith, ls, ls', first, rest)),
        Same-trans e h.lawful m m1 m2 s1 s2,
      )
