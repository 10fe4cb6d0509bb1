-- ===== src/Sql.antt =====
-- The SQL of src/metadata/meta.c: the two tables that `create_tables` declares, and every
-- statement text of the file as a constructor whose arguments are the bound parameters.
-- `meaning` reads a statement as SQL does: `none` is a constraint that fails or a table that is
-- not there, and such a statement changes nothing. The database engine itself, which can also fail
-- on its own, is a parameter (Sql/Engine.antt).
pub mod Totals
pub mod Engine
pub mod Rows
pub mod Counts
pub mod Catalog
pub mod Cached
use ece566_project.Prelude.{
  ℕ, ◌≡◌, Bool, true, false, not, ◌&&◌, Option, none, some, List, [], ◌∷◌, ◌==◌, if◌then◌else◌,
  is_some, ltb, leb, ◌^◌, Name, same, take,
}
use ece566_project.Prelude.Int.{ℤ, pos, negsuc, ◌+ℤ◌, ◌-ℤ◌, to_int64}

-- A row of `Files`.
pub record FileRow : Type 0 where
  pub file_id : ℕ
  pub relative_path : Name
  pub remote_size : ℤ
  pub local_size : ℤ

-- A row of `Datablocks`. An offset is a `size_t`, stored bit for bit as a 64-bit integer.
pub record BlockRow : Type 0 where
  pub block_id : ℕ
  pub blk_start_offset : ℕ
  pub is_valid : Bool
  pub timestamp : ℕ
  pub file_id : ℕ

pub record Tables : Type 0 where
  pub has_files : Bool
  pub has_blocks : Bool
  pub foreign_keys : Bool
  pub files : List FileRow
  pub blocks : List BlockRow

-- The statements of meta.c, in the order of their appearance.
pub data Statement : Type 0 where
  sum_local_size : Statement
  foreign_keys_on : Statement
  create_files : Statement
  create_datablocks : Statement
  insert_file : Name → ℤ → Statement
  insert_datablock : ℕ → Name → Statement
  add_local_size : ℤ → Name → Statement
  select_local_size : Name → Statement
  delete_from_files : Name → Statement
  delete_datablock : ℕ → Name → Statement
  sub_local_size : ℤ → Name → Statement
  select_file_id : Name → Statement
  select_block_id : ℕ → Name → Statement
  touch_datablock : ℕ → Name → Statement
  select_oldest : ℕ → Statement
  select_relative_path : ℕ → Statement

-- A cell of a result row.
pub data Value : Type 0 where
  integer : ℤ → Value
  text : Name → Value
  null : Value

abbrev pub Row : Type 0
Row = List Value

-- `WHERE relative_path = ?`
unfoldable pub find_path : Name → List FileRow → Option FileRow
find_path p [] = none
find_path p (f ∷ fs) = if same f.relative_path p then some f else find_path p fs

-- `WHERE file_id = ?`
unfoldable pub find_id : ℕ → List FileRow → Option FileRow
find_id i [] = none
find_id i (f ∷ fs) = if f.file_id == i then some f else find_id i fs

abbrev pub at : ℕ → ℕ → BlockRow → Bool
at off i b = b.blk_start_offset == off && b.file_id == i

-- `WHERE blk_start_offset = ? AND file_id = ?`
unfoldable pub find_block : ℕ → ℕ → List BlockRow → Option BlockRow
find_block off i [] = none
find_block off i (b ∷ bs) = if at off i b then some b else find_block off i bs

-- The new size is taken to fit 64 bits, where SQLite turns to floating point.
-- `UPDATE Files SET local_size = g (local_size) WHERE relative_path = ?`
unfoldable pub resize : (ℤ → ℤ) → Name → List FileRow → List FileRow
resize g p [] = []
resize g p (f ∷ fs) =
    (record f { local_size = if same f.relative_path p then g f.local_size else f.local_size })
    ∷ resize g p fs

unfoldable pub remove_path : Name → List FileRow → List FileRow
remove_path p [] = []
remove_path p (f ∷ fs) = if same f.relative_path p then remove_path p fs else f ∷ remove_path p fs

-- `ON DELETE CASCADE`
unfoldable pub remove_id : ℕ → List BlockRow → List BlockRow
remove_id i [] = []
remove_id i (b ∷ bs) = if b.file_id == i then remove_id i bs else b ∷ remove_id i bs

unfoldable pub remove_block : ℕ → ℕ → List BlockRow → List BlockRow
remove_block off i [] = []
remove_block off i (b ∷ bs) =
    if at off i b then remove_block off i bs else b ∷ remove_block off i bs

-- `UPDATE Datablocks SET timestamp = now WHERE ...`
unfoldable pub touch : ℕ → ℕ → ℕ → List BlockRow → List BlockRow
touch now off i [] = []
touch now off i (b ∷ bs) =
    (record b { timestamp = if at off i b then now else b.timestamp }) ∷ touch now off i bs

unfoldable pub sum_sizes : List FileRow → ℤ
sum_sizes [] = pos 0
sum_sizes (f ∷ fs) = f.local_size +ℤ sum_sizes fs

unfoldable pub is_int64 : ℤ → Bool
is_int64 (pos n) = ltb n (2 ^ 63)
is_int64 (negsuc n) = ltb n (2 ^ 63)

-- `SUM` raises an integer overflow if one occurs at any point.
unfoldable pub sums_fit : List FileRow → Bool
sums_fit [] = true
sums_fit (f ∷ fs) = is_int64 (sum_sizes (f ∷ fs)) && sums_fit fs

-- `SUM` of no rows is NULL.
unfoldable pub sum_value : List FileRow → Value
unfolding sum_sizes
sum_value [] = null
sum_value (f ∷ fs) = integer (sum_sizes (f ∷ fs))

-- `ORDER BY timestamp ASC`
unfoldable pub insert_by_timestamp : BlockRow → List BlockRow → List BlockRow
insert_by_timestamp b [] = b ∷ []
insert_by_timestamp b (c ∷ cs) =
    let rest = insert_by_timestamp b cs in
    if leb b.timestamp c.timestamp then b ∷ c ∷ cs else c ∷ rest

unfoldable pub order_by_timestamp : List BlockRow → List BlockRow
order_by_timestamp [] = []
order_by_timestamp (b ∷ bs) = insert_by_timestamp b (order_by_timestamp bs)

unfoldable pub oldest_rows : List BlockRow → List Row
oldest_rows [] = []
oldest_rows (b ∷ bs) =
    (integer (to_int64 b.blk_start_offset) ∷ integer (pos b.file_id) ∷ []) ∷ oldest_rows bs

-- What a statement is run against: the time, a rowid that is not in use, and the order in which
-- a scan meets the blocks, which SQL leaves open.
pub record Moment : Type 0 where
  pub now : ℕ
  pub rowid : ℕ
  pub scan : List BlockRow → List BlockRow

abbrev guard : Bool → Option (List Row × Tables) → Option (List Row × Tables)
guard true r = r
guard false r = none

abbrev done : Tables → Option (List Row × Tables)
done t = some ([], t)

-- A query that names one row at most.
abbrev one_row {ℓ} : {A : Type ℓ} → Option A → (A → Value) → List Row
one_row none f = []
one_row (some a) f = (f a ∷ []) ∷ []

abbrev insert_block_for : Moment → ℕ → Option FileRow → Tables → Option (List Row × Tables)
insert_block_for m off none t = none
insert_block_for m off (some f) t =
    if is_some (find_block off f.file_id t.blocks)
    then none
    else done (record t {
      blocks =
          record {
            block_id = m.rowid;
            blk_start_offset = off;
            is_valid = true;
            timestamp = m.now;
            file_id = f.file_id;
          }
          ∷ t.blocks;
    })

abbrev on_blocks :
    Option FileRow → (ℕ → List BlockRow → List BlockRow) → List BlockRow → List BlockRow
on_blocks none g bs = bs
on_blocks (some f) g bs = g f.file_id bs

abbrev select_block_for : ℕ → Option FileRow → List BlockRow → List Row
select_block_for off none bs = []
select_block_for off (some f) bs =
    one_row (find_block off f.file_id bs) (λ b. integer (pos b.block_id))

unfoldable pub meaning : Moment → Statement → Tables → Option (List Row × Tables)
unfolding oldest_rows sum_value
meaning m sum_local_size t =
    guard (t.has_files && sums_fit t.files) (some ((sum_value t.files ∷ []) ∷ [], t))
meaning m foreign_keys_on t = done (record t { foreign_keys = true })
meaning m create_files t =
    guard (not t.has_files) (done (record t { has_files = true; files = [] }))
meaning m create_datablocks t =
    guard (not t.has_blocks) (done (record t { has_blocks = true; blocks = [] }))
meaning m (insert_file p n) t = guard (t.has_files && not (is_some (find_path p t.files))) (
    done (record t {
      files =
          record { file_id = m.rowid; relative_path = p; remote_size = n; local_size = pos 0 }
          ∷ t.files;
    }))
meaning m (insert_datablock off p) t =
    guard (t.has_files && t.has_blocks) (insert_block_for m off (find_path p t.files) t)
meaning m (add_local_size n p) t =
    guard t.has_files (done (record t { files = resize (λ z. z +ℤ n) p t.files }))
meaning m (select_local_size p) t =
    guard t.has_files (some (one_row (find_path p t.files) (λ f. integer f.local_size), t))
meaning m (delete_from_files p) t = guard t.has_files (
    done (record t {
      files = remove_path p t.files;
      blocks =
          if t.foreign_keys then on_blocks (find_path p t.files) remove_id t.blocks else t.blocks;
    }))
meaning m (delete_datablock off p) t =
    guard (t.has_files && t.has_blocks)
      (done (record t { blocks = on_blocks (find_path p t.files) (remove_block off) t.blocks }))
meaning m (sub_local_size n p) t =
    guard t.has_files (done (record t { files = resize (λ z. z -ℤ n) p t.files }))
meaning m (select_file_id p) t =
    guard t.has_files (some (one_row (find_path p t.files) (λ f. integer (pos f.file_id)), t))
meaning m (select_block_id off p) t =
    guard (t.has_files && t.has_blocks)
      (some (select_block_for off (find_path p t.files) t.blocks, t))
meaning m (touch_datablock off p) t =
    guard (t.has_files && t.has_blocks)
      (done (record t { blocks = on_blocks (find_path p t.files) (touch m.now off) t.blocks }))
meaning m (select_oldest n) t =
    guard t.has_blocks (some (oldest_rows (take n (order_by_timestamp (m.scan t.blocks))), t))
meaning m (select_relative_path i) t =
    guard t.has_files (some (one_row (find_id i t.files) (λ f. text f.relative_path), t))
