-- ===== src/Meta.antt =====
-- src/metadata/meta.c: the bookkeeping of the cache in an SQLite database. The state is the
-- database with the file's two static counters, and the number of prepared statements that have
-- not been finalized. The texts printed to stdout and stderr are left out.
pub mod Effects
pub mod Invariant
pub mod Lookups
pub mod Growth
pub mod Files
pub mod Updates
pub mod Absent
pub mod Evict
pub mod Threads
pub mod Numbers
use ece566_project.Prelude.{
  ℕ, ◌+◌, ◌-◌, ◌%◌, ◌==◌, Bool, true, false, not, Option, none, some, List, [], ◌∷◌, if◌then◌else◌,
  Name,
}
use ece566_project.Prelude.Int.{ℤ, pos, negsuc, word, to_int64, to_size}
use ece566_project.Sql.{Statement, Value, Row}
use ece566_project.Sql.Engine.{Engine, Answer}

pub record Meta (Db : Type 0) : Type 0 where
  pub db : Db
  pub cache_used_size : ℕ
  pub meta_block_size : ℕ
  pub open_stmts : ℕ

-- What `sqlite3_step` returns; with SQLITE_ROW, the row that it makes current.
pub data Code : Type 0 where
  sqlite_row : Row → Code
  sqlite_done sqlite_error : Code

abbrev pub step_rows : List Row → Bool → Code × Answer
step_rows (r ∷ rs) ends = (Code.sqlite_row r, record { rows = rs; is_done = ends })
step_rows [] true = (Code.sqlite_done, record { rows = []; is_done = true })
step_rows [] false = (Code.sqlite_error, record { rows = []; is_done = false })

abbrev pub step : Answer → Code × Answer
step a = step_rows a.rows a.is_done

abbrev pub is_sqlite_done : Code → Bool
is_sqlite_done Code.sqlite_done = true
is_sqlite_done (Code.sqlite_row _) = false
is_sqlite_done Code.sqlite_error = false

abbrev pub first_cell : Code → Option Value
first_cell (Code.sqlite_row (v ∷ _)) = some v
first_cell _ = none

-- An `int` as a condition.
abbrev pub truthy : ℤ → Bool
truthy (pos n) = not (n == 0)
truthy (negsuc _) = true

-- The values that the operations return.
abbrev pub success : ℤ
success = pos 0

abbrev pub failure : ℤ
failure = negsuc 0

-- `a - b` on `size_t`
abbrev pub sub_size : ℕ → ℕ → ℕ
sub_size a b = (a + word - b) % word

module _ (e : Engine) where
  open e use {Db, run, finalize_ok, column_int64}

  -- `sqlite3_prepare_v2` and the bindings; the answer is what the steps will yield.
  unfoldable pub prepare : Statement → Meta Db → Answer × Meta Db
  prepare s m =
      let (a, db') = run s m.db in (a, record m { db = db'; open_stmts = m.open_stmts + 1 })

  -- `sqlite3_finalize`, and whether it returned SQLITE_OK
  unfoldable pub finalize : Meta Db → Bool × Meta Db
  finalize m = (finalize_ok m.db, record m { open_stmts = m.open_stmts - 1 })

  -- prepare, bind, step, finalize, as every update of the file does: the early return after a
  -- failed step skips the finalize
  unfoldable pub perform : Statement → Meta Db → Bool × Meta Db
  perform s m =
      let (a, m1) = prepare s m in if is_sqlite_done (step a).0 then finalize m1 else (false, m1)

  unfoldable pub create_file : Name → ℕ → Meta Db → ℤ × Meta Db
  create_file filename remote_size m =
      let (ok, m1) = perform (Statement.insert_file filename (to_int64 remote_size)) m in
      (if ok then success else failure, m1)

  -- the second half of `insert_block`
  unfoldable pub grow_file : Name → Meta Db → ℤ × Meta Db
  grow_file filename m =
      let (ok, m1) = perform (Statement.add_local_size (to_int64 m.meta_block_size) filename) m in
      if ok
      then (
        success,
        record m1 { cache_used_size = (m1.cache_used_size + m1.meta_block_size) % word },
      )
      else (failure, m1)

  unfoldable pub insert_block : Name → ℕ → Meta Db → ℤ × Meta Db
  insert_block filename blk_offset m =
      let (ok, m1) = perform (Statement.insert_datablock blk_offset filename) m in
      if ok then grow_file filename m1 else (failure, m1)

  unfoldable pub insert_blocks : Name → List ℕ → Meta Db → ℤ × Meta Db
  insert_blocks filename [] m = (success, m)
  insert_blocks filename (off ∷ offs) m =
      insert_blocks filename offs (insert_block filename off m).1

  -- the `DELETE` of `delete_file`
  unfoldable pub drop_file : Name → Meta Db → ℤ × Meta Db
  drop_file filename m =
      let (ok, m1) = perform (Statement.delete_from_files filename) m in
      (if ok then success else failure, m1)

  unfoldable pub delete_file : Name → Meta Db → ℤ × Meta Db
  delete_file filename m =
      let (a, m1) = prepare (Statement.select_local_size filename) m in
      let (c, a1) = step a in
      let m2 = record m1 {
        cache_used_size = sub_size m1.cache_used_size (to_size (column_int64 (first_cell c)));
      } in
      if is_sqlite_done (step a1).0
      then (let (ok, m3) = finalize m2 in if ok then drop_file filename m3 else (failure, m3))
      else (failure, m2)

  -- the second half of `delete_block`
  unfoldable pub shrink_file : Name → Meta Db → ℤ × Meta Db
  shrink_file filename m =
      let (ok, m1) = perform (Statement.sub_local_size (to_int64 m.meta_block_size) filename) m in
      if ok
      then (success, record m1 { cache_used_size = sub_size m1.cache_used_size m1.meta_block_size })
      else (failure, m1)

  unfoldable pub delete_block : Name → ℕ → Meta Db → ℤ × Meta Db
  delete_block filename blk_offset m =
      let (ok, m1) = perform (Statement.delete_datablock blk_offset filename) m in
      if ok then shrink_file filename m1 else (failure, m1)

  unfoldable pub delete_blocks : Name → List ℕ → Meta Db → ℤ × Meta Db
  delete_blocks filename [] m = (success, m)
  delete_blocks filename (off ∷ offs) m =
      delete_blocks filename offs (delete_block filename off m).1

  -- a query that must yield one row: 1 if it does, 0 if it yields none, -1 on an error
  unfoldable pub probe : Statement → Meta Db → ℤ × Meta Db
  probe s m =
      let (a, m1) = prepare s m in
      let (c, a1) = step a in
      elim c [
        | Code.sqlite_done ↦ (pos 0, m1)
        | Code.sqlite_error ↦ (failure, m1)
        | Code.sqlite_row _ ↦
            if is_sqlite_done (step a1).0
            then (let (ok, m2) = finalize m1 in (if ok then pos 1 else failure, m2))
            else (failure, m1)
      ]

  unfoldable pub is_file_in_cache : Name → Meta Db → ℤ × Meta Db
  is_file_in_cache filename = probe (Statement.select_file_id filename)

  unfoldable pub is_blk_in_cache : Name → ℕ → Meta Db → ℤ × Meta Db
  is_blk_in_cache filename blk_offset = probe (Statement.select_block_id blk_offset filename)

  -- the loop of `are_blocks_in_cache` from `total_hit` on: the value returned, and `bool_arr`
  unfoldable pub check_blocks : Name → List ℕ → ℤ → Meta Db → ℤ × List ℤ × Meta Db
  check_blocks filename [] total_hit m = (total_hit, [], m)
  check_blocks filename (off ∷ offs) total_hit m =
      let (hit, m1) = is_blk_in_cache filename off m in
      let (total, hits, m2) =
        check_blocks filename offs (if truthy hit then total_hit else pos 0) m1 in
      (total, hit ∷ hits, m2)

  unfoldable pub are_blocks_in_cache : Name → List ℕ → Meta Db → ℤ × List ℤ × Meta Db
  are_blocks_in_cache filename blk_arr m = check_blocks filename blk_arr (pos 1) m

  unfoldable pub update_blk_time : Name → ℕ → Meta Db → ℤ × Meta Db
  update_blk_time filename blk_offset m =
      let (ok, m1) = perform (Statement.touch_datablock blk_offset filename) m in
      (if ok then success else failure, m1)

  -- one round of the loop of `write_blks`
  unfoldable pub write_blk : Name → ℤ → ℕ → Meta Db → Meta Db
  write_blk filename hit off m =
      if truthy hit then (update_blk_time filename off m).1 else (insert_block filename off m).1

  unfoldable pub write_each : Name → List ℤ → List ℕ → Meta Db → Meta Db
  write_each filename (hit ∷ hits) (off ∷ offs) m =
      write_each filename hits offs (write_blk filename hit off m)
  write_each filename _ _ m = m

  unfoldable pub write_blks : Name → List ℕ → Meta Db → ℤ × Meta Db
  write_blks filename blk_arr m =
      let (_, bool_arr, m1) = are_blocks_in_cache filename blk_arr m in
      (success, write_each filename bool_arr blk_arr m1)

  -- a placeholder of the source
  unfoldable pub update_lru_blk : Name → ℕ → Meta Db → ℤ × Meta Db
  update_lru_blk filename blk_offset m = (success, m)

  unfoldable pub get_cache_used_size : Meta Db → ℕ
  get_cache_used_size m = m.cache_used_size

  unfoldable pub set_block_size : ℕ → Meta Db → Meta Db
  set_block_size blk_size m = record m { meta_block_size = blk_size }

  -- `sqlite3_exec` of the pragma; `sqlite3_open` has given the connection
  unfoldable pub open_db : Meta Db → ℤ × Meta Db
  open_db m =
      let (a, db') = run Statement.foreign_keys_on m.db in
      (if a.is_done then success else failure, record m { db = db' })

  -- `sqlite3_exec` of two statements stops at the first that fails
  unfoldable pub create_tables : Meta Db → ℤ × Meta Db
  create_tables m =
      let (a, db1) = run Statement.create_files m.db in
      if a.is_done
      then (let (a', db2) = run Statement.create_datablocks db1 in
          (if a'.is_done then success else failure, record m { db = db2 }))
      else (failure, record m { db = db1 })
