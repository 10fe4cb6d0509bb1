-- ===== src/Meta/Evict/Total.antt =====
-- When `evict_blocks` of meta.c returns, and what it fills the caller's arrays with.
use ece566_project.Prelude.{
  sym, length-map, set-append, ℕ, suc, ◌+◌, ◌≤◌, ◌≡◌, refl, ap, ◌∙◌, true, some, List, [], ◌∷◌,
  ◌++◌, arith, map, length-append, All, Name, length, take, drop, set,
}
use mathlib.Core.List.{append_assoc}
use ece566_project.Sql.{BlockRow, Statement, Value, meaning, oldest_rows, order_by_timestamp}
use ece566_project.Sql.Engine.{Engine, IsHealthy, run_some}
use ece566_project.Meta.{Meta, success, prepare, finalize}
use ece566_project.Meta.Evict.{Arrays, evict_blocks}
use ece566_project.Meta.Evict.Kept.{oldest-Same}
use ece566_project.Meta.Evict.Rows.{fill, Indexes, IsShort, rows_return}

-- The `n` oldest blocks, as the query finds them.
abbrev pub oldest : (e : Engine) → ℕ → Meta e.Db → List BlockRow
oldest e n m = take n (order_by_timestamp ((e.moment m.db).scan (e.tables m.db).blocks))

-- The array with its first entries replaced.
abbrev pub filled : List ℕ → List ℕ → List ℕ
filled vs xs = vs ++ drop (length vs) xs

set_here :
    (pre xs : List ℕ) (x v : ℕ) → set (pre ++ (x ∷ xs)) (length pre) v ≡ (pre ++ v ∷ []) ++ xs
set_here pre xs x v =
    let here : length pre ≡ length pre + 0 = omega arith in
    ap (λ i. set (pre ++ (x ∷ xs)) i v) here
    ∙ set-append pre (x ∷ xs) 0 v
    ∙ sym (append_assoc pre (v ∷ []) xs)

fill-append :
    (vs pre xs : List ℕ)
    → length vs ≤ length xs
    → fill (length pre) vs (pre ++ xs) ≡ pre ++ filled vs xs
fill-append [] pre xs le = refl
fill-append (v ∷ vs) pre [] le = absurd (omega arith)
fill-append (v ∷ vs) pre (x ∷ xs) le =
    let next : suc (length pre) ≡ length (pre ++ v ∷ []) =
      omega (arith, length-append pre (v ∷ [])) in
    rw (set_here pre xs x v, next) (fill-append vs (pre ++ v ∷ []) xs (omega arith))
    ∙ append_assoc pre (v ∷ []) (filled vs xs)

-- `evict_blocks` returns 0, has put the offsets and the file ids of the blocks that its query
-- finds into the first entries of the two arrays, and has left the tables and the counter as they
-- were: nothing is evicted. The arrays have room for the blocks, every file id among them is an
-- index of the array of names and fits an `int`, the offsets fit a `size_t`, and all paths are
-- shorter than 8 bytes; the tables are there, the engine does not fail and hands out a path as it
-- is stored.
pub evict_blocks_returns :
    (e : Engine) (h : IsHealthy e) (n : ℕ) (arr : Arrays) (m : Meta e.Db)
    → ((name : Name) → e.column_text (some (Value.text name)) ≡ some name)
    → (e.tables m.db).has_files ≡ true
    → (e.tables m.db).has_blocks ≡ true
    → All IsShort (e.tables m.db).files
    → All (Indexes (length arr.filenames)) (oldest e n m)
    → length (oldest e n m) ≤ length arr.blk_offsets
    → length (oldest e n m) ≤ length arr.file_ids
    → length (oldest e n m) ≤ length arr.filenames
    → (arr' : Arrays) × (m' : Meta e.Db) × (evict_blocks e n arr m ≡ some (success, arr', m'))
      × (arr'.blk_offsets ≡ filled (map (λ b. b.blk_start_offset) (oldest e n m)) arr.blk_offsets)
      × (arr'.file_ids ≡ filled (map (λ b. b.file_id) (oldest e n m)) arr.file_ids)
      × (e.tables m'.db ≡ e.tables m.db)
      × (m'.cache_used_size ≡ m.cache_used_size)
unfolding evict_blocks prepare finalize meaning
evict_blocks_returns e h n arr m read has has' short ix fits fits' fits'' =
    let ran =
      run_some e h (Statement.select_oldest n) m.db {rows = oldest_rows (oldest e n m)}
        {t = e.tables m.db} (ground (arith, has')) in
    let m1 = (prepare e (Statement.select_oldest n) m).1 in
    let first = oldest-Same e h.lawful n m in
    let (names, m2, filled_in, s) =
      rows_return e h read (oldest e n m) 0 arr m1
        (record { has_files = rw first.tables has; short = rw first.tables short }) (omega arith)
        (omega arith) (omega arith) ix in
    let offs =
      fill-append (map (λ b. b.blk_start_offset) (oldest e n m)) [] arr.blk_offsets
        (omega (arith, length-map (λ (b : BlockRow). b.blk_start_offset) (oldest e n m))) in
    let ids =
      fill-append (map (λ b. b.file_id) (oldest e n m)) [] arr.file_ids
        (omega (arith, length-map (λ (b : BlockRow). b.file_id) (oldest e n m))) in
    (
      record {
        file_ids = fill 0 (map (λ b. b.file_id) (oldest e n m)) arr.file_ids;
        filenames = names;
        blk_offsets = fill 0 (map (λ b. b.blk_start_offset) (oldest e n m)) arr.blk_offsets;
      },
      (finalize e m2).1,
      ground (arith, ran, filled_in, h.finalizes m2.db),
      offs,
      ids,
      s.tables ∙ first.tables,
      s.cache_used_size ∙ first.cache_used_size,
    )
