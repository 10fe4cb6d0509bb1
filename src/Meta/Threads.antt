-- ===== src/Meta/Threads.antt =====
-- Callbacks that FUSE runs at once in several threads, each in `write_blks` of
-- src/metadata/meta.c. A step of a thread is one statement on the database, which SQLite
-- serializes, or one access to `cache_used_size`, which nothing guards: `cache_used_size +=
-- meta_block_size` reads the counter in one step and writes it in another.
pub mod Alone
pub mod Pending
pub mod Sound
pub mod Steps
pub mod Advance
pub mod Bounds
pub mod Listed
pub mod Race
pub mod Torn
pub mod Todo
pub mod Same
pub mod View
pub mod Refines
pub mod Ends
use ece566_project.Prelude.{
  ℕ, zero, suc, ◌+◌, ◌%◌, Option, none, some, List, [], ◌∷◌, ◌++◌, if◌then◌else◌, Name,
}
use ece566_project.Prelude.Int.{ℤ, word, to_int64}
use ece566_project.Sql.{Statement}
use ece566_project.Sql.Engine.{Engine}
use ece566_project.Meta.{Meta, truthy, perform, is_blk_in_cache, update_blk_time}

-- Where a thread stands, with the file name and the rest of its two arrays: in the loop of
-- `are_blocks_in_cache`, before a round of the loop of `write_blks`, or inside `insert_block`:
-- before the update of the size, before the counter is read, and before it is written.
pub data Thread : Type 0 where
  asks : Name → List ℕ → List ℤ → List ℕ → Thread
  writes : Name → List ℤ → List ℕ → Thread
  grows : Name → List ℤ → List ℕ → Thread
  loads : Name → List ℤ → List ℕ → Thread
  stores : ℕ → Name → List ℤ → List ℕ → Thread
  returned : Thread

-- A call of `write_blks`.
abbrev pub call : Name → List ℕ → Thread
call filename blk_arr = Thread.asks filename blk_arr [] blk_arr

module _ (e : Engine) where
  open e use {Db}

  -- `total_hit` is left out: `write_blks` does not look at it.
  unfoldable pub ask_step : Name → List ℕ → List ℤ → List ℕ → Meta Db → Thread × Meta Db
  ask_step filename [] hits blk_arr m = (Thread.writes filename hits blk_arr, m)
  ask_step filename (off ∷ offs) hits blk_arr m =
      let (hit, m1) = is_blk_in_cache e filename off m in
      (Thread.asks filename offs (hits ++ hit ∷ []) blk_arr, m1)

  -- the `INSERT` of `insert_block`: the early return leaves the counter alone
  unfoldable pub insert_step : Name → ℕ → List ℤ → List ℕ → Meta Db → Thread × Meta Db
  insert_step filename off hits offs m =
      let (ok, m1) = perform e (Statement.insert_datablock off filename) m in
      (if ok then Thread.grows filename hits offs else Thread.writes filename hits offs, m1)

  unfoldable pub write_step : Name → List ℤ → List ℕ → Meta Db → Thread × Meta Db
  write_step filename (hit ∷ hits) (off ∷ offs) m =
      if truthy hit
      then (Thread.writes filename hits offs, (update_blk_time e filename off m).1)
      else insert_step filename off hits offs m
  write_step filename _ _ m = (Thread.returned, m)

  -- the `UPDATE` of `insert_block`
  unfoldable pub grow_step : Name → List ℤ → List ℕ → Meta Db → Thread × Meta Db
  grow_step filename hits offs m =
      let (ok, m1) = perform e (Statement.add_local_size (to_int64 m.meta_block_size) filename) m in
      (if ok then Thread.loads filename hits offs else Thread.writes filename hits offs, m1)

  -- the counter written from the value that was read
  unfoldable pub store_step : ℕ → Name → List ℤ → List ℕ → Meta Db → Thread × Meta Db
  store_step read filename hits offs m = (
    Thread.writes filename hits offs,
    record m { cache_used_size = (read + m.meta_block_size) % word },
  )

  unfoldable pub advance : Thread → Meta Db → Thread × Meta Db
  advance (Thread.asks filename offs hits blk_arr) m = ask_step filename offs hits blk_arr m
  advance (Thread.writes filename hits offs) m = write_step filename hits offs m
  advance (Thread.grows filename hits offs) m = grow_step filename hits offs m
  advance (Thread.loads filename hits offs) m =
      (Thread.stores m.cache_used_size filename hits offs, m)
  advance (Thread.stores read filename hits offs) m = store_step read filename hits offs m
  advance Thread.returned m = (Thread.returned, m)

  -- One thread run by itself, for a number of steps.
  unfoldable pub advances : ℕ → Thread × Meta Db → Thread × Meta Db
  advances zero s = s
  advances (suc n) (c, m) = advances n (advance c m)

  -- The thread that is scheduled makes a step; the others wait.
  unfoldable pub turn : ℕ → List Thread × Meta Db → List Thread × Meta Db
  turn i ([], m) = ([], m)
  turn zero (c ∷ cs, m) = let (c', m') = advance c m in (c' ∷ cs, m')
  turn (suc i) (c ∷ cs, m) = let (cs', m') = turn i (cs, m) in (c ∷ cs', m')

  -- An interleaving: the threads in the order in which they are scheduled.
  unfoldable pub interleave : List ℕ → List Thread × Meta Db → List Thread × Meta Db
  interleave [] s = s
  interleave (i ∷ is) s = interleave is (turn i s)
