-- ===== src/Tests/Threads.antt =====
-- Two threads that write blocks of one file at the same time.
use ece566_project.Prelude.{
  ℕ, zero, suc, ◌+◌, ◌*◌, ◌%◌, ◌≤◌, ◌≡◌, refl, false, List, [], ◌∷◌, arith, All, length, same,
}
use ece566_project.Prelude.Int.{word}
use ece566_project.Sql.{find_path, find_block}
use ece566_project.Sql.Cached.{cached}
use ece566_project.Sql.Catalog.{IsConsistent}
use ece566_project.Meta.{create_file, delete_file, write_blks}
use ece566_project.Meta.Invariant.{IsValid}
use ece566_project.Meta.Updates.{view, abstract_updates}
use ece566_project.Meta.Threads.{Thread, call, advances, interleave}
use ece566_project.Meta.Threads.Pending.{HasReturned}
use ece566_project.Meta.Threads.Alone.{write_blks_alone}
use ece566_project.Meta.Threads.Bounds.{Job, calls, interleave_bounds}
use ece566_project.Meta.Threads.Race.{race, lost_update}
use ece566_project.Meta.Threads.Torn.{torn_insert}
use ece566_project.Meta.Threads.Refines.{writes_of, interleave-view}
use ece566_project.Tests.Memory.{memory, memory-IsHealthy, movie, meta, meta-IsValid}

abbrev two_jobs : List Job
two_jobs = (movie, 4 ∷ []) ∷ (movie, 0 ∷ 8 ∷ []) ∷ []

-- Turn and turn about.
abbrev in_turn : ℕ → List ℕ
in_turn zero = []
in_turn (suc n) = 0 ∷ 1 ∷ in_turn n

write_blks_alone_example :
    (n : ℕ) × (advances memory n (call movie (0 ∷ 4 ∷ []), meta)
      ≡ (Thread.returned, (write_blks memory movie (0 ∷ 4 ∷ []) meta).1))
write_blks_alone_example = write_blks_alone memory movie (0 ∷ 4 ∷ []) meta

interleave_bounds_example :
    let (cs, m') = interleave memory (in_turn 12) (calls two_jobs, meta) in
    (4 ≤ m'.cache_used_size) × (m'.cache_used_size ≤ 4 * length m'.db.blocks)
interleave_bounds_example =
    interleave_bounds memory memory-IsHealthy two_jobs meta meta-IsValid (omega arith) (in_turn 12)

interleave-view_example :
    let (cs, m') = interleave memory (in_turn 12) (calls two_jobs, meta) in
    All HasReturned cs
    × (view m'.db ≡ abstract_updates (writes_of two_jobs) (view meta.db))
    × IsConsistent 4 m'.db
interleave-view_example =
    interleave-view memory memory-IsHealthy two_jobs meta meta-IsValid (omega arith) (in_turn 12)
      (omega arith)

lost_update_example :
    let (cs, m') = interleave memory race (calls ((movie, 4 ∷ []) ∷ (movie, 8 ∷ []) ∷ []), meta) in
    All HasReturned cs
    × (length m'.db.blocks ≡ 3)
    × (m'.cache_used_size ≡ (4 + 4) % word)
    × ¬ IsValid memory m'
unfolding find_path same cached find_block
lost_update_example =
    lost_update memory memory-IsHealthy movie movie 4 8 meta meta-IsValid (omega arith) refl refl
      refl refl refl

torn_insert_example :
    let (c1, m1) = advances memory 3 (call movie (8 ∷ []), meta) in
    let m3 = (create_file memory movie 9 (delete_file memory movie m1).1).1 in
    let (c4, m4) = advances memory 4 (c1, m3) in
    (c4 ≡ Thread.returned)
    × (cached m4.db movie 8 ≡ false)
    × (m4.cache_used_size ≡ (4 * suc (length m4.db.blocks)) % word)
    × ¬ IsConsistent 4 m4.db
unfolding find_path same cached find_block
torn_insert_example =
    torn_insert memory memory-IsHealthy movie 8 9 meta meta-IsValid (omega arith) refl refl
