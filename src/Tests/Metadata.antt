-- ===== src/Tests/Metadata.antt =====
-- The operations of meta.c on a catalog in memory: one file with one of its two blocks cached.
use ece566_project.Main.{init_metadata}
use ece566_project.Main.Restart.{enforced, init_metadata-IsValid}
use ece566_project.Meta.Numbers.{str_to_num}
use ece566_project.Meta.Numbers.Decimal.{decimal, str_to_num-decimal}
use ece566_project.Prelude.{false, some, ◌≡◌, refl, true, none, [], ◌∷◌, map, arith}
use ece566_project.Prelude.Int.{◌-ℤ◌, pos}
use ece566_project.Sql.{resize, Tables, find_block}
use ece566_project.Sql.Cached.{cached, known}
use ece566_project.Meta.Absent.{delete_block_absent}
use ece566_project.Meta.{success, sub_size, delete_block, Meta, are_blocks_in_cache}
use ece566_project.Meta.Effects.{After}
use ece566_project.Meta.Invariant.{IsValid}
use ece566_project.Meta.Lookups.{bit}
use ece566_project.Meta.Lookups.Ranges.{all_cached, are_blocks_in_cache-cached}
use ece566_project.Tests.Memory.{
  memory, memory-IsHealthy, memory-IsPrinted, movie, movie_row, tables, meta, meta-IsValid,
  found_movie,
}

second_block_absent : find_block 4 movie_row.file_id tables.blocks ≡ none
unfolding find_block
second_block_absent = refl

known-movie : known tables movie ≡ true
known-movie = ground (arith, found_movie)

are_blocks_in_cache-cached_example :
    ((are_blocks_in_cache memory movie (0 ∷ 4 ∷ []) meta).0
      ≡ bit (all_cached tables movie (0 ∷ 4 ∷ [])))
    × ((are_blocks_in_cache memory movie (0 ∷ 4 ∷ []) meta).1
        ≡ map (λ o. bit (cached tables movie o)) (0 ∷ 4 ∷ []))
    × ((are_blocks_in_cache memory movie (0 ∷ 4 ∷ []) meta).2.db ≡ tables)
are_blocks_in_cache-cached_example =
    are_blocks_in_cache-cached memory memory-IsHealthy movie (0 ∷ 4 ∷ []) meta meta-IsValid

-- The database as a new connection finds it.
abbrev unopened : Meta Tables
unopened = record {
  db = record tables { foreign_keys = false };
  cache_used_size = 0;
  meta_block_size = 0;
  open_stmts = 0;
}

init_metadata-IsValid_example :
    (m' : Meta Tables) × (init_metadata memory 4 unopened ≡ some m')
    × (m'.db ≡ enforced (record tables { foreign_keys = false }))
    × IsValid memory m'
init_metadata-IsValid_example =
    init_metadata-IsValid memory memory-IsHealthy 4 unopened meta-IsValid.consistent
      memory-IsPrinted refl (omega arith) (omega arith)

str_to_num-decimal_example : str_to_num (decimal 4096) ≡ some 4096
str_to_num-decimal_example = str_to_num-decimal 4096 (omega arith)

delete_block_absent_example :
    ((delete_block memory movie 4 meta).0 ≡ success)
    × After memory meta
        (record tables { files = resize (λ z. z -ℤ pos 4) movie tables.files })
        (sub_size 4 4)
        0
        (delete_block memory movie 4 meta).1
delete_block_absent_example =
    delete_block_absent memory memory-IsHealthy movie 4 meta meta-IsValid.consistent movie_row
      (omega arith) found_movie second_block_absent
