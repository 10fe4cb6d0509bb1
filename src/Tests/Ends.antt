-- ===== src/Tests/Ends.antt =====
-- How reads and writes end, at concrete inputs.
use ece566_project.Prelude.{length-take, drop, ◌<◌, ◌≡◌, ◌≢◌, ◌↔◌, refl, [], ◌∷◌, arith, ◌*◌, ◌%◌}
use ece566_project.Prelude.Int.{word}
use ece566_project.Prelude.{ℕ, true}
use ece566_project.Prelude.Int.{pos}
use ece566_project.Posix.{Sys}
use ece566_project.Cfs.{Config}
use ece566_project.Cfs.Namespace.{cfs_mkdir}
use ece566_project.Cfs.Requests.{Request, Response, dispatch}
use ece566_project.Cfs.Requests.Full.{Lasts, forgets, full_blocks_writes}
use ece566_project.Tests.Disk.{Files}
use ece566_project.Cfs.Bytes.{overwrite}
use ece566_project.Cfs.Align.{align_lower_offset, aligned_size}
use ece566_project.Cfs.CacheWrite.{cfs_cache_write}
use ece566_project.Cfs.Outcome.{Outcome}
use ece566_project.Cfs.Read.{cfs_read}
use ece566_project.Cfs.Read.Yields.{IsBounded}
use ece566_project.Cfs.Write.{cfs_write}
use ece566_project.Cfs.Ends.{
  cfs_read_ends, cfs_read_no_fault, cfs_write_ends, cfs_write_no_fault, cfs_read_overruns,
  cfs_cache_write_ends_iff,
}
use ece566_project.Tests.Memory.{memory, memory-IsHealthy, movie, meta-IsValid}
use ece566_project.Tests.Disk.{disk, info, config, contents, length-zeros}
use ece566_project.Tests.Callbacks.{state}

pub disk-IsBounded : IsBounded disk
disk-IsBounded = record {
  pread = λ fd n off w. omega (arith, length-take {0} n (drop off (contents fd w)));
  malloc = λ n w. length-zeros n;
}

cfs_read_ends_example : cfs_read config disk memory 1 movie 6 1 info state ≢ Outcome.hang
unfolding aligned_size
cfs_read_ends_example =
    cfs_read_ends config disk memory memory-IsHealthy (omega arith) 0 movie info state meta-IsValid
      refl 6 1 (omega arith)

cfs_read_no_fault_example : cfs_read config disk memory 1 movie 6 1 info state ≢ Outcome.fault
unfolding aligned_size align_lower_offset
cfs_read_no_fault_example =
    cfs_read_no_fault config disk memory memory-IsHealthy (omega arith) 0 movie info state
      meta-IsValid refl 6 1 disk-IsBounded (omega arith)

cfs_write_ends_example :
    cfs_write config disk memory 1 movie (9 ∷ 8 ∷ []) 2 4 info state ≢ Outcome.hang
unfolding aligned_size
cfs_write_ends_example =
    cfs_write_ends config disk memory memory-IsHealthy (omega arith) 0 movie info state meta-IsValid
      refl (9 ∷ 8 ∷ []) 2 4 (omega arith)

cfs_write_no_fault_example :
    cfs_write config disk memory 1 movie (9 ∷ 8 ∷ []) 2 4 info state ≢ Outcome.fault
unfolding aligned_size align_lower_offset overwrite
cfs_write_no_fault_example =
    cfs_write_no_fault config disk memory memory-IsHealthy (omega arith) 0 movie info state
      meta-IsValid refl (9 ∷ 8 ∷ []) 2 4 disk-IsBounded (omega arith) (omega arith) (omega arith)

cfs_read_overruns_example : cfs_read config disk memory 1 movie 4 1 info state ≡ Outcome.fault
unfolding aligned_size
cfs_read_overruns_example =
    cfs_read_overruns config disk memory memory-IsHealthy (omega arith) 0 movie info state
      meta-IsValid refl 4 1 (λ n w. length-zeros n) (omega arith) refl (omega arith)

cfs_cache_write_ends_iff_example :
    (cfs_cache_write config disk memory 1 movie (5 ∷ 6 ∷ 7 ∷ 8 ∷ []) 4 4 info state ≢ Outcome.hang)
    ↔ (4 < 1 * 1024 % word)
cfs_cache_write_ends_iff_example =
    cfs_cache_write_ends_iff config disk memory state 0 movie (5 ∷ 6 ∷ 7 ∷ 8 ∷ []) 4 4 info
      (omega arith)

-- A cache that holds nothing.
abbrev full : Config
full = record { nasdir = []; cachedir = []; cache_size = 0; block_size = 4 }

abbrev after_mkdir : Sys Files memory.Db
after_mkdir = (cfs_mkdir full disk movie 0 state).1

lasted : Lasts ℕ full disk memory true 1000 state after_mkdir
unfolding dispatch forgets
lasted =
    Lasts.request (Request.mkdir movie 0) (Response.status (cfs_mkdir full disk movie 0 state).0)
      refl refl Lasts.here

full_blocks_writes_example :
    (after_mkdir.meta.cache_used_size ≡ 4)
    × (cfs_write full disk memory 1000 movie (5 ∷ 6 ∷ []) 2 4 info after_mkdir
        ≢ Outcome.done (pos 2, state))
full_blocks_writes_example =
    full_blocks_writes ℕ full disk memory true 1000 (omega arith) state after_mkdir movie
      (5 ∷ 6 ∷ []) 2 4 info (pos 2) state (omega arith) lasted
