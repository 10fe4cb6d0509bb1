-- ===== src/Tests/Consistency.antt =====
-- Reads after writes and opens, and the eviction functions, at concrete inputs.
use ece566_project.Prelude.{
  map, same, ℕ, ◌≡◌, ◌≤◌, ◌↔◌, inl, refl, some, none, [], ◌∷◌, arith, Name, codes, length,
  if◌then◌else◌,
}
use ece566_project.Prelude.Int.{pos, neg, ltb_ℤ}
use ece566_project.Cfs.Bytes.{overwrite}
use ece566_project.Cfs.Write.Stale.{cfs_write_leaves_block}
use ece566_project.Meta.{write_blks, Meta}
use ece566_project.Meta.Growth.{Grows, write_blks-Grows}
use ece566_project.Meta.Lookups.Ranges.{write_blks-cached}
use ece566_project.Meta.Invariant.{write_blks-IsValid}
use ece566_project.Sql.Cached.{cached}
use ece566_project.Prelude.{same_refl, ◌∙◌, true}
use ece566_project.Prelude.Int.{ℤ}
use ece566_project.Tests.Memory.{found_movie}
use ece566_project.Tests.Callbacks.{movie_is_flat}
use ece566_project.Tests.Ends.{disk-IsBounded}
use ece566_project.Sql.{
  meaning, order_by_timestamp, insert_by_timestamp, Tables, find_path, find_id,
}
use ece566_project.Meta.{prepare, probe, is_file_in_cache, create_file, success}
use ece566_project.Meta.Evict.{Arrays, evict_blocks, get_filename_from_fileid}
use ece566_project.Meta.Evict.Kept.{get_filename_overflows_iff}
use ece566_project.Meta.Evict.Total.{oldest, filled, evict_blocks_returns}
use ece566_project.Cfs.Requests.Forwarded.{result_after}
use ece566_project.Cfs.Namespace.{cache_path}
use ece566_project.Cfs.Open.{o_rdwr}
use ece566_project.Posix.{Sys, Syscall, log_syscall, log_retstat}
use ece566_project.Cfs.{DualFileHandle}
use ece566_project.Cfs.Align.{aligned_size, align_lower_offset}
use ece566_project.Cfs.Bytes.{slice}
use ece566_project.Cfs.Open.{switch_flags, cfs_open, open_present, make_entry, check_up_to_date}
use ece566_project.Cfs.Open.Reads.{cfs_open_reads_nas}
use ece566_project.Cfs.Open.Handle.{cfs_open_handle}
use ece566_project.Cfs.Outcome.{Outcome}
use ece566_project.Cfs.Namespace.{cfs_mk_cache_nod, make_node}
use ece566_project.Cfs.Attributes.{cfs_get_nas_attr}
use ece566_project.Cfs.Paths.{squeeze, cfs_path_to_file_name, cfs_full_nas_path}
use ece566_project.Cfs.Read.{cfs_read}
use ece566_project.Cfs.Write.{cfs_write}
use ece566_project.Cfs.Write.Back.{cfs_write_reads_back}
use ece566_project.Tests.Memory.{
  memory, memory-IsHealthy, movie, movie_row, tables, meta, meta-IsValid,
}
use ece566_project.Tests.Disk.{
  disk, disk-IsDisk, disk-IsWritable, contents, Files, files, info, config,
}
use ece566_project.Tests.Callbacks.{state, movie-Steady}

cfs_write_reads_back_example :
    (s' : Sys Files Tables) × (s'' : Sys Files Tables) × (cfs_write config disk memory 1 movie
        (9 ∷ 8 ∷ 7 ∷ [])
        (length {A = ℕ} (9 ∷ 8 ∷ 7 ∷ []))
        4
        info
        state
      ≡ Outcome.done (pos (length {A = ℕ} (9 ∷ 8 ∷ 7 ∷ [])), s'))
    × (cfs_read config disk memory 1 movie (length {A = ℕ} (9 ∷ 8 ∷ 7 ∷ [])) 4 info s'
        ≡ Outcome.done
            ((pos (aligned_size 4 (length {A = ℕ} (9 ∷ 8 ∷ 7 ∷ []))), 9 ∷ 8 ∷ 7 ∷ []), s''))
unfolding aligned_size
cfs_write_reads_back_example =
    cfs_write_reads_back config disk memory memory-IsHealthy contents info disk-IsDisk movie
      (disk-IsWritable (cfs_full_nas_path config movie)) files.nas (9 ∷ 8 ∷ 7 ∷ []) (omega arith) 0
      4 state (movie-Steady 2 (omega arith)) refl (omega arith) (omega arith)

abbrev song : Name
song = codes "/song"

cfs_open_reads_nas_example :
    (s' : Sys Files Tables) × (cfs_read config disk memory 1 song 6 1 info
        (cfs_open config disk memory song 0 state).1
      ≡ Outcome.done (
        (
          pos (aligned_size 4 6),
          slice 6 1 (contents (pos 3) (cfs_open config disk memory song 0 state).1.world),
        ),
        s',
      ))
unfolding aligned_size align_lower_offset find_path cfs_path_to_file_name same squeeze cfs_open
    log_syscall open_present log_retstat make_entry check_up_to_date is_file_in_cache probe prepare
    meaning cfs_mk_cache_nod make_node cfs_get_nas_attr create_file switch_flags
cfs_open_reads_nas_example =
    cfs_open_reads_nas config disk memory memory-IsHealthy song state meta-IsValid 0 3 refl contents
      info disk-IsDisk (omega arith) refl refl (inl refl) 0 6 1 (omega arith) (omega arith)
      (omega arith)

cfs_open_handle_example :
    let (r, s') = cfs_open config disk memory movie 0 state in
    let copy = Syscall.open_file (cache_path config movie) o_rdwr 0 in
    (handle : DualFileHandle) × (w : Files) × (handle.nas_fh ≡ pos 3)
    × (handle.cache_fh ≡ result_after disk 1 (disk.call copy w).0.value s'.world)
    × (s'.world ≡ (disk.call copy w).1)
    × (r ≡ (if ltb_ℤ handle.cache_fh (pos 0) then neg 5 else pos 0, some handle))
unfolding switch_flags
cfs_open_handle_example = cfs_open_handle config disk memory movie 0 3 state refl

-- Room for one block, and for the names of the ids 0 and 1.
abbrev arrays : Arrays
arrays = record { file_ids = 0 ∷ []; filenames = none ∷ none ∷ []; blk_offsets = 9 ∷ [] }

evict_blocks_returns_example :
    (arr' : Arrays) × (m' : Meta Tables) × (evict_blocks memory 1 arrays meta
      ≡ some (success, arr', m'))
    × (arr'.blk_offsets ≡ filled (map (λ b. b.blk_start_offset) (oldest memory 1 meta)) (9 ∷ []))
    × (arr'.file_ids ≡ filled (map (λ b. b.file_id) (oldest memory 1 meta)) (0 ∷ []))
    × (m'.db ≡ tables)
    × (m'.cache_used_size ≡ 4)
unfolding order_by_timestamp insert_by_timestamp
evict_blocks_returns_example =
    evict_blocks_returns memory memory-IsHealthy 1 arrays meta (λ name. refl) refl refl
      (omega arith) (omega arith) (omega arith) (omega arith) (omega arith)

get_filename_overflows_iff_example :
    (get_filename_from_fileid memory 1 none meta ≡ none) ↔ (8 ≤ length movie)
unfolding find_id
get_filename_overflows_iff_example =
    get_filename_overflows_iff memory memory-IsHealthy 1 none movie_row meta refl refl refl

-- Both blocks of the file are listed, and the copy has both.
abbrev both_listed : Meta Tables
both_listed = (write_blks memory movie (4 ∷ []) meta).1

abbrev both : Sys Files Tables
both = record { world = record { nas = files.nas; cache = files.nas }; meta = both_listed }

both-Grows : Grows memory 1 meta both_listed
both-Grows = write_blks-Grows memory memory-IsHealthy movie (4 ∷ []) meta meta-IsValid

second_listed : cached both_listed.db (cfs_path_to_file_name movie) 4 ≡ true
second_listed = rw movie_is_flat (
    write_blks-cached memory memory-IsHealthy movie (4 ∷ []) meta meta-IsValid movie 4
    ∙ ground (arith, found_movie, same_refl movie))

cfs_write_leaves_block_example :
    (r : ℤ) × (s' : Sys Files Tables) × (cfs_write config disk memory 1 movie
        (9 ∷ 9 ∷ 9 ∷ 9 ∷ [])
        4
        1
        info
        both
      ≡ Outcome.done (r, s'))
    × (cached s'.meta.db (cfs_path_to_file_name movie) 4 ≡ true)
    × (slice 4 4 (contents info.fh.cache_fh s'.world) ≡ slice 4 4 files.nas)
    × (contents info.fh.nas_fh s'.world ≡ overwrite files.nas 1 (9 ∷ 9 ∷ 9 ∷ 9 ∷ []))
unfolding aligned_size align_lower_offset overwrite
cfs_write_leaves_block_example =
    cfs_write_leaves_block config disk memory memory-IsHealthy contents info disk-IsDisk
      (omega arith) 0 movie (disk-IsWritable (cfs_full_nas_path config movie)) disk-IsBounded
      (9 ∷ 9 ∷ 9 ∷ 9 ∷ []) 4 1 4 both
      (write_blks-IsValid memory memory-IsHealthy movie (4 ∷ []) meta meta-IsValid)
      both-Grows.meta_block_size (omega (arith, both-Grows.blocks)) (omega arith) (omega arith)
      (omega arith) second_listed (omega arith) (omega arith)
