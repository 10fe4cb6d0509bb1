-- ===== src/Tests/Callbacks.antt =====
-- The data path, the block arithmetic and the names at concrete inputs.
use ece566_project.Main.{choose_cache_size}
use ece566_project.Main.Sizing.{choose_cache_size_fits}
use ece566_project.Cfs.Namespace.{cfs_unlink}
use ece566_project.Cfs.Open.{cfs_open}
use ece566_project.Cfs.Open.Missing.{cfs_unlink-cached, cfs_open_missing}
use ece566_project.Prelude.{
  some, none, not, same, ◌&&◌, length, ℕ, ◌≡◌, ◌≤◌, ◌%◌, ◌*◌, ◌+◌, ◌↔◌, ◌⊎◌, refl, true, List, [],
  ◌∷◌, ◌++◌, arith, Name, codes,
}
use ece566_project.Prelude.Int.{ℤ, pos, negsuc, neg}
use ece566_project.Sql.{find_block}
use ece566_project.Sql.Cached.{cached}
use ece566_project.Posix.{Os, Sys}
use ece566_project.Cfs.Bytes.{slice, overwrite}
use ece566_project.Cfs.Write.{cfs_write}
use ece566_project.Cfs.Write.Through.{cfs_write_through}
use ece566_project.Cfs.Outcome.{Outcome}
use ece566_project.Cfs.Paths.{cfs_path_to_file_name, cfs_full_nas_path, squeeze}
use ece566_project.Cfs.Paths.Flatten.{without_slashes, file_name_collision_iff}
use ece566_project.Cfs.Align.{align_lower_offset, align_upper_offset, aligned_size}
use ece566_project.Cfs.Align.Bounds.{align_upper_offset_iff}
use ece566_project.Cfs.Directory.{fill_entries, enomem}
use ece566_project.Cfs.Directory.Fill.{fill_entries_full}
use ece566_project.Cfs.Read.{cfs_read}
use ece566_project.Cfs.Read.Blocks.{Steady}
use ece566_project.Cfs.Read.Correct.{cfs_read_returns_nas}
use ece566_project.Tests.Memory.{
  memory, memory-IsHealthy, movie, tables, meta, meta-IsValid, found_movie,
}
use ece566_project.Tests.Disk.{
  reply, zeros, Files, disk, disk-IsDisk, disk-IsWritable, contents, info, handle, config, files,
}

abbrev pub state : Sys Files memory.Db
state = record { world = files; meta = meta }

pub movie_is_flat : cfs_path_to_file_name movie ≡ movie
unfolding cfs_path_to_file_name squeeze
movie_is_flat = refl

only_first : (o : ℕ) → cached tables movie o ≡ true → o ≡ 0
unfolding cached find_block
only_first o h = ground (arith, found_movie)

pub movie-Steady :
    (k : ℕ)
    → k ≤ 2
    → Steady config disk memory contents handle (cfs_path_to_file_name movie) files.nas k state
movie-Steady k small = rw movie_is_flat (record {
  valid = meta-IsValid;
  sizes = refl;
  nas_bytes = refl;
  coherent = record {
    aligned = λ o h. ground (arith, only_first o h);
    agrees = λ o h g. rw (only_first o h) refl;
  };
  room = omega arith;
})

cfs_read_returns_nas_example :
    (s' : Sys Files memory.Db) × (cfs_read config disk memory 1 movie 6 1 info state
      ≡ Outcome.done ((pos (aligned_size 4 6), slice 6 1 files.nas), s'))
    × Steady config disk memory contents handle (cfs_path_to_file_name movie) files.nas 0 s'
unfolding aligned_size align_lower_offset
cfs_read_returns_nas_example =
    cfs_read_returns_nas config disk memory memory-IsHealthy contents info disk-IsDisk files.nas
      (omega arith) 0 movie 6 1 state (movie-Steady 2 (omega arith)) (omega arith) (omega arith)

cfs_write_through_example :
    (s' : Sys Files memory.Db) × (cfs_write config disk memory 1 movie
        (9 ∷ 8 ∷ 7 ∷ [])
        (length {A = ℕ} (9 ∷ 8 ∷ 7 ∷ []))
        4
        info
        state
      ≡ Outcome.done (pos (length {A = ℕ} (9 ∷ 8 ∷ 7 ∷ [])), s'))
    × Steady config disk memory contents handle
        (cfs_path_to_file_name movie)
        (overwrite files.nas 4 (9 ∷ 8 ∷ 7 ∷ []))
        0
        s'
unfolding aligned_size
cfs_write_through_example =
    cfs_write_through config disk memory memory-IsHealthy contents info disk-IsDisk movie
      (disk-IsWritable (cfs_full_nas_path config movie)) files.nas (9 ∷ 8 ∷ 7 ∷ []) (omega arith) 0
      4 state (movie-Steady 1 (omega arith)) refl (omega arith) (omega arith)

align_upper_offset_iff_example :
    (align_upper_offset 4 5 % 4 ≡ 0) ↔ ((5 % 4 ≡ 0) ⊎ (2 * (5 % 4) ≡ 4))
align_upper_offset_iff_example = align_upper_offset_iff 4 5 (omega arith)

file_name_collision_iff_example :
    (cfs_path_to_file_name (b'/' ∷ codes "d/n") ≡ cfs_path_to_file_name (b'/' ∷ codes "dn"))
    ↔ (without_slashes (codes "d/n") ≡ without_slashes (codes "dn"))
file_name_collision_iff_example = file_name_collision_iff (codes "d/n") (codes "dn")

-- A buffer for two names.
abbrev two_names : List Name → Name → ℤ × List Name
two_names [] name = (pos 0, name ∷ [])
two_names (a ∷ []) name = (pos 0, name ∷ a ∷ [])
two_names (a ∷ b ∷ names) name = (pos 1, a ∷ b ∷ names)

fill_entries_full_example :
    fill_entries two_names ((codes "." ∷ codes ".." ∷ []) ++ (codes "a" ∷ codes "b" ∷ [])) []
    ≡ (neg enomem, codes ".." ∷ codes "." ∷ [])
fill_entries_full_example =
    fill_entries_full two_names (codes "." ∷ codes ".." ∷ []) (codes "a") (codes "b" ∷ []) []
      (codes ".." ∷ codes "." ∷ []) (refl, (refl, refl)) refl

choose_cache_size_fits_example :
    (choose_cache_size (some 500) 450 ≤ 450)
    × (choose_cache_size (some 500) 450 ≤ 500)
    × ((choose_cache_size (some 500) 450 + 100 ≤ 500) ⊎ (500 ≤ 100))
choose_cache_size_fits_example = choose_cache_size_fits 500 450 (omega arith)

cfs_unlink-cached_example :
    cached (cfs_unlink config disk memory movie state).1.meta.db movie 0
    ≡ (cached tables movie 0 && not (same movie (cfs_path_to_file_name movie)))
cfs_unlink-cached_example =
    cfs_unlink-cached config disk memory memory-IsHealthy movie state meta-IsValid movie 0

-- A system whose calls all fail.
abbrev broken : Os
broken = record {
  World = Files;
  call = λ c w. (reply (negsuc 0) [], w);
  errno = λ n w. 5;
  entries = λ fd w. [];
  read_on = λ fd n w. w;
  malloc = λ n w. zeros n;
}

cfs_open_missing_example :
    ((cfs_open config broken memory movie 0 state).0 ≡ (negsuc 4, none))
    × (cached (cfs_open config broken memory movie 0 state).1.meta.db movie 0
        ≡ (cached tables movie 0 && not (same movie (cfs_path_to_file_name movie))))
cfs_open_missing_example =
    cfs_open_missing config broken memory memory-IsHealthy movie state meta-IsValid 0 0 4 movie 0
      refl refl
