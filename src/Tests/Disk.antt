-- ===== src/Tests/Disk.antt =====
-- An operating system with two files in memory: descriptor 3 on the NAS, descriptor 4 in the cache.
use ece566_project.Prelude.{
  Name, ℕ, zero, suc, ◌≡◌, refl, ap, List, [], ◌∷◌, ◌==◌, if◌then◌else◌, length,
}
use ece566_project.Prelude.Int.{ℤ, pos, negsuc}
use ece566_project.Posix.{Syscall, Stat, Reply, Os}
use ece566_project.Cfs.{Config, DualFileHandle, FileInfo}
use ece566_project.Cfs.Bytes.{slice, overwrite}
use ece566_project.Cfs.Write.Through.{IsWritable}
use ece566_project.Cfs.Disk.{IsDisk}

pub record Files : Type 0 where
  pub nas : List ℕ
  pub cache : List ℕ

abbrev pub contents : ℤ → Files → List ℕ
contents (pos n) w = if n == 3 then w.nas else w.cache
contents (negsuc n) w = w.cache

abbrev no_stat : Stat
no_stat = record { st_mode = 0; st_dev = 0; st_size = 8; st_mtime = 0 }

abbrev pub reply : ℤ → List ℕ → Reply
reply v bytes = record { value = v; bytes = bytes; stat = no_stat }

abbrev pub call : Syscall → Files → Reply × Files
call (Syscall.pread fd n off) w =
    (reply (pos (length (slice n off (contents fd w)))) (slice n off (contents fd w)), w)
call (Syscall.pwrite (pos fd) bytes off) w = (
  reply (pos (length bytes)) [],
  if fd == 3
      then record w { nas = overwrite w.nas off bytes }
      else record w { cache = overwrite w.cache off bytes },
)
call (Syscall.lstat path) w = (
  record {
    value = pos 0;
    bytes = [];
    stat = record { st_mode = 0; st_dev = 0; st_size = length w.nas; st_mtime = 0 };
  },
  w,
)
call (Syscall.open_file path flags mode) w = (reply (if flags == 2 then pos 4 else pos 3) [], w)
call _ w = (reply (pos 0) [], w)

abbrev pub zeros : ℕ → List ℕ
zeros zero = []
zeros (suc n) = 0 ∷ zeros n

pub length-zeros : (n : ℕ) → length (zeros n) ≡ n
length-zeros zero = refl
length-zeros (suc n) = ap suc (length-zeros n)

abbrev pub disk : Os
disk = record {
  World = Files;
  call = call;
  errno = λ n w. 5;
  entries = λ fd w. [];
  read_on = λ fd n w. w;
  malloc = λ n w. zeros n;
}

abbrev pub handle : DualFileHandle
handle = record { nas_fh = pos 3; cache_fh = pos 4 }

abbrev pub info : FileInfo
info = record { flags = 2; fh = handle }

pub disk-IsDisk : IsDisk disk contents handle
disk-IsDisk = record {
  nas = record { bytes = λ n off w. refl; value = λ n off w. refl; kept = λ n off w g. refl };
  cache = record { bytes = λ n off w. refl; value = λ n off w. refl; kept = λ n off w g. refl };
  written = λ bytes off w. refl;
  apart = λ bytes off w. refl;
  malloc = λ n w. length-zeros n;
}

pub disk-IsWritable : (path : Name) → IsWritable disk contents handle path
disk-IsWritable path = record {
  written = λ bytes off w. refl;
  value = λ bytes off w. refl;
  apart = λ bytes off w. refl;
  st_size = λ w. refl;
  kept = λ w g. refl;
}

-- Blocks of four bytes in a cache of one KiB.
abbrev pub config : Config
config = record { nasdir = []; cachedir = []; cache_size = 1; block_size = 4 }

-- The first block of the NAS file is in the cache, the second is not.
abbrev pub files : Files
files = record { nas = 1 ∷ 2 ∷ 3 ∷ 4 ∷ 5 ∷ 6 ∷ 7 ∷ 8 ∷ []; cache = 1 ∷ 2 ∷ 3 ∷ 4 ∷ [] }
