-- ===== src/Cfs/Disk.antt =====
-- What the data path of CacheFS relies on: the two files of a handle behave as byte arrays, and
-- they are two files. Reads are never short inside a file, and `malloc` gives as much as it is
-- asked for. These are the documented behaviour of `pread`, `pwrite` and `malloc` on regular files.
use ece566_project.Prelude.{ℕ, ◌≡◌, List, length}
use ece566_project.Prelude.Int.{ℤ, pos}
use ece566_project.Posix.{Syscall, Os}
use ece566_project.Cfs.{DualFileHandle}
use ece566_project.Cfs.Bytes.{slice, overwrite}

-- Reading `fd` yields its bytes and changes neither file.
pub record IsReadable (os : Os) (contents : ℤ → os.World → List ℕ) (fd : ℤ) : Type 0 where
  pub bytes :
      (n off : ℕ) (w : os.World)
      → (os.call (Syscall.pread fd n off) w).0.bytes ≡ slice n off (contents fd w)
  pub value :
      (n off : ℕ) (w : os.World)
      → (os.call (Syscall.pread fd n off) w).0.value ≡ pos (length (slice n off (contents fd w)))
  pub kept :
      (n off : ℕ) (w : os.World) (g : ℤ)
      → contents g (os.call (Syscall.pread fd n off) w).1 ≡ contents g w

pub record IsDisk (os : Os) (contents : ℤ → os.World → List ℕ) (fh : DualFileHandle) : Type 0 where
  pub nas : IsReadable os contents fh.nas_fh
  pub cache : IsReadable os contents fh.cache_fh
  pub written :
      (bytes : List ℕ) (off : ℕ) (w : os.World)
      → contents fh.cache_fh (os.call (Syscall.pwrite fh.cache_fh bytes off) w).1
        ≡ overwrite (contents fh.cache_fh w) off bytes
  pub apart :
      (bytes : List ℕ) (off : ℕ) (w : os.World)
      → contents fh.nas_fh (os.call (Syscall.pwrite fh.cache_fh bytes off) w).1
        ≡ contents fh.nas_fh w
  pub malloc : (n : ℕ) (w : os.World) → length (os.malloc n w) ≡ n
