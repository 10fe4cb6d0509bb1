-- ===== src/Cfs/Paths/Flatten.antt =====
-- What the flat names of the cache directory keep of a path, and which paths they confuse.
use ece566_project.Prelude.{
  ℕ, ◌≡◌, refl, ◌≢◌, ◌↔◌, ap, false, [], ◌∷◌, ◌++◌, arith, ◌==◌, if◌then◌else◌, Name, length, All,
  length-append,
}
use ece566_project.Cfs.Paths.{squeeze, cfs_path_to_file_name}

-- The path without its slashes.
abbrev pub without_slashes : Name → Name
without_slashes [] = []
without_slashes (c ∷ path) = if c == b'/' then without_slashes path else c ∷ without_slashes path

abbrev pub NoSlash : Name → Type 0
NoSlash = All (λ c. (c == b'/') ≡ false)

-- Nothing behind the first character is a slash.
abbrev pub IsFlat : Name → Type 0
IsFlat [] = Unit
IsFlat (c ∷ name) = NoSlash name

squeeze-without_slashes : (path : Name) → squeeze false path ≡ without_slashes path
unfolding squeeze
squeeze-without_slashes [] = refl
squeeze-without_slashes (c ∷ path) = ground (arith, squeeze-without_slashes path)

without_slashes-NoSlash : (path : Name) → NoSlash (without_slashes path)
without_slashes-NoSlash [] = tt
without_slashes-NoSlash (c ∷ path) = ground (arith, without_slashes-NoSlash path)

without_slashes_of-NoSlash : (path : Name) → NoSlash path → without_slashes path ≡ path
without_slashes_of-NoSlash [] h = refl
without_slashes_of-NoSlash (c ∷ path) h = ground (arith, without_slashes_of-NoSlash path h.1)

without_slashes-append :
    (p q : Name) → without_slashes (p ++ q) ≡ without_slashes p ++ without_slashes q
without_slashes-append [] q = refl
without_slashes-append (c ∷ p) q = ground (arith, without_slashes-append p q)

file_name_cons : (c : ℕ) (path : Name) → cfs_path_to_file_name (c ∷ path) ≡ c ∷ without_slashes path
unfolding cfs_path_to_file_name squeeze
file_name_cons c path = ground (arith, squeeze-without_slashes path)

file_name_kept : (path : Name) → IsFlat path → cfs_path_to_file_name path ≡ path
unfolding cfs_path_to_file_name squeeze
file_name_kept [] h = refl
file_name_kept (c ∷ path) h =
    ground (arith, squeeze-without_slashes path, without_slashes_of-NoSlash path)

cfs_path_to_file_name-IsFlat : (path : Name) → IsFlat (cfs_path_to_file_name path)
unfolding cfs_path_to_file_name squeeze
cfs_path_to_file_name-IsFlat [] = tt
cfs_path_to_file_name-IsFlat (c ∷ path) =
    ground (arith, squeeze-without_slashes path, without_slashes-NoSlash path)

-- The name has no directory part: its slashes are gone, but for a first one. To take the name of a
-- name changes nothing.
pub file_name-IsFlat :
    (path : Name)
    → IsFlat (cfs_path_to_file_name path)
      × (cfs_path_to_file_name (cfs_path_to_file_name path) ≡ cfs_path_to_file_name path)
file_name-IsFlat path = (
  cfs_path_to_file_name-IsFlat path,
  file_name_kept (cfs_path_to_file_name path) (cfs_path_to_file_name-IsFlat path),
)

-- Two absolute paths have one cache file exactly when they differ in their slashes alone.
pub file_name_collision_iff :
    (p q : Name)
    → (cfs_path_to_file_name (b'/' ∷ p) ≡ cfs_path_to_file_name (b'/' ∷ q))
      ↔ (without_slashes p ≡ without_slashes q)
file_name_collision_iff p q = (
  λ h. cc (file_name_cons b'/' p, file_name_cons b'/' q, h),
  λ h. cc (file_name_cons b'/' p, file_name_cons b'/' q, h),
)

append_cons_ne : (p : Name) (q : Name) → p ++ (b'/' ∷ q) ≢ p ++ q
append_cons_ne p q h =
    let n = ap length h in omega (arith, n, length-append {0} p (b'/' ∷ q), length-append {0} p q)

-- A file in a directory and a file beside it, two different paths, share a cache file: `/d/n` and
-- `/dn`.
pub file_name_confuses :
    (d n : Name)
    → ((b'/' ∷ (d ++ (b'/' ∷ n))) ≢ (b'/' ∷ (d ++ n)))
      × (cfs_path_to_file_name (b'/' ∷ (d ++ (b'/' ∷ n))) ≡ cfs_path_to_file_name (b'/' ∷ (d ++ n)))
file_name_confuses d n = (
  λ h. append_cons_ne d n (cc),
  (file_name_collision_iff (d ++ (b'/' ∷ n)) (d ++ n)).1
      (cc (without_slashes-append d (b'/' ∷ n), without_slashes-append d n)),
)
