-- ===== src/Cfs/Paths.antt =====
-- The names of src/cachefs.c: `cfs_fullNasPath`, `cfs_fullCachePath` and `cfs_pathToFileName`.
pub mod Flatten
use ece566_project.Prelude.{
  ℕ, zero, suc, ◌+◌, ◌-◌, ◌≤◌, ◌<◌, ◌≡◌, refl, ◌≢◌, ap, ◌∙◌, Bool, true, false, ◌||◌, ◌&&◌, not,
  List, [], ◌∷◌, ◌++◌, arith, ◌==◌, ltb, if◌then◌else◌, Name, length, take, All,
}
use ece566_project.Cfs.{Config}

abbrev pub path_max : ℕ
path_max = 4096

abbrev slash : ℕ
slash = b'/'

-- `strcpy (buf, dir); strncat (buf, path, PATH_MAX)`
unfoldable pub join : Name → Name → Name
join dir path = dir ++ take path_max path

unfoldable pub cfs_full_nas_path : Config → Name → Name
cfs_full_nas_path cfg path = join cfg.nasdir path

unfoldable pub cfs_full_cache_path : Config → Name → Name
cfs_full_cache_path cfg path = join cfg.cachedir path

-- The loop of `cfs_pathToFileName` on the characters from `src` on: `dst` moves on past every
-- character but a slash, and past the first one always.
unfoldable pub squeeze : Bool → Name → Name
squeeze is_first [] = []
squeeze is_first (c ∷ path) =
    let rest = squeeze false path in if not (c == slash) || is_first then c ∷ rest else rest

unfoldable pub cfs_path_to_file_name : Name → Name
cfs_path_to_file_name path = squeeze true path
