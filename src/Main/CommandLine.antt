-- ===== src/Main/CommandLine.antt =====
-- The command line of `main` of src/cachefs.c: the last five arguments, and what is left of the
-- others for `fuse_main`. `sscanf` is a parameter.
use ece566_project.Prelude.{
  ℕ, ◌==◌, ◌||◌, if◌then◌else◌, ◌+◌, ◌-◌, ◌≡◌, refl, ap, ◌∙◌, Option, none, some, List, [], ◌∷◌,
  ◌++◌, arith, map, Name, length, length-append, length-map, map-append, take, get_elem?,
  get_elem?-append, set, set-append,
}
use ece566_project.Log.{Logger, log_open}
use ece566_project.Sql.Engine.{Engine}
use ece566_project.Meta.{Meta}
use ece566_project.Main.{Arguments, Start, bad_arguments, start}

infixl 5 ◌>>=◌
abbrev ◌>>=◌ : {A B : Type 0} → Option A → (A → Option B) → Option B
none >>= f = none
some a >>= f = f a

-- `argv[argc - k]`
abbrev from_end : List Name → ℕ → Option Name
from_end argv k = get_elem? argv (length argv - k)

-- `none` is an argument that is not there, which `main` checks before.
unfoldable pub read_arguments : (Name → ℕ) → List Name → Option Arguments
read_arguments scan argv = do
  cache_size ← from_end argv 5
  block_size ← from_end argv 4
  nas_dir ← from_end argv 3
  mount_dir ← from_end argv 2
  cache_dir ← from_end argv 1
  some (record {
    argc = length argv;
    nas_dir = nas_dir;
    mount_dir = mount_dir;
    cache_dir = cache_dir;
    user_size = scan cache_size;
    block_size = scan block_size;
  })

-- The mount directory takes the place of the first of the five, the other four are null, and `argc`
-- is 2.
unfoldable pub fuse_arguments : List Name → List (Option Name)
fuse_arguments argv =
    let argc = length argv in
    let argv0 = map some argv in
    let argv1 = set argv0 (argc - 5) (from_end argv 2) in
    let argv2 = set argv1 (argc - 4) none in
    let argv3 = set argv2 (argc - 3) none in
    let argv4 = set argv3 (argc - 2) none in let argv5 = set argv4 (argc - 1) none in take 2 argv5

-- The whole of `main` up to `fuse_main`: the log file is opened once the arguments are checked.
unfoldable pub main :
    (e : Engine) (l : Logger)
    → ℕ
    → ℕ
    → (Name → ℕ)
    → List Name
    → (Name → Name)
    → Option ℕ
    → Meta e.Db
    → l.World
    → Start e.Db × l.World
main e l uid euid scan argv realpath fs_avail_kb m w = elim (read_arguments scan argv) [
  | none ↦ (if uid == 0 || euid == 0 then Start.refused_root else Start.usage_abort, w)
  | some args ↦
      let result = start e uid euid args realpath fs_avail_kb m in
      if uid == 0 || euid == 0 || bad_arguments args
      then (result, w)
      else (let (logfile, w1) = log_open l w in
          (elim logfile [ none ↦ Start.exited | some _ ↦ result ], w1))
]

-- The argument after the name of the program.
abbrev pub first_of : List Name → Name → Name
first_of [] name = name
first_of (opt ∷ opts) name = opt

module _ (prog : Name) (opts : List Name) (size block nas mount cache : Name) where
  abbrev last_five : List Name
  last_five = size ∷ block ∷ nas ∷ mount ∷ cache ∷ []

  abbrev argv : List Name
  argv = (prog ∷ opts) ++ last_five

  argc_lem : length argv ≡ length opts + 6
  argc_lem = omega (arith, length-append opts last_five)

  from_end_lem : (k j : ℕ) → k + j ≡ 5 → from_end argv k ≡ get_elem? last_five j
  from_end_lem k j h =
      let here : length argv - k ≡ length (prog ∷ opts) + j = omega (arith, argc_lem) in
      ap (get_elem? argv) here ∙ get_elem?-append (prog ∷ opts) last_five j

  read_arguments_lem :
      (scan : Name → ℕ)
      → read_arguments scan argv
        ≡ some (record {
          argc = length argv;
          nas_dir = nas;
          mount_dir = mount;
          cache_dir = cache;
          user_size = scan size;
          block_size = scan block;
        })
  unfolding read_arguments
  read_arguments_lem scan = ground (
    arith,
    from_end_lem 5 0 refl,
    from_end_lem 4 1 refl,
    from_end_lem 3 2 refl,
    from_end_lem 2 3 refl,
    from_end_lem 1 4 refl,
  )

  abbrev others : List (Option Name)
  others = map some (prog ∷ opts)

  set_from_end :
      (k j : ℕ) (ys : List (Option Name)) (v : Option Name)
      → k + j ≡ 5
      → set (others ++ ys) (length argv - k) v ≡ others ++ set ys j v
  set_from_end k j ys v h =
      let here : length argv - k ≡ length others + j =
        omega (arith, argc_lem, length-map some opts) in
      ap (λ i. set (others ++ ys) i v) here ∙ set-append others ys j v

  fuse_arguments_lem : fuse_arguments argv ≡ some prog ∷ some (first_of opts mount) ∷ []
  unfolding fuse_arguments
  fuse_arguments_lem =
      rw
        (
          map-append some (prog ∷ opts) last_five,
          from_end_lem 2 3 refl,
          set_from_end 5 0 (map some last_five) (some mount) refl,
          set_from_end 4 1 _ none refl,
          set_from_end 3 2 _ none refl,
          set_from_end 2 3 _ none refl,
          set_from_end 1 4 _ none refl,
        )
        (two_left opts)
    where
      two_left :
          (os : List Name)
          → take 2 (map some (prog ∷ os) ++ (some mount ∷ none ∷ none ∷ none ∷ none ∷ []))
            ≡ some prog ∷ some (first_of os mount) ∷ []
      two_left [] = refl
      two_left (o ∷ os) = refl

  -- Whatever options stand before the last five arguments, `main` starts as `start` does with
  -- those five as the sizes and the three directories. `fuse_main` gets the program's name and the
  -- mount directory only where there are no options, and else the program's name and the first
  -- option. The log file can be opened.
  pub main_takes_last_five :
      (e : Engine) (l : Logger) (uid euid : ℕ) (scan : Name → ℕ) (realpath : Name → Name)
      (fs_avail_kb : Option ℕ) (m : Meta e.Db) (w : l.World) (f : l.File)
      → (log_open l w).0 ≡ some f
      → ((main e l uid euid scan argv realpath fs_avail_kb m w).0
          ≡ start e uid euid
              (record {
                argc = length argv;
                nas_dir = nas;
                mount_dir = mount;
                cache_dir = cache;
                user_size = scan size;
                block_size = scan block;
              })
              realpath
              fs_avail_kb
              m)
        × (fuse_arguments argv ≡ some prog ∷ some (first_of opts mount) ∷ [])
  unfolding main
  main_takes_last_five e l uid euid scan realpath fs_avail_kb m w f opened =
      (ground (arith, read_arguments_lem scan), fuse_arguments_lem)
