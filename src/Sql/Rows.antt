-- ===== src/Sql/Rows.antt =====
-- The rows of `Files`: lookups by path and by id, and what the updates of meta.c do to them.
use ece566_project.Prelude.{
  ℕ, ◌≡◌, refl, false, none, some, List, [], ◌∷◌, arith, ◌==◌, is_some, Name, same, eq_of_same, All,
}
use ece566_project.Prelude.Int.{ℤ}
use ece566_project.Sql.{FileRow, find_path, find_id, resize, remove_path}

-- No two rows have one path, and no two have one id.
abbrev pub IsTable : List FileRow → Type 0
IsTable [] = Unit
IsTable (f ∷ fs) =
    (find_path f.relative_path fs ≡ none) × (find_id f.file_id fs ≡ none) × IsTable fs

-- A row has the path exactly when it has the id.
abbrev pub Agree : Name → ℕ → List FileRow → Type 0
Agree p i = All (λ f. same f.relative_path p ≡ (f.file_id == i))

pub find_path_found :
    (p : Name) (fs : List FileRow) (f : FileRow) → find_path p fs ≡ some f → f.relative_path ≡ p
unfolding find_path
find_path_found p [] f h = cc
find_path_found p (g ∷ gs) f h =
    ground (arith, find_path_found p gs f, eq_of_same g.relative_path p)

pub find_path_fresh :
    (p : Name) (i : ℕ) (fs : List FileRow)
    → find_path p fs ≡ none
    → find_id i fs ≡ none
    → Agree p i fs
unfolding find_path find_id
find_path_fresh p i [] h k = tt
find_path_fresh p i (g ∷ gs) h k = ground (arith, find_path_fresh p i gs)

find_path-id :
    (p : Name) (i : ℕ) (fs : List FileRow) (f : FileRow)
    → find_path p fs ≡ some f
    → find_id i fs ≡ none
    → (i == f.file_id) ≡ false
unfolding find_path find_id
find_path-id p i [] f h k = cc
find_path-id p i (g ∷ gs) f h k = ground (arith, find_path-id p i gs f)

-- In a table, the row that a path finds is the only one with its id.
pub find_path-Agree :
    (p : Name) (fs : List FileRow) (f : FileRow)
    → IsTable fs
    → find_path p fs ≡ some f
    → Agree p f.file_id fs
unfolding find_path
find_path-Agree p [] f d h = tt
find_path-Agree p (g ∷ gs) f d h = ground (
  arith,
  eq_of_same g.relative_path p,
  find_path_fresh p g.file_id gs,
  find_path-id p g.file_id gs f,
  find_path-Agree p gs f d.2,
)

module _ (g : ℤ → ℤ) (p : Name) where
  pub find_path-resize :
      (q : Name) (fs : List FileRow)
      → is_some (find_path q (resize g p fs)) ≡ is_some (find_path q fs)
  unfolding find_path resize
  find_path-resize q [] = refl
  find_path-resize q (f ∷ fs) = ground (arith, find_path-resize q fs)

  pub find_id-resize :
      (i : ℕ) (fs : List FileRow) → is_some (find_id i (resize g p fs)) ≡ is_some (find_id i fs)
  unfolding find_id resize
  find_id-resize i [] = refl
  find_id-resize i (f ∷ fs) = ground (arith, find_id-resize i fs)

  pub resize-IsTable : (fs : List FileRow) → IsTable fs → IsTable (resize g p fs)
  unfolding resize
  resize-IsTable [] d = tt
  resize-IsTable (f ∷ fs) d = ground (
    arith,
    find_path-resize f.relative_path fs,
    find_id-resize f.file_id fs,
    resize-IsTable fs d.2,
  )

find_path-remove_path :
    (p q : Name) (fs : List FileRow) → find_path q fs ≡ none → find_path q (remove_path p fs) ≡ none
unfolding find_path remove_path
find_path-remove_path p q [] h = refl
find_path-remove_path p q (f ∷ fs) h = ground (arith, find_path-remove_path p q fs)

find_id-remove_path :
    (p : Name) (i : ℕ) (fs : List FileRow)
    → find_id i fs ≡ none
    → find_id i (remove_path p fs) ≡ none
unfolding find_id remove_path
find_id-remove_path p i [] h = refl
find_id-remove_path p i (f ∷ fs) h = ground (arith, find_id-remove_path p i fs)

pub remove_path-IsTable : (p : Name) (fs : List FileRow) → IsTable fs → IsTable (remove_path p fs)
unfolding remove_path
remove_path-IsTable p [] d = tt
remove_path-IsTable p (f ∷ fs) d = ground (
  arith,
  find_path-remove_path p f.relative_path fs d.0,
  find_id-remove_path p f.file_id fs d.1,
  remove_path-IsTable p fs d.2,
)

-- The path that was removed is not found.
pub find_path-remove_path_self :
    (p : Name) (fs : List FileRow) → find_path p (remove_path p fs) ≡ none
unfolding find_path remove_path
find_path-remove_path_self p [] = refl
find_path-remove_path_self p (f ∷ fs) = ground (arith, find_path-remove_path_self p fs)

-- Every other path is found as before.
pub find_path-remove_path_ne :
    (p q : Name) (fs : List FileRow)
    → same q p ≡ false
    → find_path q (remove_path p fs) ≡ find_path q fs
unfolding find_path remove_path
find_path-remove_path_ne p q [] h = refl
find_path-remove_path_ne p q (f ∷ fs) h =
    ground (arith, find_path-remove_path_ne p q fs, eq_of_same f.relative_path q)

-- An id that is not the removed row's is found as before.
pub find_id-remove_path_ne :
    (p : Name) (i j : ℕ) (fs : List FileRow)
    → Agree p i fs
    → (j == i) ≡ false
    → is_some (find_id j (remove_path p fs)) ≡ is_some (find_id j fs)
unfolding find_id remove_path
find_id-remove_path_ne p i j [] a h = refl
find_id-remove_path_ne p i j (f ∷ fs) a h = ground (arith, find_id-remove_path_ne p i j fs a.1 h)

pub remove_path_absent :
    (p : Name) (fs : List FileRow) → find_path p fs ≡ none → remove_path p fs ≡ fs
unfolding find_path remove_path
remove_path_absent p [] h = refl
remove_path_absent p (f ∷ fs) h = ground (arith, remove_path_absent p fs)
