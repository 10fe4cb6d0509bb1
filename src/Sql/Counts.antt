-- ===== src/Sql/Counts.antt =====
-- The rows of `Datablocks`: how many belong to a file, and what the updates of meta.c do to that.
use ece566_project.Prelude.{
  ℕ, suc, ◌+◌, ◌*◌, ◌≡◌, refl, ap, sym, ◌∙◌, true, false, none, some, List, [], ◌∷◌, arith, ◌==◌,
  if◌then◌else◌, is_some, Name, same, length, All, Bool-cases, inl, inr,
}
use ece566_project.Prelude.Int.{ℤ, pos, ◌+ℤ◌, pos-+ℤ}
use ece566_project.Sql.{
  FileRow, BlockRow, find_block, find_path, find_id, resize, remove_path, remove_id, touch,
}
use ece566_project.Sql.Rows.{Agree, find_id-remove_path_ne}

unfoldable pub count_of : ℕ → List BlockRow → ℕ
count_of i [] = 0
count_of i (b ∷ bs) = if b.file_id == i then suc (count_of i bs) else count_of i bs

-- No block of a file is listed twice.
abbrev pub IsIndexed : List BlockRow → Type 0
IsIndexed [] = Unit
IsIndexed (b ∷ bs) = (find_block b.blk_start_offset b.file_id bs ≡ none) × IsIndexed bs

-- The size of every file is that of its blocks.
abbrev pub Sized : ℕ → List BlockRow → List FileRow → Type 0
Sized bs blocks = All (λ f. f.local_size ≡ pos (bs * count_of f.file_id blocks))

-- Every block belongs to a file.
abbrev pub Owned : List FileRow → List BlockRow → Type 0
Owned files = All (λ b. is_some (find_id b.file_id files) ≡ true)

pub length-remove_id :
    (i : ℕ) (bs : List BlockRow) → length (remove_id i bs) + count_of i bs ≡ length bs
unfolding remove_id count_of
length-remove_id i [] = omega arith
length-remove_id i (b ∷ bs) = ground (arith, length-remove_id i bs)

count_of_cons :
    (i : ℕ) (b : BlockRow) (bs : List BlockRow)
    → (i == b.file_id) ≡ true
    → count_of i (b ∷ bs) ≡ suc (count_of i bs)
unfolding count_of
count_of_cons i b bs h = ground arith

count_of_cons_ne :
    (i : ℕ) (b : BlockRow) (bs : List BlockRow)
    → (i == b.file_id) ≡ false
    → count_of i (b ∷ bs) ≡ count_of i bs
unfolding count_of
count_of_cons_ne i b bs h = ground arith

one_more : (bs n : ℕ) (z : ℤ) → z ≡ pos (bs * n) → z +ℤ pos bs ≡ pos (bs * suc n)
one_more bs n z h = rw (h, pos-+ℤ) (ap pos (omega arith))

-- A new block is one more for its own file alone.
pub Sized-grow :
    (bs : ℕ) (p : Name) (b : BlockRow) (blocks : List BlockRow) (fs : List FileRow)
    → Agree p b.file_id fs
    → Sized bs blocks fs
    → Sized bs (b ∷ blocks) (resize (λ z. z +ℤ pos bs) p fs)
unfolding resize
Sized-grow bs p b blocks [] a h = tt
Sized-grow bs p b blocks (f ∷ fs) a h =
    let rest = Sized-grow bs p b blocks fs a.1 h.1 in
    elim (Bool-cases (same f.relative_path p)) [
      | inl mine ↦ (
        rw (mine, count_of_cons f.file_id b blocks (sym a.0 ∙ mine))
            (one_more bs (count_of f.file_id blocks) f.local_size h.0),
        rest,
      )
      | inr other ↦ (rw (other, count_of_cons_ne f.file_id b blocks (sym a.0 ∙ other)) h.0, rest)
    ]

pub count_of-remove_id_ne :
    (i j : ℕ) (bs : List BlockRow) → (j == i) ≡ false → count_of j (remove_id i bs) ≡ count_of j bs
unfolding remove_id count_of
count_of-remove_id_ne i j [] h = refl
count_of-remove_id_ne i j (b ∷ bs) h = ground (arith, count_of-remove_id_ne i j bs h)

pub Sized-remove_id :
    (bs : ℕ) (p : Name) (i : ℕ) (blocks : List BlockRow) (fs : List FileRow)
    → Agree p i fs
    → Sized bs blocks fs
    → Sized bs (remove_id i blocks) (remove_path p fs)
unfolding remove_path
Sized-remove_id bs p i blocks [] a h = tt
Sized-remove_id bs p i blocks (f ∷ fs) a h =
    ground
      (arith, count_of-remove_id_ne i f.file_id blocks, Sized-remove_id bs p i blocks fs a.1 h.1)

-- The size of the file that a path finds.
pub Sized-find_path :
    (bs : ℕ) (p : Name) (blocks : List BlockRow) (fs : List FileRow) (f : FileRow)
    → find_path p fs ≡ some f
    → Sized bs blocks fs
    → f.local_size ≡ pos (bs * count_of f.file_id blocks)
unfolding find_path
Sized-find_path bs p blocks [] f e h = cc
Sized-find_path bs p blocks (g ∷ gs) f e h = ground (arith, Sized-find_path bs p blocks gs f)

find_block-remove_id :
    (off j i : ℕ) (bs : List BlockRow)
    → find_block off j bs ≡ none
    → find_block off j (remove_id i bs) ≡ none
unfolding find_block remove_id
find_block-remove_id off j i [] h = refl
find_block-remove_id off j i (b ∷ bs) h = ground (arith, find_block-remove_id off j i bs)

pub remove_id-IsIndexed : (i : ℕ) (bs : List BlockRow) → IsIndexed bs → IsIndexed (remove_id i bs)
unfolding remove_id
remove_id-IsIndexed i [] d = tt
remove_id-IsIndexed i (b ∷ bs) d = ground (
  arith,
  find_block-remove_id b.blk_start_offset b.file_id i bs d.0,
  remove_id-IsIndexed i bs d.1,
)

-- What owns the blocks after rows are added or resized.
pub Owned-mono :
    (fs gs : List FileRow) (bs : List BlockRow)
    → ((i : ℕ) → is_some (find_id i fs) ≡ true → is_some (find_id i gs) ≡ true)
    → Owned fs bs
    → Owned gs bs
Owned-mono fs gs [] k o = tt
Owned-mono fs gs (b ∷ bs) k o = (k b.file_id o.0, Owned-mono fs gs bs k o.1)

pub Owned-remove_id :
    (p : Name) (i : ℕ) (fs : List FileRow) (bs : List BlockRow)
    → Agree p i fs
    → Owned fs bs
    → Owned (remove_path p fs) (remove_id i bs)
unfolding remove_id
Owned-remove_id p i fs [] a o = tt
Owned-remove_id p i fs (b ∷ bs) a o =
    ground (arith, find_id-remove_path_ne p i b.file_id fs a, Owned-remove_id p i fs bs a o.1)

pub find_path-Owned :
    (p : Name) (fs : List FileRow) (f : FileRow)
    → find_path p fs ≡ some f
    → is_some (find_id f.file_id fs) ≡ true
unfolding find_path find_id
find_path-Owned p [] f h = cc
find_path-Owned p (g ∷ gs) f h = ground (arith, find_path-Owned p gs f)

-- A fresh file has no blocks yet.
pub count_of_fresh :
    (i : ℕ) (fs : List FileRow) (bs : List BlockRow)
    → find_id i fs ≡ none
    → Owned fs bs
    → count_of i bs ≡ 0
unfolding count_of
count_of_fresh i fs [] h o = refl
count_of_fresh i fs (b ∷ bs) h o = ground (arith, count_of_fresh i fs bs h o.1)

-- A new time stamp changes neither the owner of a block nor its place.
module _ (now off i : ℕ) where
  pub length-touch : (bs : List BlockRow) → length (touch now off i bs) ≡ length bs
  unfolding touch
  length-touch [] = refl
  length-touch (b ∷ bs) = omega (arith, length-touch bs)

  pub count_of-touch :
      (j : ℕ) (bs : List BlockRow) → count_of j (touch now off i bs) ≡ count_of j bs
  unfolding touch count_of
  count_of-touch j [] = refl
  count_of-touch j (b ∷ bs) = ground (arith, count_of-touch j bs)

  pub find_block-touch :
      (o j : ℕ) (bs : List BlockRow)
      → is_some (find_block o j (touch now off i bs)) ≡ is_some (find_block o j bs)
  unfolding touch find_block
  find_block-touch o j [] = refl
  find_block-touch o j (b ∷ bs) = ground (arith, find_block-touch o j bs)

  pub touch-IsIndexed : (bs : List BlockRow) → IsIndexed bs → IsIndexed (touch now off i bs)
  unfolding touch
  touch-IsIndexed [] d = tt
  touch-IsIndexed (b ∷ bs) d =
      ground (arith, find_block-touch b.blk_start_offset b.file_id bs, touch-IsIndexed bs d.1)

  pub Owned-touch :
      (fs : List FileRow) (bs : List BlockRow) → Owned fs bs → Owned fs (touch now off i bs)
  unfolding touch
  Owned-touch fs [] o = tt
  Owned-touch fs (b ∷ bs) o = ground (arith, Owned-touch fs bs o.1)

pub Sized-touch :
    (bs now off i : ℕ) (blocks : List BlockRow) (fs : List FileRow)
    → Sized bs blocks fs
    → Sized bs (touch now off i blocks) fs
Sized-touch bs now off i blocks [] h = tt
Sized-touch bs now off i blocks (f ∷ fs) h = (
  ground (arith, h.0, count_of-touch now off i f.file_id blocks),
  Sized-touch bs now off i blocks fs h.1,
)
