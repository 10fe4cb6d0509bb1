-- ===== src/Sql/Cached.antt =====
-- The abstract view of the tables: which block offsets of which paths are cached. Row ids, sizes
-- and time stamps are forgotten.
use ece566_project.Prelude.{
  ℕ, ◌≡◌, refl, ◌∙◌, Bool, false, not, ◌&&◌, ◌||◌, Option, none, some, List, [], ◌∷◌, arith, ◌==◌,
  is_some, Name, same, eq_of_same, Option-cases, Bool-cases, inl, inr,
}
use ece566_project.Prelude.Int.{ℤ}
use ece566_project.Sql.{
  FileRow, BlockRow, Tables, Moment, find_path, find_id, find_block, resize, remove_id,
}
use ece566_project.Sql.Rows.{
  Agree, find_path-Agree, find_path-remove_path_self, find_path-remove_path_ne,
}
use ece566_project.Sql.Counts.{Owned, find_block-touch}
use ece566_project.Sql.Catalog.{IsConsistent, add_file, add_block, drop_file, refresh_block}

abbrev block_of : ℕ → Option FileRow → List BlockRow → Bool
block_of o none bs = false
block_of o (some f) bs = is_some (find_block o f.file_id bs)

unfoldable pub cached : Tables → Name → ℕ → Bool
cached t p o = block_of o (find_path p t.files) t.blocks

abbrev pub known : Tables → Name → Bool
known t p = is_some (find_path p t.files)

find_block-resize :
    (g : ℤ → ℤ) (p q : Name) (o : ℕ) (bs : List BlockRow) (fs : List FileRow)
    → block_of o (find_path q (resize g p fs)) bs ≡ block_of o (find_path q fs) bs
unfolding find_path resize
find_block-resize g p q o bs [] = refl
find_block-resize g p q o bs (f ∷ fs) = ground (arith, find_block-resize g p q o bs fs)

-- The row that a path finds has the id that it agrees with, or another.
Agree-found :
    (p q : Name) (i : ℕ) (fs : List FileRow) (g : FileRow)
    → Agree p i fs
    → find_path q fs ≡ some g
    → same q p ≡ (g.file_id == i)
unfolding find_path
Agree-found p q i [] g a h = cc
Agree-found p q i (f ∷ fs) g a h =
    ground (arith, eq_of_same f.relative_path q, Agree-found p q i fs g a.1)

find_block-remove_id_ne :
    (o j i : ℕ) (bs : List BlockRow)
    → (j == i) ≡ false
    → find_block o j (remove_id i bs) ≡ find_block o j bs
unfolding find_block remove_id
find_block-remove_id_ne o j i [] h = refl
find_block-remove_id_ne o j i (b ∷ bs) h = ground (arith, find_block-remove_id_ne o j i bs h)

find_block_fresh :
    (o i : ℕ) (fs : List FileRow) (bs : List BlockRow)
    → find_id i fs ≡ none
    → Owned fs bs
    → find_block o i bs ≡ none
unfolding find_block
find_block_fresh o i fs [] h w = refl
find_block_fresh o i fs (b ∷ bs) h w = ground (arith, find_block_fresh o i fs bs h w.1)

module _ (bs : ℕ) (t : Tables) (c : IsConsistent bs t) (p q : Name) (o : ℕ) where
  pub cached-add_block :
      (m : Moment) (off : ℕ) (f : FileRow)
      → find_path p t.files ≡ some f
      → cached (add_block m bs p off f.file_id t) q o ≡ (cached t q o || (same q p && o == off))
  unfolding cached find_block
  cached-add_block m off f found =
      let agree = find_path-Agree p t.files f c.distinct found in
      find_block-resize _ p q o _ t.files ∙ elim (Option-cases (find_path q t.files)) [
        | inl none_found ↦ ground (arith, eq_of_same q p)
        | inr (g, other) ↦ ground (arith, Agree-found p q f.file_id t.files g agree other)
      ]

  pub cached-drop_file :
      (f : FileRow)
      → find_path p t.files ≡ some f
      → cached (drop_file p f.file_id t) q o ≡ (cached t q o && not (same q p))
  unfolding cached
  cached-drop_file f found =
      let agree = find_path-Agree p t.files f c.distinct found in
      elim (Bool-cases (same q p)) [
        | inl mine ↦ ground (arith, eq_of_same q p, find_path-remove_path_self p t.files)
        | inr theirs ↦ elim (Option-cases (find_path q t.files)) [
          | inl none_found ↦ ground (arith, find_path-remove_path_ne p q t.files)
          | inr (g, other) ↦ ground (
            arith,
            find_path-remove_path_ne p q t.files,
            Agree-found p q f.file_id t.files g agree other,
            find_block-remove_id_ne o g.file_id f.file_id t.blocks,
          )
        ]
      ]

  pub cached-refresh_block : (now off i : ℕ) → cached (refresh_block now off i t) q o ≡ cached t q o
  unfolding cached
  cached-refresh_block now off i = elim (Option-cases (find_path q t.files)) [
    | inl none_found ↦ ground arith
    | inr (g, other) ↦ ground (arith, find_block-touch now off i o g.file_id t.blocks)
  ]

  pub cached-add_file :
      (m : Moment) (n : ℤ)
      → find_path p t.files ≡ none
      → find_id m.rowid t.files ≡ none
      → cached (add_file m p n t) q o ≡ cached t q o
  unfolding cached find_path
  cached-add_file m n fresh unused =
      ground (arith, eq_of_same p q, find_block_fresh o m.rowid t.files t.blocks unused c.owned)
