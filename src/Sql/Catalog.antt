-- ===== src/Sql/Catalog.antt =====
-- What the bookkeeping of meta.c promises of its tables, and the updates of a catalog of files
-- and blocks that keep it. The updates are the specification of the operations of Meta.antt.
use ece566_project.Prelude.{ℕ, ◌+◌, ◌*◌, ◌≡◌, true, none, some, ◌∷◌, arith, ◌∙◌, Name, length}
use ece566_project.Prelude.Int.{ℤ, pos, ◌+ℤ◌}
use ece566_project.Sql.{
  FileRow, BlockRow, Tables, Moment, find_path, find_id, find_block, resize, remove_path, remove_id,
  touch,
}
use ece566_project.Sql.Rows.{
  IsTable, find_path-Agree, find_id-resize, resize-IsTable, remove_path-IsTable,
}
use ece566_project.Sql.Counts.{
  count_of, IsIndexed, Sized, Owned, length-remove_id, Sized-grow, Sized-remove_id, Owned-mono,
  Owned-remove_id, find_path-Owned, count_of_fresh, touch-IsIndexed, Owned-touch, Sized-touch,
  remove_id-IsIndexed, Sized-find_path,
}

-- Both tables are there, foreign keys are enforced, paths and ids are unique, no block is listed
-- twice or without its file, and `local_size` is the size of the file's blocks.
pub record IsConsistent (bs : ℕ) (t : Tables) : Type 0 where
  pub has_files : t.has_files ≡ true
  pub has_blocks : t.has_blocks ≡ true
  pub foreign_keys : t.foreign_keys ≡ true
  pub distinct : IsTable t.files
  pub indexed : IsIndexed t.blocks
  pub sized : Sized bs t.blocks t.files
  pub owned : Owned t.files t.blocks

-- The table of files is there, and foreign keys are enforced.
pub record IsThere (t : Tables) : Type 0 where
  pub has_files : t.has_files ≡ true
  pub foreign_keys : t.foreign_keys ≡ true

pub there : {bs : ℕ} {t : Tables} → IsConsistent bs t → IsThere t
there c = record { has_files = c.has_files; foreign_keys = c.foreign_keys }

abbrev pub new_file : Moment → Name → ℤ → FileRow
new_file m p n = record {
  file_id = m.rowid;
  relative_path = p;
  remote_size = n;
  local_size = pos 0;
}

abbrev pub new_block : Moment → ℕ → ℕ → BlockRow
new_block m off i = record {
  block_id = m.rowid;
  blk_start_offset = off;
  is_valid = true;
  timestamp = m.now;
  file_id = i;
}

abbrev pub add_file : Moment → Name → ℤ → Tables → Tables
add_file m p n t = record t { files = new_file m p n ∷ t.files }

-- A block for the file with path `p` and id `i`, and its size added to the file.
abbrev pub add_block : Moment → ℕ → Name → ℕ → ℕ → Tables → Tables
add_block m bs p off i t = record t {
  files = resize (λ z. z +ℤ pos bs) p t.files;
  blocks = new_block m off i ∷ t.blocks;
}

-- The file with path `p` and id `i`, with all its blocks.
abbrev pub drop_file : Name → ℕ → Tables → Tables
drop_file p i t = record t { files = remove_path p t.files; blocks = remove_id i t.blocks }

abbrev pub refresh_block : ℕ → ℕ → ℕ → Tables → Tables
refresh_block now off i t = record t { blocks = touch now off i t.blocks }

module _ (bs : ℕ) (t : Tables) (c : IsConsistent bs t) where
  pub add_file-IsConsistent :
      (m : Moment) (p : Name) (n : ℤ)
      → find_path p t.files ≡ none
      → find_id m.rowid t.files ≡ none
      → IsConsistent bs (add_file m p n t)
  unfolding find_id
  add_file-IsConsistent m p n fresh unused = record {
    has_files = c.has_files;
    has_blocks = c.has_blocks;
    foreign_keys = c.foreign_keys;
    distinct = (fresh, unused, c.distinct);
    indexed = c.indexed;
    sized = (ground (arith, count_of_fresh m.rowid t.files t.blocks unused c.owned), c.sized);
    owned = Owned-mono t.files ((add_file m p n t).files) t.blocks (λ i h. ground arith) c.owned;
  }

  pub add_block-IsConsistent :
      (m : Moment) (p : Name) (off : ℕ) (f : FileRow)
      → find_path p t.files ≡ some f
      → find_block off f.file_id t.blocks ≡ none
      → IsConsistent bs (add_block m bs p off f.file_id t)
  add_block-IsConsistent m p off f found new = record {
    has_files = c.has_files;
    has_blocks = c.has_blocks;
    foreign_keys = c.foreign_keys;
    distinct = resize-IsTable _ p t.files c.distinct;
    indexed = (new, c.indexed);
    sized =
        Sized-grow bs p (new_block m off f.file_id) t.blocks t.files
          (find_path-Agree p t.files f c.distinct found) c.sized;
    owned = (
      find_id-resize _ p f.file_id t.files ∙ find_path-Owned p t.files f found,
      Owned-mono t.files _ t.blocks (λ i h. find_id-resize _ p i t.files ∙ h) c.owned,
    );
  }

  pub drop_file-IsConsistent :
      (p : Name) (f : FileRow)
      → find_path p t.files ≡ some f
      → IsConsistent bs (drop_file p f.file_id t)
  drop_file-IsConsistent p f found =
      let agree = find_path-Agree p t.files f c.distinct found in
      record {
        has_files = c.has_files;
        has_blocks = c.has_blocks;
        foreign_keys = c.foreign_keys;
        distinct = remove_path-IsTable p t.files c.distinct;
        indexed = remove_id-IsIndexed f.file_id t.blocks c.indexed;
        sized = Sized-remove_id bs p f.file_id t.blocks t.files agree c.sized;
        owned = Owned-remove_id p f.file_id t.files t.blocks agree c.owned;
      }

  pub refresh_block-IsConsistent : (now off i : ℕ) → IsConsistent bs (refresh_block now off i t)
  refresh_block-IsConsistent now off i = record {
    has_files = c.has_files;
    has_blocks = c.has_blocks;
    foreign_keys = c.foreign_keys;
    distinct = c.distinct;
    indexed = touch-IsIndexed now off i t.blocks c.indexed;
    sized = Sized-touch bs now off i t.blocks t.files c.sized;
    owned = Owned-touch now off i t.files t.blocks c.owned;
  }

  -- The size that a dropped file gives back is that of the blocks dropped with it.
  pub drop_file_size :
      (p : Name) (f : FileRow)
      → find_path p t.files ≡ some f
      → (f.local_size ≡ pos (bs * count_of f.file_id t.blocks))
        × (length (remove_id f.file_id t.blocks) + count_of f.file_id t.blocks ≡ length t.blocks)
  drop_file_size p f found =
      (Sized-find_path bs p t.blocks t.files f found c.sized, length-remove_id f.file_id t.blocks)
