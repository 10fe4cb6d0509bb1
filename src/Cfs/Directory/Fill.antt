-- ===== src/Cfs/Directory/Fill.antt =====
-- The loop of `cfs_readdir` in src/cachefs.c.
use ece566_project.Prelude.{◌≡◌, ap, true, false, List, [], ◌∷◌, ◌++◌, arith, Name}
use ece566_project.Prelude.Int.{ℤ, pos, neg}
use ece566_project.Meta.{truthy}
use ece566_project.Cfs.Directory.{fill_entries, enomem}

module _ {B : Type 0} (filler : B → Name → ℤ × B) where
  -- The filler takes the names one after another, and leaves this buffer.
  abbrev pub Delivered : List Name → B → B → Type 0
  Delivered [] buf buf' = buf ≡ buf'
  Delivered (name ∷ names) buf buf' =
      (truthy (filler buf name).0 ≡ false) × Delivered names (filler buf name).1 buf'

  -- If the filler takes every name, the status is 0 and the buffer is the one that holds them all.
  pub fill_entries_all :
      (names : List Name) (buf buf' : B)
      → Delivered names buf buf'
      → fill_entries filler names buf ≡ (pos 0, buf')
  unfolding fill_entries
  fill_entries_all [] buf buf' d = ap (λ b. (pos 0, b)) d
  fill_entries_all (name ∷ names) buf buf' d =
      ground (arith, fill_entries_all names (filler buf name).1 buf' d.1)

  -- If the filler takes some names and refuses the next, the status is -ENOMEM and the buffer the
  -- one after that name, whatever names follow: none of them is offered.
  pub fill_entries_full :
      (before : List Name) (name : Name) (after : List Name) (buf buf' : B)
      → Delivered before buf buf'
      → truthy (filler buf' name).0 ≡ true
      → fill_entries filler (before ++ (name ∷ after)) buf ≡ (neg enomem, (filler buf' name).1)
  unfolding fill_entries
  fill_entries_full [] name after buf buf' d full = rw d (ground arith)
  fill_entries_full (n ∷ before) name after buf buf' d full =
      ground (arith, fill_entries_full before name after (filler buf n).1 buf' d.1 full)
