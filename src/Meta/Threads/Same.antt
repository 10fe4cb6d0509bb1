-- ===== src/Meta/Threads/Same.antt =====
-- Statements that change nothing of what is known and cached, and queries that tell it.
use ece566_project.Prelude.{ℕ, ◌≡◌, refl, true, [], arith, Name, Option-cases, inl, inr}
use ece566_project.Prelude.Int.{ℤ}
use ece566_project.Sql.{Tables, Statement, meaning, find_path, find_block, resize}
use ece566_project.Sql.Rows.{find_path-resize}
use ece566_project.Sql.Counts.{find_block-touch}
use ece566_project.Sql.Cached.{cached, known}
use ece566_project.Sql.Catalog.{refresh_block}
use ece566_project.Sql.Engine.{Engine, IsHealthy, run_some}
use ece566_project.Meta.{Meta, truthy, probe, prepare, finalize, is_blk_in_cache}
use ece566_project.Meta.Threads.Pending.{find_path-resize_id}
use ece566_project.Meta.Threads.Todo.{cached-id_of}

-- The same paths are known, and the same blocks cached.
pub record SameView (t t' : Tables) : Type 0 where
  pub known_kept : (q : Name) → known t' q ≡ known t q
  pub cached_kept : (q : Name) (o : ℕ) → cached t' q o ≡ cached t q o

pub same_view : (t : Tables) → SameView t t
same_view t = record { known_kept = λ q. refl; cached_kept = λ q o. refl }

pub resize-SameView :
    (g : ℤ → ℤ) (p : Name) (t : Tables) → SameView t (record t { files = resize g p t.files })
resize-SameView g p t = record {
  known_kept = λ q. find_path-resize g p q t.files;
  cached_kept = λ q o. cached-id_of _ t q o (find_path-resize_id g p q t.files) refl;
}

pub refresh-SameView : (now off i : ℕ) (t : Tables) → SameView t (refresh_block now off i t)
unfolding cached
refresh-SameView now off i t = record {
  known_kept = λ q. refl;
  cached_kept = λ q o. elim (Option-cases (find_path q t.files)) [
    | inl absent ↦ ground arith
    | inr (g, found) ↦ ground (arith, find_block-touch now off i o g.file_id t.blocks)
  ];
}

module _ (e : Engine) (h : IsHealthy e) where
  open e use {Db, tables}

  -- A query that says that a block is listed is right.
  pub query_right :
      (p : Name) (off : ℕ) (m : Meta Db)
      → (tables m.db).has_files ≡ true
      → (tables m.db).has_blocks ≡ true
      → truthy (is_blk_in_cache e p off m).0 ≡ true
      → cached (tables m.db) p off ≡ true
  unfolding is_blk_in_cache probe prepare finalize meaning cached
  query_right p off m has has' listed =
      let s = Statement.select_block_id off p in
      elim (Option-cases (find_path p (tables m.db).files)) [
        | inl unknown ↦
            absurd (ground (arith, has, has', run_some e h s m.db {rows = []} {t = tables m.db}))
        | inr (f, found) ↦ elim (Option-cases (find_block off f.file_id (tables m.db).blocks)) [
          | inl new ↦
              absurd (ground (arith, has, has', run_some e h s m.db {rows = []} {t = tables m.db}))
          | inr (b, old) ↦ ground arith
        ]
      ]
