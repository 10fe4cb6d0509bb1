-- ===== src/Meta/Files.antt =====
-- The operations of meta.c on whole files against the abstract view, for any path.
use ece566_project.Prelude.{
  length, ◌≤◌, ℕ, ◌≡◌, ap, ◌∙◌, false, not, ◌&&◌, ◌||◌, arith, true, Name, same, same_sym,
  eq_of_same, Option-cases, Bool-cases, inl, inr,
}
use ece566_project.Prelude.Int.{to_int64}
use ece566_project.Sql.{find_path}
use ece566_project.Sql.Counts.{length-remove_id}
use ece566_project.Sql.Rows.{find_path-remove_path_self, find_path-remove_path_ne}
use ece566_project.Sql.Cached.{cached, known, cached-add_file}
use ece566_project.Sql.Catalog.{there}
use ece566_project.Sql.Engine.{Engine, IsHealthy}
use ece566_project.Meta.{Meta, create_file, delete_file, is_file_in_cache}
use ece566_project.Meta.Effects.Files.{
  is_file_in_cache_found, is_file_in_cache_missed, delete_file_missed, delete_file_found,
  create_file_new, create_file_twice,
}
use ece566_project.Meta.Invariant.{IsValid, delete_file-IsValid}
use ece566_project.Meta.Lookups.{bit, delete_file-cached}

pub unknown-cached :
    (e : Engine) (p : Name) (m : Meta e.Db)
    → known (e.tables m.db) p ≡ false
    → (q : Name) (o : ℕ)
    → cached (e.tables m.db) q o ≡ (cached (e.tables m.db) q o && not (same q p))
unfolding cached
unknown-cached e p m absent q o = ground (arith, eq_of_same q p)

module _ (e : Engine) (h : IsHealthy e) (p : Name) (m : Meta e.Db) (v : IsValid e m) where
  -- Whether the file is known or not, deleting it leaves none of its blocks.
  pub delete_any-cached :
      (q : Name) (o : ℕ)
      → cached (e.tables (delete_file e p m).1.db) q o
        ≡ (cached (e.tables m.db) q o && not (same q p))
  delete_any-cached q o = elim (Option-cases (find_path p (e.tables m.db).files)) [
    | inl absent ↦
        ap (λ t. cached t q o) (delete_file_missed e h p m (there v.consistent) absent).1.tables
        ∙ unknown-cached e p m (ground arith) q o
    | inr (f, found) ↦ delete_file-cached e h p m v (ground arith) q o
  ]

  pub delete_any-known :
      (q : Name)
      → known (e.tables (delete_file e p m).1.db) q ≡ (known (e.tables m.db) q && not (same q p))
  delete_any-known q = elim (Option-cases (find_path p (e.tables m.db).files)) [
    | inl absent ↦
        ap (λ t. known t q) (delete_file_missed e h p m (there v.consistent) absent).1.tables
        ∙ ground (arith, eq_of_same q p)
    | inr (f, found) ↦
        ap (λ t. known t q) (delete_file_found e h p m (there v.consistent) f found).1.tables
        ∙ elim (Bool-cases (same q p)) [
          | inl mine ↦
              ground (arith, eq_of_same q p, find_path-remove_path_self p (e.tables m.db).files)
          | inr theirs ↦ ground (arith, find_path-remove_path_ne p q (e.tables m.db).files)
        ]
  ]

  -- Of an unknown file `delete_file` reads a size where no row is at hand, which SQLite leaves open.
  pub known-IsValid : known (e.tables m.db) p ≡ true → IsValid e (delete_file e p m).1
  known-IsValid here = elim (Option-cases (find_path p (e.tables m.db).files)) [
    | inl absent ↦ absurd (ground arith)
    | inr (f, found) ↦ delete_file-IsValid e h p m v f found
  ]

  pub is_file_in_cache-known :
      ((is_file_in_cache e p m).0 ≡ bit (known (e.tables m.db) p))
      × (e.tables (is_file_in_cache e p m).1.db ≡ e.tables m.db)
  is_file_in_cache-known = elim (Option-cases (find_path p (e.tables m.db).files)) [
    | inl absent ↦ ground (arith, is_file_in_cache_missed e h p m (there v.consistent) absent)
    | inr (f, found) ↦ ground (arith, is_file_in_cache_found e h p m (there v.consistent) f found)
  ]

  -- Creating a file caches none of its blocks, and changes no other answer.
  pub create_file-cached :
      (n : ℕ) (q : Name) (o : ℕ)
      → cached (e.tables (create_file e p n m).1.db) q o ≡ cached (e.tables m.db) q o
  create_file-cached n q o = elim (Option-cases (find_path p (e.tables m.db).files)) [
    | inl absent ↦
        ap (λ t. cached t q o) (create_file_new e h p m (there v.consistent) n absent).1.tables
        ∙ cached-add_file _ _ v.consistent p q o (e.moment m.db) (to_int64 n) absent
            (h.lawful.unused m.db)
    | inr (f, found) ↦
        ap (λ t. cached t q o) (create_file_twice e h p m (there v.consistent) n f found).1.tables
  ]

  pub create_file-known :
      (n : ℕ) (q : Name)
      → known (e.tables (create_file e p n m).1.db) q ≡ (known (e.tables m.db) q || same q p)
  unfolding find_path
  create_file-known n q = elim (Option-cases (find_path p (e.tables m.db).files)) [
    | inl absent ↦
        ap (λ t. known t q) (create_file_new e h p m (there v.consistent) n absent).1.tables
        ∙ ground (arith, same_sym p q)
    | inr (f, found) ↦
        ap (λ t. known t q) (create_file_twice e h p m (there v.consistent) n f found).1.tables
        ∙ ground (arith, eq_of_same q p)
  ]

  pub create_file-block_size : (n : ℕ) → (create_file e p n m).1.meta_block_size ≡ m.meta_block_size
  create_file-block_size n = elim (Option-cases (find_path p (e.tables m.db).files)) [
    | inl absent ↦ (create_file_new e h p m (there v.consistent) n absent).1.meta_block_size
    | inr (f, found) ↦ (create_file_twice e h p m (there v.consistent) n f found).1.meta_block_size
  ]

  pub delete_file-block_size : (delete_file e p m).1.meta_block_size ≡ m.meta_block_size
  delete_file-block_size = elim (Option-cases (find_path p (e.tables m.db).files)) [
    | inl absent ↦ (delete_file_missed e h p m (there v.consistent) absent).1.meta_block_size
    | inr (f, found) ↦ (delete_file_found e h p m (there v.consistent) f found).1.meta_block_size
  ]

  pub is_file_in_cache-block_size : (is_file_in_cache e p m).1.meta_block_size ≡ m.meta_block_size
  is_file_in_cache-block_size = elim (Option-cases (find_path p (e.tables m.db).files)) [
    | inl absent ↦ (is_file_in_cache_missed e h p m (there v.consistent) absent).1.meta_block_size
    | inr (f, found) ↦
        (is_file_in_cache_found e h p m (there v.consistent) f found).1.meta_block_size
  ]

  -- Neither creating nor deleting a file lists a block.
  pub create_file-blocks :
      (n : ℕ) → length (e.tables (create_file e p n m).1.db).blocks ≤ length (e.tables m.db).blocks
  create_file-blocks n = elim (Option-cases (find_path p (e.tables m.db).files)) [
    | inl absent ↦ rw (create_file_new e h p m (there v.consistent) n absent).1.tables (omega arith)
    | inr (f, found) ↦
        rw (create_file_twice e h p m (there v.consistent) n f found).1.tables (omega arith)
  ]

  pub delete_file-blocks :
      length (e.tables (delete_file e p m).1.db).blocks ≤ length (e.tables m.db).blocks
  delete_file-blocks = elim (Option-cases (find_path p (e.tables m.db).files)) [
    | inl absent ↦
        rw (delete_file_missed e h p m (there v.consistent) absent).1.tables (omega arith)
    | inr (f, found) ↦
        rw (delete_file_found e h p m (there v.consistent) f found).1.tables
          (omega (arith, length-remove_id f.file_id (e.tables m.db).blocks))
  ]
