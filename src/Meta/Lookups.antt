-- ===== src/Meta/Lookups.antt =====
-- The operations of meta.c against the abstract view of its tables: which offsets of which paths
-- are cached. The query of one block answers it; an update of one block changes it there alone.
pub mod Ranges
use ece566_project.Prelude.{
  refl, ℕ, ◌≡◌, ap, ◌∙◌, Bool, true, false, not, ◌&&◌, ◌||◌, List, [], ◌∷◌, map, arith, ◌==◌,
  if◌then◌else◌, Name, same, eq_of_same, Option-cases, inl, inr,
}
use ece566_project.Prelude.Int.{ℤ, pos, ◌+ℤ◌}
use ece566_project.Sql.{Tables, find_path, find_block}
use ece566_project.Sql.Rows.{find_path-resize}
use ece566_project.Sql.Cached.{
  cached, known, cached-add_block, cached-drop_file, cached-refresh_block,
}
use ece566_project.Sql.Catalog.{there}
use ece566_project.Sql.Engine.{Engine, IsHealthy}
use ece566_project.Meta.{
  Meta, truthy, insert_block, delete_file, is_blk_in_cache, check_blocks, are_blocks_in_cache,
  update_blk_time, write_blk, write_each, write_blks,
}
use ece566_project.Meta.Effects.Blocks.{
  insert_block_new, insert_block_refused, update_blk_time_lem, update_blk_time_unknown,
  is_blk_in_cache_found, is_blk_in_cache_missed, is_blk_in_cache_unknown,
}
use ece566_project.Meta.Effects.Files.{delete_file_found}
use ece566_project.Meta.Invariant.{
  IsValid, is_blk_in_cache-IsValid, write_blk-IsValid, are_blocks_in_cache-IsValid,
}

-- The answer of a query as an `int`.
abbrev pub bit : Bool → ℤ
bit b = if b then pos 1 else pos 0

module _ (e : Engine) (h : IsHealthy e) where
  open e use {Db, tables}

  module _ (p : Name) (off : ℕ) (m : Meta Db) (v : IsValid e m) where
    -- The query answers 1 if the block is cached and 0 if not, and leaves the tables alone. The
    -- bookkeeping is valid before and the engine does not fail.
    pub is_blk_in_cache-cached :
        ((is_blk_in_cache e p off m).0 ≡ bit (cached (tables m.db) p off))
        × (tables (is_blk_in_cache e p off m).1.db ≡ tables m.db)
    unfolding cached
    is_blk_in_cache-cached =
        let c = v.consistent in
        elim (Option-cases (find_path p (tables m.db).files)) [
          | inl absent ↦ ground (arith, is_blk_in_cache_unknown e h p off m c v.small absent)
          | inr (f, found) ↦ elim (Option-cases (find_block off f.file_id (tables m.db).blocks)) [
            | inl miss ↦ ground (arith, is_blk_in_cache_missed e h p off m c f found miss)
            | inr (b, hit) ↦ ground (arith, is_blk_in_cache_found e h p off m c f found b hit)
          ]
        ]

    -- One more block is cached if its file is known, and nothing else changes in what is cached.
    -- The bookkeeping is valid before and the engine does not fail.
    pub insert_block-cached :
        (q : Name) (o : ℕ)
        → cached (tables (insert_block e p off m).1.db) q o
          ≡ (cached (tables m.db) q o || (known (tables m.db) p && (same q p && o == off)))
    unfolding cached
    insert_block-cached q o =
        let t = tables m.db in
        let c = v.consistent in
        elim (Option-cases (find_path p t.files)) [
          | inl absent ↦
              ground (arith, insert_block_refused e h p off m c v.small (λ f found. absurd (cc)))
          | inr (f, found) ↦ elim (Option-cases (find_block off f.file_id t.blocks)) [
            | inl new ↦ ground (
              arith,
              insert_block_new e h p off m c v.small f found new,
              cached-add_block _ _ c p q o (e.moment m.db) off f found,
            )
            | inr (b, old) ↦ ground (
              arith,
              eq_of_same q p,
              insert_block_refused e h p off m c v.small (λ g found'. ground arith),
            )
          ]
        ]

    -- The files stay as they are.
    pub insert_block-known :
        (q : Name) → known (tables (insert_block e p off m).1.db) q ≡ known (tables m.db) q
    insert_block-known q =
        let t = tables m.db in
        let c = v.consistent in
        elim (Option-cases (find_path p t.files)) [
          | inl absent ↦
              ground (arith, insert_block_refused e h p off m c v.small (λ f found. absurd (cc)))
          | inr (f, found) ↦ elim (Option-cases (find_block off f.file_id t.blocks)) [
            | inl new ↦ ground (
              arith,
              insert_block_new e h p off m c v.small f found new,
              find_path-resize (λ z. z +ℤ pos m.meta_block_size) p q t.files,
            )
            | inr (b, old) ↦
                ground
                  (arith, insert_block_refused e h p off m c v.small (λ g found'. ground arith))
          ]
        ]

    pub update_blk_time-known :
        (q : Name) → known (tables (update_blk_time e p off m).1.db) q ≡ known (tables m.db) q
    update_blk_time-known q = elim (Option-cases (find_path p (tables m.db).files)) [
      | inl absent ↦ ground (arith, update_blk_time_unknown e h p off m v.consistent v.small absent)
      | inr (f, found) ↦
          ground (arith, update_blk_time_lem e h p off m v.consistent v.small f found)
    ]

    -- Touching a block changes no answer about what is cached. The bookkeeping is valid before and
    -- the engine does not fail.
    pub update_blk_time-cached :
        (q : Name) (o : ℕ)
        → cached (tables (update_blk_time e p off m).1.db) q o ≡ cached (tables m.db) q o
    update_blk_time-cached q o = elim (Option-cases (find_path p (tables m.db).files)) [
      | inl absent ↦
          ap (λ t. cached t q o)
            (update_blk_time_unknown e h p off m v.consistent v.small absent).1.tables
      | inr (f, found) ↦
          ap (λ t. cached t q o)
            (update_blk_time_lem e h p off m v.consistent v.small f found).1.tables
          ∙ cached-refresh_block _ _ v.consistent p q o (e.moment m.db).now off f.file_id
    ]

  module _ (p : Name) (off : ℕ) (m : Meta Db) (v : IsValid e m) where
    -- One round of `write_blks`: a block that is said to be cached is.
    pub write_blk-cached :
        (hit : Bool)
        → (hit ≡ true → cached (tables m.db) p off ≡ true)
        → (q : Name) (o : ℕ)
        → cached (tables (write_blk e p (bit hit) off m).db) q o
          ≡ (cached (tables m.db) q o || (known (tables m.db) p && (same q p && o == off)))
    unfolding write_blk
    write_blk-cached hit sound q o = ground (
      arith,
      insert_block-cached p off m v q o,
      update_blk_time-cached p off m v q o,
      eq_of_same q p,
    )

    pub write_blk-known :
        (hit : ℤ) (q : Name) → known (tables (write_blk e p hit off m).db) q ≡ known (tables m.db) q
    unfolding write_blk
    write_blk-known hit q =
        ground (arith, insert_block-known p off m v q, update_blk_time-known p off m v q)

  -- Deleting a file that is known forgets its blocks, and those of no other file. The bookkeeping
  -- is valid before and the engine does not fail.
  pub delete_file-cached :
      (p : Name) (m : Meta Db)
      → IsValid e m
      → known (tables m.db) p ≡ true
      → (q : Name) (o : ℕ)
      → cached (tables (delete_file e p m).1.db) q o ≡ (cached (tables m.db) q o && not (same q p))
  delete_file-cached p m v k q o = elim (Option-cases (find_path p (tables m.db).files)) [
    | inl absent ↦ ground arith
    | inr (f, found) ↦
        ap (λ t. cached t q o) (delete_file_found e h p m (there v.consistent) f found).1.tables
        ∙ cached-drop_file _ _ v.consistent p q o f found
  ]
