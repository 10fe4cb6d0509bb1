-- ===== src/Meta/Growth.antt =====
-- How much an operation of meta.c can add to the tables: the block size is kept, and at most the
-- named blocks are new.
use ece566_project.Prelude.{
  ℕ, ◌+◌, ◌≤◌, ◌≡◌, List, [], ◌∷◌, arith, Name, length, Option-cases, inl, inr, if◌then◌else◌,
}
use ece566_project.Prelude.Int.{ℤ, pos}
use ece566_project.Sql.{find_path, find_block}
use ece566_project.Sql.Counts.{length-touch}
use ece566_project.Sql.Engine.{Engine, IsHealthy}
use ece566_project.Meta.{
  Meta, truthy, insert_block, is_blk_in_cache, check_blocks, are_blocks_in_cache, update_blk_time,
  write_blk, write_each, write_blks,
}
use ece566_project.Meta.Effects.Blocks.{
  insert_block_new, insert_block_refused, update_blk_time_lem, update_blk_time_unknown,
  is_blk_in_cache_found, is_blk_in_cache_missed, is_blk_in_cache_unknown,
}
use ece566_project.Meta.Invariant.{
  IsValid, is_blk_in_cache-IsValid, write_blk-IsValid, are_blocks_in_cache-IsValid,
}

-- From `m` to `m'` at most `k` blocks are new.
pub record Grows (e : Engine) (k : ℕ) (m m' : Meta e.Db) : Type 0 where
  pub meta_block_size : m'.meta_block_size ≡ m.meta_block_size
  pub blocks : length (e.tables m'.db).blocks ≤ length (e.tables m.db).blocks + k

module _ (e : Engine) (h : IsHealthy e) where
  open e use {Db, tables}

  module _ (p : Name) (off : ℕ) (m : Meta Db) (v : IsValid e m) where
    is_blk_in_cache-Grows : Grows e 0 m (is_blk_in_cache e p off m).1
    is_blk_in_cache-Grows =
        let c = v.consistent in
        elim (Option-cases (find_path p (tables m.db).files)) [
          | inl absent ↦ ground (arith, is_blk_in_cache_unknown e h p off m c v.small absent)
          | inr (f, found) ↦ elim (Option-cases (find_block off f.file_id (tables m.db).blocks)) [
            | inl miss ↦ ground (arith, is_blk_in_cache_missed e h p off m c f found miss)
            | inr (b, hit) ↦ ground (arith, is_blk_in_cache_found e h p off m c f found b hit)
          ]
        ]

    insert_block-Grows : Grows e 1 m (insert_block e p off m).1
    insert_block-Grows =
        let c = v.consistent in
        elim (Option-cases (find_path p (tables m.db).files)) [
          | inl absent ↦
              ground (arith, insert_block_refused e h p off m c v.small (λ f found. absurd (cc)))
          | inr (f, found) ↦ elim (Option-cases (find_block off f.file_id (tables m.db).blocks)) [
            | inl new ↦ ground (arith, insert_block_new e h p off m c v.small f found new)
            | inr (b, old) ↦
                ground
                  (arith, insert_block_refused e h p off m c v.small (λ g found'. ground arith))
          ]
        ]

    update_blk_time-Grows : Grows e 0 m (update_blk_time e p off m).1
    update_blk_time-Grows = elim (Option-cases (find_path p (tables m.db).files)) [
      | inl absent ↦ ground (arith, update_blk_time_unknown e h p off m v.consistent v.small absent)
      | inr (f, found) ↦ ground (
        arith,
        update_blk_time_lem e h p off m v.consistent v.small f found,
        length-touch (e.moment m.db).now off f.file_id (tables m.db).blocks,
      )
    ]

    write_blk-Grows : (hit : ℤ) → Grows e 1 m (write_blk e p hit off m)
    unfolding write_blk
    write_blk-Grows hit = ground (arith, insert_block-Grows, update_blk_time-Grows)

  module _ (p : Name) where
    check_blocks-Grows :
        (offs : List ℕ) (total : ℤ) (m : Meta Db)
        → IsValid e m
        → Grows e 0 m (check_blocks e p offs total m).2
    unfolding check_blocks
    check_blocks-Grows [] total m v = ground arith
    check_blocks-Grows (off ∷ offs) total m v = ground (
      arith,
      is_blk_in_cache-Grows p off m v,
      check_blocks-Grows offs (if truthy (is_blk_in_cache e p off m).0 then total else pos 0)
          (is_blk_in_cache e p off m).1 (is_blk_in_cache-IsValid e h p m v off),
    )

    pub are_blocks_in_cache-Grows :
        (offs : List ℕ) (m : Meta Db) → IsValid e m → Grows e 0 m (are_blocks_in_cache e p offs m).2
    unfolding are_blocks_in_cache
    are_blocks_in_cache-Grows offs m v = check_blocks-Grows offs _ m v

    write_each-Grows :
        (hits : List ℤ) (offs : List ℕ) (m : Meta Db)
        → IsValid e m
        → Grows e (length offs) m (write_each e p hits offs m)
    unfolding write_each
    write_each-Grows [] offs m v = ground arith
    write_each-Grows (hit ∷ hits) [] m v = ground arith
    write_each-Grows (hit ∷ hits) (off ∷ offs) m v = ground (
      arith,
      write_blk-Grows p off m v hit,
      write_each-Grows hits offs (write_blk e p hit off m) (write_blk-IsValid e h p m v hit off),
    )

    -- Writing `n` blocks lists at most `n` new ones and keeps the block size. The bookkeeping is
    -- valid before and the engine does not fail.
    pub write_blks-Grows :
        (offs : List ℕ) (m : Meta Db)
        → IsValid e m
        → Grows e (length offs) m (write_blks e p offs m).1
    unfolding write_blks
    write_blks-Grows offs m v =
        let m1 = (are_blocks_in_cache e p offs m).2 in
        ground (
          arith,
          are_blocks_in_cache-Grows offs m v,
          write_each-Grows (are_blocks_in_cache e p offs m).1 offs m1
              (are_blocks_in_cache-IsValid e h p offs m v),
        )
