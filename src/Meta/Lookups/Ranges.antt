-- ===== src/Meta/Lookups/Ranges.antt =====
-- The operations of meta.c on an array of offsets against the abstract view of its tables: the
-- query tells each offset, and a write makes the named ones cached alone.
use ece566_project.Prelude.{
  refl, ℕ, ◌≡◌, ap, ◌∙◌, Bool, true, false, ◌&&◌, ◌||◌, List, [], ◌∷◌, map, arith, ◌==◌,
  if◌then◌else◌, Name, same,
}
use ece566_project.Prelude.Int.{ℤ, pos}
use ece566_project.Sql.{Tables}
use ece566_project.Sql.Cached.{cached, known}
use ece566_project.Sql.Engine.{Engine, IsHealthy}
use ece566_project.Meta.{
  Meta, truthy, is_blk_in_cache, check_blocks, are_blocks_in_cache, write_blk, write_each,
  write_blks,
}
use ece566_project.Meta.Invariant.{
  IsValid, is_blk_in_cache-IsValid, write_blk-IsValid, are_blocks_in_cache-IsValid,
}
use ece566_project.Meta.Lookups.{bit, is_blk_in_cache-cached, write_blk-cached, write_blk-known}

abbrev pub member : ℕ → List ℕ → Bool
member o [] = false
member o (off ∷ offs) = o == off || member o offs

abbrev pub all_cached : Tables → Name → List ℕ → Bool
all_cached t p [] = true
all_cached t p (off ∷ offs) = cached t p off && all_cached t p offs

total_bit :
    (total hit : Bool) → (if truthy (bit hit) then bit total else pos 0) ≡ bit (total && hit)
total_bit total hit = ground arith

module _ (e : Engine) (h : IsHealthy e) where
  open e use {Db, tables}

  module _ (p : Name) where
    check_blocks-cached :
        (offs : List ℕ) (total : Bool) (m : Meta Db)
        → IsValid e m
        → ((check_blocks e p offs (bit total) m).0 ≡ bit (total && all_cached (tables m.db) p offs))
          × ((check_blocks e p offs (bit total) m).1
              ≡ map (λ o. bit (cached (tables m.db) p o)) offs)
          × (tables (check_blocks e p offs (bit total) m).2.db ≡ tables m.db)
    unfolding check_blocks
    check_blocks-cached [] total m v = ground arith
    check_blocks-cached (off ∷ offs) total m v =
        let (answer, kept) = is_blk_in_cache-cached e h p off m v in
        let m1 = (is_blk_in_cache e p off m).1 in
        let hit = cached (tables m.db) p off in
        let rest =
          rw kept at
            (check_blocks-cached offs (total && hit) m1 (is_blk_in_cache-IsValid e h p m v off)) in
        rw (answer, total_bit total hit) (ground (arith, rest))

    -- The answer is 1 when every block is cached and 0 otherwise, the array tells each block, and
    -- the tables are left alone. The bookkeeping is valid before and the engine does not fail.
    pub are_blocks_in_cache-cached :
        (offs : List ℕ) (m : Meta Db)
        → IsValid e m
        → ((are_blocks_in_cache e p offs m).0 ≡ bit (all_cached (tables m.db) p offs))
          × ((are_blocks_in_cache e p offs m).1 ≡ map (λ o. bit (cached (tables m.db) p o)) offs)
          × (tables (are_blocks_in_cache e p offs m).2.db ≡ tables m.db)
    unfolding are_blocks_in_cache
    are_blocks_in_cache-cached offs m v = check_blocks-cached offs true m v

    write_each-cached :
        (t : Tables) (offs : List ℕ) (m : Meta Db)
        → IsValid e m
        → ((o : ℕ) → cached t p o ≡ true → cached (tables m.db) p o ≡ true)
        → (q : Name) (o : ℕ)
        → cached (tables (write_each e p (map (λ x. bit (cached t p x)) offs) offs m).db) q o
          ≡ (cached (tables m.db) q o || (known (tables m.db) p && (same q p && member o offs)))
    unfolding write_each
    write_each-cached t [] m v sound q o = ground arith
    write_each-cached t (off ∷ offs) m v sound q o =
        let hit = cached t p off in
        let m1 = write_blk e p (bit hit) off m in
        let step = write_blk-cached e h p off m v hit (sound off) in
        let rest =
          write_each-cached t offs m1 (write_blk-IsValid e h p m v (bit hit) off)
            (λ x s. ground (arith, step p x, sound x s)) q o in
        ground (arith, rest, step q o, write_blk-known e h p off m v (bit hit) p)

    -- After `write_blks` the blocks that were cached still are, and so are the written blocks if
    -- the file is known; no other block is. The bookkeeping is valid before and the engine does
    -- not fail.
    pub write_blks-cached :
        (offs : List ℕ) (m : Meta Db)
        → IsValid e m
        → (q : Name) (o : ℕ)
        → cached (tables (write_blks e p offs m).1.db) q o
          ≡ (cached (tables m.db) q o || (known (tables m.db) p && (same q p && member o offs)))
    unfolding write_blks
    write_blks-cached offs m v q o =
        let (_, hits, kept) = are_blocks_in_cache-cached offs m v in
        let m1 = (are_blocks_in_cache e p offs m).2 in
        rw hits (
          rw kept at (
            write_each-cached (tables m.db) offs m1 (are_blocks_in_cache-IsValid e h p offs m v)
              (λ x s. rw kept s) q o))

    write_each-known :
        (hits : List ℤ) (offs : List ℕ) (m : Meta Db)
        → IsValid e m
        → (q : Name) → known (tables (write_each e p hits offs m).db) q ≡ known (tables m.db) q
    unfolding write_each
    write_each-known [] offs m v q = refl
    write_each-known (hit ∷ hits) [] m v q = refl
    write_each-known (hit ∷ hits) (off ∷ offs) m v q =
        write_each-known hits offs (write_blk e p hit off m) (write_blk-IsValid e h p m v hit off) q
        ∙ write_blk-known e h p off m v hit q

    pub write_blks-known :
        (offs : List ℕ) (m : Meta Db)
        → IsValid e m
        → (q : Name) → known (tables (write_blks e p offs m).1.db) q ≡ known (tables m.db) q
    unfolding write_blks
    write_blks-known offs m v q =
        write_each-known _ offs _ (are_blocks_in_cache-IsValid e h p offs m v) q
        ∙ ap (λ t. known t q) (are_blocks_in_cache-cached offs m v).2
