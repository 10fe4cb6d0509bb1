-- ===== src/Meta/Threads/Race.antt =====
-- Two threads that insert a block each at the same time: one of the two updates of the counter of
-- meta.c is lost.
use ece566_project.Prelude.{
  ℕ, ◌+◌, ◌*◌, ◌%◌, ◌<◌, ◌^◌, ◌≡◌, ◌≢◌, refl, ap, sym, ◌∙◌, true, false, ◌&&◌, ◌||◌, ◌==◌, none,
  some, List, [], ◌∷◌, arith, All, length, Name, same,
}
use ece566_project.Prelude.Int.{word, to_int64, to_int64_small}
use ece566_project.Sql.{FileRow, Statement, meaning, find_path, find_block}
use ece566_project.Sql.Rows.{find_path-resize}
use ece566_project.Sql.Cached.{cached, known, cached-add_block}
use ece566_project.Sql.Catalog.{IsConsistent, add_block, add_block-IsConsistent}
use ece566_project.Sql.Engine.{Engine, IsHealthy}
use ece566_project.Meta.{Meta, perform, is_blk_in_cache}
use ece566_project.Meta.Effects.{perform-some}
use ece566_project.Meta.Invariant.{IsValid}
use ece566_project.Meta.Threads.{
  Thread, call, write_step, grow_step, store_step, advance, advances, turn, interleave,
}
use ece566_project.Meta.Threads.Listed.{known-some, uncached-none, asked, inserted, until_listed}
use ece566_project.Meta.Threads.Pending.{HasReturned}
use ece566_project.Meta.Threads.Bounds.{calls}
use ece566_project.Meta.Threads.Sound.{Leaves}

module _ (e : Engine) (h : IsHealthy e) where
  open e use {Db, tables}

  module _ (p : Name) (off : ℕ) (m : Meta Db) (c : IsConsistent m.meta_block_size (tables m.db))
      (small : m.meta_block_size < 2 ^ 63) (f : FileRow)
      (found : find_path p (tables m.db).files ≡ some f)
      (new : find_block off f.file_id (tables m.db).blocks ≡ none) where
    -- The state in which a call has listed its block and read the counter.
    abbrev grown : Meta Db
    grown =
        (perform e (Statement.add_local_size (to_int64 m.meta_block_size) p)
          (inserted e h p off m c f found new)).1

    until_read :
        (advances e 5 (call p (off ∷ []), m) ≡ (Thread.stores m.cache_used_size p [] [], grown))
        × Leaves e
            (add_block
              (e.moment (asked e h p off m c f found new).db)
              m.meta_block_size
              p
              off
              f.file_id
              (tables m.db))
            m
            grown
    unfolding advances advance grow_step meaning
    until_read =
        let (runs, l) = until_listed e h p off m c f found new in
        let t =
          add_block (e.moment (asked e h p off m c f found new).db) m.meta_block_size p off
            f.file_id (tables m.db) in
        let (ok, d) =
          perform-some e h (Statement.add_local_size (to_int64 m.meta_block_size) p)
            (inserted e h p off m c f found new) t
            (rw (l.tables, to_int64_small m.meta_block_size small) (ground (arith, c.has_files))) in
        (
          ap (advances e 2) runs ∙ ground (arith, ok, d, l),
          record {
            tables = d.tables;
            cache_used_size = d.cache_used_size ∙ l.cache_used_size;
            meta_block_size = d.meta_block_size ∙ l.meta_block_size;
          },
        )

  turns_first :
      (is : List ℕ) (c c' : Thread) (m : Meta Db)
      → interleave e (0 ∷ 0 ∷ 0 ∷ 0 ∷ 0 ∷ is) (c ∷ c' ∷ [], m)
        ≡ (let (d, m') = advances e 5 (c, m) in interleave e is (d ∷ c' ∷ [], m'))
  unfolding interleave turn advances
  turns_first is c c' m = refl

  turns_second :
      (is : List ℕ) (c c' : Thread) (m : Meta Db)
      → interleave e (1 ∷ 1 ∷ 1 ∷ 1 ∷ 1 ∷ is) (c ∷ c' ∷ [], m)
        ≡ (let (d, m') = advances e 5 (c', m) in interleave e is (c ∷ d ∷ [], m'))
  unfolding interleave turn advances
  turns_second is c c' m = refl

  turns_last :
      (u u' : ℕ) (p q : Name) (m : Meta Db)
      → interleave e
          (0 ∷ 1 ∷ 0 ∷ 1 ∷ [])
          (Thread.stores u p [] [] ∷ Thread.stores u' q [] [] ∷ [], m)
        ≡ (
          Thread.returned ∷ Thread.returned ∷ [],
          record m { cache_used_size = (u' + m.meta_block_size) % word },
        )
  unfolding interleave turn advance store_step write_step
  turns_last u u' p q m = refl

-- The first thread runs until it has read the counter, then the second; then both write it.
abbrev pub race : List ℕ
race = 0 ∷ 0 ∷ 0 ∷ 0 ∷ 0 ∷ 1 ∷ 1 ∷ 1 ∷ 1 ∷ 1 ∷ 0 ∷ 1 ∷ 0 ∷ 1 ∷ []

wraps_short :
    (bs n used : ℕ)
    → bs ≢ 0
    → bs < 2 ^ 63
    → used ≡ (bs * n) % word
    → (used + bs) % word ≢ (bs * (n + 2)) % word
wraps_short bs n used nonzero small h e = omega arith

module _ (e : Engine) (h : IsHealthy e) where
  open e use {Db, tables}

  -- What a call has done when it has read the counter.
  record Read (p : Name) (o : ℕ) (m g : Meta Db) : Type 0 where
    runs : advances e 5 (call p (o ∷ []), m) ≡ (Thread.stores m.cache_used_size p [] [], g)
    meta_block_size : g.meta_block_size ≡ m.meta_block_size
    cache_used_size : g.cache_used_size ≡ m.cache_used_size
    consistent : IsConsistent m.meta_block_size (tables g.db)
    listed : length (tables g.db).blocks ≡ length (tables m.db).blocks + 1
    cached_then :
        (q : Name) (o' : ℕ)
        → cached (tables g.db) q o' ≡ (cached (tables m.db) q o' || (same q p && o' == o))
    known_then : (q : Name) → known (tables g.db) q ≡ known (tables m.db) q

  reads :
      (p : Name) (o : ℕ) (m : Meta Db)
      → IsConsistent m.meta_block_size (tables m.db)
      → m.meta_block_size < 2 ^ 63
      → known (tables m.db) p ≡ true
      → cached (tables m.db) p o ≡ false
      → (g : Meta Db) × Read p o m g
  reads p o m c small k n =
      let (f, found) = known-some e h p m k in
      let new = uncached-none e h p o m f found n in
      let (runs, l) = until_read e h p o m c small f found new in
      let mo = e.moment (is_blk_in_cache e p o m).1.db in
      let ok = add_block-IsConsistent _ _ c mo p o f found new in
      (
        _,
        record {
          runs = runs;
          meta_block_size = l.meta_block_size;
          cache_used_size = l.cache_used_size;
          consistent = rw l.tables ok;
          listed = rw l.tables (omega arith);
          cached_then = λ q o'. rw l.tables (cached-add_block _ _ c p q o' mo o f found);
          known_then = λ q. rw l.tables (find_path-resize _ p q (tables m.db).files);
        },
      )

  -- Two threads that insert a block each can both return with both blocks listed and the counter
  -- increased by one block only, so that the bookkeeping is no longer valid. The two files are
  -- known, the two blocks differ and are not cached, the bookkeeping is valid before, the block
  -- size is not 0, and the engine does not fail.
  pub lost_update :
      (p q : Name) (o o' : ℕ) (m : Meta Db)
      → IsValid e m
      → m.meta_block_size ≢ 0
      → known (tables m.db) p ≡ true
      → known (tables m.db) q ≡ true
      → cached (tables m.db) p o ≡ false
      → cached (tables m.db) q o' ≡ false
      → (same q p && o' == o) ≡ false
      → let (cs, m') = interleave e race (calls ((p, o ∷ []) ∷ (q, o' ∷ []) ∷ []), m) in
        All HasReturned cs
        × (length (tables m'.db).blocks ≡ length (tables m.db).blocks + 2)
        × (m'.cache_used_size ≡ (m.cache_used_size + m.meta_block_size) % word)
        × ¬ IsValid e m'
  lost_update p q o o' m v nonzero kp kq np nq apart =
      let (g, r) = reads p o m v.consistent v.small kp np in
      let (g', r') =
        reads q o' g (rw r.meta_block_size r.consistent) (rw r.meta_block_size v.small)
          (r.known_then q ∙ kq) (ground (arith, r.cached_then q o')) in
      let bs_kept = r'.meta_block_size ∙ r.meta_block_size in
      let counts : (g.cache_used_size + g'.meta_block_size) % word
          ≡ (m.cache_used_size + m.meta_block_size) % word =
        rw (r.cache_used_size, bs_kept) refl in
      let listed : length (tables g'.db).blocks ≡ length (tables m.db).blocks + 2 =
        omega (arith, r.listed, r'.listed) in
      rw
        (
          turns_first e h (1 ∷ 1 ∷ 1 ∷ 1 ∷ 1 ∷ 0 ∷ 1 ∷ 0 ∷ 1 ∷ []) (call p (o ∷ []))
              (call q (o' ∷ [])) m,
          r.runs,
          turns_second e h (0 ∷ 1 ∷ 0 ∷ 1 ∷ []) (Thread.stores m.cache_used_size p [] [])
              (call q (o' ∷ [])) g,
          r'.runs,
          turns_last e h m.cache_used_size g.cache_used_size p q g',
        )
        (
          (refl, (refl, tt)),
          listed,
          counts,
          λ v'.
              wraps_short m.meta_block_size (length (tables m.db).blocks) m.cache_used_size nonzero
                v.small v.counted
                (sym counts
                  ∙ v'.counted
                  ∙ ap (λ (k : ℕ). (k * length (tables g'.db).blocks) % word) bs_kept
                  ∙ ap (λ (k : ℕ). (m.meta_block_size * k) % word) listed),
        )
