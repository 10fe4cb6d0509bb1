-- ===== src/Meta/Threads/Steps.antt =====
-- The kinds of step of a thread in `write_blks`, and why each leaves the tables and the counter
-- sound.
use ece566_project.Prelude.{
  get_elem?, set, All-get_elem?, All-set, All-mono, ℕ, suc, ◌+◌, ◌*◌, ◌%◌, ◌≤◌, ◌≡◌, refl, ap, sym,
  ◌∙◌, none, some, List, ◌∷◌, arith, length, Name, Option-cases, inl, inr, true,
}
use mathlib.Core.Path.{subst}
use native.Mathlib.Nat.{mod-eq_of_lt, mul-le-mul_left}
use ece566_project.Prelude.Int.{ℤ, pos, ◌+ℤ◌, word, to_int64, to_int64_small}
use ece566_project.Sql.{FileRow, Tables, Statement, meaning, find_path, find_block, resize}
use ece566_project.Sql.Counts.{length-touch}
use ece566_project.Sql.Catalog.{
  IsConsistent, new_block, add_block-IsConsistent, refresh_block, refresh_block-IsConsistent,
}
use ece566_project.Sql.Engine.{Engine, IsHealthy}
use ece566_project.Meta.{Meta, update_blk_time}
use ece566_project.Meta.Effects.{perform-some, perform-none}
use ece566_project.Meta.Threads.{
  Thread, writes, grows, loads, stores, insert_step, grow_step, store_step,
}
use ece566_project.Meta.Threads.Pending.{
  owes, left, total-set, settle_one, settle, settle-resize, settle-set, settle-found,
}
use ece566_project.Meta.Threads.Sound.{Holds, Holds-mono, settled, IsSound, Leaves, leaves}

module _ (e : Engine) (h : IsHealthy e) where
  open e use {Db, tables}

  module _ (bs limit least stored : ℕ) (cs : List Thread) (m : Meta Db)
      (s : IsSound e bs limit least stored cs m) (i : ℕ) (c : Thread)
      (at : get_elem? cs i ≡ some c) where
    abbrev t0 : Tables
    t0 = tables m.db

    -- A step that neither lists a block nor writes the counter.
    quiet :
        (c' : Thread) (t : Tables) (m' : Meta Db)
        → Leaves e t m m'
        → owes c ≡ owes c'
        → left c' ≤ left c
        → Holds least (bs * stored) c'
        → length t.blocks ≡ length t0.blocks
        → IsConsistent bs (settled bs (set cs i c') t)
        → IsSound e bs limit least stored (set cs i c') m'
    quiet c' t m' l same_debt fewer held same_length ok = record {
      meta_block_size = l.meta_block_size ∙ s.meta_block_size;
      small = s.small;
      consistent = rw l.tables ok;
      listed = rw l.tables (ground (arith, s.listed, total-set owes cs i c c' at));
      room = rw l.tables (ground (arith, s.room, total-set left cs i c c' at));
      fits = s.fits;
      least_counted = rw l.cache_used_size s.least_counted;
      most_counted = rw l.cache_used_size s.most_counted;
      holds = All-set _ cs i c' held s.holds;
    }

    -- A thread that owes no size before and after leaves the debt of the others.
    same_settled :
        (c' : Thread)
        → ((fs : List FileRow) → settle_one bs c fs ≡ fs)
        → ((fs : List FileRow) → settle_one bs c' fs ≡ fs)
        → settle bs (set cs i c') t0.files ≡ settle bs cs t0.files
    same_settled c' free free' =
        sym (free (settle bs (set cs i c') t0.files))
        ∙ settle-set bs cs i c c' t0.files at
        ∙ free' (settle bs cs t0.files)

    -- A step of a thread that owes nothing before and after, and changes no table.
    pub idle :
        (c' : Thread) (m' : Meta Db)
        → Leaves e t0 m m'
        → owes c ≡ owes c'
        → left c' ≤ left c
        → Holds least (bs * stored) c'
        → ((fs : List FileRow) → settle_one bs c fs ≡ fs)
        → ((fs : List FileRow) → settle_one bs c' fs ≡ fs)
        → IsSound e bs limit least stored (set cs i c') m'
    idle c' m' l same_debt fewer held free free' =
        quiet c' t0 m' l same_debt fewer held refl (rw (same_settled c' free free') s.consistent)

    has_both : (t0.has_files ≡ true) × (t0.has_blocks ≡ true)
    has_both = (s.consistent.has_files, s.consistent.has_blocks)

    -- A block that is touched, by a thread that owes nothing.
    pub touches :
        (p : Name) (off : ℕ) (c' : Thread)
        → owes c ≡ owes c'
        → left c' ≤ left c
        → Holds least (bs * stored) c'
        → ((fs : List FileRow) → settle_one bs c fs ≡ fs)
        → ((fs : List FileRow) → settle_one bs c' fs ≡ fs)
        → IsSound e bs limit least stored (set cs i c') (update_blk_time e p off m).1
    unfolding update_blk_time meaning
    touches p off c' same_debt fewer held free free' =
        let st = Statement.touch_datablock off p in
        elim (Option-cases (find_path p t0.files)) [
          | inl unknown ↦
              idle c' _ (leaves e h t0 _ _ (perform-some e h st m t0 (ground (arith, has_both))).1)
                same_debt fewer held free free'
          | inr (f, found) ↦
              let t = refresh_block (e.moment m.db).now off f.file_id t0 in
              quiet c' t _ (leaves e h t _ _ (perform-some e h st m t (ground (arith, has_both))).1)
                same_debt fewer held (length-touch _ off f.file_id t0.blocks)
                (rw (same_settled c' free free')
                  (refresh_block-IsConsistent _ _ s.consistent (e.moment m.db).now off f.file_id))
        ]

    -- An `INSERT` that is refused.
    refused :
        (p : Name) (hit : ℤ) (off : ℕ) (hits : List ℤ) (offs : List ℕ)
        → c ≡ writes p (hit ∷ hits) (off ∷ offs)
        → meaning (e.moment m.db) (Statement.insert_datablock off p) t0 ≡ none
        → IsSound e bs limit least stored
            (set cs i (insert_step e p off hits offs m).0)
            (insert_step e p off hits offs m).1
    unfolding insert_step
    refused p hit off hits offs mine no_meaning =
        let (fails, a) = perform-none e h (Statement.insert_datablock off p) m no_meaning in
        rw fails (
          idle (writes p hits offs) _ (leaves e h t0 _ _ a) (ap owes mine)
            (omega (arith, ap left mine)) tt (λ fs. ap (λ d. settle_one bs d fs) mine) (λ fs. refl))

    -- An `INSERT` that is done: the block is listed, and not yet counted.
    accepted :
        (p : Name) (hit : ℤ) (off : ℕ) (hits : List ℤ) (offs : List ℕ) (f : FileRow)
        → c ≡ writes p (hit ∷ hits) (off ∷ offs)
        → find_path p t0.files ≡ some f
        → find_block off f.file_id t0.blocks ≡ none
        → IsSound e bs limit least stored
            (set cs i (insert_step e p off hits offs m).0)
            (insert_step e p off hits offs m).1
    unfolding insert_step meaning
    accepted p hit off hits offs f mine found new =
        let st = Statement.insert_datablock off p in
        let t = record t0 { blocks = new_block (e.moment m.db) off f.file_id ∷ t0.blocks } in
        let (g, found', same_id) = settle-found bs cs p t0.files f found in
        let (ok, a) = perform-some e h st m t (ground (arith, has_both)) in
        let owed = settle-set bs cs i c (grows p hits offs) t0.files at in
        let free =
          ap (λ d. settle_one bs d (settle bs (set cs i (grows p hits offs)) t0.files)) mine in
        rw ok (record {
          meta_block_size = a.meta_block_size ∙ s.meta_block_size;
          small = s.small;
          consistent = rw a.tables (
              rw (sym free ∙ owed, sym same_id)
                (add_block-IsConsistent _ _ s.consistent (e.moment m.db) p off g found'
                  (rw same_id new)));
          listed = rw a.tables (
              ground (arith, s.listed, total-set owes cs i c (grows p hits offs) at, ap owes mine));
          room =
              rw a.tables (
                ground (arith, s.room, total-set left cs i c (grows p hits offs) at, ap left mine));
          fits = s.fits;
          least_counted = rw a.cache_used_size s.least_counted;
          most_counted = rw a.cache_used_size s.most_counted;
          holds = All-set _ cs i (grows p hits offs) tt s.holds;
        })

    pub inserts :
        (p : Name) (hit : ℤ) (off : ℕ) (hits : List ℤ) (offs : List ℕ)
        → c ≡ writes p (hit ∷ hits) (off ∷ offs)
        → IsSound e bs limit least stored
            (set cs i (insert_step e p off hits offs m).0)
            (insert_step e p off hits offs m).1
    unfolding meaning
    inserts p hit off hits offs mine = elim (Option-cases (find_path p t0.files)) [
      | inl unknown ↦ refused p hit off hits offs mine (ground (arith, has_both))
      | inr (f, found) ↦ elim (Option-cases (find_block off f.file_id t0.blocks)) [
        | inl new ↦ accepted p hit off hits offs f mine found new
        | inr (b, old) ↦ refused p hit off hits offs mine (ground (arith, has_both))
      ]
    ]

    -- The `UPDATE` of the size, which settles the thread's debt.
    pub grow :
        (p : Name) (hits : List ℤ) (offs : List ℕ)
        → c ≡ grows p hits offs
        → IsSound e bs limit least stored
            (set cs i (grow_step e p hits offs m).0)
            (grow_step e p hits offs m).1
    unfolding grow_step meaning
    grow p hits offs mine =
        let g = λ (z : ℤ). z +ℤ pos bs in
        let t = record t0 { files = resize g p t0.files } in
        let st = Statement.add_local_size (to_int64 m.meta_block_size) p in
        let (ok, a) =
          perform-some e h st m t
            (ground (arith, has_both, s.meta_block_size, s.small, to_int64_small bs s.small)) in
        let owed = settle-set bs cs i c (loads p hits offs) t0.files at in
        let mine' =
          ap (λ d. settle_one bs d (settle bs (set cs i (loads p hits offs)) t0.files)) mine in
        let paid = settle-resize bs (set cs i (loads p hits offs)) p t0.files in
        rw ok (
          quiet (loads p hits offs) t _ (leaves e h t _ _ a) (ap owes mine)
            (omega (arith, ap left mine)) tt refl (rw (paid ∙ sym mine' ∙ owed) s.consistent))

    -- The counter written: the block is counted, unless another thread wrote the counter since it
    -- was read.
    pub store :
        (read : ℕ) (p : Name) (hits : List ℤ) (offs : List ℕ)
        → c ≡ stores read p hits offs
        → IsSound e bs limit least
            (suc stored)
            (set cs i (writes p hits offs))
            (store_step e read p hits offs m).1
    unfolding store_step
    store read p hits offs mine =
        let free = λ (fs : List FileRow). ap (λ d. settle_one bs d fs) mine in
        let held : Holds least (bs * stored) (stores read p hits offs) =
          subst (Holds least (bs * stored)) mine (All-get_elem? _ cs i c at s.holds) in
        let moved = total-set owes cs i c (writes p hits offs) at in
        let one_more : bs * suc stored ≡ bs * stored + bs = omega arith in
        let debt : owes c ≡ 1 = ap owes mine in
        let bound : bs * suc stored ≤ bs * limit =
          mul-le-mul_left bs (omega (arith, s.listed, s.room, moved, debt)) in
        let total : (read + m.meta_block_size) % word ≡ read + bs =
          rw s.meta_block_size (mod-eq_of_lt (omega (arith, held, bound, one_more, s.fits))) in
        record {
          meta_block_size = s.meta_block_size;
          small = s.small;
          consistent = rw (same_settled (writes p hits offs) free (λ fs. refl)) s.consistent;
          listed = omega (arith, s.listed, moved, debt);
          room = omega (arith, s.room, total-set left cs i c (writes p hits offs) at, ap left mine);
          fits = s.fits;
          least_counted = rw total (omega (arith, held));
          most_counted = rw (total, one_more) (omega (arith, held));
          holds =
              All-set _ cs i (writes p hits offs) tt
                (All-mono (Holds-mono least (omega (arith, one_more))) cs s.holds);
        }
