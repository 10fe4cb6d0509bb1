-- ===== src/Meta/Threads/View.antt =====
-- The view of the tables after any interleaving of threads in `write_blks`.
use ece566_project.Prelude.{
  get_elem?, set, All-get_elem?, ℕ, ◌≡◌, refl, ap, sym, ◌∙◌, Bool, true, ◌&&◌, ◌||◌, ◌==◌, none,
  some, List, [], ◌∷◌, ◌++◌, arith, length-append, Name, same, eq_of_same, Option-cases, Bool-cases,
  inl, inr,
}
use mathlib.Core.Path.{subst}
use ece566_project.Prelude.Int.{ℤ, ◌+ℤ◌, to_int64}
use ece566_project.Sql.{FileRow, Tables, Statement, meaning, find_path, find_block, resize}
use ece566_project.Sql.Cached.{cached, cached-add_block}
use ece566_project.Sql.Catalog.{new_block, add_block, refresh_block}
use ece566_project.Sql.Engine.{Engine, IsHealthy}
use ece566_project.Meta.{Meta, truthy, is_blk_in_cache, update_blk_time}
use ece566_project.Meta.Effects.{perform-some, perform-none}
use ece566_project.Meta.Threads.{
  Thread, asks, writes, grows, loads, stores, returned, ask_step, insert_step, write_step,
  grow_step, store_step, advance,
}
use ece566_project.Meta.Threads.Pending.{settle, settle-id, settle-found, find_path-resize_id}
use ece566_project.Meta.Threads.Sound.{IsSound, settled, query_leaves}
use ece566_project.Meta.Threads.Todo.{
  IsAnswered, Extends, Truthful-mono, Truthful-append, todo, IsOnWay, set-IsOnWay, cached-id_of,
}
use ece566_project.Meta.Threads.Same.{
  SameView, same_view, resize-SameView, refresh-SameView, query_right,
}

module _ (e : Engine) (h : IsHealthy e) where
  open e use {Db, tables}

  module _ (bs limit least stored : ℕ) (cs : List Thread) (m : Meta Db)
      (s : IsSound e bs limit least stored cs m) (k : Name → Bool) (final : Name → ℕ → Bool)
      (w : IsOnWay k final cs (tables m.db)) (i : ℕ) (c : Thread)
      (at : get_elem? cs i ≡ some c) where
    abbrev t0 : Tables
    t0 = tables m.db

    mine : IsAnswered t0 c
    mine = All-get_elem? _ cs i c at w.answered

    has_both : (t0.has_files ≡ true) × (t0.has_blocks ≡ true)
    has_both = (s.consistent.has_files, s.consistent.has_blocks)

    -- A step that changes nothing that is known or cached.
    keeps_view :
        (c' : Thread) (t' : Tables)
        → SameView t0 t'
        → IsAnswered t' c'
        → ((q : Name) (o : ℕ) → (cached t0 q o || todo k c q o) ≡ (cached t0 q o || todo k c' q o))
        → IsOnWay k final (set cs i c') t'
    keeps_view c' t' l sane same_todo =
        set-IsOnWay k final cs t0 t' i c c' w at l.known_kept
          (λ q o listed. l.cached_kept q o ∙ listed) sane
          (λ q o. rw (l.cached_kept q o) (same_todo q o))

    touch-SameView : (p : Name) (off : ℕ) → SameView t0 (tables (update_blk_time e p off m).1.db)
    unfolding update_blk_time meaning
    touch-SameView p off =
        let st = Statement.touch_datablock off p in
        elim (Option-cases (find_path p t0.files)) [
          | inl unknown ↦
              let a = (perform-some e h st m t0 (ground (arith, has_both))).1 in
              rw a.tables (same_view t0)
          | inr (f, found) ↦
              let t = refresh_block (e.moment m.db).now off f.file_id t0 in
              let a = (perform-some e h st m t (ground (arith, has_both))).1 in
              rw a.tables (refresh-SameView (e.moment m.db).now off f.file_id t0)
        ]

    -- A block that is inserted.
    cached_new :
        (p : Name) (off : ℕ) (f : FileRow)
        → find_path p t0.files ≡ some f
        → (q : Name) (o : ℕ)
        → cached (record t0 { blocks = new_block (e.moment m.db) off f.file_id ∷ t0.blocks }) q o
          ≡ (cached t0 q o || (same q p && o == off))
    cached_new p off f found q o =
        let (g, found', same_id) = settle-found bs cs p t0.files f found in
        let mo = e.moment m.db in
        cached-id_of _ (add_block mo bs p off g.file_id (settled bs cs t0)) q o
          (sym (find_path-resize_id _ p q (settle bs cs t0.files) ∙ settle-id bs cs q t0.files))
          (ap (λ j. new_block mo off j ∷ t0.blocks) (sym same_id))
        ∙ cached-add_block _ _ s.consistent p q o mo off g found'
        ∙ ap (λ b. b || (same q p && o == off))
            (cached-id_of (settled bs cs t0) t0 q o (settle-id bs cs q t0.files) refl)

    -- An `INSERT` that is refused lists nothing: the file is not known, or the block is listed.
    refused_view :
        (p : Name) (hit : ℤ) (off : ℕ) (hits : List ℤ) (offs : List ℕ)
        → c ≡ writes p (hit ∷ hits) (off ∷ offs)
        → meaning (e.moment m.db) (Statement.insert_datablock off p) t0 ≡ none
        → (k p ≡ true → cached t0 p off ≡ true)
        → IsOnWay k final
            (set cs i (insert_step e p off hits offs m).0)
            (tables (insert_step e p off hits offs m).1.db)
    unfolding insert_step
    refused_view p hit off hits offs same no_meaning listed =
        let (fails, a) = perform-none e h (Statement.insert_datablock off p) m no_meaning in
        let sane = subst (IsAnswered t0) same mine in
        rw (fails, a.tables)
          (keeps_view (writes p hits offs) t0 (same_view t0) (sane.0.1, omega (arith, sane.1))
            (λ q o. rw same (ground (arith, listed, eq_of_same q p))))

    accepted_view :
        (p : Name) (hit : ℤ) (off : ℕ) (hits : List ℤ) (offs : List ℕ) (f : FileRow)
        → c ≡ writes p (hit ∷ hits) (off ∷ offs)
        → find_path p t0.files ≡ some f
        → find_block off f.file_id t0.blocks ≡ none
        → IsOnWay k final
            (set cs i (insert_step e p off hits offs m).0)
            (tables (insert_step e p off hits offs m).1.db)
    unfolding insert_step meaning
    accepted_view p hit off hits offs f same found new =
        let st = Statement.insert_datablock off p in
        let t = record t0 { blocks = new_block (e.moment m.db) off f.file_id ∷ t0.blocks } in
        let (ok, a) = perform-some e h st m t (ground (arith, has_both)) in
        let sane = subst (IsAnswered t0) same mine in
        let lists = cached_new p off f found in
        let x : Extends t0 t = λ q o listed. ground (arith, lists q o) in
        rw (ok, a.tables)
          (set-IsOnWay k final cs t0 t i c (grows p hits offs) w at (λ q. refl) x
            (Truthful-mono t0 t x p hits offs sane.0.1, omega (arith, sane.1))
            (λ q o. rw same (ground (arith, lists q o, w.knows p))))

    inserts_view :
        (p : Name) (hit : ℤ) (off : ℕ) (hits : List ℤ) (offs : List ℕ)
        → c ≡ writes p (hit ∷ hits) (off ∷ offs)
        → IsOnWay k final
            (set cs i (insert_step e p off hits offs m).0)
            (tables (insert_step e p off hits offs m).1.db)
    unfolding meaning cached
    inserts_view p hit off hits offs same = elim (Option-cases (find_path p t0.files)) [
      | inl unknown ↦
          refused_view p hit off hits offs same (ground (arith, has_both))
            (λ knows. absurd (ground (arith, w.knows p)))
      | inr (f, found) ↦ elim (Option-cases (find_block off f.file_id t0.blocks)) [
        | inl new ↦ accepted_view p hit off hits offs f same found new
        | inr (b, old) ↦
            refused_view p hit off hits offs same (ground (arith, has_both)) (λ knows. ground arith)
      ]
    ]

    grow_view :
        (p : Name) (hits : List ℤ) (offs : List ℕ)
        → c ≡ grows p hits offs
        → IsOnWay k final
            (set cs i (grow_step e p hits offs m).0)
            (tables (grow_step e p hits offs m).1.db)
    unfolding grow_step meaning
    grow_view p hits offs same =
        let t = record t0 { files = resize (λ z. z +ℤ to_int64 m.meta_block_size) p t0.files } in
        let st = Statement.add_local_size (to_int64 m.meta_block_size) p in
        let (ok, a) = perform-some e h st m t (ground (arith, has_both)) in
        let sane = subst (IsAnswered t0) same mine in
        let l = resize-SameView (λ z. z +ℤ to_int64 m.meta_block_size) p t0 in
        let x : Extends t0 t = λ q o listed. l.cached_kept q o ∙ listed in
        rw (ok, a.tables)
          (keeps_view (loads p hits offs) t l (Truthful-mono t0 t x p hits offs sane.0, sane.1)
            (λ q o. rw same refl))

  module _ (bs limit least stored : ℕ) (cs : List Thread) (m : Meta Db)
      (s : IsSound e bs limit least stored cs m) (k : Name → Bool) (final : Name → ℕ → Bool)
      (w : IsOnWay k final cs (tables m.db)) (i : ℕ) where
    abbrev t : Tables
    t = tables m.db

    abbrev Viewed : Thread × Meta Db → Type 0
    Viewed r = IsOnWay k final (set cs i r.0) (tables r.1.db)

    pub advance-IsOnWay : (c : Thread) → get_elem? cs i ≡ some c → Viewed (advance e c m)
    unfolding advance ask_step write_step store_step
    advance-IsOnWay (asks p [] hits offs) at =
        let a : IsAnswered t (asks p [] hits offs) = All-get_elem? _ cs i _ at w.answered in
        keeps_view _ _ _ _ cs m s k final w i _ at (writes p hits offs) t (same_view t)
          (a.0, omega (arith, a.2)) (λ q o. refl)
    advance-IsOnWay (asks p (off ∷ rest) hits offs) at =
        let a : IsAnswered t (asks p (off ∷ rest) hits offs) =
          All-get_elem? _ cs i _ at w.answered in
        let hit = (is_blk_in_cache e p off m).0 in
        let right = query_right e h p off m s.consistent.has_files s.consistent.has_blocks in
        let more = Truthful-append t p hit off rest offs hits a.1 a.0 right in
        rw (query_leaves e h p off m).tables (
          keeps_view _ _ _ _ cs m s k final w i _ at (asks p rest (hits ++ hit ∷ []) offs) t
            (same_view t) (more.0, more.1, omega (arith, a.2, length-append hits (hit ∷ [])))
            (λ q o. refl))
    advance-IsOnWay (writes p [] []) at =
        keeps_view _ _ _ _ cs m s k final w i _ at returned t (same_view t) tt (λ q o. ground arith)
    advance-IsOnWay (writes p [] (off ∷ offs)) at =
        let a : IsAnswered t (writes p [] (off ∷ offs)) = All-get_elem? _ cs i _ at w.answered in
        absurd (omega (arith, a.1))
    advance-IsOnWay (writes p (hit ∷ hits) []) at =
        keeps_view _ _ _ _ cs m s k final w i _ at returned t (same_view t) tt (λ q o. ground arith)
    advance-IsOnWay (writes p (hit ∷ hits) (off ∷ offs)) at =
        let a : IsAnswered t (writes p (hit ∷ hits) (off ∷ offs)) =
          All-get_elem? _ cs i _ at w.answered in
        elim (Bool-cases (truthy hit)) [
          | inl is_hit ↦
              let t' = tables (update_blk_time e p off m).1.db in
              let l = touch-SameView _ _ _ _ cs m s k final w i _ at p off in
              let listed = a.0.0 is_hit in
              let kept =
                Truthful-mono t t' (λ q o there. l.cached_kept q o ∙ there) p hits offs a.0.1 in
              rw is_hit (
                keeps_view _ _ _ _ cs m s k final w i _ at (writes p hits offs) t' l
                  (kept, omega (arith, a.1)) (λ q o. ground (arith, listed, eq_of_same q p)))
          | inr missing ↦
              rw missing (inserts_view _ _ _ _ cs m s k final w i _ at p hit off hits offs refl)
        ]
    advance-IsOnWay (grows p hits offs) at =
        grow_view _ _ _ _ cs m s k final w i _ at p hits offs refl
    advance-IsOnWay (loads p hits offs) at =
        let a : IsAnswered t (loads p hits offs) = All-get_elem? _ cs i _ at w.answered in
        keeps_view _ _ _ _ cs m s k final w i _ at (stores m.cache_used_size p hits offs) t
          (same_view t) a (λ q o. refl)
    advance-IsOnWay (stores read p hits offs) at =
        let a : IsAnswered t (loads p hits offs) = All-get_elem? _ cs i _ at w.answered in
        keeps_view _ _ _ _ cs m s k final w i _ at (writes p hits offs) t (same_view t) a
          (λ q o. refl)
    advance-IsOnWay returned at =
        keeps_view _ _ _ _ cs m s k final w i _ at returned t (same_view t) tt (λ q o. refl)
