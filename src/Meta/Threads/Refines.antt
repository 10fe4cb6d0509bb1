-- ===== src/Meta/Threads/Refines.antt =====
-- Threads in `write_blks` against the abstract calls on the view of the tables, one after the other.
use ece566_project.Prelude.{
  get_elem?, ℕ, ◌+◌, ◌*◌, ◌<◌, ◌≡◌, refl, sym, ◌∙◌, Bool, false, ◌||◌, List, [], ◌∷◌, map, arith,
  All, length, Name, Option-cases, inl, inr,
}
use ece566_project.Prelude.Int.{word}
use ece566_project.Sql.Catalog.{IsConsistent}
use ece566_project.Sql.Engine.{Engine, IsHealthy}
use ece566_project.Meta.{Meta}
use ece566_project.Meta.Invariant.{IsValid}
use ece566_project.Meta.Updates.{View, view, view_ext, Update, abstract_update, abstract_updates}
use ece566_project.Meta.Threads.{Thread, turn, interleave}
use ece566_project.Meta.Threads.Pending.{HasReturned}
use ece566_project.Meta.Threads.Advance.{advance-IsSound}
use ece566_project.Meta.Threads.Sound.{IsSound}
use ece566_project.Meta.Threads.Bounds.{
  Job, calls, asked, turn-some, turn-none, calls-IsSound, interleave-IsConsistent,
}
use ece566_project.Meta.Threads.Ends.{Enough, interleave-returns}
use ece566_project.Meta.Threads.Todo.{IsAnswered, any_todo, IsOnWay}
use ece566_project.Meta.Threads.View.{advance-IsOnWay}

-- The abstract calls.
abbrev pub writes_of : List Job → List Update
writes_of = map (λ j. Update.write j.0 j.1)

writes_of-known :
    (jobs : List Job) (v : View) (q : Name)
    → (abstract_updates (writes_of jobs) v).is_known q ≡ v.is_known q
unfolding abstract_updates abstract_update
writes_of-known [] v q = refl
writes_of-known (j ∷ jobs) v q = writes_of-known jobs (abstract_update (Update.write j.0 j.1) v) q

writes_of-cached :
    (jobs : List Job) (v : View) (q : Name) (o : ℕ)
    → (v.is_cached q o || any_todo v.is_known (calls jobs) q o)
      ≡ (abstract_updates (writes_of jobs) v).is_cached q o
unfolding abstract_updates abstract_update
writes_of-cached [] v q o = ground arith
writes_of-cached (j ∷ jobs) v q o =
    ground (arith, writes_of-cached jobs (abstract_update (Update.write j.0 j.1) v) q o)

any_todo-returned :
    (k : Name → Bool) (cs : List Thread) (q : Name) (o : ℕ)
    → All HasReturned cs
    → any_todo k cs q o ≡ false
any_todo-returned k [] q o a = refl
any_todo-returned k (c ∷ cs) q o a = rw a.0 (any_todo-returned k cs q o a.1)

module _ (e : Engine) (h : IsHealthy e) where
  open e use {Db, tables}

  module _ (bs limit least : ℕ) (k : Name → Bool) (final : Name → ℕ → Bool) where
    abbrev Later : List Thread × Meta Db → Type 0
    Later r = (n : ℕ) × IsSound e bs limit least n r.0 r.1 × IsOnWay k final r.0 (tables r.1.db)

    turn-IsOnWay :
        (i stored : ℕ) (cs : List Thread) (m : Meta Db)
        → IsSound e bs limit least stored cs m
        → IsOnWay k final cs (tables m.db)
        → Later (turn e i (cs, m))
    turn-IsOnWay i stored cs m s w = elim (Option-cases (get_elem? cs i)) [
      | inl none_there ↦ rw (turn-none e i cs m none_there) (stored, s, w)
      | inr (c, at) ↦
          let (n, s') = advance-IsSound e h bs limit least stored cs m s i c at in
          let w' = advance-IsOnWay e h bs limit least stored cs m s k final w i c at in
          rw (turn-some e i cs m c at) (n, s', w')
    ]

    interleave-IsOnWay :
        (is : List ℕ) (stored : ℕ) (cs : List Thread) (m : Meta Db)
        → IsSound e bs limit least stored cs m
        → IsOnWay k final cs (tables m.db)
        → Later (interleave e is (cs, m))
    unfolding interleave
    interleave-IsOnWay [] stored cs m s w = (stored, s, w)
    interleave-IsOnWay (i ∷ is) stored cs m s w =
        let (n, s', w') = turn-IsOnWay i stored cs m s w in interleave-IsOnWay is n _ _ s' w'

  module _ (jobs : List Job) (m : Meta Db) (v : IsValid e m)
      (fits : m.meta_block_size * (length (tables m.db).blocks + asked jobs) < word) where
    calls-IsAnswered : (js : List Job) → All (IsAnswered (tables m.db)) (calls js)
    calls-IsAnswered [] = tt
    calls-IsAnswered (j ∷ js) = ((tt, refl, omega arith), calls-IsAnswered js)

    -- Threads that run `write_blks` at the same time, whatever files and blocks they name and in
    -- whatever order they are scheduled, have all returned after a schedule with enough turns for
    -- each; the known paths and the cached offsets are then those after the abstract calls, one
    -- after the other, and the tables are consistent. The bookkeeping is valid before, the engine
    -- does not fail, and the listed and the named blocks together fit a `size_t`.
    pub interleave-view :
        (schedule : List ℕ)
        → Enough schedule 0 (calls jobs)
        → let (cs, m') = interleave e schedule (calls jobs, m) in
          All HasReturned cs
          × (view (tables m'.db) ≡ abstract_updates (writes_of jobs) (view (tables m.db)))
          × IsConsistent m.meta_block_size (tables m'.db)
    interleave-view schedule enough =
        let returned = interleave-returns e schedule (calls jobs) m enough in
        let v0 = view (tables m.db) in
        let last = abstract_updates (writes_of jobs) v0 in
        let (n, s, w) =
          interleave-IsOnWay _ _ _ v0.is_known last.is_cached schedule _ _ m
            (calls-IsSound e h jobs m v fits)
            (record {
              knows = λ q. refl;
              lists = writes_of-cached jobs v0;
              answered = calls-IsAnswered jobs;
            }) in
        let cs = (interleave e schedule (calls jobs, m)).0 in
        (
          returned,
          view_ext _ _ (λ q. w.knows q ∙ sym (writes_of-known jobs v0 q))
              (λ q o. ground (arith, w.lists q o, any_todo-returned v0.is_known cs q o returned)),
          interleave-IsConsistent e h jobs m v fits schedule returned,
        )
