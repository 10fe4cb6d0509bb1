-- ===== src/Meta/Threads/Bounds.antt =====
-- Any interleaving of threads in `write_blks`: what the tables and the counter of meta.c still promise.
use ece566_project.Prelude.{
  get_elem?, set, ℕ, zero, suc, ◌+◌, ◌*◌, ◌≤◌, ◌<◌, ◌≡◌, refl, ap, ◌∙◌, none, some, List, [], ◌∷◌,
  arith, map, All, length, Name, Option-cases, inl, inr,
}
use mathlib.Core.Path.{subst}
use native.Mathlib.Nat.{mod-eq_of_lt, mul-le-mul_left}
use ece566_project.Prelude.Int.{word}
use ece566_project.Sql.{FileRow}
use ece566_project.Sql.Catalog.{IsConsistent}
use ece566_project.Sql.Engine.{Engine, IsHealthy}
use ece566_project.Meta.{Meta}
use ece566_project.Meta.Invariant.{IsValid}
use ece566_project.Meta.Threads.{Thread, call, advance, turn, interleave}
use ece566_project.Meta.Threads.Pending.{owes, left, total, settle, HasReturned, settle-returned}
use ece566_project.Meta.Threads.Advance.{advance-IsSound}
use ece566_project.Meta.Threads.Sound.{Holds, IsSound}

-- A call of `write_blks` with its file name and its offsets.
abbrev pub Job : Type 0
Job = Name × List ℕ

abbrev pub calls : List Job → List Thread
calls = map (λ j. call j.0 j.1)

abbrev pub asked : List Job → ℕ
asked [] = 0
asked (j ∷ js) = length j.1 + asked js

module _ (e : Engine) where
  open e use {Db}

  pub turn-some :
      (i : ℕ) (cs : List Thread) (m : Meta Db) (c : Thread)
      → get_elem? cs i ≡ some c
      → turn e i (cs, m) ≡ (set cs i (advance e c m).0, (advance e c m).1)
  unfolding turn
  turn-some i [] m c at = absurd (cc)
  turn-some zero (d ∷ cs) m c at = let same : d ≡ c = cc in rw same refl
  turn-some (suc i) (d ∷ cs) m c at = ap (λ r. (d ∷ r.0, r.1)) (turn-some i cs m c at)

  pub turn-none :
      (i : ℕ) (cs : List Thread) (m : Meta Db) → get_elem? cs i ≡ none → turn e i (cs, m) ≡ (cs, m)
  unfolding turn
  turn-none i [] m at = refl
  turn-none zero (d ∷ cs) m at = absurd (cc)
  turn-none (suc i) (d ∷ cs) m at = ap (λ r. (d ∷ r.0, r.1)) (turn-none i cs m at)

settle-calls : (bs : ℕ) (js : List Job) (fs : List FileRow) → settle bs (calls js) fs ≡ fs
unfolding settle
settle-calls bs [] fs = refl
settle-calls bs (j ∷ js) fs = settle-calls bs js fs

owes-calls : (js : List Job) → total owes (calls js) ≡ 0
owes-calls [] = refl
owes-calls (j ∷ js) = omega (arith, owes-calls js)

left-calls : (js : List Job) → total left (calls js) ≡ asked js
left-calls [] = refl
left-calls (j ∷ js) = ap (λ n. length j.1 + n) (left-calls js)

Holds-calls : (least most : ℕ) (js : List Job) → All (Holds least most) (calls js)
Holds-calls least most [] = tt
Holds-calls least most (j ∷ js) = (tt, Holds-calls least most js)

module _ (e : Engine) (h : IsHealthy e) where
  open e use {Db, tables}

  module _ (bs limit least : ℕ) where
    -- The counted blocks after some steps.
    abbrev Later : List Thread × Meta Db → Type 0
    Later r = (n : ℕ) × IsSound e bs limit least n r.0 r.1

    turn-IsSound :
        (i stored : ℕ) (cs : List Thread) (m : Meta Db)
        → IsSound e bs limit least stored cs m
        → Later (turn e i (cs, m))
    turn-IsSound i stored cs m s = elim (Option-cases (get_elem? cs i)) [
      | inl none_there ↦ rw (turn-none e i cs m none_there) (stored, s)
      | inr (c, at) ↦
          rw (turn-some e i cs m c at) (advance-IsSound e h bs limit least stored cs m s i c at)
    ]

    interleave-IsSound :
        (is : List ℕ) (stored : ℕ) (cs : List Thread) (m : Meta Db)
        → IsSound e bs limit least stored cs m
        → Later (interleave e is (cs, m))
    unfolding interleave
    interleave-IsSound [] stored cs m s = (stored, s)
    interleave-IsSound (i ∷ is) stored cs m s =
        let (n, s') = turn-IsSound i stored cs m s in interleave-IsSound is n _ _ s'

  some_of_all : (n k : ℕ) → n ≤ n + k
  some_of_all n k = omega arith

  module _ (jobs : List Job) (m : Meta Db) (v : IsValid e m)
      (fits : m.meta_block_size * (length (tables m.db).blocks + asked jobs) < word) where
    counted_exactly : m.cache_used_size ≡ m.meta_block_size * length (tables m.db).blocks
    counted_exactly =
        let all =
          mul-le-mul_left m.meta_block_size
            (some_of_all (length (tables m.db).blocks) (asked jobs)) in
        v.counted ∙ mod-eq_of_lt (omega (arith, all))

    pub calls-IsSound :
        IsSound e m.meta_block_size
          (length (tables m.db).blocks + asked jobs)
          m.cache_used_size
          (length (tables m.db).blocks)
          (calls jobs)
          m
    calls-IsSound = record {
      meta_block_size = refl;
      small = v.small;
      consistent = rw (settle-calls m.meta_block_size jobs (tables m.db).files) v.consistent;
      listed = omega (arith, owes-calls jobs);
      room = omega (arith, left-calls jobs);
      fits = fits;
      least_counted = omega arith;
      most_counted = omega (arith, counted_exactly);
      holds = Holds-calls _ _ jobs;
    }

    -- At any point of any interleaving of threads in `write_blks`, the counter is at least what it
    -- was at the start and at most the size of the listed blocks. The bookkeeping is valid before,
    -- the engine does not fail, and the listed and the named blocks together fit a `size_t`.
    pub interleave_bounds :
        (schedule : List ℕ)
        → let (cs, m') = interleave e schedule (calls jobs, m) in
          (m.cache_used_size ≤ m'.cache_used_size)
          × (m'.cache_used_size ≤ m.meta_block_size * length (tables m'.db).blocks)
    interleave_bounds schedule =
        let (cs, m') = interleave e schedule (calls jobs, m) in
        let (stored, s) = interleave-IsSound _ _ _ schedule _ _ m calls-IsSound in
        let listed : stored ≤ length (tables m'.db).blocks = omega (arith, s.listed) in
        let bound = mul-le-mul_left m.meta_block_size listed in
        (s.least_counted, omega (arith, s.most_counted, bound))

    -- The tables are consistent again once all calls have returned.
    pub interleave-IsConsistent :
        (schedule : List ℕ)
        → All HasReturned (interleave e schedule (calls jobs, m)).0
        → IsConsistent m.meta_block_size (tables (interleave e schedule (calls jobs, m)).1.db)
    interleave-IsConsistent schedule returned =
        let (cs, m') = interleave e schedule (calls jobs, m) in
        let (stored, s) = interleave-IsSound _ _ _ schedule _ _ m calls-IsSound in
        subst (λ fs. IsConsistent m.meta_block_size (record (tables m'.db) { files = fs }))
          (settle-returned m.meta_block_size cs (tables m'.db).files returned) s.consistent
