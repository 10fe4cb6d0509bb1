-- ===== src/Meta/Threads/Ends.antt =====
-- Threads in `write_blks` return, each after a number of its own steps, whatever the others and the
-- engine do.
use ece566_project.Prelude.{
  ℕ, zero, suc, ◌+◌, ◌*◌, ◌≤◌, ◌<◌, ◌≡◌, refl, List, [], ◌∷◌, arith, All, length, ◌==◌,
  if◌then◌else◌,
}
use mathlib.Core.Path.{subst}
use ece566_project.Sql.Engine.{Engine}
use ece566_project.Meta.{Meta}
use ece566_project.Meta.Threads.{
  Thread, asks, writes, grows, loads, stores, returned, ask_step, insert_step, write_step,
  grow_step, store_step, advance, turn, interleave,
}
use ece566_project.Meta.Threads.Pending.{HasReturned}

-- The steps that a thread may still need: four for a block, and one to return.
abbrev pub steps_left : Thread → ℕ
steps_left (asks _ rest _ blk_arr) = length rest + 4 * length blk_arr + 2
steps_left (writes _ _ offs) = 4 * length offs + 1
steps_left (grows _ _ offs) = 4 * length offs + 4
steps_left (loads _ _ offs) = 4 * length offs + 3
steps_left (stores _ _ _ offs) = 4 * length offs + 2
steps_left returned = 0

abbrev pub count : ℕ → List ℕ → ℕ
count i [] = 0
count i (x ∷ xs) = if x == i then suc (count i xs) else count i xs

-- The threads, numbered from `b`, each have a turn for every step that they may need.
abbrev pub Enough : List ℕ → ℕ → List Thread → Type 0
Enough is b [] = Unit
Enough is b (c ∷ cs) = (steps_left c ≤ count b is) × Enough is (suc b) cs

Enough-later :
    (is : List ℕ) (x b : ℕ) (cs : List Thread) → x < b → Enough (x ∷ is) b cs → Enough is b cs
Enough-later is x b [] lt a = tt
Enough-later is x b (c ∷ cs) lt a = (ground arith, Enough-later is x (suc b) cs (omega arith) a.1)

All-returned : (b : ℕ) (cs : List Thread) → Enough [] b cs → All HasReturned cs
All-returned b [] a = tt
All-returned b (asks _ _ _ _ ∷ cs) a = absurd (omega (arith, a.0))
All-returned b (writes _ _ _ ∷ cs) a = absurd (omega (arith, a.0))
All-returned b (grows _ _ _ ∷ cs) a = absurd (omega (arith, a.0))
All-returned b (loads _ _ _ ∷ cs) a = absurd (omega (arith, a.0))
All-returned b (stores _ _ _ _ ∷ cs) a = absurd (omega (arith, a.0))
All-returned b (returned ∷ cs) a = (refl, All-returned (suc b) cs a.1)

module _ (e : Engine) where
  open e use {Db}

  fewer_left :
      (c : Thread) (m : Meta Db) (n : ℕ) → steps_left c ≤ suc n → steps_left (advance e c m).0 ≤ n
  unfolding advance ask_step write_step insert_step grow_step store_step
  fewer_left (asks p [] hits offs) m n le = omega arith
  fewer_left (asks p (off ∷ rest) hits offs) m n le = omega arith
  fewer_left (writes p [] offs) m n le = omega arith
  fewer_left (writes p (hit ∷ hits) []) m n le = omega arith
  fewer_left (writes p (hit ∷ hits) (off ∷ offs)) m n le = ground arith
  fewer_left (grows p hits offs) m n le = ground arith
  fewer_left (loads p hits offs) m n le = omega arith
  fewer_left (stores read p hits offs) m n le = omega arith
  fewer_left returned m n le = omega arith

  Enough-turn :
      (is : List ℕ) (b j : ℕ) (cs : List Thread) (m : Meta Db)
      → Enough ((b + j) ∷ is) b cs
      → Enough is b (turn e j (cs, m)).0
  unfolding turn
  Enough-turn is b j [] m a = tt
  Enough-turn is b zero (c ∷ cs) m a = (
    fewer_left c m (count b is) (ground arith),
    Enough-later is (b + 0) (suc b) cs (omega arith) a.1,
  )
  Enough-turn is b (suc j) (c ∷ cs) m a =
      let shift : b + suc j ≡ suc b + j = omega arith in
      (
        ground arith,
        Enough-turn is (suc b) j cs m (subst (λ x. Enough (x ∷ is) (suc b) cs) shift a.1),
      )

  pub interleave-returns :
      (is : List ℕ) (cs : List Thread) (m : Meta Db)
      → Enough is 0 cs
      → All HasReturned (interleave e is (cs, m)).0
  unfolding interleave
  interleave-returns [] cs m a = All-returned 0 cs a
  interleave-returns (i ∷ is) cs m a =
      let zero_plus : i ≡ 0 + i = omega arith in
      let (cs', m') = turn e i (cs, m) in
      interleave-returns is cs' m'
        (Enough-turn is 0 i cs m (subst (λ x. Enough (x ∷ is) 0 cs) zero_plus a))
