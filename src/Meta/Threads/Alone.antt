-- ===== src/Meta/Threads/Alone.antt =====
-- A thread that nothing interrupts computes `write_blks`.
use ece566_project.Prelude.{
  ℕ, zero, suc, ◌+◌, ◌≡◌, refl, sym, ap, ◌∙◌, List, [], ◌∷◌, ◌++◌, arith, if◌then◌else◌, Name,
  Bool-cases, inl, inr,
}
use mathlib.Core.List.{append-nil, append_assoc}
use ece566_project.Prelude.Int.{ℤ, pos, to_int64}
use ece566_project.Sql.{Statement}
use ece566_project.Sql.Engine.{Engine}
use ece566_project.Meta.{
  Meta, truthy, perform, is_blk_in_cache, check_blocks, are_blocks_in_cache, grow_file,
  insert_block, write_blk, write_each, write_blks,
}
use ece566_project.Meta.Threads.{
  Thread, call, ask_step, insert_step, write_step, grow_step, store_step, advance, advances,
}

module _ (e : Engine) where
  open e use {Db}

  -- Some number of steps leads from one state of a thread to the other.
  record Leads (s s' : Thread × Meta Db) : Type 0 where
    steps : ℕ
    reaches : advances e steps s ≡ s'

  advances-add :
      (n k : ℕ) (s : Thread × Meta Db) → advances e (n + k) s ≡ advances e k (advances e n s)
  unfolding advances
  advances-add zero k s = ground arith
  advances-add (suc n) k (c, m) =
      let q : suc n + k ≡ suc (n + k) = omega arith in rw q (advances-add n k (advance e c m))

  then-Leads : {s s' s'' : Thread × Meta Db} → Leads s s' → Leads s' s'' → Leads s s''
  then-Leads {s} l r = record {
    steps = l.steps + r.steps;
    reaches = advances-add l.steps r.steps s ∙ ap (advances e r.steps) l.reaches ∙ r.reaches;
  }

  module _ (p : Name) where
    grows-Leads :
        (hits : List ℤ) (offs : List ℕ) (m : Meta Db)
        → Leads (Thread.grows p hits offs, m) (Thread.writes p hits offs, (grow_file e p m).1)
    unfolding advances advance grow_step store_step grow_file
    grows-Leads hits offs m =
        let s = Statement.add_local_size (to_int64 m.meta_block_size) p in
        elim (Bool-cases (perform e s m).0) [
          | inl ok ↦ record { steps = 3; reaches = ground arith }
          | inr fails ↦ record { steps = 1; reaches = ground arith }
        ]

    inserts-Leads :
        (off : ℕ) (hits : List ℤ) (offs : List ℕ) (m : Meta Db)
        → Leads
            (insert_step e p off hits offs m)
            (Thread.writes p hits offs, (insert_block e p off m).1)
    unfolding advances insert_step insert_block
    inserts-Leads off hits offs m =
        let s = Statement.insert_datablock off p in
        elim (Bool-cases (perform e s m).0) [
          | inl ok ↦ rw ok (grows-Leads hits offs (perform e s m).1)
          | inr fails ↦ rw fails (record { steps = 0; reaches = ground arith })
        ]

    round-Leads :
        (hit : ℤ) (hits : List ℤ) (off : ℕ) (offs : List ℕ) (m : Meta Db)
        → Leads
            (Thread.writes p (hit ∷ hits) (off ∷ offs), m)
            (Thread.writes p hits offs, write_blk e p hit off m)
    unfolding advances advance write_step write_blk
    round-Leads hit hits off offs m =
        let first : Leads (Thread.writes p (hit ∷ hits) (off ∷ offs), m)
            (advance e (Thread.writes p (hit ∷ hits) (off ∷ offs)) m) =
          record { steps = 1; reaches = refl } in
        elim (Bool-cases (truthy hit)) [
          | inl cached ↦ record { steps = 1; reaches = ground arith }
          | inr missing ↦ then-Leads first (rw missing (inserts-Leads off hits offs m))
        ]

    writes-Leads :
        (hits : List ℤ) (offs : List ℕ) (m : Meta Db)
        → Leads (Thread.writes p hits offs, m) (Thread.returned, write_each e p hits offs m)
    unfolding advances advance write_step write_each
    writes-Leads [] offs m = record { steps = 1; reaches = refl }
    writes-Leads (hit ∷ hits) [] m = record { steps = 1; reaches = refl }
    writes-Leads (hit ∷ hits) (off ∷ offs) m =
        then-Leads (round-Leads hit hits off offs m)
          (writes-Leads hits offs (write_blk e p hit off m))

    asks-Leads :
        (left : List ℕ) (hits : List ℤ) (offs : List ℕ) (total : ℤ) (m : Meta Db)
        → Leads
            (Thread.asks p left hits offs, m)
            (let (_, bool_arr, m1) = check_blocks e p left total m in
              (Thread.writes p (hits ++ bool_arr) offs, m1))
    unfolding advances advance ask_step check_blocks
    asks-Leads [] hits offs total m = record {
      steps = 1;
      reaches = ap (λ l. (Thread.writes p l offs, m)) (sym (append-nil hits));
    }
    asks-Leads (off ∷ left) hits offs total m =
        let (hit, m1) = is_blk_in_cache e p off m in
        let rest =
          asks-Leads left (hits ++ hit ∷ []) offs (if truthy hit then total else pos 0) m1 in
        then-Leads (record { steps = 1; reaches = refl })
          (rw
            (sym (
              append_assoc hits (hit ∷ [])
                (check_blocks e p left (if truthy hit then total else pos 0) m1).1))
            rest)

    -- A thread that nothing interrupts returns after some number of steps, with the state that
    -- `write_blks` leaves, whatever the engine answers.
    pub write_blks_alone :
        (offs : List ℕ) (m : Meta Db)
        → (n : ℕ) × (advances e n (call p offs, m) ≡ (Thread.returned, (write_blks e p offs m).1))
    unfolding write_blks are_blocks_in_cache
    write_blks_alone offs m =
        let l = then-Leads (asks-Leads offs [] offs (pos 1) m) (writes-Leads _ offs _) in
        (l.steps, l.reaches)
