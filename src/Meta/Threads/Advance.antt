-- ===== src/Meta/Threads/Advance.antt =====
-- A step of any thread in `write_blks` leaves the tables and the counter sound.
use ece566_project.Prelude.{
  get_elem?, set, ℕ, ◌*◌, ◌≡◌, refl, some, List, [], ◌∷◌, ◌++◌, arith, Bool-cases, inl, inr,
}
use ece566_project.Sql.Engine.{Engine, IsHealthy}
use ece566_project.Meta.{Meta, truthy, is_blk_in_cache}
use ece566_project.Meta.Threads.{
  Thread, asks, writes, grows, loads, stores, returned, ask_step, write_step, store_step, advance,
}
use ece566_project.Meta.Threads.Sound.{Holds, IsSound, Leaves, query_leaves}
use ece566_project.Meta.Threads.Steps.{idle, touches, inserts, grow, store}

module _ (e : Engine) (h : IsHealthy e) where
  open e use {Db, tables}

  -- A step of any thread.
  module _ (bs limit least stored : ℕ) (cs : List Thread) (m : Meta Db)
      (s : IsSound e bs limit least stored cs m) (i : ℕ) where
    abbrev Stepped : Thread × Meta Db → Type 0
    Stepped r = (n : ℕ) × IsSound e bs limit least n (set cs i r.0) r.1

    same : Leaves e (tables m.db) m m
    same = record { tables = refl; cache_used_size = refl; meta_block_size = refl }

    pub advance-IsSound : (c : Thread) → get_elem? cs i ≡ some c → Stepped (advance e c m)
    unfolding advance ask_step write_step store_step
    advance-IsSound (asks p [] hits offs) at =
        let c' = writes p hits offs in
        (
          _,
          idle e h _ _ _ _ cs m s i _ at c' m same refl (omega arith) tt (λ fs. refl) (λ fs. refl),
        )
    advance-IsSound (asks p (off ∷ rest) hits offs) at =
        let c' = asks p rest (hits ++ (is_blk_in_cache e p off m).0 ∷ []) offs in
        let l = query_leaves e h p off m in
        (_, idle e h _ _ _ _ cs m s i _ at c' _ l refl (omega arith) tt (λ fs. refl) (λ fs. refl))
    advance-IsSound (writes p [] offs) at =
        (_, idle e h _ _ _ _ cs m s i _ at _ m same refl (omega arith) tt (λ fs. refl) (λ fs. refl))
    advance-IsSound (writes p (hit ∷ hits) []) at =
        (_, idle e h _ _ _ _ cs m s i _ at _ m same refl (omega arith) tt (λ fs. refl) (λ fs. refl))
    advance-IsSound (writes p (hit ∷ hits) (off ∷ offs)) at = elim (Bool-cases (truthy hit)) [
      | inl cached ↦ rw cached (
        _,
        touches e h _ _ _ _ cs m s i _ at p off (writes p hits offs) refl (omega arith) tt
            (λ fs. refl) (λ fs. refl),
      )
      | inr missing ↦ rw missing (_, inserts e h _ _ _ _ cs m s i _ at p hit off hits offs refl)
    ]
    advance-IsSound (grows p hits offs) at = (_, grow e h _ _ _ _ cs m s i _ at p hits offs refl)
    advance-IsSound (loads p hits offs) at =
        let c' = stores m.cache_used_size p hits offs in
        let read : Holds least (bs * stored) c' = (s.least_counted, s.most_counted) in
        (
          _,
          idle e h _ _ _ _ cs m s i _ at c' m same refl (omega arith) read (λ fs. refl)
              (λ fs. refl),
        )
    advance-IsSound (stores read p hits offs) at =
        (_, store e h _ _ _ _ cs m s i _ at read p hits offs refl)
    advance-IsSound returned at =
        (_, idle e h _ _ _ _ cs m s i _ at _ m same refl (omega arith) tt (λ fs. refl) (λ fs. refl))
