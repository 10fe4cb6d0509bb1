-- ===== src/Meta/Threads/Sound.antt =====
-- What holds of the tables and the counter of meta.c at any point of an interleaving of threads in
-- `write_blks`: the tables are consistent but for the sizes that threads still have to add, and the
-- counter is between where it was and what the threads have counted.
use ece566_project.Prelude.{
  ℕ, ◌+◌, ◌*◌, ◌≤◌, ◌<◌, ◌^◌, ◌≡◌, List, arith, All, length, Name, Bool-cases, inl, inr,
}
use ece566_project.Prelude.Int.{word}
use ece566_project.Sql.{Tables, Statement, meaning}
use ece566_project.Sql.Catalog.{IsConsistent}
use ece566_project.Sql.Engine.{Engine, IsHealthy}
use ece566_project.Meta.{Meta, probe, prepare, finalize, is_blk_in_cache}
use ece566_project.Meta.Effects.{After}
use ece566_project.Meta.Threads.{Thread, asks, writes, grows, loads, stores, returned}
use ece566_project.Meta.Threads.Pending.{owes, left, total, settle}

-- A value that a thread has read is between the two numbers.
abbrev pub Holds : ℕ → ℕ → Thread → Type 0
Holds least most (asks _ _ _ _) = Unit
Holds least most (writes _ _ _) = Unit
Holds least most (grows _ _ _) = Unit
Holds least most (loads _ _ _) = Unit
Holds least most (stores read _ _ _) = (least ≤ read) × (read ≤ most)
Holds least most returned = Unit

pub Holds-mono :
    (least : ℕ) {most most' : ℕ}
    → most ≤ most'
    → (c : Thread) → Holds least most c
    → Holds least most' c
Holds-mono least le (asks _ _ _ _) h = tt
Holds-mono least le (writes _ _ _) h = tt
Holds-mono least le (grows _ _ _) h = tt
Holds-mono least le (loads _ _ _) h = tt
Holds-mono least le (stores _ _ _ _) h = (h.0, omega (arith, h.1))
Holds-mono least le returned h = tt

-- The tables once every thread has made its `UPDATE`.
abbrev pub settled : ℕ → List Thread → Tables → Tables
settled bs cs t = record t { files = settle bs cs t.files }

-- Of the listed blocks, `stored` are those whose thread has written the counter, or that were
-- there before.
pub record IsSound (e : Engine) (bs limit least stored : ℕ) (cs : List Thread) (m : Meta e.Db)
    : Type 0 where
  pub meta_block_size : m.meta_block_size ≡ bs
  pub small : bs < 2 ^ 63
  pub consistent : IsConsistent bs (settled bs cs (e.tables m.db))
  pub listed : length (e.tables m.db).blocks ≡ stored + total owes cs
  pub room : length (e.tables m.db).blocks + total left cs ≤ limit
  pub fits : bs * limit < word
  pub least_counted : least ≤ m.cache_used_size
  pub most_counted : m.cache_used_size ≤ bs * stored
  pub holds : All (Holds least (bs * stored)) cs

-- From `m` to `m'` the tables become `t`; the counter and the block size are kept.
pub record Leaves (e : Engine) (t : Tables) (m m' : Meta e.Db) : Type 0 where
  pub tables : e.tables m'.db ≡ t
  pub cache_used_size : m'.cache_used_size ≡ m.cache_used_size
  pub meta_block_size : m'.meta_block_size ≡ m.meta_block_size

module _ (e : Engine) (h : IsHealthy e) where
  open e use {Db, tables}

  pub leaves :
      (t : Tables) (m m' : Meta Db) {n : ℕ} → After e m t m.cache_used_size n m' → Leaves e t m m'
  leaves t m m' a = record {
    tables = a.tables;
    cache_used_size = a.cache_used_size;
    meta_block_size = a.meta_block_size;
  }

  pub query_leaves :
      (p : Name) (off : ℕ) (m : Meta Db) → Leaves e (tables m.db) m (is_blk_in_cache e p off m).1
  unfolding is_blk_in_cache probe prepare finalize meaning
  query_leaves p off m =
      let s = Statement.select_block_id off p in
      elim (Bool-cases (e.run s m.db).0.is_done) [
        | inl done ↦ ground (arith, h.lawful.explained s m.db)
        | inr failed ↦ ground (arith, h.lawful.explained s m.db)
      ]
