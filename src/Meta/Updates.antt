-- ===== src/Meta/Updates.antt =====
-- The database of meta.c as what its callers rely on: a set of known paths, and a set of cached block
-- offsets for each. Row ids, sizes, time stamps, the counter and failures are forgotten.
use ece566_project.Prelude.{
  ℕ, ◌≡◌, refl, ap, ◌∙◌, Bool, true, not, ◌&&◌, ◌||◌, List, [], ◌∷◌, ◌==◌, Name, same,
}
use ece566_project.Sql.{Tables}
use ece566_project.Sql.Cached.{cached, known}
use ece566_project.Sql.Engine.{Engine, IsHealthy}
use ece566_project.Meta.{
  Meta, create_file, insert_block, delete_file, is_file_in_cache, is_blk_in_cache,
  are_blocks_in_cache, update_blk_time, write_blks,
}
use ece566_project.Meta.Files.{
  delete_any-cached, delete_any-known, known-IsValid, is_file_in_cache-known, create_file-cached,
  create_file-known,
}
use ece566_project.Meta.Invariant.{
  IsValid, create_file-IsValid, insert_block-IsValid, is_file_in_cache-IsValid,
  is_blk_in_cache-IsValid, are_blocks_in_cache-IsValid, update_blk_time-IsValid, write_blks-IsValid,
}
use ece566_project.Meta.Lookups.{
  insert_block-cached, insert_block-known, update_blk_time-cached, update_blk_time-known,
  is_blk_in_cache-cached,
}
use ece566_project.Meta.Lookups.Ranges.{
  member, are_blocks_in_cache-cached, write_blks-cached, write_blks-known,
}

pub record View : Type 0 where
  pub is_known : Name → Bool
  pub is_cached : Name → ℕ → Bool

abbrev pub view : Tables → View
view t = record { is_known = λ q. known t q; is_cached = λ q o. cached t q o }

-- A call of one of the functions of meta.c that the callbacks use.
pub data Update : Type 0 where
  create : Name → ℕ → Update
  insert : Name → ℕ → Update
  write : Name → List ℕ → Update
  delete : Name → Update
  touch : Name → ℕ → Update
  query_file : Name → Update
  query_block : Name → ℕ → Update
  query_blocks : Name → List ℕ → Update

unfoldable pub update : (e : Engine) → Update → Meta e.Db → Meta e.Db
update e (Update.create p n) m = (create_file e p n m).1
update e (Update.insert p o) m = (insert_block e p o m).1
update e (Update.write p offs) m = (write_blks e p offs m).1
update e (Update.delete p) m = (delete_file e p m).1
update e (Update.touch p o) m = (update_blk_time e p o m).1
update e (Update.query_file p) m = (is_file_in_cache e p m).1
update e (Update.query_block p o) m = (is_blk_in_cache e p o m).1
update e (Update.query_blocks p offs) m = (are_blocks_in_cache e p offs m).2

-- The same call on the view.
abbrev pub add_blocks : Name → (ℕ → Bool) → View → View
add_blocks p is_new v = record v {
  is_cached = λ q o. v.is_cached q o || (v.is_known p && (same q p && is_new o));
}

unfoldable pub abstract_update : Update → View → View
abstract_update (Update.create p n) v = record v { is_known = λ q. v.is_known q || same q p }
abstract_update (Update.insert p off) v = add_blocks p (λ o. o == off) v
abstract_update (Update.write p offs) v = add_blocks p (λ o. member o offs) v
abstract_update (Update.delete p) v = record {
  is_known = λ q. v.is_known q && not (same q p);
  is_cached = λ q o. v.is_cached q o && not (same q p);
}
abstract_update (Update.touch p o) v = v
abstract_update (Update.query_file p) v = v
abstract_update (Update.query_block p o) v = v
abstract_update (Update.query_blocks p offs) v = v

unfoldable pub updates : (e : Engine) → List Update → Meta e.Db → Meta e.Db
updates e [] m = m
updates e (u ∷ us) m = updates e us (update e u m)

unfoldable pub abstract_updates : List Update → View → View
abstract_updates [] v = v
abstract_updates (u ∷ us) v = abstract_updates us (abstract_update u v)

-- SQLite leaves open what `delete_file` reads as the size of a file that has no row: it is called for
-- a known one.
unfoldable pub IsDefined : Update → View → Type 0
IsDefined (Update.delete p) v = v.is_known p ≡ true
IsDefined _ v = Unit

unfoldable pub AreDefined : List Update → View → Type 0
AreDefined [] v = Unit
AreDefined (u ∷ us) v = IsDefined u v × AreDefined us (abstract_update u v)

pub view_ext :
    (v w : View)
    → ((q : Name) → v.is_known q ≡ w.is_known q)
    → ((q : Name) (o : ℕ) → v.is_cached q o ≡ w.is_cached q o)
    → v ≡ w
view_ext v w k c i = record { is_known = λ q. k q i; is_cached = λ q o. c q o i }

module _ (e : Engine) (h : IsHealthy e) where
  update-IsValid :
      (u : Update) (m : Meta e.Db)
      → IsValid e m
      → IsDefined u (view (e.tables m.db))
      → IsValid e (update e u m)
  unfolding update IsDefined
  update-IsValid (Update.create p n) m v d = create_file-IsValid e h p m v n
  update-IsValid (Update.insert p o) m v d = insert_block-IsValid e h p m v o
  update-IsValid (Update.write p offs) m v d = write_blks-IsValid e h p offs m v
  update-IsValid (Update.delete p) m v d = known-IsValid e h p m v d
  update-IsValid (Update.touch p o) m v d = update_blk_time-IsValid e h p m v o
  update-IsValid (Update.query_file p) m v d = is_file_in_cache-IsValid e h p m v
  update-IsValid (Update.query_block p o) m v d = is_blk_in_cache-IsValid e h p m v o
  update-IsValid (Update.query_blocks p offs) m v d = are_blocks_in_cache-IsValid e h p offs m v

  update-view :
      (u : Update) (m : Meta e.Db)
      → IsValid e m
      → view (e.tables (update e u m).db) ≡ abstract_update u (view (e.tables m.db))
  unfolding update abstract_update
  update-view (Update.create p n) m v =
      view_ext _ _ (create_file-known e h p m v n) (create_file-cached e h p m v n)
  update-view (Update.insert p o) m v =
      view_ext _ _ (insert_block-known e h p o m v) (insert_block-cached e h p o m v)
  update-view (Update.write p offs) m v =
      view_ext _ _ (write_blks-known e h p offs m v) (write_blks-cached e h p offs m v)
  update-view (Update.delete p) m v =
      view_ext _ _ (delete_any-known e h p m v) (delete_any-cached e h p m v)
  update-view (Update.touch p o) m v =
      view_ext _ _ (update_blk_time-known e h p o m v) (update_blk_time-cached e h p o m v)
  update-view (Update.query_file p) m v = ap view (is_file_in_cache-known e h p m v).1
  update-view (Update.query_block p o) m v = ap view (is_blk_in_cache-cached e h p o m v).1
  update-view (Update.query_blocks p offs) m v =
      ap view (are_blocks_in_cache-cached e h p offs m v).2

  -- Any sequence of calls of the functions of meta.c that the callbacks use, in which a file is
  -- known when it is deleted, acts on the known paths and the cached offsets as the abstract calls
  -- do, and keeps the bookkeeping valid. The bookkeeping is valid before and the engine does not
  -- fail.
  pub updates-view :
      (us : List Update) (m : Meta e.Db)
      → IsValid e m
      → AreDefined us (view (e.tables m.db))
      → (view (e.tables (updates e us m).db) ≡ abstract_updates us (view (e.tables m.db)))
        × IsValid e (updates e us m)
  unfolding updates abstract_updates AreDefined
  updates-view [] m v d = (refl, v)
  updates-view (u ∷ us) m v d =
      let rest =
        updates-view us (update e u m) (update-IsValid u m v d.0) (rw (update-view u m v) d.1) in
      (rest.0 ∙ ap (abstract_updates us) (update-view u m v), rest.1)
