-- ===== src/Meta/Threads/Torn.antt =====
-- `insert_block` of meta.c lists a block and adds its size in two statements: a thread may delete
-- the file and create it again between them.
use ece566_project.Prelude.{
  ℕ, suc, ◌+◌, ◌*◌, ◌%◌, ◌<◌, ◌^◌, ◌≡◌, ◌≢◌, refl, ap, sym, ◌∙◌, true, false, some, none, List, [],
  ◌∷◌, arith, length, Name, same, same_refl,
}
use mathlib.Core.Path.{subst}
use ece566_project.Prelude.Int.{ℤ, pos, pos_part, ◌+ℤ◌, pos-+ℤ, word, to_int64, to_int64_small}
use ece566_project.Sql.{
  FileRow, BlockRow, Tables, Moment, Statement, meaning, find_path, find_id, find_block, resize,
  remove_id,
}
use ece566_project.Sql.Rows.{find_path-remove_path_self}
use ece566_project.Sql.Counts.{count_of, count_of_fresh, Sized-find_path}
use ece566_project.Sql.Cached.{cached, known, cached-add_file, cached-drop_file}
use ece566_project.Sql.Catalog.{
  IsConsistent, IsThere, there, new_block, new_file, add_file, drop_file, drop_file-IsConsistent,
  drop_file_size,
}
use ece566_project.Sql.Engine.{Engine, IsHealthy}
use ece566_project.Meta.{Meta, perform, create_file, delete_file}
use ece566_project.Meta.Effects.{perform-some}
use ece566_project.Meta.Effects.Files.{create_file_new, delete_file_found}
use ece566_project.Meta.Invariant.{IsValid, add_counted, sub_counted}
use ece566_project.Meta.Threads.{Thread, call, write_step, grow_step, store_step, advance, advances}
use ece566_project.Meta.Threads.Listed.{known-some, uncached-none, asked, inserted, until_listed}
use ece566_project.Meta.Threads.Same.{resize-SameView}

IsThere-blocks : (t : Tables) (bs : List BlockRow) → IsThere t → IsThere (record t { blocks = bs })
IsThere-blocks t bs k = record { has_files = k.has_files; foreign_keys = k.foreign_keys }

module _ (e : Engine) (h : IsHealthy e) where
  open e use {Db, tables}

  module _ (p : Name) (off : ℕ) (m : Meta Db) (c : IsConsistent m.meta_block_size (tables m.db))
      (f : FileRow) (found : find_path p (tables m.db).files ≡ some f)
      (new : find_block off f.file_id (tables m.db).blocks ≡ none) where
    -- Deleting the file takes the new block along.
    dropped :
        drop_file p f.file_id (record (tables m.db) {
          blocks =
              new_block (e.moment (asked e h p off m c f found new).db) off f.file_id
              ∷ (tables m.db).blocks;
        })
        ≡ drop_file p f.file_id (tables m.db)
    unfolding remove_id
    dropped = ground arith

  -- What is left of a call whose block is listed.
  after_listed :
      (p : Name) (m : Meta Db)
      → m.meta_block_size < 2 ^ 63
      → (tables m.db).has_files ≡ true
      → (m' : Meta Db) × (advances e 4 (Thread.grows p [] [], m) ≡ (Thread.returned, m'))
        × (tables m'.db ≡ record (tables m.db) {
          files = resize (λ z. z +ℤ pos m.meta_block_size) p (tables m.db).files;
        })
        × (m'.cache_used_size ≡ (m.cache_used_size + m.meta_block_size) % word)
  unfolding advances advance write_step grow_step store_step meaning
  after_listed p m small has =
      let t = record (tables m.db) {
        files = resize (λ z. z +ℤ pos m.meta_block_size) p (tables m.db).files;
      } in
      let st = Statement.add_local_size (to_int64 m.meta_block_size) p in
      let (ok, a) =
        perform-some e h st m t
          (rw (to_int64_small m.meta_block_size small) (ground (arith, has))) in
      let m1 = (perform e st m).1 in
      (
        record m1 { cache_used_size = (m1.cache_used_size + m1.meta_block_size) % word },
        ground (arith, ok),
        a.tables,
        rw (a.cache_used_size, a.meta_block_size) refl,
      )

  -- The row of a file that is made anew, with a block's size added.
  grown_row :
      (p : Name) (bs : ℕ) (fs : List FileRow) (f : FileRow)
      → f.relative_path ≡ p
      → f.local_size ≡ pos 0
      → (g : FileRow) × (find_path p (resize (λ z. z +ℤ pos bs) p (f ∷ fs)) ≡ some g)
        × (g.local_size ≡ pos bs)
        × (g.file_id ≡ f.file_id)
  unfolding find_path resize
  grown_row p bs fs f named empty =
      let mine : same f.relative_path p ≡ true = rw named (same_refl p) in
      (
        record f { local_size = f.local_size +ℤ pos bs },
        rw mine (ground arith),
        rw empty (pos-+ℤ 0 bs ∙ ap pos (omega arith)),
        refl,
      )

  -- The file deleted, with its blocks, and made again.
  record Remade (p : Name) (off n bs : ℕ) (m3 : Meta Db) : Type 0 where
    dropped_tables : Tables
    moment : Moment
    consistent : IsConsistent bs dropped_tables
    gone : find_path p dropped_tables.files ≡ none
    fresh : find_id moment.rowid dropped_tables.files ≡ none
    uncached : cached dropped_tables p off ≡ false
    tables_then : tables m3.db ≡ add_file moment p (to_int64 n) dropped_tables
    meta_block_size : m3.meta_block_size ≡ bs
    counted : m3.cache_used_size ≡ (bs * length dropped_tables.blocks) % word

  remakes :
      (p : Name) (off n : ℕ) (m : Meta Db) (v : IsValid e m) (f : FileRow)
      (found : find_path p (tables m.db).files ≡ some f)
      (new : find_block off f.file_id (tables m.db).blocks ≡ none)
      → cached (tables m.db) p off ≡ false
      → let m1 = inserted e h p off m v.consistent f found new in
        Remade p off n m.meta_block_size (create_file e p n (delete_file e p m1).1).1
  remakes p off n m v f found new np =
      let bs = m.meta_block_size in
      let t0 = tables m.db in
      let m1 = inserted e h p off m v.consistent f found new in
      let l = (until_listed e h p off m v.consistent f found new).1 in
      let (_, d) =
        delete_file_found e h p m1 (rw l.tables (IsThere-blocks t0 _ (there v.consistent))) f
          (rw l.tables found) in
      let m2 = (delete_file e p m1).1 in
      let t2 : tables m2.db ≡ drop_file p f.file_id t0 =
        d.tables ∙ ap (drop_file p f.file_id) l.tables ∙ dropped p off m v.consistent f found new in
      let c2 : IsConsistent bs (tables m2.db) =
        rw t2 (drop_file-IsConsistent _ _ v.consistent p f found) in
      let gone : find_path p (tables m2.db).files ≡ none =
        rw t2 (find_path-remove_path_self p t0.files) in
      let (_, k) = create_file_new e h p m2 (there c2) n gone in
      let size = drop_file_size bs t0 v.consistent p f found in
      let left = remove_id f.file_id t0.blocks in
      record {
        dropped_tables = tables m2.db;
        moment = e.moment m2.db;
        consistent = c2;
        gone = gone;
        fresh = h.lawful.unused m2.db;
        uncached = rw t2 (cached-drop_file bs t0 v.consistent p p off f found ∙ ground (arith, np));
        tables_then = k.tables;
        meta_block_size = k.meta_block_size ∙ d.meta_block_size ∙ l.meta_block_size;
        counted =
            k.cache_used_size
            ∙ d.cache_used_size
            ∙ rw (l.cache_used_size, size.0, t2)
                (sub_counted bs (count_of f.file_id t0.blocks) (length left) (length t0.blocks)
                  m.cache_used_size size.1 v.counted);
      }

  -- A file of the size of a block, without a block.
  not-IsConsistent :
      (p : Name) (bs : ℕ) (z : ℤ) (mo : Moment) (t : Tables)
      → IsConsistent bs t
      → find_id mo.rowid t.files ≡ none
      → bs ≢ 0
      → ¬ IsConsistent bs (record (add_file mo p z t) {
        files = resize (λ z. z +ℤ pos bs) p (add_file mo p z t).files;
      })
  not-IsConsistent p bs z mo t c fresh nonzero c' =
      let (g, found, grown, same_id) = grown_row p bs t.files (new_file mo p z) refl refl in
      let sized = Sized-find_path bs p t.blocks _ g found c'.sized in
      let empty : pos bs ≡ pos (bs * 0) =
        sym grown
        ∙ sized
        ∙ ap (λ i. pos (bs * count_of i t.blocks)) same_id
        ∙ ap (λ k. pos (bs * k)) (count_of_fresh mo.rowid t.files t.blocks fresh c.owned) in
      nonzero (omega (arith, ap pos_part empty))

  -- A thread that inserts a block, interrupted by a `delete_file` and a `create_file` of the same
  -- path after it has listed the block and before it adds the size, returns with the block not
  -- listed, the counter one block above the listed blocks, and tables that are not consistent. The
  -- path is known, the block is not cached, the bookkeeping is valid before, the block size is not
  -- 0, and the engine does not fail.
  pub torn_insert :
      (p : Name) (off n : ℕ) (m : Meta Db)
      → IsValid e m
      → m.meta_block_size ≢ 0
      → known (tables m.db) p ≡ true
      → cached (tables m.db) p off ≡ false
      → let (c1, m1) = advances e 3 (call p (off ∷ []), m) in
        let m3 = (create_file e p n (delete_file e p m1).1).1 in
        let (c4, m4) = advances e 4 (c1, m3) in
        (c4 ≡ Thread.returned)
        × (cached (tables m4.db) p off ≡ false)
        × (m4.cache_used_size ≡ (m.meta_block_size * suc (length (tables m4.db).blocks)) % word)
        × ¬ IsConsistent m.meta_block_size (tables m4.db)
  torn_insert p off n m v nonzero kp np =
      let bs = m.meta_block_size in
      let (f, found) = known-some e h p m kp in
      let new = uncached-none e h p off m f found np in
      let m1 = inserted e h p off m v.consistent f found new in
      let m3 = (create_file e p n (delete_file e p m1).1).1 in
      let r = remakes p off n m v f found new np in
      let t2 = r.dropped_tables in
      let added = add_file r.moment p (to_int64 n) t2 in
      let (m4, ends, t4, used) =
        after_listed p m3 (rw r.meta_block_size v.small)
          (rw r.tables_then r.consistent.has_files) in
      let last : tables m4.db ≡ record added { files = resize (λ z. z +ℤ pos bs) p added.files } =
        rw (t4, r.tables_then, r.meta_block_size) refl in
      rw ((until_listed e h p off m v.consistent f found new).0, ends)
        (
          refl,
          rw last (
              (resize-SameView (λ z. z +ℤ pos bs) p added).cached_kept p off
              ∙ cached-add_file bs t2 r.consistent p p off r.moment (to_int64 n) r.gone r.fresh
              ∙ r.uncached),
          rw (used, r.meta_block_size, last)
              (add_counted bs (length t2.blocks) m3.cache_used_size r.counted),
          λ c4.
              not-IsConsistent p bs (to_int64 n) r.moment t2 r.consistent r.fresh nonzero
                (subst (IsConsistent bs) last c4),
        )
