-- ===== src/Tests/Requests.antt =====
-- The requests, the start and the abstract view at concrete inputs.
use ece566_project.Prelude.{
  ℕ, ◌≡◌, ◌*◌, ◌%◌, ◌&&◌, ◌||◌, refl, not, same, true, false, some, List, [], ◌∷◌, arith, inl,
  length, codes,
}
use ece566_project.Prelude.Int.{word}
use ece566_project.Sql.{sums_fit, find_path, Tables, meaning}
use ece566_project.Sql.Catalog.{IsConsistent}
use ece566_project.Sql.Cached.{cached, known}
use ece566_project.Meta.{
  perform, finalize, Meta, is_file_in_cache, probe, prepare, create_file, set_block_size,
  create_tables, open_db,
}
use ece566_project.Meta.Numbers.{init_cache_used_size, exec_rows, callback}
use ece566_project.Meta.Invariant.{IsValid}
use ece566_project.Meta.Updates.{
  AreDefined, IsDefined, abstract_update, Update, updates, abstract_updates, view, updates-view,
}
use ece566_project.Posix.{Sys, Syscall, log_syscall, log_retstat}
use ece566_project.Cfs.{Config}
use ece566_project.Cfs.Paths.{squeeze, cfs_path_to_file_name, cfs_full_nas_path}
use ece566_project.Cfs.Namespace.{cache_path, cfs_truncate, cfs_unlink, cfs_mk_cache_nod, make_node}
use ece566_project.Cfs.Open.{cfs_open, switch_flags, open_present, make_entry, check_up_to_date}
use ece566_project.Cfs.Attributes.{cfs_get_nas_attr}
use ece566_project.Cfs.Open.Present.{is_stale}
use ece566_project.Cfs.Open.Cached.{cfs_open_present}
use ece566_project.Cfs.Outcome.{Outcome}
use ece566_project.Cfs.Requests.{Request, Response, dispatch}
use ece566_project.Cfs.Requests.Frame.{keeps_metadata, dispatch_frame}
use ece566_project.Cfs.Requests.Forwarded.{
  forwarded, status_of, run_calls, result, dispatch_forwards,
}
use ece566_project.Cfs.Requests.Served.{UnlinksKnown, IsKnownStep, IsKnownRun, Step, Reach}
use ece566_project.Main.{Start, Arguments, start, init_metadata, choose_cache_size}
use ece566_project.Main.Restart.{empty_tables, init_metadata-fresh}
use ece566_project.Main.Served.{start_serves}
use ece566_project.Tests.Memory.{
  memory, memory-IsHealthy, memory-IsPrinted, movie, meta, meta-IsValid,
}
use ece566_project.Tests.Disk.{disk, files, Files, config}
use ece566_project.Tests.Callbacks.{state}

updates-view_example :
    (view (updates memory (Update.create (codes "/song") 9 ∷ Update.delete movie ∷ []) meta).db
      ≡ abstract_updates
          (Update.create (codes "/song") 9 ∷ Update.delete movie ∷ [])
          (view meta.db))
    × IsValid memory
        (updates memory (Update.create (codes "/song") 9 ∷ Update.delete movie ∷ []) meta)
unfolding AreDefined IsDefined abstract_update find_path same
updates-view_example =
    updates-view memory memory-IsHealthy
      (Update.create (codes "/song") 9 ∷ Update.delete movie ∷ []) meta meta-IsValid
      (tt, (refl, tt))

cfs_open_present_example :
    (cached (cfs_open config disk memory movie 0 state).1.meta.db movie 0 ≡ (
      cached meta.db movie 0
      && not (same movie (cfs_path_to_file_name movie) && is_stale config disk movie files)))
    × (known (cfs_open config disk memory movie 0 state).1.meta.db movie
        ≡ (known meta.db movie || same movie (cfs_path_to_file_name movie)))
unfolding switch_flags
cfs_open_present_example =
    cfs_open_present config disk memory memory-IsHealthy movie state meta-IsValid 0 3 movie 0 refl

dispatch_frame_example :
    (r : Response ℕ) × (s' : Sys Files Tables) × (dispatch config disk memory true 1
        (Request.rename movie (codes "/song"))
        state
      ≡ Outcome.done (r, s'))
    × (s'.meta ≡ meta)
unfolding keeps_metadata
dispatch_frame_example =
    dispatch_frame config disk memory true 1 (Request.rename movie (codes "/song")) state refl

abbrev before_link : List Syscall
before_link = Syscall.link (cache_path config movie) (cache_path config (codes "/song")) ∷ []

abbrev nas_link : Syscall
nas_link = Syscall.link (cfs_full_nas_path config movie) (cfs_full_nas_path config (codes "/song"))

dispatch_forwards_example :
    (r : Response ℕ) × (s' : Sys Files Tables) × (dispatch config disk memory true 1
        (Request.link movie (codes "/song"))
        state
      ≡ Outcome.done (r, s'))
    × (status_of r
        ≡ result disk
            (disk.call nas_link (run_calls disk before_link files)).0.value
            (disk.call nas_link (run_calls disk before_link files)).1)
    × (s'.world ≡ (disk.call nas_link (run_calls disk before_link files)).1)
unfolding forwarded
dispatch_forwards_example =
    dispatch_forwards config disk memory true 1 (Request.link movie (codes "/song")) before_link
      nas_link state refl refl

-- No tables yet.
abbrev new_meta : Meta Tables
new_meta = record {
  db = record {
    has_files = false;
    has_blocks = false;
    foreign_keys = false;
    files = [];
    blocks = [];
  };
  cache_used_size = 0;
  meta_block_size = 0;
  open_stmts = 0;
}

init_metadata-fresh_example :
    (m' : Meta Tables) × (init_metadata memory 4 new_meta ≡ some m')
    × (m'.db ≡ empty_tables memory memory-IsHealthy 4 new_meta)
    × (m'.cache_used_size ≡ 0)
    × IsValid memory m'
init_metadata-fresh_example =
    init_metadata-fresh memory memory-IsHealthy 4 new_meta memory-IsPrinted refl refl refl
      (omega arith)

abbrev arguments : Arguments
arguments = record {
  argc = 6;
  nas_dir = codes "/nas";
  mount_dir = codes "/mnt";
  cache_dir = codes "/cache";
  user_size = 450;
  block_size = 4;
}

abbrev mounted : Config
mounted = record {
  nasdir = codes "/nas";
  cachedir = codes "/cache";
  cache_size = 400;
  block_size = 4;
}

abbrev started_meta : Meta Tables
started_meta = record {
  db = empty_tables memory memory-IsHealthy 4 new_meta;
  cache_used_size = 0;
  meta_block_size = 4;
  open_stmts = 0;
}

has_started :
    start memory 1000 1000 arguments (λ p. p) (some 500) new_meta
    ≡ Start.started mounted started_meta
unfolding start init_metadata choose_cache_size meaning init_cache_used_size exec_rows
    set_block_size create_tables open_db callback sums_fit
has_started = refl

abbrev at_start : Sys Files Tables
at_start = record { world = files; meta = started_meta }

-- A file is opened, truncated and unlinked.
abbrev after_open : Sys Files Tables
after_open = (cfs_open mounted disk memory movie 0 at_start).1

abbrev after_truncate : Sys Files Tables
after_truncate = (cfs_truncate mounted disk movie 2 after_open).1

abbrev after_unlink : Sys Files Tables
after_unlink = (cfs_unlink mounted disk memory movie after_truncate).1

movie_is_known : known after_truncate.meta.db (cfs_path_to_file_name movie) ≡ true
unfolding find_path cfs_path_to_file_name same squeeze cfs_open log_syscall open_present log_retstat
    make_entry check_up_to_date is_file_in_cache probe prepare meaning cfs_mk_cache_nod make_node
    cfs_get_nas_attr create_file switch_flags cfs_truncate perform finalize
movie_is_known = refl

abbrev served : Reach ℕ mounted disk memory true 1 at_start after_unlink
unfolding dispatch
served =
    Reach.next
      (Step.request (Request.open_file movie 0)
        (Response.handle (cfs_open mounted disk memory movie 0 at_start).0) refl)
      (Reach.next
        (Step.request (Request.truncate movie 2)
          (Response.status (cfs_truncate mounted disk movie 2 after_open).0) refl)
        (Reach.next
          (Step.request (Request.unlink movie)
            (Response.status (cfs_unlink mounted disk memory movie after_truncate).0) refl)
          Reach.here))

start_serves_example :
    (after_unlink.meta.meta_block_size ≡ 4)
    × IsConsistent 4 after_unlink.meta.db
    × (after_unlink.meta.cache_used_size ≡ (4 * length after_unlink.meta.db.blocks) % word)
unfolding UnlinksKnown IsKnownStep IsKnownRun served
start_serves_example =
    start_serves memory memory-IsHealthy memory-IsPrinted 1000 1000 arguments (λ p. p) (some 500)
      mounted new_meta started_meta has_started refl (omega arith) (omega arith) (inl (refl, refl))
      ℕ disk true 0 files after_unlink served (tt, (tt, (movie_is_known, tt)))
