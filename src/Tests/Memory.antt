-- ===== src/Tests/Memory.antt =====
-- A database in memory, which fails only where a statement does, and a catalog with one file of
-- which one block is cached.
use ece566_project.Prelude.{
  ℕ, ◌+◌, ◌≤◌, ◌<◌, ◌≡◌, refl, true, false, Option, none, some, List, [], ◌∷◌, arith, Name, codes,
  same, Option-cases, inl, inr,
}
use ece566_project.Prelude.Int.{ℤ, pos}
use mathlib.Core.List.Perm
use ece566_project.Sql.{
  FileRow, BlockRow, Tables, Moment, Value, Row, meaning, find_path, find_id, find_block,
}
use ece566_project.Sql.Counts.{count_of}
use ece566_project.Sql.Engine.{Engine, Answer, IsHealthy}
use ece566_project.Meta.Numbers.Decimal.{decimal}
use ece566_project.Main.Restart.{IsPrinted}
use ece566_project.Meta.{Meta}
use ece566_project.Meta.Invariant.{IsValid}

-- An id above all ids in use.
unfoldable pub next_id : List FileRow → ℕ
next_id [] = 1
next_id (f ∷ fs) = f.file_id + next_id fs

find_id_above : (i : ℕ) (fs : List FileRow) → next_id fs ≤ i → find_id i fs ≡ none
unfolding next_id find_id
find_id_above i [] h = refl
find_id_above i (f ∷ fs) h = ground (arith, find_id_above i fs, next_id_pos fs)
  where
    next_id_pos : (fs : List FileRow) → 0 < next_id fs
    next_id_pos [] = omega arith
    next_id_pos (f ∷ fs) = omega (arith, next_id_pos fs)

abbrev pub answer : Option (List Row × Tables) → Tables → Answer × Tables
answer none t = (record { rows = []; is_done = false }, t)
answer (some (rows, t')) t = (record { rows = rows; is_done = true }, t')

abbrev pub moment : Tables → Moment
moment t = record { now = 7; rowid = next_id t.files; scan = λ bs. bs }

abbrev pub integer_of : Option Value → ℤ
integer_of (some (Value.integer z)) = z
integer_of _ = pos 0

abbrev pub text_of : Option Value → Option Name
text_of (some (Value.integer (pos n))) = some (decimal n)
text_of (some (Value.text name)) = some name
text_of _ = none

abbrev pub memory : Engine
memory = record {
  Db = Tables;
  tables = λ t. t;
  moment = moment;
  run = λ s t. answer (meaning (moment t) s t) t;
  finalize_ok = λ t. true;
  column_int64 = integer_of;
  column_text = text_of;
  column_name = λ s. codes "SUM(local_size)";
}

pub memory-IsHealthy : IsHealthy memory
memory-IsHealthy = record {
  lawful = record {
    explained = λ s t. elim (Option-cases (meaning (moment t) s t)) [
      | inl e ↦ ground arith
      | inr (r, e) ↦ ground arith
    ];
    unused = λ t. find_id_above (next_id t.files) t.files (omega arith);
    scanned = λ t bs. Perm.refl bs;
    column_int64_integer = λ z. refl;
  };
  answers = λ s t h. elim (Option-cases (meaning (moment t) s t)) [
    | inl e ↦ absurd (h e)
    | inr (r, e) ↦ ground arith
  ];
  finalizes = λ t. refl;
}

pub memory-IsPrinted : IsPrinted memory
memory-IsPrinted = record {
  column_text_integer = λ n. refl;
  column_text_null = refl;
  column_name = refl;
}

abbrev pub movie : Name
movie = codes "/movie"

abbrev pub movie_row : FileRow
movie_row = record { file_id = 1; relative_path = movie; remote_size = pos 8; local_size = pos 4 }

abbrev pub first_block : BlockRow
first_block = record {
  block_id = 1;
  blk_start_offset = 0;
  is_valid = true;
  timestamp = 5;
  file_id = 1;
}

abbrev pub tables : Tables
tables = record {
  has_files = true;
  has_blocks = true;
  foreign_keys = true;
  files = movie_row ∷ [];
  blocks = first_block ∷ [];
}

abbrev pub meta : Meta Tables
meta = record { db = tables; cache_used_size = 4; meta_block_size = 4; open_stmts = 0 }

pub found_movie : find_path movie tables.files ≡ some movie_row
unfolding find_path same
found_movie = refl

pub meta-IsValid : IsValid memory meta
unfolding find_path find_id find_block count_of
meta-IsValid = record {
  consistent = record {
    has_files = refl;
    has_blocks = refl;
    foreign_keys = refl;
    distinct = (refl, refl, tt);
    indexed = (refl, tt);
    sized = (refl, tt);
    owned = (refl, tt);
  };
  counted = refl;
  small = omega arith;
}
