-- ===== src/Meta/Numbers.antt =====
-- `str_to_num`, the callback of meta.c, and `init_cache_used_size`, which reads the counter back
-- from the database.
pub mod Decimal
use ece566_project.Prelude.{
  ℕ, ◌+◌, ◌-◌, ◌*◌, ◌%◌, ◌==◌, leb, Bool, true, false, ◌&&◌, ◌||◌, not, Option, none, some, List,
  [], ◌∷◌, if◌then◌else◌, Name, same, codes,
}
use ece566_project.Prelude.Int.{word}
use ece566_project.Sql.{Statement, Row}
use ece566_project.Sql.Engine.{Engine}
use ece566_project.Meta.{Meta}

abbrev pub is_digit : ℕ → Bool
is_digit c = leb b'0' c && leb c b'9'

-- `isspace` in the C locale
abbrev pub is_space : ℕ → Bool
is_space c = c == 32 || (leb 9 c && leb c 13)

unfoldable pub skip_spaces : Name → Name
skip_spaces [] = []
skip_spaces (c ∷ str) = let rest = skip_spaces str in if is_space c then rest else c ∷ str

unfoldable pub scan_digits : ℕ → Name → ℕ
scan_digits acc [] = acc
scan_digits acc (c ∷ str) =
    let rest = scan_digits (acc * 10 + (c - b'0')) str in if is_digit c then rest else acc

-- The digits as a `size_t`: `none` where there are none, or where `strtoul` sets ERANGE.
unfoldable pub number_of : Bool → Name → Option ℕ
number_of negative [] = none
number_of negative (c ∷ str) =
    let val = scan_digits 0 (c ∷ str) in
    if not (is_digit c) || leb word val
    then none
    else some (if negative then (word - val) % word else val)

-- `strtoul (str, &endptr, 10)`: a sign may stand behind white space.
unfoldable pub signed_number : Name → Option ℕ
signed_number [] = none
signed_number (c ∷ str) =
    if c == b'-'
    then number_of true str
    else if c == b'+'
    then number_of false str
    else number_of false (c ∷ str)

-- `none` is `exit (EXIT_FAILURE)`.
unfoldable pub str_to_num : Name → Option ℕ
str_to_num [] = none
str_to_num (c ∷ str) = if c == b'-' then none else signed_number (skip_spaces (c ∷ str))

abbrev pub sum_column : Name
sum_column = codes "SUM(local_size)"

-- `callback` on one row with the names of its columns: the new `cache_used_size`, or an exit. Any
-- other row is only printed.
unfoldable pub callback : ℕ → List (Option Name) → List Name → Option ℕ
callback used (none ∷ []) (col_name ∷ []) = some used
callback used (some val ∷ []) (col_name ∷ []) =
    if same col_name sum_column then str_to_num val else some used
callback used _ _ = some used

module _ (e : Engine) where
  open e use {Db}

  -- `sqlite3_exec` hands each row of one column to the callback.
  unfoldable pub exec_rows : ℕ → List Row → Option ℕ
  exec_rows used [] = some used
  exec_rows used ((v ∷ []) ∷ rows) =
      elim (callback used (e.column_text (some v) ∷ [])
        (e.column_name Statement.sum_local_size ∷ [])) [
          | none ↦ none
          | some used' ↦ exec_rows used' rows
        ]
  exec_rows used (_ ∷ rows) = exec_rows used rows

  unfoldable pub init_cache_used_size : Meta Db → Option (Meta Db)
  init_cache_used_size m =
      let (a, db') = e.run Statement.sum_local_size m.db in
      elim (exec_rows m.cache_used_size a.rows) [
        | none ↦ none
        | some used ↦ some (record m { db = db'; cache_used_size = used })
      ]
