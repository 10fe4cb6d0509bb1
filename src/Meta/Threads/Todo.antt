-- ===== src/Meta/Threads/Todo.antt =====
-- What the threads in `write_blks` still have to list, and what their answers say of the tables.
use ece566_project.Prelude.{
  get_elem?, set, All-set, All-mono, ℕ, zero, suc, ◌+◌, ◌≡◌, ap, sym, ◌∙◌, Bool, true, false, ◌&&◌,
  ◌||◌, some, List, [], ◌∷◌, ◌++◌, arith, All, length, drop, Name, same, Option-cases, inl, inr,
}
use ece566_project.Prelude.Int.{ℤ}
use ece566_project.Sql.{Tables, find_path}
use ece566_project.Sql.Cached.{cached, known}
use ece566_project.Meta.{truthy}
use ece566_project.Meta.Lookups.Ranges.{member}
use ece566_project.Meta.Threads.{Thread, asks, writes, grows, loads, stores, returned}
use ece566_project.Meta.Threads.Pending.{id_of}

-- A block that a thread takes to be listed is listed.
abbrev pub Truthful : Tables → Name → List ℤ → List ℕ → Type 0
Truthful t p [] offs = Unit
Truthful t p (hit ∷ hits) [] = Unit
Truthful t p (hit ∷ hits) (off ∷ offs) =
    (truthy hit ≡ true → cached t p off ≡ true) × Truthful t p hits offs

-- One answer for each offset, those that are still to come included.
abbrev pub IsAnswered : Tables → Thread → Type 0
IsAnswered t (asks p rest hits offs) =
    Truthful t p hits offs
    × (rest ≡ drop (length hits) offs)
    × (length hits + length rest ≡ length offs)
IsAnswered t (writes p hits offs) = Truthful t p hits offs × (length hits ≡ length offs)
IsAnswered t (grows p hits offs) = Truthful t p hits offs × (length hits ≡ length offs)
IsAnswered t (loads p hits offs) = Truthful t p hits offs × (length hits ≡ length offs)
IsAnswered t (stores _ p hits offs) = Truthful t p hits offs × (length hits ≡ length offs)
IsAnswered t returned = Unit

-- No block is taken off the list.
abbrev pub Extends : Tables → Tables → Type 0
Extends t t' = (q : Name) (o : ℕ) → cached t q o ≡ true → cached t' q o ≡ true

module _ (t t' : Tables) (x : Extends t t') where
  pub Truthful-mono :
      (p : Name) (hits : List ℤ) (offs : List ℕ) → Truthful t p hits offs → Truthful t' p hits offs
  Truthful-mono p [] offs a = tt
  Truthful-mono p (hit ∷ hits) [] a = tt
  Truthful-mono p (hit ∷ hits) (off ∷ offs) a =
      (λ h. x p off (a.0 h), Truthful-mono p hits offs a.1)

  IsAnswered-mono : (c : Thread) → IsAnswered t c → IsAnswered t' c
  IsAnswered-mono (asks p rest hits offs) a = (Truthful-mono p hits offs a.0, a.1, a.2)
  IsAnswered-mono (writes p hits offs) a = (Truthful-mono p hits offs a.0, a.1)
  IsAnswered-mono (grows p hits offs) a = (Truthful-mono p hits offs a.0, a.1)
  IsAnswered-mono (loads p hits offs) a = (Truthful-mono p hits offs a.0, a.1)
  IsAnswered-mono (stores _ p hits offs) a = (Truthful-mono p hits offs a.0, a.1)
  IsAnswered-mono returned a = tt

-- One more answer.
pub Truthful-append :
    (t : Tables) (p : Name) (hit : ℤ) (off : ℕ) (rest offs : List ℕ) (hits : List ℤ)
    → off ∷ rest ≡ drop (length hits) offs
    → Truthful t p hits offs
    → (truthy hit ≡ true → cached t p off ≡ true)
    → Truthful t p (hits ++ hit ∷ []) offs × (rest ≡ drop (length (hits ++ hit ∷ [])) offs)
Truthful-append t p hit off rest [] [] d a h = absurd (cc)
Truthful-append t p hit off rest (off' ∷ offs) [] d a h =
    let same_off : off' ≡ off = cc in ((λ listed. ap (cached t p) same_off ∙ h listed, tt), cc)
Truthful-append t p hit off rest [] (hit' ∷ hits) d a h = absurd (cc)
Truthful-append t p hit off rest (off' ∷ offs) (hit' ∷ hits) d a h =
    let more = Truthful-append t p hit off rest offs hits d a.1 h in ((a.0, more.0), more.1)

-- The offsets that a thread may still list, of a file that is known.
abbrev pub todo : (Name → Bool) → Thread → Name → ℕ → Bool
todo k (asks p _ _ offs) q o = k p && (same q p && member o offs)
todo k (writes p _ offs) q o = k p && (same q p && member o offs)
todo k (grows p _ offs) q o = k p && (same q p && member o offs)
todo k (loads p _ offs) q o = k p && (same q p && member o offs)
todo k (stores _ p _ offs) q o = k p && (same q p && member o offs)
todo k returned q o = false

abbrev pub any_todo : (Name → Bool) → List Thread → Name → ℕ → Bool
any_todo k [] q o = false
any_todo k (c ∷ cs) q o = todo k c q o || any_todo k cs q o

any_todo-set :
    (k : Name → Bool) (q : Name) (o : ℕ) (x x' : Bool) (cs : List Thread) (i : ℕ) (c c' : Thread)
    → get_elem? cs i ≡ some c
    → (x || todo k c q o) ≡ (x' || todo k c' q o)
    → (x || any_todo k cs q o) ≡ (x' || any_todo k (set cs i c') q o)
any_todo-set k q o x x' [] i c c' at h = absurd (cc)
any_todo-set k q o x x' (d ∷ cs) zero c c' at h =
    let same_one : todo k d q o ≡ todo k c q o = ap (λ d. todo k d q o) (cc) in ground arith
any_todo-set k q o x x' (d ∷ cs) (suc i) c c' at h =
    ground (arith, any_todo-set k q o x x' cs i c c' at h)

-- On the way to the view that lists `final`: what is listed and what is still to be listed.
pub record IsOnWay (k : Name → Bool) (final : Name → ℕ → Bool) (cs : List Thread) (t : Tables)
    : Type 0 where
  pub knows : (q : Name) → known t q ≡ k q
  pub lists : (q : Name) (o : ℕ) → (cached t q o || any_todo k cs q o) ≡ final q o
  pub answered : All (IsAnswered t) cs

pub set-IsOnWay :
    (k : Name → Bool) (final : Name → ℕ → Bool) (cs : List Thread) (t t' : Tables) (i : ℕ)
    (c c' : Thread)
    → IsOnWay k final cs t
    → get_elem? cs i ≡ some c
    → ((q : Name) → known t' q ≡ known t q)
    → Extends t t'
    → IsAnswered t' c'
    → ((q : Name) (o : ℕ) → (cached t q o || todo k c q o) ≡ (cached t' q o || todo k c' q o))
    → IsOnWay k final (set cs i c') t'
set-IsOnWay k final cs t t' i c c' w at same_known x sane same_view = record {
  knows = λ q. same_known q ∙ w.knows q;
  lists = λ q o.
      sym (any_todo-set k q o (cached t q o) (cached t' q o) cs i c c' at (same_view q o))
      ∙ w.lists q o;
  answered = All-set _ cs i c' sane (All-mono (IsAnswered-mono t t' x) cs w.answered);
}

-- The ids of the files and the blocks tell what is cached.
pub cached-id_of :
    (t t' : Tables) (q : Name) (o : ℕ)
    → id_of (find_path q t.files) ≡ id_of (find_path q t'.files)
    → t.blocks ≡ t'.blocks
    → cached t q o ≡ cached t' q o
unfolding cached
cached-id_of t t' q o same_id same_blocks = elim (Option-cases (find_path q t.files)) [
  | inl absent ↦ elim (Option-cases (find_path q t'.files)) [
    | inl absent' ↦ ground arith
    | inr (g, found') ↦ absurd (ground arith)
  ]
  | inr (f, found) ↦ elim (Option-cases (find_path q t'.files)) [
    | inl absent' ↦ absurd (ground arith)
    | inr (g, found') ↦ ground arith
  ]
]
