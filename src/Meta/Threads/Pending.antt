-- ===== src/Meta/Threads/Pending.antt =====
-- What the threads that are inside `insert_block` still owe: the sizes to be added to `Files`, and the
-- blocks that the counter does not count yet.
use ece566_project.Prelude.{
  ℕ, zero, suc, ◌+◌, ◌≡◌, refl, ap, ◌∙◌, Option, none, some, List, [], ◌∷◌, arith, All, get_elem?,
  set, length, Name, Option-cases, inl, inr,
}
use ece566_project.Prelude.Int.{ℤ, pos, ◌+ℤ◌}
use ece566_project.Sql.{FileRow, find_path, resize}
use ece566_project.Meta.Threads.{Thread, asks, writes, grows, loads, stores, returned}

-- A block of the thread is listed, and the counter does not count it.
abbrev pub owes : Thread → ℕ
owes (grows _ _ _) = 1
owes (loads _ _ _) = 1
owes (stores _ _ _ _) = 1
owes (asks _ _ _ _) = 0
owes (writes _ _ _) = 0
owes returned = 0

-- The offsets that a thread may still insert.
abbrev pub left : Thread → ℕ
left (asks _ _ _ blk_arr) = length blk_arr
left (writes _ _ offs) = length offs
left (grows _ _ offs) = length offs
left (loads _ _ offs) = length offs
left (stores _ _ _ offs) = length offs
left returned = 0

abbrev pub total : (Thread → ℕ) → List Thread → ℕ
total w [] = 0
total w (c ∷ cs) = w c + total w cs

pub total-set :
    (w : Thread → ℕ) (cs : List Thread) (i : ℕ) (c c' : Thread)
    → get_elem? cs i ≡ some c
    → total w (set cs i c') + w c ≡ total w cs + w c'
total-set w [] i c c' h = absurd (cc)
total-set w (d ∷ cs) zero c c' h = let same : w d ≡ w c = ap w (cc) in omega (arith, same)
total-set w (d ∷ cs) (suc i) c c' h = omega (arith, total-set w cs i c c' h)

-- The `UPDATE` that a thread still has to make, done at once, on blocks of `bs` bytes.
abbrev pub settle_one : ℕ → Thread → List FileRow → List FileRow
settle_one bs (grows p _ _) fs = resize (λ z. z +ℤ pos bs) p fs
settle_one bs (asks _ _ _ _) fs = fs
settle_one bs (writes _ _ _) fs = fs
settle_one bs (loads _ _ _) fs = fs
settle_one bs (stores _ _ _ _) fs = fs
settle_one bs returned fs = fs

unfoldable pub settle : ℕ → List Thread → List FileRow → List FileRow
settle bs [] fs = fs
settle bs (c ∷ cs) fs = settle_one bs c (settle bs cs fs)

resize_comm :
    (g : ℤ → ℤ) (p q : Name) (fs : List FileRow)
    → resize g p (resize g q fs) ≡ resize g q (resize g p fs)
unfolding resize
resize_comm g p q [] = refl
resize_comm g p q (f ∷ fs) = ground (arith, resize_comm g p q fs)

settle_one-resize :
    (bs : ℕ) (c : Thread) (p : Name) (fs : List FileRow)
    → settle_one bs c (resize (λ z. z +ℤ pos bs) p fs)
      ≡ resize (λ z. z +ℤ pos bs) p (settle_one bs c fs)
settle_one-resize bs (asks _ _ _ _) p fs = refl
settle_one-resize bs (writes _ _ _) p fs = refl
settle_one-resize bs (grows q _ _) p fs = resize_comm _ q p fs
settle_one-resize bs (loads _ _ _) p fs = refl
settle_one-resize bs (stores _ _ _ _) p fs = refl
settle_one-resize bs returned p fs = refl

settle_one_comm :
    (bs : ℕ) (c c' : Thread) (fs : List FileRow)
    → settle_one bs c (settle_one bs c' fs) ≡ settle_one bs c' (settle_one bs c fs)
settle_one_comm bs c (asks _ _ _ _) fs = refl
settle_one_comm bs c (writes _ _ _) fs = refl
settle_one_comm bs c (grows q _ _) fs = settle_one-resize bs c q fs
settle_one_comm bs c (loads _ _ _) fs = refl
settle_one_comm bs c (stores _ _ _ _) fs = refl
settle_one_comm bs c returned fs = refl

pub settle-resize :
    (bs : ℕ) (cs : List Thread) (p : Name) (fs : List FileRow)
    → settle bs cs (resize (λ z. z +ℤ pos bs) p fs) ≡ resize (λ z. z +ℤ pos bs) p (settle bs cs fs)
unfolding settle
settle-resize bs [] p fs = refl
settle-resize bs (c ∷ cs) p fs =
    ap (settle_one bs c) (settle-resize bs cs p fs) ∙ settle_one-resize bs c p (settle bs cs fs)

-- A thread that moves on from `c` to `c'` takes its own part of the debt along.
pub settle-set :
    (bs : ℕ) (cs : List Thread) (i : ℕ) (c c' : Thread) (fs : List FileRow)
    → get_elem? cs i ≡ some c
    → settle_one bs c (settle bs (set cs i c') fs) ≡ settle_one bs c' (settle bs cs fs)
unfolding settle
settle-set bs [] i c c' fs h = absurd (cc)
settle-set bs (d ∷ cs) zero c c' fs h =
    settle_one_comm bs c c' (settle bs cs fs)
    ∙ ap (λ d. settle_one bs c' (settle_one bs d (settle bs cs fs))) (cc)
settle-set bs (d ∷ cs) (suc i) c c' fs h =
    settle_one_comm bs c d (settle bs (set cs i c') fs)
    ∙ ap (settle_one bs d) (settle-set bs cs i c c' fs h)
    ∙ settle_one_comm bs d c' (settle bs cs fs)

-- The same file is found, with the same id.
abbrev pub id_of : Option FileRow → Option ℕ
id_of none = none
id_of (some f) = some f.file_id

pub find_path-resize_id :
    (g : ℤ → ℤ) (p q : Name) (fs : List FileRow)
    → id_of (find_path q (resize g p fs)) ≡ id_of (find_path q fs)
unfolding find_path resize
find_path-resize_id g p q [] = refl
find_path-resize_id g p q (f ∷ fs) = ground (arith, find_path-resize_id g p q fs)

settle_one-id :
    (bs : ℕ) (c : Thread) (q : Name) (fs : List FileRow)
    → id_of (find_path q (settle_one bs c fs)) ≡ id_of (find_path q fs)
settle_one-id bs (asks _ _ _ _) q fs = refl
settle_one-id bs (writes _ _ _) q fs = refl
settle_one-id bs (grows p _ _) q fs = find_path-resize_id _ p q fs
settle_one-id bs (loads _ _ _) q fs = refl
settle_one-id bs (stores _ _ _ _) q fs = refl
settle_one-id bs returned q fs = refl

pub settle-id :
    (bs : ℕ) (cs : List Thread) (q : Name) (fs : List FileRow)
    → id_of (find_path q (settle bs cs fs)) ≡ id_of (find_path q fs)
unfolding settle
settle-id bs [] q fs = refl
settle-id bs (c ∷ cs) q fs = settle_one-id bs c q (settle bs cs fs) ∙ settle-id bs cs q fs

-- Threads that have returned owe nothing.
abbrev pub HasReturned : Thread → Type 0
HasReturned c = c ≡ returned

pub settle-returned :
    (bs : ℕ) (cs : List Thread) (fs : List FileRow) → All HasReturned cs → settle bs cs fs ≡ fs
unfolding settle
settle-returned bs [] fs a = refl
settle-returned bs (c ∷ cs) fs a =
    ap (λ d. settle_one bs d (settle bs cs fs)) a.0 ∙ settle-returned bs cs fs a.1

pub settle-found :
    (bs : ℕ) (cs : List Thread) (q : Name) (fs : List FileRow) (f : FileRow)
    → find_path q fs ≡ some f
    → (g : FileRow) × (find_path q (settle bs cs fs) ≡ some g) × (g.file_id ≡ f.file_id)
settle-found bs cs q fs f found = elim (Option-cases (find_path q (settle bs cs fs))) [
  | inl lost ↦ absurd (ground (arith, settle-id bs cs q fs))
  | inr (g, kept) ↦ (g, kept, ground (arith, settle-id bs cs q fs))
]
