-- ===== src/Sql/Totals.antt =====
-- The sum of the sizes that the `Files` table lists, against the blocks of the other table.
use ece566_project.Prelude.{
  ℕ, true, ◌<◌, ◌^◌, ◌*◌, ◌≡◌, refl, ap, none, List, [], ◌∷◌, arith, length,
}
use ece566_project.Prelude.Int.{pos, pos-+ℤ}
use ece566_project.Sql.{FileRow, BlockRow, find_id, remove_id, sum_sizes, sums_fit, is_int64}
use ece566_project.Sql.Rows.{IsTable}
use ece566_project.Sql.Counts.{Sized, Owned, length-remove_id, count_of-remove_id_ne}

Sized-other :
    (bs i : ℕ) (blocks : List BlockRow) (fs : List FileRow)
    → find_id i fs ≡ none
    → Sized bs blocks fs
    → Sized bs (remove_id i blocks) fs
unfolding find_id
Sized-other bs i blocks [] fresh s = tt
Sized-other bs i blocks (f ∷ fs) fresh s =
    ground (arith, count_of-remove_id_ne i f.file_id blocks, Sized-other bs i blocks fs)

Owned-other :
    (f : FileRow) (fs : List FileRow) (blocks : List BlockRow)
    → Owned (f ∷ fs) blocks
    → Owned fs (remove_id f.file_id blocks)
unfolding find_id remove_id
Owned-other f fs [] o = tt
Owned-other f fs (b ∷ blocks) o = ground (arith, Owned-other f fs blocks o.1)

no_blocks : (blocks : List BlockRow) → Owned [] blocks → length blocks ≡ 0
unfolding find_id
no_blocks [] o = refl
no_blocks (b ∷ blocks) o = ground arith

-- The sizes add up to the size of all blocks.
pub sum_sizes_lem :
    (bs : ℕ) (blocks : List BlockRow) (fs : List FileRow)
    → IsTable fs
    → Owned fs blocks
    → Sized bs blocks fs
    → sum_sizes fs ≡ pos (bs * length blocks)
unfolding sum_sizes
sum_sizes_lem bs blocks [] d o s =
    let e = no_blocks blocks o in ap pos (omega (arith, ap (λ (n : ℕ). bs * n) e))
sum_sizes_lem bs blocks (f ∷ fs) d o s =
    let rest =
      sum_sizes_lem bs (remove_id f.file_id blocks) fs d.2 (Owned-other f fs blocks o)
        (Sized-other bs f.file_id blocks fs d.1 s.1) in
    let split = ap (λ (n : ℕ). bs * n) (length-remove_id f.file_id blocks) in
    rw (s.0, rest, pos-+ℤ) (ap pos (omega (arith, split)))

-- Where the blocks take less than 2 ^ 63 bytes, the sum does not overflow at any point.
pub sums_fit_lem :
    (bs : ℕ) (blocks : List BlockRow) (fs : List FileRow)
    → IsTable fs
    → Owned fs blocks
    → Sized bs blocks fs
    → bs * length blocks < 2 ^ 63
    → sums_fit fs ≡ true
unfolding sums_fit is_int64
sums_fit_lem bs blocks [] d o s small = refl
sums_fit_lem bs blocks (f ∷ fs) d o s small =
    let others = remove_id f.file_id blocks in
    let split = ap (λ (n : ℕ). bs * n) (length-remove_id f.file_id blocks) in
    let rest =
      sums_fit_lem bs others fs d.2 (Owned-other f fs blocks o)
        (Sized-other bs f.file_id blocks fs d.1 s.1) (omega (arith, split)) in
    rw (sum_sizes_lem bs blocks (f ∷ fs) d o s, rest) (ground arith)
