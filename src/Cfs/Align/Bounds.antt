-- ===== src/Cfs/Align/Bounds.antt =====
-- What the block arithmetic covers: the aligned range against the range that was asked for.
use ece566_project.Prelude.{
  ℕ, zero, suc, ◌+◌, ◌-◌, ◌*◌, ◌/◌, ◌%◌, ◌≤◌, ◌<◌, ◌≡◌, ◌≢◌, refl, ◌↔◌, ◌⊎◌, arith, length,
}
use ece566_project.Cfs.Align.{align_lower_offset, align_upper_offset, aligned_size, offset_array}
use native.Mathlib.Nat.{
  div-add-mod, mod-lt, mod-eq_of_lt, mod-eq-sub-mod, mod-add-mod, add-mod_right, mul-mod_right,
}

-- The lower offset is the start of the block that holds the offset, for a block size that is not
-- 0.
pub align_lower_offset_lem :
    (b offset : ℕ)
    → 0 < b
    → (align_lower_offset b offset ≡ b * (offset / b))
      × (align_lower_offset b offset ≤ offset)
      × (offset < align_lower_offset b offset + b)
unfolding align_lower_offset
align_lower_offset_lem b offset h = omega (arith, div-add-mod offset b, mod-lt offset h)

-- The aligned size is the least number of whole blocks that holds the size, for a block size that
-- is not 0.
pub aligned_size_lem :
    (b size : ℕ)
    → 0 < b
    → (aligned_size b size % b ≡ 0)
      × (size ≤ aligned_size b size)
      × (aligned_size b size < size + b)
unfolding aligned_size
aligned_size_lem b size h = ground (
  arith,
  div-add-mod size b,
  mod-lt size h,
  add-mod_right (b * (size / b)) b,
  mul-mod_right b (size / b),
)

-- From a block's start on, the aligned range covers the range that was asked for, whatever the
-- size, for a block size that is not 0.
pub aligned_range_covers :
    (b offset size : ℕ)
    → 0 < b
    → offset % b ≡ 0
    → offset + size ≤ align_lower_offset b offset + aligned_size b size
unfolding align_lower_offset aligned_size
aligned_range_covers b offset size h start =
    ground (arith, div-add-mod offset b, div-add-mod size b, mod-lt size h, mod-lt offset h)

-- From inside a block on, a range whose size is a whole number of blocks reaches beyond the
-- aligned range, for a block size that is not 0.
pub aligned_range_short :
    (b offset size : ℕ)
    → 0 < b
    → offset % b ≢ 0
    → size % b ≡ 0
    → align_lower_offset b offset + aligned_size b size < offset + size
unfolding align_lower_offset aligned_size
aligned_range_short b offset size h inside whole =
    ground (arith, div-add-mod offset b, div-add-mod size b, mod-lt size h, mod-lt offset h)

double_mod : (b r : ℕ) → r < b → ((r + r) % b ≡ 0) ↔ ((r ≡ 0) ⊎ (r + r ≡ b))
double_mod b r h = ground (
  arith,
  λ (small : r + r < b). mod-eq_of_lt small,
  λ (large : b ≤ r + r). mod-eq-sub-mod large,
  λ (small : r + r - b < b). mod-eq_of_lt small,
)

-- For a block size that is not 0, `alignUpperOffset` yields a multiple of it exactly at a block's
-- start, or half-way through a block.
pub align_upper_offset_iff :
    (b offset : ℕ)
    → 0 < b
    → (align_upper_offset b offset % b ≡ 0) ↔ ((offset % b ≡ 0) ⊎ (2 * (offset % b) ≡ b))
unfolding align_upper_offset
align_upper_offset_iff b offset h =
    ground (arith, double_mod b (offset % b) (mod-lt offset h), mod-add-mod offset b (offset % b))

-- The blocks of a range: as many as were asked for, each a block's start if the first is.
pub length-offset_array : (b start n : ℕ) → length (offset_array b start n) ≡ n
unfolding offset_array
length-offset_array b start zero = refl
length-offset_array b start (suc n) = omega (arith, length-offset_array b (start + b) n)
