-- ===== src/Cfs/Align.antt =====
-- The block arithmetic of src/cacheHelp.c and of the first lines of `cfs_read` and `cfs_write`.
pub mod Bounds
use ece566_project.Prelude.{
  ℕ, zero, suc, ◌+◌, ◌-◌, ◌*◌, ◌/◌, ◌%◌, ◌≤◌, ◌<◌, ◌≡◌, refl, ◌↔◌, ◌⊎◌, inl, inr, Bool, true, false,
  not, List, [], ◌∷◌, arith, ◌==◌, if◌then◌else◌,
}

unfoldable pub align_lower_offset : ℕ → ℕ → ℕ
align_lower_offset block_size offset = offset - offset % block_size

unfoldable pub align_upper_offset : ℕ → ℕ → ℕ
align_upper_offset block_size offset = offset + offset % block_size

-- `alignedSize`: the size in whole blocks, rounded up
unfoldable pub aligned_size : ℕ → ℕ → ℕ
aligned_size block_size size =
    let whole = block_size * (size / block_size) in
    if not (size % block_size == 0) then whole + block_size else whole

-- `offsetArray[i] = start + i * block_size` for `number_blocks` rounds
unfoldable pub offset_array : ℕ → ℕ → ℕ → List ℕ
offset_array block_size start zero = []
offset_array block_size start (suc n) = start ∷ offset_array block_size (start + block_size) n
