-- ===== src/Cfs/Write/Range.antt =====
-- What writing a range of blocks from the NAS file to the cache does to their agreement.
use ece566_project.Prelude.{
  ℕ, zero, suc, ◌+◌, ◌-◌, ◌*◌, ◌%◌, ◌≤◌, ◌<◌, ◌≡◌, sym, ap, ◌∙◌, ◌⊎◌, inl, inr, true, List, arith,
  Name, length,
}
use ece566_project.Sql.{Tables}
use ece566_project.Sql.Cached.{cached}
use ece566_project.Meta.Lookups.Ranges.{member}
use ece566_project.Cfs.Align.{offset_array}
use ece566_project.Cfs.Bytes.{
  slice, overwrite, slice-overwrite_self, slice-overwrite_ne, slice-slice, length-slice,
  length-overwrite,
}
use ece566_project.Cfs.Read.Coherent.{Coherent, starts_apart, long_enough}
use native.Mathlib.Decide.{dec_lt}
use native.Mathlib.Nat.{add-mod_right, mod-add-mod, mul-mod_right}

-- The block at `o` is one of the `n` blocks from `off` on.
pub record IsInRange (b off n o : ℕ) : Type 0 where
  pub aligned : o % b ≡ 0
  pub from_start : off ≤ o
  pub to_end : o + b ≤ off + b * n

pub member-offset_array :
    (b o start n : ℕ)
    → start % b ≡ 0
    → member o (offset_array b start n) ≡ true
    → IsInRange b start n o
unfolding offset_array
member-offset_array b o start zero s h = ground arith
member-offset_array b o start (suc n) s h =
    let e : b * suc n ≡ b + b * n = omega arith in
    ground (arith, add-mod_right start b, member-offset_array b o (start + b) n)

whole_end : (b off n : ℕ) → off % b ≡ 0 → (off + b * n) % b ≡ 0
whole_end b off n h = ground (arith, mod-add-mod off b (b * n), mul-mod_right b n)

-- Inside the range, or a block apart from it.
inside_or_apart :
    (b off n o : ℕ)
    → off % b ≡ 0
    → o % b ≡ 0
    → 0 < b
    → ((off ≤ o) × (o + b ≤ off + b * n)) ⊎ ((off + b * n ≤ o) ⊎ (o + b ≤ off))
inside_or_apart b off n o s a pos_b = elim (dec_lt o off) [
  | yes before ↦ ground (arith, starts_apart b o off a s)
  | no after ↦ elim (dec_lt o (off + b * n)) [
    | yes within ↦ ground (arith, starts_apart b o (off + b * n) a (whole_end b off n s))
    | no behind ↦ ground arith
  ]
]

module _ (b off n : ℕ) (nas bytes cache block : List ℕ) (pos_b : 0 < b) (start : off % b ≡ 0)
    (inside : off + b * n ≤ length nas) (fits : length bytes ≤ b * n)
    (from_nas : block ≡ slice (b * n) off (overwrite nas off bytes)) where
  kept_length : length (overwrite nas off bytes) ≡ length nas
  kept_length = length-overwrite nas off bytes (omega arith)

  block_length : length block ≡ b * n
  block_length =
      ap length from_nas
      ∙ length-slice (b * n) off (overwrite nas off bytes) (omega (arith, kept_length))

  -- A block of the range has the new bytes of the NAS file.
  range_inside :
      (o : ℕ)
      → off ≤ o
      → o + b ≤ off + b * n
      → slice b o (overwrite cache off block) ≡ slice b o (overwrite nas off bytes)
  range_inside o lo hi =
      let whole : slice (b * n) off (overwrite cache off block) ≡ block =
        ap (λ (k : ℕ). slice k off (overwrite cache off block)) (sym block_length)
        ∙ slice-overwrite_self cache off block in
      let place : off + (o - off) ≡ o = omega arith in
      ap (λ (k : ℕ). slice b k (overwrite cache off block)) (sym place)
      ∙ sym (slice-slice b (o - off) (b * n) off (overwrite cache off block) (omega arith))
      ∙ ap (slice b (o - off)) (whole ∙ from_nas)
      ∙ slice-slice b (o - off) (b * n) off (overwrite nas off bytes) (omega arith)
      ∙ ap (λ (k : ℕ). slice b k (overwrite nas off bytes)) place

  -- The cache stays coherent with the NAS file after both are written in the range.
  pub range-Coherent :
      (t t' : Tables) (name : Name)
      → ((o : ℕ) → cached t' name o ≡ true → (cached t name o ≡ true) ⊎ IsInRange b off n o)
      → Coherent b t name nas cache
      → Coherent b t' name (overwrite nas off bytes) (overwrite cache off block)
  range-Coherent t t' name listed c = record {
    aligned = aligned_of;
    agrees =
        λ o q within. agree o q within (inside_or_apart b off n o start (aligned_of o q) pos_b);
  }
    where
      aligned_of : (o : ℕ) → cached t' name o ≡ true → o % b ≡ 0
      aligned_of o q = ground (arith, listed o q, c.aligned o)

      agree :
          (o : ℕ)
          → cached t' name o ≡ true
          → o + b ≤ length (overwrite nas off bytes)
          → ((off ≤ o) × (o + b ≤ off + b * n)) ⊎ ((off + b * n ≤ o) ⊎ (o + b ≤ off))
          → slice b o (overwrite cache off block) ≡ slice b o (overwrite nas off bytes)
      agree o q within (inl (lo, hi)) = range_inside o lo hi
      agree o q within (inr apart) =
          let old : cached t name o ≡ true = ground (arith, listed o q) in
          let within' : o + b ≤ length nas = omega (arith, kept_length) in
          let kept = c.agrees o old within' in
          slice-overwrite_ne cache off block b o (long_enough b o cache nas pos_b within' kept)
            (ground (arith, block_length))
          ∙ kept
          ∙ sym (slice-overwrite_ne nas off bytes b o within' (ground arith))
