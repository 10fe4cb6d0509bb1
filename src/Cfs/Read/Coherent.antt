-- ===== src/Cfs/Read/Coherent.antt =====
-- Every block that the metadata lists for a file holds the bytes of the NAS file; one round of
-- `cfs_cacheWrite` keeps that.
use ece566_project.Prelude.{
  ℕ, ◌+◌, ◌*◌, ◌/◌, ◌%◌, ◌≤◌, ◌<◌, ◌≡◌, ◌≢◌, sym, ap, ◌∙◌, ◌⊎◌, inl, inr, true, List, arith, Name,
  length, drop, length-take,
}
use ece566_project.Sql.{Tables}
use ece566_project.Sql.Cached.{cached}
use ece566_project.Cfs.Bytes.{
  slice, overwrite, slice-overwrite_self, slice-overwrite_ne, length-slice, length-drop,
}
use native.Mathlib.Decide.{dec_lt, ℕ_discrete}
use native.Mathlib.Nat.{div-add-mod}

-- Listed blocks start at multiples of the block size, and those that lie inside the NAS file hold
-- its bytes.
pub record Coherent (bs : ℕ) (t : Tables) (name : Name) (nas cache : List ℕ) : Type 0 where
  pub aligned : (o : ℕ) → cached t name o ≡ true → o % bs ≡ 0
  pub agrees :
      (o : ℕ) → cached t name o ≡ true → o + bs ≤ length nas → slice bs o cache ≡ slice bs o nas

multiples_apart : (b x y : ℕ) → x < y → b * x + b ≤ b * y
multiples_apart b x y h = grind arith

-- Two block starts that differ are a block apart.
pub starts_apart : (b o p : ℕ) → o % b ≡ 0 → p % b ≡ 0 → o ≢ p → (p + b ≤ o) ⊎ (o + b ≤ p)
starts_apart b o p ho hp ne =
    let eo = div-add-mod o b in
    let ep = div-add-mod p b in
    elim (dec_lt (o / b) (p / b)) [
      | yes l ↦ inr (omega (arith, multiples_apart b (o / b) (p / b) l))
      | no l ↦ elim (dec_lt (p / b) (o / b)) [
        | yes g ↦ inl (omega (arith, multiples_apart b (p / b) (o / b) g))
        | no g ↦
            let q : o / b ≡ p / b = omega arith in
            absurd (ne (omega (arith, ap (λ (t : ℕ). b * t) q)))
      ]
    ]

pub long_enough :
    (b o : ℕ) (cache nas : List ℕ)
    → 0 < b
    → o + b ≤ length nas
    → slice b o cache ≡ slice b o nas
    → o + b ≤ length cache
long_enough b o cache nas pos_b h e = omega (
  arith,
  ap length e,
  length-slice b o nas h,
  length-take {0} b (drop o cache),
  length-drop cache o,
)

-- A block that is written with the bytes of the NAS keeps the cache coherent, whichever blocks are
-- listed besides it.
pub overwrite-Coherent :
    (b off : ℕ) (t t' : Tables) (name : Name) (nas cache block : List ℕ)
    → 0 < b
    → off % b ≡ 0
    → off + b ≤ length nas
    → block ≡ slice b off nas
    → ((o : ℕ) → cached t' name o ≡ true → (cached t name o ≡ true) ⊎ (o ≡ off))
    → Coherent b t name nas cache
    → Coherent b t' name nas (overwrite cache off block)
overwrite-Coherent b off t t' name nas cache block pos_b start inside same_bytes listed c = record {
  aligned = λ o q. ground (arith, listed o q, c.aligned o);
  agrees = λ o q within. agree o (ℕ_discrete o off) q within;
}
  where
    len : length block ≡ b
    len = ap length same_bytes ∙ length-slice b off nas inside

    fresh : slice b off (overwrite cache off block) ≡ slice b off nas
    fresh =
        ap (λ (n : ℕ). slice n off (overwrite cache off block)) (sym len)
        ∙ slice-overwrite_self cache off block
        ∙ same_bytes

    agree :
        (o : ℕ)
        → Dec (o ≡ off)
        → cached t' name o ≡ true
        → o + b ≤ length nas
        → slice b o (overwrite cache off block) ≡ slice b o nas
    agree o (yes e) q within = rw e fresh
    agree o (no ne) q within =
        let old : cached t name o ≡ true = ground (arith, listed o q) in
        let kept = c.agrees o old within in
        slice-overwrite_ne cache off block b o (long_enough b o cache nas pos_b within kept)
          (ground (arith, starts_apart b o off (c.aligned o old) start ne, len))
        ∙ kept
