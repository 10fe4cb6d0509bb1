-- ===== src/Cfs/Read/Loop.antt =====
-- The loop of `cfs_read` over the blocks of a range that lies inside the NAS file.
use ece566_project.Prelude.{
  ℕ, zero, suc, ◌+◌, ◌*◌, ◌%◌, ◌≤◌, ◌<◌, ◌≡◌, refl, sym, ap, ◌∙◌, inl, inr, true, List, [], ◌++◌,
  map, arith, Name, length, take, Bool-cases,
}
use ece566_project.Prelude.Int.{ℤ, pos, ◌+ℤ◌, +ℤ_pos_zero}
use ece566_project.Sql.{Tables}
use ece566_project.Sql.Cached.{cached}
use ece566_project.Sql.Engine.{Engine, IsHealthy}
use ece566_project.Meta.Lookups.{bit}
use ece566_project.Posix.{Os, Sys}
use ece566_project.Cfs.{Config, FileInfo}
use ece566_project.Cfs.Align.{offset_array}
use ece566_project.Cfs.Bytes.{slice, overwrite}
use ece566_project.Cfs.Disk.{IsDisk}
use ece566_project.Cfs.Outcome.{Outcome}
use ece566_project.Cfs.Read.{read_blocks}
use ece566_project.Cfs.Read.Blocks.{Steady}
use mathlib.Core.List.{append-nil}
use native.Mathlib.Nat.{add-mod_right, mul-zero}
use ece566_project.Cfs.Read.Rounds.{
  after_pread, after_pread-Steady, spare, Fills, after_miss, miss-Steady, miss_mono, next_fits,
  hit_round, miss_round,
}

module _ (cfg : Config) (os : Os) (e : Engine) (h : IsHealthy e) (contents : ℤ → os.World → List ℕ)
    (fi : FileInfo) (disk : IsDisk os contents fi.fh) (name : Name) (nas : List ℕ)
    (pos_b : 0 < cfg.block_size) where
  open os use {World}
  open cfg use {block_size}

  no_blocks :
      (fuel at : ℕ) (retstat : ℤ) (buf : List ℕ) (s : Sys World e.Db)
      → read_blocks cfg os e (suc fuel) name fi [] [] at retstat buf s
        ≡ Outcome.done ((retstat, buf), s)
  unfolding read_blocks
  no_blocks fuel at retstat buf s = refl

  no_bytes :
      (at start l : ℕ) (buf : List ℕ) → l ≡ 0 → take (at + l) buf ≡ take at buf ++ slice l start nas
  no_bytes at start l buf z =
      rw z (ap (λ (k : ℕ). take k buf) (omega arith) ∙ sym (append-nil (take at buf)))

  -- The loop reads the whole range from the NAS or from coherent copies of it.
  pub read_blocks_lem :
      (fuel n start at : ℕ) (t : Tables) (retstat : ℤ) (buf : List ℕ) (s : Sys World e.Db)
      → Steady cfg os e contents fi.fh name nas n s
      → ((o : ℕ) → cached t name o ≡ true → cached (e.tables s.meta.db) name o ≡ true)
      → start % block_size ≡ 0
      → start + block_size * n ≤ length nas
      → at + block_size * n ≤ length buf
      → Fills cfg os e h contents fi disk name nas pos_b fuel
          (map (λ o. bit (cached t name o)) (offset_array block_size start n))
          (offset_array block_size start n)
          n
          start
          at
          retstat
          buf
          s
  unfolding offset_array
  read_blocks_lem fuel zero start at t retstat buf s st mono aligned inside fits = (
    retstat,
    buf,
    s,
    no_blocks fuel at retstat buf s,
    record {
      status =
          sym (+ℤ_pos_zero retstat) ∙ ap (λ (l : ℕ). retstat +ℤ pos l) (sym (mul-zero block_size));
      bytes = no_bytes at start (block_size * 0) buf (mul-zero block_size);
      size = refl;
      steady = st;
    },
  )
  read_blocks_lem fuel (suc n) start at t retstat buf s st mono aligned inside fits =
      let offs = offset_array block_size (start + block_size) n in
      let hits = map (λ o. bit (cached t name o)) offs in
      let in_nas : start + block_size ≤ length nas = omega arith in
      let in_buf : at + block_size ≤ length buf = omega arith in
      let buf1 = overwrite buf at (slice block_size start nas) in
      let room : at + block_size + block_size * n ≤ length buf1 = omega (
        arith,
        next_fits cfg os e h contents fi disk name nas pos_b fuel hits offs at retstat buf n start s
            st in_nas in_buf,
      ) in
      let aligned' : (start + block_size) % block_size ≡ 0 =
        add-mod_right start block_size ∙ aligned in
      let rest =
        read_blocks_lem fuel n (start + block_size) (at + block_size) t (retstat +ℤ pos block_size)
          buf1 in
      elim (Bool-cases (cached t name start)) [
        | inl hit ↦ rw hit (
            hit_round cfg os e h contents fi disk name nas pos_b fuel hits offs at retstat buf n
              start s st in_nas in_buf n (st.coherent.agrees start (mono start hit) in_nas)
              (rest
                (after_pread cfg os e h contents fi disk name nas pos_b fi.fh.cache_fh block_size
                  start s)
                (after_pread-Steady cfg os e h contents fi disk name nas pos_b fi.fh.cache_fh
                  block_size start n s disk.cache
                  (spare cfg os e h contents fi disk name nas pos_b n s st))
                mono aligned' (omega arith) room))
        | inr miss ↦ rw miss (
            miss_round cfg os e h contents fi disk name nas pos_b fuel hits offs at retstat buf n
              start s st in_nas in_buf n
              (rest
                (after_miss cfg os e h contents fi disk name nas pos_b fuel hits offs at retstat buf
                  n start s st in_nas in_buf)
                (miss-Steady cfg os e h contents fi disk name nas pos_b fuel hits offs at retstat
                  buf n start s st in_nas in_buf aligned)
                (λ o q.
                  miss_mono cfg os e h contents fi disk name nas pos_b fuel hits offs at retstat buf
                    n start s st in_nas in_buf o (mono o q))
                aligned' (omega arith) room))
      ]
