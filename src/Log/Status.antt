-- ===== src/Log/Status.antt =====
-- The status that `log_syscall` of src/log.c returns: `-errno`, read after the error is printed.
use ece566_project.Prelude.{
  ◌≡◌, ◌↔◌, refl, sym, ap, ◌∙◌, ℕ, true, arith, List, Name, Bool-cases, inl, inr,
}
use ece566_project.Prelude.Int.{ℤ, neg, ltb_ℤ}
use ece566_project.Posix.{Os, Sys}
use ece566_project.Posix as P
use ece566_project.Log.{Logger, Arg, log_msg, log_error, log_retstat, log_syscall}

-- `errno` is what was stored in it.
abbrev pub KeepsErrno : Logger → Type 0
KeepsErrno l = (n : ℕ) (w : l.World) → l.errno (l.set_errno n w) ≡ n

neg_injective : (a b : ℕ) → neg a ≡ neg b → a ≡ b
neg_injective a b h = ground (arith, h)

module _ (l : Logger) (k : KeepsErrno l) (func : Name) (retstat min_ret : ℤ) (w : l.World) where
  -- For a return value below the least good one, `log_error` answers `-errno` of the call, and
  -- `log_syscall` returns that exactly when `errno` is the same after the error is printed. What
  -- is stored in `errno` is read back.
  pub log_syscall_status_iff :
      ltb_ℤ retstat min_ret ≡ true
      → let (error, w') = log_error l func (log_retstat l func retstat w) in
        (error ≡ neg (l.errno w))
        × (((log_syscall l func retstat min_ret w).0 ≡ neg (l.errno w)) ↔ (l.errno w' ≡ l.errno w))
  unfolding log_syscall log_error log_retstat
  log_syscall_status_iff low = rw low (ap neg (k (l.errno w) _), (neg_injective _ _, λ h. ap neg h))

-- A logger that prints beside the system. What is stored in `errno` is read back, and where it is
-- that of the last call, it is what the system says after one message once an error is printed.
pub record IsBeside (l : Logger) (os : Os) (view : l.World → os.World) : Type 0 where
  pub vfprintf : (f : Name) (a : List Arg) (w : l.World) → view (l.vfprintf f a w) ≡ view w
  pub set_errno : (n : ℕ) (w : l.World) → view (l.set_errno n w) ≡ view w
  pub kept : KeepsErrno l
  pub printed :
      (func : Name) (w : l.World)
      → l.errno w ≡ os.errno 0 (view w)
      → l.errno (log_error l func w).1 ≡ os.errno 1 (view w)

module _ (l : Logger) (os : Os) (view : l.World → os.World) (q : IsBeside l os view) where
  view-log_retstat :
      (func : Name) (retstat : ℤ) (w : l.World) → view (log_retstat l func retstat w) ≡ view w
  unfolding log_retstat log_msg
  view-log_retstat func retstat w = q.set_errno _ _ ∙ q.vfprintf _ _ w

  -- `log_retstat` restores `errno`.
  errno-log_retstat :
      (func : Name) (retstat : ℤ) (w : l.World) → l.errno (log_retstat l func retstat w) ≡ l.errno w
  unfolding log_retstat
  errno-log_retstat func retstat w = q.kept _ _

  view-log_error : (func : Name) (w : l.World) → view (log_error l func w).1 ≡ view w
  unfolding log_error log_msg
  view-log_error func w = q.vfprintf _ _ w

  -- `log_syscall` of src/log.c with its printing, which may change `errno`, returns the status of
  -- the `log_syscall` that the callbacks are modelled with, and leaves the system as that does.
  -- Printing and storing in `errno` do nothing else to the system, what is stored in `errno` is
  -- read back, `errno` is that of the last call before, and the system says what it is after the
  -- message of an error.
  pub log_syscall_refines :
      {Db : Type 0} (func : Name) (retstat min_ret : ℤ) (w : l.World) (s : Sys os.World Db)
      → s.world ≡ view w
      → l.errno w ≡ os.errno 0 (view w)
      → let (status, w') = log_syscall l func retstat min_ret w in
        let (status', s') = P.log_syscall os retstat min_ret s in
        (status ≡ status') × (view w' ≡ s'.world)
  unfolding log_syscall P.log_syscall P.log_retstat P.log_error
  log_syscall_refines func retstat min_ret w s same current =
      let w1 = log_retstat l func retstat w in
      let kept = view-log_retstat func retstat w in
      let told =
        q.printed func w1
          (errno-log_retstat func retstat w ∙ current ∙ ap (os.errno 0) (sym kept)) in
      elim (Bool-cases (ltb_ℤ retstat min_ret)) [
        | inl low ↦ rw (low, told, view-log_error, kept, same) (refl, refl)
        | inr good ↦ rw (good, kept, same) (refl, refl)
      ]
