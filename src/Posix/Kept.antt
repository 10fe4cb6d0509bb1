-- ===== src/Posix/Kept.antt =====
-- Computations that leave the metadata alone, one rule for each way to build one.
use mathlib.Core.Path.{◌≡◌, refl, ap, ◌∙◌}
use ece566_project.Prelude.{ℕ, Bool, true, false, if◌then◌else◌}
use ece566_project.Prelude.Int.{ℤ, pos}
use ece566_project.Posix.{
  Os, Sys, State, Syscall, pure, ◌>>=◌, issue, log_error, log_syscall, log_keeps, checked,
}

pub record KeepsMeta {W Db A : Type 0} (m : State (Sys W Db) A) : Type 0 where
  pub at : (s : Sys W Db) → (m s).1.meta ≡ s.meta

module _ {W Db A : Type 0} where
  pub KeepsMeta-pure : (a : A) → KeepsMeta {W = W} {Db = Db} (pure a)
  KeepsMeta-pure a = record { at = λ s. refl }

  pub KeepsMeta-if :
      (b : Bool) (m n : State (Sys W Db) A)
      → KeepsMeta m
      → KeepsMeta n
      → KeepsMeta (if b then m else n)
  KeepsMeta-if true m n km kn = km
  KeepsMeta-if false m n km kn = kn

  pub KeepsMeta-bind :
      {B : Type 0} (m : State (Sys W Db) A) (f : A → State (Sys W Db) B)
      → KeepsMeta m
      → ((a : A) → KeepsMeta (f a))
      → KeepsMeta (m >>= f)
  KeepsMeta-bind m f km kf = record { at = λ s. (kf (m s).0).at (m s).1 ∙ km.at s }

module _ (os : Os) {Db : Type 0} where
  open os use {World}

  pub KeepsMeta-issue : (c : Syscall) → KeepsMeta (issue os {Db = Db} c)
  KeepsMeta-issue c = record { at = λ s. refl }

  pub KeepsMeta-log_error : (n : ℕ) → KeepsMeta (log_error os {Db = Db} n)
  unfolding log_error
  KeepsMeta-log_error n = record { at = λ s. refl }

  pub KeepsMeta-log_syscall : (r min_ret : ℤ) → KeepsMeta (log_syscall os {Db = Db} r min_ret)
  KeepsMeta-log_syscall r min_ret = record { at = λ s. ap (λ t. t.meta) (log_keeps os r min_ret s) }

  pub KeepsMeta-checked : (c : Syscall) → KeepsMeta (checked os {Db = Db} c)
  KeepsMeta-checked c = record {
    at = λ s. (KeepsMeta-log_syscall (issue os c s).0.value (pos 0)).at (issue os c s).1;
  }

pub ruleset kept_rules = (
  KeepsMeta-checked, KeepsMeta-pure, KeepsMeta-if, KeepsMeta-issue, KeepsMeta-log_error,
  KeepsMeta-log_syscall, KeepsMeta-bind,
)
