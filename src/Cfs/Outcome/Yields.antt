-- ===== src/Cfs/Outcome/Yields.antt =====
-- What an outcome may be: a result with a property, and a hang or a fault only where the two types
-- `H` and `F` allow one. `⊥` allows none, `Unit` any.
use ece566_project.Cfs.Outcome.{Outcome, Run, ◌>>=◌}

abbrev pub Yields : {S A : Type 0} → Type 0 → Type 0 → (A → S → Type 0) → Outcome (A × S) → Type 0
Yields H F Q (Outcome.done (a, s)) = Q a s
Yields H F Q Outcome.hang = H
Yields H F Q Outcome.fault = F

module _ {S A B : Type 0} (H F : Type 0) where
  pub Yields-bind :
      (m : Run S A) (f : A → Run S B) (s : S) (Q : A → S → Type 0) (R : B → S → Type 0)
      → Yields H F Q (m s)
      → ((a : A) (s' : S) → Q a s' → Yields H F R (f a s'))
      → Yields H F R ((m >>= f) s)
  Yields-bind m f s Q R y k = bind_outcome (m s) y
    where
      bind_outcome :
          (o : Outcome (A × S))
          → Yields H F Q o
          → Yields H F R (elim o [
            | Outcome.done (a, s') ↦ f a s'
            | Outcome.hang ↦ Outcome.hang
            | Outcome.fault ↦ Outcome.fault
          ])
      bind_outcome (Outcome.done (a, s')) q = k a s' q
      bind_outcome Outcome.hang q = q
      bind_outcome Outcome.fault q = q
