-- ===== src/Cfs/Outcome.antt =====
-- How a callback that moves data can end: with a result, in a loop that never ends, or in
-- undefined behaviour (a division by zero, or memory used out of bounds).
pub mod Yields
use ece566_project.Prelude.{ℕ, List, ◌+◌, leb, if◌then◌else◌, length}
use ece566_project.Posix.{State}
use ece566_project.Cfs.Bytes.{overwrite}

pub data Outcome (A : Type 0) : Type 0 where
  done : A → Outcome A
  hang fault : Outcome A

abbrev pub Run : Type 0 → Type 0 → Type 0
Run S A = S → Outcome (A × S)

abbrev pub pure : {S A : Type 0} → A → Run S A
pure a s = Outcome.done (a, s)

abbrev pub undefined : {S A : Type 0} → Run S A
undefined s = Outcome.fault

abbrev pub lift : {S A : Type 0} → State S A → Run S A
lift m s = Outcome.done (m s)

infixl 5 ◌>>=◌ ◌>>◌
abbrev pub ◌>>=◌ : {S A B : Type 0} → Run S A → (A → Run S B) → Run S B
◌>>=◌ m f s = elim (m s) [
  | Outcome.done (a, s') ↦ f a s'
  | Outcome.hang ↦ Outcome.hang
  | Outcome.fault ↦ Outcome.fault
]

abbrev pub ◌>>◌ : {S A B : Type 0} → Run S A → Run S B → Run S B
m >> k = m >>= λ _. k

-- Bytes stored into a block of memory.
abbrev pub store : {S : Type 0} → List ℕ → ℕ → List ℕ → Run S (List ℕ)
store buf at bytes =
    if leb (at + length bytes) (length buf) then pure (overwrite buf at bytes) else undefined
