-- ===== src/Agent/Action.antt =====
-- Methods that change a state and may fail: what was changed before a failure stays changed.
pub mod Runs
use zier_alpha.Agent.Client.{Failure, Outcome, done, failed}

-- `out_of_fuel` is the model's own.
pub data Reply {ℓ} (A : Type ℓ) : Type ℓ where
  replied : A → Reply A
  raised : Failure → Reply A
  out_of_fuel : Reply A

abbrev pub Action {ℓ} : Type ℓ → Type ℓ → Type ℓ
Action S A = S → Reply A × S

abbrev pub from_outcome {ℓ} : {A : Type ℓ} → Outcome A → Reply A
from_outcome (done a) = replied a
from_outcome (failed e) = raised e

module _ {ℓ} {S A : Type ℓ} where
  abbrev pub pure : A → Action S A
  pure a s = (replied a, s)

  abbrev pub raise : Failure → Action S A
  raise e s = (raised e, s)

  abbrev pub lift : Outcome A → Action S A
  lift o s = (from_outcome o, s)

module _ {ℓ} {S A B : Type ℓ} where
  abbrev pub after : Reply A → (A → Action S B) → Action S B
  after (replied a) f s = f a s
  after (raised e) f s = (raised e, s)
  after out_of_fuel f s = (out_of_fuel, s)

  infixl 5 ◌>>=◌ ◌>>◌
  unfoldable pub ◌>>=◌ : Action S A → (A → Action S B) → Action S B
  ◌>>=◌ m f s = let (r, s') = m s in after r f s'

  abbrev pub ◌>>◌ : Action S A → Action S B → Action S B
  m >> n = m >>= λ _. n
