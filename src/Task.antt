-- ===== src/Task.antt =====
-- Stateful code: a task takes the state and returns a value with the state that it leaves.
pub mod Meets
use conda_presto.Prelude.{Bool, true, false}

abbrev pub Task {ℓ κ} : Type ℓ → Type κ → Type (ℓ ⊔ κ)
Task S A = S → A × S

module _ {ℓ κ} {S : Type ℓ} {A : Type κ} where
  unfoldable pub pure : A → Task S A
  pure a s = (a, s)

  unfoldable pub gets : (S → A) → Task S A
  gets f s = (f s, s)

module _ {ℓ} {S : Type ℓ} where
  unfoldable pub modify : (S → S) → Task S (Unit {0})
  modify f s = (tt, f s)

module _ {ℓ κ μ} {S : Type ℓ} {A : Type κ} {B : Type μ} where
  infixl 10 ◌>>=◌ ◌>>◌
  -- opening this opens `pure`, `gets` and `modify` too
  unfoldable pub ◌>>=◌ : Task S A → (A → Task S B) → Task S B
  unfolding pure gets modify
  ◌>>=◌ m f s = let (a, s') = m s in f a s'

  abbrev pub ◌>>◌ : Task S A → Task S B → Task S B
  m >> n = m >>= λ _. n
