-- ===== src/Task/Meets.antt =====
-- A task that keeps an invariant of the state and whose result has a property: one rule for each
-- way to build a task.
use conda_presto.Prelude.{◌≡◌, refl, Bool, true, false, if◌then◌else◌}
use conda_presto.Task.{Task, pure, modify, ◌>>=◌}

pub record Meets {ℓ κ μ} {S : Type ℓ} {A : Type κ} (P : S → Type μ) (Q : A → Type μ) (m : Task S A)
    : Type (ℓ ⊔ μ) where
  pub at : (s : S) → P s → P (m s).1 × Q (m s).0

-- The task keeps the invariant, whatever it returns.
abbrev pub Keeps {ℓ κ μ} : {S : Type ℓ} {A : Type κ} → (S → Type μ) → Task S A → Type (ℓ ⊔ μ)
Keeps P m = Meets P (λ _. Unit) m

module _ {ℓ κ μ} {S : Type ℓ} {A : Type κ} {P : S → Type μ} {Q : A → Type μ} where
  pub Meets-pure : (a : A) → Q a → Meets P Q (pure a)
  unfolding pure
  Meets-pure a q = record { at = λ s p. (p, q) }

  pub Meets-if :
      (test : Bool) (first second : Task S A)
      → (test ≡ true → Meets P Q first)
      → (test ≡ false → Meets P Q second)
      → Meets P Q (if test then first else second)
  Meets-if true first second met _ = met refl
  Meets-if false first second _ met = met refl

  -- a branch on a test of the state
  pub Meets-choose :
      (f : S → Bool) (m n : Task S A)
      → Meets P Q m
      → Meets P Q n
      → Meets P Q (λ s. (if f s then m else n) s)
  Meets-choose f m n km kn = record { at = λ s p. (Meets-if (f s) m n (λ _. km) (λ _. kn)).at s p }

  pub Meets-Keeps : (m : Task S A) → Meets P Q m → Keeps P m
  Meets-Keeps m k = record { at = λ s p. ((k.at s p).0, tt) }

module _ {ℓ μ} {S : Type ℓ} {P : S → Type μ} where
  pub Keeps-modify : (f : S → S) → ((s : S) → P s → P (f s)) → Keeps P (modify f)
  unfolding modify
  Keeps-modify f k = record { at = λ s p. (k s p, tt) }

module _ {ℓ κ ν μ} {S : Type ℓ} {A : Type κ} {B : Type ν} {P : S → Type μ} {R : A → Type μ}
    {Q : B → Type μ} where
  pub Meets-bind :
      (m : Task S A) (f : A → Task S B)
      → Meets P R m
      → ((a : A) → R a → Meets P Q (f a))
      → Meets P Q (m >>= f)
  unfolding ◌>>=◌
  Meets-bind m f km kf = record { at = λ s p. let k = km.at s p in (kf (m s).0 k.1).at (m s).1 k.0 }
