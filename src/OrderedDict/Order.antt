-- ===== src/OrderedDict/Order.antt =====
-- Sums and predicates over the entries: what the operations add and take away.
use conda_presto.Prelude.{
  ℕ, suc, ◌+◌, ◌≤◌, ◌≡◌, refl, Option, none, some, [], ◌∷◌, ◌++◌, arith, length, length-append, ◌⊎◌,
  inl, inr, sym,
}
use mathlib.Core.Path.{subst, subst₂}
use conda_presto.Prelude.{Eq}
use conda_presto.OrderedDict.{OrderedDict, get, insert, erase, move, move_to_end, NodupKeys}

module _ {κ} {V : Type κ} where
  abbrev pub weight? : (V → ℕ) → Option V → ℕ
  weight? f none = 0
  weight? f (some v) = f v

  abbrev pub one? : Option V → ℕ
  one? none = 0
  one? (some v) = 1

module _ {ℓ κ} {K : Type ℓ} {V : Type κ} where
  -- `sum(f(v) for v in d.values())`
  abbrev pub weight : (V → ℕ) → OrderedDict K V → ℕ
  weight f [] = 0
  weight f ((_, v) ∷ d) = f v + weight f d

  -- `P` holds of every entry.
  abbrev pub Each {μ} : (K → V → Type μ) → OrderedDict K V → Type μ
  Each P [] = Unit
  Each P ((k, v) ∷ d) = P k v × Each P d

  pub weight-append_one :
      (f : V → ℕ) (k : K) (v : V) (d : OrderedDict K V)
      → weight f (d ++ ((k, v) ∷ [])) ≡ weight f d + f v
  weight-append_one f k v [] = omega arith
  weight-append_one f k v (_ ∷ d) = omega (arith, weight-append_one f k v d)

  Each-append_one {μ} :
      (P : K → V → Type μ) (k : K) (v : V) (d : OrderedDict K V)
      → Each P d
      → P k v
      → Each P (d ++ ((k, v) ∷ []))
  Each-append_one P k v [] h p = (p, tt)
  Each-append_one P k v (_ ∷ d) h p = (h.0, Each-append_one P k v d h.1 p)

module _ {ℓ κ} {K : Type ℓ} {V : Type κ} ⦃e : Eq K⦄ where
  pub weight-insert :
      (f : V → ℕ) (k : K) (v : V) (d : OrderedDict K V)
      → weight f (insert k v d) + weight? f (get k d) ≡ weight f d + f v
  unfolding insert get
  weight-insert f k v [] = omega arith
  weight-insert f k v (_ ∷ d) = ground (arith, weight-insert f k v d)

  pub length-insert :
      (k : K) (v : V) (d : OrderedDict K V) → length (insert k v d) + one? (get k d) ≡ length d + 1
  unfolding insert get
  length-insert k v [] = omega arith
  length-insert k v (_ ∷ d) = ground (arith, length-insert k v d)

  pub weight-erase :
      (f : V → ℕ) (k : K) (d : OrderedDict K V)
      → NodupKeys d
      → weight f (erase k d) + weight? f (get k d) ≡ weight f d
  unfolding erase get
  weight-erase f k [] u = omega arith
  weight-erase f k ((j, w) ∷ d) u = ground (arith, weight-erase f k d u.1)

  pub weight?-get-le : (f : V → ℕ) (k : K) (d : OrderedDict K V) → weight? f (get k d) ≤ weight f d
  unfolding get
  weight?-get-le f k [] = omega arith
  weight?-get-le f k (_ ∷ d) = ground (arith, weight?-get-le f k d)

  pub length-erase : (k : K) (d : OrderedDict K V) → length (erase k d) ≤ length d
  unfolding erase
  length-erase k [] = omega arith
  length-erase k (_ ∷ d) = ground (arith, length-erase k d)

  get-cons_cases :
      (k j : K) (v w : V) (d : OrderedDict K V)
      → get k ((j, w) ∷ d) ≡ some v
      → ((j ≡ k) × (w ≡ v)) ⊎ (get k d ≡ some v)
  unfolding get
  get-cons_cases k j v w d h = ground arith

  erase-cons_cases :
      (k j : K) (w : V) (d : OrderedDict K V)
      → (erase k ((j, w) ∷ d) ≡ erase k d) ⊎ (erase k ((j, w) ∷ d) ≡ (j, w) ∷ erase k d)
  unfolding erase
  erase-cons_cases k j w d = ground arith

  insert-cons_cases :
      (k j : K) (v w : V) (d : OrderedDict K V)
      → ((j ≡ k) × (insert k v ((j, w) ∷ d) ≡ (j, v) ∷ d))
        ⊎ (insert k v ((j, w) ∷ d) ≡ (j, w) ∷ insert k v d)
  unfolding insert
  insert-cons_cases k j v w d = ground arith

  module _ {μ} (P : K → V → Type μ) where
    pub Each-get : (k : K) (v : V) (d : OrderedDict K V) → Each P d → get k d ≡ some v → P k v
    Each-get k v [] h g = absurd (unfold get in cc)
    Each-get k v ((j, w) ∷ d) h g = elim (get-cons_cases k j v w d g) [
      | inl (p, q) ↦ subst₂ P p q h.0
      | inr g' ↦ Each-get k v d h.1 g'
    ]

    pub Each-erase : (k : K) (d : OrderedDict K V) → Each P d → Each P (erase k d)
    Each-erase k [] h = unfold erase in h
    Each-erase k ((j, w) ∷ d) h = elim (erase-cons_cases k j w d) [
      | inl p ↦ rw p (Each-erase k d h.1)
      | inr p ↦ rw p (h.0, Each-erase k d h.1)
    ]

    pub Each-insert :
        (k : K) (v : V) (d : OrderedDict K V) → Each P d → P k v → Each P (insert k v d)
    Each-insert k v [] h p = unfold insert in (p, tt)
    Each-insert k v ((j, w) ∷ d) h p = elim (insert-cons_cases k j v w d) [
      | inl (q, r) ↦ rw r (subst (λ x. P x v) (sym q) p, h.1)
      | inr r ↦ rw r (h.0, Each-insert k v d h.1 p)
    ]

    pub Each-move_to_end : (k : K) (d : OrderedDict K V) → Each P d → Each P (move_to_end k d)
    unfolding move_to_end
    Each-move_to_end k d h = go (get k d) refl
      where
        go : (o : Option V) → get k d ≡ o → Each P (move k o d)
        go none g = h
        go (some v) g = Each-append_one P k v (erase k d) (Each-erase k d h) (Each-get k v d h g)

  pub weight-move_to_end :
      (f : V → ℕ) (k : K) (d : OrderedDict K V)
      → NodupKeys d
      → weight f (move_to_end k d) ≡ weight f d
  unfolding move_to_end
  weight-move_to_end f k d u = go (get k d) refl
    where
      go : (o : Option V) → get k d ≡ o → weight f (move k o d) ≡ weight f d
      go none g = refl
      go (some v) g = ground (arith, weight-append_one f k v (erase k d), weight-erase f k d u)

  length-erase_present :
      (k : K) (v : V) (d : OrderedDict K V) → get k d ≡ some v → suc (length (erase k d)) ≤ length d
  unfolding erase get
  length-erase_present k v [] g = cc
  length-erase_present k v (_ ∷ d) g = ground (arith, length-erase k d, length-erase_present k v d)

  pub length-move_to_end : (k : K) (d : OrderedDict K V) → length (move_to_end k d) ≤ length d
  unfolding move_to_end
  length-move_to_end k d = go (get k d) refl
    where
      go : (o : Option V) → get k d ≡ o → length (move k o d) ≤ length d
      go none g = omega arith
      go (some v) g =
          omega (arith, length-append (erase k d) ((k, v) ∷ []), length-erase_present k v d g)
