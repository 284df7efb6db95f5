-- ===== src/Exceptions/Redact/Urls/Fuel.antt =====
-- The fuel of the replacement of URLs is enough.
use conda_presto.Prelude.{
  ℕ, zero, suc, ◌≤◌, ◌<◌, ◌≡◌, refl, Bool, true, not, Bool-cases, [], ◌∷◌, length, arith, inl, inr,
}
use conda_presto.Exceptions.Text.{Text, is_scheme, is_space, take_while, drop_while}
use conda_presto.Exceptions.Redact.{sub_run, sub_step, sub, sub_urls}

drop_while-shorter : (p : ℕ → Bool) (t : Text) → length (drop_while p t) ≤ length t
unfolding drop_while
drop_while-shorter p [] = omega arith
drop_while-shorter p (c ∷ cs) = elim (Bool-cases (p c)) [
  | inl e ↦ rw e (omega (arith, drop_while-shorter p cs))
  | inr e ↦ rw e (omega arith)
]

drop_while-cons :
    (p : ℕ → Bool) (c : ℕ) (cs : Text) → p c ≡ true → drop_while p (c ∷ cs) ≡ drop_while p cs
unfolding drop_while
drop_while-cons p c cs e = rw e refl

-- Two continuations that agree on shorter texts.
Agree : ℕ → (Text → Text) → (Text → Text) → Type 0
Agree n go go' = (t : Text) → length t ≤ n → go t ≡ go' t

sub_run-Agree :
    (n : ℕ) (run rest : Text) (go go' : Text → Text)
    → length rest ≤ n
    → Agree n go go'
    → sub_run run rest go ≡ sub_run run rest go'
unfolding sub_run Agree
sub_run-Agree n run rest go go' l a =
    rw
      (
        a rest l,
        a (drop_while (λ c. not (is_space c)) rest)
            (omega (arith, l, drop_while-shorter (λ c. not (is_space c)) rest)),
      )
      refl

rest-shorter :
    (n c : ℕ) (cs : Text)
    → is_scheme c ≡ true
    → length cs ≤ n
    → length (drop_while is_scheme (c ∷ cs)) ≤ n
rest-shorter n c cs e l =
    rw (drop_while-cons is_scheme c cs e) (omega (arith, l, drop_while-shorter is_scheme cs))

sub_step-Agree :
    (n c : ℕ) (cs : Text) (go go' : Text → Text)
    → length cs ≤ n
    → Agree n go go'
    → sub_step (c ∷ cs) go ≡ sub_step (c ∷ cs) go'
unfolding sub_step Agree
sub_step-Agree n c cs go go' l a = elim (Bool-cases (is_scheme c)) [
  | inl e ↦ rw e (
      sub_run-Agree n (take_while is_scheme (c ∷ cs)) (drop_while is_scheme (c ∷ cs)) go go'
        (rest-shorter n c cs e l) a)
  | inr e ↦ rw (e, a cs l) refl
]

sub-irrelevant : (f g : ℕ) (t : Text) → length t < f → length t < g → sub f t ≡ sub g t
unfolding sub sub_step Agree
sub-irrelevant zero g t l m = absurd (omega (arith, l))
sub-irrelevant (suc f) zero t l m = absurd (omega (arith, m))
sub-irrelevant (suc f) (suc g) [] l m = refl
sub-irrelevant (suc f) (suc g) (c ∷ cs) l m =
    sub_step-Agree (length cs) c cs (sub f) (sub g) (omega arith)
      (λ t k. sub-irrelevant f g t (omega (arith, l, k)) (omega (arith, m, k)))

-- With more fuel than the text is long the result is the same: `sub_urls` reaches the end of every
-- text, so that nothing of it is lost.
pub sub_urls-fuel : (fuel : ℕ) (text : Text) → length text < fuel → sub fuel text ≡ sub_urls text
unfolding sub_urls
sub_urls-fuel fuel text l = sub-irrelevant fuel (suc (length text)) text l (omega arith)
