-- ===== src/Prelude/Distinct.antt =====
-- Lists without duplicates: `dict.fromkeys` and the lemmas on `in` that go with it.
use Prim.Native.Nat.{suc, ◌+◌, ◌≤◌}
use mathlib.Core.Path.{subst, ◌≡◌, refl, sym, ◌∙◌, ap}
use mathlib.Core.Logic.{inl, inr}
use mathlib.Core.Bool.{Bool, true, false, not, ◌&&◌, ◌||◌}
use mathlib.Core.List.{List, [], ◌∷◌, ◌++◌, append-nil, append_assoc}
use native.Mathlib.Omega.{arith}
use conda_presto.Prelude.Lists.{length, length-append}
use conda_presto.Prelude.Tests.{Eq, ◌==◌, contains, if◌then◌else◌, Bool-cases, ==_refl, ==→eq}

or_end : (p q : Bool) → (p || (q || false)) ≡ (p || q)
or_end p q = ground arith

or_assoc : (p q r : Bool) → ((p || q) || r) ≡ (p || (q || r))
or_assoc p q r = ground arith

pub or_split : (p q : Bool) → (p || q) ≡ false → (p ≡ false) × (q ≡ false)
or_split p q h = ground arith

pub and_split : (p q : Bool) → (p && q) ≡ true → (p ≡ true) × (q ≡ true)
and_split p q h = ground arith

pub affirmed : (p : Bool) → not p ≡ false → p ≡ true
affirmed p h = ground arith

pub negated : (p : Bool) → not p ≡ true → p ≡ false
negated p h = ground arith

module _ {ℓ} {A : Type ℓ} ⦃e : Eq A⦄ where
  ==_sym : (a b : A) → (a == b) ≡ (b == a)
  ==_sym a b = ground (arith, ==_refl a)

  abbrev pub distinct : List A → Bool
  distinct [] = true
  distinct (x ∷ xs) = not (contains xs x) && distinct xs

  -- `if x not in xs: xs.append(x)`
  abbrev pub add : List A → A → List A
  add xs x = if contains xs x then xs else xs ++ (x ∷ [])

  unfoldable pub add_all : List A → List A → List A
  add_all xs [] = xs
  add_all xs (y ∷ ys) = add_all (add xs y) ys

  -- `list(dict.fromkeys(xs))`
  unfoldable pub dedupe : List A → List A
  unfolding add_all
  dedupe xs = add_all [] xs

  pub contains-append :
      (xs ys : List A) (a : A) → contains (xs ++ ys) a ≡ (contains xs a || contains ys a)
  contains-append [] ys a = refl
  contains-append (x ∷ xs) ys a = ground (arith, contains-append xs ys a)

  pub contains-last : (xs : List A) (a : A) → contains (xs ++ (a ∷ [])) a ≡ true
  contains-last [] a = ground (arith, ==_refl a)
  contains-last (x ∷ xs) a = ground (arith, contains-last xs a)

  pub contains-before :
      (xs ys : List A) (a : A) → contains xs a ≡ true → contains (xs ++ ys) a ≡ true
  contains-before xs ys a h = ground (arith, contains-append xs ys a)

  pub distinct-append_one :
      (xs : List A) (x : A)
      → distinct xs ≡ true
      → contains xs x ≡ false
      → distinct (xs ++ (x ∷ [])) ≡ true
  distinct-append_one [] x d n = refl
  distinct-append_one (y ∷ xs) x d n =
      let (fresh, rest) = and_split (not (contains xs y)) (distinct xs) d in
      let (differ, out) = or_split (x == y) (contains xs x) n in
      let apart : (y == x) ≡ false = ==_sym y x ∙ differ in
      rw (contains-append xs (x ∷ []) y, negated (contains xs y) fresh, apart)
        (distinct-append_one xs x rest out)

  pub distinct-add : (xs : List A) (x : A) → distinct xs ≡ true → distinct (add xs x) ≡ true
  distinct-add xs x d = elim (Bool-cases (contains xs x)) [
    | inl c ↦ rw c d
    | inr c ↦ rw c (distinct-append_one xs x d c)
  ]

  pub distinct-add_all : (xs ys : List A) → distinct xs ≡ true → distinct (add_all xs ys) ≡ true
  unfolding add_all
  distinct-add_all xs [] d = d
  distinct-add_all xs (y ∷ ys) d = distinct-add_all (add xs y) ys (distinct-add xs y d)

  pub distinct-dedupe : (xs : List A) → distinct (dedupe xs) ≡ true
  unfolding dedupe
  distinct-dedupe xs = distinct-add_all [] xs refl

  contains-add : (xs : List A) (x a : A) → contains (add xs x) a ≡ (contains xs a || (a == x))
  contains-add xs x a = elim (Bool-cases (contains xs x)) [
    | inl c ↦
        rw c (absorbed (a == x) (λ h. subst (λ y. contains xs y ≡ true) (sym (==→eq a x h)) c))
    | inr c ↦ rw c (contains-append xs (x ∷ []) a ∙ or_end (contains xs a) (a == x))
  ]
    where
      absorbed :
          (b : Bool) → (b ≡ true → contains xs a ≡ true) → contains xs a ≡ (contains xs a || b)
      absorbed true h = ground arith
      absorbed false h = ground arith

  contains-add_all :
      (xs ys : List A) (a : A) → contains (add_all xs ys) a ≡ (contains xs a || contains ys a)
  unfolding add_all
  contains-add_all xs [] a = ground arith
  contains-add_all xs (y ∷ ys) a =
      contains-add_all (add xs y) ys a
      ∙ (ap (λ b. b || contains ys a) (contains-add xs y a)
          ∙ or_assoc (contains xs a) (a == y) (contains ys a))

  pub contains-dedupe : (xs : List A) (a : A) → contains (dedupe xs) a ≡ contains xs a
  unfolding dedupe
  contains-dedupe xs a = contains-add_all [] xs a

  length-add : (xs : List A) (x : A) → length (add xs x) ≤ suc (length xs)
  length-add xs x = elim (Bool-cases (contains xs x)) [
    | inl c ↦ rw c (omega arith)
    | inr c ↦ rw c (omega (arith, length-append xs (x ∷ [])))
  ]

  length-add_all : (xs ys : List A) → length (add_all xs ys) ≤ length xs + length ys
  unfolding add_all
  length-add_all xs [] = omega arith
  length-add_all xs (y ∷ ys) = omega (arith, length-add_all (add xs y) ys, length-add xs y)

  all_added :
      (xs ys : List A) → length (add_all xs ys) ≡ length xs + length ys → add_all xs ys ≡ xs ++ ys
  unfolding add_all
  all_added xs [] h = sym (append-nil xs)
  all_added xs (y ∷ ys) h = elim (Bool-cases (contains xs y)) [
    | inl c ↦ absurd (omega (arith, length-add_all xs ys, rw c at h))
    | inr c ↦ rw c (
        all_added (xs ++ (y ∷ [])) ys (omega (arith, rw c at h, length-append xs (y ∷ [])))
        ∙ append_assoc xs (y ∷ []) ys)
  ]

  -- A set with as many elements as the list has tells that no element stands in it twice.
  pub distinct-length : (xs : List A) → length (dedupe xs) ≡ length xs → distinct xs ≡ true
  unfolding dedupe
  distinct-length xs h =
      subst (λ ys. distinct ys ≡ true) (all_added [] xs (omega (arith, h))) (distinct-dedupe xs)

  pub length-dedupe : (xs : List A) → length (dedupe xs) ≤ length xs
  unfolding dedupe
  length-dedupe xs = omega (arith, length-add_all [] xs)
