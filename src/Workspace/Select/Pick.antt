-- ===== src/Workspace/Select/Pick.antt =====
-- What a request for a platform stands for.
use mathlib.Core.Path.{subst}
use conda_presto.Prelude.{
  String, ◌≡◌, refl, sym, ◌⊎◌, inl, inr, Bool, true, false, not, ◌&&◌, ◌||◌, List, [], ◌∷◌, arith,
  string_eq, contains, ◌==◌, ==_refl, Bool-cases,
}
use conda_presto.Resolve.Dispatch.{returned}
use conda_presto.Workspace.Select.{is_empty, matching, the_match, pick}

-- The target that a request stands for: the declared target of that name, or else the only one with
-- that subdir; the request itself where nothing is declared.
pub record IsPick (subdir : String → String) (declared : List String) (requested target : String)
    : Type 0 where
  pub allowed : (is_empty declared || contains declared target) ≡ true
  pub asked : (target ≡ requested) ⊎ (matching subdir declared requested ≡ target ∷ [])

pub or_step : (a b c : Bool) → (b ≡ true → c ≡ true) → (a || b) ≡ true → (a || c) ≡ true
or_step true b c f h = refl
or_step false b c f h = f h

pub or_later : (a c : Bool) → c ≡ true → (a || c) ≡ true
or_later true c h = refl
or_later false c h = h

unless_stopped : (a c : Bool) → (not a && not c) ≡ false → (a || c) ≡ true
unless_stopped a c h = ground arith

contains-matching :
    (subdir : String → String) (items : List String) (requested t : String)
    → contains (matching subdir items requested) t ≡ true
    → contains items t ≡ true
unfolding matching
contains-matching subdir [] requested t h = h
contains-matching subdir (item ∷ items) requested t h =
    elim (Bool-cases (subdir item == requested)) [
      | inl e ↦
          or_step (t == item) (contains (matching subdir items requested) t) (contains items t)
            (contains-matching subdir items requested t) (rw e at h)
      | inr e ↦
          or_later (t == item) (contains items t)
            (contains-matching subdir items requested t (rw e at h))
    ]

the_match-one :
    (name requested target : String) (found : List String)
    → the_match name requested found ≡ returned target
    → found ≡ target ∷ []
unfolding the_match
the_match-one name requested target [] h = cc h
the_match-one name requested target (t ∷ []) h = cc h
the_match-one name requested target (t ∷ u ∷ found) h = cc h

pub contains-one : (found : List String) (t : String) → found ≡ t ∷ [] → contains found t ≡ true
contains-one found t e = rw (e, ==_refl t)

pub pick-IsPick :
    (name : String) (subdir : String → String) (declared : List String) (requested target : String)
    → pick name subdir declared requested ≡ returned target
    → IsPick subdir declared requested target
unfolding pick
pick-IsPick name subdir declared requested target h =
    elim (Bool-cases (not (is_empty declared) && not (contains declared requested))) [
      | inl e ↦
          let only =
            the_match-one name requested target (matching subdir declared requested) (rw e at h) in
          record {
            allowed = or_later (is_empty declared) (contains declared target) (
                contains-matching subdir declared requested target
                  (contains-one (matching subdir declared requested) target only));
            asked = inr only;
          }
      | inr e ↦
          let same : requested ≡ target = cc (rw e at h) in
          record {
            allowed =
                subst (λ t. (is_empty declared || contains declared t) ≡ true) same
                  (unless_stopped (is_empty declared) (contains declared requested) e);
            asked = inl (sym same);
          }
    ]

-- What each request of a list stands for, one after the other.
pub data Picks (subdir : String → String) (declared known : List String)
    : List String → List String → Type 0 where
  no_requests : Picks subdir declared known [] []
  picked :
      (r t : String) (rs ts : List String)
      → IsPick subdir declared r t
      → contains known (subdir t) ≡ true
      → Picks subdir declared known rs ts
      → Picks subdir declared known (r ∷ rs) (t ∷ ts)
