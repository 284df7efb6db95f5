-- ===== src/WorkspaceLock/Select/Saved.antt =====
-- What a request for a saved target stands for.
use mathlib.Core.Path.{subst}
use conda_presto.Prelude.{
  String, ◌≡◌, sym, ◌⊎◌, inl, inr, true, Option, some, List, [], ◌∷◌, string_eq, option_eq,
  contains, ◌==◌, Bool-cases,
}
use conda_presto.Resolve.Dispatch.{returned}
use conda_presto.Workspace.Error.{Answers, no_more, answer}
use conda_presto.Workspace.Select.Pick.{or_step, or_later, contains-one}
use conda_presto.WorkspaceLock.Select.{saved_on, only_saved, pick_saved}

-- The saved target that a request stands for: that of its name, or else the only one on that subdir.
pub record IsSaved (subdir : String → Option String) (declared : List String)
    (requested target : String) : Type 0 where
  pub saved : contains declared target ≡ true
  pub asked : (target ≡ requested) ⊎ (saved_on subdir declared requested ≡ target ∷ [])

contains-saved_on :
    (subdir : String → Option String) (items : List String) (requested t : String)
    → contains (saved_on subdir items requested) t ≡ true
    → contains items t ≡ true
unfolding saved_on
contains-saved_on subdir [] requested t h = h
contains-saved_on subdir (item ∷ items) requested t h =
    let later = contains-saved_on subdir items requested t in
    elim (Bool-cases (subdir item == some requested)) [
      | inl e ↦
          or_step (t == item) (contains (saved_on subdir items requested) t) (contains items t)
            later (rw e at h)
      | inr e ↦ or_later (t == item) (contains items t) (later (rw e at h))
    ]

only_saved-one :
    (name requested target : String) (found : List String)
    → only_saved name requested found ≡ returned target
    → found ≡ target ∷ []
unfolding only_saved
only_saved-one name requested target [] h = cc h
only_saved-one name requested target (t ∷ []) h = cc h
only_saved-one name requested target (t ∷ u ∷ found) h = cc h

pick_saved-IsSaved :
    (name : String) (subdir : String → Option String) (declared : List String)
    (requested target : String)
    → pick_saved name subdir declared requested ≡ returned target
    → IsSaved subdir declared requested target
unfolding pick_saved
pick_saved-IsSaved name subdir declared requested target h =
    elim (Bool-cases (contains declared requested)) [
      | inl e ↦
          let same : requested ≡ target = cc (rw e at h) in
          record { saved = subst (λ t. contains declared t ≡ true) same e; asked = inl (sym same) }
      | inr e ↦
          let found = saved_on subdir declared requested in
          let only = only_saved-one name requested target found (rw e at h) in
          record {
            saved =
                contains-saved_on subdir declared requested target (contains-one found target only);
            asked = inr only;
          }
    ]

-- What each request of a list stands for.
pub data Saved (subdir : String → Option String) (declared : List String)
    : List String → List String → Type 0 where
  no_requests : Saved subdir declared [] []
  saves :
      (r t : String) (rs ts : List String)
      → IsSaved subdir declared r t
      → Saved subdir declared rs ts
      → Saved subdir declared (r ∷ rs) (t ∷ ts)

pub picks-Saved :
    (name : String) (subdir : String → Option String) (declared rs ts : List String)
    → Answers (pick_saved name subdir declared) rs ts
    → Saved subdir declared rs ts
picks-Saved name subdir declared _ _ no_more = no_requests
picks-Saved name subdir declared _ _ (answer r t rs ts h more) =
    saves r t rs ts (pick_saved-IsSaved name subdir declared r t h)
      (picks-Saved name subdir declared rs ts more)
