-- ===== src/Workspace/Output/Representable.antt =====
-- What `validate_output` accepts can be represented.
use mathlib.Core.Path.{subst}
use conda_presto.Prelude.{
  affirmed, ℕ, suc, String, ◌≡◌, refl, sym, ◌∙◌, ap, ◌⊎◌, inl, inr, Bool, true, false, not, ◌&&◌,
  ◌||◌, Option, none, some, List, [], ◌∷◌, map, length, all, All, arith, if◌then◌else◌, string_eq,
  nat_eq, list_eq, ◌==◌, ==→eq, ==_refl, dedupe, contains, contains-dedupe, distinct,
  distinct-length, Bool-cases,
}
use conda_presto.OrderedDict.{OrderedDict, get}
use conda_presto.OrderedDict.Laws.{get-insert}
use conda_presto.Resolve.Dispatch.{returned}
use conda_presto.Exporter.{Exporter}
use conda_presto.Workspace.Error.{
  select_one_environment, shared_subdir, select_one_target, ◌>>=◌, bind-eq-returned,
}
use conda_presto.Workspace.Config.{WorkspaceTarget}
use conda_presto.Workspace.Input.{refuse_if}
use conda_presto.Workspace.Input.Composed.{refused_if}
use conda_presto.Workspace.Output.{
  combined, multiplatform, validate_single, matches_first, setdefault, check_channels,
  validate_output,
}

abbrev pub HasChannels : OrderedDict String (List String) → List WorkspaceTarget → Type 0
HasChannels d targets = All (λ t. get t.environment d ≡ some t.channels) targets

-- An entry that is set by default takes none away, and is the list of channels that was compared.
setdefault-keeps :
    (key : String) (channels : List String) (found : Option (List String))
    (d : OrderedDict String (List String))
    → get key d ≡ found
    → matches_first found channels ≡ true
    → ((k : String) (c : List String)
        → get k d ≡ some c
        → get k (setdefault key channels found d) ≡ some c)
      × (get key (setdefault key channels found d) ≡ some channels)
unfolding matches_first
setdefault-keeps key channels (some first) d e h =
    ((λ k c p. p), e ∙ ap some (==→eq first channels h))
setdefault-keeps key channels none d e h = (
  (λ k c p. get-insert k key channels d ∙ kept k c p (Bool-cases (key == k))),
  get-insert key key channels d ∙ rw (==_refl key) refl,
)
  where
    kept :
        (k : String) (c : List String)
        → get k d ≡ some c
        → ((key == k) ≡ true) ⊎ ((key == k) ≡ false)
        → (if key == k then some channels else get k d) ≡ some c
    kept k c p (inl same) =
        absurd
          (let q : get k d ≡ none = subst (λ j. get j d ≡ none) (==→eq key k same) e in cc (p, q))
    kept k c p (inr differ) = rw differ p

check_channels-HasChannels :
    (d : OrderedDict String (List String)) (targets : List WorkspaceTarget) (u : Unit)
    → check_channels d targets ≡ returned u
    → (e : OrderedDict String (List String)) × ((key : String) (c : List String)
        → get key d ≡ some c
        → get key e ≡ some c)
      × HasChannels e targets
unfolding check_channels
check_channels-HasChannels d [] u h = (d, (λ key c p. p), tt)
check_channels-HasChannels d (t ∷ ts) u h =
    elim (Bool-cases (matches_first (get t.environment d) t.channels)) [
      | inr m ↦ absurd (let h' = rw m at h in cc h')
      | inl m ↦
          let (keeps, has) =
            setdefault-keeps t.environment t.channels (get t.environment d) d refl m in
          let (e, grows, all_have) =
            check_channels-HasChannels (setdefault t.environment t.channels (get t.environment d) d)
              ts u (rw m at h) in
          (
            e,
            (λ key c p. grows key c (keeps key c p)),
            (grows t.environment t.channels has, all_have),
          )
    ]

both : (a b : Bool) → a ≡ true → b ≡ true → (a && b) ≡ true
both a b p q = ground arith

or_false_end : (a : Bool) → (a || false) ≡ true → a ≡ true
or_false_end a h = ground arith

contains_head : (x : String) (xs : List String) → contains (x ∷ xs) x ≡ true
contains_head x xs = rw (==_refl x) refl

contains_tail :
    (a x : String) (xs : List String) → contains xs a ≡ true → contains (x ∷ xs) a ≡ true
contains_tail a x xs h = ground arith

-- Every element of a list whose set has one element is that element.
pub all_one :
    (xs ys : List String)
    → ((a : String) → contains xs a ≡ true → contains ys a ≡ true)
    → length ys ≡ 1
    → (one : String) × (all (λ a. a == one) xs ≡ true)
all_one xs [] within h = absurd (omega (arith, h))
all_one xs (y ∷ z ∷ zs) within h = absurd (omega (arith, h))
all_one xs (y ∷ []) within h = (y, each xs within)
  where
    each :
        (xs : List String)
        → ((a : String) → contains xs a ≡ true → contains (y ∷ []) a ≡ true)
        → all (λ a. a == y) xs ≡ true
    each [] f = refl
    each (x ∷ xs) f =
        both (x == y) (all (λ a. a == y) xs) (or_false_end (x == y) (f x (contains_head x xs)))
          (each xs (λ a p. f a (contains_tail a x xs p)))

-- A selection that an exporter can represent: one list of channels for each environment; and, if the
-- exporter does not combine environments, one environment whose targets have distinct subdirs, and
-- one target for an exporter of single environments.
pub record IsRepresentable {Env E : Type 0} (output : Exporter Env E)
    (targets : List WorkspaceTarget) : Type 0 where
  pub channels : (d : OrderedDict String (List String)) × HasChannels d targets
  pub single :
      combined output ≡ false
      → ((name : String) × (all (λ a. a == name) (map (λ t. t.environment) targets) ≡ true))
        × (distinct (map (λ t. t.subdir) targets) ≡ true)
        × ((multiplatform output ≡ true) ⊎ (length targets ≡ 1))

pub several_or_one :
    (several : Bool) (n : ℕ) → (not several && not (n == 1)) ≡ false → (several ≡ true) ⊎ (n ≡ 1)
several_or_one true n h = inl refl
several_or_one false n h = inr (==→eq n 1 (affirmed (n == 1) h))

length-map :
    (f : WorkspaceTarget → String) (ts : List WorkspaceTarget) → length (map f ts) ≡ length ts
length-map f [] = refl
length-map f (t ∷ ts) = ap suc (length-map f ts)

module _ {Env E : Type 0} where
  validate_single-Single :
      (output : Exporter Env E) (targets : List WorkspaceTarget) (u : Unit)
      → validate_single output targets ≡ returned u
      → ((name : String) × (all (λ a. a == name) (map (λ t. t.environment) targets) ≡ true))
        × (distinct (map (λ t. t.subdir) targets) ≡ true)
        × ((multiplatform output ≡ true) ⊎ (length targets ≡ 1))
  unfolding validate_single
  validate_single-Single output targets u h =
      let environments = map (λ t. t.environment) targets in
      let subdirs = map (λ t. t.subdir) targets in
      let one = not (length (dedupe environments) == 1) in
      let apart = not (length (dedupe subdirs) == length targets) in
      let (u2, first, last) =
        bind-eq-returned
          (refuse_if one select_one_environment >>= λ _. refuse_if apart shared_subdir)
          (λ _.
            refuse_if (not (multiplatform output) && not (length targets == 1)) select_one_target)
          u h in
      let (u1, start, second) =
        bind-eq-returned (refuse_if one select_one_environment) (λ _. refuse_if apart shared_subdir)
          u2 first in
      let counted : length (dedupe environments) ≡ 1 = ==→eq (length (dedupe environments)) 1 (
        affirmed (length (dedupe environments) == 1)
          (refused_if one select_one_environment u1 start)) in
      let as_many : length (dedupe subdirs) ≡ length targets =
        ==→eq (length (dedupe subdirs)) (length targets) (
          affirmed (length (dedupe subdirs) == length targets)
            (refused_if apart shared_subdir u2 second)) in
      (
        all_one environments (dedupe environments) (λ a p. contains-dedupe environments a ∙ p)
            counted,
        distinct-length subdirs (as_many ∙ sym (length-map (λ t. t.subdir) targets)),
        several_or_one (multiplatform output) (length targets) (
            refused_if (not (multiplatform output) && not (length targets == 1)) select_one_target u
              last),
      )

  -- What `validate_output` accepts the exporter can represent: each environment has one list of
  -- channels; and an exporter that does not combine environments is given the targets of one, with
  -- distinct subdirs, and a single one if it writes no file for several platforms.
  pub validate_output-IsRepresentable :
      (output : Exporter Env E) (targets : List WorkspaceTarget) (u : Unit)
      → validate_output (some output) targets ≡ returned u
      → IsRepresentable output targets
  unfolding validate_output
  validate_output-IsRepresentable output targets u h = elim (Bool-cases (combined output)) [
    | inl c ↦
        let h' = rw c at h in
        let (d, _, has) = check_channels-HasChannels [] targets u h' in
        record { channels = (d, has); single = λ n. absurd (cc (c, n)) }
    | inr c ↦
        let (v, alone, rest) =
          bind-eq-returned (validate_single output targets) (λ _. check_channels [] targets) u
            (rw c at h) in
        let (d, _, has) = check_channels-HasChannels [] targets u rest in
        record { channels = (d, has); single = λ n. validate_single-Single output targets v alone }
  ]
