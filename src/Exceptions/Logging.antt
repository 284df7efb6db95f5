-- ===== src/Exceptions/Logging.antt =====
-- `CredentialRedactionFilter`: the filter on every log handler, and what it does to a record.
use conda_presto.Prelude.{
  ℕ, ◌≡◌, refl, ap, Bool, true, false, not, ◌&&◌, Bool-cases, Option, none, some, List, [], ◌∷◌,
  ◌++◌, any, All, contains, contains-append, contains-before, ==_refl, nat_eq, if◌then◌else◌, arith,
  inl, inr,
}
use conda_presto.Exceptions.Text.{Text}
use conda_presto.Exceptions.Redact.{redact_safe_error}
use conda_presto.Exceptions.Redact.Urls.{has_url}
use conda_presto.Exceptions.Redact.Urls.Absent.{has_url-redact}

-- A filter of this class, or another one by its number.
pub data Filter : Type 0 where
  redaction : Filter
  another : ℕ → Filter

-- `logging`'s state: the handlers by their numbers, each with its filters, and which handlers the
-- root logger, `lastResort` and the other loggers have.
pub record Logging : Type 0 where
  pub handlers : List (ℕ × List Filter)
  pub root : List ℕ
  pub last_resort : Option ℕ
  pub loggers : List (List ℕ)

abbrev is_redaction : Filter → Bool
is_redaction redaction = true
is_redaction (another n) = false

abbrev concat : List (List ℕ) → List ℕ
concat [] = []
concat (handlers ∷ loggers) = handlers ++ concat loggers

abbrev one_or_none : Option ℕ → List ℕ
one_or_none none = []
one_or_none (some handler) = handler ∷ []

-- the set `handlers` of `install`
abbrev pub installed_on : Logging → List ℕ
installed_on l = l.root ++ (one_or_none l.last_resort ++ concat l.loggers)

unfoldable pub with_filter : Bool → List Filter → List Filter
with_filter wanted filters =
    if wanted && not (any is_redaction filters) then filters ++ (redaction ∷ []) else filters

unfoldable pub add_filters : List ℕ → List (ℕ × List Filter) → List (ℕ × List Filter)
unfolding with_filter
add_filters wanted [] = []
add_filters wanted (h ∷ handlers) =
    (h.0, with_filter (contains wanted h.0) h.1) ∷ add_filters wanted handlers

-- `install`
unfoldable pub install : Logging → Logging
unfolding add_filters
install l = record l { handlers = add_filters (installed_on l) l.handlers }

-- `getMessage()` with its arguments put in, and the formatted traceback if there is `exc_info`.
pub record LogRecord : Type 0 where
  pub message : Text
  pub exc_info : Option Text

abbrev whole : Text → Option Text → Text
whole message none = message
whole message (some formatted) = message ++ (10 ∷ formatted)

-- `filter`: the record's message is replaced, its arguments and exception are dropped.
unfoldable pub filter : LogRecord → LogRecord
filter r = record { message = redact_safe_error (whole r.message r.exc_info); exc_info = none }

any-append : (filters : List Filter) → any is_redaction (filters ++ (redaction ∷ [])) ≡ true
any-append [] = refl
any-append (f ∷ filters) = ground (arith, any-append filters)

with_filter-twice :
    (wanted : Bool) (filters : List Filter)
    → with_filter wanted (with_filter wanted filters) ≡ with_filter wanted filters
unfolding with_filter
with_filter-twice false filters = refl
with_filter-twice true filters = elim (Bool-cases (any is_redaction filters)) [
  | inl h ↦ rw (h, h) refl
  | inr h ↦ rw (h, any-append filters) refl
]

-- A handler is in use: it is one of the root logger, `lastResort` or one of another logger.
pub data IsInUse (l : Logging) (n : ℕ) : Type 0 where
  on_root : contains l.root n ≡ true → IsInUse l n
  as_last_resort : l.last_resort ≡ some n → IsInUse l n
  on_logger :
      (before : List (List ℕ)) (own : List ℕ) (after : List (List ℕ))
      → l.loggers ≡ before ++ (own ∷ after)
      → contains own n ≡ true
      → IsInUse l n

-- Each handler in use has a filter of this class.
abbrev pub IsCovered : Logging → List (ℕ × List Filter) → Type 0
IsCovered l handlers =
    All (λ (h : ℕ × List Filter). IsInUse l h.0 → any is_redaction h.1 ≡ true) handlers

contains_after : (xs ys : List ℕ) (n : ℕ) → contains ys n ≡ true → contains (xs ++ ys) n ≡ true
contains_after xs ys n h = ground (arith, contains-append xs ys n)

contains-logger :
    (before : List (List ℕ)) (own : List ℕ) (after : List (List ℕ)) (n : ℕ)
    → contains own n ≡ true
    → contains (concat (before ++ (own ∷ after))) n ≡ true
contains-logger [] own after n h = contains-before own (concat after) n h
contains-logger (first ∷ before) own after n h =
    contains_after first (concat (before ++ (own ∷ after))) n (contains-logger before own after n h)

IsInUse-installed_on : (l : Logging) (n : ℕ) → IsInUse l n → contains (installed_on l) n ≡ true
IsInUse-installed_on l n (on_root h) =
    contains-before l.root (one_or_none l.last_resort ++ concat l.loggers) n h
IsInUse-installed_on l n (as_last_resort h) =
    contains_after l.root (one_or_none l.last_resort ++ concat l.loggers) n (
      contains-before (one_or_none l.last_resort) (concat l.loggers) n
        (rw h (ground (arith, ==_refl n))))
IsInUse-installed_on l n (on_logger before own after e h) =
    contains_after l.root (one_or_none l.last_resort ++ concat l.loggers) n (
      contains_after (one_or_none l.last_resort) (concat l.loggers) n
        (rw e (contains-logger before own after n h)))

has_filter : (filters : List Filter) → any is_redaction (with_filter true filters) ≡ true
unfolding with_filter
has_filter filters = elim (Bool-cases (any is_redaction filters)) [
  | inl h ↦ rw (h, h) refl
  | inr h ↦ rw (h, any-append filters) refl
]

add_filters-covers :
    (l : Logging) (handlers : List (ℕ × List Filter))
    → IsCovered l (add_filters (installed_on l) handlers)
unfolding add_filters
add_filters-covers l [] = tt
add_filters-covers l (h ∷ handlers) =
    ((λ used. rw (IsInUse-installed_on l h.0 used) (has_filter h.1)), add_filters-covers l handlers)

add_filters-twice :
    (wanted : List ℕ) (handlers : List (ℕ × List Filter))
    → add_filters wanted (add_filters wanted handlers) ≡ add_filters wanted handlers
unfolding add_filters
add_filters-twice wanted [] = refl
add_filters-twice wanted (h ∷ handlers) =
    rw (with_filter-twice (contains wanted h.0) h.1, add_filters-twice wanted handlers) refl

-- After `install` every handler of the root logger, of `lastResort` and of the other loggers has
-- the filter, and installing again changes nothing.
pub install-IsCovered :
    (l : Logging) → IsCovered l (install l).handlers × (install (install l) ≡ install l)
unfolding install
install-IsCovered l = (
  add_filters-covers l l.handlers,
  ap (λ handlers. record l { handlers = handlers }) (add_filters-twice (installed_on l) l.handlers),
)

-- What a filtered record shows holds no URL, neither from its message nor from its exception, and
-- no exception is left to be formatted again.
pub has_url-filter :
    (r : LogRecord) → (has_url false (filter r).message ≡ false) × ((filter r).exc_info ≡ none)
unfolding filter
has_url-filter r = (has_url-redact (whole r.message r.exc_info), refl)
