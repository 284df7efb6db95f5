-- ===== src/Exceptions/Redact/Urls/Absent.antt =====
-- No URL is left by `URL_RE.sub`.
use conda_presto.Prelude.{
  ℕ, zero, suc, ◌≡◌, refl, ◌∙◌, inl, inr, Bool, true, false, not, ◌&&◌, ◌||◌, [], ◌∷◌, ◌++◌, length,
  all, any, arith, Bool-cases,
}
use conda_presto.Exceptions.Text.{
  Text, join_lines, splitlines, is_letter, is_lead, is_scheme, take_while, drop_while,
}
use conda_presto.Exceptions.Redact.{
  is_empty, opens, redacted_url, sub_run, sub, redact_lines, sub_urls, Exception,
  safe_error_message, redact_safe_error, unsatisfiable, packages_not_found, other,
}
use conda_presto.Exceptions.Redact.Urls.{
  has_url, scheme_not_colon, sub-plain, drop_while-cons, drop_while-stop, sub-scheme, after_url,
  sub_run_cases, opens-cons_sub, closed, closed-drop_while, all_scheme, all_lead,
}

pub scheme_split :
    (c : ℕ) (b : Bool) → (is_scheme c && b) ≡ true → (is_scheme c ≡ true) × (b ≡ true)
scheme_split c b h = elim (Bool-cases (is_scheme c)) [
  | inl e ↦ (e, rw e at h)
  | inr e ↦ absurd (let h' = rw e at h in cc)
]

pub has_url-run :
    (seen : Bool) (run rest : Text)
    → all is_scheme run ≡ true
    → has_url seen (run ++ rest) ≡ has_url (seen || any is_letter run) rest
unfolding has_url
has_url-run true [] rest h = refl
has_url-run false [] rest h = refl
has_url-run true (c ∷ run) rest h =
    let (e, more) = scheme_split c (all is_scheme run) h in
    rw (scheme_not_colon c e, e) (has_url-run true run rest more)
has_url-run false (c ∷ run) rest h =
    let (e, more) = scheme_split c (all is_scheme run) h in
    rw e (has_url-run (is_letter c) run rest more)

lead_is_scheme : (c : ℕ) → is_lead c ≡ true → (is_scheme c ≡ true) × (is_letter c ≡ false)
lead_is_scheme c h = (ground arith, ground arith)

has_url-lead :
    (run rest : Text) → all is_lead run ≡ true → has_url false (run ++ rest) ≡ has_url false rest
unfolding has_url
has_url-lead [] rest h = refl
has_url-lead (c ∷ run) rest h = elim (Bool-cases (is_lead c)) [
  | inl e ↦ rw ((lead_is_scheme c e).0, (lead_is_scheme c e).1) (has_url-lead run rest (rw e at h))
  | inr e ↦ absurd (let h' = rw e at h in cc)
]

has_url-redacted_url : (t : Text) → has_url false (redacted_url ++ t) ≡ has_url false t
unfolding has_url
has_url-redacted_url t = refl

-- A run with a letter has something behind its prefix.
letter_behind_prefix :
    (run : Text) → any is_letter run ≡ true → is_empty (drop_while is_lead run) ≡ false
letter_behind_prefix [] h = cc
letter_behind_prefix (c ∷ run) h = elim (Bool-cases (is_lead c)) [
  | inl e ↦
      rw (drop_while-cons is_lead c run e)
        (letter_behind_prefix run (rw (lead_is_scheme c e).1 at h))
  | inr e ↦ rw (drop_while-stop is_lead c run e)
]

pub has_url-plain :
    (seen : Bool) (c : ℕ) (cs : Text)
    → is_scheme c ≡ false
    → (seen ≡ true → opens (c ∷ cs) ≡ false)
    → has_url seen (c ∷ cs) ≡ has_url false cs
unfolding has_url
has_url-plain true c cs e h = rw (e, h refl)
has_url-plain false c cs e h = rw e

not_opens-sub : (f c : ℕ) (cs : Text) → opens (c ∷ cs) ≡ false → opens (c ∷ sub f cs) ≡ false
not_opens-sub f c cs h = elim (Bool-cases (opens (c ∷ sub f cs))) [
  | inl e ↦ cc (opens-cons_sub f c cs e)
  | inr e ↦ e
]

closed_split :
    (c : ℕ) (cs : Text) → closed (c ∷ cs) ≡ true → (is_scheme c ≡ false) × (opens (c ∷ cs) ≡ false)
unfolding closed
closed_split c cs h = not_split (is_scheme c) (opens (c ∷ cs)) h
  where
    not_split : (a b : Bool) → (not a && not b) ≡ true → (a ≡ false) × (b ≡ false)
    not_split a b k = ground arith

abbrev Replaced : (Text → Text) → Type 0
Replaced go =
    (t : Text) (seen : Bool) → (seen ≡ true → closed t ≡ true) → has_url seen (go t) ≡ false

has_url-sub_run :
    (run cs : Text) (go : Text → Text)
    → all is_scheme run ≡ true
    → Replaced go
    → has_url false (sub_run run (drop_while is_scheme cs) go) ≡ false
has_url-sub_run run cs go scheme ih = elim (sub_run_cases run (drop_while is_scheme cs) go) [
  | inl (e, open_false) ↦ rw e (
      has_url-run false run _ scheme
      ∙ ih (drop_while is_scheme cs) (any is_letter run)
          λ letter. closed-drop_while cs (open_false (letter_behind_prefix run letter)))
  | inr e ↦ rw e (
      has_url-lead (take_while is_lead run) _ (all_lead run)
      ∙ has_url-redacted_url _
      ∙ ih (after_url (drop_while is_scheme cs)) false (λ h. cc))
]

-- What `sub` returns holds no URL: the run that is open in front of it cannot become one either.
has_url-sub : (f : ℕ) → Replaced (sub f)
has_url-sub zero t seen h = unfold sub has_url in refl
has_url-sub (suc f) [] seen h = unfold sub has_url in refl
has_url-sub (suc f) (c ∷ cs) false h = elim (Bool-cases (is_scheme c)) [
  | inl e ↦ rw (sub-scheme f c cs e) (
      has_url-sub_run (c ∷ take_while is_scheme cs) cs (sub f) (rw e (all_scheme cs))
        (has_url-sub f))
  | inr e ↦
      rw (sub-plain f c cs e, has_url-plain false c (sub f cs) e (λ h. cc))
        (has_url-sub f cs false (λ h. cc))
]
has_url-sub (suc f) (c ∷ cs) true h =
    let (e, o) = closed_split c cs (h refl) in
    rw (sub-plain f c cs e, has_url-plain true c (sub f cs) e (λ _. not_opens-sub f c cs o))
      (has_url-sub f cs false (λ h. cc))

pub has_url-sub_urls : (t : Text) → has_url false (sub_urls t) ≡ false
unfolding sub_urls
has_url-sub_urls t = has_url-sub (suc (length t)) t false (λ h. cc)

pub has_url-redact : (m : Text) → has_url false (redact_safe_error m) ≡ false
unfolding redact_safe_error
has_url-redact m = has_url-sub_urls (join_lines (redact_lines false (splitlines m)))

-- No error message that is returned to a client holds a URL, whatever the exception and its text.
pub has_url-safe_error_message : (e : Exception) → has_url false (safe_error_message e) ≡ false
unfolding safe_error_message
has_url-safe_error_message (unsatisfiable m) = has_url-redact m
has_url-safe_error_message (packages_not_found m) = has_url-redact m
has_url-safe_error_message (other m) = unfold has_url in refl
