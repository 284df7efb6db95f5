-- ===== src/Exceptions/Redact/Urls.antt =====
-- What `URL_RE.sub` does at one character or run of a text, and what its result can open.
pub mod Absent
pub mod Clean
pub mod Fuel
use conda_presto.Prelude.{
  ℕ, zero, suc, ◌+◌, ◌≤◌, ◌<◌, ◌≡◌, refl, ◌∙◌, ap, sym, ◌⊎◌, inl, inr, Bool, true, false, not, ◌&&◌,
  ◌||◌, List, [], ◌∷◌, ◌++◌, leb, length, all, any, arith, Bool-cases, if◌then◌else◌,
}
use conda_presto.Exceptions.Text.{
  Text, codes, is_letter, is_lead, is_scheme, is_space, take_while, drop_while,
}
use conda_presto.Exceptions.Redact.{
  is_empty, opens_host, opens_slash, opens_slashes, opens, redacted_url, sub_run, sub_step, sub,
  sub_urls, Exception, safe_error_message, redact_safe_error, unsatisfiable, packages_not_found,
  other,
}

-- Whether a text holds a URL: somewhere `://` and a character that is no space follow a run of
-- scheme characters with a letter in it. `seen` says that the current run has had a letter.
unfoldable pub has_url : Bool → Text → Bool
has_url seen [] = false
has_url seen (c ∷ cs) =
    (seen && opens (c ∷ cs)) || has_url (is_scheme c && (seen || is_letter c)) cs

scheme_range : (c : ℕ) → is_scheme c ≡ true → (43 ≤ c) × (c ≤ 122)
scheme_range c h = ground arith

space_range : (c : ℕ) → is_space c ≡ true → (c ≤ 32) ⊎ (133 ≤ c)
space_range c h = ground arith

scheme_not_slash : (c : ℕ) → is_scheme c ≡ true → (leb 47 c && leb c 47) ≡ false
scheme_not_slash c h = ground arith

scheme_not_colon : (c : ℕ) → is_scheme c ≡ true → (leb 58 c && leb c 58) ≡ false
scheme_not_colon c h = ground arith

scheme_not_space : (c : ℕ) → is_scheme c ≡ true → is_space c ≡ false
scheme_not_space c h = elim (Bool-cases (is_space c)) [
  | inl e ↦ absurd (omega (arith, scheme_range c h, space_range c e))
  | inr e ↦ e
]

-- The two ways of `sub` at the first character.
sub-plain : (f c : ℕ) (cs : Text) → is_scheme c ≡ false → sub (suc f) (c ∷ cs) ≡ c ∷ sub f cs
unfolding sub
sub-plain f c cs h = rw h

take_while-cons :
    (p : ℕ → Bool) (c : ℕ) (cs : Text) → p c ≡ true → take_while p (c ∷ cs) ≡ c ∷ take_while p cs
unfolding take_while
take_while-cons p c cs h = rw h

drop_while-cons :
    (p : ℕ → Bool) (c : ℕ) (cs : Text) → p c ≡ true → drop_while p (c ∷ cs) ≡ drop_while p cs
unfolding drop_while
drop_while-cons p c cs h = rw h

drop_while-stop : (p : ℕ → Bool) (c : ℕ) (cs : Text) → p c ≡ false → drop_while p (c ∷ cs) ≡ c ∷ cs
unfolding drop_while
drop_while-stop p c cs h = rw h

sub-scheme :
    (f c : ℕ) (cs : Text)
    → is_scheme c ≡ true
    → sub (suc f) (c ∷ cs) ≡ sub_run (c ∷ take_while is_scheme cs) (drop_while is_scheme cs) (sub f)
unfolding sub sub_step
sub-scheme f c cs h = rw (h, take_while-cons is_scheme c cs h, drop_while-cons is_scheme c cs h)

after_url : Text → Text
after_url rest = drop_while (λ c. not (is_space c)) rest

-- A run is left alone, or has a letter, opens a URL and is replaced behind its prefix.
sub_run_cases :
    (run rest : Text) (go : Text → Text)
    → ((sub_run run rest go ≡ run ++ go rest)
        × (is_empty (drop_while is_lead run) ≡ false → opens rest ≡ false))
      ⊎ (sub_run run rest go ≡ take_while is_lead run ++ (redacted_url ++ go (after_url rest)))
unfolding sub_run after_url
sub_run_cases run rest go =
    elim (Bool-cases (not (is_empty (drop_while is_lead run)) && opens rest)) [
      | inl e ↦ inr (rw e)
      | inr e ↦ inl (rw e, λ h. ground arith)
    ]

-- A run begins, after the replacement too, with its own first character or with a bracket.
abbrev HeadOf : ℕ → Text → Type 0
HeadOf c t = (h : ℕ) × (r : Text) × (t ≡ h ∷ r) × ((h ≡ c) ⊎ (h ≡ 91))

lead_head :
    (c : ℕ) (run rest : Text) → HeadOf c (take_while is_lead (c ∷ run) ++ (redacted_url ++ rest))
unfolding take_while
lead_head c run rest = elim (Bool-cases (is_lead c)) [
  | inl e ↦ rw e (c, take_while is_lead run ++ (redacted_url ++ rest), refl, inl refl)
  | inr e ↦ rw e (91, _, refl, inr refl)
]

sub-scheme_head : (f c : ℕ) (cs : Text) → is_scheme c ≡ true → HeadOf c (sub (suc f) (c ∷ cs))
sub-scheme_head f c cs h =
    rw (sub-scheme f c cs h)
      (elim (sub_run_cases (c ∷ take_while is_scheme cs) (drop_while is_scheme cs) (sub f)) [
        | inl (e, _) ↦ rw e (c, _, refl, inl refl)
        | inr e ↦ rw e (lead_head c (take_while is_scheme cs) _)
      ])

-- What the replacement opens, the text has opened.
opens_host-sub : (f : ℕ) (t : Text) → opens_host (sub f t) ≡ true → opens_host t ≡ true
opens_host-sub zero t h = absurd (unfold sub in cc)
opens_host-sub (suc f) [] h = absurd (unfold sub in cc)
opens_host-sub (suc f) (c ∷ cs) h = elim (Bool-cases (is_scheme c)) [
  | inl e ↦ ap not (scheme_not_space c e)
  | inr e ↦ rw (sub-plain f c cs e) at h
]

opens_slash-sub : (f : ℕ) (t : Text) → opens_slash (sub f t) ≡ true → opens_slash t ≡ true
opens_slash-sub zero t h = absurd (unfold sub in cc)
opens_slash-sub (suc f) [] h = absurd (unfold sub in cc)
opens_slash-sub (suc f) (c ∷ cs) h = elim (Bool-cases (is_scheme c)) [
  | inl e ↦
      let (d, r, p, q) = sub-scheme_head f c cs e in
      absurd (let h' = rw p at h in ground (arith, scheme_not_slash c e))
  | inr e ↦ let h' = rw (sub-plain f c cs e) at h in ground (arith, opens_host-sub f cs)
]

opens_slashes-sub : (f : ℕ) (t : Text) → opens_slashes (sub f t) ≡ true → opens_slashes t ≡ true
opens_slashes-sub zero t h = absurd (unfold sub in cc)
opens_slashes-sub (suc f) [] h = absurd (unfold sub in cc)
opens_slashes-sub (suc f) (c ∷ cs) h = elim (Bool-cases (is_scheme c)) [
  | inl e ↦
      let (d, r, p, q) = sub-scheme_head f c cs e in
      absurd (let h' = rw p at h in ground (arith, scheme_not_slash c e))
  | inr e ↦ let h' = rw (sub-plain f c cs e) at h in ground (arith, opens_slash-sub f cs)
]

opens-cons_sub : (f c : ℕ) (cs : Text) → opens (c ∷ sub f cs) ≡ true → opens (c ∷ cs) ≡ true
opens-cons_sub f c cs h = ground (arith, opens_slashes-sub f cs)

-- Behind a run with a letter: no scheme character, and nothing that opens a URL.
closed : Text → Bool
closed [] = true
closed (c ∷ cs) = not (is_scheme c) && not (opens (c ∷ cs))

closed-drop_while :
    (cs : Text) → opens (drop_while is_scheme cs) ≡ false → closed (drop_while is_scheme cs) ≡ true
closed-drop_while [] h = unfold drop_while closed in refl
closed-drop_while (c ∷ cs) h = elim (Bool-cases (is_scheme c)) [
  | inl e ↦
      rw (drop_while-cons is_scheme c cs e)
        (closed-drop_while cs (rw (drop_while-cons is_scheme c cs e) at h))
  | inr e ↦
      rw (drop_while-stop is_scheme c cs e)
        (unfold closed in rw (e, rw (drop_while-stop is_scheme c cs e) at h))
]

all_scheme : (cs : Text) → all is_scheme (take_while is_scheme cs) ≡ true
unfolding take_while
all_scheme [] = refl
all_scheme (c ∷ cs) = elim (Bool-cases (is_scheme c)) [
  | inl e ↦ rw e (rw e (all_scheme cs))
  | inr e ↦ rw e
]

all_lead : (cs : Text) → all is_lead (take_while is_lead cs) ≡ true
unfolding take_while
all_lead [] = refl
all_lead (c ∷ cs) = elim (Bool-cases (is_lead c)) [
  | inl e ↦ rw e (rw e (all_lead cs))
  | inr e ↦ rw e
]
