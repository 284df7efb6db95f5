-- ===== src/Exceptions/Redact/Urls/Clean.antt =====
-- A text without a URL is left alone by `URL_RE.sub`: the fuel is enough for all of it.
use conda_presto.Prelude.{
  ℕ, zero, suc, ◌≤◌, ◌<◌, ◌≡◌, refl, ◌∙◌, ap, sym, Bool, true, false, not, ◌&&◌, [], ◌∷◌, ◌++◌,
  length, all, any, arith, Bool-cases, inl, inr,
}
use conda_presto.Exceptions.Text.{Text, is_letter, is_lead, is_scheme, take_while, drop_while}
use conda_presto.Exceptions.Redact.{is_empty, opens, sub_run, sub, sub_urls}
use conda_presto.Exceptions.Redact.Urls.{
  has_url, sub-plain, sub-scheme, take_while-cons, drop_while-cons, drop_while-stop, all_scheme,
}
use conda_presto.Exceptions.Redact.Urls.Absent.{
  scheme_split, has_url-run, has_url-plain, has_url-sub_urls,
}

has_url-weaken : (t : Text) → has_url true t ≡ false → has_url false t ≡ false
unfolding has_url
has_url-weaken [] h = refl
has_url-weaken (c ∷ cs) h = ground (arith, has_url-weaken cs)

weaken : (seen : Bool) (t : Text) → has_url seen t ≡ false → has_url false t ≡ false
weaken true t h = has_url-weaken t h
weaken false t h = h

has_url-opens : (t : Text) → opens t ≡ true → has_url true t ≡ true
unfolding has_url
has_url-opens [] h = cc
has_url-opens (c ∷ cs) h = rw h

prefix_has_letter :
    (run : Text)
    → all is_scheme run ≡ true
    → is_empty (drop_while is_lead run) ≡ false
    → any is_letter run ≡ true
prefix_has_letter [] s h = absurd (unfold drop_while in cc)
prefix_has_letter (c ∷ run) s h = elim (Bool-cases (is_lead c)) [
  | inl e ↦ ground (
    arith,
    prefix_has_letter run (scheme_split c (all is_scheme run) s).1
        (rw (drop_while-cons is_lead c run e) at h),
  )
  | inr e ↦ ground (arith, scheme_split c (all is_scheme run) s)
]

take-drop_while : (cs : Text) → (take_while is_scheme cs ++ drop_while is_scheme cs) ≡ cs
take-drop_while [] = unfold take_while drop_while in refl
take-drop_while (c ∷ cs) = elim (Bool-cases (is_scheme c)) [
  | inl e ↦
      rw (take_while-cons is_scheme c cs e, drop_while-cons is_scheme c cs e)
        (ap (λ r. c ∷ r) (take-drop_while cs))
  | inr e ↦ unfold take_while drop_while in rw e
]

length-drop_while : (cs : Text) → length (drop_while is_scheme cs) ≤ length cs
length-drop_while [] = unfold drop_while in omega arith
length-drop_while (c ∷ cs) = elim (Bool-cases (is_scheme c)) [
  | inl e ↦ rw (drop_while-cons is_scheme c cs e) (omega (arith, length-drop_while cs))
  | inr e ↦ rw (drop_while-stop is_scheme c cs e) (omega arith)
]

sub_run-clean :
    (run rest : Text) (go : Text → Text)
    → all is_scheme run ≡ true
    → has_url (any is_letter run) rest ≡ false
    → sub_run run rest go ≡ run ++ go rest
unfolding sub_run
sub_run-clean run rest go s h =
    elim (Bool-cases (not (is_empty (drop_while is_lead run)) && opens rest)) [
      | inl e ↦
          absurd (cc (has_url-opens rest (ground arith), prefix_has_letter run s (ground arith)))
      | inr e ↦ rw e
    ]

sub-clean : (f : ℕ) (t : Text) → length t < f → has_url false t ≡ false → sub f t ≡ t
sub-clean zero t l h = absurd (omega arith)
sub-clean (suc f) [] l h = unfold sub in refl
sub-clean (suc f) (c ∷ cs) l h = elim (Bool-cases (is_scheme c)) [
  | inl e ↦
      let run : Text = c ∷ take_while is_scheme cs in
      let rest : Text = drop_while is_scheme cs in
      let s : all is_scheme run ≡ true = rw e (all_scheme cs) in
      let whole : (run ++ rest) ≡ (c ∷ cs) = ap (λ r. c ∷ r) (take-drop_while cs) in
      let k : has_url (any is_letter run) rest ≡ false =
        sym (has_url-run false run rest s) ∙ (ap (has_url false) whole ∙ h) in
      sub-scheme f c cs e
      ∙ (sub_run-clean run rest (sub f) s k
          ∙ (ap (λ r. run ++ r)
                (sub-clean f rest (omega (arith, length-drop_while cs))
                  (weaken (any is_letter run) rest k))
              ∙ whole))
  | inr e ↦
      sub-plain f c cs e
      ∙ ap (λ r. c ∷ r)
          (sub-clean f cs (omega arith) (sym (has_url-plain false c cs e (λ x. cc)) ∙ h))
]

-- The replacement changes nothing in a text without a URL; so replacing twice is replacing once.
pub sub_urls_idem :
    (t : Text) → (has_url false t ≡ false → sub_urls t ≡ t) × (sub_urls (sub_urls t) ≡ sub_urls t)
sub_urls_idem t = (clean t, clean (sub_urls t) (has_url-sub_urls t))
  where
    clean : (u : Text) → has_url false u ≡ false → sub_urls u ≡ u
    clean u h = unfold sub_urls in sub-clean (suc (length u)) u (omega arith) h
