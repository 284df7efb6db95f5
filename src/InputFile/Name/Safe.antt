-- ===== src/InputFile/Name/Safe.antt =====
-- The message about an extension holds no URL.
use mathlib.Core.Path.{subst}
use conda_presto.Prelude.{
  ℕ, ◌≡◌, refl, Bool, true, false, ◌&&◌, ◌||◌, Option, [], ◌∷◌, ◌++◌, any, leb, arith, Bool-cases,
  inl, inr, if◌then◌else◌, ltb,
}
use conda_presto.Exceptions.Text.{Text, codes, is_scheme, is_letter}
use conda_presto.Exceptions.Redact.{opens}
use conda_presto.Exceptions.Redact.Urls.{has_url}
use conda_presto.InputFile.Name.{
  Unicode, unsupported, is_code, basename, extension_from, extension, lower_code, lower,
  extension_message, or_default, checked_name, input_filename,
}
use conda_presto.InputFile.Name.Kept.{has_slash, basename-Plain}

has_slash-append :
    (xs ys : Text) → has_slash xs ≡ false → has_slash ys ≡ false → has_slash (xs ++ ys) ≡ false
unfolding has_slash
has_slash-append [] ys h k = k
has_slash-append (x ∷ xs) ys h k = ground (arith, has_slash-append xs ys)

no_opening : (c : ℕ) (cs : Text) → has_slash cs ≡ false → opens (c ∷ cs) ≡ false
unfolding has_slash
no_opening c [] h = ground arith
no_opening c (d ∷ cs) h = ground arith

-- A URL has two slashes.
pub has_url-plain_text : (seen : Bool) (t : Text) → has_slash t ≡ false → has_url seen t ≡ false
unfolding has_url has_slash
has_url-plain_text seen [] h = refl
has_url-plain_text seen (c ∷ cs) h =
    let o = no_opening c cs in
    let ih = has_url-plain_text (is_scheme c && (seen || is_letter c)) cs in ground arith

slash_split :
    (c : ℕ) (cs : Text)
    → has_slash (c ∷ cs) ≡ false
    → (is_code 47 c ≡ false) × (has_slash cs ≡ false)
unfolding has_slash
slash_split c cs h = or_split (is_code 47 c) (any (is_code 47) cs) h
  where
    or_split : (a b : Bool) → (a || b) ≡ false → (a ≡ false) × (b ≡ false)
    or_split a b k = ground arith

extension_step :
    (dot seen : Bool) (at_dot leading later : Text)
    → has_slash at_dot ≡ false
    → has_slash leading ≡ false
    → has_slash later ≡ false
    → has_slash (if dot then if seen then at_dot else leading else later) ≡ false
extension_step true true at_dot leading later p q r = p
extension_step true false at_dot leading later p q r = q
extension_step false seen at_dot leading later p q r = r

extension_from-Plain :
    (found : Text) (seen : Bool) (cs : Text)
    → has_slash found ≡ false
    → has_slash cs ≡ false
    → has_slash (extension_from found seen cs) ≡ false
unfolding extension_from
extension_from-Plain found seen [] h k = h
extension_from-Plain found seen (c ∷ cs) h k =
    let both = slash_split c cs k in
    extension_step (is_code 46 c) seen (extension_from (c ∷ cs) seen cs)
      (extension_from found false cs) (extension_from found true cs)
      (extension_from-Plain (c ∷ cs) seen cs k both.1)
      (extension_from-Plain found false cs h both.1) (extension_from-Plain found true cs h both.1)

module _ (unicode : Unicode)
    (lower_plain : (c : ℕ) → has_slash (unicode.lower_wide c) ≡ false) where
  lower_code-Plain : (c : ℕ) → is_code 47 c ≡ false → has_slash (lower_code unicode c) ≡ false
  unfolding has_slash
  lower_code-Plain c h = elim (Bool-cases (leb b'A' c && leb c b'Z')) [
    | inl e ↦ rw e (ground arith)
    | inr e ↦ elim (Bool-cases (ltb c 128)) [
      | inl f ↦ rw (e, f) (ground arith)
      | inr f ↦ rw (e, f) (lower_plain c)
    ]
  ]

  lower-Plain : (t : Text) → has_slash t ≡ false → has_slash (lower unicode t) ≡ false
  unfolding lower
  lower-Plain [] h = h
  lower-Plain (c ∷ cs) h =
      let both = slash_split c cs h in
      has_slash-append (lower_code unicode c) (lower unicode cs) (lower_code-Plain c both.0)
        (lower-Plain cs both.1)

  extension_message-Plain :
      (ext : Text) → has_slash ext ≡ false → has_slash (extension_message ext) ≡ false
  unfolding has_slash
  extension_message-Plain ext h =
      let ending = codes "', allowed: .json, .lock, .toml, .txt, .yaml, .yml" in
      has_slash-append (codes "Unsupported file extension '") (ext ++ ending) refl
        (has_slash-append ext ending h refl)

  -- The message of a refused extension.
  pub unsupported-Safe :
      (filename : Option Text) (message : Text)
      → input_filename unicode filename ≡ unsupported message
      → has_url false message ≡ false
  unfolding input_filename checked_name
  unsupported-Safe filename message e =
      let name = basename (or_default filename) in
      has_url-plain_text false message (
        subst (λ m. has_slash m ≡ false) (the_message name e)
          (extension_message-Plain (lower unicode (extension name)) (
            lower-Plain (extension name) (
              unfold extension in
              extension_from-Plain [] false name (unfold has_slash in refl)
                (basename-Plain (or_default filename))))))
    where
      the_message :
          (name : Text)
          → checked_name unicode name ≡ unsupported message
          → extension_message (lower unicode (extension name)) ≡ message
      the_message name e = ground arith
