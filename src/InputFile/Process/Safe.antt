-- ===== src/InputFile/Process/Safe.antt =====
-- No message of a refused upload holds a URL.
use mathlib.Core.Path.{subst}
use conda_presto.Prelude.{ℕ, ◌≡◌, refl, false, ◌++◌, Bool-cases, inl, inr, nat_eq, list_eq}
use conda_presto.Exceptions.Text.{Text, codes, splitlines}
use conda_presto.Exceptions.Redact.{redact_safe_error}
use conda_presto.Exceptions.Redact.Urls.{has_url}
use conda_presto.Exceptions.Redact.Urls.Absent.{has_url-redact}
use conda_presto.InputFile.Limits.{validate_input_path}
use conda_presto.InputFile.Name.{
  Name, named, unencodable, too_long, unprintable, unsupported, input_filename,
}
use conda_presto.InputFile.Name.Kept.{has_slash}
use conda_presto.InputFile.Name.Safe.{unsupported-Safe}
use conda_presto.InputFile.Process.{
  Outcome, returned, late, refused, bad_yaml, crashed, Fate, answers, too_late, dies, unstarted,
  unkillable, Result, value_error, is_explicit, send, receive, raise_or, Libraries, Clock, Upload,
  replace, file_too_long, file_unprintable, or_empty, document, companion, from_path_process,
  parse_named, from_content_until,
}

module _ {ℓ} {A : Type ℓ} where
  -- A refusal that reaches the client is safe.
  abbrev IsSafe : Result A → Type ℓ
  IsSafe r = (m : Text) → r ≡ value_error m → has_url false m ≡ false

  refusal-Safe : (m : Text) → has_url false m ≡ false → IsSafe (value_error m)
  refusal-Safe m safe n e = subst (λ t. has_url false t ≡ false) (cc e) safe

  redacted-Safe : (text : Text) → IsSafe (value_error (redact_safe_error text))
  redacted-Safe text = refusal-Safe (redact_safe_error text) (has_url-redact text)

  receive-Safe :
      (fate : Fate) (path folder name : Text) (o : Outcome A)
      → IsSafe (receive fate (send path folder name o))
  unfolding receive send
  receive-Safe answers path folder name (returned a) = λ m e. cc e
  receive-Safe answers path folder name late = λ m e. cc e
  receive-Safe answers path folder name (refused text) =
      redacted-Safe (replace folder (codes "[temporary-directory]") (replace path name text))
  receive-Safe answers path folder name bad_yaml =
      refusal-Safe (codes "Input file contains invalid YAML") (unfold has_url in refl)
  receive-Safe answers path folder name crashed = λ m e. cc e
  receive-Safe too_late path folder name o = λ m e. cc e
  receive-Safe dies path folder name o = λ m e. cc e
  receive-Safe unstarted path folder name o = λ m e. cc e
  receive-Safe unkillable path folder name o = λ m e. cc e

module _ {ℓ} {A : Type ℓ} (lib : Libraries) (clock : Clock) (from_path : Text → Outcome A)
    (lower-Plain : (c : ℕ) → has_slash (lib.unicode.lower_wide c) ≡ false)
    (encode_error-Safe : (text : Text) → has_url false (lib.encode_error text) ≡ false) where
  parse_named-Safe :
      (fate : Fate) (folder : Text) (upload : Upload) (n : Name)
      → input_filename lib.unicode upload.filename ≡ n
      → IsSafe (parse_named lib clock from_path fate folder upload n)
  unfolding parse_named from_path_process
  parse_named-Safe fate folder upload (named name) e =
      elim (Bool-cases (is_explicit (splitlines upload.content))) [
        | inl k ↦ rw k (
            refusal-Safe
              (codes "Explicit package URL lockfiles are not accepted by the HTTP parser")
              (unfold has_url in refl))
        | inr k ↦ rw k (
            receive-Safe fate (folder ++ (codes "/" ++ name)) folder name (
              raise_or (lib.toml_error upload.content)
                (validate_input_path clock.file_events clock.file_rest
                  (document lib name upload.content))
                (companion lib clock from_path upload.manifest_content upload.manifest_filename
                  (from_path name))))
      ]
  parse_named-Safe fate folder upload unencodable e =
      refusal-Safe (lib.encode_error (or_empty upload.filename))
        (encode_error-Safe (or_empty upload.filename))
  parse_named-Safe fate folder upload too_long e =
      refusal-Safe file_too_long (unfold has_url in refl)
  parse_named-Safe fate folder upload unprintable e =
      refusal-Safe file_unprintable (unfold has_url in refl)
  parse_named-Safe fate folder upload (unsupported message) e =
      refusal-Safe message (unsupported-Safe lib.unicode lower-Plain upload.filename message e)

  -- Whatever the upload, the parser and the fate of its process, the `ValueError` that
  -- `from_content_until` raises, and that a client is shown, holds no URL, so no credentials of one.
  pub from_content_until-IsSafe :
      (fate : Fate) (folder : Text) (upload : Upload) (m : Text)
      → from_content_until lib clock from_path fate folder upload ≡ value_error m
      → has_url false m ≡ false
  unfolding from_content_until
  from_content_until-IsSafe fate folder upload m h = elim (Bool-cases clock.at_start) [
    | inl k ↦ absurd (let h' = rw k at h in cc h')
    | inr k ↦
        parse_named-Safe fate folder upload (input_filename lib.unicode upload.filename) refl m
          (rw k at h)
  ]
