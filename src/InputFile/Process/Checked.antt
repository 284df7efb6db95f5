-- ===== src/InputFile/Process/Checked.antt =====
-- What is parsed has passed every check.
use conda_presto.Prelude.{
  ◌≡◌, refl, true, false, Option, none, some, ◌++◌, Bool-cases, inl, inr, nat_eq, list_eq, contains,
}
use conda_presto.Exceptions.Text.{Text, codes, splitlines}
use conda_presto.InputFile.Limits.{
  Verdict, accepted, timed_out, alias_refused, too_complex, invalid_toml, invalid_yaml, out_of_fuel,
  is_txt, is_toml, validate_input_path,
}
use conda_presto.InputFile.Limits.Whole.{KeepsLimits, validate_input_path-KeepsLimits}
use conda_presto.InputFile.Name.{
  Name, named, unencodable, too_long, unprintable, unsupported, input_filename,
}
use conda_presto.InputFile.Process.{
  Outcome, returned, late, refused, bad_yaml, crashed, Message, ok, invalid, timeout, error, Fate,
  answers, too_late, dies, unstarted, unkillable, parsed, is_explicit, send, receive, raise_or,
  Libraries, Clock, Upload, document, with_manifest, companion, from_path_process, parse_named,
  from_content_until,
}

module _ {ℓ} {A : Type ℓ} where
  receive-parsed :
      (fate : Fate) (m : Message A) (a : A)
      → receive fate m ≡ parsed a
      → (fate ≡ answers) × (m ≡ ok a)
  unfolding receive
  receive-parsed answers (ok x) a h = (refl, cc h)
  receive-parsed answers (invalid m) a h = cc h
  receive-parsed answers timeout a h = cc h
  receive-parsed answers error a h = cc h
  receive-parsed too_late m a h = cc h
  receive-parsed dies m a h = cc h
  receive-parsed unstarted m a h = cc h
  receive-parsed unkillable m a h = cc h

  send-ok :
      (path folder name : Text) (o : Outcome A) (a : A)
      → send path folder name o ≡ ok a
      → o ≡ returned a
  unfolding send
  send-ok path folder name (returned x) a h = cc h
  send-ok path folder name late a h = cc h
  send-ok path folder name (refused m) a h = cc h
  send-ok path folder name bad_yaml a h = cc h
  send-ok path folder name crashed a h = cc h

  raise_or-returned :
      (message : Text) (v : Verdict) (rest : Outcome A) (a : A)
      → raise_or message v rest ≡ returned a
      → (v ≡ accepted) × (rest ≡ returned a)
  unfolding raise_or
  raise_or-returned message accepted rest a h = (refl, h)
  raise_or-returned message timed_out rest a h = cc h
  raise_or-returned message alias_refused rest a h = cc h
  raise_or-returned message too_complex rest a h = cc h
  raise_or-returned message invalid_toml rest a h = cc h
  raise_or-returned message invalid_yaml rest a h = cc h
  raise_or-returned message out_of_fuel rest a h = cc h

-- A file, under the name that it was given, within the limits of its kind.
pub record IsAccepted (lib : Libraries) (given : Option Text) (content name : Text) : Type 0 where
  pub normalised : input_filename lib.unicode given ≡ named name
  pub within :
      KeepsLimits
        (is_txt (document lib name content))
        (is_toml (document lib name content))
        (document lib name content)

-- A companion manifest is in order when there is none.
unfoldable pub ManifestAccepted : Libraries → Option Text → Option Text → Type 0
ManifestAccepted lib none filename = Unit
ManifestAccepted lib (some content) filename =
    (name : Text) × IsAccepted lib filename content name
    × (contains lib.workspace_filenames name ≡ true)

module _ {ℓ} {A : Type ℓ} (lib : Libraries) (clock : Clock) (from_path : Text → Outcome A) where
  with_manifest-returned :
      (content filename : Text) (n : Name) (rest : Outcome A) (a : A)
      → input_filename lib.unicode (some filename) ≡ n
      → with_manifest lib clock from_path content filename n rest ≡ returned a
      → ManifestAccepted lib (some content) (some filename) × (rest ≡ returned a)
  unfolding with_manifest ManifestAccepted
  with_manifest-returned content filename (named name) rest a e h =
      elim (Bool-cases (contains lib.workspace_filenames name)) [
        | inl k ↦
            let (v, r) =
              raise_or-returned (lib.toml_error content)
                (validate_input_path clock.manifest_events clock.manifest_rest
                  (document lib name content))
                rest a (rw k at h) in
            (
              (
                name,
                record {
                  normalised = e;
                  within =
                      (validate_input_path-KeepsLimits clock.manifest_events clock.manifest_rest
                          (document lib name content)).0
                        v;
                },
                k,
              ),
              r,
            )
        | inr k ↦ absurd (let h' = rw k at h in cc h')
      ]
  with_manifest-returned content filename unencodable rest a e h = cc h
  with_manifest-returned content filename too_long rest a e h = cc h
  with_manifest-returned content filename unprintable rest a e h = cc h
  with_manifest-returned content filename (unsupported message) rest a e h = cc h

  companion-returned :
      (content filename : Option Text) (rest : Outcome A) (a : A)
      → companion lib clock from_path content filename rest ≡ returned a
      → ManifestAccepted lib content filename × (rest ≡ returned a)
  unfolding companion ManifestAccepted
  companion-returned none filename rest a h = (tt, h)
  companion-returned (some content) none rest a h = cc h
  companion-returned (some content) (some filename) rest a h =
      with_manifest-returned content filename (input_filename lib.unicode (some filename)) rest a
        refl h

  -- What the process has checked when it sends a value.
  abbrev Parsed : Fate → Upload → A → Name → Type ℓ
  Parsed fate upload a n =
      (fate ≡ answers)
      × (name : Text) × (n ≡ named name)
      × KeepsLimits (is_txt (document lib name upload.content))
          (is_toml (document lib name upload.content)) (document lib name upload.content)
      × ManifestAccepted lib upload.manifest_content upload.manifest_filename
      × (is_explicit (splitlines upload.content) ≡ false)
      × (from_path name ≡ returned a)

  parse_named-parsed :
      (fate : Fate) (folder : Text) (upload : Upload) (n : Name) (a : A)
      → parse_named lib clock from_path fate folder upload n ≡ parsed a
      → Parsed fate upload a n
  unfolding parse_named from_path_process
  parse_named-parsed fate folder upload (named name) a h =
      elim (Bool-cases (is_explicit (splitlines upload.content))) [
        | inl k ↦ absurd (let h' = rw k at h in cc h')
        | inr k ↦
            let file = document lib name upload.content in
            let verdict = validate_input_path clock.file_events clock.file_rest file in
            let rest =
              companion lib clock from_path upload.manifest_content upload.manifest_filename
                (from_path name) in
            let checks = raise_or (lib.toml_error upload.content) verdict rest in
            let path = folder ++ (codes "/" ++ name) in
            let (arrived, sent) =
              receive-parsed fate (send path folder name checks) a (rw k at h) in
            let (v, r) =
              raise_or-returned (lib.toml_error upload.content) verdict rest a
                (send-ok path folder name checks a sent) in
            let (manifest, returns) =
              companion-returned upload.manifest_content upload.manifest_filename (from_path name) a
                r in
            (
              arrived,
              name,
              refl,
              (validate_input_path-KeepsLimits clock.file_events clock.file_rest file).0 v,
              manifest,
              k,
              returns,
            )
      ]
  parse_named-parsed fate folder upload unencodable a h = cc h
  parse_named-parsed fate folder upload too_long a h = cc h
  parse_named-parsed fate folder upload unprintable a h = cc h
  parse_named-parsed fate folder upload (unsupported message) a h = cc h

  -- A parse that `from_content_until` returns came in time from `from_path`, for the file under its
  -- normalised name: the file is no list of package URLs, the file and any companion manifest keep
  -- to the limits of their kinds, and the manifest has the name of a workspace manifest.
  pub from_content_until-IsAccepted :
      (fate : Fate) (folder : Text) (upload : Upload) (a : A)
      → from_content_until lib clock from_path fate folder upload ≡ parsed a
      → (fate ≡ answers)
        × (name : Text) × IsAccepted lib upload.filename upload.content name
        × ManifestAccepted lib upload.manifest_content upload.manifest_filename
        × (is_explicit (splitlines upload.content) ≡ false)
        × (from_path name ≡ returned a)
  unfolding from_content_until
  from_content_until-IsAccepted fate folder upload a h = elim (Bool-cases clock.at_start) [
    | inl k ↦ absurd (let h' = rw k at h in cc h')
    | inr k ↦
        let (arrived, name, n, within, manifest, plain, returns) =
          parse_named-parsed fate folder upload (input_filename lib.unicode upload.filename) a
            (rw k at h) in
        (arrived, name, record { normalised = n; within = within }, manifest, plain, returns)
  ]
