-- ===== src/InputFile/Process.antt =====
-- `ParsedInputFile.from_content_until` and `_from_path_process`: an upload is parsed by a process of
-- its own, whose answer reaches the server by a pipe.
pub mod Checked
pub mod Safe
use conda_presto.Prelude.{
  ℕ, zero, suc, ◌+◌, ◌-◌, String, Bool, true, false, not, ◌&&◌, ◌||◌, Option, none, some, List, [],
  ◌∷◌, ◌++◌, leb, length, if◌then◌else◌, nat_eq, list_eq, contains, ◌==◌,
}
use conda_presto.Exceptions.Text.{Text, codes, drop_while, splitlines, strip, starts_with, text_eq}
use conda_presto.Exceptions.Redact.{redact_safe_error}
use conda_presto.InputFile.Limits.{
  Verdict, accepted, timed_out, alias_refused, too_complex, invalid_toml, invalid_yaml, out_of_fuel,
  Events, Value, Document, validate_input_path,
}
use conda_presto.InputFile.Name.{
  Unicode, Name, named, unencodable, too_long, unprintable, unsupported, extension, lower,
  input_filename,
}

-- How a call in the process ends: a value, `TimeoutError`, a conda error or `ValueError` with its
-- message, `YAMLError`, or another exception.
pub data Outcome {ℓ} (A : Type ℓ) : Type ℓ where
  returned : A → Outcome A
  late : Outcome A
  refused : Text → Outcome A
  bad_yaml : Outcome A
  crashed : Outcome A

-- `sender.send`
pub data Message {ℓ} (A : Type ℓ) : Type ℓ where
  ok : A → Message A
  invalid : Text → Message A
  timeout : Message A
  error : Message A

-- What becomes of the process: its message is there in time, the deadline passes, it dies without
-- one; or it cannot be started, or lives on after `kill`.
pub data Fate : Type 0 where
  answers too_late dies unstarted unkillable : Fate

-- What `from_content_until` returns or raises.
pub data Result {ℓ} (A : Type ℓ) : Type ℓ where
  parsed : A → Result A
  value_error : Text → Result A
  timeout_error : Result A
  runtime_error : Result A
  start_error : Result A

-- The lines of a file that is read as text: they end in `\n`, `\r` or `\r\n`.
abbrev cons_head : ℕ → List Text → List Text
cons_head c [] = (c ∷ []) ∷ []
cons_head c (l ∷ ls) = (c ∷ l) ∷ ls

unfoldable pub file_lines : Bool → Text → List Text
file_lines after_return [] = []
file_lines after_return (c ∷ cs) =
    let rest = file_lines (leb 13 c && leb c 13) cs in
    if after_return && (leb 10 c && leb c 10)
    then rest
    else if (leb 10 c && leb c 10) || (leb 13 c && leb c 13)
    then [] ∷ rest
    else cons_head c rest

-- `text.replace(old, new)` for an `old` that is not empty; `skip` characters of a match are left
unfoldable pub replace_from : ℕ → (old new : Text) → Text → Text
replace_from skip old new [] = []
replace_from (suc skip) old new (c ∷ cs) = replace_from skip old new cs
replace_from zero old new (c ∷ cs) =
    let replaced = replace_from (length old - 1) old new cs in
    let kept = replace_from 0 old new cs in
    if starts_with (c ∷ cs) old then new ++ replaced else c ∷ kept

unfoldable pub replace : (old new : Text) → Text → Text
unfolding replace_from
replace = replace_from 0

-- The first line that is neither blank nor a comment says whether a text lists package URLs.
unfoldable pub is_explicit : List Text → Bool
is_explicit [] = false
is_explicit (line ∷ lines) =
    let rest = is_explicit lines in
    let stripped = drop_while (λ c. leb 65279 c && leb c 65279) (strip line) in
    if text_eq stripped [] || starts_with stripped (codes "#")
    then rest
    else text_eq stripped (codes "@EXPLICIT")

module _ {ℓ} {A : Type ℓ} where
  unfoldable pub send : (path folder name : Text) → Outcome A → Message A
  unfolding replace redact_safe_error
  send path folder name (returned value) = ok value
  send path folder name late = timeout
  send path folder name (refused message) = invalid (
      redact_safe_error
        (replace folder (codes "[temporary-directory]") (replace path name message)))
  send path folder name bad_yaml = invalid (codes "Input file contains invalid YAML")
  send path folder name crashed = error

  unfoldable pub receive : Fate → Message A → Result A
  receive answers (ok value) = parsed value
  receive answers (invalid message) = value_error message
  receive answers timeout = timeout_error
  receive answers error = runtime_error
  receive too_late message = timeout_error
  receive dies message = runtime_error
  receive unstarted message = start_error
  receive unkillable message = runtime_error

  -- the exceptions of `validate_input_path`; `toml_error` is the message of `tomllib`
  unfoldable pub raise_or : Text → Verdict → Outcome A → Outcome A
  raise_or toml_error accepted rest = rest
  raise_or toml_error timed_out rest = late
  raise_or toml_error alias_refused rest =
      refused (codes "YAML aliases are not accepted by the HTTP parser")
  raise_or toml_error too_complex rest =
      refused (codes "Input file exceeds the structural complexity limit")
  raise_or toml_error invalid_toml rest = refused toml_error
  raise_or toml_error invalid_yaml rest = bad_yaml
  raise_or toml_error out_of_fuel rest = crashed

abbrev pub file_too_long : Text
file_too_long = codes "Input filename is too long"

abbrev pub file_unprintable : Text
file_unprintable = codes "Input filename contains unsupported characters"

abbrev or_empty : Option Text → Text
or_empty none = []
or_empty (some text) = text

-- What the parse leaves to libraries: the events of the YAML parser, `tomllib.load` with its error,
-- the filenames of `PARSER_BY_FILENAME`, Unicode's tables and the error of `str.encode`.
pub record Libraries : Type 0 where
  pub events : Text → Events
  pub load_toml : Text → Option Value
  pub toml_error : Text → Text
  pub workspace_filenames : List Text
  pub unicode : Unicode
  pub encode_error : Text → Text

-- The readings of the clock: at the start, and in the loops over the file and over its manifest.
pub record Clock : Type 0 where
  pub at_start : Bool
  pub file_events : ℕ → Bool
  pub file_rest : ℕ → Bool
  pub manifest_events : ℕ → Bool
  pub manifest_rest : ℕ → Bool

pub record Upload : Type 0 where
  pub content : Text
  pub filename : Option Text
  pub manifest_content : Option Text
  pub manifest_filename : Option Text

module _ (lib : Libraries) where
  -- A file under an accepted name, whose extension is `path.suffix`.
  unfoldable pub document : (name content : Text) → Document
  unfolding extension lower file_lines
  document name content = record {
    suffix = lower lib.unicode (extension name);
    events = lib.events content;
    toml = lib.load_toml content;
    lines = file_lines false content;
  }

  module _ {ℓ} {A : Type ℓ} (clock : Clock) (from_path : Text → Outcome A) where
    unfoldable pub with_manifest : (content filename : Text) → Name → Outcome A → Outcome A
    unfolding document raise_or
    with_manifest content filename (named name) rest =
        if contains lib.workspace_filenames name
        then raise_or (lib.toml_error content)
            (validate_input_path clock.manifest_events clock.manifest_rest (document name content))
            rest
        else refused
            (codes "Companion manifest filename must be conda.toml, pixi.toml or pyproject.toml")
    with_manifest content filename unencodable rest = refused (lib.encode_error filename)
    with_manifest content filename too_long rest = refused file_too_long
    with_manifest content filename unprintable rest = refused file_unprintable
    with_manifest content filename (unsupported message) rest = refused message

    unfoldable pub companion : (content filename : Option Text) → Outcome A → Outcome A
    unfolding with_manifest input_filename
    companion none filename rest = rest
    companion (some content) none rest = refused (codes "Companion manifest filename is required")
    companion (some content) (some filename) rest =
        with_manifest content filename (input_filename lib.unicode (some filename)) rest

    -- `_from_path_process`, for the file that was written under `name`
    unfoldable pub from_path_process : (folder name : Text) → Upload → Message A
    unfolding send companion raise_or document
    from_path_process folder name upload = send (folder ++ (codes "/" ++ name)) folder name (
        raise_or (lib.toml_error upload.content)
          (validate_input_path clock.file_events clock.file_rest (document name upload.content))
          (companion upload.manifest_content upload.manifest_filename (from_path name)))

    unfoldable pub parse_named : Fate → (folder : Text) → Upload → Name → Result A
    unfolding from_path_process receive is_explicit
    parse_named fate folder upload (named name) =
        if is_explicit (splitlines upload.content)
        then value_error
            (codes "Explicit package URL lockfiles are not accepted by the HTTP parser")
        else receive fate (from_path_process folder name upload)
    parse_named fate folder upload unencodable =
        value_error (lib.encode_error (or_empty upload.filename))
    parse_named fate folder upload too_long = value_error file_too_long
    parse_named fate folder upload unprintable = value_error file_unprintable
    parse_named fate folder upload (unsupported message) = value_error message

    -- `from_content_until`
    unfoldable pub from_content_until : Fate → (folder : Text) → Upload → Result A
    unfolding parse_named input_filename
    from_content_until fate folder upload =
        if clock.at_start
        then timeout_error
        else parse_named fate folder upload (input_filename lib.unicode upload.filename)
