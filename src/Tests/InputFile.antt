-- ===== src/Tests/InputFile.antt =====
-- Tests of the input file's checks, and their properties at concrete uploads.
use conda_presto.Prelude.{
  ℕ, ◌≤◌, ◌≡◌, ◌≢◌, refl, Bool, true, false, Option, some, [], ◌∷◌, ltb, if◌then◌else◌, nat_eq,
  list_eq, contains,
}
use conda_presto.Exceptions.Text.{Text, codes, splitlines, text_eq, drop_while, strip, starts_with}
use conda_presto.Exceptions.Redact.Urls.{has_url}
use conda_presto.InputFile.Limits.{
  max_nodes, accepted, alias_refused, too_complex, out_of_fuel, finished, alias, node, other, Value,
  scalar, array, table, nil, item, end, field, Document, Walk, is_txt, is_toml, count_events, walk,
  walk_toml, validate_input_path, continues, round,
}
use conda_presto.InputFile.Limits.Toml.{size, walk_toml-size}
use conda_presto.InputFile.Limits.Whole.{KeepsLimits, validate_input_path-KeepsLimits}
use conda_presto.InputFile.Name.{
  Unicode, named, extension, lower, encoded_length, allowed_extensions, input_filename,
}
use conda_presto.InputFile.Name.Kept.{has_slash, input_filename-StaysInside}
use conda_presto.InputFile.Process.{
  Outcome, returned, answers, parsed, value_error, is_explicit, Libraries, Clock, Upload,
  from_path_process, from_content_until,
}
use conda_presto.InputFile.Process.Checked.{
  IsAccepted, ManifestAccepted, from_content_until-IsAccepted,
}
use conda_presto.InputFile.Process.Safe.{from_content_until-IsSafe}

abbrev never : ℕ → Bool
never n = false

-- `channels = ["a", "b"]`
abbrev small_toml : Value
small_toml = table (field "channels" (array (item scalar (item scalar nil))) end)

walk_small : walk_toml never (some small_toml) ≡ accepted
unfolding walk_toml walk
walk_small = refl

alias_stops : count_events never 0 0 (node (alias finished)) ≡ alias_refused
unfolding count_events
alias_stops = refl

walk_toml-size_example :
    walk_toml never (some small_toml)
    ≡ (if ltb max_nodes (size small_toml) then too_complex else accepted)
walk_toml-size_example = walk_toml-size never small_toml (λ n. refl)

abbrev after_table : Walk
after_table = record { nodes = 1; pending = array (item scalar (item scalar nil)) ∷ [] }

table_opens : round never (record { nodes = 0; pending = small_toml ∷ [] }) ≡ continues after_table
unfolding round
table_opens = refl

abbrev toml_file : Document
toml_file = record {
  suffix = codes ".toml";
  events = node (other finished);
  toml = some small_toml;
  lines = [];
}

validate_input_path-KeepsLimits_example :
    (validate_input_path never never toml_file ≡ accepted
      → KeepsLimits (is_txt toml_file) (is_toml toml_file) toml_file)
    × (validate_input_path never never toml_file ≢ out_of_fuel)
validate_input_path-KeepsLimits_example = validate_input_path-KeepsLimits never never toml_file

abbrev ascii : Unicode
ascii = record { is_printable = ltb 31; lower_wide = λ c. 65533 ∷ [] }

abbrev upload_name : Option Text
upload_name = some (codes "a/b/Pixi.TOML")

kept_name : input_filename ascii upload_name ≡ named (codes "Pixi.TOML")
unfolding input_filename nat_eq list_eq
kept_name = refl

input_filename-StaysInside_example :
    (has_slash (codes "Pixi.TOML") ≡ false)
    × ((codes "Pixi.TOML" ≢ codes ".") × (codes "Pixi.TOML" ≢ codes ".."))
    × (encoded_length (codes "Pixi.TOML") ≤ 240)
    × (contains allowed_extensions (lower ascii (extension (codes "Pixi.TOML"))) ≡ true)
    × (input_filename ascii (some (codes "Pixi.TOML")) ≡ named (codes "Pixi.TOML"))
input_filename-StaysInside_example =
    input_filename-StaysInside ascii upload_name (codes "Pixi.TOML") kept_name

abbrev libraries : Libraries
libraries = record {
  events = λ t. node finished;
  load_toml = λ t. some small_toml;
  toml_error = λ t. codes "Invalid TOML";
  workspace_filenames = codes "conda.toml" ∷ codes "pixi.toml" ∷ codes "pyproject.toml" ∷ [];
  unicode = ascii;
  encode_error = λ t. codes "surrogates not allowed";
}

abbrev on_time : Clock
on_time = record {
  at_start = false;
  file_events = never;
  file_rest = never;
  manifest_events = never;
  manifest_rest = never;
}

abbrev upload : Upload
upload = record {
  content = codes "channels = []";
  filename = upload_name;
  manifest_content = some (codes "# empty");
  manifest_filename = some (codes "pixi.toml");
}

abbrev from_path : Text → Outcome Text
from_path name = returned name

upload_parsed :
    from_content_until libraries on_time from_path answers (codes "/tmp/x") upload
    ≡ parsed (codes "Pixi.TOML")
unfolding from_content_until from_path_process input_filename is_explicit splitlines
    validate_input_path count_events walk_toml walk text_eq drop_while strip starts_with nat_eq
    list_eq
upload_parsed = refl

from_content_until-IsAccepted_example :
    (answers ≡ answers)
    × (name : Text) × IsAccepted libraries upload.filename upload.content name
    × ManifestAccepted libraries upload.manifest_content upload.manifest_filename
    × (is_explicit (splitlines upload.content) ≡ false)
    × (from_path name ≡ returned (codes "Pixi.TOML"))
from_content_until-IsAccepted_example =
    from_content_until-IsAccepted libraries on_time from_path answers (codes "/tmp/x") upload
      (codes "Pixi.TOML") upload_parsed

abbrev script : Upload
script = record upload { filename = some (codes "http://host/install.sh") }

abbrev script_message : Text
script_message =
    codes "Unsupported file extension '.sh', allowed: .json, .lock, .toml, .txt, .yaml, .yml"

script_refused :
    from_content_until libraries on_time from_path answers (codes "/tmp/x") script
    ≡ value_error script_message
unfolding from_content_until input_filename nat_eq list_eq
script_refused = refl

replacement_plain : has_slash (65533 ∷ []) ≡ false
unfolding has_slash
replacement_plain = refl

encode_error_plain : has_url false (codes "surrogates not allowed") ≡ false
unfolding has_url
encode_error_plain = refl

from_content_until-IsSafe_example : has_url false script_message ≡ false
from_content_until-IsSafe_example =
    from_content_until-IsSafe libraries on_time from_path (λ c. replacement_plain)
      (λ t. encode_error_plain) answers (codes "/tmp/x") script script_message script_refused
