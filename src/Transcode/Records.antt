-- ===== src/Transcode/Records.antt =====
-- `CondaLockfilesTranscoder.records_for_export`: records made of a lockfile's own metadata.
use mathlib.Core.List.{reverse}
use conda_presto.Prelude.{
  ℕ, String, Bool, false, not, ◌&&◌, ◌||◌, Option, none, some, List, if◌then◌else◌, string_eq, ◌==◌,
}
use conda_presto.Exceptions.Text.{Text, codes, starts_with}
use conda_presto.OrderedDict.{OrderedDict}
use conda_presto.Resolve.Dispatch.{Outcome, returned, raised}
use conda_presto.Workspace.Error.{
  Error, ◌>>=◌, traverse, value_error, wheels_unsupported, no_exact_record, other_subdir,
  other_identity,
}
use conda_presto.Workspace.Input.{Check, refuse_if}

-- `str.endswith`
unfoldable pub ends_with : Text → Text → Bool
unfolding starts_with
ends_with text suffix = starts_with (reverse text) (reverse suffix)

abbrev pub is_whl : Text → Bool
is_whl text = ends_with text (codes ".whl")

-- The metadata of a package in a lockfile, as a dict that may lack a key.
pub record Metadata : Type 0 where
  pub name : Option String
  pub version : Option String
  pub build : Option String
  pub subdir : Option String
  pub channel : Option String
  pub depends : List String
  pub hashes : OrderedDict String String

-- What a URL says of its package.
pub record Fields : Type 0 where
  pub channel : Option String
  pub subdir : String
  pub name : String
  pub version : String
  pub build : String
  pub fn : Text

pub record Wheel : Type 0 where
  pub distribution : String
  pub version : String
  pub tag : Text

-- The exact values of a match spec.
pub record Exact : Type 0 where
  pub channel : Option String
  pub subdir : Option String
  pub name : Option String
  pub version : Option String
  pub build : Option String
  pub fn : Option Text

-- `PackageRecord(**{**fields, "build_number": 0, **metadata, "url": url})`: a key of the metadata overrides
-- the field of the URL.
pub record PackageRecord : Type 0 where
  pub fields : Fields
  pub build_number : ℕ
  pub metadata : Metadata
  pub url : String

-- `urlsplit` and `unquote`, the parser of wheel names and conda's match specs; a TypeError or
-- ValueError is `value_error`.
pub record Libraries : Type 0 where
  pub path : String → Outcome Error Text
  pub filename : String → Outcome Error Text
  pub has_installer : Bool
  pub parse_wheel_filename : Text → Outcome Error Wheel
  pub exact_values : String → OrderedDict String String → Outcome Error Exact
  pub canonical_name : String → String

-- `except (TypeError, ValueError)`
abbrev pub reconstructed {ℓ} : {A : Type ℓ} → Outcome Error A → Outcome Error A
reconstructed (returned a) = returned a
reconstructed (raised value_error) = raised no_exact_record
reconstructed (raised error) = raised error

abbrev pub unlike : Option String → String → Bool
unlike none field = false
unlike (some value) field = not (value == field)

module _ (lib : Libraries) where
  unfoldable pub wheel_fields : Metadata → Text → Outcome Error Fields
  unfolding ends_with
  wheel_fields metadata filename = refuse_if (not lib.has_installer) wheels_unsupported >>= λ _.
      lib.parse_wheel_filename filename >>= λ wheel.
      refuse_if (not (ends_with wheel.tag (codes "-none-any"))) value_error >>= λ _.
      returned (record {
        channel = metadata.channel;
        subdir = "noarch";
        name = wheel.distribution;
        version = wheel.version;
        build = "py3_none_any_0";
        fn = filename;
      })

  abbrev pub all_exact :
      (channel subdir name version build : Option String) → Option Text → Outcome Error Fields
  all_exact (some channel) (some subdir) (some name) (some version) (some build) (some fn) =
      returned (record {
        channel = some channel;
        subdir = subdir;
        name = name;
        version = version;
        build = build;
        fn = fn;
      })
  all_exact _ _ _ _ _ _ = raised value_error

  unfoldable pub url_fields : Metadata → String → Outcome Error Fields
  url_fields metadata url = lib.exact_values url metadata.hashes >>= λ e.
      all_exact e.channel e.subdir e.name e.version e.build e.fn

  -- the file's name and the fields that the URL gives
  unfoldable pub fields_of : String → Metadata → Outcome Error (Text × Fields)
  unfolding wheel_fields url_fields ends_with
  fields_of url metadata = lib.filename url >>= λ filename.
      (if is_whl filename then wheel_fields metadata filename else url_fields metadata url)
      >>= λ fields. returned (filename, fields)

  unfoldable pub check_fields : String → Metadata → Text → Fields → Check
  unfolding ends_with
  check_fields platform metadata filename fields =
      refuse_if (not (fields.subdir == platform || fields.subdir == "noarch")) other_subdir >>= λ _.
      refuse_if
        (not (is_whl filename)
          && (unlike metadata.build fields.build
              || (unlike metadata.name fields.name
                  || (unlike metadata.subdir fields.subdir
                      || unlike metadata.version fields.version))))
        other_identity

  unfoldable pub record_of : String → String × Metadata → Outcome Error PackageRecord
  unfolding fields_of check_fields
  record_of platform (url, metadata) = reconstructed (fields_of url metadata) >>= λ found.
      check_fields platform metadata found.0 found.1 >>= λ _.
      returned (record { fields = found.1; build_number = 0; metadata = metadata; url = url })

  -- `records_for_export`
  unfoldable pub records_for_export :
      OrderedDict String Metadata → String → Outcome Error (List PackageRecord)
  unfolding record_of traverse
  records_for_export metadata_by_url platform = traverse (record_of platform) metadata_by_url
