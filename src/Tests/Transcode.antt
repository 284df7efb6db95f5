-- ===== src/Tests/Transcode.antt =====
-- A conda-lock-v1 file of two platforms, transcoded for one.
use conda_presto.Prelude.{
  String, ◌≡◌, refl, not, false, none, some, [], ◌∷◌, map, string_eq, dedupe, add_all, any,
  contains,
}
use conda_presto.Exceptions.Text.{codes, starts_with}
use conda_presto.OrderedDict.{get, insert}
use conda_presto.Resolve.Dispatch.{returned}
use conda_presto.Workspace.Error.{traverse}
use conda_presto.Workspace.Select.{is_empty}
use conda_presto.Transcode.Records.{
  Libraries, ends_with, fields_of, check_fields, record_of, records_for_export, url_fields,
}
use conda_presto.Transcode.CondaLock.{
  Package, CondaLockV1, Environment, add_package, metadata_by_url, check_wheel, wheel_channel,
  environment_on, transcode_conda_lock, is_unsupported, metadata_of,
}
use conda_presto.Transcode.CondaLock.Lossless.{
  transcribed, package_entries, transcode_conda_lock-IsLossless,
}

abbrev lib : Libraries
lib = record {
  path = λ url. returned (codes url);
  filename = λ url. returned (codes "zlib-1.3-0.conda");
  has_installer = false;
  parse_wheel_filename =
      λ name. returned (record { distribution = "a"; version = "1"; tag = codes "py3-none-any" });
  exact_values = λ url hashes. returned (record {
    channel = some "conda-forge";
    subdir = some "linux-64";
    name = some "zlib";
    version = some "1.3";
    build = some "0";
    fn = some (codes "zlib-1.3-0.conda");
  });
  canonical_name = λ url. "conda-forge";
}

abbrev zlib : String → Package
zlib platform = record {
  platform = platform;
  manager = "conda";
  category = "main";
  optional = false;
  url = "https://conda.anaconda.org/conda-forge/linux-64/zlib-1.3-0.conda";
  name = "zlib";
  version = "1.3";
  dependencies = ("libgcc", ">=13") ∷ [];
  hashes = [];
}

abbrev model : CondaLockV1
model = record {
  platforms = "linux-64" ∷ "osx-arm64" ∷ [];
  channels = "https://conda.anaconda.org/conda-forge" ∷ [];
  packages = zlib "linux-64" ∷ zlib "osx-arm64" ∷ [];
}

abbrev transcoded : Environment
transcoded = record {
  platform = "linux-64";
  channels = "conda-forge" ∷ [];
  explicit_packages =
      record {
        fields = record {
          channel = some "conda-forge";
          subdir = "linux-64";
          name = "zlib";
          version = "1.3";
          build = "0";
          fn = codes "zlib-1.3-0.conda";
        };
        build_number = 0;
        metadata = metadata_of (zlib "linux-64") none;
        url = (zlib "linux-64").url;
      }
      ∷ [];
}

zlib_transcoded :
    transcode_conda_lock lib "conda-pypi" "rattler-lock-v6" "rattler-lock-v6"
      ("linux-64" ∷ "linux-64" ∷ [])
      model
    ≡ returned (transcoded ∷ [])
unfolding transcode_conda_lock environment_on metadata_by_url add_package check_wheel wheel_channel
    records_for_export record_of fields_of url_fields check_fields ends_with starts_with traverse
    dedupe add_all string_eq get insert
zlib_transcoded = refl

transcode_conda_lock-IsLossless_example :
    (map transcribed (transcoded ∷ [])
      ≡ map (λ p. (p, package_entries p model.packages)) (dedupe ("linux-64" ∷ "linux-64" ∷ [])))
    × (is_empty {A = String} (dedupe ("linux-64" ∷ "linux-64" ∷ [])) ≡ false)
    × (any {A = String}
          (λ p. not (contains model.platforms p))
          (dedupe ("linux-64" ∷ "linux-64" ∷ []))
        ≡ false)
    × (any (is_unsupported (dedupe ("linux-64" ∷ "linux-64" ∷ []))) model.packages ≡ false)
transcode_conda_lock-IsLossless_example =
    transcode_conda_lock-IsLossless lib "conda-pypi" "rattler-lock-v6" "rattler-lock-v6"
      ("linux-64" ∷ "linux-64" ∷ []) model (transcoded ∷ []) zlib_transcoded
