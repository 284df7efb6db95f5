-- ===== src/Tests/Exporter.antt =====
-- An exporter for one environment at a time.
use conda_presto.Prelude.{
  String, ◌≡◌, refl, false, none, some, List, [], ◌∷◌, string_eq, nat_eq, list_eq,
}
use conda_presto.Exceptions.Text.{codes}
use conda_presto.Resolve.Dispatch.{returned}
use conda_presto.Exporter.{
  Exporter, Metadata, accepted, validate_declared_input, validate_single, render, media_type,
  media_type_of, extension, provider_versions, provided_by, versions_of,
}
use conda_presto.Exporter.Declared.{IsDeclaredExport, render-IsDeclaredExport}

abbrev yaml : Exporter String String
yaml = record {
  format_name = "environment-yaml";
  name = "environment-yaml";
  is_lockfile = false;
  multiplatform_export = none;
  export = some (record {
    call = λ env. returned (codes env);
    module_name = some (codes "conda.exporters");
    qualname = some (codes "export");
  });
  default_filenames = some (codes "environment" ∷ codes "envs/environment.YML" ∷ []);
}

yaml_type : media_type yaml ≡ codes "application/yaml"
unfolding media_type media_type_of extension nat_eq list_eq
yaml_type = refl

one_accepted : validate_declared_input yaml 1 ≡ accepted
unfolding validate_declared_input validate_single nat_eq
one_accepted = refl

render-IsDeclaredExport_example :
    IsDeclaredExport yaml ("linux-64" ∷ []) (render yaml ("linux-64" ∷ []))
render-IsDeclaredExport_example = render-IsDeclaredExport yaml ("linux-64" ∷ []) one_accepted

abbrev installed : Metadata
installed = record {
  distributions = λ name. some ("conda-lockfiles" ∷ "conda" ∷ []);
  version = λ distribution. some "1.0";
}

abbrev versions : List (String × String)
versions = ("conda", "1.0") ∷ ("conda-lockfiles", "1.0") ∷ []

both_found : provider_versions installed (codes "conda") ≡ some versions
unfolding provider_versions provided_by versions_of
both_found = refl
