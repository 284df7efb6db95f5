-- ===== src/Transcode/CondaLock/Lossless.antt =====
-- What a transcoded conda-lock-v1 file holds of the packages of the lockfile.
use conda_presto.Prelude.{
  String, ◌≡◌, refl, sym, ap, ◌∙◌, false, not, Option, some, List, [], ◌∷◌, ◌++◌, map, arith,
  Bool-cases, inl, inr, if◌then◌else◌, string_eq, ◌==◌, contains, dedupe, any,
}
use conda_presto.Exceptions.Text.{Text}
use conda_presto.OrderedDict.{OrderedDict, get, insert}
use conda_presto.Resolve.Dispatch.{Outcome, returned}
use conda_presto.Workspace.Error.{
  Error, ◌>>=◌, bind-eq-returned, traverse-Answers, Answers, no_more, answer, no_platform_requested,
  platforms_not_in_lockfile, packages_would_be_lost, duplicate_package,
}
use conda_presto.Workspace.Select.{is_empty}
use conda_presto.Workspace.Input.{refuse_if}
use conda_presto.Workspace.Input.Composed.{guard}
use conda_presto.Transcode.Records.{
  Metadata, PackageRecord, Fields, Libraries, record_of, records_for_export, fields_of,
  check_fields, reconstructed,
}
use conda_presto.Transcode.CondaLock.{
  Package, CondaLockV1, Environment, is_given, is_unsupported, joined, metadata_of, wheel_channel,
  check_wheel, add_package, metadata_by_url, pypi_channel, environment_on, transcode_conda_lock,
}

-- What a lockfile says of a package.
pub record Entry : Type 0 where
  pub url : String
  pub name : Option String
  pub version : Option String
  pub depends : List String
  pub hashes : OrderedDict String String

abbrev pub entry_of : String → Metadata → Entry
entry_of url m = record {
  url = url;
  name = m.name;
  version = m.version;
  depends = m.depends;
  hashes = m.hashes;
}

abbrev pub record_entry : PackageRecord → Entry
record_entry r = entry_of r.url r.metadata

abbrev pub entries : OrderedDict String Metadata → List Entry
entries [] = []
entries ((url, m) ∷ found) = entry_of url m ∷ entries found

abbrev pub package_entry : Package → Entry
package_entry p = record {
  url = p.url;
  name = some p.name;
  version = some p.version;
  depends = map joined p.dependencies;
  hashes = p.hashes;
}

-- The entries of the packages on a platform.
abbrev pub package_entries : String → List Package → List Entry
package_entries platform [] = []
package_entries platform (p ∷ ps) =
    let rest = package_entries platform ps in
    if p.platform == platform then package_entry p ∷ rest else rest

entries-insert :
    (url : String) (m : Metadata) (found : OrderedDict String Metadata)
    → is_given (get url found) ≡ false
    → entries (insert url m found) ≡ entries found ++ (entry_of url m ∷ [])
unfolding get insert
entries-insert url m [] h = refl
entries-insert url m ((j, v) ∷ found) h = elim (Bool-cases (j == url)) [
  | inl e ↦ ground arith
  | inr e ↦ ground (arith, entries-insert url m found)
]

record_of-entry :
    (lib : Libraries) (platform url : String) (m : Metadata) (r : PackageRecord)
    → record_of lib platform (url, m) ≡ returned r
    → record_entry r ≡ entry_of url m
unfolding record_of
record_of-entry lib platform url m r h =
    let made : Text × Fields → PackageRecord =
      λ found. record { fields = found.1; build_number = 0; metadata = m; url = url } in
    let rest : Text × Fields → Outcome Error PackageRecord =
      λ found. check_fields lib platform m found.0 found.1 >>= λ _. returned (made found) in
    let (found, _, h1) = bind-eq-returned (reconstructed (fields_of lib url m)) rest r h in
    let (_, _, last) =
      bind-eq-returned (check_fields lib platform m found.0 found.1) (λ _. returned (made found)) r
        h1 in
    let same : made found ≡ r = cc last in ap record_entry (sym same)

records-entries :
    (lib : Libraries) (platform : String) (found : OrderedDict String Metadata)
    (records : List PackageRecord)
    → Answers (record_of lib platform) found records
    → map record_entry records ≡ entries found
records-entries lib platform _ _ no_more = refl
records-entries lib platform _ _ (answer (url, m) r found records h more) =
    rw (record_of-entry lib platform url m r h, records-entries lib platform found records more)
      refl

append_assoc {ℓ} :
    {A : Type ℓ} (xs : List A) (x : A) (ys : List A) → (xs ++ (x ∷ [])) ++ ys ≡ xs ++ (x ∷ ys)
append_assoc [] x ys = refl
append_assoc (y ∷ xs) x ys = ap (λ zs. y ∷ zs) (append_assoc xs x ys)

append_nil {ℓ} : {A : Type ℓ} (xs : List A) → xs ≡ xs ++ []
append_nil [] = refl
append_nil (y ∷ xs) = ap (λ zs. y ∷ zs) (append_nil xs)

abbrev pub transcribed : Environment → String × List Entry
transcribed e = (e.platform, map record_entry e.explicit_packages)

module _ (lib : Libraries) (pypi_name rattler : String) where
  added-entries :
      (target : String) (pypi : Option String) (found : OrderedDict String Metadata) (p : Package)
      (more : OrderedDict String Metadata)
      → refuse_if (is_given (get p.url found)) duplicate_package >>= (λ _.
        check_wheel lib pypi_name rattler target p.url >>= λ _.
        wheel_channel lib pypi_name rattler pypi p.url >>= λ channel.
        returned (insert p.url (metadata_of p channel) found))
        ≡ returned more
      → entries more ≡ entries found ++ (package_entry p ∷ [])
  added-entries target pypi found p more h =
      let made : Option String → OrderedDict String Metadata =
        λ channel. insert p.url (metadata_of p channel) found in
      let rest : Outcome Error (OrderedDict String Metadata) =
        wheel_channel lib pypi_name rattler pypi p.url >>= λ channel. returned (made channel) in
      let (absent, h1) = guard _ duplicate_package _ more h in
      let (_, _, h2) =
        bind-eq-returned (check_wheel lib pypi_name rattler target p.url) (λ _. rest) more h1 in
      let (channel, _, last) =
        bind-eq-returned (wheel_channel lib pypi_name rattler pypi p.url)
          (λ channel. returned (made channel)) more h2 in
      let same : made channel ≡ more = cc last in
      ap entries (sym same) ∙ entries-insert p.url (metadata_of p channel) found absent

  add_package-entries :
      (target : String) (pypi : Option String) (platform : String)
      (found : OrderedDict String Metadata) (p : Package) (ps : List Package)
      (more : OrderedDict String Metadata)
      → add_package lib pypi_name rattler target pypi platform found p ≡ returned more
      → entries more ++ package_entries platform ps
        ≡ entries found ++ package_entries platform (p ∷ ps)
  unfolding add_package
  add_package-entries target pypi platform found p ps more h =
      elim (Bool-cases (p.platform == platform)) [
        | inl e ↦ rw e (
            ap (λ es. es ++ package_entries platform ps)
              (added-entries target pypi found p more (rw e at h))
            ∙ append_assoc (entries found) (package_entry p) (package_entries platform ps))
        | inr e ↦
            let same : returned found ≡ returned more = rw e at h in
            let kept : found ≡ more = cc same in
            rw e (ap (λ es. entries es ++ package_entries platform ps) (sym kept))
      ]

  metadata-entries :
      (target : String) (pypi : Option String) (platform : String)
      (found : OrderedDict String Metadata) (ps : List Package) (out : OrderedDict String Metadata)
      → metadata_by_url lib pypi_name rattler target pypi platform found ps ≡ returned out
      → entries out ≡ entries found ++ package_entries platform ps
  unfolding metadata_by_url
  metadata-entries target pypi platform found [] out h =
      let same : found ≡ out = cc h in ap entries (sym same) ∙ append_nil (entries found)
  metadata-entries target pypi platform found (p ∷ ps) out h =
      let (more, adds, h1) =
        bind-eq-returned (add_package lib pypi_name rattler target pypi platform found p)
          (λ more. metadata_by_url lib pypi_name rattler target pypi platform more ps) out h in
      metadata-entries target pypi platform more ps out h1
      ∙ add_package-entries target pypi platform found p ps more adds

  environment_on-transcribed :
      (target : String) (model : CondaLockV1) (platform : String) (e : Environment)
      → environment_on lib pypi_name rattler target model platform ≡ returned e
      → transcribed e ≡ (platform, package_entries platform model.packages)
  unfolding environment_on records_for_export
  environment_on-transcribed target model platform e h =
      let made : List PackageRecord → Environment = λ records. record {
        platform = platform;
        channels = map lib.canonical_name model.channels;
        explicit_packages = records;
      } in
      let rest : OrderedDict String Metadata → Outcome Error Environment =
        λ found. records_for_export lib found platform >>= λ records. returned (made records) in
      let (found, finds, h1) =
        bind-eq-returned
          (metadata_by_url lib pypi_name rattler target (pypi_channel lib pypi_name rattler model)
            platform [] model.packages)
          rest e h in
      let (records, reads, last) =
        bind-eq-returned (records_for_export lib found platform)
          (λ records. returned (made records)) e h1 in
      let same : made records ≡ e = cc last in
      ap transcribed (sym same)
      ∙ ap (λ es. (platform, es))
          (records-entries lib platform found records
              (traverse-Answers (record_of lib platform) found records reads)
            ∙ metadata-entries target _ platform [] model.packages found finds)

  answers-transcribed :
      (target : String) (model : CondaLockV1) (platforms : List String) (envs : List Environment)
      → Answers (environment_on lib pypi_name rattler target model) platforms envs
      → map transcribed envs ≡ map (λ p. (p, package_entries p model.packages)) platforms
  answers-transcribed target model _ _ no_more = refl
  answers-transcribed target model _ _ (answer p e ps es h more) =
      rw
        (environment_on-transcribed target model p e h, answers-transcribed target model ps es more)
        refl

  -- What a conda-lock-v1 file is transcoded to has the requested platforms, each once, in order, at least
  -- one and all of the file; each has one record for each package of the file on that platform, in order,
  -- with its URL, name, version, dependencies and hashes; and no package of the file on a requested
  -- platform is optional, of another manager than conda or of another category than main.
  pub transcode_conda_lock-IsLossless :
      (target : String) (platforms : List String) (model : CondaLockV1) (envs : List Environment)
      → transcode_conda_lock lib pypi_name rattler target platforms model ≡ returned envs
      → (map transcribed envs ≡ map (λ p. (p, package_entries p model.packages)) (dedupe platforms))
        × (is_empty (dedupe platforms) ≡ false)
        × (any (λ p. not (contains model.platforms p)) (dedupe platforms) ≡ false)
        × (any (is_unsupported (dedupe platforms)) model.packages ≡ false)
  unfolding transcode_conda_lock
  transcode_conda_lock-IsLossless target platforms model envs h =
      let (some_platform, h1) = guard _ no_platform_requested _ envs h in
      let (known, h2) = guard _ platforms_not_in_lockfile _ envs h1 in
      let (kept, h3) = guard _ packages_would_be_lost _ envs h2 in
      (
        answers-transcribed target model (dedupe platforms) envs
            (traverse-Answers _ (dedupe platforms) envs h3),
        some_platform,
        known,
        kept,
      )
