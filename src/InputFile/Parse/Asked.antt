-- ===== src/InputFile/Parse/Asked.antt =====
-- A parsed file holds what was asked for, whatever kind of file it is.
use mathlib.Core.Path.{subst}
use conda_presto.Prelude.{
  String, ◌≡◌, refl, sym, ap, ◌∙◌, Bool, true, false, not, ◌&&◌, Option, none, some, List, [], ◌∷◌,
  arith, Bool-cases, inl, inr, if◌then◌else◌, string_eq, contains, dedupe, map, all, ◌==◌, ==→eq,
}
use conda_presto.Exceptions.Text.{Text}
use conda_presto.Resolve.Dispatch.{Outcome, returned, raised}
use conda_presto.Workspace.Error.{
  Error, traverse, ◌>>=◌, bind-eq-returned, library_error, environments_need_manifest,
}
use conda_presto.Workspace.Config.{WorkspaceInput}
use conda_presto.Workspace.Select.{is_empty}
use conda_presto.WorkspaceLock.Select as Lock
use conda_presto.Workspace.Input.{refuse_if}
use conda_presto.Workspace.Input.Composed.{guard}
use conda_presto.WorkspaceLock.Loader.{SavedEnvironment, WorkspaceLockInput}
use conda_presto.WorkspaceLock.Input.{WorkspaceLockCheckResult, WorkspaceLockUpdate}
use conda_presto.WorkspaceLock.Output.{WorkspaceLockExport}
use conda_presto.InputFile.Request.{
  Request, Parsed, Reading, lockfile_name, is_given, checks, check_request, asked_if, check_asked,
  empty_parsed, or_no_documents, Specification,
}
use conda_presto.InputFile.Parse.{
  read_companion, rendered_content, rendered_documents, checked_lock, prepared_update,
  all_platforms, parse_workspace, read_workspace, declared_content, environment_content,
  read_records, transcode_or_load, targets_of, parse_lockfile, parse_environment, parse_lock,
  parse_ordinary, parse_kind, from_path,
}
use conda_presto.InputFile.Parse.Consistent.{
  IsConsistent, IsAsked, optionally-given, check_request-IsConsistent, both_and, asked_none,
  asked_both, no_documents, if_each, check-given, others-IsAsked, clash,
}

-- A chain that returns: its four results, of which the last call's is made of all.
four_results {ℓ} :
    {A B C D : Type 0} {R : Type ℓ} (m : Outcome Error A) (f : Outcome Error B)
    (g : Outcome Error C) (k : Outcome Error D) (make : A → B → C → D → R) (p : R)
    → (m >>= λ a. f >>= λ b. g >>= λ c. k >>= λ d. returned (make a b c d)) ≡ returned p
    → (a : A) × (b : B) × (c : C) × (d : D) × (m ≡ returned a)
      × (f ≡ returned b)
      × (g ≡ returned c)
      × (k ≡ returned d)
      × (make a b c d ≡ p)
four_results (returned a) (returned b) (returned c) (returned d) make p h =
    (a, b, c, d, refl, refl, refl, refl, cc h)
four_results (returned a) (returned b) (returned c) (raised error) make p h = cc h
four_results (returned a) (returned b) (raised error) k make p h = cc h
four_results (returned a) (raised error) g k make p h = cc h
four_results (raised error) f g k make p h = cc h

module _ {E : Type 0} (from : Reading E) where
  abbrev parsed_lock :
      WorkspaceLockInput
      → Option Text
      → Option (List WorkspaceLockExport)
      → Option WorkspaceLockCheckResult
      → Option WorkspaceLockUpdate
      → Parsed
  parsed_lock lock content documents check update = record empty_parsed {
    channels = lock.channels;
    is_lockfile = true;
    source_format = from.lock_format;
    available_platforms = dedupe (all_platforms from lock.environments);
    exported_content = content;
    workspace_lock = some lock;
    exported_documents = or_no_documents documents;
    lock_check = check;
    workspace_update = update;
  }

  parse_lock-IsAsked :
      (r : Request) (p : Parsed)
      → IsConsistent r
      → r.name ≡ lockfile_name
      → parse_lock from r ≡ returned p
      → IsAsked r p
  unfolding parse_lock
  parse_lock-IsAsked r p c name h =
      let rest : WorkspaceLockInput → Outcome Error Parsed = λ lock.
        rendered_content from r lock >>= λ content. rendered_documents from r lock >>= λ documents.
        checked_lock from r lock >>= λ check. prepared_update from r lock >>= λ update.
        returned (parsed_lock lock content documents check update) in
      let (lock, _, made) = bind-eq-returned (read_companion from r) rest p h in
      let (content, documents, check, update, renders, writes, looks, prepares, same) =
        four_results (rendered_content from r lock) (rendered_documents from r lock)
          (checked_lock from r lock) (prepared_update from r lock) (parsed_lock lock) p made in
      let given : is_given content ≡ (not r.export_each && is_given r.export_format) =
        optionally-given _ _ content renders ∙ asked_both (not r.export_each) r.export_format in
      subst (IsAsked r) same (record {
        checked =
            optionally-given (check_asked r.check_lock) _ check looks ∙ check-given r.check_lock;
        updated = optionally-given r.update _ update prepares;
        documents_asked = λ e. no_documents documents (
            optionally-given _ _ documents writes
            ∙ asked_both r.export_each r.export_format
            ∙ ap (λ b. b && is_given r.export_format) e);
        content_asked = λ e. given ∙ if_each r.export_each (is_given r.export_format) e;
        of_lock = λ _. (refl, name);
        whole = both_and (checks r) _ c.unselected;
        lock_content = λ _. given;
      })

  parse_workspace-IsAsked :
      (r : Request) (p : Parsed)
      → IsConsistent r
      → (r.name == lockfile_name) ≡ false
      → parse_workspace from r ≡ returned p
      → IsAsked r p
  unfolding parse_workspace
  parse_workspace-IsAsked r p c name h =
      let made : WorkspaceInput → Option Text → Parsed = λ workspace content. record empty_parsed {
        source_format = workspace.result.format;
        exported_content = content;
        workspace = some workspace;
      } in
      let rest : WorkspaceInput → Outcome Error Parsed = λ workspace.
        declared_content from r workspace >>= λ content. returned (made workspace content) in
      let (workspace, _, h1) = bind-eq-returned (read_workspace from r) rest p h in
      let (content, renders, last) =
        bind-eq-returned (declared_content from r workspace)
          (λ content. returned (made workspace content)) p h1 in
      let same : made workspace content ≡ p = cc last in
      subst (IsAsked r) same (
        others-IsAsked r (made workspace content) c name refl refl refl refl (λ e.
          optionally-given (asked_if (not r.lockfile_only) r.export_format) _ content renders
          ∙ asked_none (not r.lockfile_only) r.export_format (inl e)))

  load_records-content :
      (format : Option String) (materialize : Bool) (spec : Specification) (targets : List String)
      (read : Option Text × List SavedEnvironment)
      → transcode_or_load from format materialize spec targets ≡ returned read
      → is_given format ≡ false
      → is_given (read.0) ≡ false
  load_records-content none false spec targets read h e =
      let same : (none, []) ≡ read = cc h in ap (λ x. is_given (x.0)) (sym same)
  load_records-content none true spec targets read h e =
      let (envs, _, last) =
        bind-eq-returned (traverse spec.env_for targets) (λ envs. returned (none, envs)) read h in
      let same : (none, envs) ≡ read = cc last in ap (λ x. is_given (x.0)) (sym same)
  load_records-content (some format) materialize spec targets read h e = cc e

  read_records-content :
      (r : Request) (spec : Specification) (targets : List String)
      (read : Option Text × List SavedEnvironment)
      → read_records from r spec targets ≡ returned read
      → is_given r.export_format ≡ false
      → is_given (read.0) ≡ false
  unfolding read_records
  read_records-content r spec targets read h e =
      elim (Bool-cases (
        not (is_empty targets)
        && (not (is_empty spec.available_platforms)
            && all (contains spec.available_platforms) targets))) [
              | inl wanted ↦
                  load_records-content r.export_format r.materialize_lockfiles spec targets read
                    (ground arith) e
              | inr refuses ↦
                  let same : (none, []) ≡ read = ground arith in ap (λ x. is_given (x.0)) (sym same)
            ]

  parse_lockfile-IsAsked :
      (r : Request) (spec : Specification) (p : Parsed)
      → IsConsistent r
      → (r.name == lockfile_name) ≡ false
      → parse_lockfile from r spec ≡ returned p
      → IsAsked r p
  unfolding parse_lockfile
  parse_lockfile-IsAsked r spec p c name h =
      let made : Option Text × List SavedEnvironment → Parsed = λ read. record empty_parsed {
        specs = Lock.concat (map (λ e. e.requested_packages) read.1);
        channels = dedupe (Lock.concat (map (λ e. e.channels) read.1));
        is_lockfile = true;
        source_format = spec.format_name;
        available_platforms = spec.available_platforms;
        environments = read.1;
        exported_content = read.0;
      } in
      let (read, reads, last) =
        bind-eq-returned (read_records from r spec (targets_of from r))
          (λ read. returned (made read)) p h in
      let same : made read ≡ p = cc last in
      subst (IsAsked r) same (
        others-IsAsked r (made read) c name refl refl refl refl
          (read_records-content r spec (targets_of from r) read reads))

  parse_environment-IsAsked :
      (r : Request) (spec : Specification) (p : Parsed)
      → IsConsistent r
      → (r.name == lockfile_name) ≡ false
      → parse_environment from r spec ≡ returned p
      → IsAsked r p
  unfolding parse_environment
  parse_environment-IsAsked r spec p c name h =
      let made : SavedEnvironment → Option Text → Parsed = λ env content. record empty_parsed {
        specs = env.requested_packages;
        channels = env.channels;
        source_format = spec.format_name;
        environments = env ∷ [];
        exported_content = content;
      } in
      let rest : SavedEnvironment → Outcome Error Parsed =
        λ env. environment_content from r env >>= λ content. returned (made env content) in
      let (env, _, h1) = bind-eq-returned spec.env rest p h in
      let (content, renders, last) =
        bind-eq-returned (environment_content from r env) (λ content. returned (made env content)) p
          h1 in
      let same : made env content ≡ p = cc last in
      subst (IsAsked r) same (
        others-IsAsked r (made env content) c name refl refl refl refl (λ e.
          optionally-given (asked_if (not r.lockfile_only) r.export_format) _ content renders
          ∙ asked_none (not r.lockfile_only) r.export_format (inl e)))

  parse_read-IsAsked :
      (r : Request) (spec : Specification) (p : Parsed)
      → IsConsistent r
      → (r.name == lockfile_name) ≡ false
      → (if spec.is_lockfile then parse_lockfile from r spec else parse_environment from r spec)
        ≡ returned p
      → IsAsked r p
  parse_read-IsAsked r spec p c name h = elim (Bool-cases spec.is_lockfile) [
    | inl e ↦ parse_lockfile-IsAsked r spec p c name (ground arith)
    | inr e ↦ parse_environment-IsAsked r spec p c name (ground arith)
  ]

  parse_ordinary-IsAsked :
      (r : Request) (p : Parsed)
      → IsConsistent r
      → (r.name == lockfile_name) ≡ false
      → parse_ordinary from r ≡ returned p
      → IsAsked r p
  unfolding parse_ordinary
  parse_ordinary-IsAsked r p c name h =
      let (_, h1) = guard _ environments_need_manifest _ p h in
      let rest : Specification → Outcome Error Parsed = λ spec.
        refuse_if (not spec.can_handle) (library_error "No conda environment spec plugin") >>= λ _.
        if spec.is_lockfile then parse_lockfile from r spec else parse_environment from r spec in
      let (spec, _, h2) = bind-eq-returned from.specification rest p h1 in
      let (_, h3) = guard _ (library_error "No conda environment spec plugin") _ p h2 in
      parse_read-IsAsked r spec p c name h3

  parse_kind-IsAsked :
      (r : Request) (p : Parsed)
      → contains from.workspace_filenames lockfile_name ≡ false
      → IsConsistent r
      → parse_kind from r ≡ returned p
      → IsAsked r p
  unfolding parse_kind
  parse_kind-IsAsked r p apart c h = elim (Bool-cases (contains from.workspace_filenames r.name)) [
    | inl w ↦ elim (Bool-cases (r.name == lockfile_name)) [
      | inl l ↦
          clash (contains from.workspace_filenames lockfile_name)
            (subst (λ n. contains from.workspace_filenames n ≡ true) (==→eq r.name lockfile_name l)
              w)
            apart
      | inr l ↦ parse_workspace-IsAsked r p c l (ground arith)
    ]
    | inr w ↦ elim (Bool-cases (r.name == lockfile_name)) [
      | inl l ↦ parse_lock-IsAsked r p c (==→eq r.name lockfile_name l) (ground arith)
      | inr l ↦ parse_ordinary-IsAsked r p c l (ground arith)
    ]
  ]

  -- from_path returns, where conda.lock is no name of a workspace manifest: a check or an update exactly if
  -- it is asked for, and then of the whole lock; a document of a lock exactly if a format is given and
  -- not one for each target, and no document otherwise asked for; and a lock whenever a check, an update,
  -- a companion or a document for each target is asked for.
  pub from_path-IsAsked :
      (r : Request) (p : Parsed)
      → contains from.workspace_filenames lockfile_name ≡ false
      → from_path from r ≡ returned p
      → IsAsked r p
  unfolding from_path
  from_path-IsAsked r p apart h =
      let (u, accepts, h1) = bind-eq-returned (check_request r) (λ _. parse_kind from r) p h in
      parse_kind-IsAsked r p apart (check_request-IsConsistent r u accepts) h1
