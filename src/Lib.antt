-- ===== src/Lib.antt =====
-- conda-presto solves conda environments without installing them, for a command line and for an
-- HTTP server. This library models the parts of it that decide what a client is given: what a
-- request may ask for, what is solved, kept and served again, and what of an error is shown.
--
-- How the parts interact. conda_presto/app.py takes a request, merges its body with its query, has
-- its file parsed and checks limits and the channel allowlist. The cached solve captures which
-- repodata files a solve would read (conda_presto/resolve.py), looks for a retained result
-- (conda_presto/cache.py), and otherwise solves, in a persistent process (conda_presto/worker.py)
-- or in a thread, and keeps the result. The cache holds results in the process and may have a
-- persistent store behind it, whose operations conda_presto/storage.py queues. Errors of a solve
-- reach a client through conda_presto/exceptions.py. conda_presto/config.py reads the environment
-- variables.
--
-- An uploaded file is checked and parsed in a process of its own (conda_presto/inputs.py). A
-- workspace manifest becomes targets that are selected, composed and solved
-- (conda_presto/workspace.py); a conda.lock becomes saved targets that are verified against a
-- companion manifest, exported or updated (conda_presto/workspace_lock.py). Other lockfiles are
-- transcoded (conda_presto/lockfile_transcode.py). Documents are written through
-- conda_presto/exporter.py.
--
-- The files.
--  Prelude, Prelude/Tests, Prelude/Lists, Prelude/Distinct: shared names, Python's tests, lists over
--    native numbers, lists in which nothing stands twice.
--  OrderedDict with /Laws and /Order: Python's dict as an association list in insertion order.
--  Task with /Meets: stateful code as a function from the state to a value and the next state, and a
--    rule for what holds before and after a task.
--  Exceptions/Value: nested JSON-like data. Exceptions/Text: str as code points, with strip, splitlines
--    and the character classes. Exceptions/Redact: redact_safe_error, with the pattern URL_RE written
--    out, and safe_error_message. /Redact/Blocks and /Redact/Urls are about lines and URLs.
--    Exceptions/Logging: CredentialRedactionFilter.
--  Cache/Types, Cache/Keys: StoredResult, the fields of ResultCache, both families of keys.
--    Cache/Memory: remember_memory with its eviction loop. Cache/Stored: get_stored, store_entry,
--    discard, delete_persistent, get_response and remember as tasks. At each request to the store an
--    oracle gives its reply and what other tasks did to the cache during the wait. The proofs are in
--    /Memory/Bounds, /Memory/Eviction, /Stored/Sound, /Stored/Writes, /Stored/Runs and
--    /Stored/Publication.
--  Resolve/Platform: configure_platform and configure_context. Resolve/Dispatch: dispatch, with the
--    order in which the pool's futures end as an argument. Resolve/Snapshot: RepodataSnapshot.
--    Resolve/Index: build_index and clear_index_cache. Resolve/Solve: solve, solve_environments and the
--    results of failed platforms.
--  App/Response: the error responses, one constructor for each. App/Channels: validate_channels with
--    resolved_channel_urls. App/Caps: validate_caps. App/Request: ResolveRequest.from_http. App/Inputs:
--    ResolveRequest.inputs and the outcome of parse_input_for_request. App/Solve: run_cached_solve,
--    whose argument says at which of its awaits and checks the deadline has passed, what each capture
--    sees and what the solve comes to. App/Run: run_solve, from the way in which the call in a thread
--    ends.
--  Exporter: OutputFormat over one of conda's exporter plugins, whose functions may raise, with proofs in
--    /Declared and /Versions.
--  Config, Config/Lists: env_int, env_bool, env_list and the choice of the cache backend.
--  InputFile/Limits: validate_input_path, with the loop over a TOML document in rounds; about it
--    /Limits/Toml, /Yaml and /Whole. InputFile/Name: input_filename over an encoding that may fail, with
--    /Kept and /Safe. InputFile/Process: from_content_until and _from_path_process, with the clock and
--    the fate of the process as arguments, with /Checked and /Safe. InputFile/Request: the arguments,
--    guards and results of from_path, and the plugins that it calls. InputFile/Parse: from_path, with
--    /Consistent and /Asked.
--  Workspace/Error: the exceptions, and chains that end with the first. Workspace/Config: the data of
--    conda_presto/workspace.py. Workspace/Select: which targets the selectors stand for (/Pick and
--    /Chosen are about it). Workspace/Input: WorkspaceInput.target, from_config and select, with
--    /Selection and /Composed. Workspace/Output: validate_output, with /Representable. Workspace/Solve:
--    solve and solve_selected, with /Reported and /Delivered. Workspace/Export: WorkspaceInput.export.
--  WorkspaceLock/Loader: the data of conda_presto/workspace_lock.py and the loader that it uses.
--    WorkspaceLock/Select: WorkspaceLockInput.from_path, with /Saved and /Chosen. WorkspaceLock/Input:
--    environment, check_consistency, prepare_update and with_manifest, with /Consistent, /Ready and
--    /Verified. WorkspaceLock/Output: render and render_each, with /Whole and /Each.
--    WorkspaceLock/Update: WorkspaceLockUpdate.solve, with /Updated.
--  Transcode/Records: CondaLockfilesTranscoder.records_for_export. Transcode/CondaLock: its render on a
--    conda-lock-v1 file, up to the environments that are exported, with /Lossless.
--  Storage/Operation: StoreOperation and one round of StoreOperationCoordinator.run.
--    Storage/Coordinator: submit, run and lifespan as a state machine over a stream with room for one
--    operation. The events are submissions, deadlines, the consumer's turns, and the lifespan's begin
--    and end. Storage/Written, /Order, /Served and /Progress hold the proofs.
--  Worker/Stop, Worker/Start, Worker/Execute: the methods of PersistentSolveWorker, with what the
--    operating system does during a call as its argument. Worker/Child: the loop of
--    persistent_solve_worker_entrypoint and how its messages are read. Worker/Life and Worker/Answers:
--    sequences of calls.
--  Tests: runs on concrete data.
--
-- Numbers, bounds and fuel. Sizes and counts are natural numbers, as they are in Python; limits
-- that config.py reads as integers count as not negative. Loops are recursion on a list. The
-- replacement of URLs runs on fuel, one more than the length of the text, and each step takes a
-- character at least, so it is enough. The loop over a TOML document runs on fuel, one more than
-- HTTP_INPUT_MAX_NODES, and each round counts a node, so it is enough. The wait for a new worker is
-- a list of rounds, at whose end the deadline passes.
--
-- What is not this repository's code is an argument: SHA-256, msgspec and UTF-8 in Cache/Types and
-- App/Request, conda's channels and repodata caches in Resolve/Snapshot and App/Caps, what urlsplit
-- refuses in App/Channels, the solver in Resolve/Dispatch, Litestar's stores in Storage/Operation,
-- the process and its pipe in Worker, the readers of YAML and TOML and Unicode's tables in
-- InputFile, conda's environment plugins in InputFile/Request, conda_workspaces' manifests,
-- resolved environments and lock loader and packaging's requirements in Workspace and
-- WorkspaceLock, urllib.parse, match specs and the parser of wheel names in Transcode. Where a
-- result relies on what such code documents, a hypothesis names it: that decoding undoes encoding,
-- or that other tasks keep the cache's invariant.
--
-- What is not modelled, and why. The digest that key_for computes, the credential tests of channels
-- and specs, contains_credentials, and the digests and cache identities of workspaces and locks are
-- arguments where they are used or left out. Of workspaces and locks, the contexts that set conda's
-- settings and environment variables for a target, WorkspaceInput.from_path, which calls
-- conda_workspaces' parser, and solve_channels are left out. Of conda_presto/lockfile_transcode.py
-- the branch of rattler-lock-v6 and the choice of formats are left out, and render is an argument
-- of from_path. The command line (cli.py) and the signing of artifacts (attestation.py) are left
-- out: most of each is calls of argparse or Sigstore. In app.py the handlers of exports, checks,
-- updates and SBOMs are left out; the routes, middleware and the server's start are declarations
-- for Litestar. In resolve.py the process pool and the call of the solver are left out. An OSError
-- other than the end of the pipe that recv raises in PersistentSolveWorker.execute, which leaves a
-- request on the pipe, is not modelled. Calls that only log have no model.
mod Prelude
pub mod OrderedDict
pub mod Task
pub mod Exceptions
pub mod Resolve
pub mod Config
pub mod Exporter
pub mod InputFile
pub mod Workspace
pub mod WorkspaceLock
pub mod Transcode
pub mod Worker
pub mod App
pub mod Storage
pub mod Cache
mod Tests
