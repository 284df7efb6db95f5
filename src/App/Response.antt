-- ===== src/App/Response.antt =====
-- The error responses of app.py, one constructor for each message, with what the message holds, and
-- the answer of Litestar to an exception that is not caught.
use conda_presto.Prelude.{ℕ, String, List}

pub data Response : Type 0 where
  too_many_specs too_many_channels too_many_platforms : (given limit : ℕ) → Response
  unsupported_platforms : (invalid supported : List String) → Response
  invalid_channel_configuration : Response
  unsupported_channels : Response
  invalid_json_body : (message : String) → Response
  body_not_utf8 : (message : String) → Response
  unsupported_content_type : (content_type : String) (supported : List String) → Response
  parse_timeout : Response
  parse_failed : (message : String) → Response
  lockfile_not_solvable : Response
  selection_failed : (message : String) → Response
  workspace_overrides_refused : Response
  workspace_sbom_unsupported : Response
  locked_sbom_needs_workspace : Response
  environments_need_workspace : Response
  lockfile_records_unavailable : Response
  lockfile_lacks_platforms : Response
  nothing_to_solve : Response
  unknown_format : (available : List String) → Response
  solve_timeout : Response
  workspace_failed : (environment platform error : String) → Response
  internal_solver_error : Response
  uncaught_exception : Response

-- `status_code`
unfoldable pub status_code : Response → ℕ
status_code (too_many_specs given limit) = 400
status_code (too_many_channels given limit) = 400
status_code (too_many_platforms given limit) = 400
status_code (unsupported_platforms invalid supported) = 400
status_code invalid_channel_configuration = 500
status_code unsupported_channels = 400
status_code (invalid_json_body message) = 400
status_code (body_not_utf8 message) = 400
status_code (unsupported_content_type content_type supported) = 400
status_code parse_timeout = 504
status_code (parse_failed message) = 400
status_code lockfile_not_solvable = 400
status_code (selection_failed message) = 400
status_code workspace_overrides_refused = 400
status_code workspace_sbom_unsupported = 400
status_code locked_sbom_needs_workspace = 400
status_code environments_need_workspace = 400
status_code lockfile_records_unavailable = 400
status_code lockfile_lacks_platforms = 400
status_code nothing_to_solve = 400
status_code (unknown_format available) = 400
status_code solve_timeout = 504
status_code (workspace_failed environment platform error) = 500
status_code internal_solver_error = 500
status_code uncaught_exception = 500
