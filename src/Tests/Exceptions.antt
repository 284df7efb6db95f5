-- ===== src/Tests/Exceptions.antt =====
-- Redaction at concrete messages.
use conda_presto.Prelude.{◌≡◌, refl, false}
use conda_presto.Exceptions.Text.{
  Text, codes, splitlines, join_lines, take_while, drop_while, strip, starts_with, text_eq,
}
use conda_presto.Exceptions.Redact.{unsatisfiable, safe_error_message, redact_safe_error}
use conda_presto.Exceptions.Redact.Urls.{has_url}
use conda_presto.Exceptions.Redact.Urls.Absent.{has_url-safe_error_message}
use conda_presto.Exceptions.Redact.Blocks.{IsHeader, IsItem}

abbrev message : Text
message =
    codes
      "bad url 1.https://user:pw@host/x, see\r\n\n  - https://a.b/t\nCurrent channels:\n\n  - https://c.d/e\nend"

redacted :
    redact_safe_error message
    ≡ codes "bad url 1.[redacted-url] see\n\n  - [redacted-url]\nCurrent channels: [redacted]\nend"
unfolding redact_safe_error splitlines join_lines take_while drop_while strip starts_with text_eq
redacted = refl

has_url-safe_error_message_example :
    has_url false (safe_error_message (unsatisfiable message)) ≡ false
has_url-safe_error_message_example = has_url-safe_error_message (unsatisfiable message)

header_lines_example : IsHeader (codes " Current channels: ")
unfolding strip text_eq
header_lines_example = refl

dash_line_example : IsItem (codes "  - https://c.d/e")
unfolding strip starts_with
dash_line_example = refl
