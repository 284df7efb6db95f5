-- ===== src/Exceptions/Redact.antt =====
-- `redact_safe_error` and `safe_error_message`: what of an error may reach a client.
pub mod Urls
pub mod Blocks
use Prim.Native.String.{String}
use conda_presto.Prelude.{
  ℕ, zero, suc, ◌+◌, Bool, true, false, not, ◌&&◌, ◌||◌, List, [], ◌∷◌, ◌++◌, leb, length, drop,
  if◌then◌else◌,
}
use conda_presto.Exceptions.Text.{
  Text, codes, is_lead, is_scheme, is_space, splitlines, join_lines, take_while, drop_while, strip,
  starts_with, text_eq,
}

abbrev is_empty : Text → Bool
is_empty [] = true
is_empty (c ∷ cs) = false

-- `://\S`, in steps: what may follow a scheme
abbrev pub opens_host : Text → Bool
opens_host [] = false
opens_host (c ∷ cs) = not (is_space c)

abbrev pub opens_slash : Text → Bool
opens_slash [] = false
opens_slash (c ∷ cs) = (leb 47 c && leb c 47) && opens_host cs

abbrev pub opens_slashes : Text → Bool
opens_slashes [] = false
opens_slashes (c ∷ cs) = (leb 47 c && leb c 47) && opens_slash cs

abbrev pub opens : Text → Bool
opens [] = false
opens (c ∷ cs) = (leb 58 c && leb c 58) && opens_slashes cs

abbrev pub redacted_url : Text
redacted_url = codes "[redacted-url]"

-- `URL_RE.sub(r"\g<prefix>[redacted-url]", text)`. The pattern can match only where a run of
-- scheme characters begins: its possessive `prefix` takes the digits and signs in front of the
-- first letter, the scheme takes the rest of the run, and `://\S+` reaches to the next space. The
-- fuel bounds the number of runs and single characters that are passed.
sub_run : Text → Text → (Text → Text) → Text
sub_run run rest go =
    if not (is_empty (drop_while is_lead run)) && opens rest
    then take_while is_lead run ++ (redacted_url ++ go (drop_while (λ c. not (is_space c)) rest))
    else run ++ go rest

sub_step : Text → (Text → Text) → Text
unfolding sub_run
sub_step [] go = []
sub_step (c ∷ cs) go =
    if is_scheme c
    then sub_run (take_while is_scheme (c ∷ cs)) (drop_while is_scheme (c ∷ cs)) go
    else c ∷ go cs

pub sub : ℕ → Text → Text
unfolding sub_step
sub zero text = []
sub (suc fuel) text = sub_step text (sub fuel)

unfoldable pub sub_urls : Text → Text
unfolding sub
sub_urls text = sub (suc (length text)) text

abbrev channels_header : Text
channels_header = codes "Current channels:"

abbrev channels_redacted : Text
channels_redacted = codes "Current channels: [redacted]"

-- The loop over the lines. In the block under a header, blank lines and list items are skipped.
pub redact_lines : Bool → List Text → List Text
redact_lines in_block [] = []
redact_lines in_block (l ∷ ls) =
    let skipped = in_block && (is_empty (strip l) || starts_with l (codes "  - ")) in
    let header = text_eq (strip l) channels_header in
    let rest = redact_lines (skipped || header) ls in
    if skipped then rest else if header then channels_redacted ∷ rest else l ∷ rest

-- `redact_safe_error`
unfoldable pub redact_safe_error : Text → Text
unfolding redact_lines sub_urls
redact_safe_error message = sub_urls (join_lines (redact_lines false (splitlines message)))

-- The exceptions as `safe_error_message` sees them: the two classes of `SAFE_ERROR_TYPES`, and all
-- others, each with `str(exc)`.
pub data Exception : Type 0 where
  unsatisfiable packages_not_found other : Text → Exception

unfoldable pub safe_error_message : Exception → Text
unfolding redact_safe_error
safe_error_message (unsatisfiable message) = redact_safe_error message
safe_error_message (packages_not_found message) = redact_safe_error message
safe_error_message (other message) = codes "Internal solver error"
