-- ===== src/InputFile/Name.antt =====
-- `ParsedInputFile.input_filename`: the name that an uploaded file is written under.
pub mod Kept
pub mod Safe
use conda_presto.Prelude.{
  ℕ, zero, suc, ◌+◌, String, Bool, true, false, not, ◌&&◌, ◌||◌, Option, none, some, List, [], ◌∷◌,
  ◌++◌, ltb, leb, all, any, if◌then◌else◌, nat_eq, list_eq, contains, ◌==◌,
}
use conda_presto.Exceptions.Text.{Text, codes}

-- What Unicode says of a code point: `isprintable`, and the lower case of those beyond ASCII.
pub record Unicode : Type 0 where
  pub is_printable : ℕ → Bool
  pub lower_wide : ℕ → Text

-- Why a name is refused, with the message of the `ValueError` for an extension. A lone surrogate
-- cannot be encoded.
pub data Name : Type 0 where
  named : Text → Name
  unencodable too_long unprintable : Name
  unsupported : Text → Name

abbrev is_code : ℕ → ℕ → Bool
is_code a c = leb a c && leb c a

-- `os.path.basename`: what stands behind the last slash
unfoldable pub basename_from : Text → Text → Text
basename_from tail [] = tail
basename_from tail (c ∷ cs) =
    let fresh = basename_from cs cs in
    let kept = basename_from tail cs in if is_code 47 c then fresh else kept

unfoldable pub basename : Text → Text
unfolding basename_from
basename name = basename_from name name

-- The bytes of a code point in UTF-8.
abbrev encoded_size : ℕ → ℕ
encoded_size c = if ltb c 128 then 1 else if ltb c 2048 then 2 else if ltb c 65536 then 3 else 4

unfoldable pub encoded_length : Text → ℕ
encoded_length [] = 0
encoded_length (c ∷ cs) = encoded_size c + encoded_length cs

abbrev is_surrogate : ℕ → Bool
is_surrogate c = leb 55296 c && leb c 57343

-- `os.path.splitext(name)[1]`: from the last dot, when another character than a dot is before it
unfoldable pub extension_from : Text → Bool → Text → Text
extension_from found seen [] = found
extension_from found seen (c ∷ cs) =
    let at_dot = extension_from (c ∷ cs) seen cs in
    let leading = extension_from found false cs in
    let later = extension_from found true cs in
    if is_code 46 c then if seen then at_dot else leading else later

unfoldable pub extension : Text → Text
unfolding extension_from
extension name = extension_from [] false name

-- `ALLOWED_EXTENSIONS`, sorted
abbrev pub allowed_extensions : List Text
allowed_extensions =
    codes ".json" ∷ codes ".lock" ∷ codes ".toml" ∷ codes ".txt" ∷ codes ".yaml" ∷ codes ".yml" ∷ []

abbrev extension_message : Text → Text
extension_message ext =
    codes "Unsupported file extension '"
    ++ ext
    ++ codes "', allowed: .json, .lock, .toml, .txt, .yaml, .yml"

-- `filename or "environment.yml"`
abbrev pub or_default : Option Text → Text
or_default none = codes "environment.yml"
or_default (some []) = codes "environment.yml"
or_default (some (c ∷ cs)) = c ∷ cs

module _ (unicode : Unicode) where
  abbrev lower_code : ℕ → Text
  lower_code c =
      if leb b'A' c && leb c b'Z'
      then (c + 32) ∷ []
      else if ltb c 128
      then c ∷ []
      else unicode.lower_wide c

  -- `text.lower()`
  unfoldable pub lower : Text → Text
  lower [] = []
  lower (c ∷ cs) = lower_code c ++ lower cs

  unfoldable pub checked_name : Text → Name
  unfolding encoded_length extension lower
  checked_name name =
      if any is_surrogate name
      then unencodable
      else if ltb 240 (encoded_length name)
      then too_long
      else if not (all unicode.is_printable name)
      then unprintable
      else if not (contains allowed_extensions (lower (extension name)))
      then unsupported (extension_message (lower (extension name)))
      else named name

  -- `input_filename`
  unfoldable pub input_filename : Option Text → Name
  unfolding checked_name basename
  input_filename filename = checked_name (basename (or_default filename))
