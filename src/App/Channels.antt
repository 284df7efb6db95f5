-- ===== src/App/Channels.antt =====
-- `resolved_channel_urls` and `validate_channels`: the channel allowlist.
pub mod Allowed
use conda_presto.Prelude.{
  ℕ, ◌+◌, String, ◌≡◌, refl, ◌↔◌, Bool, true, false, not, ◌&&◌, ◌||◌, Bool-cases, Option, none,
  some, List, [], ◌∷◌, ◌++◌, map, all, All, contains, any, leb, nat_eq, list_eq, string_eq, ◌==◌,
  if◌then◌else◌, arith,
}
use conda_presto.Exceptions.Text.{
  Text, codes, is_letter, is_scheme, is_space, take_while, drop_while, text_eq,
}
use conda_presto.App.Response.{
  Response, invalid_channel_configuration, unsupported_channels, uncaught_exception,
}

-- `url.removesuffix(suffix)`, for a suffix that is not empty
unfoldable pub removesuffix : Text → Text → Text
unfolding text_eq
removesuffix suffix [] = []
removesuffix suffix (c ∷ cs) =
    let rest = removesuffix suffix cs in if text_eq (c ∷ cs) suffix then [] else c ∷ rest

abbrev lower : ℕ → ℕ
lower c = if leb b'A' c && leb c b'Z' then c + 32 else c

abbrev leads : (ℕ → Bool) → Text → Bool
leads p [] = false
leads p (c ∷ cs) = p c

-- tabs and line breaks, which `urlsplit` removes
abbrev without_breaks : Text → Text
without_breaks [] = []
without_breaks (c ∷ cs) =
    let rest = without_breaks cs in if contains (9 ∷ 10 ∷ 13 ∷ []) c then rest else c ∷ rest

-- `urlsplit(url).scheme`, where `urlsplit` does not raise
unfoldable pub scheme : Text → Text
unfolding take_while drop_while
scheme url =
    let url = without_breaks (drop_while (λ c. leb c 32) url) in
    if leads is_letter url && leads (λ c. leb 58 c && leb c 58) (drop_while is_scheme url)
    then map lower (take_while is_scheme url)
    else []

abbrev pub is_http : Text → Bool
is_http url = contains (codes "http" ∷ codes "https" ∷ []) (scheme url)

abbrev pub without_noarch : Option (List Text) → Option (List Text)
without_noarch none = none
without_noarch (some found) = some (map (removesuffix (codes "/noarch")) found)

abbrev pub both : Option (List Text) → Option (List Text) → Option (List Text)
both none b = none
both (some a) none = none
both (some a) (some b) = some (a ++ b)

abbrev pub is_blank : String → Bool
is_blank channel = all is_space (codes channel)

abbrev pub is_empty : List Text → Bool
is_empty [] = true
is_empty (url ∷ found) = false

unfoldable pub reject : List String → Option Response
reject [] = none
reject (channel ∷ channels) = some unsupported_channels

-- `urls` is conda's `Channel(channel).urls(with_credentials=False, subdirs=("noarch",))`, which may
-- raise.
module _ (urls : String → Option (List Text)) where
  unfoldable pub resolved_channel_urls : String → Option (List Text)
  unfolding removesuffix
  resolved_channel_urls channel = without_noarch (urls channel)

  -- the URLs of the allowlist's entries other than `*`; an entry that raises makes them all raise
  unfoldable pub allowed_urls : List String → Option (List Text)
  unfolding resolved_channel_urls
  allowed_urls [] = some []
  allowed_urls (channel ∷ channels) =
      let rest = allowed_urls channels in
      if channel == "*" then rest else both (resolved_channel_urls channel) rest

module _ (allowlist : List String) where
  -- Whether the loop of `validate_channels` appends a channel to `invalid`.
  unfoldable pub is_invalid : List Text → String → Option (List Text) → Bool
  unfolding scheme
  is_invalid allowed channel none = true
  is_invalid allowed channel (some resolved) =
      let wildcard_http = contains allowlist "*" && all is_http resolved in
      is_blank channel
      || (is_empty resolved || (not wildcard_http && not (all (contains allowed) resolved)))

module _ (urls : String → Option (List Text)) (allowlist : List String) where
  unfoldable pub invalid_channels : List Text → List String → List String
  unfolding is_invalid resolved_channel_urls
  invalid_channels allowed [] = []
  invalid_channels allowed (channel ∷ channels) =
      let rest = invalid_channels allowed channels in
      if is_invalid allowlist allowed channel (resolved_channel_urls urls channel)
      then channel ∷ rest
      else rest

-- `malformed` says of which URLs `urlsplit` raises ValueError, which is not caught.
module _ (urls : String → Option (List Text)) (malformed : Text → Bool)
    (allowlist : List String) where
  -- `all` looks at URLs in the order in which the set gives them, up to one that is not http.
  abbrev raises_on : List Text → Bool
  raises_on [] = false
  raises_on (url ∷ resolved) =
      let rest = raises_on resolved in malformed url || (is_http url && rest)

  unfoldable pub split_raises : Option (List Text) → Bool
  unfolding scheme
  split_raises none = false
  split_raises (some resolved) = contains allowlist "*" && raises_on resolved

  unfoldable pub check : List String → Option (List Text) → Option Response
  unfolding invalid_channels reject split_raises resolved_channel_urls
  check channels none = some invalid_channel_configuration
  check channels (some allowed) =
      if any (λ channel. split_raises (resolved_channel_urls urls channel)) channels
      then some uncaught_exception
      else reject (invalid_channels urls allowlist allowed channels)

  unfoldable pub validate_channels : List String → Option Response
  unfolding check allowed_urls
  validate_channels channels = check channels (allowed_urls urls allowlist)
