-- ===== src/App/Request.antt =====
-- `ResolveRequest`: the fields of a request, from its body and query, and the file in it.
use conda_presto.Prelude.{
  ℕ, String, Option, none, some, List, [], ◌∷◌, map, contains, string_eq, if◌then◌else◌, ◌==◌, ◌<>◌,
}
use conda_presto.App.Response.{Response, invalid_json_body, body_not_utf8, unsupported_content_type}
use conda_presto.App.Caps.{sorted}

pub record ResolveRequest : Type 0 where
  pub specs : Option (List String)
  pub file : Option String
  pub filename : Option String
  pub channels : Option (List String)
  pub platforms : Option (List String)
  pub environments : Option (List String)

-- A value, or the message of the exception.
pub data Decoded (A : Type 0) : Type 0 where
  decoded : A → Decoded A
  invalid : String → Decoded A

-- The parts of a request that Litestar gives, and what msgspec and `bytes.decode` make of its body.
pub record Http : Type 0 where
  pub content_type : String
  pub body : List ℕ
  pub json_decode : List ℕ → Decoded ResolveRequest
  pub utf8_decode : List ℕ → Decoded String

pub record Query : Type 0 where
  pub spec : Option (List String)
  pub channel : Option (List String)
  pub platform : Option (List String)
  pub filename : Option String
  pub environment : Option (List String)

pub data FromHttp : Type 0 where
  resolve_request : ResolveRequest → FromHttp
  refused : Response → FromHttp

module _ {A : Type 0} where
  -- `value or []`
  abbrev pub or_empty : Option (List A) → List A
  or_empty none = []
  or_empty (some xs) = xs

  -- `value if value is not None else other`
  abbrev pub given : Option A → Option A → Option A
  given none other = other
  given (some value) other = some value

-- `filename or other`, where the empty name is none
abbrev pub named : Option String → Option String → Option String
named none other = other
named (some name) other = if name == "" then other else some name

abbrev raw_content_type_extensions : List (String × String)
raw_content_type_extensions =
    ("application/yaml", ".yml")
    ∷ ("application/x-yaml", ".yml")
    ∷ ("text/yaml", ".yml")
    ∷ ("text/x-yaml", ".yml")
    ∷ ("application/toml", ".toml")
    ∷ ("application/x-toml", ".toml")
    ∷ ("text/toml", ".toml")
    ∷ ("text/plain", ".txt")
    ∷ []

abbrev pub extension_of : String → List (String × String) → Option String
extension_of content_type [] = none
extension_of content_type (x ∷ xs) =
    let rest = extension_of content_type xs in if x.0 == content_type then some x.1 else rest

abbrev no_fields : ResolveRequest
no_fields = record {
  specs = none;
  file = none;
  filename = none;
  channels = none;
  platforms = none;
  environments = none;
}

-- The fields that the body gives, and the query's for the others.
unfoldable pub with_query : Query → ResolveRequest → ResolveRequest
with_query q body = record {
  specs = given body.specs (some (or_empty q.spec));
  channels = given body.channels (some (or_empty q.channel));
  platforms = given body.platforms q.platform;
  environments = given body.environments q.environment;
  file = body.file;
  filename = named body.filename q.filename;
}

from_json : Query → Decoded ResolveRequest → FromHttp
unfolding with_query
from_json q (invalid message) = refused (invalid_json_body message)
from_json q (decoded body) = resolve_request (with_query q body)

from_text : Query → String → Decoded String → FromHttp
from_text q extension (invalid message) = refused (body_not_utf8 message)
from_text q extension (decoded content) = resolve_request (record {
  specs = some (or_empty q.spec);
  channels = some (or_empty q.channel);
  platforms = q.platform;
  environments = q.environment;
  file = some content;
  filename = named q.filename (some ("environment" <> extension));
})

from_raw : Http → Query → Option String → FromHttp
unfolding from_text
from_raw http q none = refused (
    unsupported_content_type http.content_type
      ("application/json" ∷ sorted (map (λ x. x.0) raw_content_type_extensions)))
from_raw http q (some extension) = from_text q extension (http.utf8_decode http.body)

decode_body : Http → List ℕ → Decoded ResolveRequest
decode_body http [] = decoded no_fields
decode_body http (b ∷ bs) = http.json_decode (b ∷ bs)

-- `ResolveRequest.from_http`
unfoldable pub from_http : Http → Query → FromHttp
unfolding from_json from_raw decode_body
from_http http q =
    if contains ("" ∷ "application/json" ∷ []) http.content_type
    then from_json q (decode_body http http.body)
    else from_raw http q (extension_of http.content_type raw_content_type_extensions)
