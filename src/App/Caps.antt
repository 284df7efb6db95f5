-- ===== src/App/Caps.antt =====
-- `validate_caps`: the limits of one request.
use Prim.Native.Nat.{Ordering}
use Prim.Native.String.{compare}
use conda_presto.Prelude.{
  ℕ, String, ◌≡◌, refl, ◌≤◌, Bool, true, false, ltb, ltb-false→le, Option, none, some, List, [],
  ◌∷◌, All, contains, length, string_eq, if◌then◌else◌, arith,
}
use conda_presto.Exceptions.Text.{Text}
use conda_presto.App.Response.{
  Response, too_many_specs, too_many_channels, too_many_platforms, unsupported_platforms,
}
use conda_presto.App.Channels.{validate_channels}
use conda_presto.App.Channels.Allowed.{IsAllowed, validate_channels-IsAllowed}

-- config.py's values, conda's `KNOWN_SUBDIRS` and channel URLs.
pub record Settings : Type 0 where
  pub max_specs : ℕ
  pub max_channels : ℕ
  pub max_platforms : ℕ
  pub channel_allowlist : List String
  pub default_channels : List String
  pub known_subdirs : List String
  pub native_subdir : String
  pub urls : String → Option (List Text)
  pub malformed : Text → Bool

-- into a sorted list without duplicates
abbrev insert : String → List String → List String
insert x [] = x ∷ []
insert x (y ∷ ys) =
    let rest = insert x ys in
    elim (compare x y) [ Ordering.lt ↦ x ∷ y ∷ ys | Ordering.eq ↦ y ∷ ys | Ordering.gt ↦ y ∷ rest ]

-- `sorted(set(xs))`
abbrev pub sorted : List String → List String
sorted [] = []
sorted (x ∷ xs) = insert x (sorted xs)

-- `set(xs) - set(ys)`
abbrev pub difference : List String → List String → List String
difference [] ys = []
difference (x ∷ xs) ys = let rest = difference xs ys in if contains ys x then rest else x ∷ rest

insert-nonempty : (x : String) (xs : List String) → insert x xs ≡ [] → ⊥
insert-nonempty x [] e = ground arith
insert-nonempty x (y ∷ ys) e = ground arith

is_known :
    (b : Bool) (platform : String) (rest : List String)
    → sorted (if b then rest else platform ∷ rest) ≡ []
    → (b ≡ true) × (sorted rest ≡ [])
is_known true platform rest e = (refl, e)
is_known false platform rest e = absurd (insert-nonempty platform (sorted rest) e)

pub difference-known :
    (platforms known : List String)
    → sorted (difference platforms known) ≡ []
    → All (λ platform. contains known platform ≡ true) platforms
difference-known [] known e = tt
difference-known (p ∷ ps) known e =
    let (is, rest) = is_known (contains known p) p (difference ps known) e in
    (is, difference-known ps known rest)

passes :
    (a b c : Bool) (r s t : Response) (o : Option Response)
    → (if a then some r else if b then some s else if c then some t else o) ≡ none
    → (a ≡ false) × (b ≡ false) × (c ≡ false) × (o ≡ none)
passes true b c r s t o h = cc h
passes false true c r s t o h = cc h
passes false false true r s t o h = cc h
passes false false false r s t o h = (refl, refl, refl, h)

module _ (settings : Settings) where
  unfoldable pub validate_platforms :
      List String → List String → Bool → List String → Option Response
  validate_platforms (invalid ∷ others) channels validate_channel_allowlist known =
      some (unsupported_platforms (invalid ∷ others) known)
  validate_platforms [] channels true known =
      validate_channels settings.urls settings.malformed settings.channel_allowlist channels
  validate_platforms [] channels false known = none

  unfoldable pub validate_caps : List String → List String → List String → Bool → Option Response
  unfolding validate_platforms
  validate_caps specs channels platforms validate_channel_allowlist =
      if ltb settings.max_specs (length specs)
      then some (too_many_specs (length specs) settings.max_specs)
      else if ltb settings.max_channels (length channels)
      then some (too_many_channels (length channels) settings.max_channels)
      else if ltb settings.max_platforms (length platforms)
      then some (too_many_platforms (length platforms) settings.max_platforms)
      else validate_platforms (sorted (difference platforms settings.known_subdirs)) channels
          validate_channel_allowlist (sorted settings.known_subdirs)

  -- What may be solved for a client.
  pub record IsWithin (specs channels platforms : List String) : Type 0 where
    pub few_specs : length specs ≤ settings.max_specs
    pub few_channels : length channels ≤ settings.max_channels
    pub few_platforms : length platforms ≤ settings.max_platforms
    pub known : All (λ platform. contains settings.known_subdirs platform ≡ true) platforms
    pub allowed : All (IsAllowed settings.urls settings.channel_allowlist) channels

  validate_platforms-IsAllowed :
      (invalid channels known : List String)
      → validate_platforms invalid channels true known ≡ none
      → (invalid ≡ []) × All (IsAllowed settings.urls settings.channel_allowlist) channels
  unfolding validate_platforms
  validate_platforms-IsAllowed (p ∷ ps) channels known h = cc h
  validate_platforms-IsAllowed [] channels known h = (
    refl,
    validate_channels-IsAllowed settings.urls settings.malformed settings.channel_allowlist channels
        h,
  )

  -- When `validate_caps` has no objection, the specs, channels and platforms are no more than their
  -- limits, the platforms are conda's, and the allowlist allows each channel.
  pub validate_caps-IsWithin :
      (specs channels platforms : List String)
      → validate_caps specs channels platforms true ≡ none
      → IsWithin specs channels platforms
  unfolding validate_caps
  validate_caps-IsWithin specs channels platforms h =
      let (s, c, p, o) = passes _ _ _ _ _ _ _ h in
      let (known, allowed) = validate_platforms-IsAllowed _ channels _ o in
      record {
        few_specs = ltb-false→le settings.max_specs (length specs) s;
        few_channels = ltb-false→le settings.max_channels (length channels) c;
        few_platforms = ltb-false→le settings.max_platforms (length platforms) p;
        known = difference-known platforms settings.known_subdirs known;
        allowed = allowed;
      }
