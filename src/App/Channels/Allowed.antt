-- ===== src/App/Channels/Allowed.antt =====
-- The channels that pass `validate_channels`.
use conda_presto.Prelude.{
  String, ◌≡◌, refl, ap, ◌≢◌, ◌⊎◌, inl, inr, Bool, true, false, not, ◌&&◌, ◌||◌, Option, none, some,
  List, [], ◌∷◌, ◌++◌, all, All, contains, nat_eq, list_eq, string_eq, if◌then◌else◌, arith, ◌==◌,
}
use conda_presto.Exceptions.Text.{Text}
use conda_presto.App.Response.{Response, uncaught_exception}
use conda_presto.App.Channels.{
  is_http, both, resolved_channel_urls, allowed_urls, is_blank, is_invalid, is_empty,
  invalid_channels, check, reject, validate_channels,
}

and_true : (a b : Bool) → (a && b) ≡ true → (a ≡ true) × (b ≡ true)
and_true a b h = ground arith

-- the three reasons to reject a channel
no_reason :
    (blank empty star http listed : Bool)
    → (blank || (empty || (not (star && http) && not listed))) ≡ false
    → (blank ≡ false) × (empty ≡ false) × (((star ≡ true) × (http ≡ true)) ⊎ (listed ≡ true))
no_reason blank empty star http listed h = ground arith

none_kept :
    (b : Bool) (channel : String) (rest : List String)
    → (if b then channel ∷ rest else rest) ≡ []
    → (b ≡ false) × (rest ≡ [])
none_kept true channel rest h = cc h
none_kept false channel rest h = (refl, h)

module _ (urls : String → Option (List Text)) where
  -- A URL of an entry of the allowlist other than `*`.
  abbrev pub IsListed : List String → Text → Type 0
  IsListed allowlist url =
      (entry : String) × (contains allowlist entry ≡ true)
      × ((entry == "*") ≡ false)
      × (found : List Text) × (resolved_channel_urls urls entry ≡ some found)
      × (contains found url ≡ true)

  abbrev pub IsAllowed : List String → String → Type 0
  IsAllowed allowlist channel =
      (is_blank channel ≡ false)
      × (resolved : List Text) × (resolved_channel_urls urls channel ≡ some resolved)
      × (resolved ≢ [])
      × (((contains allowlist "*" ≡ true) × (all is_http resolved ≡ true))
          ⊎ All (IsListed allowlist) resolved)

  contains-append :
      (xs ys : List Text) (url : Text)
      → contains (xs ++ ys) url ≡ true
      → (contains xs url ≡ true) ⊎ (contains ys url ≡ true)
  contains-append [] ys url h = inr h
  contains-append (x ∷ xs) ys url h = ground (arith, contains-append xs ys url)

  both-some :
      (a b : Option (List Text)) (c : List Text)
      → both a b ≡ some c
      → (xs : List Text) × (ys : List Text) × (a ≡ some xs) × (b ≡ some ys) × (c ≡ xs ++ ys)
  both-some none b c h = cc h
  both-some (some a) none c h = cc h
  both-some (some a) (some b) c h = (a, b, refl, refl, cc h)

  -- More entries allow more.
  IsListed-more :
      (entry : String) (entries : List String) (url : Text)
      → IsListed entries url
      → IsListed (entry ∷ entries) url
  IsListed-more entry entries url (e, m, n, found, r, c) = (e, ground (arith, m), n, found, r, c)

  both-contains :
      (star : Bool) (a b : Option (List Text)) (allowed : List Text) (url : Text)
      → (if star then b else both a b) ≡ some allowed
      → contains allowed url ≡ true
      → ((ys : List Text) × (b ≡ some ys) × (contains ys url ≡ true))
        ⊎ ((star ≡ false) × (xs : List Text) × (a ≡ some xs) × (contains xs url ≡ true))
  both-contains true a b allowed url h m = inl (allowed, h, m)
  both-contains false a b allowed url h m =
      let (xs, ys, e, f, g) = both-some a b allowed h in
      elim (contains-append xs ys url (rw⁻¹ g m)) [
        | inl k ↦ inr (refl, xs, e, k)
        | inr k ↦ inl (ys, f, k)
      ]

  allowed_urls-IsListed :
      (allowlist : List String) (allowed : List Text) (url : Text)
      → allowed_urls urls allowlist ≡ some allowed
      → contains allowed url ≡ true
      → IsListed allowlist url
  unfolding allowed_urls
  allowed_urls-IsListed [] allowed url h m = ground arith
  allowed_urls-IsListed (entry ∷ entries) allowed url h m =
      elim (both-contains (entry == "*") (resolved_channel_urls urls entry)
        (allowed_urls urls entries) allowed url h m) [
          | inl (ys, e, k) ↦
              IsListed-more entry entries url (allowed_urls-IsListed entries ys url e k)
          | inr (n, xs, e, k) ↦ (entry, ground arith, n, xs, e, k)
        ]

  all-IsListed :
      (allowlist : List String) (allowed resolved : List Text)
      → allowed_urls urls allowlist ≡ some allowed
      → all (contains allowed) resolved ≡ true
      → All (IsListed allowlist) resolved
  all-IsListed allowlist allowed [] h a = tt
  all-IsListed allowlist allowed (url ∷ resolved) h a =
      let (first, rest) = and_true (contains allowed url) (all (contains allowed) resolved) a in
      (
        allowed_urls-IsListed allowlist allowed url h first,
        all-IsListed allowlist allowed resolved h rest,
      )

  is_invalid-IsAllowed :
      (allowlist : List String) (allowed : List Text) (channel : String) (o : Option (List Text))
      → allowed_urls urls allowlist ≡ some allowed
      → resolved_channel_urls urls channel ≡ o
      → is_invalid allowlist allowed channel o ≡ false
      → IsAllowed allowlist channel
  unfolding is_invalid
  is_invalid-IsAllowed allowlist allowed channel none a r h = cc h
  is_invalid-IsAllowed allowlist allowed channel (some found) a r h =
      let (blank, empty, ok) =
        no_reason (is_blank channel) (is_empty found) (contains allowlist "*") (all is_http found)
          (all (contains allowed) found) h in
      (
        blank,
        found,
        r,
        (λ e. cc (ap is_empty e, empty)),
        elim ok [
          | inl http ↦ inl http
          | inr listed ↦ inr (all-IsListed allowlist allowed found a listed)
        ],
      )

  invalid_channels-IsAllowed :
      (allowlist : List String) (allowed : List Text) (channels : List String)
      → allowed_urls urls allowlist ≡ some allowed
      → invalid_channels urls allowlist allowed channels ≡ []
      → All (IsAllowed allowlist) channels
  unfolding invalid_channels
  invalid_channels-IsAllowed allowlist allowed [] a h = tt
  invalid_channels-IsAllowed allowlist allowed (channel ∷ channels) a h =
      let (valid, rest) =
        none_kept (is_invalid allowlist allowed channel (resolved_channel_urls urls channel))
          channel (invalid_channels urls allowlist allowed channels) h in
      (
        is_invalid-IsAllowed allowlist allowed channel _ a refl valid,
        invalid_channels-IsAllowed allowlist allowed channels a rest,
      )

  reject-none : (invalid : List String) → reject invalid ≡ none → invalid ≡ []
  unfolding reject
  reject-none [] h = refl
  reject-none (channel ∷ channels) h = cc h

  not_raised :
      (b : Bool) (o : Option Response)
      → (if b then some uncaught_exception else o) ≡ none
      → o ≡ none
  not_raised true o h = cc h
  not_raised false o h = h

  check-IsAllowed :
      (malformed : Text → Bool) (allowlist channels : List String) (o : Option (List Text))
      → allowed_urls urls allowlist ≡ o
      → check urls malformed allowlist channels o ≡ none
      → All (IsAllowed allowlist) channels
  unfolding check
  check-IsAllowed malformed allowlist channels none a h = cc h
  check-IsAllowed malformed allowlist channels (some allowed) a h =
      invalid_channels-IsAllowed allowlist allowed channels a (reject-none _ (not_raised _ _ h))

  -- When `validate_channels` has no objection, each channel is not blank and resolves to URLs, at
  -- least one, and each of these is a URL of an entry of the allowlist other than `*`, or the
  -- allowlist has `*` and all of them are http or https.
  pub validate_channels-IsAllowed :
      (malformed : Text → Bool) (allowlist channels : List String)
      → validate_channels urls malformed allowlist channels ≡ none
      → All (IsAllowed allowlist) channels
  unfolding validate_channels
  validate_channels-IsAllowed malformed allowlist channels h =
      check-IsAllowed malformed allowlist channels (allowed_urls urls allowlist) refl h
