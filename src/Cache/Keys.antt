-- ===== src/Cache/Keys.antt =====
-- `ResultCache.resolve_key` and `request_key`: the two families of storage keys are apart, and a
-- key determines the digest in it.
use Prim.Native.String.{slice}
use text.Mathlib.Text.{starts_with}
use text.Mathlib.Text
use text.Mathlib.TextEquality.{starts_with_iff}
use text.Mathlib.TextPositions.{slice-append_left, starts_with-append}
use text.Mathlib.TextLemmas.{append_cancel_left}
use conda_presto.Prelude.{String, ◌<>◌, ◌≡◌, sym, ap, ◌∙◌, true, false, Bool-cases, inl, inr}
use conda_presto.Cache.Types.{
  resolve_key, request_key, result_cache_store_prefix, request_cache_store_prefix,
}

prefixes_differ : ¬ (result_cache_store_prefix ≡ request_cache_store_prefix)
prefixes_differ e = cc (ap (λ v. Text.◌==◌ v request_cache_store_prefix) e)

prefixes_apart :
    (u k : String) → ¬ ((result_cache_store_prefix <> u) ≡ (request_cache_store_prefix <> k))
prefixes_apart u k p = prefixes_differ (
    sym (slice-append_left result_cache_store_prefix u)
    ∙ ap (λ v. slice v 0 11) p
    ∙ slice-append_left request_cache_store_prefix k)

pub starts_with-request_key :
    (k : String) → starts_with (request_key k) result_cache_store_prefix ≡ false
starts_with-request_key k =
    elim (Bool-cases (starts_with (request_key k) result_cache_store_prefix)) [
      | inl e ↦
          let (u, p) = (starts_with_iff (request_key k) result_cache_store_prefix).0 e in
          absurd (unfold request_key in prefixes_apart u k p)
      | inr e ↦ e
    ]

pub starts_with-resolve_key :
    (k : String) → starts_with (resolve_key k) result_cache_store_prefix ≡ true
unfolding resolve_key
starts_with-resolve_key k = starts_with-append result_cache_store_prefix k

pub resolve_key-injective : (a b : String) → resolve_key a ≡ resolve_key b → a ≡ b
unfolding resolve_key
resolve_key-injective a b p = append_cancel_left result_cache_store_prefix a b p
