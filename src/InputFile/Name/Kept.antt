-- ===== src/InputFile/Name/Kept.antt =====
-- An accepted name stays in the folder that it is written to.
use mathlib.Core.Path.{subst}
use conda_presto.Prelude.{
  ◌≤◌, ◌≡◌, ◌≢◌, refl, sym, ◌∙◌, ap, Bool, true, false, Option, some, [], ◌∷◌, all, any, arith,
  Bool-cases, inl, inr, nat_eq, list_eq, contains,
}
use conda_presto.Exceptions.Text.{Text, codes}
use conda_presto.InputFile.Name.{
  Unicode, named, basename_from, basename, is_surrogate, is_code, encoded_length, extension, lower,
  allowed_extensions, or_default, checked_name, input_filename,
}

unfoldable pub has_slash : Text → Bool
has_slash t = any (is_code 47) t

basename_from-Plain :
    (tail cs : Text)
    → (has_slash cs ≡ false → has_slash tail ≡ false)
    → has_slash (basename_from tail cs) ≡ false
unfolding basename_from has_slash
basename_from-Plain tail [] h = h refl
basename_from-Plain tail (c ∷ cs) h = elim (Bool-cases (is_code 47 c)) [
  | inl e ↦ rw e (basename_from-Plain cs cs (λ p. p))
  | inr e ↦ rw e (basename_from-Plain tail cs (λ p. h (rw e p)))
]

pub basename-Plain : (t : Text) → has_slash (basename t) ≡ false
unfolding basename
basename-Plain t = basename_from-Plain t t (λ p. p)

basename_from-keeps : (tail cs : Text) → has_slash cs ≡ false → basename_from tail cs ≡ tail
unfolding basename_from has_slash
basename_from-keeps tail [] h = refl
basename_from-keeps tail (c ∷ cs) h = elim (Bool-cases (is_code 47 c)) [
  | inl e ↦ absurd (let h' = rw e at h in cc h')
  | inr e ↦ rw e (basename_from-keeps tail cs (rw e at h))
]

pub basename-keeps : (t : Text) → has_slash t ≡ false → basename t ≡ t
unfolding basename
basename-keeps t h = basename_from-keeps t t h

module _ (unicode : Unicode) where
  -- What the checks pass.
  pub record IsUsable (name : Text) : Type 0 where
    pub encodable : any is_surrogate name ≡ false
    pub short : encoded_length name ≤ 240
    pub printable : all unicode.is_printable name ≡ true
    pub supported : contains allowed_extensions (lower unicode (extension name)) ≡ true

  checked_name-IsUsable :
      (name kept : Text) → checked_name unicode name ≡ named kept → (kept ≡ name) × IsUsable name
  unfolding checked_name
  checked_name-IsUsable name kept h = ground arith

  no_extension : contains allowed_extensions [] ≡ false
  unfolding list_eq nat_eq
  no_extension = refl

  bare-eq :
      (dots : Text)
      → extension dots ≡ []
      → contains allowed_extensions (lower unicode (extension dots)) ≡ false
  unfolding lower
  bare-eq dots e = rw e no_extension

  no_dots : (name : Text) → IsUsable name → (name ≢ codes ".") × (name ≢ codes "..")
  unfolding extension
  no_dots name h = (
    λ e. bare (codes ".") (bare-eq (codes ".") refl) e,
    λ e. bare (codes "..") (bare-eq (codes "..") refl) e,
  )
    where
      bare :
          (dots : Text)
          → contains allowed_extensions (lower unicode (extension dots)) ≡ false
          → name ≢ dots
      bare dots plain e = cc (
        ap (λ n. contains allowed_extensions (lower unicode (extension n))) e,
        plain,
        h.supported,
      )

  given : (name : Text) → IsUsable name → or_default (some name) ≡ name
  unfolding extension
  given [] h = absurd (let s = h.supported in cc (s, bare-eq [] refl))
  given (c ∷ cs) h = refl

  usable_again : (name : Text) → IsUsable name → checked_name unicode name ≡ named name
  unfolding checked_name
  usable_again name h = rw (h.encodable, h.printable, h.supported) (let k = h.short in ground arith)

  -- A name that `input_filename` returns has no slash and is neither `.` nor `..`, so the file is
  -- written into the temporary folder itself; it has at most 240 bytes and an allowed extension;
  -- and to normalise it again, as the process does for a companion manifest, changes nothing.
  pub input_filename-StaysInside :
      (filename : Option Text) (name : Text)
      → input_filename unicode filename ≡ named name
      → (has_slash name ≡ false)
        × ((name ≢ codes ".") × (name ≢ codes ".."))
        × (encoded_length name ≤ 240)
        × (contains allowed_extensions (lower unicode (extension name)) ≡ true)
        × (input_filename unicode (some name) ≡ named name)
  unfolding input_filename
  input_filename-StaysInside filename name h =
      let base = basename (or_default filename) in
      let (same, usable) = checked_name-IsUsable base name h in
      let plain =
        subst (λ n. has_slash n ≡ false) (sym same) (basename-Plain (or_default filename)) in
      let kept = subst (λ n. IsUsable n) (sym same) usable in
      let again = ap basename (given name kept) ∙ basename-keeps name plain in
      (
        plain,
        no_dots name kept,
        kept.short,
        kept.supported,
        ap (checked_name unicode) again ∙ usable_again name kept,
      )
