-- ===== src/Exceptions/Redact/Blocks.antt =====
-- The channel list of a solver message does not reach the client.
use conda_presto.Prelude.{
  ◌≡◌, refl, ap, sym, ◌∙◌, Bool, true, ◌&&◌, ◌||◌, List, [], ◌∷◌, ◌++◌, All, Bool-cases, inl, inr,
  if◌then◌else◌,
}
use conda_presto.Exceptions.Text.{Text, codes, strip, starts_with, text_eq}
use conda_presto.Exceptions.Redact.{is_empty, channels_header, channels_redacted, redact_lines}

-- A line of the block: blank, or a list item.
abbrev pub IsItem : Text → Type 0
IsItem l = (is_empty (strip l) || starts_with l (codes "  - ")) ≡ true

abbrev pub IsHeader : Text → Type 0
IsHeader l = text_eq (strip l) channels_header ≡ true

redact_lines-items :
    (items rest : List Text)
    → All IsItem items
    → redact_lines true (items ++ rest) ≡ redact_lines true rest
unfolding redact_lines
redact_lines-items [] rest h = refl
redact_lines-items (l ∷ items) rest h = rw h.0 (redact_lines-items items rest h.1)

-- What a header leaves in front of the lines that follow it.
header_lines : Bool → Text → List Text → List Text
header_lines b l rest =
    if b && (is_empty (strip l) || starts_with l (codes "  - "))
    then rest
    else channels_redacted ∷ rest

redact_lines-header :
    (b : Bool) (l : Text) (rest : List Text)
    → IsHeader l
    → redact_lines b (l ∷ rest) ≡ header_lines b l (redact_lines true rest)
unfolding redact_lines header_lines
redact_lines-header b l rest h =
    elim (Bool-cases (b && (is_empty (strip l) || starts_with l (codes "  - ")))) [
      | inl e ↦ rw e
      | inr e ↦ rw (e, h)
    ]

redact_lines-cons :
    (b : Bool) (f : Text) (xs ys : List Text)
    → ((c : Bool) → redact_lines c xs ≡ redact_lines c ys)
    → redact_lines b (f ∷ xs) ≡ redact_lines b (f ∷ ys)
unfolding redact_lines
redact_lines-cons b f xs ys h = rw h

-- The lines that `redact_safe_error` keeps do not depend on the items under a header: with other
-- items, or none, in their place, the same lines come out.
pub redact_lines-items_irrelevant :
    (b : Bool) (front : List Text) (l : Text) (items others rest : List Text)
    → IsHeader l
    → All IsItem items
    → All IsItem others
    → redact_lines b (front ++ (l ∷ (items ++ rest)))
      ≡ redact_lines b (front ++ (l ∷ (others ++ rest)))
redact_lines-items_irrelevant b [] l items others rest h i o =
    redact_lines-header b l (items ++ rest) h
    ∙ ap (header_lines b l)
        (redact_lines-items items rest i ∙ sym (redact_lines-items others rest o))
    ∙ sym (redact_lines-header b l (others ++ rest) h)
redact_lines-items_irrelevant b (f ∷ front) l items others rest h i o =
    redact_lines-cons b f _ _ (λ c. redact_lines-items_irrelevant c front l items others rest h i o)
