-- ===== src/Config/Lists.antt =====
-- `env_list`, whose default for the allowlist is the default channels, joined.
use conda_presto.Prelude.{
  ℕ, ◌≡◌, refl, ap, ◌∙◌, ==_refl, ◌||◌, arith, ◌≢◌, Bool, false, Option, none, some, List, [], ◌∷◌,
  ◌++◌, All, contains, nat_eq, if◌then◌else◌, ◌==◌,
}
use conda_presto.Exceptions.Text.{Text, strip}

abbrev cons_head : ℕ → List Text → List Text
cons_head c [] = (c ∷ []) ∷ []
cons_head c (part ∷ parts) = (c ∷ part) ∷ parts

-- `text.split(",")`
unfoldable pub split : Text → List Text
split [] = [] ∷ []
split (c ∷ cs) = let rest = split cs in if 44 == c then [] ∷ rest else cons_head c rest

-- `",".join(parts)`
unfoldable pub join : List Text → Text
join [] = []
join (part ∷ []) = part
join (part ∷ next ∷ parts) = part ++ (44 ∷ join (next ∷ parts))

keep : Text → List Text → List Text
keep [] rest = rest
keep (c ∷ cs) rest = (c ∷ cs) ∷ rest

stripped : List Text → List Text
unfolding keep
stripped [] = []
stripped (part ∷ parts) = keep (strip part) (stripped parts)

abbrev or_default : Option Text → Text → Text
or_default none default = default
or_default (some raw) default = raw

-- `env_list`
unfoldable pub env_list : Option Text → Text → List Text
unfolding split stripped
env_list raw default = stripped (split (or_default raw default))

-- An entry of a list: not empty, without commas, and without space around it.
abbrev pub IsEntry : Text → Type 0
IsEntry part = (part ≢ []) × (contains part 44 ≡ false) × (strip part ≡ part)

neither : (a b : Bool) → (a || b) ≡ false → (a ≡ false) × (b ≡ false)
neither a b h = ground arith

split-last : (part : Text) → contains part 44 ≡ false → split part ≡ part ∷ []
unfolding split
split-last [] h = refl
split-last (c ∷ cs) h =
    let (other, rest) = neither (44 == c) (contains cs 44) h in rw (other, split-last cs rest) refl

split-part :
    (part rest : Text) → contains part 44 ≡ false → split (part ++ (44 ∷ rest)) ≡ part ∷ split rest
unfolding split
split-part [] rest h = rw (==_refl {A = ℕ} 44) refl
split-part (c ∷ cs) rest h =
    let (other, more) = neither (44 == c) (contains cs 44) h in
    rw (other, split-part cs rest more) refl

keep-entry : (part : Text) (rest : List Text) → part ≢ [] → keep part rest ≡ part ∷ rest
unfolding keep
keep-entry [] rest h = absurd (h refl)
keep-entry (c ∷ cs) rest h = refl

stripped-entry :
    (part : Text) (parts : List Text)
    → IsEntry part
    → stripped (part ∷ parts) ≡ part ∷ stripped parts
unfolding stripped
stripped-entry part parts (full, whole, bare) =
    ap (λ p. keep p (stripped parts)) bare ∙ keep-entry part (stripped parts) full

stripped-split-join :
    (parts : List Text) → All IsEntry parts → stripped (split (join parts)) ≡ parts
unfolding stripped join split strip
stripped-split-join [] h = refl
stripped-split-join (part ∷ []) (entry, tt) =
    rw (split-last part entry.1) (stripped-entry part [] entry)
stripped-split-join (part ∷ next ∷ parts) (entry, h) =
    rw (split-part part (join (next ∷ parts)) entry.1) (
      stripped-entry part (split (join (next ∷ parts))) entry
      ∙ ap (λ ps. part ∷ ps) (stripped-split-join (next ∷ parts) h))

-- The list that `env_list` reads from entries joined by commas is these entries, also when the text
-- is the default.
pub env_list-join :
    (parts : List Text) (other : Text)
    → All IsEntry parts
    → (env_list (some (join parts)) other ≡ parts) × (env_list none (join parts) ≡ parts)
unfolding env_list
env_list-join parts other h = (stripped-split-join parts h, stripped-split-join parts h)
