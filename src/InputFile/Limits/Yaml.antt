-- ===== src/InputFile/Limits/Yaml.antt =====
-- The loops over the events of a YAML document and the lines of a text, and what either accepts.
use conda_presto.Prelude.{
  ℕ, suc, ◌+◌, ◌≤◌, ◌≡◌, refl, Bool, true, false, not, ◌&&◌, List, [], ◌∷◌, ltb, arith,
  if◌then◌else◌, ltb-false→le, Bool-cases, inl, inr,
}
use conda_presto.Exceptions.Text.{Text, codes, strip, starts_with, text_eq}
use conda_presto.InputFile.Limits.{
  max_nodes, Verdict, accepted, timed_out, alias_refused, too_complex, invalid_toml, invalid_yaml,
  out_of_fuel, Events, finished, malformed, alias, node, other, count_events, count_lines,
}

-- The nodes among the events, and whether there is an alias.
unfoldable pub nodes : Events → ℕ
nodes finished = 0
nodes malformed = 0
nodes (alias es) = nodes es
nodes (node es) = suc (nodes es)
nodes (other es) = nodes es

unfoldable pub has_alias : Events → Bool
has_alias finished = false
has_alias malformed = false
has_alias (alias es) = true
has_alias (node es) = has_alias es
has_alias (other es) = has_alias es

abbrev pub is_entry : Text → Bool
is_entry line = not (text_eq (strip line) []) && not (starts_with (strip line) (codes "#"))

-- The lines that are neither blank nor comments.
unfoldable pub entries : List Text → ℕ
entries [] = 0
entries (line ∷ lines) = let rest = entries lines in if is_entry line then suc rest else rest

-- what the events may hold for each verdict that lets the checks go on
unfoldable pub Allows : Events → ℕ → Verdict → Type 0
unfolding nodes has_alias
Allows es n accepted = (has_alias es ≡ false) × (n + nodes es ≤ max_nodes)
Allows es n invalid_yaml = (has_alias es ≡ false) × (n + nodes es ≤ max_nodes)
Allows es n out_of_fuel = ⊥
Allows es n invalid_toml = ⊥
Allows es n _ = Unit

others : (es : Events) (n : ℕ) (r : Verdict) → Allows es n r → Allows (other es) n r
unfolding Allows
others es n accepted h = h
others es n invalid_yaml h = h
others es n timed_out h = tt
others es n alias_refused h = tt
others es n too_complex h = tt
others es n out_of_fuel h = h
others es n invalid_toml h = h

counted : (es : Events) (n : ℕ) (r : Verdict) → Allows es (suc n) r → Allows (node es) n r
unfolding Allows
counted es n accepted h = (h.0, omega (arith, h.1))
counted es n invalid_yaml h = (h.0, omega (arith, h.1))
counted es n timed_out h = tt
counted es n alias_refused h = tt
counted es n too_complex h = tt
counted es n out_of_fuel h = h
counted es n invalid_toml h = h

pub count_events-Allows :
    (late : ℕ → Bool) (read n : ℕ) (es : Events)
    → n ≤ max_nodes
    → Allows es n (count_events late read n es)
unfolding count_events Allows
count_events-Allows late read n finished h = (refl, omega (arith, h))
count_events-Allows late read n malformed h = (refl, omega (arith, h))
count_events-Allows late read n (alias es) h = elim (Bool-cases (late read)) [
  | inl e ↦ rw e tt
  | inr e ↦ rw e tt
]
count_events-Allows late read n (other es) h = elim (Bool-cases (late read)) [
  | inl e ↦ rw e tt
  | inr e ↦
      rw e (
        others es n (count_events late (suc read) n es)
          (count_events-Allows late (suc read) n es h))
]
count_events-Allows late read n (node es) h = elim (Bool-cases (late read)) [
  | inl e ↦ rw e tt
  | inr e ↦ elim (Bool-cases (ltb max_nodes (suc n))) [
    | inl f ↦ rw (e, f) tt
    | inr f ↦
        rw (e, f)
          (counted es n (count_events late (suc read) (suc n) es)
            (count_events-Allows late (suc read) (suc n) es (ltb-false→le max_nodes (suc n) f)))
  ]
]

-- The lines of an accepted text, and that the loop over them ends in an answer of its own.
unfoldable pub Counts : List Text → ℕ → Verdict → Type 0
unfolding entries
Counts lines n accepted = n + entries lines ≤ max_nodes
Counts lines n out_of_fuel = ⊥
Counts lines n _ = Unit

counted_line :
    (lines rest : List Text) (n m : ℕ) (r : Verdict)
    → n + entries rest ≡ m + entries lines
    → Counts lines m r
    → Counts rest n r
unfolding Counts
counted_line lines rest n m accepted e h = omega (arith, e, h)
counted_line lines rest n m out_of_fuel e h = h
counted_line lines rest n m timed_out e h = tt
counted_line lines rest n m alias_refused e h = tt
counted_line lines rest n m too_complex e h = tt
counted_line lines rest n m invalid_toml e h = tt
counted_line lines rest n m invalid_yaml e h = tt

entries-entry :
    (line : Text) (lines : List Text) (b : Bool)
    → is_entry line ≡ b
    → entries (line ∷ lines) ≡ (if b then suc (entries lines) else entries lines)
unfolding entries
entries-entry line lines b e = rw e

pub count_lines-Counts :
    (late : ℕ → Bool) (read n : ℕ) (lines : List Text)
    → n ≤ max_nodes
    → Counts lines n (count_lines late read n lines)
unfolding count_lines Counts
count_lines-Counts late read n [] h = omega (arith, h)
count_lines-Counts late read n (line ∷ lines) h = elim (Bool-cases (late read)) [
  | inl e ↦ rw e tt
  | inr e ↦ elim (Bool-cases (is_entry line)) [
    | inr f ↦
        rw (e, f)
          (counted_line lines (line ∷ lines) n n (count_lines late (suc read) n lines)
            (omega (arith, entries-entry line lines false f))
            (count_lines-Counts late (suc read) n lines h))
    | inl f ↦ elim (Bool-cases (ltb max_nodes (suc n))) [
      | inl g ↦ rw (e, f, g) tt
      | inr g ↦
          rw (e, f, g)
            (counted_line lines (line ∷ lines) n (suc n) (count_lines late (suc read) (suc n) lines)
              (omega (arith, entries-entry line lines true f))
              (count_lines-Counts late (suc read) (suc n) lines (ltb-false→le max_nodes (suc n) g)))
    ]
  ]
]
