-- ===== src/InputFile/Limits/Whole.antt =====
-- `validate_input_path` as a whole.
use conda_presto.Prelude.{
  ℕ, ◌≤◌, ◌≡◌, ◌≢◌, refl, Bool, true, false, Option, none, some, arith, if◌then◌else◌,
}
use conda_presto.InputFile.Limits.{
  max_nodes, Verdict, accepted, timed_out, alias_refused, too_complex, invalid_toml, invalid_yaml,
  out_of_fuel, count_events, count_lines, Value, Document, is_toml, is_txt, after_events, walk_toml,
  validate_input_path,
}
use conda_presto.InputFile.Limits.Toml.{size, Decided, overtaken, fits, exceeds, walk_toml-Decided}
use conda_presto.InputFile.Limits.Yaml.{
  nodes, has_alias, entries, Allows, Counts, count_events-Allows, count_lines-Counts,
}

-- What an accepted document keeps to, by its kind.
unfoldable pub KeepsLimits : (txt toml : Bool) → Document → Type 0
unfolding nodes has_alias entries
KeepsLimits true toml d = entries d.lines ≤ max_nodes
KeepsLimits false true d =
    ((has_alias d.events ≡ false) × (nodes d.events ≤ max_nodes))
    × ((v : Value) × (d.toml ≡ some v) × (size v ≤ max_nodes))
KeepsLimits false false d = (has_alias d.events ≡ false) × (nodes d.events ≤ max_nodes)

ends : (late : ℕ → Bool) (v : Value) (r : Verdict) → Decided late (size v) r → r ≢ out_of_fuel
ends late v _ (overtaken k e) p = cc p
ends late v _ (fits le) p = cc p
ends late v _ (exceeds gt) p = cc p

walk_toml-Returns : (late : ℕ → Bool) (toml : Option Value) → walk_toml late toml ≢ out_of_fuel
walk_toml-Returns late none = unfold walk_toml in λ e. cc e
walk_toml-Returns late (some v) = ends late v (walk_toml late (some v)) (walk_toml-Decided late v)

accepted_toml :
    (late : ℕ → Bool) (toml : Option Value)
    → walk_toml late toml ≡ accepted
    → (v : Value) × (toml ≡ some v) × (size v ≤ max_nodes)
accepted_toml late none h = absurd (unfold walk_toml in cc h)
accepted_toml late (some v) h =
    (v, refl, fitting (walk_toml late (some v)) (walk_toml-Decided late v) h)
  where
    fitting : (r : Verdict) → Decided late (size v) r → r ≡ accepted → size v ≤ max_nodes
    fitting _ (overtaken k e) p = cc p
    fitting _ (fits le) p = le
    fitting _ (exceeds gt) p = cc p

-- What the loop over the events and what follows it give together.
abbrev Checks : (txt toml : Bool) → Document → Verdict → Type 0
Checks txt toml d r = (r ≡ accepted → KeepsLimits txt toml d) × (r ≢ out_of_fuel)

of_lines : (toml : Bool) (d : Document) (r : Verdict) → Counts d.lines 0 r → Checks true toml d r
unfolding KeepsLimits Counts
of_lines toml d accepted h = (λ e. omega (arith, h), λ e. cc e)
of_lines toml d out_of_fuel h = absurd h
of_lines toml d timed_out h = (λ e. cc e, λ e. cc e)
of_lines toml d alias_refused h = (λ e. cc e, λ e. cc e)
of_lines toml d too_complex h = (λ e. cc e, λ e. cc e)
of_lines toml d invalid_toml h = (λ e. cc e, λ e. cc e)
of_lines toml d invalid_yaml h = (λ e. cc e, λ e. cc e)

no_toml :
    (d : Document) (r : Verdict)
    → Allows d.events 0 r
    → Checks false false d (after_events false r accepted)
unfolding KeepsLimits Allows
no_toml d accepted h = (λ e. (h.0, omega (arith, h.1)), λ e. cc e)
no_toml d invalid_yaml h = (λ e. cc e, λ e. cc e)
no_toml d out_of_fuel h = absurd h
no_toml d invalid_toml h = absurd h
no_toml d timed_out h = (λ e. cc e, λ e. cc e)
no_toml d alias_refused h = (λ e. cc e, λ e. cc e)
no_toml d too_complex h = (λ e. cc e, λ e. cc e)

of_toml :
    (late : ℕ → Bool) (d : Document) (r : Verdict)
    → Allows d.events 0 r
    → Checks false true d (after_events true r (walk_toml late d.toml))
unfolding KeepsLimits Allows
of_toml late d accepted h =
    (λ e. ((h.0, omega (arith, h.1)), accepted_toml late d.toml e), walk_toml-Returns late d.toml)
of_toml late d invalid_yaml h =
    (λ e. ((h.0, omega (arith, h.1)), accepted_toml late d.toml e), walk_toml-Returns late d.toml)
of_toml late d out_of_fuel h = absurd h
of_toml late d invalid_toml h = absurd h
of_toml late d timed_out h = (λ e. cc e, λ e. cc e)
of_toml late d alias_refused h = (λ e. cc e, λ e. cc e)
of_toml late d too_complex h = (λ e. cc e, λ e. cc e)

-- The checks always end within their fuel, and a document that they accept keeps to the limits of
-- its kind: a text has at most `HTTP_INPUT_MAX_NODES` entries; any other document has no alias and at
-- most that many nodes, as far as it can be read as YAML; and a TOML document is valid TOML of at
-- most that many tables, arrays and other values.
pub validate_input_path-KeepsLimits :
    (late_events late : ℕ → Bool) (d : Document)
    → (validate_input_path late_events late d ≡ accepted → KeepsLimits (is_txt d) (is_toml d) d)
      × (validate_input_path late_events late d ≢ out_of_fuel)
unfolding validate_input_path
validate_input_path-KeepsLimits late_events late d = by_kind (is_txt d) (is_toml d)
  where
    by_kind :
        (txt toml : Bool)
        → Checks txt toml d (
            if txt
            then count_lines late 0 0 d.lines
            else after_events toml
                (count_events late_events 0 0 d.events)
                (if toml then walk_toml late d.toml else accepted))
    by_kind true toml =
        of_lines toml d (count_lines late 0 0 d.lines)
          (count_lines-Counts late 0 0 d.lines (omega arith))
    by_kind false true =
        of_toml late d (count_events late_events 0 0 d.events)
          (count_events-Allows late_events 0 0 d.events (omega arith))
    by_kind false false =
        no_toml d (count_events late_events 0 0 d.events)
          (count_events-Allows late_events 0 0 d.events (omega arith))
