-- ===== src/InputFile/Limits.antt =====
-- `ParsedInputFile.validate_input_path`: the structural limits of YAML, TOML and text documents.
pub mod Toml
pub mod Yaml
pub mod Whole
use conda_presto.Prelude.{
  ℕ, zero, suc, ◌+◌, ◌-◌, String, Bool, true, false, not, ◌&&◌, ◌||◌, Option, none, some, List, [],
  ◌∷◌, ◌++◌, ltb, length, if◌then◌else◌,
}
use conda_presto.Exceptions.Text.{Text, codes, strip, starts_with, text_eq}

-- `HTTP_INPUT_MAX_NODES`
abbrev pub max_nodes : ℕ
max_nodes = 10000

-- How the checks end: the document is accepted, `TimeoutError`, a `ValueError` of the checks or of
-- `tomllib`, or `YAMLError`. The loop on fuel has an outcome of its own.
pub data Verdict : Type 0 where
  accepted timed_out alias_refused too_complex invalid_toml invalid_yaml out_of_fuel : Verdict

-- What `YAML(...).parse` yields: an event with an anchor's alias, the start of a node, or another
-- event. The document ends, or a `YAMLError` is raised.
pub data Events : Type 0 where
  finished malformed : Events
  alias node other : Events → Events

-- What `tomllib.load` returns: tables and arrays, and values that hold no others.
mutual
  pub data Value : Type 0 where
    scalar : Value
    array : Items → Value
    table : Fields → Value

  pub data Items : Type 0 where
    nil : Items
    item : Value → Items → Items

  pub data Fields : Type 0 where
    end : Fields
    field : String → Value → Fields → Fields

-- The deadline of each loop: whether it has passed in the round that follows so many nodes, items
-- or events.
module _ (late : ℕ → Bool) where
  -- the loop over the events: `events` of them are read, `nodes` of them are nodes
  unfoldable pub count_events : (events nodes : ℕ) → Events → Verdict
  count_events events nodes finished = accepted
  count_events events nodes malformed = invalid_yaml
  count_events events nodes (alias es) = if late events then timed_out else alias_refused
  count_events events nodes (other es) =
      let rest = count_events (suc events) nodes es in if late events then timed_out else rest
  count_events events nodes (node es) =
      let rest = count_events (suc events) (suc nodes) es in
      if late events then timed_out else if ltb max_nodes (suc nodes) then too_complex else rest

  -- `for line in source`: `read` lines are behind, `items` of them count
  unfoldable pub count_lines : (read items : ℕ) → List Text → Verdict
  count_lines read items [] = accepted
  count_lines read items (line ∷ lines) =
      let counts = not (text_eq (strip line) []) && not (starts_with (strip line) (codes "#")) in
      let with_item = count_lines (suc read) (suc items) lines in
      let without = count_lines (suc read) items lines in
      if late read
      then timed_out
      else if not counts
      then without
      else if ltb max_nodes (suc items)
      then too_complex
      else with_item

-- `value.values()` of a table, and a list itself
unfoldable pub items : Items → List Value
items nil = []
items (item v vs) = v ∷ items vs

unfoldable pub values : Fields → List Value
values end = []
values (field k v fs) = v ∷ values fs

-- The loop's variables. `pending.pop()` takes the last value, which stands first here.
pub record Walk : Type 0 where
  pub nodes : ℕ
  pub pending : List Value

pub data Round : Type 0 where
  stops : Verdict → Round
  continues : Walk → Round

-- `pending.extend(children)`
unfoldable pub extend : List Value → List Value → List Value
extend pending [] = pending
extend pending (v ∷ vs) = extend (v ∷ pending) vs

-- `len(pending) + len(value) > HTTP_INPUT_MAX_NODES - nodes`
abbrev overflows : ℕ → List Value → List Value → Bool
overflows nodes pending children = ltb (max_nodes - nodes) (length pending + length children)

unfoldable pub grow : ℕ → List Value → List Value → Round
unfolding extend
grow nodes pending children =
    if overflows nodes pending children
    then stops too_complex
    else continues (record { nodes = nodes; pending = extend pending children })

unfoldable pub take : ℕ → List Value → Value → Round
unfolding grow items values
take nodes pending scalar = continues (record { nodes = nodes; pending = pending })
take nodes pending (array vs) = grow nodes pending (items vs)
take nodes pending (table fs) = grow nodes pending (values fs)

unfoldable pub round_of : Bool → ℕ → List Value → Round
unfolding take
round_of late nodes [] = stops accepted
round_of late nodes (v ∷ pending) =
    if late
    then stops timed_out
    else if ltb max_nodes (suc nodes)
    then stops too_complex
    else take (suc nodes) pending v

unfoldable pub after : (Walk → Verdict) → Round → Verdict
after rest (stops verdict) = verdict
after rest (continues w) = rest w

module _ (late : ℕ → Bool) where
  -- one round of `while pending`
  unfoldable pub round : Walk → Round
  unfolding round_of
  round w = round_of (late w.nodes) w.nodes w.pending

  unfoldable pub walk : ℕ → Walk → Verdict
  unfolding round after
  walk zero w = out_of_fuel
  walk (suc fuel) w = after (walk fuel) (round w)

  -- Every round counts a node, so one round more than the limit is enough.
  unfoldable pub walk_toml : Option Value → Verdict
  walk_toml none = invalid_toml
  walk_toml (some v) = walk (suc max_nodes) (record { nodes = 0; pending = v ∷ [] })

-- What the three readers make of a file, and its suffix in lower case.
pub record Document : Type 0 where
  pub suffix : Text
  pub events : Events
  pub toml : Option Value
  pub lines : List Text

abbrev pub is_toml : Document → Bool
is_toml d = text_eq d.suffix (codes ".toml")

abbrev pub is_txt : Document → Bool
is_txt d = text_eq d.suffix (codes ".txt")

-- TOML need not be valid YAML: there a `YAMLError` does not count.
abbrev pub after_events : Bool → Verdict → Verdict → Verdict
after_events toml accepted rest = rest
after_events true invalid_yaml rest = rest
after_events toml verdict rest = verdict

-- `validate_input_path`; each of its two loops has its own readings of the clock.
unfoldable pub validate_input_path : (late_events late : ℕ → Bool) → Document → Verdict
validate_input_path late_events late d =
    if is_txt d
    then count_lines late 0 0 d.lines
    else after_events (is_toml d) (count_events late_events 0 0 d.events)
        (if is_toml d then walk_toml late d.toml else accepted)
