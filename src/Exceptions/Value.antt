-- ===== src/Exceptions/Value.antt =====
-- The nested data that a decoded request or result holds: what `contains_credentials` walks over.
use conda_presto.Prelude.{ℕ, String, Bool, List}

mutual
  -- `dict`, then `list`, `tuple` or `set`, `bytes`, `str`, and the values that the walk ignores
  pub data Value : Type 0 where
    mapping : Entries → Value
    sequence : Values → Value
    raw : List ℕ → Value
    text : String → Value
    number : ℕ → Value
    boolean : Bool → Value
    missing : Value

  pub data Entries : Type 0 where
    no_entries : Entries
    entry : (key : String) (child : Value) (rest : Entries) → Entries

  pub data Values : Type 0 where
    no_values : Values
    value : (first : Value) (rest : Values) → Values
