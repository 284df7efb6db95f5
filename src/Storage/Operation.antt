-- ===== src/Storage/Operation.antt =====
-- `StoreOperation`, and what the consumer does with one.
use conda_presto.Prelude.{
  ℕ, String, Bool, Option, none, some, List, [], ◌==◌, nat_eq, list_eq, option_eq, if◌then◌else◌,
}

-- A step of the store, which is not this repository's code: a value or the exception that it raised.
pub data Result (A : Type 0) : Type 0 where
  ok : A → Result A
  raised : String → Result A

-- What `set` is given.
pub data Value : Type 0 where
  text : String → Value
  raw : List ℕ → Value

-- Litestar's stores: `FileStore`, whose extra methods are used, or another one. `S` is what is stored.
pub record Store (S : Type 0) : Type 0 where
  pub is_file : Bool
  pub get : String → S → Result (Option (List ℕ)) × S
  pub set : String → Value → Option ℕ → S → Result Unit × S
  pub delete : String → S → Result Unit × S
  pub delete_expired : S → Result Unit × S
  pub delete_all : S → Result Unit × S
  -- `str.encode`
  pub encode : String → List ℕ

pub data Kind : Type 0 where
  cleanup delete get set : Kind

pub record StoreOperation : Type 0 where
  pub kind : Kind
  pub key : String
  pub value : Option Value
  pub expires_in : Option ℕ

-- The operations that `set`, `get`, `delete` and the timer of `cleanup_expired` submit.
unfoldable pub set_operation : String → Value → Option ℕ → StoreOperation
set_operation key value expires_in = record {
  kind = set;
  key = key;
  value = some value;
  expires_in = expires_in;
}

unfoldable pub get_operation : String → StoreOperation
get_operation key = record { kind = get; key = key; value = none; expires_in = none }

unfoldable pub delete_operation : String → StoreOperation
delete_operation key = record { kind = delete; key = key; value = none; expires_in = none }

unfoldable pub cleanup_operation : StoreOperation
cleanup_operation = record { kind = cleanup; key = ""; value = none; expires_in = none }

-- What the operation's record holds once `completed` is set.
pub record Completion : Type 0 where
  pub result : Option (List ℕ)
  pub error : Option String

abbrev pub done : Completion
done = record { result = none; error = none }

abbrev pub failed : String → Completion
failed message = record { result = none; error = some message }

module _ {A : Type 0} where
  abbrev pub completion : Result A → Completion
  completion (ok value) = done
  completion (raised message) = failed message

abbrev pub got : Result (Option (List ℕ)) → Completion
got (ok value) = record { result = value; error = none }
got (raised message) = failed message

-- `operation.value if operation.value is not None else b""`
abbrev pub value_or_empty : Option Value → Value
value_or_empty none = raw []
value_or_empty (some value) = value

module _ {S : Type 0} (store : Store S) where
  abbrev pub expected : Value → List ℕ
  expected (text s) = store.encode s
  expected (raw bytes) = bytes

  -- `expire_file_entries`
  clear : Result Unit × S → Result Unit × S
  clear (ok u, s) = (ok u, s)
  clear (raised message, s) = store.delete_all s

  unfoldable pub expire_file_entries : S → Result Unit × S
  unfolding clear
  expire_file_entries s = if store.is_file then clear (store.delete_expired s) else (ok tt, s)

  -- The write is undone: errors of the deletion are logged only.
  unfoldable pub undo : String → String → S → Completion × S
  undo message key s = (failed message, (store.delete key s).1)

  -- The read-back of a write to a `FileStore`.
  unfoldable pub verify : String → List ℕ → Result (Option (List ℕ)) × S → Completion × S
  unfolding undo
  verify key bytes (raised message, s) = undo message key s
  verify key bytes (ok found, s) =
      if found == some bytes then (done, s) else undo "File result-cache write failed" key s

  unfoldable pub written : String → Value → Result Unit × S → Completion × S
  unfolding verify
  written key value (raised message, s) = (failed message, s)
  written key value (ok result, s) =
      if store.is_file then verify key (expected value) (store.get key s) else (done, s)

  -- One round of the consumer's loop.
  unfoldable pub perform_kind : Kind → StoreOperation → S → Completion × S
  unfolding written expire_file_entries
  perform_kind get operation s = let (found, s') = store.get operation.key s in (got found, s')
  perform_kind delete operation s =
      let (result, s') = store.delete operation.key s in (completion result, s')
  perform_kind cleanup operation s =
      let (result, s') = expire_file_entries s in (completion result, s')
  perform_kind set operation s =
      let value = value_or_empty operation.value in
      written operation.key value (store.set operation.key value operation.expires_in s)

  unfoldable pub perform : StoreOperation → S → Completion × S
  unfolding perform_kind
  perform operation s = perform_kind operation.kind operation s
