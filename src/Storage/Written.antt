-- ===== src/Storage/Written.antt =====
-- What a write to a `FileStore` leaves.
use conda_presto.Prelude.{
  ℕ, String, ◌≡◌, refl, ap, ◌⊎◌, inl, inr, true, Bool-cases, Option, some, List, ◌==◌, ==→eq,
  nat_eq, list_eq, option_eq,
}
use conda_presto.Storage.Operation.{
  Store, Value, Result, ok, raised, Completion, done, failed, set, expected, value_or_empty, undo,
  verify, written, perform, perform_kind,
}

module _ {S : Type 0} (store : Store S) where
  -- The read-back found the bytes, or the operation failed and the key was deleted.
  abbrev pub IsVerified : String → List ℕ → Result (Option (List ℕ)) × S → Completion × S → Type 0
  IsVerified key bytes back x =
      ((back.0 ≡ ok (some bytes)) × (x ≡ (done, back.1)))
      ⊎ ((message : String) × (x ≡ (failed message, (store.delete key back.1).1)))

  verify-IsVerified :
      (key : String) (bytes : List ℕ) (back : Result (Option (List ℕ))) (s : S)
      → IsVerified key bytes (back, s) (verify store key bytes (back, s))
  unfolding verify undo
  verify-IsVerified key bytes (raised message) s = inr (message, refl)
  verify-IsVerified key bytes (ok found) s = elim (Bool-cases (found == some bytes)) [
    | inl e ↦ rw e (inl (ap ok (==→eq found (some bytes) e), refl))
    | inr e ↦ rw e (inr ("File result-cache write failed", refl))
  ]

  -- When a `set` operation on a `FileStore` has written, it completes without an error exactly with
  -- the bytes read back, or it completes with an error and the key is deleted.
  pub perform-IsVerified :
      (key : String) (value : Option Value) (expires_in : Option ℕ) (s s' : S)
      → store.is_file ≡ true
      → store.set key (value_or_empty value) expires_in s ≡ (ok tt, s')
      → IsVerified key (expected store (value_or_empty value)) (store.get key s') (
          perform store
            (record { kind = set; key = key; value = value; expires_in = expires_in })
            s)
  unfolding perform perform_kind written
  perform-IsVerified key value expires_in s s' f w =
      rw (w, f)
        (verify-IsVerified key (expected store (value_or_empty value)) (store.get key s').0
          (store.get key s').1)
