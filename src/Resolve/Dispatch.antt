-- ===== src/Resolve/Dispatch.antt =====
-- `dispatch`: one solver function over the platforms, in this process or in the pool.
use conda_presto.Prelude.{
  String, ◌≡◌, refl, sym, ◌∙◌, ◌||◌, Bool, true, false, Option, none, some, List, [], ◌∷◌, map,
  arith, All, contains, ◌==◌, string_eq, if◌then◌else◌,
}
use conda_presto.OrderedDict
use conda_presto.OrderedDict.{OrderedDict}
use conda_presto.OrderedDict.Laws.{get-insert}

-- What a solve comes to, and what `dispatch` comes to: a value or an exception. `KeyError` is the
-- exception of `results[p]`.
pub data Outcome {ℓ κ} (E : Type κ) (T : Type ℓ) : Type (ℓ ⊔ κ) where
  returned : T → Outcome E T
  raised : E → Outcome E T

pub data Failure {κ} (E : Type κ) : Type κ where
  propagated : E → Failure E
  key_error : Failure E

module _ {ℓ κ} {E : Type κ} {T : Type ℓ} where
  -- `except Exception as exc`: converted where there is a handler
  unfoldable pub handle : Option (String → E → T) → String → Outcome E T → Outcome E T
  handle on_error platform (returned t) = returned t
  handle none platform (raised e) = raised e
  handle (some on_error) platform (raised e) = returned (on_error platform e)

  single : Outcome E T → Outcome (Failure E) (List T)
  single (returned t) = returned (t ∷ [])
  single (raised e) = raised (propagated e)

  abbrev store_result :
      Outcome E T
      → String
      → OrderedDict String T
      → (OrderedDict String T → Outcome E (OrderedDict String T))
      → Outcome E (OrderedDict String T)
  store_result (returned t) platform results next = next (OrderedDict.insert platform t results)
  store_result (raised e) platform results next = raised e

  -- The loop over `as_completed`: the futures in the order in which they end.
  collect :
      Option (String → E → T)
      → List (String × Outcome E T)
      → OrderedDict String T
      → Outcome E (OrderedDict String T)
  unfolding handle
  collect on_error [] results = returned results
  collect on_error ((platform, o) ∷ completed) results =
      store_result (handle on_error platform o) platform results (collect on_error completed)

  abbrev cons? : Option T → Outcome (Failure E) (List T) → Outcome (Failure E) (List T)
  cons? none r = raised key_error
  cons? (some t) (returned ts) = returned (t ∷ ts)
  cons? (some t) (raised f) = raised f

  -- `[results[p] for p in platforms]`
  in_order : OrderedDict String T → List String → Outcome (Failure E) (List T)
  in_order results [] = returned []
  in_order results (p ∷ platforms) = cons? (OrderedDict.get p results) (in_order results platforms)

  finish : List String → Outcome E (OrderedDict String T) → Outcome (Failure E) (List T)
  unfolding in_order
  finish platforms (raised e) = raised (propagated e)
  finish platforms (returned results) = in_order results platforms

  -- `solver` is what a call for a platform comes to, `completed` the pool's futures as they end.
  unfoldable pub dispatch :
      (String → Outcome E T)
      → List String
      → List (String × Outcome E T)
      → Option (String → E → T)
      → Outcome (Failure E) (List T)
  unfolding single handle collect finish
  dispatch solver (p ∷ []) completed on_error = single (handle on_error p (solver p))
  dispatch solver platforms completed on_error = finish platforms (collect on_error completed [])

  -- What `concurrent.futures` documents of `as_completed`: every future that was submitted ends
  -- once, in any order, with the outcome of its call.
  pub record IsCompletion (solver : String → Outcome E T) (platforms : List String)
      (completed : List (String × Outcome E T)) : Type (ℓ ⊔ κ) where
    pub outcomes : All (λ (x : String × Outcome E T). x.1 ≡ solver x.0) completed
    pub every :
        All (λ p. contains (map (λ (x : String × Outcome E T). x.0) completed) p ≡ true) platforms

  module _ (on_error : Option (String → E → T)) (value : String → T) where
    -- Each call that has ended came to the value of its platform, after the handler.
    abbrev Handled : List (String × Outcome E T) → Type (ℓ ⊔ κ)
    Handled = All (λ (x : String × Outcome E T). handle on_error x.0 x.1 ≡ returned (value x.0))

    abbrev ended : List (String × Outcome E T) → List String
    ended = map (λ (x : String × Outcome E T). x.0)

    abbrev Collected : List (String × Outcome E T) → OrderedDict String T → Type (ℓ ⊔ κ)
    Collected completed results =
        (d : OrderedDict String T) × (collect on_error completed results ≡ returned d)
        × ((p : String)
            → OrderedDict.get p d ≡ (
                if contains (ended completed) p then some (value p) else OrderedDict.get p results))

    collect-Collected :
        (completed : List (String × Outcome E T)) (results : OrderedDict String T)
        → Handled completed
        → Collected completed results
    unfolding collect
    collect-Collected [] results h = (results, refl, λ p. refl)
    collect-Collected ((q, o) ∷ completed) results h =
        let (d, e, found) =
          collect-Collected completed (OrderedDict.insert q (value q) results) h.1 in
        (d, rw h.0 e, λ p. found p ∙ last p (contains (ended completed) p))
      where
        last :
            (p : String) (b : Bool)
            → (if b
                then some (value p)
                else OrderedDict.get p (OrderedDict.insert q (value q) results))
              ≡ (if p == q || b then some (value p) else OrderedDict.get p results)
        last p b = ground (arith, get-insert p q (value q) results)

    in_order-map :
        (d : OrderedDict String T) (platforms : List String)
        → All (λ p. OrderedDict.get p d ≡ some (value p)) platforms
        → in_order d platforms ≡ returned (map value platforms)
    unfolding in_order
    in_order-map d [] h = refl
    in_order-map d (p ∷ platforms) h = rw (h.0, in_order-map d platforms h.1)

    get_each :
        (completed : List (String × Outcome E T)) (d : OrderedDict String T)
        (found : (p : String)
          → OrderedDict.get p d
            ≡ (if contains (ended completed) p then some (value p) else OrderedDict.get p []))
        (platforms : List String)
        → All (λ p. contains (ended completed) p ≡ true) platforms
        → All (λ p. OrderedDict.get p d ≡ some (value p)) platforms
    get_each completed d found [] h = tt
    get_each completed d found (p ∷ platforms) h =
        (ground (arith, found p), get_each completed d found platforms h.1)

    finish-collect :
        (platforms : List String) (completed : List (String × Outcome E T))
        → Handled completed
        → All (λ p. contains (ended completed) p ≡ true) platforms
        → finish platforms (collect on_error completed []) ≡ returned (map value platforms)
    unfolding finish
    finish-collect platforms completed h every =
        let (d, e, found) = collect-Collected completed [] h in
        rw e (in_order-map d platforms (get_each completed d found platforms every))

    outcomes-Handled :
        (solver : String → Outcome E T) (completed : List (String × Outcome E T))
        → ((p : String) → handle on_error p (solver p) ≡ returned (value p))
        → All (λ (x : String × Outcome E T). x.1 ≡ solver x.0) completed
        → Handled completed
    outcomes-Handled solver [] h c = tt
    outcomes-Handled solver ((p, o) ∷ completed) h c =
        ((rw c.0 (h p)), outcomes-Handled solver completed h c.1)

    -- If every platform's call comes to a value, after the handler if there is one, the result is the list of these
    -- values in the order of the platforms, in whatever order the pool's futures end.
    pub dispatch-map :
        (solver : String → Outcome E T) (platforms : List String)
        (completed : List (String × Outcome E T))
        → IsCompletion solver platforms completed
        → ((p : String) → handle on_error p (solver p) ≡ returned (value p))
        → dispatch solver platforms completed on_error ≡ returned (map value platforms)
    unfolding dispatch
    dispatch-map solver [] completed c h =
        finish-collect [] completed (outcomes-Handled solver completed h c.outcomes) c.every
    dispatch-map solver (p ∷ []) completed c h = rw h
    dispatch-map solver (p ∷ q ∷ platforms) completed c h =
        finish-collect (p ∷ q ∷ platforms) completed
          (outcomes-Handled solver completed h c.outcomes) c.every

  abbrev pub Raises : (String → Outcome E T) → Outcome (Failure E) (List T) → Type (ℓ ⊔ κ)
  Raises solver r = (e : E) × (p : String) × (r ≡ raised (propagated e)) × (solver p ≡ raised e)

  abbrev pub some_raised : List (String × Outcome E T) → Bool
  some_raised [] = false
  some_raised ((p, returned t) ∷ completed) = some_raised completed
  some_raised ((p, raised e) ∷ completed) = true

  collect-raised :
      (solver : String → Outcome E T) (completed : List (String × Outcome E T))
      (results : OrderedDict String T)
      → All (λ (x : String × Outcome E T). x.1 ≡ solver x.0) completed
      → some_raised completed ≡ true
      → (e : E) × (p : String) × (collect none completed results ≡ raised e) × (solver p ≡ raised e)
  unfolding collect
  collect-raised solver [] results c h = absurd (cc)
  collect-raised solver ((p, returned t) ∷ completed) results c h =
      collect-raised solver completed (OrderedDict.insert p t results) c.1 h
  collect-raised solver ((p, raised e) ∷ completed) results c h = (e, p, refl, sym c.0)

  -- Without a handler and with two platforms or more: if a call of the pool raised, `dispatch` raises
  -- an exception that some platform's call raised.
  pub dispatch-Raises :
      (solver : String → Outcome E T) (p q : String) (platforms : List String)
      (completed : List (String × Outcome E T))
      → IsCompletion solver (p ∷ q ∷ platforms) completed
      → some_raised completed ≡ true
      → Raises solver (dispatch solver (p ∷ q ∷ platforms) completed none)
  unfolding dispatch
  dispatch-Raises solver p q platforms completed c h =
      let (e, p', r, s) = collect-raised solver completed [] c.outcomes h in (e, p', rw r, s)
