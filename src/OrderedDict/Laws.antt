-- ===== src/OrderedDict/Laws.antt =====
-- What a lookup finds after each operation, and that keys stay unique.
use conda_presto.Prelude.{◌≡◌, refl, Option, none, some, [], ◌∷◌, ◌++◌, arith}
use conda_presto.Prelude.{Eq, ◌==◌, if◌then◌else◌}
use conda_presto.OrderedDict.{OrderedDict, get, insert, erase, move, move_to_end, NodupKeys}

module _ {ℓ κ} {K : Type ℓ} {V : Type κ} ⦃e : Eq K⦄ where
  pub get-nil : (k : K) → get {V = V} k [] ≡ none
  unfolding get
  get-nil k = refl

  pub get-cons :
      (k j : K) (v : V) (d : OrderedDict K V)
      → get k ((j, v) ∷ d) ≡ (if j == k then some v else get k d)
  unfolding get
  get-cons k j v d = refl

  pub get-insert :
      (j k : K) (v : V) (d : OrderedDict K V)
      → get j (insert k v d) ≡ (if k == j then some v else get j d)
  unfolding insert get
  get-insert j k v [] = refl
  get-insert j k v (_ ∷ d) = ground (arith, get-insert j k v d)

  pub get-erase :
      (j k : K) (d : OrderedDict K V) → get j (erase k d) ≡ (if k == j then none else get j d)
  unfolding erase get
  get-erase j k [] = ground arith
  get-erase j k (_ ∷ d) = ground (arith, get-erase j k d)

  pub get-append_one :
      (j k : K) (v : V) (d : OrderedDict K V)
      → get k d ≡ none
      → get j (d ++ ((k, v) ∷ [])) ≡ (if k == j then some v else get j d)
  unfolding get
  get-append_one j k v [] h = refl
  get-append_one j k v (_ ∷ d) h = ground (arith, get-append_one j k v d)

  pub get-move_to_end : (j k : K) (d : OrderedDict K V) → get j (move_to_end k d) ≡ get j d
  unfolding move_to_end
  get-move_to_end j k d = go (get k d) refl
    where
      go : (o : Option V) → get k d ≡ o → get j (move k o d) ≡ get j d
      go none h = refl
      go (some v) h =
          ground (arith, get-append_one j k v (erase k d), get-erase k k d, get-erase j k d)

  pub move_to_end_present :
      (k : K) (v : V) (d : OrderedDict K V)
      → get k d ≡ some v
      → move_to_end k d ≡ erase k d ++ ((k, v) ∷ [])
  unfolding move_to_end
  move_to_end_present k v d h = rw h

  pub insert_absent :
      (k : K) (v : V) (d : OrderedDict K V) → get k d ≡ none → insert k v d ≡ d ++ ((k, v) ∷ [])
  unfolding insert get
  insert_absent k v [] h = refl
  insert_absent k v (_ ∷ d) h = ground (arith, insert_absent k v d)

  pub insert-NodupKeys :
      (k : K) (v : V) (d : OrderedDict K V) → NodupKeys d → NodupKeys (insert k v d)
  unfolding insert
  insert-NodupKeys k v [] u = (get-nil k, tt)
  insert-NodupKeys k v ((j, w) ∷ d) u =
      ground (arith, insert-NodupKeys k v d u.1, get-insert j k v d)

  pub erase-NodupKeys : (k : K) (d : OrderedDict K V) → NodupKeys d → NodupKeys (erase k d)
  unfolding erase
  erase-NodupKeys k [] u = tt
  erase-NodupKeys k ((j, w) ∷ d) u = ground (arith, erase-NodupKeys k d u.1, get-erase j k d)

  append_one-NodupKeys :
      (k : K) (v : V) (d : OrderedDict K V)
      → get k d ≡ none
      → NodupKeys d
      → NodupKeys (d ++ ((k, v) ∷ []))
  append_one-NodupKeys k v [] h u = (get-nil k, tt)
  append_one-NodupKeys k v ((j, w) ∷ d) h u =
      ground (arith, get-cons k j w d, get-append_one j k v d, append_one-NodupKeys k v d)

  pub move_to_end-NodupKeys :
      (k : K) (d : OrderedDict K V) → NodupKeys d → NodupKeys (move_to_end k d)
  unfolding move_to_end
  move_to_end-NodupKeys k d u = go (get k d)
    where
      go : (o : Option V) → NodupKeys (move k o d)
      go none = u
      go (some v) =
          append_one-NodupKeys k v (erase k d) (ground (arith, get-erase k k d))
            (erase-NodupKeys k d u)

pub ruleset dict_laws = (get-nil, get-cons, get-insert, get-erase, get-move_to_end)
