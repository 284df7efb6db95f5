-- ===== src/OrderedDict.antt =====
-- Python's `OrderedDict` and `dict`: the entries in insertion order, the oldest first.
pub mod Laws
pub mod Order
use conda_presto.Prelude.{◌≡◌, Option, none, some, List, [], ◌∷◌, ◌++◌}
use conda_presto.Prelude.{Eq, ◌==◌, if◌then◌else◌}

abbrev pub OrderedDict {ℓ κ} : Type ℓ → Type κ → Type (ℓ ⊔ κ)
OrderedDict K V = List (K × V)

-- `list(d)`
abbrev pub keys {ℓ κ} : {K : Type ℓ} {V : Type κ} → OrderedDict K V → List K
keys [] = []
keys ((k, _) ∷ d) = k ∷ keys d

module _ {ℓ κ} {K : Type ℓ} {V : Type κ} ⦃e : Eq K⦄ where
  -- `d.get(k)`
  unfoldable pub get : K → OrderedDict K V → Option V
  get k [] = none
  get k ((j, v) ∷ d) = if j == k then some v else get k d

  -- `d[k] = v`: a present key keeps its place, a new one comes last
  unfoldable pub insert : K → V → OrderedDict K V → OrderedDict K V
  insert k v [] = (k, v) ∷ []
  insert k v ((j, w) ∷ d) = if j == k then (j, v) ∷ d else (j, w) ∷ insert k v d

  -- the dict that `d.pop(k, None)` leaves
  unfoldable pub erase : K → OrderedDict K V → OrderedDict K V
  erase k [] = []
  erase k ((j, w) ∷ d) = let rest = erase k d in if j == k then rest else (j, w) ∷ rest

  abbrev move : K → Option V → OrderedDict K V → OrderedDict K V
  move k none d = d
  move k (some v) d = erase k d ++ ((k, v) ∷ [])

  -- `d.move_to_end(k)`, which the program only calls with a key that is there
  unfoldable pub move_to_end : K → OrderedDict K V → OrderedDict K V
  move_to_end k d = move k (get k d) d

  abbrev pub NodupKeys : OrderedDict K V → Type κ
  NodupKeys [] = Unit
  NodupKeys ((k, _) ∷ d) = (get k d ≡ none) × NodupKeys d
