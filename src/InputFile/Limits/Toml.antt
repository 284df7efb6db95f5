-- ===== src/InputFile/Limits/Toml.antt =====
-- The loop over a TOML document.
use mathlib.Core.Path.{subst}
use conda_presto.Prelude.{
  ℕ, zero, suc, ◌+◌, ◌-◌, ◌≤◌, ◌≡◌, refl, sym, ◌∙◌, Bool, true, false, some, List, [], ◌∷◌, ltb,
  length, arith, if◌then◌else◌, ltb→lt, ltb-false→le, Bool-cases, inl, inr, ◌<◌,
}
use conda_presto.InputFile.Limits.{
  max_nodes, Verdict, accepted, timed_out, too_complex, Value, scalar, array, table, Items, nil,
  item, Fields, end, field, items, values, Walk, Round, stops, continues, extend, grow, take,
  round_of, round, after, walk, walk_toml,
}

-- The nodes of a document: it and all that it holds.
unfoldable mutual
  pub size : Value → ℕ
  size scalar = 1
  size (array vs) = suc (size_items vs)
  size (table fs) = suc (size_fields fs)

  pub size_items : Items → ℕ
  size_items nil = 0
  size_items (item v vs) = size v + size_items vs

  pub size_fields : Fields → ℕ
  size_fields end = 0
  size_fields (field k v fs) = size v + size_fields fs

unfoldable pub total : List Value → ℕ
unfolding size
total [] = 0
total (v ∷ vs) = size v + total vs

total-items : (vs : Items) → total (items vs) ≡ size_items vs
unfolding total items size
total-items nil = refl
total-items (item v vs) = omega (arith, total-items vs)

total-values : (fs : Fields) → total (values fs) ≡ size_fields fs
unfolding total values size
total-values end = refl
total-values (field k v fs) = omega (arith, total-values fs)

total-extend : (pending vs : List Value) → total (extend pending vs) ≡ total pending + total vs
unfolding total extend
total-extend pending [] = omega arith
total-extend pending (v ∷ vs) = omega (arith, total-extend (v ∷ pending) vs)

length-extend : (pending vs : List Value) → length (extend pending vs) ≡ length pending + length vs
unfolding extend
length-extend pending [] = omega arith
length-extend pending (v ∷ vs) = omega (arith, length-extend (v ∷ pending) vs)

size-positive : (v : Value) → 1 ≤ size v
unfolding size
size-positive scalar = omega arith
size-positive (array vs) = omega arith
size-positive (table fs) = omega arith

length-total : (vs : List Value) → length vs ≤ total vs
unfolding total
length-total [] = omega arith
length-total (v ∷ vs) = omega (arith, length-total vs, size-positive v)

-- What is counted and what is left to count.
abbrev weight : Walk → ℕ
weight w = w.nodes + total w.pending

-- A round stops with a verdict that its document deserves, or keeps the weight and the bound.
data Checked (late : Bool) (w : Walk) : Round → Type 0 where
  on_time : late ≡ true → Checked late w (stops timed_out)
  small : (weight w ≤ max_nodes) → Checked late w (stops accepted)
  large : (max_nodes < weight w) → Checked late w (stops too_complex)
  goes_on :
      (t : Walk)
      → (t.nodes ≡ suc w.nodes)
      → (weight t ≡ weight w)
      → (t.nodes + length t.pending ≤ max_nodes)
      → Checked late w (continues t)

grow-Checked :
    (late : Bool) (n : ℕ) (v : Value) (pending children : List Value)
    → size v ≡ suc (total children)
    → n + length (v ∷ pending) ≤ max_nodes
    → Checked late (record { nodes = n; pending = v ∷ pending }) (grow (suc n) pending children)
unfolding grow total
grow-Checked late n v pending children s h =
    elim (Bool-cases (ltb (max_nodes - suc n) (length pending + length children))) [
      | inl e ↦ rw e (
          large (
            omega (
              arith,
              s,
              length-total pending,
              length-total children,
              ltb→lt (max_nodes - suc n) (length pending + length children) e,
            )))
      | inr e ↦ rw e (
          goes_on (record { nodes = suc n; pending = extend pending children }) refl
            (omega (arith, s, total-extend pending children))
            (omega (
              arith,
              h,
              length-extend pending children,
              ltb-false→le (max_nodes - suc n) (length pending + length children) e,
            )))
    ]

take-Checked :
    (late : Bool) (n : ℕ) (v : Value) (pending : List Value)
    → n + length (v ∷ pending) ≤ max_nodes
    → Checked late (record { nodes = n; pending = v ∷ pending }) (take (suc n) pending v)
unfolding take size total
take-Checked late n scalar pending h =
    goes_on (record { nodes = suc n; pending = pending }) refl (omega arith) (omega (arith, h))
take-Checked late n (array vs) pending h =
    grow-Checked late n (array vs) pending (items vs) (omega (arith, total-items vs)) h
take-Checked late n (table fs) pending h =
    grow-Checked late n (table fs) pending (values fs) (omega (arith, total-values fs)) h

round_of-Checked :
    (late : Bool) (n : ℕ) (pending : List Value)
    → n + length pending ≤ max_nodes
    → Checked late (record { nodes = n; pending = pending }) (round_of late n pending)
unfolding round_of total
round_of-Checked late n [] h = small (omega (arith, h))
round_of-Checked true n (v ∷ pending) h = on_time refl
round_of-Checked false n (v ∷ pending) h = elim (Bool-cases (ltb max_nodes (suc n))) [
  | inl e ↦ absurd (omega (arith, h, ltb→lt max_nodes (suc n) e))
  | inr e ↦ rw e (take-Checked false n v pending h)
]

round-Checked :
    (late : ℕ → Bool) (w : Walk)
    → w.nodes + length w.pending ≤ max_nodes
    → Checked (late w.nodes) w (round late w)
unfolding round
round-Checked late w h = round_of-Checked (late w.nodes) w.nodes w.pending h

-- How the loop may end on a document of a given size.
pub data Decided (late : ℕ → Bool) (size : ℕ) : Verdict → Type 0 where
  overtaken : (n : ℕ) → late n ≡ true → Decided late size timed_out
  fits : (size ≤ max_nodes) → Decided late size accepted
  exceeds : (max_nodes < size) → Decided late size too_complex

-- The rest of the loop decides for a round that goes on.
decided :
    (late : ℕ → Bool) (fuel : ℕ) (w : Walk)
    → ((t : Walk)
        → max_nodes < t.nodes + fuel
        → t.nodes + length t.pending ≤ max_nodes
        → Decided late (weight t) (walk late fuel t))
    → max_nodes < w.nodes + suc fuel
    → (r : Round) → Checked (late w.nodes) w r
    → Decided late (weight w) (after (walk late fuel) r)
unfolding after
decided late fuel w rest f _ (on_time e) = overtaken w.nodes e
decided late fuel w rest f _ (small le) = fits le
decided late fuel w rest f _ (large gt) = exceeds gt
decided late fuel w rest f _ (goes_on t n same le) = rw (sym same) (rest t (omega (arith, f, n)) le)

pub walk-Decided :
    (late : ℕ → Bool) (fuel : ℕ) (w : Walk)
    → max_nodes < w.nodes + fuel
    → w.nodes + length w.pending ≤ max_nodes
    → Decided late (weight w) (walk late fuel w)
unfolding walk
walk-Decided late zero w f h = absurd (omega (arith, f, h))
walk-Decided late (suc fuel) w f h =
    decided late fuel w (λ t. walk-Decided late fuel t) f (round late w) (round-Checked late w h)

pub walk_toml-Decided :
    (late : ℕ → Bool) (v : Value) → Decided late (size v) (walk_toml late (some v))
unfolding walk_toml total
walk_toml-Decided late v =
    let same : 0 + (size v + 0) ≡ size v = omega arith in
    subst (λ n. Decided late n (walk_toml late (some v))) same
      (walk-Decided late (suc max_nodes) (record { nodes = 0; pending = v ∷ [] }) (omega arith)
        (omega arith))

-- With time enough, a TOML document is accepted exactly when it has at most `HTTP_INPUT_MAX_NODES`
-- tables, arrays and other values, and is else refused as too complex: the loop, which may refuse a
-- table before its values are counted, decides as the number of all values does.
pub walk_toml-size :
    (late : ℕ → Bool) (v : Value)
    → ((n : ℕ) → late n ≡ false)
    → walk_toml late (some v) ≡ (if ltb max_nodes (size v) then too_complex else accepted)
walk_toml-size late v quick = settled (size v) (walk_toml late (some v)) (walk_toml-Decided late v)
  where
    settled :
        (n : ℕ) (r : Verdict)
        → Decided late n r
        → r ≡ (if ltb max_nodes n then too_complex else accepted)
    settled n _ (overtaken k e) = absurd (cc (e, quick k))
    settled n _ (fits le) = ground arith
    settled n _ (exceeds gt) = ground arith

-- The states that the loop over a document passes through.
pub data Passes (late : ℕ → Bool) (v : Value) : Walk → Type 0 where
  begins : Passes late v (record { nodes = 0; pending = v ∷ [] })
  goes_to : (w t : Walk) → Passes late v w → round late w ≡ continues t → Passes late v t

continues-kept :
    (late : Bool) (w t : Walk)
    → (r : Round) → Checked late w r
    → r ≡ continues t
    → (weight t ≡ weight w) × (t.nodes + length t.pending ≤ max_nodes)
continues-kept late w t _ (goes_on u n same le) e =
    let p : u ≡ t = cc e in
    subst (λ x. (weight x ≡ weight w) × (x.nodes + length x.pending ≤ max_nodes)) p (same, le)
continues-kept late w t _ (on_time x) e = cc e
continues-kept late w t _ (small x) e = cc e
continues-kept late w t _ (large x) e = cc e

-- In every round, the nodes that were counted and the values that wait for their turn are together
-- at most `HTTP_INPUT_MAX_NODES`, so the list of pending values never outgrows the limit; and the
-- nodes counted together with all that is held by the pending values are the document's.
pub Passes-IsBounded :
    (late : ℕ → Bool) (v : Value) (w : Walk)
    → Passes late v w
    → (w.nodes + length w.pending ≤ max_nodes) × (w.nodes + total w.pending ≡ size v)
unfolding total
Passes-IsBounded late v _ begins = (omega arith, omega arith)
Passes-IsBounded late v t (goes_to w _ before e) =
    let (bound, same) = Passes-IsBounded late v w before in
    let (kept, le) =
      continues-kept (late w.nodes) w t (round late w) (round-Checked late w bound) e in
    (le, kept ∙ same)
