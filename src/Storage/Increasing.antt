-- ===== src/Storage/Increasing.antt =====
-- Lists of submitted operations by their numbers.
use conda_presto.Prelude.{
  ℕ, suc, ◌≤◌, ◌≡◌, refl, Bool-cases, inl, inr, List, [], ◌∷◌, ◌++◌, arith, ◌==◌, nat_eq,
}
use conda_presto.Storage.Operation.{StoreOperation, Completion}
use conda_presto.Storage.Coordinator.{Ticket, remove}

-- Numbers from `lo` on and below `hi`, each above the one before it.
abbrev pub Increasing : ℕ → List Ticket → ℕ → Type 0
Increasing lo [] hi = lo ≤ hi
Increasing lo (t ∷ ts) hi = (lo ≤ t.0) × Increasing (suc t.0) ts hi

abbrev pub tickets : List (Ticket × Completion) → List Ticket
tickets [] = []
tickets (x ∷ xs) = x.0 ∷ tickets xs

Increasing-lower :
    (lo lo' : ℕ) (ts : List Ticket) (hi : ℕ) → lo ≤ lo' → Increasing lo' ts hi → Increasing lo ts hi
Increasing-lower lo lo' [] hi l h = omega (arith, l, h)
Increasing-lower lo lo' (t ∷ ts) hi l h = (omega (arith, l, h.0), h.1)

pub Increasing-append :
    (lo : ℕ) (ts : List Ticket) (hi : ℕ) (operation : StoreOperation)
    → Increasing lo ts hi
    → Increasing lo (ts ++ ((hi, operation) ∷ [])) (suc hi)
Increasing-append lo [] hi operation h = (h, omega arith)
Increasing-append lo (t ∷ ts) hi operation h =
    (h.0, Increasing-append (suc t.0) ts hi operation h.1)

Increasing-remove :
    (n lo : ℕ) (ts : List Ticket) (hi : ℕ) → Increasing lo ts hi → Increasing lo (remove n ts) hi
Increasing-remove n lo [] hi h = h
Increasing-remove n lo (t ∷ ts) hi h = elim (Bool-cases (t.0 == n)) [
  | inl c ↦
      rw c (
        Increasing-remove n lo ts hi (Increasing-lower lo (suc t.0) ts hi (omega (arith, h.0)) h.1))
  | inr c ↦ rw c (h.0, Increasing-remove n (suc t.0) ts hi h.1)
]

pub Increasing-append-remove :
    (n lo : ℕ) (xs ts : List Ticket) (hi : ℕ)
    → Increasing lo (xs ++ ts) hi
    → Increasing lo (xs ++ remove n ts) hi
Increasing-append-remove n lo [] ts hi h = Increasing-remove n lo ts hi h
Increasing-append-remove n lo (x ∷ xs) ts hi h =
    (h.0, Increasing-append-remove n (suc x.0) xs ts hi h.1)

pub tickets-append :
    (xs : List (Ticket × Completion)) (t : Ticket) (completion : Completion)
    → tickets (xs ++ ((t, completion) ∷ [])) ≡ tickets xs ++ (t ∷ [])
tickets-append [] t completion = refl
tickets-append (x ∷ xs) t completion = rw (tickets-append xs t completion) refl
