-- ===== src/Links/Single.antt =====
-- The singly linked lists of the system: `SINGLE_LIST_ENTRY` cells in a chain from a head. The
-- routines of the system are a parameter.
use kl.Base.{ℕ, ◌≡◌, ◌≢◌, List, [], ◌∷◌}
use kl.Links.{Absent}

-- From `p` the links lead through the cells `xs` to null.
abbrev pub Chain : (ℕ → ℕ) → ℕ → List ℕ → Type 0
Chain next p [] = next p ≡ 0
Chain next p (x ∷ xs) = (next p ≡ x) × (x ≢ 0) × Absent x xs × Chain next x xs

pub record SingleRoutines : Type 0 where
  pub push_entry_list : (ℕ → ℕ) → ℕ → ℕ → ℕ → ℕ
  pub pop_entry_list : (ℕ → ℕ) → ℕ → ℕ × (ℕ → ℕ)
  pub push_entry-Chain :
      (next : ℕ → ℕ) (head e : ℕ) (xs : List ℕ)
      → Chain next head xs
      → Absent head xs
      → Absent e (head ∷ xs)
      → e ≢ 0
      → Chain (push_entry_list next head e) head (e ∷ xs)
  pub pop_entry-Chain :
      (next : ℕ → ℕ) (head x : ℕ) (xs : List ℕ)
      → Chain next head (x ∷ xs)
      → Absent head (x ∷ xs)
      → ((pop_entry_list next head).0 ≡ x) × Chain (pop_entry_list next head).1 head xs
  pub pop_entry_empty :
      (next : ℕ → ℕ) (head : ℕ)
      → Chain next head []
      → ((pop_entry_list next head).0 ≡ 0) × Chain (pop_entry_list next head).1 head []
