-- ===== src/Links.antt =====
-- The doubly linked lists of the system, on which skl/list.hpp builds: `LIST_ENTRY` cells that a
-- list's head joins to a ring. The routines of the system are a parameter. An address is a number,
-- and 0 is the null pointer.
pub mod Ring
pub mod Single
pub mod Tests
use kl.Base.{ℕ, ◌≡◌, ◌≢◌, ◌↔◌, Bool, true, List, [], ◌∷◌, ◌++◌, if◌then◌else◌, ◌==◌}

-- `Flink` and `Blink` of the cell at each address.
pub record Links : Type 0 where
  pub flink : ℕ → ℕ
  pub blink : ℕ → ℕ

abbrev pub update : {A : Type 0} → (ℕ → A) → ℕ → A → ℕ → A
update f p v q = if q == p then v else f q

-- `p->Flink = q` and `p->Blink = q`
abbrev pub set_flink : ℕ → ℕ → Links → Links
set_flink p q h = record h { flink = update h.flink p q }

abbrev pub set_blink : ℕ → ℕ → Links → Links
set_blink p q h = record h { blink = update h.blink p q }

-- From `p` the links lead through the cells `xs` one by one, and back.
abbrev pub Inner : Links → ℕ → List ℕ → Type 0
Inner h p [] = Unit {0}
Inner h p (x ∷ xs) = (h.flink p ≡ x) × (h.blink x ≡ p) × Inner h x xs

-- The last of the cells `p` and `xs`.
abbrev pub last : ℕ → List ℕ → ℕ
last p [] = p
last p (x ∷ xs) = last x xs

abbrev pub Absent : ℕ → List ℕ → Type 0
Absent p [] = Unit {0}
Absent p (x ∷ xs) = (p ≢ x) × Absent p xs

abbrev pub Distinct : List ℕ → Type 0
Distinct [] = Unit {0}
Distinct (x ∷ xs) = Absent x xs × Distinct xs

-- The cells `xs`, in this order, are the list whose head is at `head`.
pub record IsRing (h : Links) (head : ℕ) (xs : List ℕ) : Type 0 where
  pub inner : Inner h head xs
  pub forward : h.flink (last head xs) ≡ head
  pub backward : h.blink head ≡ last head xs
  pub distinct : Distinct (head ∷ xs)

-- Nothing but the cells `ps` differs.
abbrev pub SameOutside : List ℕ → Links → Links → Type 0
SameOutside ps h h' = (p : ℕ) → Absent p ps → (h'.flink p ≡ h.flink p) × (h'.blink p ≡ h.blink p)

-- The routines of the system, with what its documentation says of them.
pub record ListRoutines : Type 0 where
  pub initialize_list_head : Links → ℕ → Links
  pub is_list_empty : Links → ℕ → Bool
  pub insert_tail_list : Links → ℕ → ℕ → Links
  pub insert_head_list : Links → ℕ → ℕ → Links
  pub remove_head_list : Links → ℕ → ℕ × Links
  pub initialize-IsRing :
      (h : Links) (head : ℕ)
      → IsRing (initialize_list_head h head) head []
        × SameOutside (head ∷ []) h (initialize_list_head h head)
  pub is_list_empty_iff :
      (h : Links) (head : ℕ) (xs : List ℕ)
      → IsRing h head xs
      → (is_list_empty h head ≡ true) ↔ (xs ≡ [])
  pub insert_tail-IsRing :
      (h : Links) (head e : ℕ) (xs : List ℕ)
      → IsRing h head xs
      → Absent e (head ∷ xs)
      → IsRing (insert_tail_list h head e) head (xs ++ (e ∷ []))
        × SameOutside (e ∷ head ∷ xs) h (insert_tail_list h head e)
  pub insert_head-IsRing :
      (h : Links) (head e : ℕ) (xs : List ℕ)
      → IsRing h head xs
      → Absent e (head ∷ xs)
      → IsRing (insert_head_list h head e) head (e ∷ xs)
        × SameOutside (e ∷ head ∷ xs) h (insert_head_list h head e)
  pub remove_head-IsRing :
      (h : Links) (head x : ℕ) (xs : List ℕ)
      → IsRing h head (x ∷ xs)
      → ((remove_head_list h head).0 ≡ x)
        × IsRing (remove_head_list h head).1 head xs
        × SameOutside (x ∷ head ∷ xs) h (remove_head_list h head).1
