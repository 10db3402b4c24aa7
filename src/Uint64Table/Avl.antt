-- ===== src/Uint64Table/Avl.antt =====
-- The generic AVL tables of the system, for elements that are numbers, with what its documentation
-- says of them.
use kl.Base.{
  ℕ, ◌+◌, ◌≡◌, ◌↔◌, Bool, true, false, not, ◌&&◌, ◌||◌, Option, none, some, if◌then◌else◌, ◌==◌,
}

pub data Compared : Type 0 where
  generic_less_than : Compared
  generic_greater_than : Compared
  generic_equal : Compared

-- What the system asks of a comparison: a total order.
pub record IsTotalOrder (compare : ℕ → ℕ → Compared) : Type 0 where
  pub equal_iff : (a b : ℕ) → (compare a b ≡ generic_equal) ↔ (a ≡ b)
  pub opposite :
      (a b : ℕ) → (compare a b ≡ generic_less_than) ↔ (compare b a ≡ generic_greater_than)
  pub transitive :
      (a b c : ℕ)
      → compare a b ≡ generic_less_than
      → compare b c ≡ generic_less_than
      → compare a c ≡ generic_less_than

-- A table is made with a comparison, which `ordered` tells to be a total order. `member t v` says that
-- the table has an element that compares as equal to `v`.
pub record AvlRoutines (Table : Type 0) : Type 0 where
  pub initialize_table : (ℕ → ℕ → Compared) → Table
  pub lookup_element : Table → ℕ → Option ℕ
  pub insert_element : Bool → Table → ℕ → Option ℕ × Bool × Table
  pub delete_element : Table → ℕ → Bool × Table
  pub number_elements : Table → ℕ
  pub is_table_empty : Table → Bool
  pub member : Table → ℕ → Bool
  pub ordered : Table → Bool
  pub initialize_lem :
      (compare : ℕ → ℕ → Compared)
      → IsTotalOrder compare
      → let t = initialize_table compare in
        (ordered t ≡ true) × ((v : ℕ) → member t v ≡ false) × (number_elements t ≡ 0)
  pub lookup_lem :
      (t : Table) (v : ℕ)
      → ordered t ≡ true
      → lookup_element t v ≡ (if member t v then some v else none)
  pub insert_old :
      (got : Bool) (t : Table) (v : ℕ)
      → ordered t ≡ true
      → member t v ≡ true
      → insert_element got t v ≡ (some v, false, t)
  pub insert_no_block :
      (t : Table) (v : ℕ)
      → ordered t ≡ true
      → member t v ≡ false
      → insert_element false t v ≡ (none, false, t)
  pub insert_new :
      (t : Table) (v : ℕ)
      → ordered t ≡ true
      → member t v ≡ false
      → (t' : Table) × (insert_element true t v ≡ (some v, true, t'))
        × (ordered t' ≡ true)
        × ((w : ℕ) → member t' w ≡ (w == v || member t w))
        × (number_elements t' ≡ number_elements t + 1)
  pub delete_absent :
      (t : Table) (v : ℕ) → ordered t ≡ true → member t v ≡ false → delete_element t v ≡ (false, t)
  pub delete_present :
      (t : Table) (v : ℕ)
      → ordered t ≡ true
      → member t v ≡ true
      → (t' : Table) × (delete_element t v ≡ (true, t'))
        × (ordered t' ≡ true)
        × ((w : ℕ) → member t' w ≡ (not (w == v) && member t w))
        × (number_elements t' + 1 ≡ number_elements t)
  pub is_empty_lem : (t : Table) → ordered t ≡ true → is_table_empty t ≡ (number_elements t == 0)
