-- ===== src/Keyed/Avl.antt =====
-- The generic AVL tables of the system, for elements that are pointers to items, with what its
-- documentation says of them. A comparison may fault, since it reads the items.
use kl.Base.{
  ℕ, ◌+◌, ◌-◌, ◌^◌, ◌≤◌, ◌<◌, ◌≡◌, ◌≢◌, Bool, true, false, Option, none, some, List, [], ◌∷◌, ◌++◌,
  length, ◌==◌,
}
use kl.Links.{Absent}
use kl.Uint64Table.Avl.{Compared, generic_less_than, generic_greater_than, generic_equal}

abbrev pub Compare : Type 0
Compare = ℕ → ℕ → Option Compared

-- Every element of the list compares with `v` as `r`.
abbrev pub Each : Compare → ℕ → Compared → List ℕ → Type 0
Each cmp v r [] = Unit {0}
Each cmp v r (x ∷ xs) = (cmp v x ≡ some r) × Each cmp v r xs

-- `v` has its place in a table between the elements `ls` and `rs`.
abbrev pub Between : Compare → ℕ → List ℕ → List ℕ → Type 0
Between cmp v ls rs = Each cmp v generic_greater_than ls × Each cmp v generic_less_than rs

-- `(PVOID)-1`
abbrev pub end_handle : ℕ
end_handle = 2 ^ 64 - 1

-- The elements of a table stand in order. `set_item t a b` is what the client's assignment through
-- the pointer that `insert_element` gave does: the element `a` is now `b`. An enumeration
-- starts with null for its restart key; `restart_key t i` is what that is after `i` elements, an address.
pub record AvlRoutines (Table : Type 0) : Type 0 where
  pub elements : Table → List ℕ
  pub initialize_table : Table
  pub lookup_element : Compare → Table → ℕ → Option (Option ℕ)
  pub insert_element : Bool → Compare → Table → ℕ → Option (Option ℕ × Bool × Table)
  pub delete_element : Compare → Table → ℕ → Option (Bool × Table)
  pub set_item : Table → ℕ → ℕ → Table
  pub number_elements : Table → ℕ
  pub is_table_empty : Table → Bool
  pub enumerate_without_splaying : Table → ℕ → Option ℕ × ℕ
  pub restart_key : Table → ℕ → ℕ
  pub initialize_lem : elements initialize_table ≡ []
  pub number_lem : (t : Table) → number_elements t ≡ length (elements t)
  pub is_empty_lem : (t : Table) → is_table_empty t ≡ (length (elements t) == 0)
  pub set_item_lem :
      (t : Table) (a b : ℕ) (ls rs : List ℕ)
      → elements t ≡ ls ++ a ∷ rs
      → Absent a ls
      → elements (set_item t a b) ≡ ls ++ b ∷ rs
  pub lookup_present :
      (cmp : Compare) (t : Table) (v y : ℕ) (ls rs : List ℕ)
      → elements t ≡ ls ++ y ∷ rs
      → Between cmp v ls rs
      → cmp v y ≡ some generic_equal
      → lookup_element cmp t v ≡ some (some y)
  pub lookup_absent :
      (cmp : Compare) (t : Table) (v : ℕ) (ls rs : List ℕ)
      → elements t ≡ ls ++ rs
      → Between cmp v ls rs
      → lookup_element cmp t v ≡ some none
  pub insert_old :
      (got : Bool) (cmp : Compare) (t : Table) (v y : ℕ) (ls rs : List ℕ)
      → elements t ≡ ls ++ y ∷ rs
      → Between cmp v ls rs
      → cmp v y ≡ some generic_equal
      → insert_element got cmp t v ≡ some (some y, false, t)
  pub insert_no_block :
      (cmp : Compare) (t : Table) (v : ℕ) (ls rs : List ℕ)
      → elements t ≡ ls ++ rs
      → Between cmp v ls rs
      → insert_element false cmp t v ≡ some (none, false, t)
  pub insert_new :
      (cmp : Compare) (t : Table) (v : ℕ) (ls rs : List ℕ)
      → elements t ≡ ls ++ rs
      → Between cmp v ls rs
      → (t' : Table) × (insert_element true cmp t v ≡ some (some v, true, t'))
        × (elements t' ≡ ls ++ v ∷ rs)
  pub delete_present :
      (cmp : Compare) (t : Table) (v y : ℕ) (ls rs : List ℕ)
      → elements t ≡ ls ++ y ∷ rs
      → Between cmp v ls rs
      → cmp v y ≡ some generic_equal
      → (t' : Table) × (delete_element cmp t v ≡ some (true, t')) × (elements t' ≡ ls ++ rs)
  pub delete_absent :
      (cmp : Compare) (t : Table) (v : ℕ) (ls rs : List ℕ)
      → elements t ≡ ls ++ rs
      → Between cmp v ls rs
      → delete_element cmp t v ≡ some (false, t)
  -- The one element between `ls` and `rs` is compared, and the comparison faults.
  pub delete_fault :
      (cmp : Compare) (t : Table) (v y : ℕ) (ls rs : List ℕ)
      → elements t ≡ ls ++ y ∷ rs
      → Between cmp v ls rs
      → cmp v y ≡ none
      → delete_element cmp t v ≡ none
  pub restart_null : (t : Table) → restart_key t 0 ≡ 0
  pub restart_address :
      (t : Table) (i : ℕ)
      → i ≤ length (elements t)
      → length (elements t) < 2 ^ 32
      → restart_key t i ≢ end_handle
  pub enumerate_lem :
      (t : Table) (p : ℕ) (ls rs : List ℕ)
      → elements t ≡ ls ++ p ∷ rs
      → enumerate_without_splaying t (restart_key t (length ls))
        ≡ (some p, restart_key t (length ls + 1))
  pub enumerate_end :
      (t : Table)
      → enumerate_without_splaying t (restart_key t (length (elements t)))
        ≡ (none, restart_key t (length (elements t)))
