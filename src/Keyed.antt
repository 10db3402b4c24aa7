-- ===== src/Keyed.antt =====
-- What skl/set.hpp and skl/map.hpp have word for word in common: items in an AVL table of the system,
-- which are compared by their key and count the references to them. A holder is its `_ptr`, 0 if it
-- is empty.
pub mod Avl
pub mod Sorted
pub mod Keeps
pub mod Calls
pub mod Remove
pub mod Insert
pub mod Faults
pub mod Loop
pub mod Tests
use kl.Base.{
  ℕ, zero, suc, List, [], ◌∷◌, Bool, true, false, not, ◌&&◌, Option, none, some, ◌>>=◌,
  if◌then◌else◌, ◌==◌,
}
use kl.Links.{update}
use kl.RefHolder.{Counted, release}
use kl.RefHolder
use kl.Uint64Table.Avl.{Compared, generic_less_than, generic_greater_than, generic_equal}
use kl.Keyed.Avl.{Compare, AvlRoutines, end_handle}

-- `<` of the keys, `check_valid`, and a copy of a key, where the flag says if it gets its memory.
pub record KeyType (K : Type 0) : Type 0 where
  pub lt : K → K → Bool
  pub check_valid : K → Bool
  pub copy : Bool → K → K

-- The table, the contents of the item at each address, and the reference counts.
pub record TreeItems (Table A : Type 0) : Type 0 where
  pub table : Table
  pub value : ℕ → Option A
  pub objects : Counted

unfoldable pub compare_keys : {K : Type 0} → KeyType K → K → K → Compared
compare_keys kt f s =
    if kt.lt f s
    then generic_less_than
    else if kt.lt s f
    then generic_greater_than
    else generic_equal

-- `result ? result->_item : nullptr`
abbrev pub item_of : Option ℕ → ℕ
item_of none = 0
item_of (some item) = item

module _ {K A Table : Type 0} (kt : KeyType K) (rt : AvlRoutines Table) (key : A → K) where
  -- `first` of the item at an address, of which `temp` is that of the `temp_item` of the call and
  -- `first` its key.
  abbrev pub key_at : ℕ → K → TreeItems Table A → ℕ → Option K
  key_at temp first s p =
      if p == temp
      then some first
      else if s.objects.live p
      then (s.value p >>= λ a. some (key a))
      else none

  -- `Compare`
  unfoldable pub compare : ℕ → K → TreeItems Table A → Compare
  compare temp first s f g =
      key_at temp first s f >>= λ x. key_at temp first s g >>= λ y. some (compare_keys kt x y)

  -- A `ref_holder` of an item.
  unfoldable pub hold : ℕ → TreeItems Table A → Option (ℕ × TreeItems Table A)
  hold item s = RefHolder.construct item s.objects >>= λ r. some (r.0, record s { objects = r.1 })

  unfoldable pub let_go : ℕ → TreeItems Table A → Option (TreeItems Table A)
  let_go item s = release item s.objects >>= λ r. some (record s { objects = r.1 })

  -- The new item at an address that `new` gave.
  abbrev pub create : ℕ → A → TreeItems Table A → TreeItems Table A
  create p a s = record s {
    value = update s.value p (some a);
    objects = record { count = update s.objects.count p 1; live = update s.objects.live p true };
  }

  -- The end of `find`, `remove` and `insert`: the pair of a holder and a flag.
  abbrev pub holding : ℕ → Bool → TreeItems Table A → Option (ℕ × Bool × TreeItems Table A)
  holding item flag s = hold item s >>= λ r. some (r.0, flag, r.1)

  -- `find`, where `flag` is the second of the pair when the key is valid.
  unfoldable pub find_item :
      Bool → ℕ → K → TreeItems Table A → Option (ℕ × Bool × TreeItems Table A)
  find_item flag temp first s =
      if not (kt.check_valid first)
      then holding 0 false s
      else (rt.lookup_element (compare temp first s) s.table temp >>= λ result.
          holding (item_of result) flag s)

  -- `if (result) { … }` of `remove`, after the holder is made.
  unfoldable pub delete_found :
      ℕ → K → Option ℕ → TreeItems Table A → Option (Bool × TreeItems Table A)
  delete_found temp first none s = some (false, s)
  delete_found temp first (some val) s =
      rt.delete_element (compare temp first s) s.table temp >>= λ d.
      let s' = record s { table = d.1 } in
      (if d.0 && not (val == 0) then (let_go val s' >>= λ s2. some (d.0, s2)) else some (d.0, s'))

  unfoldable pub remove_item : ℕ → K → TreeItems Table A → Option (ℕ × Bool × TreeItems Table A)
  remove_item temp first s =
      if not (kt.check_valid first)
      then holding 0 false s
      else (rt.lookup_element (compare temp first s) s.table temp >>= λ result.
          hold (item_of result) s >>= λ holder.
          delete_found temp first result holder.1 >>= λ r. some (holder.0, r.0, r.1))

  -- What `insert` does once the table has the new element `temp`, where `made` is the address that
  -- `new` gives and the contents of the item that is constructed there. Without one the table has
  -- null, and `result->_item` is read through the null `result`.
  unfoldable pub settle :
      ℕ → K → Option (ℕ × A) → TreeItems Table A → Option (ℕ × Bool × TreeItems Table A)
  settle temp first none s =
      let s' = record s { table = rt.set_item s.table temp 0 } in
      (rt.delete_element (compare temp first s') s'.table temp >>= λ d. none)
  settle temp first (some (p, a)) s =
      let s' = create p a (record s { table = rt.set_item s.table temp p }) in
      if not (kt.check_valid (key a))
      then (let_go p s' >>= λ s2. rt.delete_element (compare temp first s2) s2.table temp >>= λ d.
          holding 0 true (record s2 { table = d.1 }))
      else holding p true s'

  abbrev pub settle_if :
      ℕ
      → K
      → Option (ℕ × A)
      → Option ℕ × Bool × TreeItems Table A
      → Option (ℕ × Bool × TreeItems Table A)
  settle_if temp first made (some item, true, s) = settle temp first made s
  settle_if temp first made (none, new_element, s) = holding 0 new_element s
  settle_if temp first made (some item, false, s) = holding item false s

  -- `insert`, where `node` says if `Allocate` gives a block.
  unfoldable pub insert_item :
      ℕ → K → Bool → Option (ℕ × A) → TreeItems Table A → Option (ℕ × Bool × TreeItems Table A)
  insert_item temp first node made s =
      if not (kt.check_valid first)
      then holding 0 false s
      else (rt.insert_element node (compare temp first s) s.table temp >>= λ r.
          settle_if temp first made (r.0, r.1, record s { table = r.2 }))

-- `iterator`: `handle` and the `_ptr` of `value`; `_root` is the table's, and is passed along.
pub record Iterator : Type 0 where
  pub handle : ℕ
  pub value : ℕ

abbrev pub end : Iterator
end = record { handle = end_handle; value = 0 }

-- `if (!rt) handle = (PVOID)-1;`
abbrev pub next_handle : Option ℕ → ℕ → ℕ
next_handle none handle = end_handle
next_handle (some item) handle = handle

module _ {A Table : Type 0} (rt : AvlRoutines Table) where
  -- `++it`
  unfoldable pub increment : Iterator → TreeItems Table A → Option (Iterator × TreeItems Table A)
  increment it s =
      let (item, handle) = rt.enumerate_without_splaying s.table it.handle in
      (RefHolder.construct (item_of item) s.objects >>= λ temp.
      RefHolder.assign_move false it.value temp.0 temp.1 >>= λ r.
      some (record { handle = next_handle item handle; value = r.0 }, record s { objects = r.2 }))

  -- `begin`: what it returns is a copy of its own iterator, which is then destroyed.
  unfoldable pub begin : TreeItems Table A → Option (Iterator × TreeItems Table A)
  unfolding increment
  begin s = increment (record { handle = 0; value = 0 }) s >>= λ itr.
      RefHolder.construct_copy itr.0.value itr.1.objects >>= λ copy.
      RefHolder.destroy itr.0.value copy.1 >>= λ o.
      some (record { handle = itr.0.handle; value = copy.0 }, record s { objects = o })

  -- `*it` read
  unfoldable pub deref : Iterator → TreeItems Table A → Option A
  deref it s = if s.objects.live it.value then s.value it.value else none

  -- The loop `for (; it != end(); ++it)`: the contents of the items met, and the table when the
  -- iterators are gone.
  unfoldable pub visit : ℕ → Iterator → TreeItems Table A → Option (List A × TreeItems Table A)
  visit zero it s = none
  visit (suc fuel) it s =
      let rest = deref it s >>= λ x.
      increment it s >>= λ r. visit fuel r.0 r.1 >>= λ t. some (x ∷ t.0, t.1) in
      let done =
        RefHolder.destroy it.value s.objects >>= λ o. some ([], record s { objects = o }) in
      if not (it.handle == end.handle) then rest else done

  unfoldable pub for_each : ℕ → TreeItems Table A → Option (List A × TreeItems Table A)
  for_each fuel s = begin s >>= λ b. visit fuel b.0 b.1
