-- ===== src/KeySet.antt =====
-- skl/set.hpp: `set`, whose items (`set_ref_item`) hold a key.
mod Tests
pub mod Laws
use kl.Base.{ℕ, Bool, false, Option, none, some}
use kl.Keyed.Avl.{AvlRoutines}
use kl.Keyed.{KeyType, TreeItems, find_item, remove_item, insert_item}

-- What the parts of `insert` get: memory for the copies of the key, the table's node, and a block for
-- the item.
pub record Grants : Type 0 where
  pub temp_key : Bool
  pub node : Bool
  pub item : Option ℕ
  pub item_key : Bool

module _ {K Table : Type 0} (kt : KeyType K) (rt : AvlRoutines Table) where
  abbrev pub first : K → K
  first k = k

  unfoldable pub construct : TreeItems Table K → TreeItems Table K
  construct s = record s { table = rt.initialize_table }

  unfoldable pub count : TreeItems Table K → ℕ
  count s = rt.number_elements s.table

  unfoldable pub empty : TreeItems Table K → Bool
  empty s = rt.is_table_empty s.table

  -- `new(poolType)set_ref_item(key)`
  unfoldable pub set_ref_item : Grants → K → Option (ℕ × K)
  set_ref_item g k = elim g.item [ none ↦ none | some p ↦ some (p, kt.copy g.item_key k) ]

  unfoldable pub find : ℕ → Bool → K → TreeItems Table K → Option (ℕ × Bool × TreeItems Table K)
  find temp got k s = find_item kt rt first false temp (kt.copy got k) s

  unfoldable pub remove : ℕ → Bool → K → TreeItems Table K → Option (ℕ × Bool × TreeItems Table K)
  remove temp got k s = remove_item kt rt first temp (kt.copy got k) s

  unfoldable pub insert : ℕ → Grants → K → TreeItems Table K → Option (ℕ × Bool × TreeItems Table K)
  insert temp g k s =
      insert_item kt rt first temp (kt.copy g.temp_key k) g.node (set_ref_item g k) s
