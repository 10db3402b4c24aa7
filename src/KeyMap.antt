-- ===== src/KeyMap.antt =====
-- skl/map.hpp: `map`, whose items (`map_ref_item`) hold a key and a value.
mod Tests
pub mod Laws
pub mod RoundTrip
use kl.Base.{ℕ, Bool, true, Option, none, some}
use kl.Keyed.Avl.{AvlRoutines}
use kl.Keyed.{KeyType, TreeItems, find_item, remove_item, insert_item}

-- What the parts of `insert` get: memory for the copies of the key and the value, the table's node,
-- and a block for the item.
pub record Grants : Type 0 where
  pub temp_key : Bool
  pub node : Bool
  pub item : Option ℕ
  pub item_key : Bool
  pub item_value : Bool

module _ {K V Table : Type 0} (kt : KeyType K) (copy_value : Bool → V → V)
    (rt : AvlRoutines Table) where
  abbrev pub first : K × V → K
  first e = e.0

  unfoldable pub construct : TreeItems Table (K × V) → TreeItems Table (K × V)
  construct s = record s { table = rt.initialize_table }

  unfoldable pub count : TreeItems Table (K × V) → ℕ
  count s = rt.number_elements s.table

  unfoldable pub empty : TreeItems Table (K × V) → Bool
  empty s = rt.is_table_empty s.table

  -- `new(poolType)map_ref_item(key, value)`
  unfoldable pub map_ref_item : Grants → K → V → Option (ℕ × (K × V))
  map_ref_item g k v = elim g.item [
    | none ↦ none
    | some p ↦ some (p, (kt.copy g.item_key k, copy_value g.item_value v))
  ]

  unfoldable pub find :
      ℕ → Bool → K → TreeItems Table (K × V) → Option (ℕ × Bool × TreeItems Table (K × V))
  find temp got k s = find_item kt rt first true temp (kt.copy got k) s

  unfoldable pub remove :
      ℕ → Bool → K → TreeItems Table (K × V) → Option (ℕ × Bool × TreeItems Table (K × V))
  remove temp got k s = remove_item kt rt first temp (kt.copy got k) s

  unfoldable pub insert :
      ℕ → Grants → K → V → TreeItems Table (K × V) → Option (ℕ × Bool × TreeItems Table (K × V))
  insert temp g k v s =
      insert_item kt rt first temp (kt.copy g.temp_key k) g.node (map_ref_item g k v) s
