-- ===== src/Uint64Table.antt =====
-- skl/unit64table.hpp: `Uint64GenericTable`, a set of 64-bit numbers over the generic AVL tables of the
-- system, whose routines are a parameter.
pub mod Avl
pub mod Run
mod Tests
use kl.Base.{ℕ, Bool, true, false, Option, none, some, if◌then◌else◌, ◌==◌, ltb}
use kl.Uint64Table.Avl.{
  Compared, generic_less_than, generic_greater_than, generic_equal, AvlRoutines,
}

-- `Compare`
unfoldable pub compare : ℕ → ℕ → Compared
compare f s =
    if f == s then generic_equal else if ltb s f then generic_greater_than else generic_less_than

-- `eInsertResult`
pub data InsertResult : Type 0 where
  ir_error : InsertResult
  ir_ok : InsertResult
  ir_existed : InsertResult

module _ {Table : Type 0} (rt : AvlRoutines Table) where
  unfoldable pub construct : Table
  construct = rt.initialize_table compare

  unfoldable pub find : ℕ → Table → Option ℕ
  find val t = rt.lookup_element t val

  unfoldable pub count : Table → ℕ
  count t = rt.number_elements t

  unfoldable pub empty : Table → Bool
  empty t = rt.is_table_empty t

  abbrev result_of : Option ℕ → Bool → InsertResult
  result_of none new_element = ir_error
  result_of (some item) true = ir_ok
  result_of (some item) false = ir_existed

  -- `insert(val)`, where `got` says if `Allocate` gives a block.
  unfoldable pub insert : Bool → ℕ → Table → InsertResult × Table
  insert got val t =
      let (item, new_element, t') = rt.insert_element got t val in (result_of item new_element, t')

  unfoldable pub remove : ℕ → Table → Bool × Table
  remove val t = rt.delete_element t val
