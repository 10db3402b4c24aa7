-- ===== src/Items.antt =====
-- The items of the containers of skl/list.hpp: an item is a `LIST_ENTRY` with an element behind it,
-- allocated when an element is added and deleted when it leaves. The address of an item's entry
-- stands for the item's, since `CONTAINING_RECORD` goes from one to the other.
pub mod Holds
use kl.Base.{ℕ, Option, none, some, if◌then◌else◌, ◌==◌}
use kl.Links.{Links, update}

-- The element of the item at each address; `none` where no item is, or none any more.
pub record Items (A : Type 0) : Type 0 where
  pub links : Links
  pub value : ℕ → Option A

module _ {A : Type 0} where
  -- The constructor of an item at an address that `new` gave.
  abbrev pub create : ℕ → A → Items A → Items A
  create p v s = record s { value = update s.value p (some v) }

  -- `if (item) delete item`
  abbrev pub delete : ℕ → Items A → Items A
  delete p s = if p == 0 then s else record s { value = update s.value p none }
