-- ===== src/Queue.antt =====
-- skl/list.hpp: `queue`, a first-in first-out container of elements.
pub mod Laws
pub mod Run
mod Tests
use kl.Base.{ℕ, zero, suc, Bool, true, false, Option, none, some, ◌>>=◌, if◌then◌else◌, ◌==◌}
use kl.Links.{Links, ListRoutines}
use kl.Items.{Items, create, delete}
use kl.Heads

module _ (rt : ListRoutines) {A : Type 0} where
  unfoldable pub construct : ℕ → Items A → Items A
  construct q s = record s { links = rt.initialize_list_head s.links q }

  unfoldable pub empty : ℕ → Items A → Bool
  empty q s = rt.is_list_empty s.links q

  -- The loop of `clear`; `none` means that the fuel ran out.
  unfoldable pub clear : ℕ → ℕ → Items A → Option (Items A)
  clear zero q s = none
  clear (suc fuel) q s =
      let (entry, links) = rt.remove_head_list s.links q in
      let rest = clear fuel q (delete entry (record s { links = links })) in
      if rt.is_list_empty s.links q then some s else rest

  unfoldable pub swap : ℕ → ℕ → Items A → Items A
  swap this other s = record s { links = Heads.swap rt this other s.links }

  -- `push_back(v)`, where `got` is what `new` gives: the address of a new item, or nothing.
  unfoldable pub push_back : ℕ → Option ℕ → A → Items A → Items A × Bool
  push_back q none v s = (s, false)
  push_back q (some item) v s =
      let made = create item v s in
      (record made { links = rt.insert_tail_list made.links q item }, true)

  -- `pop_front(v)`: the result and what `v` is afterwards. `none` is a read of an item that is not
  -- there.
  unfoldable pub pop_front : ℕ → A → Items A → Option (Bool × A × Items A)
  pop_front q v s =
      if rt.is_list_empty s.links q
      then some (false, v, s)
      else let (entry, links) = rt.remove_head_list s.links q in
        (s.value entry >>= λ moved. some (true, moved, delete entry (record s { links = links })))
