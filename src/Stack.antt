-- ===== src/Stack.antt =====
-- skl/list.hpp: `stack`, a last-in first-out container of elements, and its iterator.
pub mod Laws
pub mod Run
mod Tests
use kl.Base.{
  ℕ, zero, suc, Bool, true, false, not, Option, none, some, List, [], ◌∷◌, ◌>>=◌, if◌then◌else◌,
  ◌==◌,
}
use kl.Links.{update}
use kl.Links.Single.{SingleRoutines}

-- `Next` of the cell at each address, and the element of the item there.
pub record Cells (A : Type 0) : Type 0 where
  pub next : ℕ → ℕ
  pub value : ℕ → Option A

module _ {A : Type 0} where
  -- `_head.Next = NULL`
  unfoldable pub construct : ℕ → Cells A → Cells A
  construct head s = record s { next = update s.next head 0 }

  -- `if (item) delete item`
  unfoldable pub discard : ℕ → Cells A → Cells A
  discard p s = if p == 0 then s else record s { value = update s.value p none }

  unfoldable pub empty : ℕ → Cells A → Bool
  empty head s = s.next head == 0

  -- An iterator is the address `_current`; that of `end` is null.
  unfoldable pub begin : ℕ → Cells A → ℕ
  begin head s = s.next head

  unfoldable pub increment : ℕ → Cells A → ℕ
  increment current s = s.next current

  unfoldable pub deref : ℕ → Cells A → Option A
  deref current s = s.value current

  -- `for (auto& x : stack)`, from an iterator on: the elements met. `none` is a read of an item that is
  -- not there, or no fuel.
  unfoldable pub visit : ℕ → ℕ → Cells A → Option (List A)
  unfolding deref increment
  visit zero current s = none
  visit (suc fuel) current s =
      let rest =
        deref current s >>= λ x. visit fuel (increment current s) s >>= λ xs. some (x ∷ xs) in
      if not (current == 0) then rest else some []

module _ (rt : SingleRoutines) {A : Type 0} where
  -- The loop of `clear`; `none` means that the fuel ran out.
  unfoldable pub clear : ℕ → ℕ → Cells A → Option (Cells A)
  unfolding discard
  clear zero head s = none
  clear (suc fuel) head s =
      let (entry, next) = rt.pop_entry_list s.next head in
      let rest = clear fuel head (discard entry (record s { next = next })) in
      if entry == 0 then some (record s { next = next }) else rest

  -- `push(v)`, where `got` is what `new` gives.
  unfoldable pub push : ℕ → Option ℕ → A → Cells A → Cells A × Bool
  push head none v s = (s, false)
  push head (some item) v s = (
    record { next = rt.push_entry_list s.next head item; value = update s.value item (some v) },
    true,
  )

  -- `pop(v)`: the result and what `v` is afterwards.
  unfoldable pub pop : ℕ → A → Cells A → Option (Bool × A × Cells A)
  unfolding discard
  pop head v s =
      let (entry, next) = rt.pop_entry_list s.next head in
      if entry == 0
      then some (false, v, record s { next = next })
      else (s.value entry >>= λ moved. some (true, moved, discard entry (record s { next = next })))
