-- ===== src/RefList.antt =====
-- skl/list.hpp: `list`, a doubly linked list whose items count the references to them: the list's own
-- and those of the holders that its operations return. A holder is its `_ptr`, 0 if it is empty.
pub mod Keeps
pub mod Ends
pub mod Whole
pub mod Loop
mod Tests
use kl.Base.{
  ℕ, zero, suc, Bool, true, false, not, ◌||◌, Option, none, some, List, [], ◌∷◌, ◌>>=◌,
  if◌then◌else◌, ◌==◌,
}
use kl.Links.{Links, ListRoutines, update}
use kl.Heads.{clear_entry, unlink, linked}
use kl.Heads
use kl.RefHolder.{Counted, release}
use kl.RefHolder

-- The links and the element of the item at each address, and the reference counts.
pub record RefItems (A : Type 0) : Type 0 where
  pub links : Links
  pub value : ℕ → Option A
  pub objects : Counted

module _ {A : Type 0} where
  -- The constructor of `list_ref_item` at an address that `new` gave.
  abbrev pub create : ℕ → A → RefItems A → RefItems A
  create p v s = record s {
    value = update s.value p (some v);
    objects = record { count = update s.objects.count p 1; live = update s.objects.live p true };
  }

  -- `itr_type(item)`
  unfoldable pub hold : ℕ → RefItems A → Option (ℕ × RefItems A)
  hold item s = RefHolder.construct item s.objects >>= λ r. some (r.0, record s { objects = r.1 })

  -- `item->release()`
  unfoldable pub let_go : ℕ → RefItems A → Option (RefItems A)
  let_go item s = release item s.objects >>= λ r. some (record s { objects = r.1 })

  -- `remove(itr)`
  unfoldable pub remove : ℕ → RefItems A → Option (Bool × RefItems A)
  remove itr s =
      if itr == 0 || not (linked itr s.links)
      then some (false, s)
      else (let_go itr (record s { links = unlink itr s.links }) >>= λ s'. some (true, s'))

module _ (rt : ListRoutines) {A : Type 0} where
  unfoldable pub construct : ℕ → RefItems A → RefItems A
  construct l s = record s { links = rt.initialize_list_head s.links l }

  unfoldable pub empty : ℕ → RefItems A → Bool
  empty l s = rt.is_list_empty s.links l

  -- The loop of `clear`; `none` means that the fuel ran out, or a call on an item that is not there.
  unfoldable pub clear : ℕ → ℕ → RefItems A → Option (RefItems A)
  clear zero l s = none
  clear (suc fuel) l s =
      let (item, links) = rt.remove_head_list s.links l in
      let rest =
        if item == 0
        then clear fuel l (record s { links = links })
        else (let_go item (record s { links = clear_entry item links }) >>= λ s'.
            clear fuel l s') in
      if rt.is_list_empty s.links l then some s else rest

  -- The member `swap` of two lists, and that of `append`.
  unfoldable pub swap : ℕ → ℕ → RefItems A → RefItems A
  swap this other s =
      if other == this then s else record s { links = Heads.swap rt this other s.links }

  unfoldable pub append : ℕ → ℕ → RefItems A → Bool × RefItems A
  append this other s =
      let (ok, links) = Heads.append rt this other s.links in (ok, record s { links = links })

  unfoldable pub pop_front : ℕ → RefItems A → Option (ℕ × RefItems A)
  pop_front l s =
      if rt.is_list_empty s.links l
      then some (0, s)
      else let (item, links) = rt.remove_head_list s.links l in
        (hold item (record s { links = clear_entry item links }) >>= λ v.
        let_go item v.1 >>= λ s'. some (v.0, s'))

  -- `push_back(v)` and `push_front(v)`, where `got` is what `new` gives and `check_valid` that of the
  -- elements' type.
  module _ (check_valid : A → Bool) where
    unfoldable pub push_back : ℕ → Option ℕ → A → RefItems A → Option (ℕ × RefItems A)
    push_back l none v s = some (0, s)
    push_back l (some item) v s =
        let made = create item v s in
        if not (check_valid v)
        then (let_go item made >>= λ s'. some (0, s'))
        else hold item (record made { links = rt.insert_tail_list s.links l item })

    unfoldable pub push_front : ℕ → Option ℕ → A → RefItems A → Option (ℕ × RefItems A)
    push_front l none v s = some (0, s)
    push_front l (some item) v s =
        let made = create item v s in
        if not (check_valid v)
        then (let_go item made >>= λ s'. some (0, s'))
        else hold item (record made { links = rt.insert_head_list s.links l item })

-- `iterator`: `_current` and the `_ptr` of `value`; `_head` is the list's, and is passed along.
pub record Iterator : Type 0 where
  pub current : ℕ
  pub value : ℕ

-- `_head == _current ? nullptr : CONTAINING_RECORD(_current, …)`
abbrev pub item_at : ℕ → ℕ → ℕ
item_at head current = if head == current then 0 else current

module _ {A : Type 0} where
  unfoldable pub iterator : ℕ → ℕ → RefItems A → Option (Iterator × RefItems A)
  iterator head c s = hold (item_at head c) s >>= λ temp.
      RefHolder.assign_move false 0 temp.0 temp.1.objects >>= λ r.
      some (record { current = c; value = r.0 }, record temp.1 { objects = r.2 })

  unfoldable pub increment : ℕ → Iterator → RefItems A → Option (Iterator × RefItems A)
  increment head it s =
      let next = s.links.flink it.current in
      (hold (item_at head next) s >>= λ temp.
      RefHolder.assign_move false it.value temp.0 temp.1.objects >>= λ r.
      some (record { current = next; value = r.0 }, record temp.1 { objects = r.2 }))

  -- `(*it)->_v`
  unfoldable pub deref : Iterator → RefItems A → Option A
  deref it s = if s.objects.live it.value then s.value it.value else none

  unfoldable pub begin : ℕ → RefItems A → Option (Iterator × RefItems A)
  unfolding iterator
  begin l s = iterator l (s.links.flink l) s

  unfoldable pub end : ℕ → RefItems A → Option (Iterator × RefItems A)
  unfolding iterator
  end l s = iterator l l s

  -- The loop `for (; it != last; ++it)`: the elements met, and the objects when both iterators are gone.
  unfoldable pub visit : ℕ → ℕ → Iterator → Iterator → RefItems A → Option (List A × RefItems A)
  visit zero l it last s = none
  visit (suc fuel) l it last s =
      let rest = deref it s >>= λ x.
      increment l it s >>= λ r. visit fuel l r.0 last r.1 >>= λ t. some (x ∷ t.0, t.1) in
      let done = RefHolder.destroy it.value s.objects >>= λ o.
      RefHolder.destroy last.value o >>= λ o'. some ([], record s { objects = o' }) in
      if not (it.current == last.current) then rest else done

  unfoldable pub for_each : ℕ → ℕ → RefItems A → Option (List A × RefItems A)
  for_each fuel l s = begin l s >>= λ b. end l b.1 >>= λ e. visit fuel l b.0 e.0 e.1
