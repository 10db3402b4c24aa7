-- ===== src/Vector/Own.antt =====
-- `push_back` and `insert` of an element of the vector itself.
use kl.Base.{
  ℕ, ◌+◌, ◌-◌, ◌*◌, ◌^◌, ◌≤◌, ◌<◌, ◌≡◌, ◌∙◌, refl, ap, sym, Option, none, some, List, arith,
}
use kl.Base.{
  if◌then◌else◌, ltb, lt→ltb, ◌>>=◌, mul32, get_elem?, get_or, get_elem?-get_or, get_elem?-some,
  get_elem?-take, copied, copy_block-some, length-copied, get_or-copied,
}
use kl.Vector.{
  Vector, Ref, outside, own, block, next_capacity, grown_capacity, push_back, insert, regrow,
  store_ref, store_moved,
}
use kl.Vector.Inv.{IsValid, items, length-items, IsPool}
use kl.Vector.Grow.{placed_new, placed_end, next_capacity-fits}
use kl.Vector.Placed.{Full, facts, no_room, capacity_met, size_met, inner, length-new}

module _ {A : Type 0} (v : Vector A) where
  -- The element that is constructed in a block with room: of the own ones behind index `pos` the one
  -- before, since they have moved up by one.
  abbrev pub taken : Ref A → ℕ → Option A
  taken (outside x) pos = some x
  taken (own i) pos = get_elem? (items v) (if ltb pos i then i - 1 else i)

module _ {A : Type 0} (v : Vector A) (ok : IsValid v) where
  pub own_read :
      (j : ℕ)
      → j < v.size
      → (x : A) × (get_elem? (items v) j ≡ some x) × (get_elem? (block v) j ≡ some x)
  own_read j here =
      let (x, e) = get_elem?-some (items v) j (omega (arith, here, length-items v ok)) in
      (x, e, sym (get_elem?-take v.size (block v) j here) ∙ e)

  -- The block after the elements from index `pos` on have moved up.
  abbrev moved : ℕ → List A
  moved pos = copied (block v) (pos + 1) (block v) pos (v.size - pos)

  pub own_moved :
      (i pos : ℕ)
      → i < v.size
      → pos ≤ v.size
      → v.size < v.capacity
      → (x : A) × (taken v (own i) pos ≡ some x) × (get_elem? (moved pos) i ≡ some x)
  own_moved i pos here within room =
      let (x, at_item, at_cell) =
        own_read (if ltb pos i then i - 1 else i) (ground (arith, here)) in
      let (filled, inside, word) = facts v ok in
      let len =
        length-copied (block v) (pos + 1) (block v) pos (v.size - pos)
          (omega (arith, within, room, inside)) (omega (arith, within, filled, inside)) in
      let cell =
        get_or-copied (block v) (pos + 1) (block v) pos (v.size - pos) i x
          (omega (arith, within, room, inside)) (omega (arith, within, filled, inside)) in
      let read = get_elem?-get_or (moved pos) i x (omega (arith, here, filled, inside, len)) in
      let whole =
        get_elem?-get_or (block v) (if ltb pos i then i - 1 else i) x
          (ground (arith, here, filled, inside)) in
      let same : get_or (moved pos) i x ≡ get_or (block v) (if ltb pos i then i - 1 else i) x =
        ground (arith, cell, here) in
      (x, at_item, read ∙ ap some same ∙ sym whole ∙ at_cell)

module _ {A : Type 0} (pool : ℕ → Option (List A)) (width : ℕ) (v : Vector A)
    (law : IsPool pool width) (ok : IsValid v) (positive : 0 < width)
    (grown : v.size ≡ v.capacity → grown_capacity v.capacity * width < 2 ^ 32) where
  pub push_back-own :
      (i : ℕ) (x : A)
      → v.size < v.capacity
      → get_elem? (block v) i ≡ some x
      → push_back pool width v (own i) ≡ push_back pool width v (outside x)
  unfolding push_back store_ref
  push_back-own i x room cell = rw (lt→ltb v.size v.capacity room, cell, ◌>>=◌) refl

  pub insert-own :
      (i pos : ℕ) (x : A)
      → pos < v.size
      → v.size < v.capacity
      → get_elem? (moved v ok pos) i ≡ some x
      → insert pool width v pos (own i) ≡ insert pool width v pos (outside x)
  unfolding insert store_ref
  insert-own i pos x before room cell =
      let (filled, inside, word) = facts v ok in
      let run =
        copy_block-some (block v) (pos + 1) (block v) pos (v.size - pos)
          (omega (arith, before, room, inside)) (omega (arith, before, filled, inside)) in
      let (at, end) = inner v ok pos before in
      rw (at, end, lt→ltb v.size v.capacity room, run, ◌>>=◌, cell) refl

  pub push_back-own-Full :
      (i : ℕ)
      → i < v.size
      → v.size ≡ v.capacity
      → (got : Option (List A)) → pool (mul32 (next_capacity v.capacity) width) ≡ got
      → Full v (own i) v.size got (push_back pool width v (own i))
  unfolding push_back store_moved
  push_back-own-Full i here full none e = rw (no_room v ok full, capacity_met v ok full, e) refl
  push_back-own-Full i here full (some b) e =
      let (x, at_item, at_cell) = own_read v ok i here in
      let (filled, inside, word) = facts v ok in
      let (more, top, bytes) = next_capacity-fits v.capacity width positive (grown full) in
      let len = length-new pool width v law ok positive grown full b e in
      let (b1, b2, run1, run2, same, text) =
        placed_end x b (block v) v.size (omega (arith, filled, inside))
          (omega (arith, full, len, more)) in
      rw (no_room v ok full, capacity_met v ok full, e, run1, ◌>>=◌) refl

  pub insert-own-Full :
      (i pos : ℕ)
      → i < v.size
      → pos < v.size
      → v.size ≡ v.capacity
      → (got : Option (List A)) → pool (mul32 (next_capacity v.capacity) width) ≡ got
      → Full v (own i) pos got (insert pool width v pos (own i))
  unfolding insert regrow store_moved
  insert-own-Full i pos here before full none e =
      let (at, end) = inner v ok pos before in
      rw (at, end, no_room v ok full, size_met v ok full, insert, e, regrow) refl
  insert-own-Full i pos here before full (some b) e =
      let (x, at_item, at_cell) = own_read v ok i here in
      let (filled, inside, word) = facts v ok in
      let (more, top, bytes) = next_capacity-fits v.capacity width positive (grown full) in
      let len = length-new pool width v law ok positive grown full b e in
      let (b1, b2, b3, run1, run2, run3, same, text) =
        placed_new x b (block v) pos v.size (omega (arith, before)) (omega (arith, filled, inside))
          (omega (arith, full, len, more)) in
      let (at, end) = inner v ok pos before in
      rw (at, end, no_room v ok full, size_met v ok full, insert, e, regrow, run1, ◌>>=◌, run2) refl
