-- ===== src/Vector/Insert.antt =====
-- `push_back` and `insert` put one element into the list.
use kl.Base.{
  ℕ, ◌-◌, ◌*◌, ◌^◌, ◌≤◌, ◌<◌, ◌≡◌, ◌⊎◌, ◌∙◌, refl, ap, sym, subst, Bool, inl, inr, false, Option,
  some, List, arith,
}
use kl.Base.{if◌then◌else◌, ltb, mul32, get_elem?}
use native.Mathlib.Decide.{ℕ_discrete}
use kl.Vector.{Vector, Ref, outside, own, next_capacity, grown_capacity, push_back, insert}
use kl.Vector.Inv.{IsValid, items, IsPool}
use kl.Vector.Placed.{Placed, Full, push_back_room, push_back-Full, insert_room, insert-Full}
use kl.Vector.Own.{
  taken, own_read, own_moved, push_back-own, insert-own, push_back-own-Full, insert-own-Full,
}

module _ {A : Type 0} (v : Vector A) where
  -- What `insert` at `pos` does in a vector with room, and in one whose block is full.
  abbrev pub Inserted : (ℕ → Option (List A)) → ℕ → Ref A → ℕ → Option (Bool × Vector A) → Type 0
  Inserted pool width value pos run =
      ((v.size < v.capacity) × (x : A) × (taken v value pos ≡ some x) × Placed v x false pos run)
      ⊎ ((v.size ≡ v.capacity)
          × Full v value pos (pool (mul32 (next_capacity v.capacity) width)) run)

module _ {A : Type 0} (pool : ℕ → Option (List A)) (width : ℕ) (v : Vector A)
    (law : IsPool pool width) (ok : IsValid v) (positive : 0 < width)
    (grown : v.size ≡ v.capacity → grown_capacity v.capacity * width < 2 ^ 32) where
  abbrev Outcome : Ref A → ℕ → Option (Bool × Vector A) → Type 0
  Outcome value pos run = Inserted v pool width value pos run

  -- `push_back` puts an element in behind all others, under the same conditions as `insert`.
  pub push_back-Inserted :
      (value : Ref A)
      → ((i : ℕ) → value ≡ own i → i < v.size)
      → Outcome value v.size (push_back pool width v value)
  push_back-Inserted (outside x) inside = elim (ℕ_discrete v.size v.capacity) [
    | yes full ↦ inr (
      full,
      push_back-Full pool width v law ok positive grown x full
          (pool (mul32 (next_capacity v.capacity) width)) refl,
    )
    | no less ↦
        let room : v.size < v.capacity = omega (arith, ok.filled) in
        inl (room, x, refl, push_back_room pool width v law ok positive grown x room)
  ]
  push_back-Inserted (own i) inside = elim (ℕ_discrete v.size v.capacity) [
    | yes full ↦ inr (
      full,
      push_back-own-Full pool width v law ok positive grown i (inside i refl) full
          (pool (mul32 (next_capacity v.capacity) width)) refl,
    )
    | no less ↦
        let room : v.size < v.capacity = omega (arith, ok.filled) in
        let (x, at_item, at_cell) = own_read v ok i (inside i refl) in
        let front : (if ltb v.size i then i - 1 else i) ≡ i = ground (arith, inside i refl) in
        inl (
          room,
          x,
          ap (get_elem? (items v)) front ∙ at_item,
          subst (Placed v x false v.size)
              (sym (push_back-own pool width v law ok positive grown i x room at_cell))
              (push_back_room pool width v law ok positive grown x room),
        )
  ]

  insert_outcome :
      (value : Ref A)
      → ((i : ℕ) → value ≡ own i → i < v.size)
      → (pos : ℕ) → pos < v.size
      → Outcome value pos (insert pool width v pos value)
  insert_outcome (outside x) inside pos before = elim (ℕ_discrete v.size v.capacity) [
    | yes full ↦ inr (
      full,
      insert-Full pool width v law ok positive grown x pos before full
          (pool (mul32 (next_capacity v.capacity) width)) refl,
    )
    | no less ↦
        let room : v.size < v.capacity = omega (arith, ok.filled) in
        inl (room, x, refl, insert_room pool width v law ok positive grown x pos before room)
  ]
  insert_outcome (own i) inside pos before = elim (ℕ_discrete v.size v.capacity) [
    | yes full ↦ inr (
      full,
      insert-own-Full pool width v law ok positive grown i pos (inside i refl) before full
          (pool (mul32 (next_capacity v.capacity) width)) refl,
    )
    | no less ↦
        let room : v.size < v.capacity = omega (arith, ok.filled) in
        let (x, at_item, at_cell) =
          own_moved v ok i pos (inside i refl) (omega (arith, before)) room in
        inl (
          room,
          x,
          at_item,
          subst (Placed v x false pos)
              (sym (insert-own pool width v law ok positive grown i pos x before room at_cell))
              (insert_room pool width v law ok positive grown x pos before room),
        )
  ]

  -- `insert` at an index up to the size of a valid vector, where the bytes of the next block do not
  -- wrap if the block is full, of an element elsewhere or of one of its own. With room it never
  -- leaves the block, says false and gives a valid vector, with the element in the list at that
  -- index; of the own elements behind the index it puts in the one before the one asked for. In a
  -- full block an element from elsewhere is put in, in a new block, and the result is true; an own
  -- one is read after its block was freed. Where the pool has no block for it, the result is false
  -- and nothing changes.
  pub insert-Inserted :
      (value : Ref A)
      → ((i : ℕ) → value ≡ own i → i < v.size)
      → (pos : ℕ) → pos ≤ v.size
      → Inserted v pool width value pos (insert pool width v pos value)
  insert-Inserted value inside pos within = elim (ℕ_discrete pos v.size) [
    | yes e ↦ subst (λ p. Outcome value p (insert pool width v p value)) (sym e) at_end
    | no ne ↦ insert_outcome value inside pos (omega (arith, within))
  ]
    where
      same : insert pool width v v.size value ≡ push_back pool width v value
      same = unfold insert in ground arith

      at_end : Outcome value v.size (insert pool width v v.size value)
      at_end = subst (Outcome value v.size) (sym same) (push_back-Inserted value inside)
