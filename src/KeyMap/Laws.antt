-- ===== src/KeyMap/Laws.antt =====
-- What the calls of a `map` do to it.
use kl.Base.{
  ℕ, ◌+◌, ◌<◌, ◌^◌, ◌≡◌, ◌≢◌, refl, subst, Bool, inl, inr, true, ◌⊎◌, false, not, ◌&&◌, Option,
  none, some, List, ◌∷◌, ◌++◌, length, arith, if◌then◌else◌,
}
use kl.Links.{Absent}
use kl.RefHolder.Owners.{occurrences}
use kl.Keyed.Avl.{AvlRoutines}
use kl.Keyed.Sorted.{IsOrder, same, at, addresses}
use kl.Keyed.Keeps.{Keeps}
use kl.Keyed.Calls.{address_of, present}
use kl.Keyed.Calls
use kl.Keyed.Insert.{outcome, Next}
use kl.Keyed.Insert
use kl.Keyed.Remove
use kl.Keyed.Faults
use kl.Keyed.{KeyType, TreeItems}
use kl.KeyMap.{Grants, first, map_ref_item, find, insert, remove}

module _ {K V Table : Type 0} (kt : KeyType K) (copy_value : Bool → V → V) (rt : AvlRoutines Table)
    (o : IsOrder kt) where
  abbrev pub MapKeeps : TreeItems Table (K × V) → List (ℕ × (K × V)) → List ℕ → Type 0
  MapKeeps = Keeps kt rt (first {V = V} kt copy_value rt)

  abbrev pub map_at : K → List (ℕ × (K × V)) → Option (ℕ × (K × V))
  map_at = at kt (first {V = V} kt copy_value rt)

  abbrev pub map_addresses : List (ℕ × (K × V)) → List ℕ
  map_addresses = addresses kt (first {V = V} kt copy_value rt)

  -- Two keys are one.
  abbrev pub map_same : K → K → Bool
  map_same = same kt (first {V = V} kt copy_value rt)

  module _ (temp : ℕ) (k : K) (s : TreeItems Table (K × V)) (es : List (ℕ × (K × V)))
      (held : List ℕ) (h : MapKeeps s es held) (away : Absent temp (map_addresses es)) where
    -- `find` of a key whose copy is valid gives a holder of the item that has the key, or an empty one,
    -- and true in either case; every item still counts its references. The temporary item is at an
    -- address that no item has, and there are fewer than 2 ^ 31 references.
    pub find-MapKeeps :
        (got : Bool)
        → kt.check_valid (kt.copy got k) ≡ true
        → length es + length held + 1 < 2 ^ 31
        → let p = address_of (map_at k es) in
          (s' : TreeItems Table (K × V)) × (find kt copy_value rt temp got k s ≡ some (p, true, s'))
          × MapKeeps s' es (p ∷ held)
    unfolding find
    find-MapKeeps got valid small =
        let copied = o.copy_valid got k valid in
        let valid' = subst (λ x. kt.check_valid x ≡ true) copied valid in
        rw copied (
          Calls.find_item-Keeps kt rt (first {V = V} kt copy_value rt) o temp k s es held h away
            true valid' small)

    -- `remove` of a key whose copy is valid takes out the item that has the key and no other, and gives
    -- a holder of it and true, or an empty holder and false if there is none; every item still counts
    -- its references. The temporary item is at an address that no item has, and there are fewer than
    -- 2 ^ 31 references.
    pub remove-MapKeeps :
        (got : Bool)
        → kt.check_valid (kt.copy got k) ≡ true
        → length es + length held + 1 < 2 ^ 31
        → let x = map_at k es in
          (s' : TreeItems Table (K × V)) × (es' : List (ℕ × (K × V))) × (remove kt copy_value rt
              temp got k s
            ≡ some (address_of x, present x, s'))
          × MapKeeps s' es' (address_of x ∷ held)
          × ((j : K) → map_at j es' ≡ (if map_same j k then none else map_at j es))
    unfolding remove
    remove-MapKeeps got valid small =
        let copied = o.copy_valid got k valid in
        let valid' = subst (λ x. kt.check_valid x ≡ true) copied valid in
        rw copied (
          Remove.remove_item-Keeps kt rt (first {V = V} kt copy_value rt) o temp k s es held h away
            valid' small)

    module _ (g : Grants) (v : V) (valid : kt.check_valid (kt.copy g.temp_key k) ≡ true) where
      -- `insert` when the copies of the key are valid and `new` gives a block, at an address that is not
      -- null and that no item and no holder has: a key that is in the map keeps its item, whose holder is
      -- given with false; a new one gets the new item, whose holder is given with true, if the table
      -- gets its block, and else the map is as it was, and an empty holder is given with false. No
      -- other key is touched, and every item counts its references. The temporary item is at an address
      -- that no item has, and there are fewer than 2 ^ 31 references.
      pub insert-MapKeeps :
          (p : ℕ)
          → g.item ≡ some p
          → kt.check_valid (kt.copy g.item_key k) ≡ true
          → p ≢ 0
          → occurrences (map_addresses es ++ held) p ≡ 0
          → length es + length held + 1 < 2 ^ 31
          → let x = map_at k es in
            let y =
              outcome kt rt
                (first {V = V} kt copy_value rt)
                x
                g.node
                (p, (k, copy_value g.item_value v)) in
            (s' : TreeItems Table (K × V)) × (es' : List (ℕ × (K × V))) × (insert kt copy_value rt
                temp g k v s
              ≡ some (address_of y, not (present x) && g.node, s'))
            × MapKeeps s' es' (address_of y ∷ held)
            × ((j : K) → map_at j es' ≡ (if map_same j k then y else map_at j es))
            × Next kt rt (first {V = V} kt copy_value rt) p es es'
      unfolding insert map_ref_item
      insert-MapKeeps p item valid_item real fresh small =
          let copied = o.copy_valid g.temp_key k valid in
          let valid' = subst (λ x. kt.check_valid x ≡ true) copied valid in
          rw (copied, item, o.copy_valid g.item_key k valid_item)
            (Insert.insert_item-Keeps kt rt (first {V = V} kt copy_value rt) o temp k s es held h
              away p (k, copy_value g.item_value v) refl valid' real fresh g.node (map_at k es) refl
              small)

      -- `insert` of a new key, whose first copy is valid, when the table gets its block but `new` gives
      -- none, or the item's copy of the key is not valid: a pointer that is null, or an item that is
      -- deleted, is read. (A block that `new` gives is not null, not the temporary item, and not one
      -- that an item or a holder has.)
      pub insert_faults :
          map_at k es ≡ none
          → g.node ≡ true
          → (g.item ≡ none) ⊎ (kt.check_valid (kt.copy g.item_key k) ≡ false)
          → ((p : ℕ)
              → g.item ≡ some p
              → (p ≢ 0) × (p ≢ temp) × (occurrences (map_addresses es ++ held) p ≡ 0))
          → insert kt copy_value rt temp g k v s ≡ none
      unfolding insert map_ref_item
      insert_faults absent node bad fresh =
          let copied = o.copy_valid g.temp_key k valid in
          let valid' = subst (λ x. kt.check_valid x ≡ true) copied valid in
          elim (Calls.Option-cases g.item) [
            | inl no_item ↦
                rw (copied, node, no_item)
                  (Faults.insert_no_item kt rt (first {V = V} kt copy_value rt) o temp k s es held h
                    away valid' absent)
            | inr (p, item) ↦
                let (real, other, free) = fresh p item in
                let bad' : kt.check_valid (kt.copy g.item_key k) ≡ false = ground (arith, bad) in
                rw (copied, node, item)
                  (Faults.insert_bad_item kt rt (first {V = V} kt copy_value rt) o temp k s es held
                    h away p (kt.copy g.item_key k, copy_value g.item_value v) real other free
                    valid' bad' absent)
          ]
