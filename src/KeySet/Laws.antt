-- ===== src/KeySet/Laws.antt =====
-- What the calls of a `set` do to it.
use kl.Base.{
  ℕ, ◌+◌, ◌<◌, ◌^◌, ◌≡◌, ◌≢◌, refl, subst, Bool, inl, inr, true, ◌⊎◌, false, not, ◌&&◌, Option,
  none, some, List, ◌∷◌, ◌++◌, length, arith, if◌then◌else◌,
}
use kl.Links.{Absent}
use kl.RefHolder.Owners.{occurrences}
use kl.Keyed.Avl.{AvlRoutines}
use kl.Keyed.Sorted.{IsOrder, same, at, addresses}
use kl.Keyed.Keeps.{Keeps}
use kl.Keyed.Calls.{address_of, present}
use kl.Keyed.Calls
use kl.Keyed.Insert.{outcome, Next}
use kl.Keyed.Insert
use kl.Keyed.Remove
use kl.Keyed.Faults
use kl.Keyed.{KeyType, TreeItems}
use kl.KeySet.{Grants, first, set_ref_item, find, insert, remove}

module _ {K Table : Type 0} (kt : KeyType K) (rt : AvlRoutines Table) (o : IsOrder kt) where
  abbrev pub SetKeeps : TreeItems Table K → List (ℕ × K) → List ℕ → Type 0
  SetKeeps = Keeps kt rt (first kt rt)

  abbrev pub set_at : K → List (ℕ × K) → Option (ℕ × K)
  set_at = at kt (first kt rt)

  abbrev pub set_addresses : List (ℕ × K) → List ℕ
  set_addresses = addresses kt (first kt rt)

  -- Two keys are one.
  abbrev pub set_same : K → K → Bool
  set_same = same kt (first kt rt)

  module _ (temp : ℕ) (k : K) (s : TreeItems Table K) (es : List (ℕ × K)) (held : List ℕ)
      (h : SetKeeps s es held) (away : Absent temp (set_addresses es)) where
    -- `find` of a key whose copy is valid gives a holder of the item that has the key, or an empty one,
    -- and false in either case; every item still counts its references. The temporary item is at an
    -- address that no item has, and there are fewer than 2 ^ 31 references.
    pub find-SetKeeps :
        (got : Bool)
        → kt.check_valid (kt.copy got k) ≡ true
        → length es + length held + 1 < 2 ^ 31
        → let p = address_of (set_at k es) in
          (s' : TreeItems Table K) × (find kt rt temp got k s ≡ some (p, false, s'))
          × SetKeeps s' es (p ∷ held)
    unfolding find
    find-SetKeeps got valid small =
        let copied = o.copy_valid got k valid in
        let valid' = subst (λ x. kt.check_valid x ≡ true) copied valid in
        rw copied
          (Calls.find_item-Keeps kt rt (first kt rt) o temp k s es held h away false valid' small)

    -- `remove` of a key whose copy is valid takes out the item that has the key and no other, and gives
    -- a holder of it and true, or an empty holder and false if there is none; every item still counts
    -- its references. The temporary item is at an address that no item has, and there are fewer than
    -- 2 ^ 31 references.
    pub remove-SetKeeps :
        (got : Bool)
        → kt.check_valid (kt.copy got k) ≡ true
        → length es + length held + 1 < 2 ^ 31
        → let x = set_at k es in
          (s' : TreeItems Table K) × (es' : List (ℕ × K)) × (remove kt rt temp got k s
            ≡ some (address_of x, present x, s'))
          × SetKeeps s' es' (address_of x ∷ held)
          × ((j : K) → set_at j es' ≡ (if set_same j k then none else set_at j es))
    unfolding remove
    remove-SetKeeps got valid small =
        let copied = o.copy_valid got k valid in
        let valid' = subst (λ x. kt.check_valid x ≡ true) copied valid in
        rw copied
          (Remove.remove_item-Keeps kt rt (first kt rt) o temp k s es held h away valid' small)

    module _ (g : Grants) (valid : kt.check_valid (kt.copy g.temp_key k) ≡ true) where
      -- `insert` when the copies of the key are valid and `new` gives a block, at an address that is not
      -- null and that no item and no holder has: a key that is in the set keeps its item, whose holder is
      -- given with false; a new one gets the new item, whose holder is given with true, if the table
      -- gets its block, and else the set is as it was, and an empty holder is given with false. No
      -- other key is touched, and every item counts its references. The temporary item is at an address
      -- that no item has, and there are fewer than 2 ^ 31 references.
      pub insert-SetKeeps :
          (p : ℕ)
          → g.item ≡ some p
          → kt.check_valid (kt.copy g.item_key k) ≡ true
          → p ≢ 0
          → occurrences (set_addresses es ++ held) p ≡ 0
          → length es + length held + 1 < 2 ^ 31
          → let x = set_at k es in
            let y = outcome kt rt (first kt rt) x g.node (p, k) in
            (s' : TreeItems Table K) × (es' : List (ℕ × K)) × (insert kt rt temp g k s
              ≡ some (address_of y, not (present x) && g.node, s'))
            × SetKeeps s' es' (address_of y ∷ held)
            × ((j : K) → set_at j es' ≡ (if set_same j k then y else set_at j es))
            × Next kt rt (first kt rt) p es es'
      unfolding insert set_ref_item
      insert-SetKeeps p item valid_item real fresh small =
          let copied = o.copy_valid g.temp_key k valid in
          let valid' = subst (λ x. kt.check_valid x ≡ true) copied valid in
          rw (copied, item, o.copy_valid g.item_key k valid_item)
            (Insert.insert_item-Keeps kt rt (first kt rt) o temp k s es held h away p k refl valid'
              real fresh g.node (set_at k es) refl small)

      -- `insert` of a new key, whose first copy is valid, when the table gets its block but `new` gives
      -- none, or the item's copy of the key is not valid: a pointer that is null, or an item that is
      -- deleted, is read. (A block that `new` gives is not null, not the temporary item, and not one
      -- that an item or a holder has.)
      pub insert_set_faults :
          set_at k es ≡ none
          → g.node ≡ true
          → (g.item ≡ none) ⊎ (kt.check_valid (kt.copy g.item_key k) ≡ false)
          → ((p : ℕ)
              → g.item ≡ some p
              → (p ≢ 0) × (p ≢ temp) × (occurrences (set_addresses es ++ held) p ≡ 0))
          → insert kt rt temp g k s ≡ none
      unfolding insert set_ref_item
      insert_set_faults absent node bad fresh =
          let copied = o.copy_valid g.temp_key k valid in
          let valid' = subst (λ x. kt.check_valid x ≡ true) copied valid in
          elim (Calls.Option-cases g.item) [
            | inl no_item ↦
                rw (copied, node, no_item)
                  (Faults.insert_no_item kt rt (first kt rt) o temp k s es held h away valid'
                    absent)
            | inr (p, item) ↦
                let (real, other, free) = fresh p item in
                let bad' : kt.check_valid (kt.copy g.item_key k) ≡ false = ground (arith, bad) in
                rw (copied, node, item)
                  (Faults.insert_bad_item kt rt (first kt rt) o temp k s es held h away p
                    (kt.copy g.item_key k) real other free valid' bad' absent)
          ]
