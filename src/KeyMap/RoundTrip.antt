-- ===== src/KeyMap/RoundTrip.antt =====
-- Calls of a `map` that undo each other.
use kl.Base.{
  ℕ, ◌+◌, ◌<◌, ◌^◌, ◌≡◌, ◌≢◌, refl, sym, subst, ap, ◌∙◌, Bool, Bool-cases, inl, inr, true, Option,
  none, some, List, ◌∷◌, ◌++◌, length, arith, if◌then◌else◌,
}
use kl.Links.{Absent}
use kl.RefHolder.Owners.{occurrences}
use kl.Keyed.Avl.{AvlRoutines}
use kl.Keyed.Sorted.{IsOrder, same_refl}
use kl.Keyed.Keeps.{at-Stored}
use kl.Keyed.Calls.{address_of, present}
use kl.Keyed.Insert.{outcome, Next}
use kl.Keyed.Insert
use kl.Keyed.{KeyType, TreeItems}
use kl.KeyMap.Laws.{MapKeeps, map_at, map_addresses, map_same, find-MapKeeps, remove-MapKeeps}
use kl.KeyMap.{Grants, first, map_ref_item, find, insert, remove}

module _ {K V Table : Type 0} (kt : KeyType K) (copy_value : Bool → V → V) (rt : AvlRoutines Table)
    (o : IsOrder kt) (temp : ℕ) (k : K) (s : TreeItems Table (K × V)) (es : List (ℕ × (K × V)))
    (held : List ℕ) (h : MapKeeps kt copy_value rt o s es held)
    (away : Absent temp (map_addresses kt copy_value rt o es)) (g : Grants) (v : V) (p temp2 : ℕ)
    (valid : kt.check_valid k ≡ true)
    (got : (g.temp_key ≡ true) × (g.node ≡ true) × (g.item ≡ some p) × (g.item_key ≡ true))
    (real : p ≢ 0) (fresh : occurrences (map_addresses kt copy_value rt o es ++ held) p ≡ 0)
    (absent : map_at kt copy_value rt o k es ≡ none) (small : length es + length held + 3 < 2 ^ 31)
    (other : temp2 ≢ p) (away2 : Absent temp2 (map_addresses kt copy_value rt o es)) where
  copied : kt.copy true k ≡ k
  copied = o.copy_got k valid

  valid_copy : kt.check_valid (kt.copy true k) ≡ true
  valid_copy = ap kt.check_valid copied ∙ valid

  -- A new key with all the memory it asks for.
  insert_new :
      (s' : TreeItems Table (K × V)) × (es' : List (ℕ × (K × V))) × (insert kt copy_value rt temp g
          k v s
        ≡ some (p, true, s'))
      × MapKeeps kt copy_value rt o s' es' (p ∷ held)
      × ((j : K)
          → map_at kt copy_value rt o j es' ≡ (
              if map_same kt copy_value rt o j k
              then some (p, (k, copy_value g.item_value v))
              else map_at kt copy_value rt o j es))
      × Next kt rt (first {V = V} kt copy_value rt) p es es'
  unfolding insert map_ref_item
  insert_new =
      let (g1, g2, g3, g4) = got in
      rw (g1, g2, g3, g4, copied)
        (Insert.insert_item-Keeps kt rt (first {V = V} kt copy_value rt) o temp k s es held h away p
          (k, copy_value g.item_value v) refl valid real fresh true none absent
          (omega (arith, small)))

  -- A new key that is put in a map is found there, with a copy of its value: after an `insert` that
  -- gets the memory it asks for, `find` gives a holder of the same item. (The temporary items are
  -- at addresses that no item has; there are fewer than 2 ^ 31 references.)
  pub find-insert :
      (s1 : TreeItems Table (K × V)) × (s2 : TreeItems Table (K × V)) × (insert kt copy_value rt
          temp g k v s
        ≡ some (p, true, s1))
      × (find kt copy_value rt temp2 true k s1 ≡ some (p, true, s2))
      × (s2.value p ≡ some (k, copy_value g.item_value v))
  find-insert =
      let (s1, es1, e1, h1, ats, next) = insert_new in
      let here : map_at kt copy_value rt o k es1 ≡ some (p, (k, copy_value g.item_value v)) =
        ats k
        ∙ ap
            (λ b.
              if b
              then some (p, (k, copy_value g.item_value v))
              else map_at kt copy_value rt o k es)
            (same_refl kt (first {V = V} kt copy_value rt) o k) in
      let (s2, e2, h2) =
        find-MapKeeps kt copy_value rt o temp2 k s1 es1 (p ∷ held) h1 (next.away temp2 other away2)
          true valid_copy (omega (arith, next.number, small)) in
      (
        s1,
        s2,
        e1,
        e2 ∙ ap (λ x. some (address_of x, true, s2)) here,
        at-Stored kt rt (first {V = V} kt copy_value rt) s2.value k es1 _ h2.stored here,
      )

  -- `remove` undoes `insert`: after an `insert` of a new key that gets the memory it asks for, and a
  -- `remove` of that key, which gives a holder of the same item and true, every key has in the map what
  -- it had at first. (The temporary items are at addresses that no item has; there are fewer than
  -- 2 ^ 31 references.)
  pub remove-insert :
      (s1 : TreeItems Table (K × V)) × (s2 : TreeItems Table (K × V)) × (es2 : List (ℕ × (K × V)))
      × (insert kt copy_value rt temp g k v s ≡ some (p, true, s1))
      × (remove kt copy_value rt temp2 true k s1 ≡ some (p, true, s2))
      × MapKeeps kt copy_value rt o s2 es2 (p ∷ p ∷ held)
      × ((j : K) → map_at kt copy_value rt o j es2 ≡ map_at kt copy_value rt o j es)
  remove-insert =
      let (s1, es1, e1, h1, ats, next) = insert_new in
      let made : Option (ℕ × (K × V)) = some (p, (k, copy_value g.item_value v)) in
      let here : map_at kt copy_value rt o k es1 ≡ made =
        ats k
        ∙ ap (λ b. if b then made else map_at kt copy_value rt o k es)
            (same_refl kt (first {V = V} kt copy_value rt) o k) in
      let (s2, es2, e2, h2, after) =
        remove-MapKeeps kt copy_value rt o temp2 k s1 es1 (p ∷ held) h1
          (next.away temp2 other away2) true valid_copy (omega (arith, next.number, small)) in
      (
        s1,
        s2,
        es2,
        e1,
        e2 ∙ ap (λ x. some (address_of x, present x, s2)) here,
        subst (λ x. MapKeeps kt copy_value rt o s2 es2 (address_of x ∷ p ∷ held)) here h2,
        λ j. elim (Bool-cases (map_same kt copy_value rt o j k)) [
          | inl is_it ↦
              let i : j ≡ k = o.total j k (ground arith) (ground arith) in
              after j
              ∙ ap (λ b. if b then none else map_at kt copy_value rt o j es1) is_it
              ∙ sym (subst (λ y. map_at kt copy_value rt o y es ≡ none) (sym i) absent)
          | inr apart ↦
              after j
              ∙ ap (λ b. if b then none else map_at kt copy_value rt o j es1) apart
              ∙ ats j
              ∙ ap (λ b. if b then made else map_at kt copy_value rt o j es) apart
        ],
      )
