-- ===== src/Keyed/Remove.antt =====
-- `remove` of a `set` or a `map`.
use kl.Base.{
  ℕ, ◌+◌, ◌<◌, ◌^◌, ◌≡◌, ◌≢◌, refl, sym, subst, ap, ◌∙◌, Bool-cases, inl, inr, true, false, Option,
  none, some, List, [], ◌∷◌, ◌++◌, length, arith, ◌==◌, ◌>>=◌, if◌then◌else◌,
}
use kl.Links.{Absent}
use kl.RefHolder.Counts.{Counts-same, one}
use kl.RefHolder.Owners.{occurrences}
use kl.Keyed.Avl.{AvlRoutines}
use kl.Keyed.Sorted.{
  IsOrder, same, addresses, addresses-append, at, at-Above, at-Below, at-middle, Sorted,
  Sorted-remove, Spot, Below, place_some, at-same,
}
use kl.Keyed.Keeps.{Stored, Keeps, Spot-Between}
use kl.Keyed.Calls.{
  pointer, address_of, present, reads, lookup-at, hold-Keeps, let_go-Counts, item_of-pointer,
  at-occurs,
}
use kl.Keyed.{KeyType, TreeItems, compare, delete_found, remove_item}

module _ {K A Table : Type 0} (kt : KeyType K) (rt : AvlRoutines Table) (key : A → K) where
  pub Stored-remove :
      (v : ℕ → Option A) (ls : List (ℕ × A)) (e : ℕ × A) (rs : List (ℕ × A))
      → Stored kt rt key v (ls ++ e ∷ rs)
      → Stored kt rt key v (ls ++ rs)
  Stored-remove v [] e rs h = h.1
  Stored-remove v (l ∷ ls) e rs h = (h.0, Stored-remove v ls e rs h.1)

  pub Absent-remove :
      (p : ℕ) (ls : List (ℕ × A)) (e : ℕ × A) (rs : List (ℕ × A))
      → Absent p (addresses kt key (ls ++ e ∷ rs))
      → (p ≢ e.0) × Absent p (addresses kt key (ls ++ rs))
  Absent-remove p [] e rs h = h
  Absent-remove p (l ∷ ls) e rs h = let (a, b) = Absent-remove p ls e rs h.1 in (a, (h.0, b))

  pub occurrences-middle :
      (ls : List (ℕ × A)) (e : ℕ × A) (rs : List (ℕ × A)) (held : List ℕ) (q : ℕ)
      → occurrences (addresses kt key (ls ++ e ∷ rs) ++ held) q
        ≡ occurrences (addresses kt key (ls ++ rs) ++ held) q + one (q == e.0)
  occurrences-middle [] e rs held q = refl
  occurrences-middle (l ∷ ls) e rs held q = omega (arith, occurrences-middle ls e rs held q)

  module _ (o : IsOrder kt) where
    -- The items without that of one key.
    pub at-removed :
        (k j : K) (es : List (ℕ × A)) (e : ℕ × A) (ls rs : List (ℕ × A))
        → Spot kt key k es e ls rs
        → at kt key j (ls ++ rs) ≡ (if same kt key j k then none else at kt key j es)
    at-removed k j es e ls rs g = elim (Bool-cases (same kt key j k)) [
      | inl is_it ↦
          let i : j ≡ k = o.total j k (ground arith) (ground arith) in
          rw is_it (
            subst (λ y. at kt key y (ls ++ rs) ≡ none) (sym i)
              (at-Below kt key o k ls rs g.below ∙ at-Above kt key o k rs g.above))
      | inr other ↦
          let below = subst (λ y. Below kt key y ls) (sym g.is_key) g.below in
          let middle = at-middle kt key o j ls e rs below in
          rw other (
            sym (
              ap (at kt key j) g.parts
              ∙ middle
              ∙ ap (λ b. if b then some e else at kt key j (ls ++ rs))
                  (ap (same kt key j) g.is_key ∙ other)))
    ]

    module _ (temp : ℕ) (k : K) (s : TreeItems Table A) (es : List (ℕ × A)) (held : List ℕ)
        (h : Keeps kt rt key s es held) (away : Absent temp (addresses kt key es)) where
      -- The item of a key, to which a holder refers, is taken out of the table.
      delete_found-Keeps :
          (e : ℕ × A) (rest : List ℕ)
          → at kt key k es ≡ some e
          → held ≡ e.0 ∷ rest
          → (s' : TreeItems Table A) × (es' : List (ℕ × A)) × (delete_found kt rt key temp k
                (some e.0)
                s
              ≡ some (true, s'))
            × Keeps kt rt key s' es' held
            × ((j : K) → at kt key j es' ≡ (if same kt key j k then none else at kt key j es))
      unfolding delete_found
      delete_found-Keeps e rest there owner =
          let (ls, rs, g) = place_some kt key o k es e h.sorted there in
          let all = reads kt rt key o temp k s es held h away in
          let (b, equal) = Spot-Between kt rt key temp k s o es e ls rs g all in
          let order =
            h.elements ∙ ap (addresses kt key) g.parts ∙ addresses-append kt key ls (e ∷ rs) in
          let (t, gone, elements) =
            rt.delete_present (compare kt rt key temp k s) s.table temp e.0 (addresses kt key ls)
              (addresses kt key rs) order b equal in
          let real =
            Absent-remove 0 ls e rs (subst (λ x. Absent 0 (addresses kt key x)) g.parts h.real) in
          let not_null : (e.0 == 0) ≡ false = ground (arith, real.0) in
          let (c, dropped, counts) =
            let_go-Counts kt rt key o (record s { table = t })
              (occurrences (addresses kt key (ls ++ rs) ++ held)) e.0
              (Counts-same s.objects _ _
                (λ q z. sym (
                  ap (λ x. occurrences (addresses kt key x ++ held) q) g.parts
                  ∙ occurrences-middle ls e rs held q))
                h.counts)
              (λ z. real.0 (sym z)) in
          (
            record s { table = t; objects = c },
            ls ++ rs,
            rw (gone, ◌>>=◌, not_null, dropped, ◌>>=◌) refl,
            record {
              elements = elements ∙ sym (addresses-append kt key ls rs);
              sorted = Sorted-remove kt key o ls e rs (subst (Sorted kt key) g.parts h.sorted);
              stored =
                  Stored-remove s.value ls e rs (subst (Stored kt rt key s.value) g.parts h.stored);
              real = real.1;
              counts = counts;
            },
            λ j. at-removed k j es e ls rs g,
          )

      delete_pointer-Keeps :
          (x : Option (ℕ × A)) (rest : List ℕ)
          → at kt key k es ≡ x
          → held ≡ address_of x ∷ rest
          → (s' : TreeItems Table A) × (es' : List (ℕ × A)) × (delete_found kt rt key temp k
                (pointer x)
                s
              ≡ some (present x, s'))
            × Keeps kt rt key s' es' held
            × ((j : K) → at kt key j es' ≡ (if same kt key j k then none else at kt key j es))
      unfolding delete_found
      delete_pointer-Keeps none rest absent owner =
          (s, es, refl, h, λ j. at-same kt key o k j es none absent)
      delete_pointer-Keeps (some e) rest there owner = delete_found-Keeps e rest there owner

    module _ (temp : ℕ) (k : K) (s : TreeItems Table A) (es : List (ℕ × A)) (held : List ℕ)
        (h : Keeps kt rt key s es held) (away : Absent temp (addresses kt key es)) where
      -- `remove` takes out the item that has the key, and gives a holder of it and true; without such
      -- an item it gives an empty holder and false.
      pub remove_item-Keeps :
          kt.check_valid k ≡ true
          → length es + length held + 1 < 2 ^ 31
          → let x = at kt key k es in
            (s' : TreeItems Table A) × (es' : List (ℕ × A)) × (remove_item kt rt key temp k s
              ≡ some (address_of x, present x, s'))
            × Keeps kt rt key s' es' (address_of x ∷ held)
            × ((j : K) → at kt key j es' ≡ (if same kt key j k then none else at kt key j es))
      unfolding remove_item
      remove_item-Keeps valid small =
          let x = at kt key k es in
          let (c, e, keeps) =
            hold-Keeps kt rt key o temp k s es held h away (address_of x)
              (at-occurs kt rt key o k es) small in
          let (s', es', gone, after, ats) =
            delete_pointer-Keeps temp k (record s { objects = c }) es (address_of x ∷ held) keeps
              away x held refl refl in
          (
            s',
            es',
            rw
                (
                  valid,
                  lookup-at kt rt key o temp k s es held h away,
                  ◌>>=◌,
                  item_of-pointer kt rt key o x,
                  e,
                  ◌>>=◌,
                  gone,
                  ◌>>=◌,
                )
                refl,
            after,
            ats,
          )
