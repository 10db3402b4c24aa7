-- ===== src/Keyed/Keeps.antt =====
-- What a `set` or a `map` keeps: its items in the order of their keys, and every item's count of the
-- references to it.
use kl.Base.{
  ℕ, ◌<◌, ◌≢◌, ◌≡◌, refl, sym, subst, ◌∙◌, true, false, Bool-cases, inl, inr, Option, none, some,
  List, [], ◌∷◌, ◌++◌, arith, ◌>>=◌,
}
use kl.Links.{Absent, update}
use kl.RefHolder.Counts.{Counts}
use kl.RefHolder.Owners.{occurrences}
use kl.Uint64Table.Avl.{generic_less_than, generic_greater_than, generic_equal}
use kl.Keyed.Avl.{AvlRoutines, Each, Between}
use kl.Keyed.Sorted.{IsOrder, same, at, addresses, Below, Above, Sorted, Gap, Spot}
use kl.Keyed.{KeyType, TreeItems, key_at, compare_keys, compare}

pub Absent-append_left : (p : ℕ) (xs ys : List ℕ) → Absent p (xs ++ ys) → Absent p xs
Absent-append_left p [] ys h = tt
Absent-append_left p (x ∷ xs) ys h = (h.0, Absent-append_left p xs ys h.1)

module _ {K A Table : Type 0} (kt : KeyType K) (rt : AvlRoutines Table) (key : A → K) where
  -- The items stand at their addresses.
  abbrev pub Stored : (ℕ → Option A) → List (ℕ × A) → Type 0
  Stored v [] = Unit {0}
  Stored v (e ∷ es) = (v e.0 ≡ some e.1) × Stored v es

  pub Stored-update :
      (v : ℕ → Option A) (p : ℕ) (x : Option A) (es : List (ℕ × A))
      → Absent p (addresses kt key es)
      → Stored v es
      → Stored (update v p x) es
  Stored-update v p x [] n h = tt
  Stored-update v p x (e ∷ es) n h = (ground (arith, n.0, h.0), Stored-update v p x es n.1 h.1)

  -- The table has the items `es`; each item there is has one reference for each place in `es` and one
  -- for each in `held`, the holders outside the table.
  pub record Keeps (s : TreeItems Table A) (es : List (ℕ × A)) (held : List ℕ) : Type 0 where
    pub elements : rt.elements s.table ≡ addresses kt key es
    pub sorted : Sorted kt key es
    pub stored : Stored s.value es
    pub real : Absent 0 (addresses kt key es)
    pub counts : Counts s.objects (occurrences (addresses kt key es ++ held))

  -- What `Compare` reads of the items is their key.
  abbrev pub Reads : ℕ → K → TreeItems Table A → List (ℕ × A) → Type 0
  Reads temp first s [] = Unit {0}
  Reads temp first s (e ∷ es) =
      (key_at kt rt key temp first s e.0 ≡ some (key e.1)) × Reads temp first s es

  pub Reads-Counts :
      (temp : ℕ) (first : K) (s : TreeItems Table A) (n : ℕ → ℕ) (es : List (ℕ × A))
      → Counts s.objects n
      → ((p : ℕ) → 0 < occurrences (addresses kt key es) p → 0 < n p)
      → Stored s.value es
      → Absent 0 (addresses kt key es)
      → Absent temp (addresses kt key es)
      → Reads temp first s es
  Reads-Counts temp first s n [] h m v z a = tt
  Reads-Counts temp first s n ((p, a) ∷ es) h m v z t =
      let live : s.objects.live p ≡ true =
        ground (arith, h.live p (λ q. z.0 (sym q)), m p (ground arith)) in
      (
        ground (arith, live, v.0, t.0),
        Reads-Counts temp first s n es h (λ q k. m q (ground (arith, k))) v.1 z.1 t.1,
      )

  module _ (temp : ℕ) (first : K) (s : TreeItems Table A) where
    pub Reads-append :
        (ls rs : List (ℕ × A))
        → Reads temp first s (ls ++ rs)
        → Reads temp first s ls × Reads temp first s rs
    Reads-append [] rs h = (tt, h)
    Reads-append (l ∷ ls) rs h = let (a, b) = Reads-append ls rs h.1 in ((h.0, a), b)

    compare-at :
        (p : ℕ) (a : A)
        → key_at kt rt key temp first s p ≡ some (key a)
        → compare kt rt key temp first s temp p ≡ some (compare_keys kt first (key a))
    unfolding compare
    compare-at p a e =
        let own : key_at kt rt key temp first s temp ≡ some first = ground arith in
        rw (own, e, ◌>>=◌) refl

    -- An item that is not there any more cannot be compared.
    pub compare_dead :
        (p : ℕ) → p ≢ temp → s.objects.live p ≡ false → compare kt rt key temp first s temp p ≡ none
    unfolding compare
    compare_dead p n dead =
        let own : key_at kt rt key temp first s temp ≡ some first = ground arith in
        let none_there : key_at kt rt key temp first s p ≡ none = ground arith in
        rw (own, none_there, ◌>>=◌) refl

    module _ (o : IsOrder kt) where
      asymmetric : (a b : K) → kt.lt a b ≡ true → kt.lt b a ≡ false
      asymmetric a b l = ground (arith, o.irreflexive a, o.transitive a b a l)

      Each-Below :
          (ls : List (ℕ × A))
          → Reads temp first s ls
          → Below kt key first ls
          → Each (compare kt rt key temp first s) temp generic_greater_than (addresses kt key ls)
      unfolding compare_keys
      Each-Below [] h b = tt
      Each-Below ((p, a) ∷ ls) h b =
          (compare-at p a h.0 ∙ rw (asymmetric (key a) first b.0, b.0) refl, Each-Below ls h.1 b.1)

      Each-Above :
          (rs : List (ℕ × A))
          → Reads temp first s rs
          → Above kt key first rs
          → Each (compare kt rt key temp first s) temp generic_less_than (addresses kt key rs)
      unfolding compare_keys
      Each-Above [] h b = tt
      Each-Above ((p, a) ∷ rs) h b = (compare-at p a h.0 ∙ rw b.0 refl, Each-Above rs h.1 b.1)

      -- The comparisons that find the place of a key that no item has.
      pub Gap-Between :
          (es ls rs : List (ℕ × A))
          → Gap kt key first es ls rs
          → Reads temp first s es
          → Between
              (compare kt rt key temp first s)
              temp
              (addresses kt key ls)
              (addresses kt key rs)
      Gap-Between es ls rs g h =
          let (l, r) = Reads-append ls rs (subst (Reads temp first s) g.parts h) in
          (Each-Below ls l g.below, Each-Above rs r g.above)

      -- And that of a key that an item has.
      pub Spot-Between :
          (es : List (ℕ × A)) (e : ℕ × A) (ls rs : List (ℕ × A))
          → Spot kt key first es e ls rs
          → Reads temp first s es
          → Between
              (compare kt rt key temp first s)
              temp
              (addresses kt key ls)
              (addresses kt key rs)
            × (compare kt rt key temp first s temp e.0 ≡ some generic_equal)
      unfolding compare_keys
      Spot-Between es (p, a) ls rs g h =
          let (l, r) = Reads-append ls ((p, a) ∷ rs) (subst (Reads temp first s) g.parts h) in
          (
            (Each-Below ls l g.below, Each-Above rs r.1 g.above),
            compare-at p a r.0 ∙ rw (g.is_key, o.irreflexive first) refl,
          )

  pub at-Stored :
      (v : ℕ → Option A) (k : K) (es : List (ℕ × A)) (e : ℕ × A)
      → Stored v es
      → at kt key k es ≡ some e
      → v e.0 ≡ some e.1
  at-Stored v k [] e h q = absurd (ground arith)
  at-Stored v k (x ∷ es) e h q = elim (Bool-cases (same kt key k (key x.1))) [
    | inl is_it ↦ let here : x ≡ e = ground arith in subst (λ y. v y.0 ≡ some y.1) here h.0
    | inr other ↦ at-Stored v k es e h.1 (ground arith)
  ]

  -- A new table has no items.
  pub construct-Keeps :
      (s : TreeItems Table A) (held : List ℕ)
      → Counts s.objects (occurrences held)
      → Keeps (record s { table = rt.initialize_table }) [] held
  construct-Keeps s held counts = record {
    elements = rt.initialize_lem;
    sorted = tt;
    stored = tt;
    real = tt;
    counts = counts;
  }
