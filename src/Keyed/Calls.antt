-- ===== src/Keyed/Calls.antt =====
-- The calls of a `set` or a `map` that look up or take out an item.
use kl.Base.{
  ℕ, ◌+◌, ◌<◌, ◌^◌, ◌≡◌, ◌≢◌, refl, sym, ap, ◌∙◌, Bool, Bool-cases, inl, inr, true, false, ◌⊎◌,
  Option, none, some, List, [], ◌∷◌, ◌++◌, length, length-append, arith, ◌==◌, ◌>>=◌,
}
use kl.Links.{Absent}
use kl.RefHolder.{Counted}
use kl.RefHolder.Counts.{Counts, Counts-same, one, release-one, retain_if-Counts}
use kl.RefHolder.Owners.{occurrences, occurrences-append, occurrences-le-length}
use kl.RefHolder
use kl.Keyed.Avl.{AvlRoutines}
use kl.Keyed.Sorted.{
  IsOrder, same, addresses, addresses-append, length-addresses, at, place_none, place_some,
}
use kl.Keyed.Keeps.{Keeps, Reads, Reads-Counts, Gap-Between, Spot-Between}
use kl.Keyed.{KeyType, TreeItems, compare, hold, let_go, item_of, find_item}

pub Option-cases : {A : Type 0} (x : Option A) → (x ≡ none) ⊎ ((a : A) × (x ≡ some a))
Option-cases none = inl refl
Option-cases (some a) = inr (a, refl)

module _ {A : Type 0} where
  -- The address of an item, and if there is one.
  abbrev pub pointer : Option (ℕ × A) → Option ℕ
  pointer none = none
  pointer (some e) = some e.0

  abbrev pub address_of : Option (ℕ × A) → ℕ
  address_of none = 0
  address_of (some e) = e.0

  abbrev pub present : Option (ℕ × A) → Bool
  present none = false
  present (some e) = true

module _ {K A Table : Type 0} (kt : KeyType K) (rt : AvlRoutines Table) (key : A → K)
    (o : IsOrder kt) where
  -- A holder of an item to which there is a reference, or of none.
  pub hold-Counts :
      (s : TreeItems Table A) (n : ℕ → ℕ) (p : ℕ)
      → Counts s.objects n
      → (p ≢ 0 → (0 < n p) × (n p + 1 < 2 ^ 31))
      → (c : Counted) × (hold kt rt key p s ≡ some (p, record s { objects = c }))
        × Counts c (λ q. n q + one (q == p))
  unfolding hold RefHolder.construct
  hold-Counts s n p h held =
      let (c, e, counts) = retain_if-Counts s.objects n p h held in (c, rw (e, ◌>>=◌) refl, counts)

  pub let_go-Counts :
      (s : TreeItems Table A) (n : ℕ → ℕ) (p : ℕ)
      → Counts s.objects (λ q. n q + one (q == p))
      → p ≢ 0
      → (c : Counted) × (let_go kt rt key p s ≡ some (record s { objects = c })) × Counts c n
  unfolding let_go
  let_go-Counts s n p h real =
      let (c, e, counts) = release-one s.objects n p h real in (c, rw (e, ◌>>=◌) refl, counts)

  pub at-occurs :
      (k : K) (es : List (ℕ × A))
      → address_of (at kt key k es) ≢ 0
      → 0 < occurrences (addresses kt key es) (address_of (at kt key k es))
  at-occurs k [] = λ real. absurd (real refl)
  at-occurs k (e ∷ es) = elim (Bool-cases (same kt key k (key e.1))) [
    | inl is_it ↦ rw is_it (λ real. ground arith)
    | inr other ↦ rw other (λ real. omega (arith, at-occurs k es real))
  ]

  pub item_of-pointer : (x : Option (ℕ × A)) → item_of (pointer x) ≡ address_of x
  item_of-pointer none = refl
  item_of-pointer (some e) = refl

  pub occurrences-cons :
      (es : List (ℕ × A)) (held : List ℕ) (p q : ℕ)
      → occurrences (addresses kt key es ++ (p ∷ held)) q
        ≡ occurrences (addresses kt key es ++ held) q + one (q == p)
  occurrences-cons es held p q = omega (
    arith,
    occurrences-append (addresses kt key es) (p ∷ held) q,
    occurrences-append (addresses kt key es) held q,
  )

  module _ (temp : ℕ) (k : K) (s : TreeItems Table A) (es : List (ℕ × A)) (held : List ℕ)
      (h : Keeps kt rt key s es held) (away : Absent temp (addresses kt key es)) where
    pub reads : Reads kt rt key temp k s es
    reads =
        Reads-Counts kt rt key temp k s (occurrences (addresses kt key es ++ held)) es h.counts
          (λ p l. omega (arith, l, occurrences-append (addresses kt key es) held p)) h.stored h.real
          away

    -- The system's lookup finds the item that has the key.
    pub lookup-at :
        rt.lookup_element (compare kt rt key temp k s) s.table temp
        ≡ some (pointer (at kt key k es))
    lookup-at = elim (Option-cases (at kt key k es)) [
      | inl absent ↦
          let (ls, rs, g) = place_none kt key o k es h.sorted absent in
          rt.lookup_absent _ s.table temp (addresses kt key ls) (addresses kt key rs)
            (h.elements ∙ ap (addresses kt key) g.parts ∙ addresses-append kt key ls rs)
            (Gap-Between kt rt key temp k s o es ls rs g reads)
          ∙ ap (λ x. some (pointer x)) (sym absent)
      | inr (e, there) ↦
          let (ls, rs, g) = place_some kt key o k es e h.sorted there in
          let (b, equal) = Spot-Between kt rt key temp k s o es e ls rs g reads in
          rt.lookup_present _ s.table temp e.0 (addresses kt key ls) (addresses kt key rs)
            (h.elements ∙ ap (addresses kt key) g.parts ∙ addresses-append kt key ls (e ∷ rs)) b
            equal
          ∙ ap (λ x. some (pointer x)) (sym there)
    ]

    length-held : length (addresses kt key es ++ held) ≡ length es + length held
    length-held =
        length-append (addresses kt key es) held
        ∙ ap (λ n. n + length held) (length-addresses kt key es)

    -- A holder of an item in the table, or of none, is one more reference.
    pub hold-Keeps :
        (p : ℕ)
        → (p ≢ 0 → 0 < occurrences (addresses kt key es) p)
        → length es + length held + 1 < 2 ^ 31
        → (c : Counted) × (hold kt rt key p s ≡ some (p, record s { objects = c }))
          × Keeps kt rt key (record s { objects = c }) es (p ∷ held)
    hold-Keeps p there small =
        let n = occurrences (addresses kt key es ++ held) in
        let (c, e, counts) = hold-Counts s n p h.counts (λ real. (
          omega (arith, there real, occurrences-append (addresses kt key es) held p),
          omega (arith, occurrences-le-length (addresses kt key es ++ held) p, length-held, small),
        )) in
        (
          c,
          e,
          record {
            elements = h.elements;
            sorted = h.sorted;
            stored = h.stored;
            real = h.real;
            counts = Counts-same c _ _ (λ q z. occurrences-cons es held p q) counts;
          },
        )

    abbrev found : ℕ
    found = address_of (at kt key k es)

    found-occurs : found ≢ 0 → 0 < occurrences (addresses kt key es) found
    found-occurs = at-occurs k es

    -- `find` gives a holder of the item that has the key, or an empty one.
    pub find_item-Keeps :
        (flag : Bool)
        → kt.check_valid k ≡ true
        → length es + length held + 1 < 2 ^ 31
        → (s' : TreeItems Table A) × (find_item kt rt key flag temp k s ≡ some (found, flag, s'))
          × Keeps kt rt key s' es (found ∷ held)
    unfolding find_item
    find_item-Keeps flag valid small =
        let (c, e, keeps) = hold-Keeps found found-occurs small in
        (
          record s { objects = c },
          rw (valid, lookup-at, ◌>>=◌, item_of-pointer (at kt key k es), e, ◌>>=◌) refl,
          keeps,
        )
