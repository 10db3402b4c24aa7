-- ===== src/Keyed/Insert.antt =====
-- `insert` of a `set` or a `map`.
use kl.Base.{
  ℕ, ◌+◌, ◌<◌, ◌≤◌, ◌^◌, ◌≡◌, ◌≢◌, refl, sym, subst, ap, ◌∙◌, Bool, true, false, not, ◌&&◌, Option,
  none, some, List, [], ◌∷◌, ◌++◌, length, length-append, arith, ◌==◌, ◌>>=◌, if◌then◌else◌,
}
use kl.Links.{Absent, update}
use kl.RefHolder.Counts.{Counts-same, one, born-Counts}
use kl.RefHolder.Owners.{occurrences, occurrences-append}
use kl.Keyed.Avl.{AvlRoutines}
use kl.Keyed.Sorted.{
  IsOrder, same, addresses, addresses-append, at, at-middle, Sorted, Sorted-insert, Gap, Below,
  Above, place_none, place_some, at-same,
}
use kl.Keyed.Keeps.{Stored, Stored-update, Keeps, Gap-Between, Spot-Between, Absent-append_left}
use kl.Keyed.Calls.{
  address_of, present, reads, hold-Keeps, hold-Counts, at-occurs, occurrences-cons,
}
use kl.Keyed.Remove.{occurrences-middle}
use kl.Keyed.{KeyType, TreeItems, compare, create, settle, insert_item}

pub Absent-of_occurrences : (p : ℕ) (xs : List ℕ) → occurrences xs p ≡ 0 → Absent p xs
Absent-of_occurrences p [] h = tt
Absent-of_occurrences p (x ∷ xs) h =
    ((λ e. ground (arith, e)), Absent-of_occurrences p xs (omega (arith, h)))

module _ {K A Table : Type 0} (kt : KeyType K) (rt : AvlRoutines Table) (key : A → K) where
  Stored-insert :
      (v : ℕ → Option A) (p : ℕ) (a : A) (ls rs : List (ℕ × A))
      → Stored kt rt key v (ls ++ rs)
      → Absent p (addresses kt key (ls ++ rs))
      → Stored kt rt key (update v p (some a)) (ls ++ (p, a) ∷ rs)
  Stored-insert v p a [] rs h n = (ground arith, Stored-update kt rt key v p (some a) rs n h)
  Stored-insert v p a (l ∷ ls) rs h n =
      (ground (arith, n.0, h.0), Stored-insert v p a ls rs h.1 n.1)

  Absent-insert :
      (p : ℕ) (ls : List (ℕ × A)) (e : ℕ × A) (rs : List (ℕ × A))
      → p ≢ e.0
      → Absent p (addresses kt key (ls ++ rs))
      → Absent p (addresses kt key (ls ++ e ∷ rs))
  Absent-insert p [] e rs n h = (n, h)
  Absent-insert p (l ∷ ls) e rs n h = (h.0, Absent-insert p ls e rs n h.1)

  -- The item that a key has after `insert`: the one that it had, or the new one if the table has room.
  abbrev pub outcome : Option (ℕ × A) → Bool → ℕ × A → Option (ℕ × A)
  outcome (some old) node e = some old
  outcome none true e = some e
  outcome none false e = none

  -- What a later call relies on: no other address is taken, and there is at most one more item.
  pub record Next (p : ℕ) (es es' : List (ℕ × A)) : Type 0 where
    pub away : (q : ℕ) → q ≢ p → Absent q (addresses kt key es) → Absent q (addresses kt key es')
    pub number : length es' ≤ length es + 1

  Next-same : (p : ℕ) (es : List (ℕ × A)) → Next p es es
  Next-same p es = record { away = λ q n a. a; number = omega arith }

  Next-insert :
      (es ls : List (ℕ × A)) (e : ℕ × A) (rs : List (ℕ × A))
      → es ≡ ls ++ rs
      → Next e.0 es (ls ++ e ∷ rs)
  Next-insert es ls e rs q = record {
    away = λ p n a. Absent-insert p ls e rs n (subst (λ x. Absent p (addresses kt key x)) q a);
    number =
        omega (arith, length-append ls (e ∷ rs), length-append ls rs, ap (length {A = ℕ × A}) q);
  }

  module _ (o : IsOrder kt) (temp : ℕ) (k : K) (s : TreeItems Table A) (es : List (ℕ × A))
      (held : List ℕ) (h : Keeps kt rt key s es held)
      (away : Absent temp (addresses kt key es)) where
    -- With a block for the table's node, the new element has its place there.
    pub element_placed :
        (p : ℕ) (ls rs : List (ℕ × A))
        → Gap kt key k es ls rs
        → (t : Table) × (rt.insert_element true (compare kt rt key temp k s) s.table temp
            ≡ some (some temp, true, t))
          × (rt.elements (rt.set_item t temp p) ≡ addresses kt key ls ++ p ∷ addresses kt key rs)
    element_placed p ls rs g =
        let order = h.elements ∙ ap (addresses kt key) g.parts ∙ addresses-append kt key ls rs in
        let between =
          Gap-Between kt rt key temp k s o es ls rs g (reads kt rt key o temp k s es held h away) in
        let (t, done, elements) =
          rt.insert_new (compare kt rt key temp k s) s.table temp (addresses kt key ls)
            (addresses kt key rs) order between in
        (
          t,
          done,
          rt.set_item_lem t temp p (addresses kt key ls) (addresses kt key rs) elements (
              Absent-append_left temp (addresses kt key ls) (addresses kt key rs) (
                subst (Absent temp) (ap (addresses kt key) g.parts ∙ addresses-append kt key ls rs)
                  away)),
        )

    module _ (p : ℕ) (a : A) (own : key a ≡ k) (valid : kt.check_valid k ≡ true) (real : p ≢ 0)
        (fresh : occurrences (addresses kt key es ++ held) p ≡ 0) where
      insert_new-Keeps :
          at kt key k es ≡ none
          → (s' : TreeItems Table A) × (es' : List (ℕ × A)) × (insert_item kt rt key temp k true
                (some (p, a))
                s
              ≡ some (p, true, s'))
            × Keeps kt rt key s' es' (p ∷ held)
            × ((j : K)
                → at kt key j es' ≡ (if same kt key j k then some (p, a) else at kt key j es))
            × Next p es es'
      unfolding insert_item settle
      insert_new-Keeps absent =
          let (ls, rs, g) = place_none kt key o k es h.sorted absent in
          let (t, done, elements) = element_placed p ls rs g in
          let n = occurrences (addresses kt key es ++ held) in
          let made = create kt rt key p a (record s { table = rt.set_item t temp p }) in
          let (c, held_by, counts) =
            hold-Counts kt rt key o made (λ q. n q + one (q == p)) p
              (born-Counts s.objects n p h.counts fresh)
              (λ z. (ground arith, ground (arith, fresh))) in
          let clear =
            Absent-of_occurrences p (addresses kt key es)
              (omega (arith, fresh, occurrences-append (addresses kt key es) held p)) in
          let below = subst (λ y. Below kt key y ls) (sym own) g.below in
          let above = subst (λ y. Above kt key y rs) (sym own) g.above in
          (
            record made { objects = c },
            ls ++ (p, a) ∷ rs,
            rw (valid, done, ◌>>=◌, own, valid, held_by, ◌>>=◌) refl,
            record {
              elements = elements ∙ sym (addresses-append kt key ls ((p, a) ∷ rs));
              sorted =
                  Sorted-insert kt key o ls (p, a) rs (subst (Sorted kt key) g.parts h.sorted) below
                    above;
              stored =
                  Stored-insert s.value p a ls rs
                    (subst (Stored kt rt key s.value) g.parts h.stored)
                    (subst (λ x. Absent p (addresses kt key x)) g.parts clear);
              real =
                  Absent-insert 0 ls (p, a) rs (λ z. real (sym z))
                    (subst (λ x. Absent 0 (addresses kt key x)) g.parts h.real);
              counts =
                  Counts-same c _ _
                    (λ q z.
                      occurrences-cons kt rt key o (ls ++ (p, a) ∷ rs) held p q
                      ∙ ap (λ m. m + one (q == p))
                          (occurrences-middle kt rt key ls (p, a) rs held q
                            ∙ ap (λ x. occurrences (addresses kt key x ++ held) q + one (q == p))
                                (sym g.parts)))
                    counts;
            },
            λ j.
                at-middle kt key o j ls (p, a) rs below
                ∙ ap (λ i. if same kt key j i then some (p, a) else at kt key j (ls ++ rs)) own
                ∙ ap (λ x. if same kt key j k then some (p, a) else at kt key j x) (sym g.parts),
            Next-insert es ls (p, a) rs g.parts,
          )

      -- `insert` when `new` gives a valid item: the key then has its outcome, whose holder is given;
      -- the flag says that the item is new.
      pub insert_item-Keeps :
          (node : Bool) (x : Option (ℕ × A))
          → at kt key k es ≡ x
          → length es + length held + 1 < 2 ^ 31
          → let y = outcome x node (p, a) in
            (s' : TreeItems Table A) × (es' : List (ℕ × A)) × (insert_item kt rt key temp k node
                (some (p, a))
                s
              ≡ some (address_of y, not (present x) && node, s'))
            × Keeps kt rt key s' es' (address_of y ∷ held)
            × ((j : K) → at kt key j es' ≡ (if same kt key j k then y else at kt key j es))
            × Next p es es'
      unfolding insert_item
      insert_item-Keeps true none absent small = insert_new-Keeps absent
      insert_item-Keeps false none absent small =
          let (ls, rs, g) = place_none kt key o k es h.sorted absent in
          let full =
            rt.insert_no_block (compare kt rt key temp k s) s.table temp (addresses kt key ls)
              (addresses kt key rs)
              (h.elements ∙ ap (addresses kt key) g.parts ∙ addresses-append kt key ls rs)
              (Gap-Between kt rt key temp k s o es ls rs g
                (reads kt rt key o temp k s es held h away)) in
          let (c, e, keeps) =
            hold-Keeps kt rt key o temp k s es held h away 0 (λ z. absurd (z refl)) small in
          (
            record s { objects = c },
            es,
            rw (valid, full, ◌>>=◌, e, ◌>>=◌) refl,
            keeps,
            λ j. at-same kt key o k j es none absent,
            Next-same p es,
          )
      insert_item-Keeps node (some old) there small =
          let (ls, rs, g) = place_some kt key o k es old h.sorted there in
          let (between, equal) =
            Spot-Between kt rt key temp k s o es old ls rs g
              (reads kt rt key o temp k s es held h away) in
          let kept =
            rt.insert_old node (compare kt rt key temp k s) s.table temp old.0 (addresses kt key ls)
              (addresses kt key rs)
              (h.elements ∙ ap (addresses kt key) g.parts ∙ addresses-append kt key ls (old ∷ rs))
              between equal in
          let (c, e, keeps) =
            hold-Keeps kt rt key o temp k s es held h away old.0
              (λ z.
                subst (λ y. 0 < occurrences (addresses kt key es) (address_of y)) there
                  (at-occurs kt rt key o k es (subst (λ y. address_of y ≢ 0) (sym there) z)))
              small in
          (
            record s { objects = c },
            es,
            rw (valid, kept, ◌>>=◌, e, ◌>>=◌) refl,
            keeps,
            λ j. at-same kt key o k j es (some old) there,
            Next-same p es,
          )
