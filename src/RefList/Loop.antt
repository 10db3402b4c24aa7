-- ===== src/RefList/Loop.antt =====
-- A loop over a `list` by its iterators.
use kl.Base.{
  ℕ, zero, suc, ◌+◌, ◌<◌, ◌^◌, ◌≡◌, ◌≢◌, ◌∙◌, subst, refl, sym, ap, true, false, Option, some, List,
  [], ◌∷◌, ◌++◌, length, length-append, arith, ◌==◌, ◌>>=◌,
}
use kl.Links.{Links, Inner, Absent, last}
use kl.Items.Holds.{Values}
use kl.RefHolder.{Counted, assign_move, destroy}
use kl.RefHolder
use kl.RefHolder.Counts.{Counts, Counts-same, one, retain_if-Counts, release_if-Counts}
use kl.RefHolder.Owners.{occurrences, occurrences-append, occurrences-le-length}
use kl.RefList.{RefItems, item_at, hold, iterator, increment, deref, begin, end, visit, for_each}
use kl.RefList.Keeps.{Keeps}

-- The forward links lead from `p` through the cells `cs` to the head.
abbrev Leads : Links → ℕ → ℕ → List ℕ → Type 0
Leads h l p [] = p ≡ l
Leads h l p (c ∷ cs) = (p ≡ c) × (l ≢ c) × (0 ≢ c) × Leads h l (h.flink c) cs

Leads-of_ring :
    (h : Links) (l p : ℕ) (cs : List ℕ)
    → Inner h p cs
    → (h.flink (last p cs) ≡ l)
    → Absent l cs
    → Absent 0 cs
    → Leads h l (h.flink p) cs
Leads-of_ring h l p [] inner f a z = f
Leads-of_ring h l p (c ∷ cs) inner f a z =
    (inner.0, a.0, z.0, Leads-of_ring h l c cs inner.2 f a.1 z.1)

-- There are references to the items at `cs`, and few.
abbrev Known : (ℕ → ℕ) → List ℕ → Type 0
Known n [] = Unit {0}
Known n (c ∷ cs) = (0 < n c) × (n c + 2 < 2 ^ 31) × Known n cs

module _ {A : Type 0} (links : Links) (value : ℕ → Option A) (l : ℕ) (n : ℕ → ℕ) where
  -- The list with other counts.
  abbrev at : Counted → RefItems A
  at c = record { links = links; value = value; objects = c }

  -- A new iterator has a reference of its own.
  iterator-Counts :
      (c : Counted) (p : ℕ)
      → Counts c n
      → (item_at l p ≢ 0 → (0 < n (item_at l p)) × (n (item_at l p) + 1 < 2 ^ 31))
      → (c' : Counted) × (iterator l p (at c)
          ≡ some (record { current = p; value = item_at l p }, at c'))
        × Counts c' (λ q. n q + one (q == item_at l p))
  unfolding iterator hold RefHolder.construct assign_move RefHolder.release_if
  iterator-Counts c p h k =
      let (c', e, counts) = retain_if-Counts c n (item_at l p) h k in
      (c', rw (e, ◌>>=◌) refl, counts)

  -- That at the end has none.
  iterator_end :
      (c : Counted) → iterator l l (at c) ≡ some (record { current = l; value = 0 }, at c)
  unfolding iterator hold RefHolder.construct RefHolder.retain_if assign_move RefHolder.release_if
  iterator_end c = let null : item_at l l ≡ 0 = ground arith in rw null refl

  -- `++it` hands it from one item to the next.
  increment-Counts :
      (c : Counted) (p v : ℕ)
      → Counts c (λ q. n q + one (q == v))
      → (item_at l (links.flink p) ≢ 0
          → (0 < n (item_at l (links.flink p))) × (n (item_at l (links.flink p)) + 2 < 2 ^ 31))
      → (c' : Counted) × (increment l (record { current = p; value = v }) (at c)
          ≡ some (record { current = links.flink p; value = item_at l (links.flink p) }, at c'))
        × Counts c' (λ q. n q + one (q == item_at l (links.flink p)))
  unfolding increment hold RefHolder.construct assign_move
  increment-Counts c p v h k =
      let m = item_at l (links.flink p) in
      let (c1, e1, counts1) =
        retain_if-Counts c _ m h (λ z. (omega (arith, (k z).0), ground (arith, (k z).1))) in
      let (c2, e2, counts2) =
        release_if-Counts c1 (λ q. n q + one (q == m)) v
          (Counts-same c1 _ _ (λ q z. omega arith) counts1) in
      (c2, rw (e1, ◌>>=◌, e2, ◌>>=◌) refl, counts2)

  next-Known :
      (p : ℕ) (cs : List ℕ)
      → Leads links l p cs
      → Known n cs
      → (item_at l p ≢ 0 → (0 < n (item_at l p)) × (n (item_at l p) + 2 < 2 ^ 31))
  next-Known p [] leads known k = absurd (k (ground (arith, leads)))
  next-Known p (c ∷ cs) leads known k =
      let here : item_at l p ≡ c = ground (arith, leads.0, leads.1) in rw here (known.0, known.1)

  visit-Counts :
      (fuel p : ℕ) (c : Counted) (cs : List ℕ) (xs : List A)
      → Leads links l p cs
      → Values value cs xs
      → Known n cs
      → Counts c (λ q. n q + one (q == item_at l p))
      → length cs < fuel
      → (c' : Counted) × (visit fuel l
            (record { current = p; value = item_at l p })
            (record { current = l; value = 0 })
            (at c)
          ≡ some (xs, at c'))
        × Counts c' n
  unfolding visit destroy RefHolder.release_if deref
  visit-Counts zero p c cs xs leads values known h k = absurd (omega (arith, k))
  visit-Counts (suc fuel) p c [] [] leads values known h k =
      let null : item_at l p ≡ 0 = ground (arith, leads) in
      let at_end : (p == l) ≡ true = ground (arith, leads) in
      (c, rw (null, at_end, ◌>>=◌) refl, Counts-same c _ n (λ q z. ground (arith, null)) h)
  visit-Counts (suc fuel) p c [] (x ∷ xs) leads values known h k = absurd values
  visit-Counts (suc fuel) p c (y ∷ cs) [] leads values known h k = absurd values
  visit-Counts (suc fuel) p c (y ∷ cs) (x ∷ xs) leads values known h k =
      let (e, off, real, on) = leads in
      let here : item_at l p ≡ y = ground arith in
      let more : (p == l) ≡ false = ground arith in
      let alive : c.live y ≡ true = ground (arith, h.live y (λ z. real (sym z))) in
      let onward = subst (λ t. Leads links l (links.flink t) cs) (sym e) on in
      let (c1, e1, counts1) =
        increment-Counts c p (item_at l p) h (next-Known (links.flink p) cs onward known.2) in
      let (c', done, counts) =
        visit-Counts fuel (links.flink p) c1 cs xs onward values.1 known.2 counts1
          (omega (arith, k)) in
      let alive' : c.live (item_at l p) ≡ true = ap c.live here ∙ alive in
      let element : value (item_at l p) ≡ some x = ap value here ∙ values.0 in
      (c', rw (more, alive', element, ◌>>=◌, e1, ◌>>=◌, done, ◌>>=◌) refl, counts)

Known-of_cells :
    (n : ℕ → ℕ) (cs : List ℕ) (k : ℕ)
    → ((p : ℕ) → n p < k)
    → ((p : ℕ) → occurrences cs p + 0 < n p + 1)
    → k + 2 < 2 ^ 31
    → Known n cs
Known-of_cells n [] k small within big = tt
Known-of_cells n (c ∷ cs) k small within big = (
  ground (arith, within c),
  omega (arith, small c, big),
  Known-of_cells n cs k small (λ p. omega (arith, within p)) big,
)

module _ {A : Type 0} where
  -- A loop over a list, with more fuel than it has elements and fewer than 2 ^ 31 references in all:
  -- it ends, it meets the elements in their order, and it leaves the list, and the count of every
  -- item, as they were.
  pub for_each-Keeps :
      (fuel l : ℕ) (s : RefItems A) (cells : List ℕ) (xs : List A) (held : List ℕ)
      → Keeps s l cells xs held
      → length cells < fuel
      → length cells + length held + 3 < 2 ^ 31
      → (s' : RefItems A) × (for_each fuel l s ≡ some (xs, s')) × Keeps s' l cells xs held
  unfolding for_each begin end
  for_each-Keeps fuel l s cells xs held h k small =
      let n = occurrences (cells ++ held) in
      let leads =
        Leads-of_ring s.links l l cells h.ring.inner h.ring.forward h.ring.distinct.0 h.alive in
      let known =
        Known-of_cells n cells (length cells + length held + 1)
          (λ p. omega (arith, occurrences-le-length (cells ++ held) p, length-append cells held))
          (λ p. omega (arith, occurrences-append cells held p)) (omega (arith, small)) in
      let p = s.links.flink l in
      let (c1, e1, counts1) = iterator-Counts s.links s.value l n s.objects p h.counts (λ z.
        let (a, b) = next-Known s.links s.value l n p cells leads known z in
        (a, omega (arith, b))) in
      let (c3, done, counts3) =
        visit-Counts s.links s.value l n fuel p c1 cells xs leads h.values known counts1 k in
      (
        record s { objects = c3 },
        rw (e1, ◌>>=◌, iterator_end s.links s.value l n c1, ◌>>=◌) done,
        record { ring = h.ring; values = h.values; alive = h.alive; counts = counts3 },
      )
