-- ===== src/Keyed/Loop.antt =====
-- A loop over a `set` or a `map` by its iterators.
use kl.Base.{
  ℕ, zero, suc, ◌+◌, ◌<◌, ◌^◌, ◌≡◌, ◌≢◌, refl, sym, subst, ap, ◌∙◌, true, false, Option, none, some,
  List, [], ◌∷◌, ◌++◌, length, length-append, arith, ◌==◌, ◌>>=◌,
}
use kl.Links.{Absent}
use kl.RefHolder.{Counted}
use kl.RefHolder
use kl.RefHolder.Counts.{Counts, Counts-same, one, retain_if-Counts, release_if-Counts}
use kl.RefHolder.Owners.{occurrences, occurrences-append, occurrences-le-length}
use kl.Keyed.Avl.{AvlRoutines, end_handle}
use kl.Keyed.Sorted.{addresses, length-addresses}
use kl.Keyed.Keeps.{Stored, Keeps}
use kl.Keyed.{
  KeyType, TreeItems, Iterator, increment, begin, deref, visit, for_each, item_of, next_handle,
}

module _ {A : Type 0} where
  -- The contents of the items, in order.
  abbrev pub contents : List (ℕ × A) → List A
  contents [] = []
  contents (e ∷ es) = e.1 ∷ contents es

  abbrev first_of : List (ℕ × A) → Option ℕ
  first_of [] = none
  first_of (e ∷ es) = some e.0

append-snoc : (xs : List ℕ) (y : ℕ) (ys : List ℕ) → xs ++ y ∷ ys ≡ (xs ++ (y ∷ [])) ++ ys
append-snoc [] y ys = refl
append-snoc (x ∷ xs) y ys = ground (arith, append-snoc xs y ys)

module _ {K A Table : Type 0} (kt : KeyType K) (rt : AvlRoutines Table) (key : A → K) (t : Table)
    (value : ℕ → Option A) (n : ℕ → ℕ) where
  abbrev with : Counted → TreeItems Table A
  with c = record { table = t; value = value; objects = c }

  -- The iterator whose next item is the first of `rest`, after `i` items.
  abbrev after : ℕ → List (ℕ × A) → ℕ
  after i [] = rt.restart_key t i
  after i (e ∷ es) = rt.restart_key t (i + 1)

  abbrev standing : ℕ → List (ℕ × A) → Iterator
  standing i rest = record {
    handle = next_handle (first_of rest) (after i rest);
    value = item_of (first_of rest);
  }

  -- There are references to the items, and few.
  abbrev Known : List (ℕ × A) → Type 0
  Known [] = Unit {0}
  Known (e ∷ es) = (0 < n e.0) × (n e.0 + 2 < 2 ^ 31) × (e.0 ≢ 0) × Known es

  first-Known :
      (rest : List (ℕ × A))
      → Known rest
      → item_of (first_of rest) ≢ 0
      → (0 < n (item_of (first_of rest))) × (n (item_of (first_of rest)) + 2 < 2 ^ 31)
  first-Known [] k z = absurd (z refl)
  first-Known (e ∷ es) k z = (k.0, k.1)

  -- `++it` hands the iterator's reference from one item to the next.
  increment-Counts :
      (c : Counted) (i v : ℕ) (handle : ℕ) (rest : List (ℕ × A))
      → rt.enumerate_without_splaying t handle ≡ (first_of rest, after i rest)
      → Counts c (λ q. n q + one (q == v))
      → Known rest
      → (c' : Counted) × (increment rt (record { handle = handle; value = v }) (with c)
          ≡ some (standing i rest, with c'))
        × Counts c' (λ q. n q + one (q == item_of (first_of rest)))
  unfolding increment RefHolder.construct RefHolder.assign_move
  increment-Counts c i v handle rest e h known =
      let m = item_of (first_of rest) in
      let (c1, e1, counts1) =
        retain_if-Counts c _ m h
          (λ z. let (a, b) = first-Known rest known z in (omega (arith, a), ground (arith, b))) in
      let (c2, e2, counts2) =
        release_if-Counts c1 (λ q. n q + one (q == m)) v
          (Counts-same c1 _ _ (λ q z. omega arith) counts1) in
      (c2, rw (e, e1, ◌>>=◌, e2, ◌>>=◌) refl, counts2)

  enumerate-after :
      (pre : List ℕ) (rest : List (ℕ × A))
      → rt.elements t ≡ pre ++ addresses kt key rest
      → rt.enumerate_without_splaying t (rt.restart_key t (length pre))
        ≡ (first_of rest, after (length pre) rest)
  enumerate-after pre [] e =
      let whole : length (rt.elements t) ≡ length pre =
        ap length e ∙ length-append pre [] ∙ omega arith in
      subst (λ i. rt.enumerate_without_splaying t (rt.restart_key t i) ≡ (none, rt.restart_key t i))
        whole (rt.enumerate_end t)
  enumerate-after pre (x ∷ es) e = rt.enumerate_lem t x.0 pre (addresses kt key es) e

  visit-Counts :
      (fuel : ℕ) (c : Counted) (pre : List ℕ) (rest : List (ℕ × A))
      → rt.elements t ≡ pre ++ addresses kt key rest
      → Stored kt rt key value rest
      → Known rest
      → length (rt.elements t) < 2 ^ 32
      → Counts c (λ q. n q + one (q == item_of (first_of rest)))
      → length rest < fuel
      → (c' : Counted) × (visit rt fuel (standing (length pre) rest) (with c)
          ≡ some (contents rest, with c'))
        × Counts c' n
  unfolding visit deref RefHolder.destroy RefHolder.release_if
  visit-Counts zero c pre rest e v k few h l = absurd (omega (arith, l))
  visit-Counts (suc fuel) c pre [] e v k few h l =
      (c, refl, Counts-same c _ n (λ q z. ground arith) h)
  visit-Counts (suc fuel) c pre ((p, a) ∷ es) e v k few h l =
      let snoc = e ∙ append-snoc pre p (addresses kt key es) in
      let one_more : length (pre ++ (p ∷ [])) ≡ length pre + 1 = length-append pre (p ∷ []) in
      let next =
        subst
          (λ i. rt.enumerate_without_splaying t (rt.restart_key t i) ≡ (first_of es, after i es))
          one_more (enumerate-after (pre ++ (p ∷ [])) es snoc) in
      let (c1, e1, counts1) =
        increment-Counts c (length pre + 1) p (rt.restart_key t (length pre + 1)) es next h k.3 in
      let (c', done, counts) =
        visit-Counts fuel c1 (pre ++ (p ∷ [])) es snoc v.1 k.3 few counts1 (omega (arith, l)) in
      let done' =
        subst (λ i. visit rt fuel (standing i es) (with c1) ≡ some (contents es, with c')) one_more
          done in
      let alive : c.live p ≡ true = ground (arith, h.live p k.2) in
      let valid : rt.restart_key t (length pre + 1) ≢ end_handle =
        rt.restart_address t (length pre + 1)
          (omega (arith, ap (length {A = ℕ}) e, length-append pre (p ∷ addresses kt key es))) few in
      let more : (rt.restart_key t (length pre + 1) == end_handle) ≡ false =
        ground (arith, valid) in
      (c', rw (more, alive, v.0, ◌>>=◌, e1, ◌>>=◌, done', ◌>>=◌) refl, counts)

  -- `begin()` stands at the first item, with one reference.
  begin-Counts :
      (c : Counted) (es : List (ℕ × A))
      → rt.elements t ≡ addresses kt key es
      → Known es
      → Counts c n
      → (c' : Counted) × (begin rt (with c) ≡ some (standing 0 es, with c'))
        × Counts c' (λ q. n q + one (q == item_of (first_of es)))
  unfolding begin RefHolder.construct_copy RefHolder.destroy
  begin-Counts c es e k h =
      let m = item_of (first_of es) in
      let start =
        subst (λ r. rt.enumerate_without_splaying t r ≡ (first_of es, after 0 es))
          (rt.restart_null t) (enumerate-after [] es e) in
      let (c1, e1, counts1) =
        increment-Counts c 0 0 0 es start (Counts-same c n _ (λ q z. ground arith) h) k in
      let (c2, e2, counts2) =
        retain_if-Counts c1 _ m counts1
          (λ z. let (a, b) = first-Known es k z in (omega (arith, a), ground (arith, b))) in
      let (c3, e3, counts3) = release_if-Counts c2 (λ q. n q + one (q == m)) m counts2 in
      (c3, rw (e1, ◌>>=◌, e2, ◌>>=◌, e3, ◌>>=◌) refl, counts3)

Known-of_items :
    {K A Table : Type 0} (kt : KeyType K) (rt : AvlRoutines Table) (key : A → K) (t : Table)
    (value : ℕ → Option A) (n : ℕ → ℕ) (es : List (ℕ × A))
    → ((p : ℕ) → n p + 2 < 2 ^ 31)
    → ((p : ℕ) → occurrences (addresses kt key es) p < n p + 1)
    → Absent 0 (addresses kt key es)
    → Known kt rt key t value n es
Known-of_items kt rt key t value n [] small within real = tt
Known-of_items kt rt key t value n (e ∷ es) small within real = (
  ground (arith, within e.0),
  small e.0,
  (λ z. real.0 (sym z)),
  Known-of_items kt rt key t value n es small (λ p. omega (arith, within p)) real.1,
)

module _ {K A Table : Type 0} (kt : KeyType K) (rt : AvlRoutines Table) (key : A → K) where
  -- A loop over a `set` or a `map`, with more fuel than there are items and fewer than 2 ^ 31
  -- references in all: it ends, it meets the contents of the items in the order of their keys, and it
  -- leaves the table, and the count of every item, as they were.
  pub for_each-contents :
      (fuel : ℕ) (s : TreeItems Table A) (es : List (ℕ × A)) (held : List ℕ)
      → Keeps kt rt key s es held
      → length es < fuel
      → length es + length held + 2 < 2 ^ 31
      → (s' : TreeItems Table A) × (for_each rt fuel s ≡ some (contents es, s'))
        × Keeps kt rt key s' es held
        × (s'.table ≡ s.table)
  unfolding for_each
  for_each-contents fuel s es held h enough small =
      let n = occurrences (addresses kt key es ++ held) in
      let whole = length-append (addresses kt key es) held in
      let items = length-addresses kt key es in
      let known =
        Known-of_items kt rt key s.table s.value n es
          (λ p.
            omega
              (arith, occurrences-le-length (addresses kt key es ++ held) p, whole, items, small))
          (λ p. omega (arith, occurrences-append (addresses kt key es) held p)) h.real in
      let few : length (rt.elements s.table) < 2 ^ 32 =
        omega (arith, ap (length {A = ℕ}) h.elements, items, small) in
      let (c1, e1, counts1) =
        begin-Counts kt rt key s.table s.value n s.objects es h.elements known h.counts in
      let (c2, e2, counts2) =
        visit-Counts kt rt key s.table s.value n fuel c1 [] es h.elements h.stored known few counts1
          enough in
      (
        record s { objects = c2 },
        rw (e1, ◌>>=◌) e2,
        record {
          elements = h.elements;
          sorted = h.sorted;
          stored = h.stored;
          real = h.real;
          counts = counts2;
        },
        refl,
      )
