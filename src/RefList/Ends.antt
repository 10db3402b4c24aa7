-- ===== src/RefList/Ends.antt =====
-- `list` at its two ends: `push_back`, `push_front` and `pop_front`.
use kl.Base.{
  ℕ, ◌+◌, ◌<◌, ◌^◌, ◌≡◌, ◌≢◌, refl, sym, Bool, true, false, some, List, [], ◌∷◌, ◌++◌, length,
  length-append, arith, ◌>>=◌,
}
use kl.Links.{Links, ListRoutines, Absent, IsRing}
use kl.Links.Ring.{Absent-append, Apart-cons, Apart-nil, IsRing-same}
use kl.Items.Holds.{Values-update, Values-append}
use kl.Heads.{clear_entry}
use kl.Heads.Swap.{not_empty}
use kl.RefHolder.Counts.{Counts-same, born-Counts}
use kl.RefHolder.Owners.{occurrences, occurrences-append, occurrences-le-length}
use kl.RefList.{RefItems, create, push_back, push_front, pop_front}
use kl.RefList.Keeps.{Keeps, occurrences-Absent, let_go-Counts, hold-Counts}

pub clear_entry-IsRing :
    (e : ℕ) (h : Links) (l : ℕ) (cells : List ℕ)
    → IsRing h l cells
    → Absent e (l ∷ cells)
    → IsRing (clear_entry e h) l cells
unfolding clear_entry
clear_entry-IsRing e h l cells ring away =
    IsRing-same h _ l cells (e ∷ []) ring (λ p k. ground (arith, k.0))
      (Apart-cons e (l ∷ cells) [] away (Apart-nil (l ∷ cells)))

module _ (rt : ListRoutines) {A : Type 0} (check_valid : A → Bool) (s : RefItems A) (l item : ℕ)
    (v : A) (cells : List ℕ) (xs : List A) (held : List ℕ) (h : Keeps s l cells xs held)
    (fresh : Absent item (l ∷ cells)) (unheld : occurrences held item ≡ 0) (real : item ≢ 0) where
  no_owner : occurrences (cells ++ held) item ≡ 0
  no_owner =
      omega
        (arith, occurrences-append cells held item, occurrences-Absent item cells fresh.1, unheld)

  -- `push_back` on a list, with a new item at an address that is not null, not the list's head,
  -- and that no cell and no holder has, of an element that passes `check_valid`: it becomes the
  -- last, the holder that is returned has its item, and every item still counts its references.
  pub push_back-Keeps :
      check_valid v ≡ true
      → (s' : RefItems A) × (push_back rt check_valid l (some item) v s ≡ some (item, s'))
        × Keeps s' l (cells ++ (item ∷ [])) (xs ++ (v ∷ [])) (item ∷ held)
  unfolding push_back
  push_back-Keeps ok =
      let made = create item v s in
      let linked = record made { links = rt.insert_tail_list s.links l item } in
      let begun = born-Counts s.objects (occurrences (cells ++ held)) item h.counts no_owner in
      let (c, e, counts) =
        hold-Counts linked _ item begun (ground arith) (ground (arith, no_owner)) in
      (
        record linked { objects = c },
        rw (ok, e) refl,
        record {
          ring = (rt.insert_tail-IsRing s.links l item cells h.ring fresh).0;
          values =
              Values-append _ cells xs (item ∷ []) (v ∷ [])
                (Values-update s.value item (some v) cells xs fresh.1 h.values) (ground arith, tt);
          alive = Absent-append 0 cells (item ∷ []) h.alive ((λ q. real (sym q)), tt);
          counts =
              Counts-same c _ _
                (λ q k. ground (
                  arith,
                  occurrences-append (cells ++ (item ∷ [])) (item ∷ held) q,
                  occurrences-append cells (item ∷ []) q,
                  occurrences-append cells held q,
                ))
                counts;
        },
      )

  -- `push_front` likewise: it becomes the first.
  pub push_front-Keeps :
      check_valid v ≡ true
      → (s' : RefItems A) × (push_front rt check_valid l (some item) v s ≡ some (item, s'))
        × Keeps s' l (item ∷ cells) (v ∷ xs) (item ∷ held)
  unfolding push_front
  push_front-Keeps ok =
      let made = create item v s in
      let linked = record made { links = rt.insert_head_list s.links l item } in
      let begun = born-Counts s.objects (occurrences (cells ++ held)) item h.counts no_owner in
      let (c, e, counts) =
        hold-Counts linked _ item begun (ground arith) (ground (arith, no_owner)) in
      (
        record linked { objects = c },
        rw (ok, e) refl,
        record {
          ring = (rt.insert_head-IsRing s.links l item cells h.ring fresh).0;
          values = (ground arith, Values-update s.value item (some v) cells xs fresh.1 h.values);
          alive = ((λ q. real (sym q)), h.alive);
          counts =
              Counts-same c _ _
                (λ q k. ground (
                  arith,
                  occurrences-append cells (item ∷ held) q,
                  occurrences-append cells held q,
                ))
                counts;
        },
      )

  -- An element that does not pass leaves the list as it was, and its item is deleted.
  pub push_invalid :
      check_valid v ≡ false
      → (s' : RefItems A) × (push_back rt check_valid l (some item) v s ≡ some (0, s'))
        × (push_front rt check_valid l (some item) v s ≡ some (0, s'))
        × Keeps s' l cells xs held
        × (s'.objects.live item ≡ false)
  unfolding push_back push_front
  push_invalid bad =
      let made = create item v s in
      let begun = born-Counts s.objects (occurrences (cells ++ held)) item h.counts no_owner in
      let (c, e, counts) = let_go-Counts made (occurrences (cells ++ held)) item begun real in
      (
        record made { objects = c },
        rw (bad, e, ◌>>=◌) refl,
        rw (bad, e, ◌>>=◌) refl,
        record {
          ring = h.ring;
          values = Values-update s.value item (some v) cells xs fresh.1 h.values;
          alive = h.alive;
          counts = counts;
        },
        ground (arith, counts.live item real, no_owner),
      )

module _ (rt : ListRoutines) {A : Type 0} (s : RefItems A) (l : ℕ) (held : List ℕ) where
  -- `pop_front` of a list that is not empty, with fewer than 2 ^ 31 references: the holder that is
  -- returned has the item that was the first, its links are null, and every item still counts its
  -- references.
  pub pop_front-Keeps :
      (c : ℕ) (cells : List ℕ) (x : A) (xs : List A)
      → Keeps s l (c ∷ cells) (x ∷ xs) held
      → length cells + length held + 2 < 2 ^ 31
      → (s' : RefItems A) × (pop_front rt l s ≡ some (c, s'))
        × Keeps s' l cells xs (c ∷ held)
        × (s'.links.flink c ≡ 0)
        × (s'.links.blink c ≡ 0)
  unfolding pop_front clear_entry
  pop_front-Keeps c cells x xs h small =
      let (first, ring, _) = rt.remove_head-IsRing s.links l c cells h.ring in
      let alone : Absent c (l ∷ cells) =
        ((λ q. h.ring.distinct.0.0 (sym q)), h.ring.distinct.1.0) in
      let links = clear_entry c (rt.remove_head_list s.links l).1 in
      let n = occurrences ((c ∷ cells) ++ held) in
      let (c1, e1, counts1) =
        hold-Counts (record s { links = links }) n c h.counts (ground arith)
          (omega (
            arith,
            occurrences-le-length ((c ∷ cells) ++ held) c,
            length-append cells held,
            small,
          )) in
      let (c2, e2, counts2) =
        let_go-Counts (record s { links = links; objects = c1 }) n c counts1
          (λ q. h.alive.0 (sym q)) in
      (
        record s { links = links; objects = c2 },
        rw (not_empty rt s.links l c cells h.ring, first, e1, ◌>>=◌, e2, ◌>>=◌) refl,
        record {
          ring = clear_entry-IsRing c _ l cells ring alone;
          values = h.values.1;
          alive = h.alive.1;
          counts =
              Counts-same c2 _ _
                (λ q k.
                  ground
                    (arith, occurrences-append cells (c ∷ held) q, occurrences-append cells held q))
                counts2;
        },
        ground arith,
        ground arith,
      )

  pub pop_front_empty : Keeps s l [] [] held → pop_front rt l s ≡ some (0, s)
  unfolding pop_front
  pop_front_empty h = rw ((rt.is_list_empty_iff s.links l [] h.ring).1 refl) refl
