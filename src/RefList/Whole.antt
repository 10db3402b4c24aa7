-- ===== src/RefList/Whole.antt =====
-- `list` as a whole: its constructor, `empty`, `remove`, `clear`, `swap` and `append`.
use kl.Base.{
  ℕ, zero, suc, ◌+◌, ◌<◌, ◌≡◌, ◌≢◌, ◌∙◌, ◌↔◌, refl, sym, ap, true, false, Option, some, List, [],
  ◌∷◌, ◌++◌, length, arith, ◌==◌, ◌>>=◌,
}
use kl.Links.{Links, ListRoutines, Absent, IsRing, last}
use kl.Links.Ring.{
  Apart, Absent-append, Absent-left, Absent-right, Absent-last, Inner-split, last-append,
}
use kl.Items.Holds.{Values, Values-append, Values-cons}
use kl.Heads.{linked, unlink, clear_entry}
use kl.Heads.Swap.{not_empty, swap-IsRing}
use kl.Heads.Append.{append-IsRing}
use kl.Heads.Unlink.{unlink-IsRing}
use kl.RefHolder.Counts.{Counts, Counts-same, one}
use kl.RefHolder.Owners.{occurrences, occurrences-append}
use kl.RefList.{construct, empty, RefItems, remove, clear, swap, append}
use kl.RefList.Keeps.{Keeps, let_go-Counts}
use kl.RefList.Ends.{clear_entry-IsRing}

-- The links of a cell that is in a list are not null.
linked-true :
    (h : Links) (l e : ℕ) (xs ys : List ℕ)
    → IsRing h l (xs ++ (e ∷ ys))
    → Absent 0 (l ∷ xs ++ (e ∷ ys))
    → linked e h ≡ true
unfolding linked
linked-true h l e xs [] ring real =
    let (_, f, b, _) = Inner-split h l xs e [] ring.inner in
    let next : h.flink e ≡ l = ap h.flink (sym (last-append l xs e [])) ∙ ring.forward in
    let prev : 0 ≢ last l xs = Absent-last 0 l xs (real.0, Absent-left 0 xs (e ∷ []) real.1) in
    ground (arith, real.0)
linked-true h l e xs (y ∷ ys) ring real =
    let (_, f, b, d) = Inner-split h l xs e (y ∷ ys) ring.inner in
    let prev : 0 ≢ last l xs = Absent-last 0 l xs (real.0, Absent-left 0 xs (e ∷ y ∷ ys) real.1) in
    let next = (Absent-right 0 xs (e ∷ y ∷ ys) real.1).1.0 in ground (arith, d.0)

module _ {A : Type 0} where
  Values-without :
      (v : ℕ → Option A) (e : ℕ) (x : A) (cells bells : List ℕ) (xs ys : List A)
      → length cells ≡ length xs
      → Values v (cells ++ (e ∷ bells)) (xs ++ (x ∷ ys))
      → Values v (cells ++ bells) (xs ++ ys)
  Values-without v e x [] bells [] ys k h = h.1
  Values-without v e x [] bells (z ∷ xs) ys k h = absurd (omega (arith, k))
  Values-without v e x (c ∷ cells) bells [] ys k h = absurd (omega (arith, k))
  Values-without v e x (c ∷ cells) bells (z ∷ xs) ys k h =
      (h.0, Values-without v e x cells bells xs ys (omega (arith, k)) h.1)

  -- `remove` of an item that is in the list, whose head is not null: the list keeps its other
  -- elements, in their order; the item's links are null, the list's reference to it is gone, and
  -- every item still counts its references.
  pub remove-Keeps :
      (s : RefItems A) (l e : ℕ) (cells bells : List ℕ) (x : A) (xs ys : List A) (held : List ℕ)
      → 0 ≢ l
      → Keeps s l (cells ++ (e ∷ bells)) (xs ++ (x ∷ ys)) held
      → length cells ≡ length xs
      → (s' : RefItems A) × (remove e s ≡ some (true, s'))
        × Keeps s' l (cells ++ bells) (xs ++ ys) held
        × (s'.links.flink e ≡ 0)
        × (s'.links.blink e ≡ 0)
  unfolding remove
  remove-Keeps s l e cells bells x xs ys held head h same =
      let real : 0 ≢ e = (Absent-right 0 cells (e ∷ bells) h.alive).0 in
      let there = linked-true s.links l e cells bells h.ring (head, h.alive) in
      let shown : (e == 0) ≡ false = ground arith in
      let (ring, f, b, _) = unlink-IsRing s.links l e cells bells h.ring in
      let begun =
        Counts-same s.objects _ (λ q. occurrences ((cells ++ bells) ++ held) q + one (q == e))
          (λ q k. omega (
            arith,
            occurrences-append (cells ++ bells) held q,
            occurrences-append cells bells q,
            occurrences-append (cells ++ (e ∷ bells)) held q,
            occurrences-append cells (e ∷ bells) q,
          ))
          h.counts in
      let (c, done, counts) =
        let_go-Counts (record s { links = unlink e s.links }) _ e begun (λ q. real (sym q)) in
      (
        record s { links = unlink e s.links; objects = c },
        rw (shown, there, done, ◌>>=◌) refl,
        record {
          ring = ring;
          values = Values-without s.value e x cells bells xs ys same h.values;
          alive =
              Absent-append 0 cells bells (Absent-left 0 cells (e ∷ bells) h.alive)
                (Absent-right 0 cells (e ∷ bells) h.alive).1;
          counts = counts;
        },
        f,
        b,
      )

  -- One that has left its list already, and an empty holder, change nothing.
  pub remove_again : (s : RefItems A) (e : ℕ) → s.links.flink e ≡ 0 → remove e s ≡ some (false, s)
  unfolding remove linked
  remove_again s e gone = ground (arith, gone)

module _ (rt : ListRoutines) {A : Type 0} where
  -- `clear`, given more fuel than the list has items, ends with the list empty and each item without
  -- the list's reference: those that no holder has are deleted.
  pub clear-Keeps :
      (fuel l : ℕ) (s : RefItems A) (cells : List ℕ) (xs : List A) (held : List ℕ)
      → Keeps s l cells xs held
      → length cells < fuel
      → (s' : RefItems A) × (clear rt fuel l s ≡ some s') × Keeps s' l [] [] held
  unfolding clear
  clear-Keeps zero l s cells xs held h k = absurd (omega (arith, k))
  clear-Keeps (suc fuel) l s [] xs held h k = (
    s,
    rw ((rt.is_list_empty_iff s.links l [] h.ring).1 refl) refl,
    record { ring = h.ring; values = tt; alive = tt; counts = h.counts },
  )
  clear-Keeps (suc fuel) l s (c ∷ cells) xs held h k =
      let (x, ys, _, _, values) = Values-cons s.value c cells xs h.values in
      let (first, ring, _) = rt.remove_head-IsRing s.links l c cells h.ring in
      let alone : Absent c (l ∷ cells) =
        ((λ q. h.ring.distinct.0.0 (sym q)), h.ring.distinct.1.0) in
      let real : (c == 0) ≡ false = ground (arith, h.alive.0) in
      let links = clear_entry c (rt.remove_head_list s.links l).1 in
      let (o, e, counts) =
        let_go-Counts (record s { links = links }) (occurrences (cells ++ held)) c h.counts
          (λ q. h.alive.0 (sym q)) in
      let (s', done, keeps) =
        clear-Keeps fuel l (record s { links = links; objects = o }) cells ys held
          (record {
            ring = clear_entry-IsRing c _ l cells ring alone;
            values = values;
            alive = h.alive.1;
            counts = counts;
          })
          (omega (arith, k)) in
      (s', rw (not_empty rt s.links l c cells h.ring, first, real, e, ◌>>=◌) done, keeps)

  -- Two lists that share no cell; each counts as held what the other has. `swap` exchanges their
  -- elements.
  pub swap-Keeps :
      (a b : ℕ) (s : RefItems A) (cells bells : List ℕ) (xs ys : List A) (held : List ℕ)
      → Keeps s a cells xs (bells ++ held)
      → Keeps s b bells ys (cells ++ held)
      → Apart (a ∷ cells) (b ∷ bells)
      → Keeps (swap rt a b s) a bells ys (cells ++ held)
        × Keeps (swap rt a b s) b cells xs (bells ++ held)
  unfolding swap
  swap-Keeps a b s cells bells xs ys held h k apart =
      let (left, right, _) = swap-IsRing rt s.links a b cells bells h.ring k.ring apart in
      let others : (b == a) ≡ false = ground (arith, apart.0.0) in
      rw others (
        record { ring = left; values = k.values; alive = k.alive; counts = k.counts },
        record { ring = right; values = h.values; alive = h.alive; counts = h.counts },
      )

  -- `append` to a list of another that shares no cell with it, where each counts as held what the
  -- other has, says true, moves the other's elements to the front of the first, each part in its
  -- order, and leaves the other empty; the counts stay right.
  pub append-Keeps :
      (a b : ℕ) (s : RefItems A) (cells bells : List ℕ) (xs ys : List A) (held : List ℕ)
      → Keeps s a cells xs (bells ++ held)
      → Keeps s b bells ys (cells ++ held)
      → Apart (a ∷ cells) (b ∷ bells)
      → ((append rt a b s).0 ≡ true)
        × Keeps (append rt a b s).1 a (bells ++ cells) (ys ++ xs) held
        × Keeps (append rt a b s).1 b [] [] ((bells ++ cells) ++ held)
  unfolding append
  append-Keeps a b s cells bells xs ys held h k apart =
      let (ok, left, right) = append-IsRing rt s.links a b cells bells h.ring k.ring apart in
      let counts =
        Counts-same s.objects _ (occurrences ((bells ++ cells) ++ held))
          (λ q _. omega (
            arith,
            occurrences-append (bells ++ cells) held q,
            occurrences-append bells cells q,
            occurrences-append cells (bells ++ held) q,
            occurrences-append bells held q,
          ))
          h.counts in
      (
        ok,
        record {
          ring = left;
          values = Values-append s.value bells ys cells xs k.values h.values;
          alive = Absent-append 0 bells cells k.alive h.alive;
          counts = counts;
        },
        record { ring = right; values = tt; alive = tt; counts = counts },
      )

module _ (rt : ListRoutines) {A : Type 0} (s : RefItems A) (l : ℕ) where
  -- A new list is empty, and `empty` tells.
  pub construct-Keeps :
      (held : List ℕ) → Counts s.objects (occurrences held) → Keeps (construct rt l s) l [] [] held
  unfolding construct
  construct-Keeps held counts = record {
    ring = (rt.initialize-IsRing s.links l).0;
    values = tt;
    alive = tt;
    counts = counts;
  }

  pub empty_iff :
      (cells : List ℕ) (xs : List A) (held : List ℕ)
      → Keeps s l cells xs held
      → (empty rt l s ≡ true) ↔ (xs ≡ [])
  unfolding empty
  empty_iff [] [] held h = (λ e. refl, λ e. (rt.is_list_empty_iff s.links l [] h.ring).1 refl)
  empty_iff [] (x ∷ xs) held h = absurd h.values
  empty_iff (c ∷ cells) [] held h = absurd h.values
  empty_iff (c ∷ cells) (x ∷ xs) held h = (λ e. cc (not_empty rt s.links l c cells h.ring), λ e. cc)
