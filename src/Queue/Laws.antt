-- ===== src/Queue/Laws.antt =====
-- `queue` is first in, first out, and an item lives exactly while it is in the queue.
use kl.Base.{
  ℕ, zero, suc, ◌<◌, ◌≡◌, ◌≢◌, ◌∙◌, refl, true, false, Option, none, some, List, [], ◌∷◌, ◌++◌,
  length, arith, ◌==◌, ◌>>=◌,
}
use kl.Links.{ListRoutines, update, Absent}
use kl.Links.Ring.{Apart, Absent-append}
use kl.Items.{Items}
use kl.Items.Holds.{Holds, Values-update, Values-append, Values-cons}
use kl.Heads.Swap.{not_empty, swap-IsRing}
use kl.Queue.{construct, clear, swap, push_back, pop_front}

-- No item is at these addresses any more.
abbrev pub Freed : {A : Type 0} → (ℕ → Option A) → List ℕ → Type 0
Freed value [] = Unit {0}
Freed value (c ∷ cells) = (value c ≡ none) × Freed value cells

module _ (rt : ListRoutines) {A : Type 0} where
  pub construct-Holds : (q : ℕ) (s : Items A) → Holds (construct rt q s) q [] []
  unfolding construct
  construct-Holds q s = record {
    ring = (rt.initialize-IsRing s.links q).0;
    values = tt;
    alive = tt;
  }

  pub push_back-Holds :
      (q item : ℕ) (v : A) (s : Items A) (cells : List ℕ) (xs : List A)
      → Holds s q cells xs
      → Absent item (q ∷ cells)
      → 0 ≢ item
      → Holds (push_back rt q (some item) v s).0 q (cells ++ (item ∷ [])) (xs ++ (v ∷ []))
  unfolding push_back
  push_back-Holds q item v s cells xs h fresh real = record {
    ring = (rt.insert_tail-IsRing s.links q item cells h.ring fresh).0;
    values =
        Values-append _ cells xs (item ∷ []) (v ∷ [])
          (Values-update s.value item (some v) cells xs fresh.1 h.values) (ground arith, tt);
    alive = Absent-append 0 cells (item ∷ []) h.alive (real, tt);
  }

  pub push_back-none : (q : ℕ) (v : A) (s : Items A) → push_back rt q none v s ≡ (s, false)
  unfolding push_back
  push_back-none q v s = refl

  pub push_back-some :
      (q item : ℕ) (v : A) (s : Items A) → (push_back rt q (some item) v s).1 ≡ true
  unfolding push_back
  push_back-some q item v s = refl

  pub pop_front-Holds :
      (q c : ℕ) (v x : A) (s : Items A) (cells : List ℕ) (xs : List A)
      → Holds s q (c ∷ cells) (x ∷ xs)
      → (s' : Items A) × (pop_front rt q v s ≡ some (true, x, s'))
        × Holds s' q cells xs
        × (s'.value c ≡ none)
  unfolding pop_front
  pop_front-Holds q c v x s cells xs h =
      let (first, ring, _) = rt.remove_head-IsRing s.links q c cells h.ring in
      let real : (c == 0) ≡ false = ground (arith, h.alive.0) in
      (
        record { links = (rt.remove_head_list s.links q).1; value = update s.value c none },
        rw (not_empty rt s.links q c cells h.ring, first, h.values.0, ◌>>=◌, real) refl,
        record {
          ring = ring;
          values = Values-update s.value c none cells xs h.ring.distinct.1.0 h.values.1;
          alive = h.alive.1;
        },
        ground arith,
      )

  pub pop_front_empty :
      (q : ℕ) (v : A) (s : Items A) → Holds s q [] [] → pop_front rt q v s ≡ some (false, v, s)
  unfolding pop_front
  pop_front_empty q v s h = rw ((rt.is_list_empty_iff s.links q [] h.ring).1 refl) refl

  -- `clear` of a queue, given more fuel than it has items, ends with the queue empty and every one
  -- of its items deleted, and leaves the elements of all other items as they were.
  pub clear-Holds :
      (fuel q : ℕ) (s : Items A) (cells : List ℕ) (xs : List A)
      → Holds s q cells xs
      → length cells < fuel
      → (s' : Items A) × (clear rt fuel q s ≡ some s')
        × Holds s' q [] []
        × Freed s'.value cells
        × ((p : ℕ) → Absent p cells → s'.value p ≡ s.value p)
  unfolding clear
  clear-Holds zero q s cells xs h k = absurd (omega (arith, k))
  clear-Holds (suc fuel) q s [] xs h k = (
    s,
    rw ((rt.is_list_empty_iff s.links q [] h.ring).1 refl) refl,
    record { ring = h.ring; values = tt; alive = tt },
    tt,
    λ p away. refl,
  )
  clear-Holds (suc fuel) q s (c ∷ cells) xs h k =
      let (x, ys, _, _, values) = Values-cons s.value c cells xs h.values in
      let (first, ring, _) = rt.remove_head-IsRing s.links q c cells h.ring in
      let real : (c == 0) ≡ false = ground (arith, h.alive.0) in
      let next : Items A = record {
        links = (rt.remove_head_list s.links q).1;
        value = update s.value c none;
      } in
      let (s', done, holds, freed, same) =
        clear-Holds fuel q next cells ys
          (record {
            ring = ring;
            values = Values-update s.value c none cells ys h.ring.distinct.1.0 values;
            alive = h.alive.1;
          })
          (omega (arith, k)) in
      (
        s',
        rw (not_empty rt s.links q c cells h.ring, first, real) done,
        holds,
        (same c h.ring.distinct.1.0 ∙ ground arith, freed),
        λ p away. same p away.1 ∙ ground (arith, away.0),
      )

  -- `swap` of two queues exchanges what they hold.
  pub swap-Holds :
      (a b : ℕ) (s : Items A) (cells bells : List ℕ) (xs ys : List A)
      → Holds s a cells xs
      → Holds s b bells ys
      → Apart (a ∷ cells) (b ∷ bells)
      → Holds (swap rt a b s) a bells ys × Holds (swap rt a b s) b cells xs
  unfolding swap
  swap-Holds a b s cells bells xs ys h k apart =
      let (left, right, _) = swap-IsRing rt s.links a b cells bells h.ring k.ring apart in
      (
        record { ring = left; values = k.values; alive = k.alive },
        record { ring = right; values = h.values; alive = h.alive },
      )
