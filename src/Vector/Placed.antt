-- ===== src/Vector/Placed.antt =====
-- `push_back` and `insert` of an element that stands elsewhere.
use kl.Base.{
  ℕ, ◌+◌, ◌*◌, ◌^◌, ◌≤◌, ◌<◌, ◌≡◌, ◌∙◌, refl, ap, Bool, true, false, Option, none, some, List, ◌∷◌,
  ◌++◌, arith,
}
use kl.Base.{ltb, lt→ltb, ◌==◌, ◌>>=◌, length, take, drop, add32, mul32}
use kl.Vector.{
  Vector, Ref, outside, own, block, next_capacity, grown_capacity, push_back, insert, regrow,
  store_ref, store_moved,
}
use kl.Vector.Inv.{IsValid, items, IsPool, length-pool}
use kl.Vector.Grow.{next_capacity-fits, placed, placed_here, placed_new, placed_end}

module _ {A : Type 0} (v : Vector A) where
  -- A call that ends with the result `ok` in a valid vector, with the element in the list at `pos`.
  abbrev pub Placed : A → Bool → ℕ → Option (Bool × Vector A) → Type 0
  Placed x ok pos run =
      (v' : Vector A) × (run ≡ some (ok, v'))
      × IsValid v'
      × (items v' ≡ take pos (items v) ++ (x ∷ drop pos (items v)))

  -- A call where the block is full, by what the pool gives: with no new block it says false and
  -- changes nothing; with one, an element from elsewhere is placed, and to read an own one is a fault.
  abbrev pub Full : Ref A → ℕ → Option (List A) → Option (Bool × Vector A) → Type 0
  Full value pos none run = run ≡ some (false, v)
  Full (outside x) pos (some b) run = Placed x true pos run
  Full (own i) pos (some b) run = run ≡ none

module _ {A : Type 0} (v : Vector A) (ok : IsValid v) where
  pub facts : (v.size ≤ v.capacity) × (v.capacity ≤ length (block v)) × (v.capacity < 2 ^ 32)
  facts = (ok.filled, ok.inside, ok.word)

  pub no_room : v.size ≡ v.capacity → ltb v.size v.capacity ≡ false
  no_room full = ground arith

  pub capacity_met : v.size ≡ v.capacity → (v.capacity == v.size) ≡ true
  capacity_met full = ground arith

  pub size_met : v.size ≡ v.capacity → (v.size == v.capacity) ≡ true
  size_met full = ground arith

  pub inner : (pos : ℕ) → pos < v.size → (ltb v.size pos ≡ false) × ((pos == v.size) ≡ false)
  inner pos before = (ground arith, ground arith)

module _ {A : Type 0} (pool : ℕ → Option (List A)) (width : ℕ) (v : Vector A)
    (law : IsPool pool width) (ok : IsValid v) (positive : 0 < width)
    (grown : v.size ≡ v.capacity → grown_capacity v.capacity * width < 2 ^ 32) where
  pub length-new :
      v.size ≡ v.capacity
      → (b : List A) → pool (mul32 (next_capacity v.capacity) width) ≡ some b
      → length b ≡ next_capacity v.capacity
  length-new full b e =
      length-pool pool width (next_capacity v.capacity) law
        (next_capacity-fits v.capacity width positive (grown full)).2 e

  module _ (x : A) where
    pub push_back_room :
        v.size < v.capacity → Placed v x false v.size (push_back pool width v (outside x))
    unfolding push_back store_ref store_moved
    push_back_room room =
        let (filled, inside, word) = facts v ok in
        let (b, run, len, text) =
          placed x (block v) (block v) v.size v.size (omega arith) (omega arith) (omega arith)
            (λ i lt. refl) (λ i lt le. absurd (omega arith)) in
        let next : add32 v.size 1 ≡ v.size + 1 = omega arith in
        (
          record v { cells = some b; size = add32 v.size 1 },
          rw (lt→ltb v.size v.capacity room, push_back, run, ◌>>=◌),
          record { filled = omega arith; inside = omega arith; word = word },
          ap (λ n. take n b) next ∙ text,
        )

    pub push_back-Full :
        v.size ≡ v.capacity
        → (got : Option (List A)) → pool (mul32 (next_capacity v.capacity) width) ≡ got
        → Full v (outside x) v.size got (push_back pool width v (outside x))
    unfolding push_back store_ref store_moved
    push_back-Full full none e = rw (no_room v ok full, capacity_met v ok full, e, push_back) refl
    push_back-Full full (some b) e =
        let (filled, inside, word) = facts v ok in
        let (more, next_word, bytes) = next_capacity-fits v.capacity width positive (grown full) in
        let len = length-new full b e in
        let (b1, b2, run1, run2, same, text) =
          placed_end x b (block v) v.size (omega arith) (omega arith) in
        let next : add32 v.size 1 ≡ v.size + 1 = omega arith in
        (
          record { cells = some b2; capacity = next_capacity v.capacity; size = add32 v.size 1 },
          rw (no_room v ok full, capacity_met v ok full, e, push_back, run1, ◌>>=◌, run2),
          record { filled = omega arith; inside = omega arith; word = next_word },
          ap (λ n. take n b2) next ∙ text,
        )

    pub insert_room :
        (pos : ℕ)
        → pos < v.size
        → v.size < v.capacity
        → Placed v x false pos (insert pool width v pos (outside x))
    unfolding insert store_ref
    insert_room pos before room =
        let (filled, inside, word) = facts v ok in
        let (b, b', run1, run2, len, text) =
          placed_here x (block v) pos v.size (omega arith) (omega arith) in
        let next : add32 v.size 1 ≡ v.size + 1 = omega arith in
        (
          record v { cells = some b'; size = add32 v.size 1 },
          rw (
            (inner v ok pos before).0,
            (inner v ok pos before).1,
            lt→ltb v.size v.capacity room,
            insert,
            run1,
            ◌>>=◌,
            run2,
          ),
          record { filled = omega arith; inside = omega arith; word = word },
          ap (λ n. take n b') next ∙ text,
        )

    pub insert-Full :
        (pos : ℕ)
        → pos < v.size
        → v.size ≡ v.capacity
        → (got : Option (List A)) → pool (mul32 (next_capacity v.capacity) width) ≡ got
        → Full v (outside x) pos got (insert pool width v pos (outside x))
    unfolding insert regrow store_moved
    insert-Full pos before full none e =
        rw
          (
            (inner v ok pos before).0,
            (inner v ok pos before).1,
            no_room v ok full,
            size_met v ok full,
            insert,
            e,
            regrow,
          )
          refl
    insert-Full pos before full (some b) e =
        let (filled, inside, word) = facts v ok in
        let (more, next_word, bytes) = next_capacity-fits v.capacity width positive (grown full) in
        let len = length-new full b e in
        let (b1, b2, b3, run1, run2, run3, same, text) =
          placed_new x b (block v) pos v.size (omega arith) (omega arith) (omega arith) in
        let next : add32 v.size 1 ≡ v.size + 1 = omega arith in
        (
          record { cells = some b3; capacity = next_capacity v.capacity; size = add32 v.size 1 },
          rw (
            (inner v ok pos before).0,
            (inner v ok pos before).1,
            no_room v ok full,
            size_met v ok full,
            insert,
            e,
            regrow,
            run1,
            ◌>>=◌,
            run2,
            run3,
          ),
          record { filled = omega arith; inside = omega arith; word = next_word },
          ap (λ n. take n b3) next ∙ text,
        )
