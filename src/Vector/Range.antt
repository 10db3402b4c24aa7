-- ===== src/Vector/Range.antt =====
-- `insert` of a range.
use kl.Base.{
  ℕ, ◌+◌, ◌-◌, ◌*◌, ◌^◌, ◌≤◌, ◌<◌, ◌≡◌, ◌∙◌, refl, ap, Bool, true, false, Option, none, some, List,
  [], ◌∷◌, ◌++◌, arith,
}
use kl.Base.{
  ltb, ◌>>=◌, length, take, drop, add32, sub32, mul32, copy_block, copied, copy_block-some,
  length-copied,
}
use native.Mathlib.Nat.{le-mul_of_pos_right, mod-eq_of_lt}
use kl.Vector.{
  Vector, Span, outside_range, own_range, block, next_capacity, grown_capacity, larger, range_in,
  insert_range, range_length, store_range_moved,
}
use kl.Base.{Bool-cases, inl, inr, ltb→lt, ltb→le, lt→ltb}
use kl.Vector.Inv.{IsValid, items, IsPool, length-pool}
use kl.Vector.Grow.{next_capacity-fits}
use kl.Vector.Between.{placed_range}

larger-fits :
    (c width ns : ℕ)
    → 0 < width
    → grown_capacity c * width < 2 ^ 32
    → ns * width < 2 ^ 32
    → let n = larger ns (next_capacity c) in
      (c < n) × (ns ≤ n) × (n < 2 ^ 32) × (n * width < 2 ^ 32)
larger-fits c width ns positive grown small =
    let (more, next_word, bytes) = next_capacity-fits c width positive grown in
    let word : ns < 2 ^ 32 = omega (arith, small, le-mul_of_pos_right ns positive) in
    elim (Bool-cases (ltb (next_capacity c) ns)) [
      | inl e ↦
          let lt = ltb→lt (next_capacity c) ns e in rw e (omega arith, omega arith, word, small)
      | inr e ↦ let le = ltb→le (next_capacity c) ns e in rw e (more, omega arith, next_word, bytes)
    ]

module _ {A : Type 0} (v : Vector A) where
  -- `insert` of a range with a new block: elements from elsewhere are in the list, in a valid vector,
  -- and own ones are read after their block was freed.
  abbrev pub Spliced : Span A → ℕ → Option (Bool × Vector A) → Type 0
  Spliced (outside_range xs) pos run =
      (v' : Vector A) × (run ≡ some (true, v'))
      × IsValid v'
      × (items v' ≡ take pos (items v) ++ (xs ++ drop pos (items v)))
  Spliced (own_range first count) pos run = run ≡ none

  -- The same by what the pool gives: without a block it says false and changes nothing.
  abbrev pub Ranged : Span A → ℕ → Option (List A) → Option (Bool × Vector A) → Type 0
  Ranged range pos none run = run ≡ some (false, v)
  Ranged range pos (some b) run = Spliced range pos run

module _ {A : Type 0} (pool : ℕ → Option (List A)) (width : ℕ) (law : IsPool pool width)
    (v : Vector A) (ok : IsValid v) where
  outside-Spliced :
      (d : A) (pos n : ℕ) (xs b : List A)
      → pos ≤ v.size
      → v.capacity < n
      → v.size + length xs ≤ n
      → n < 2 ^ 32
      → n * width < 2 ^ 32
      → pool (mul32 n width) ≡ some b
      → Spliced v (outside_range xs) pos (range_in pool width v pos (outside_range xs) n)
  unfolding range_in store_range_moved
  outside-Spliced d pos n xs b within more room top small e =
      let (filled, inside, bound) : (v.size ≤ v.capacity)
          × (v.capacity ≤ length (block v))
          × (v.capacity < 2 ^ 32) =
        (ok.filled, ok.inside, ok.word) in
      let len = length-pool pool width n law small e in
      let (b1, b2, b3, run1, run2, run3, same, text) =
        placed_range d b (block v) xs pos v.size within (omega arith) (omega arith) (omega arith) in
      let left : sub32 v.size pos ≡ v.size - pos = omega arith in
      let next : add32 v.size (length xs) ≡ v.size + length xs = omega arith in
      let run2' = ap (copy_block b1 (pos + length xs) (block v) pos) left ∙ run2 in
      (
        record { cells = some b3; capacity = n; size = add32 v.size (length xs) },
        rw (lt→ltb v.capacity n more, range_in, e, run1, ◌>>=◌, run2', run3),
        record { filled = omega arith; inside = omega arith; word = top },
        ap (λ k. take k b3) next ∙ text,
      )

  own-Spliced :
      (pos n first count : ℕ) (b : List A)
      → pos ≤ v.size
      → v.capacity < n
      → v.size + count ≤ n
      → 0 < count
      → n * width < 2 ^ 32
      → pool (mul32 n width) ≡ some b
      → range_in pool width v pos (own_range first count) n ≡ none
  unfolding range_in store_range_moved
  own-Spliced pos n first count b within more room some_own small e =
      let (filled, inside) : (v.size ≤ v.capacity) × (v.capacity ≤ length (block v)) =
        (ok.filled, ok.inside) in
      let len = length-pool pool width n law small e in
      let run1 = copy_block-some b 0 (block v) 0 pos (omega arith) (omega arith) in
      let len1 = length-copied b 0 (block v) 0 pos (omega arith) (omega arith) in
      let left : sub32 v.size pos ≡ v.size - pos = omega (arith, ok.word) in
      let run2 =
        copy_block-some (copied b 0 (block v) 0 pos) (pos + count) (block v) pos (v.size - pos)
          (omega (arith, len1)) (omega arith) in
      rw (lt→ltb v.capacity n more, range_in, e, run1, ◌>>=◌, left, run2, lt→ltb 0 count some_own)
        refl

  range_in-Ranged :
      (range : Span A) (pos n : ℕ) (got : Option (List A))
      → 0 < range_length range
      → pos ≤ v.size
      → v.capacity < n
      → v.size + range_length range ≤ n
      → n < 2 ^ 32
      → n * width < 2 ^ 32
      → pool (mul32 n width) ≡ got
      → Ranged v range pos got (range_in pool width v pos range n)
  unfolding range_in
  range_in-Ranged range pos n none filled within more room top small e =
      rw (lt→ltb v.capacity n more, range_in, e) refl
  range_in-Ranged (outside_range []) pos n (some b) filled within more room top small e =
      absurd (omega (arith, filled))
  range_in-Ranged (outside_range (x ∷ xs)) pos n (some b) filled within more room top small e =
      outside-Spliced x pos n (x ∷ xs) b within more room top small e
  range_in-Ranged (own_range first count) pos n (some b) filled within more room top small e =
      own-Spliced pos n first count b within more room filled small e

  -- `insert` of a range that is not empty, by pointers, into a valid vector at an index up to the
  -- size, where the bytes of the next block and of both parts do not wrap, always asks the pool for
  -- the larger of the two. With that block it says true and gives a valid vector, with elements from
  -- elsewhere in the list at that index; of own elements the first is read after the block was freed.
  -- With none it says false and nothing changes.
  pub insert_range-splices :
      (range : Span A) (pos : ℕ)
      → 0 < range_length range
      → pos ≤ v.size
      → 0 < width
      → grown_capacity v.capacity * width < 2 ^ 32
      → (v.size + range_length range) * width < 2 ^ 32
      → Ranged v range pos
          (pool (larger (v.size + range_length range) (next_capacity v.capacity) * width))
          (insert_range pool width v pos range)
  unfolding insert_range
  insert_range-splices range pos filled within positive grown small =
      let ns = v.size + range_length range in
      let (more, room, top, bytes) = larger-fits v.capacity width ns positive grown small in
      let n = larger ns (next_capacity v.capacity) in
      let word : ns < 2 ^ 32 = omega (arith, room, top) in
      let sum : add32 v.size (range_length range) ≡ ns = omega (arith, word) in
      let exact : mul32 n width ≡ n * width = mod-eq_of_lt bytes in
      rw (lt→ltb 0 (range_length range) filled, sum)
        (range_in-Ranged range pos n (pool (n * width)) filled within more room top bytes
          (ap pool exact))
