-- ===== src/Vector/Append.antt =====
-- `append` and the copy of a vector.
use mathlib.Core.List.{append-nil}
use kl.Base.{
  ◌⊎◌, ℕ, ◌+◌, ◌-◌, ◌*◌, ◌^◌, ◌≤◌, ◌<◌, ◌≡◌, ◌∙◌, refl, ap, sym, Bool, inl, inr, true, false,
  Option, none, some, List, [], ◌∷◌, ◌++◌, arith,
}
use kl.Base.{
  if◌then◌else◌, ltb, ◌>>=◌, length, take, get_or, add32, mul32, copy_block, copied,
  copy_block-some, length-copied, get_or-copied, eq_of_get_or, length-append, length-take,
  get_or-append, get_or-take, take-copied_before, eq-nil_of_length,
}
use kl.Vector.{Vector, block, with_block, store, store_all, reserve, append, copy}
use kl.Vector.Inv.{IsValid, items, length-items, IsPool, length-pool}
use kl.Vector.Splice.{get_or-cons}
use kl.Vector.Erase.{reserve-keeps}

module _ {A : Type 0} where
  -- The loop of constructions writes the range and leaves the rest.
  pub store_all-run :
      (d : A) (b : List A) (i : ℕ) (xs : List A)
      → i + length xs ≤ length b
      → i + length xs < 2 ^ 32
      → (b' : List A) × (store_all b i xs ≡ some b')
        × (length b' ≡ length b)
        × ((j : ℕ)
            → get_or b' j d ≡ (
                if ltb j i
                then get_or b j d
                else if ltb j (i + length xs)
                then get_or xs (j - i) d
                else get_or b j d))
  unfolding store_all store
  store_all-run d b i [] h w = (b, refl, refl, λ j. ground arith)
  store_all-run d b i (x ∷ xs) h w =
      let first = copied b i (x ∷ []) 0 1 in
      let len = length-copied b i (x ∷ []) 0 1 (omega arith) (omega arith) in
      let (b', run, same, cell) = store_all-run d first (i + 1) xs (omega arith) (omega arith) in
      let next : add32 i 1 ≡ i + 1 = omega arith in
      (
        b',
        rw (copy_block-some b i (x ∷ []) 0 1 (omega arith) (omega arith), ◌>>=◌)
            (ap (λ k. store_all first k xs) next ∙ run),
        same ∙ len,
        λ j. ground (
          arith,
          cell j,
          get_or-copied b i (x ∷ []) 0 1 j d (omega arith) (omega arith),
          get_or-cons d x xs (j - i),
        ),
      )

  store_all-take :
      (b : List A) (i : ℕ) (xs : List A)
      → i + length xs ≤ length b
      → i + length xs < 2 ^ 32
      → (b' : List A) × (store_all b i xs ≡ some b')
        × (length b' ≡ length b)
        × (take (i + length xs) b' ≡ take i b ++ xs)
  unfolding store_all
  store_all-take b i [] h w =
      let none_more : i + 0 ≡ i = omega arith in
      (b, refl, refl, ap (λ n. take n b) none_more ∙ sym (append-nil (take i b)))
  store_all-take b i (x ∷ xs) h w =
      let (b', run, same, cell) = store_all-run x b i (x ∷ xs) h w in
      (
        b',
        run,
        same,
        eq_of_get_or (take (i + length (x ∷ xs)) b') (take i b ++ (x ∷ xs)) x
            (omega (
              arith,
              length-take (i + length (x ∷ xs)) b',
              length-append (take i b) (x ∷ xs),
              length-take i b,
            ))
            (λ j lt. ground (
              arith,
              get_or-take (i + length (x ∷ xs)) b' j x,
              length-take (i + length (x ∷ xs)) b',
              get_or-append (take i b) (x ∷ xs) j x,
              length-take i b,
              get_or-take i b j x,
              cell j,
            )),
      )

  -- A copy of the elements of `r` behind the first `i` cells of a block, as `append` and the copy
  -- constructor make it: first the bytes, then the constructions.
  joined :
      (b : List A) (i : ℕ) (r : Vector A)
      → IsValid r
      → i + r.size ≤ length b
      → i + r.size < 2 ^ 32
      → (b1 b2 : List A) × (copy_block b i (block r) 0 r.size ≡ some b1)
        × (store_all b1 i (take r.size (block r)) ≡ some b2)
        × (length b2 ≡ length b)
        × (take (i + r.size) b2 ≡ take i b ++ items r)
  joined b i r ok h w =
      let held : r.size ≤ length (block r) = omega (arith, ok.filled, ok.inside) in
      let count = length-items r ok in
      let len = length-copied b i (block r) 0 r.size (omega arith) (omega arith) in
      let (b2, run, same, text) =
        store_all-take (copied b i (block r) 0 r.size) i (items r) (omega arith) (omega arith) in
      (
        copied b i (block r) 0 r.size,
        b2,
        copy_block-some b i (block r) 0 r.size (omega arith) (omega arith),
        run,
        same ∙ len,
        ap (λ n. take (i + n) b2) (sym count)
            ∙ text
            ∙ ap (λ u. u ++ items r) (take-copied_before b i (block r) 0 r.size (omega arith)),
      )

-- What the copy constructor makes of `v`, by the block that the pool gave it.
abbrev pub Copied : {A : Type 0} → Vector A → Vector A → Option (List A) → Type 0
Copied v v' none = (items v' ≡ []) × (v'.capacity ≡ 0)
Copied v v' (some b) = (items v' ≡ items v) × (v'.capacity ≡ v.capacity)

module _ {A : Type 0} (pool : ℕ → Option (List A)) (width : ℕ) (law : IsPool pool width)
    (v : Vector A) (ok : IsValid v) where
  Copied-by :
      (got : Option (List A))
      → v.capacity * width < 2 ^ 32
      → pool (mul32 v.capacity width) ≡ got
      → (v' : Vector A) × (copy pool width v ≡ some v') × IsValid v' × Copied v v' got
  unfolding copy
  Copied-by none small e = (
    record { cells = none; capacity = 0; size = 0 },
    rw (e, copy),
    record { filled = omega arith; inside = omega arith; word = omega arith },
    (refl, refl),
  )
  Copied-by (some b) small e =
      let len = length-pool pool width v.capacity law small e in
      let filled = ok.filled in
      let word = ok.word in
      let (b1, b2, run1, run2, same, text) = joined b 0 v ok (omega arith) (omega arith) in
      let count : 0 + v.size ≡ v.size = omega arith in
      (
        record { cells = some b2; capacity = v.capacity; size = v.size },
        rw (e, copy, run1, ◌>>=◌, run2),
        record { filled = filled; inside = omega arith; word = word },
        (ap (λ n. take n b2) (sym count) ∙ text, refl),
      )

  -- The copy constructor, of a valid vector whose bytes do not wrap, never leaves its blocks and
  -- gives a valid vector: with the same list and capacity, or empty where the pool has no room.
  pub copy-keeps :
      v.capacity * width < 2 ^ 32
      → (v' : Vector A) × (copy pool width v ≡ some v')
        × IsValid v'
        × Copied v v' (pool (mul32 v.capacity width))
  copy-keeps small = Copied-by (pool (mul32 v.capacity width)) small refl

-- A write through `_data` keeps the block's length, and the capacity.
with_block-block :
    {A : Type 0} (o : Option (List A)) (c s : ℕ) (b : List A)
    → let v : Vector A = record { cells = o; capacity = c; size = s } in
      length b ≡ length (block v) → (block (with_block v b) ≡ b) × ((with_block v b).capacity ≡ c)
with_block-block none c s b e = (sym (eq-nil_of_length b e), refl)
with_block-block (some o) c s b e = (refl, refl)

module _ {A : Type 0} (pool : ℕ → Option (List A)) (width : ℕ) (law : IsPool pool width)
    (v : Vector A) (ok : IsValid v) (r : Vector A) (okr : IsValid r) where
  append-room :
      (v1 : Vector A)
      → IsValid v1
      → items v1 ≡ items v
      → v.size + r.size ≤ v1.capacity
      → v.size + r.size < 2 ^ 32
      → reserve pool width v (add32 v.size r.size) ≡ some (true, v1)
      → (v' : Vector A) × (append pool width v r ≡ some (true, v'))
        × IsValid v'
        × (items v' ≡ items v ++ items r)
  unfolding append
  append-room v1 valid same room word run =
      let size : v1.size ≡ v.size =
        omega (arith, ap length same, length-items v1 valid, length-items v ok) in
      let (filled, inside, top) : (v1.size ≤ v1.capacity)
          × (v1.capacity ≤ length (block v1))
          × (v1.capacity < 2 ^ 32) =
        (valid.filled, valid.inside, valid.word) in
      let (b1, b2, run1, run2, len, text) =
        joined (block v1) v1.size r okr (omega arith) (omega arith) in
      let (held, capacity) = with_block-block v1.cells v1.capacity v1.size b2 len in
      let next : add32 v1.size r.size ≡ v1.size + r.size = omega arith in
      (
        record (with_block v1 b2) { size = add32 v1.size r.size },
        rw (run, ◌>>=◌, run1, run2),
        record { filled = omega arith; inside = omega (arith, ap length held); word = omega arith },
        ap (take (add32 v1.size r.size)) held
            ∙ ap (λ n. take n b2) next
            ∙ text
            ∙ ap (λ u. u ++ items r) same,
      )

  -- `append` of a valid vector to another, where the bytes of both do not wrap, never leaves its
  -- blocks and gives a valid vector: it says true and the list is that of both, or it says false,
  -- nothing changes, and the pool has no room for both.
  pub append-joins :
      v.size + r.size < 2 ^ 32
      → (v.size + r.size) * width < 2 ^ 32
      → (t : Bool) × (v' : Vector A) × (append pool width v r ≡ some (t, v'))
        × IsValid v'
        × (((t ≡ true) × (items v' ≡ items v ++ items r))
            ⊎ ((t ≡ false) × (v' ≡ v) × (pool (mul32 (v.size + r.size) width) ≡ none)))
  unfolding append
  append-joins word small =
      let sum : add32 v.size r.size ≡ v.size + r.size = omega arith in
      let (t, v1, run, valid, same, outcome) =
        reserve-keeps pool width law v ok (v.size + r.size) word small in
      let run' = ap (reserve pool width v) sum ∙ run in
      elim outcome [
        | inl (room, fits) ↦
            let (v', done, valid', text) =
              append-room v1 valid same fits word (run' ∙ ap (λ b. some (b, v1)) room) in
            (true, v', done, valid', inl (refl, text))
        | inr (failed, unchanged, empty) ↦
            (false, v1, rw (run', ◌>>=◌, failed), valid, inr (refl, unchanged, empty))
      ]
