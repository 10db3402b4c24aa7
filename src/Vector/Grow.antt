-- ===== src/Vector/Grow.antt =====
-- `push_back` and `insert` put one element into the list.
use kl.Base.{
  ℕ, ◌+◌, ◌-◌, ◌*◌, ◌^◌, ◌≤◌, ◌<◌, ◌≡◌, ◌∙◌, sym, subst, some, List, [], ◌∷◌, ◌++◌, arith,
}
use kl.Base.{
  if◌then◌else◌, ltb, length, take, drop, get_or, copy_block, copied, copy_block-some,
  length-copied, get_or-copied,
}
use native.Mathlib.Nat.{le-mul_of_pos_right}
use kl.Vector.{store, next_capacity, grown_capacity}
use kl.Vector.Splice.{spliced}

-- Where the bytes of the next block do not wrap, neither does its capacity.
pub next_capacity-fits :
    (c width : ℕ)
    → 0 < width
    → grown_capacity c * width < 2 ^ 32
    → (c < next_capacity c) × (next_capacity c < 2 ^ 32) × (next_capacity c * width < 2 ^ 32)
unfolding next_capacity
next_capacity-fits c width pos h =
    let small : grown_capacity c < 2 ^ 32 =
      omega (arith, le-mul_of_pos_right (grown_capacity c) pos) in
    let same : next_capacity c ≡ grown_capacity c = ground (arith, small) in
    (ground (arith, small), ground (arith, small), subst (λ k. k * width < 2 ^ 32) (sym same) h)

module _ {A : Type 0} (x : A) where
  -- The element goes where the copies left room for it, in the same block or a new one.
  pub placed :
      (b o : List A) (pos s : ℕ)
      → pos ≤ s
      → s ≤ length o
      → s + 1 ≤ length b
      → ((i : ℕ) → i < pos → get_or b i x ≡ get_or o i x)
      → ((i : ℕ) → pos < i → i ≤ s → get_or b i x ≡ get_or o (i - 1) x)
      → (b' : List A) × (store b pos x ≡ some b')
        × (length b' ≡ length b)
        × (take (s + 1) b' ≡ take pos (take s o) ++ (x ∷ drop pos (take s o)))
  unfolding store
  placed b o pos s h k l before after = (
    copied b pos (x ∷ []) 0 1,
    copy_block-some b pos (x ∷ []) 0 1 (omega arith) (omega arith),
    length-copied b pos (x ∷ []) 0 1 (omega arith) (omega arith),
    spliced x (copied b pos (x ∷ []) 0 1) o x pos s h k
        (omega (arith, length-copied b pos (x ∷ []) 0 1 (omega arith) (omega arith)))
        (λ i lt. ground (arith, cell i, before i lt)) (ground (arith, cell pos))
        (λ i lt le. ground (arith, cell i, after i lt le)),
  )
    where
      cell :
          (i : ℕ)
          → get_or (copied b pos (x ∷ []) 0 1) i x ≡ (
              if ltb i pos
              then get_or b i x
              else if ltb i (pos + 1)
              then get_or (x ∷ []) (0 + (i - pos)) x
              else get_or b i x)
      cell i = get_or-copied b pos (x ∷ []) 0 1 i x (omega arith) (omega arith)

  -- In the same block the elements behind it go up by one first.
  pub placed_here :
      (o : List A) (pos s : ℕ)
      → pos ≤ s
      → s + 1 ≤ length o
      → (b b' : List A) × (copy_block o (pos + 1) o pos (s - pos) ≡ some b)
        × (store b pos x ≡ some b')
        × (length b' ≡ length o)
        × (take (s + 1) b' ≡ take pos (take s o) ++ (x ∷ drop pos (take s o)))
  placed_here o pos s h k =
      let len = length-copied o (pos + 1) o pos (s - pos) (omega arith) (omega arith) in
      let (b', run, same, text) =
        placed (copied o (pos + 1) o pos (s - pos)) o pos s h (omega arith) (omega arith)
          (λ i lt. ground (arith, cell i)) (λ i lt le. ground (arith, cell i)) in
      (
        copied o (pos + 1) o pos (s - pos),
        b',
        copy_block-some o (pos + 1) o pos (s - pos) (omega arith) (omega arith),
        run,
        same ∙ len,
        text,
      )
    where
      cell :
          (i : ℕ)
          → get_or (copied o (pos + 1) o pos (s - pos)) i x ≡ (
              if ltb i (pos + 1)
              then get_or o i x
              else if ltb i (pos + 1 + (s - pos))
              then get_or o (pos + (i - (pos + 1))) x
              else get_or o i x)
      cell i = get_or-copied o (pos + 1) o pos (s - pos) i x (omega arith) (omega arith)

  -- In a new block both parts are copied.
  pub placed_new :
      (b o : List A) (pos s : ℕ)
      → pos ≤ s
      → s ≤ length o
      → s + 1 ≤ length b
      → (b1 b2 b3 : List A) × (copy_block b 0 o 0 pos ≡ some b1)
        × (copy_block b1 (pos + 1) o pos (s - pos) ≡ some b2)
        × (store b2 pos x ≡ some b3)
        × (length b3 ≡ length b)
        × (take (s + 1) b3 ≡ take pos (take s o) ++ (x ∷ drop pos (take s o)))
  placed_new b o pos s h k l =
      let len1 = length-copied b 0 o 0 pos (omega arith) (omega arith) in
      let len2 = length-copied first (pos + 1) o pos (s - pos) (omega arith) (omega arith) in
      let (b3, run, same, text) =
        placed second o pos s h k (omega arith) (λ i lt. ground (arith, cell1 i, cell2 i))
          (λ i lt le. ground (arith, cell1 i, cell2 i)) in
      (
        first,
        second,
        b3,
        copy_block-some b 0 o 0 pos (omega arith) (omega arith),
        copy_block-some first (pos + 1) o pos (s - pos) (omega arith) (omega arith),
        run,
        same ∙ len2 ∙ len1,
        text,
      )
    where
      first : List A
      first = copied b 0 o 0 pos

      second : List A
      second = copied first (pos + 1) o pos (s - pos)

      cell1 :
          (i : ℕ)
          → get_or first i x ≡ (
              if ltb i 0
              then get_or b i x
              else if ltb i (0 + pos)
              then get_or o (0 + (i - 0)) x
              else get_or b i x)
      cell1 i = get_or-copied b 0 o 0 pos i x (omega arith) (omega arith)

      cell2 :
          (i : ℕ)
          → get_or second i x ≡ (
              if ltb i (pos + 1)
              then get_or first i x
              else if ltb i (pos + 1 + (s - pos))
              then get_or o (pos + (i - (pos + 1))) x
              else get_or first i x)
      cell2 i =
          get_or-copied first (pos + 1) o pos (s - pos) i x
            (omega (arith, length-copied b 0 o 0 pos (omega arith) (omega arith))) (omega arith)

  -- In a new block, behind all elements.
  pub placed_end :
      (b o : List A) (s : ℕ)
      → s ≤ length o
      → s + 1 ≤ length b
      → (b1 b2 : List A) × (copy_block b 0 o 0 s ≡ some b1)
        × (store b1 s x ≡ some b2)
        × (length b2 ≡ length b)
        × (take (s + 1) b2 ≡ take s (take s o) ++ (x ∷ drop s (take s o)))
  placed_end b o s k l =
      let len = length-copied b 0 o 0 s (omega arith) (omega arith) in
      let (b2, run, same, text) =
        placed (copied b 0 o 0 s) o s s (omega arith) k (omega arith)
          (λ i lt. ground (arith, cell i)) (λ i lt le. absurd (omega arith)) in
      (
        copied b 0 o 0 s,
        b2,
        copy_block-some b 0 o 0 s (omega arith) (omega arith),
        run,
        same ∙ len,
        text,
      )
    where
      cell :
          (i : ℕ)
          → get_or (copied b 0 o 0 s) i x ≡ (
              if ltb i 0
              then get_or b i x
              else if ltb i (0 + s)
              then get_or o (0 + (i - 0)) x
              else get_or b i x)
      cell i = get_or-copied b 0 o 0 s i x (omega arith) (omega arith)
