-- ===== src/Vector/Between.antt =====
-- How the copies and the loop of `insert` put a range between two parts of a list.
use kl.Base.{ℕ, ◌+◌, ◌-◌, ◌^◌, ◌≤◌, ◌<◌, ◌≡◌, ◌∙◌, some, List, ◌++◌, arith}
use kl.Base.{
  if◌then◌else◌, ltb, length, take, drop, get_or, copy_block, copied, copy_block-some,
  length-copied, get_or-copied, eq_of_get_or, length-append, length-take, length-drop,
  get_or-append, get_or-take, get_or-drop,
}
use kl.Vector.{store_all}
use kl.Vector.Append.{store_all-run}

module _ {A : Type 0} (d : A) where
  -- A block that holds `xs` between the two parts of `o`.
  between :
      (b o xs : List A) (pos s : ℕ)
      → pos ≤ s
      → s ≤ length o
      → s + length xs ≤ length b
      → ((i : ℕ)
          → i < s + length xs
          → get_or b i d ≡ (
              if ltb i pos
              then get_or o i d
              else if ltb i (pos + length xs)
              then get_or xs (i - pos) d
              else get_or o (i - length xs) d))
      → take (s + length xs) b ≡ take pos (take s o) ++ (xs ++ drop pos (take s o))
  between b o xs pos s h k l cell =
      eq_of_get_or (take (s + length xs) b) (take pos (take s o) ++ (xs ++ drop pos (take s o))) d
        lengths (λ i lt. each i (omega (arith, length-take (s + length xs) b)))
    where
      lengths :
          length (take (s + length xs) b)
          ≡ length (take pos (take s o) ++ (xs ++ drop pos (take s o)))
      lengths = omega (
        arith,
        length-append (take pos (take s o)) (xs ++ drop pos (take s o)),
        length-append xs (drop pos (take s o)),
        length-take (s + length xs) b,
        length-take pos (take s o),
        length-drop pos (take s o),
        length-take s o,
      )

      each :
          (i : ℕ)
          → i < s + length xs
          → get_or (take (s + length xs) b) i d
            ≡ get_or (take pos (take s o) ++ (xs ++ drop pos (take s o))) i d
      each i lt = ground (
        arith,
        get_or-take (s + length xs) b i d,
        get_or-append (take pos (take s o)) (xs ++ drop pos (take s o)) i d,
        get_or-append xs (drop pos (take s o)) (i - pos) d,
        length-take pos (take s o),
        length-take s o,
        get_or-take pos (take s o) i d,
        get_or-take s o i d,
        get_or-drop pos (take s o) (i - pos - length xs) d,
        get_or-take s o (i - length xs) d,
        cell i lt,
      )

  pub placed_range :
      (b o xs : List A) (pos s : ℕ)
      → pos ≤ s
      → s ≤ length o
      → s + length xs ≤ length b
      → s + length xs < 2 ^ 32
      → (b1 b2 b3 : List A) × (copy_block b 0 o 0 pos ≡ some b1)
        × (copy_block b1 (pos + length xs) o pos (s - pos) ≡ some b2)
        × (store_all b2 pos xs ≡ some b3)
        × (length b3 ≡ length b)
        × (take (s + length xs) b3 ≡ take pos (take s o) ++ (xs ++ drop pos (take s o)))
  placed_range b o xs pos s h k l w =
      let (b3, run, same, cell) =
        store_all-run d second pos xs (omega (arith, len2)) (omega arith) in
      (
        first,
        second,
        b3,
        copy_block-some b 0 o 0 pos (omega arith) (omega arith),
        copy_block-some first (pos + length xs) o pos (s - pos) (omega (arith, len1)) (omega arith),
        run,
        same ∙ len2,
        between b3 o xs pos s h k (omega (arith, same ∙ len2)) (λ i lt. ground (
          arith,
          cell i,
          get_or-copied b 0 o 0 pos i d (omega arith) (omega arith),
          get_or-copied first (pos + length xs) o pos (s - pos) i d (omega (arith, len1))
              (omega arith),
        )),
      )
    where
      first : List A
      first = copied b 0 o 0 pos

      len1 : length first ≡ length b
      len1 = length-copied b 0 o 0 pos (omega arith) (omega arith)

      second : List A
      second = copied first (pos + length xs) o pos (s - pos)

      len2 : length second ≡ length b
      len2 =
          length-copied first (pos + length xs) o pos (s - pos) (omega (arith, len1)) (omega arith)
          ∙ len1
