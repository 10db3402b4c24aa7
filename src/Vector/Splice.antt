-- ===== src/Vector/Splice.antt =====
-- A block that holds a list with one element more, or one less, from what it holds at each index.
use kl.Base.{ℕ, zero, suc, ◌+◌, ◌-◌, ◌≤◌, ◌<◌, ◌≡◌, ap, List, ◌∷◌, ◌++◌, arith}
use kl.Base.{
  length, take, drop, get_or, eq_of_get_or, length-append, length-take, length-drop, get_or-append,
  get_or-take, get_or-drop,
}

module _ {A : Type 0} (d : A) where
  pub get_or-cons :
      (x : A) (xs : List A) (i : ℕ) → 0 < i → get_or (x ∷ xs) i d ≡ get_or xs (i - 1) d
  get_or-cons x xs zero h = absurd (omega arith)
  get_or-cons x xs (suc i) h = ap (λ j. get_or xs j d) (omega arith)

  pub spliced :
      (b o : List A) (x : A) (pos s : ℕ)
      → pos ≤ s
      → s ≤ length o
      → s + 1 ≤ length b
      → ((i : ℕ) → i < pos → get_or b i d ≡ get_or o i d)
      → get_or b pos d ≡ x
      → ((i : ℕ) → pos < i → i ≤ s → get_or b i d ≡ get_or o (i - 1) d)
      → take (s + 1) b ≡ take pos (take s o) ++ (x ∷ drop pos (take s o))
  spliced b o x pos s h k l before here after =
      eq_of_get_or (take (s + 1) b) (take pos (take s o) ++ (x ∷ drop pos (take s o))) d same_length
        (λ i l. each i (omega (arith, length-take (s + 1) b)))
    where
      same_length :
          length (take (s + 1) b) ≡ length (take pos (take s o) ++ (x ∷ drop pos (take s o)))
      same_length = omega (
        arith,
        length-append (take pos (take s o)) (x ∷ drop pos (take s o)),
        length-take (s + 1) b,
        length-take pos (take s o),
        length-drop pos (take s o),
        length-take s o,
      )

      each :
          (i : ℕ)
          → i ≤ s
          → get_or (take (s + 1) b) i d
            ≡ get_or (take pos (take s o) ++ (x ∷ drop pos (take s o))) i d
      each i le = ground (
        arith,
        get_or-take (s + 1) b i d,
        get_or-append (take pos (take s o)) (x ∷ drop pos (take s o)) i d,
        length-take pos (take s o),
        length-take s o,
        get_or-take pos (take s o) i d,
        get_or-take s o i d,
        get_or-cons x (drop pos (take s o)) (i - pos),
        get_or-drop pos (take s o) (i - pos - 1) d,
        get_or-take s o (i - 1) d,
        before i,
        here,
        after i,
      )
