-- ===== src/Heads/Swap.antt =====
-- `swap` of two heads exchanges their lists.
use kl.Base.{
  ℕ, ◌≡◌, ◌≢◌, refl, Bool-cases, inl, inr, false, List, [], ◌∷◌, ◌++◌, arith, if◌then◌else◌, ◌==◌,
}
use kl.Links.{Links, ListRoutines, Inner, last, Absent, Distinct, IsRing, SameOutside}
use kl.Links.Ring.{
  Apart, Absent-last, Apart-cons, Apart-tail, Apart-nil, Apart-sym, SameOutside-trans, Inner-same,
  IsRing-same, Inner-ends,
}
use kl.Heads.{adopt, swap}

-- A head that is in no list takes over the cells from `x` on.
pub adopt-IsRing :
    (h : Links) (l x : ℕ) (xs : List ℕ)
    → Inner h x xs
    → Distinct (l ∷ x ∷ xs)
    → IsRing (adopt l x (last x xs) h) l (x ∷ xs)
      × SameOutside (l ∷ x ∷ last x xs ∷ []) h (adopt l x (last x xs) h)
unfolding adopt
adopt-IsRing h l x xs c d =
    let away : l ≢ last x xs = Absent-last l x xs d.0 in
    (
      record {
        inner = (
          ground arith,
          ground arith,
          Inner-ends h (adopt l x (last x xs) h) x xs (l ∷ []) (l ∷ x ∷ []) c d.1
              (Apart-cons l (x ∷ xs) [] d.0 (Apart-nil (x ∷ xs)))
              (Apart-cons l xs (x ∷ []) d.0.1 (Apart-cons x xs [] d.1.0 (Apart-nil xs)))
              (λ p n m. ground arith) (λ p n. ground arith),
        );
        forward = ground arith;
        backward = ground arith;
        distinct = d;
      },
      λ p k. ground arith,
    )

module _ (rt : ListRoutines) where
  pub not_empty :
      (h : Links) (head x : ℕ) (xs : List ℕ)
      → IsRing h head (x ∷ xs)
      → rt.is_list_empty h head ≡ false
  not_empty h head x xs r = elim (Bool-cases (rt.is_list_empty h head)) [
    | inl e ↦ cc ((rt.is_list_empty_iff h head (x ∷ xs) r).0 e)
    | inr e ↦ e
  ]

  -- One half of the exchange: `l` gets what the head `r` had in `h`, in the links `g` that are the
  -- same for its cells.
  half :
      (h g : Links) (l r : ℕ) (ys ps : List ℕ)
      → IsRing h r ys
      → Absent l ys
      → SameOutside ps h g
      → Apart ys ps
      → let g' =
          if rt.is_list_empty h r
          then rt.initialize_list_head g l
          else adopt l (h.flink r) (h.blink r) g in
        IsRing g' l ys × SameOutside (l ∷ ys) g g'
  half h g l r [] ps ring away same apart =
      rw ((rt.is_list_empty_iff h r [] ring).1 refl) (rt.initialize-IsRing g l)
  half h g l r (y ∷ ys) ps ring away same apart =
      let (taken, spared) =
        adopt-IsRing g l y ys (Inner-same h g y ys ps ring.inner.2 same apart)
          (away, ring.distinct.1) in
      rw (not_empty h r y ys ring, ring.inner.0, ring.backward)
        (taken, λ p k. spared p (k.0, (k.1.0, (Absent-last p y ys k.1, tt))))

  -- `swap` of two heads of lists that share no cell: afterwards each of them is the head of the list
  -- that the other had, in the same order, and no cell but theirs has changed.
  pub swap-IsRing :
      (h : Links) (l r : ℕ) (xs ys : List ℕ)
      → IsRing h l xs
      → IsRing h r ys
      → Apart (l ∷ xs) (r ∷ ys)
      → IsRing (swap rt l r h) l ys
        × IsRing (swap rt l r h) r xs
        × SameOutside ((l ∷ ys) ++ (r ∷ xs)) h (swap rt l r h)
  unfolding swap
  swap-IsRing h l r xs ys left right apart =
      let others : (l == r) ≡ false = ground (arith, apart.0.0) in
      let (xs_r, xs_ys) = Apart-tail xs r ys apart.1 in
      let (first, spared) =
        half h h l r ys [] right apart.0.1 (λ p k. (refl, refl)) (Apart-nil ys) in
      let (second, spared') =
        half h _ r l xs (l ∷ ys) left xs_r spared (Apart-cons l xs ys left.distinct.0 xs_ys) in
      rw others (
        IsRing-same _ _ l ys (r ∷ xs) first spared' (
          (apart.0.0, left.distinct.0),
          Apart-cons r ys xs right.distinct.0 (Apart-sym xs ys xs_ys),
        ),
        second,
        SameOutside-trans (l ∷ ys) (r ∷ xs) spared spared',
      )
