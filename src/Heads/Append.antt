-- ===== src/Heads/Append.antt =====
-- `append` of two heads.
use kl.Base.{ℕ, ◌≡◌, ◌≢◌, ◌∙◌, refl, sym, ap, true, false, List, [], ◌∷◌, ◌++◌, arith, ◌==◌}
use kl.Links.{
  Links, ListRoutines, set_flink, set_blink, Inner, last, Absent, Distinct, IsRing, SameOutside,
}
use kl.Links.Ring.{
  Apart, Absent-last, Absent-append, Apart-last, Apart-cons, Apart-tail, Apart-nil, Apart-sym,
  Distinct-append, IsRing-same, Inner-append, Inner-ends, last-append,
}
use mathlib.Core.List.{append-nil}
use kl.Heads.{append}
use kl.Heads.Swap.{not_empty}

-- The four writes, for the first cell `f` and the last `b` of the list that is appended, and the cell
-- `front` after the head.
abbrev joined : ℕ → ℕ → ℕ → ℕ → Links → Links
joined l front f b h = set_blink f l (set_flink l f (set_flink b front (set_blink front b h)))

module _ (h : Links) (l y : ℕ) (ys : List ℕ) where
  -- They join a list that is not empty with one that is,
  joined-nil : Inner h y ys → Distinct (l ∷ y ∷ ys) → IsRing (joined l l y (last y ys) h) l (y ∷ ys)
  joined-nil c d =
      let away : l ≢ last y ys = Absent-last l y ys d.0 in
      record {
        inner = (
          ground arith,
          ground arith,
          Inner-ends h (joined l l y (last y ys) h) y ys (l ∷ []) (l ∷ y ∷ []) c d.1
              (Apart-cons l (y ∷ ys) [] d.0 (Apart-nil (y ∷ ys)))
              (Apart-cons l ys (y ∷ []) d.0.1 (Apart-cons y ys [] d.1.0 (Apart-nil ys)))
              (λ p n m. ground arith) (λ p n. ground arith),
        );
        forward = ground arith;
        backward = ground arith;
        distinct = d;
      }

  -- and with one that is not.
  joined-cons :
      (x : ℕ) (zs : List ℕ)
      → Inner h y ys
      → IsRing h l (x ∷ zs)
      → Distinct (l ∷ y ∷ ys)
      → Apart (x ∷ zs) (y ∷ ys)
      → IsRing (joined l x y (last y ys) h) l ((y ∷ ys) ++ (x ∷ zs))
  joined-cons x zs c left d apart =
      let away : l ≢ last y ys = Absent-last l y ys d.0 in
      let (y_zs, zs_ys) = Apart-tail zs y ys apart.1 in
      let (y_xs, xs_ys) = Apart-tail (x ∷ zs) y ys apart in
      let g = joined l x y (last y ys) h in
      let b_xs : Absent (last y ys) (x ∷ zs) =
        Apart-last y ys (x ∷ zs) (y_xs, Apart-sym (x ∷ zs) ys xs_ys) in
      let front =
        Inner-ends h g y ys (l ∷ []) (x ∷ y ∷ []) c d.1
          (Apart-cons l (y ∷ ys) [] d.0 (Apart-nil (y ∷ ys)))
          (Apart-cons x ys (y ∷ []) apart.0.1 (Apart-cons y ys [] d.1.0 (Apart-nil ys)))
          (λ p n m. ground arith) (λ p n. ground arith) in
      let back =
        Inner-ends h g x zs (l ∷ last y ys ∷ []) (x ∷ y ∷ []) left.inner.2 left.distinct.1
          (Apart-cons l (x ∷ zs) (last y ys ∷ []) left.distinct.0
            (Apart-cons (last y ys) (x ∷ zs) [] b_xs (Apart-nil (x ∷ zs))))
          (Apart-cons x zs (y ∷ []) left.distinct.1.0 (Apart-cons y zs [] y_zs (Apart-nil zs)))
          (λ p n m. ground arith) (λ p n. ground arith) in
      let l_end : l ≢ last x zs = Absent-last l x zs left.distinct.0 in
      let b_end : last y ys ≢ last x zs = Absent-last (last y ys) x zs b_xs in
      record {
        inner = (
          ground arith,
          ground arith,
          Inner-append g y ys x zs front (ground arith) (ground arith) back,
        );
        forward = ap g.flink (last-append y ys x zs) ∙ ground (arith, left.forward);
        backward =
            ground (arith, left.backward, left.distinct.0.0, d.0.0) ∙ sym (last-append y ys x zs);
        distinct = (
          Absent-append l (y ∷ ys) (x ∷ zs) d.0 left.distinct.0,
          Distinct-append (y ∷ ys) (x ∷ zs) d.1 left.distinct.1 (Apart-sym (x ∷ zs) (y ∷ ys) apart),
        );
      }

  joined_spares :
      (front : ℕ) → SameOutside (l ∷ front ∷ (y ∷ ys)) h (joined l front y (last y ys) h)
  joined_spares front p k =
      let b : p ≢ last y ys = Absent-last p y ys k.1.1 in
      let kl : p ≢ l = k.0 in
      let kf : p ≢ front = k.1.0 in let ky : p ≢ y = k.1.1.0 in (ground arith, ground arith)

module _ (rt : ListRoutines) (h : Links) (l r : ℕ) where
  -- `append` to the head `l` of the list of another head `r` that shares no cell with it: the call
  -- succeeds, the cells of `r` stand before those of `l`, each part in its order, and `r` has none.
  pub append-IsRing :
      (xs ys : List ℕ)
      → IsRing h l xs
      → IsRing h r ys
      → Apart (l ∷ xs) (r ∷ ys)
      → ((append rt l r h).0 ≡ true)
        × IsRing (append rt l r h).1 l (ys ++ xs)
        × IsRing (append rt l r h).1 r []
  unfolding append
  append-IsRing xs [] left right apart =
      rw ((rt.is_list_empty_iff h r [] right).1 refl) (refl, left, right)
  append-IsRing [] (y ∷ ys) left right apart =
      let others : (l == r) ≡ false = ground (arith, apart.0.0) in
      let ring = joined-nil h l y ys right.inner.2 (apart.0.1, right.distinct.1) in
      let (done, spared) = rt.initialize-IsRing (joined l l y (last y ys) h) r in
      rw
        (
          not_empty rt h r y ys right,
          others,
          left.forward,
          right.inner.0,
          right.backward,
          append-nil ys,
        )
        (
          refl,
          IsRing-same _ _ l (y ∷ ys) (r ∷ []) ring spared (
              Apart-cons r (l ∷ y ∷ ys) [] ((λ e. apart.0.0 (sym e)), right.distinct.0)
                (Apart-nil (l ∷ y ∷ ys))),
          done,
        )
  append-IsRing (x ∷ zs) (y ∷ ys) left right apart =
      let others : (l == r) ≡ false = ground (arith, apart.0.0) in
      let (xs_r, xs_ys) = Apart-tail (x ∷ zs) r (y ∷ ys) apart.1 in
      let ring = joined-cons h l y ys x zs right.inner.2 left (apart.0.1, right.distinct.1) xs_ys in
      let (done, spared) = rt.initialize-IsRing (joined l x y (last y ys) h) r in
      rw (not_empty rt h r y ys right, others, left.inner.0, right.inner.0, right.backward)
        (
          refl,
          IsRing-same _ _ l ((y ∷ ys) ++ (x ∷ zs)) (r ∷ []) ring spared (
              Apart-cons r (l ∷ (y ∷ ys) ++ (x ∷ zs)) []
                ((λ e. apart.0.0 (sym e)), Absent-append r (y ∷ ys) (x ∷ zs) right.distinct.0 xs_r)
                (Apart-nil (l ∷ (y ∷ ys) ++ (x ∷ zs)))),
          done,
        )
