-- ===== src/Heads/Unlink.antt =====
-- `remove`'s unlinking of a cell.
use kl.Base.{ℕ, ◌≡◌, ◌≢◌, ◌∙◌, sym, ap, List, [], ◌∷◌, ◌++◌, arith}
use kl.Links.{Links, update, last, Absent, Distinct, IsRing, SameOutside}
use kl.Links.Ring.{
  Apart, Absent-last, Absent-append, Absent-left, Absent-right, Apart-last, Apart-cons, Apart-tail,
  Apart-nil, Inner-ends, Inner-append, Inner-split, last-append,
}
use mathlib.Core.List.{append-nil}
use kl.Heads.{unlink}

-- What `Distinct` says of a cell in the middle.
pub Distinct-middle :
    (l : ℕ) (xs : List ℕ) (e : ℕ) (ys : List ℕ)
    → Distinct (l ∷ xs ++ (e ∷ ys))
    → Distinct (l ∷ xs ++ ys)
      × Absent e (l ∷ xs)
      × Absent e ys
      × Distinct (l ∷ xs)
      × Distinct ys
      × Apart (l ∷ xs) ys
Distinct-middle l [] e ys d =
    ((d.0.1, d.1.1), ((λ q. d.0.0 (sym q)), tt), d.1.0, (tt, tt), d.1.1, (d.0.1, tt))
Distinct-middle l (x ∷ xs) e ys d =
    let (whole, out, rest, left, right, apart) = Distinct-middle x xs e ys d.1 in
    let far = Absent-right l (x ∷ xs) (e ∷ ys) d.0 in
    let near = Absent-left l (x ∷ xs) (e ∷ ys) d.0 in
    (
      (Absent-append l (x ∷ xs) ys near far.1, whole),
      ((λ q. far.0 (sym q)), out),
      rest,
      (near, left),
      right,
      (far.1, apart),
    )

module _ (h : Links) (l e : ℕ) where
  -- `unlink` of a cell that is in a list: the list keeps its other cells, in their order, and the
  -- links of the cell are null.
  pub unlink-IsRing :
      (xs ys : List ℕ)
      → IsRing h l (xs ++ (e ∷ ys))
      → IsRing (unlink e h) l (xs ++ ys)
        × ((unlink e h).flink e ≡ 0)
        × ((unlink e h).blink e ≡ 0)
        × SameOutside (l ∷ xs ++ (e ∷ ys)) h (unlink e h)
  unfolding unlink
  unlink-IsRing xs [] ring =
      let (whole, out, rest, left, right, apart) = Distinct-middle l xs e [] ring.distinct in
      let (a, f, b, d) = Inner-split h l xs e [] ring.inner in
      let next : h.flink e ≡ l = ap h.flink (sym (last-append l xs e [])) ∙ ring.forward in
      let e_p = Absent-last e l xs out in
      let spares_end : SameOutside (l ∷ xs ++ (e ∷ [])) h (record {
        flink = update (update h.flink (last l xs) l) e 0;
        blink = update (update h.blink l (last l xs)) e 0;
      }) =
        λ p k.
          let p_e = (Absent-right p xs (e ∷ []) k.1).0 in
          let p_p : p ≢ last l xs = Absent-last p l xs (k.0, Absent-left p xs (e ∷ []) k.1) in
          let p_l : p ≢ l = k.0 in (ground arith, ground arith) in
      rw (append-nil xs, next, b)
        (
          record {
            inner =
                Inner-ends h _ l xs (e ∷ []) (l ∷ e ∷ []) a left
                  (Apart-cons e (l ∷ xs) [] out (Apart-nil (l ∷ xs)))
                  (Apart-cons l xs (e ∷ []) left.0 (Apart-cons e xs [] out.1 (Apart-nil xs)))
                  (λ p n m. ground arith) (λ p n. ground arith);
            forward = ground arith;
            backward = ground (arith, out.0);
            distinct = left;
          },
          ground arith,
          ground arith,
          λ p k. spares_end p k,
        )
  unlink-IsRing xs (y ∷ zs) ring =
      let (whole, out, rest, left, right, apart) = Distinct-middle l xs e (y ∷ zs) ring.distinct in
      let (a, f, b, d) = Inner-split h l xs e (y ∷ zs) ring.inner in
      let g : Links = record {
        flink = update (update h.flink (last l xs) y) e 0;
        blink = update (update h.blink y (last l xs)) e 0;
      } in
      let e_p = Absent-last e l xs out in
      let (l_y, xs_y) = Apart-tail (l ∷ xs) y zs apart in
      let prev_far = Apart-last l xs (y ∷ zs) apart in
      let last_p : last l xs ≢ last y zs = Absent-last (last l xs) y zs prev_far in
      let last_e : e ≢ last y zs = Absent-last e y zs rest in
      let before =
        Inner-ends h g l xs (e ∷ []) (y ∷ e ∷ []) a left
          (Apart-cons e (l ∷ xs) [] out (Apart-nil (l ∷ xs)))
          (Apart-cons y xs (e ∷ []) l_y.1 (Apart-cons e xs [] out.1 (Apart-nil xs)))
          (λ p n m. ground arith) (λ p n. ground arith) in
      let after =
        Inner-ends h g y zs (last l xs ∷ e ∷ []) (y ∷ e ∷ []) d.2 right
          (Apart-cons (last l xs) (y ∷ zs) (e ∷ []) prev_far
            (Apart-cons e (y ∷ zs) [] rest (Apart-nil (y ∷ zs))))
          (Apart-cons y zs (e ∷ []) right.0 (Apart-cons e zs [] rest.1 (Apart-nil zs)))
          (λ p n m. ground arith) (λ p n. ground arith) in
      let ends : h.flink (last y zs) ≡ l =
        ap h.flink (sym (last-append l xs e (y ∷ zs))) ∙ ring.forward in
      let starts : h.blink l ≡ last y zs = ring.backward ∙ last-append l xs e (y ∷ zs) in
      rw (d.0, b)
        (
          record {
            inner = Inner-append g l xs y zs before (ground arith) (ground (arith, rest.0)) after;
            forward = ap g.flink (last-append l xs y zs) ∙ ground arith;
            backward = ground (arith, out.0, l_y.0) ∙ sym (last-append l xs y zs);
            distinct = whole;
          },
          ground arith,
          ground arith,
          λ p k.
              let p_e = Absent-right p xs (e ∷ y ∷ zs) k.1 in
              let p_p : p ≢ last l xs =
                Absent-last p l xs (k.0, Absent-left p xs (e ∷ y ∷ zs) k.1) in
              ground (arith, p_e.0, p_e.1.0),
        )
