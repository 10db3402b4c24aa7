-- ===== src/Links/Tests.antt =====
-- Routines that meet the laws of `ListRoutines`, for the tests of the modules that use them.
use kl.Base.{ℕ, ◌≡◌, ◌∙◌, ◌↔◌, refl, sym, ap, Bool, true, List, [], ◌∷◌, ◌++◌, arith, ◌==◌}
use kl.Links.{Links, ListRoutines, set_flink, set_blink, last, Absent, IsRing, SameOutside}
use kl.Links.Ring.{
  Absent-last, Apart-cons, Apart-nil, Inner-ends, Inner-append, last-append, Distinct-append,
}

-- Every link is null.
abbrev pub null_links : Links
null_links = record { flink = λ p. 0; blink = λ p. 0 }

abbrev pub initialize : Links → ℕ → Links
initialize h p = set_blink p p (set_flink p p h)

abbrev pub is_empty : Links → ℕ → Bool
is_empty h p = h.flink p == p

abbrev pub insert_tail : Links → ℕ → ℕ → Links
insert_tail h p e =
    let b = h.blink p in set_blink p e (set_flink b e (set_blink e b (set_flink e p h)))

abbrev pub insert_head : Links → ℕ → ℕ → Links
insert_head h p e =
    let f = h.flink p in set_flink p e (set_blink f e (set_blink e p (set_flink e f h)))

abbrev pub remove_head : Links → ℕ → ℕ × Links
remove_head h p = let e = h.flink p in let f = h.flink e in (e, set_blink f p (set_flink p f h))

pub initialize-IsRing :
    (h : Links) (p : ℕ) → IsRing (initialize h p) p [] × SameOutside (p ∷ []) h (initialize h p)
initialize-IsRing h p = (
  record { inner = tt; forward = ground arith; backward = ground arith; distinct = (tt, tt) },
  λ q k. ground arith,
)

pub is_empty_iff :
    (h : Links) (p : ℕ) (xs : List ℕ) → IsRing h p xs → (is_empty h p ≡ true) ↔ (xs ≡ [])
is_empty_iff h p [] r = (λ e. refl, λ e. ground (arith, r.forward))
is_empty_iff h p (x ∷ xs) r = (λ e. absurd (r.distinct.0.0 (ground (arith, r.inner.0))), λ e. cc)

module _ (h : Links) (p e : ℕ) where
  pub insert_tail-IsRing :
      (xs : List ℕ)
      → IsRing h p xs
      → Absent e (p ∷ xs)
      → IsRing (insert_tail h p e) p (xs ++ (e ∷ []))
        × SameOutside (e ∷ p ∷ xs) h (insert_tail h p e)
  insert_tail-IsRing xs r away =
      let g = insert_tail h p e in
      let e_b = Absent-last e p xs away in
      let back : h.blink p ≡ last p xs = r.backward in
      let front =
        Inner-ends h g p xs (e ∷ []) (p ∷ e ∷ []) r.inner r.distinct
          (Apart-cons e (p ∷ xs) [] away (Apart-nil (p ∷ xs)))
          (Apart-cons p xs (e ∷ []) r.distinct.0 (Apart-cons e xs [] away.1 (Apart-nil xs)))
          (λ q n m. ground arith) (λ q n. ground arith) in
      (
        record {
          inner =
              Inner-append g p xs e [] front (ground (arith, away.0)) (ground (arith, away.0)) tt;
          forward = ap g.flink (last-append p xs e []) ∙ ground arith;
          backward = ground arith ∙ sym (last-append p xs e []);
          distinct =
              Distinct-append (p ∷ xs) (e ∷ []) r.distinct (tt, tt)
                (Apart-cons e (p ∷ xs) [] away (Apart-nil (p ∷ xs)));
        },
        λ q k. let q_b = Absent-last q p xs k.1 in ground (arith, k.0, k.1.0),
      )

  pub insert_head-IsRing :
      (xs : List ℕ)
      → IsRing h p xs
      → Absent e (p ∷ xs)
      → IsRing (insert_head h p e) p (e ∷ xs) × SameOutside (e ∷ p ∷ xs) h (insert_head h p e)
  insert_head-IsRing [] r away = (
    record {
      inner = (ground arith, ground (arith, r.forward), tt);
      forward = ground (arith, r.forward);
      backward = ground (arith, r.forward, away.0);
      distinct = (((λ q. away.0 (sym q)), tt), (tt, tt));
    },
    λ q k. ground (arith, r.forward, k.0, k.1.0),
  )
  insert_head-IsRing (x ∷ zs) r away =
      let g = insert_head h p e in
      let f = r.inner.0 in
      let d = r.distinct in
      let rest =
        Inner-ends h g x zs (e ∷ p ∷ []) (x ∷ e ∷ []) r.inner.2 d.1
          (Apart-cons e (x ∷ zs) (p ∷ []) away.1
            (Apart-cons p (x ∷ zs) [] d.0 (Apart-nil (x ∷ zs))))
          (Apart-cons x zs (e ∷ []) d.1.0 (Apart-cons e zs [] away.1.1 (Apart-nil zs)))
          (λ q n m. ground arith) (λ q n. ground arith) in
      let e_end = Absent-last e x zs away.1 in
      let p_end = Absent-last p x zs d.0 in
      (
        record {
          inner = (
            ground arith,
            ground (arith, away.1.0),
            (ground (arith, away.0), ground (arith, away.1.0), rest),
          );
          forward = ground (arith, r.forward);
          backward = ground (arith, r.backward, d.0.0, away.0);
          distinct = (((λ q. away.0 (sym q)), d.0), (away.1, d.1));
        },
        λ q k. ground (arith, k.0, k.1.0, k.1.1.0),
      )

module _ (h : Links) (p x : ℕ) where
  pub remove_head-IsRing :
      (xs : List ℕ)
      → IsRing h p (x ∷ xs)
      → ((remove_head h p).0 ≡ x)
        × IsRing (remove_head h p).1 p xs
        × SameOutside (x ∷ p ∷ xs) h (remove_head h p).1
  remove_head-IsRing [] r = (
    r.inner.0,
    record {
      inner = tt;
      forward = ground (arith, r.inner.0, r.forward);
      backward = ground (arith, r.inner.0, r.forward);
      distinct = (tt, tt);
    },
    λ q k. ground (arith, r.inner.0, r.forward, k.0, k.1.0),
  )
  remove_head-IsRing (y ∷ zs) r =
      let g = (remove_head h p).1 in
      let f : h.flink p ≡ x = r.inner.0 in
      let n : h.flink x ≡ y = r.inner.2.0 in
      let d = r.distinct in
      let rest =
        Inner-ends h g y zs (p ∷ []) (y ∷ []) r.inner.2.2 d.1.1
          (Apart-cons p (y ∷ zs) [] d.0.1 (Apart-nil (y ∷ zs)))
          (Apart-cons y zs [] d.1.1.0 (Apart-nil zs)) (λ q n m. ground arith)
          (λ q n. ground arith) in
      let p_end = Absent-last p y zs d.0.1 in
      (
        f,
        record {
          inner = (ground arith, ground arith, rest);
          forward = ground (arith, r.forward);
          backward = ground (arith, r.backward, d.0.1.0);
          distinct = (d.0.1, d.1.1);
        },
        λ q k. ground (arith, k.0, k.1.0, k.1.1.0),
      )

unfoldable pub plain : ListRoutines
plain = record {
  initialize_list_head = initialize;
  is_list_empty = is_empty;
  insert_tail_list = insert_tail;
  insert_head_list = insert_head;
  remove_head_list = remove_head;
  initialize-IsRing = initialize-IsRing;
  is_list_empty_iff = is_empty_iff;
  insert_tail-IsRing = insert_tail-IsRing;
  insert_head-IsRing = insert_head-IsRing;
  remove_head-IsRing = remove_head-IsRing;
}
