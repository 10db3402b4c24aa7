-- ===== src/Keyed/Sorted.antt =====
-- Items in the order of their keys, and where a key has its place among them.
use kl.Base.{
  ℕ, ◌≡◌, refl, Bool, Bool-cases, inl, inr, true, false, not, ◌&&◌, Option, none, some, List, [],
  ◌∷◌, ◌++◌, length, subst, sym, arith, if◌then◌else◌,
}
use kl.Keyed.{KeyType}

-- `<` orders the keys totally, and a valid copy of a key is the key.
pub record IsOrder {K : Type 0} (kt : KeyType K) : Type 0 where
  pub irreflexive : (a : K) → kt.lt a a ≡ false
  pub transitive : (a b c : K) → kt.lt a b ≡ true → kt.lt b c ≡ true → kt.lt a c ≡ true
  pub total : (a b : K) → kt.lt a b ≡ false → kt.lt b a ≡ false → a ≡ b
  pub copy_valid : (got : Bool) (k : K) → kt.check_valid (kt.copy got k) ≡ true → kt.copy got k ≡ k
  pub copy_got : (k : K) → kt.check_valid k ≡ true → kt.copy true k ≡ k

module _ {K A : Type 0} (kt : KeyType K) (key : A → K) where
  abbrev pub same : K → K → Bool
  same j k = not (kt.lt j k) && not (kt.lt k j)

  abbrev pub addresses : List (ℕ × A) → List ℕ
  addresses [] = []
  addresses (e ∷ es) = e.0 ∷ addresses es

  -- All keys are below `k`, or above it.
  abbrev pub Below : K → List (ℕ × A) → Type 0
  Below k [] = Unit {0}
  Below k (e ∷ es) = (kt.lt (key e.1) k ≡ true) × Below k es

  abbrev pub Above : K → List (ℕ × A) → Type 0
  Above k [] = Unit {0}
  Above k (e ∷ es) = (kt.lt k (key e.1) ≡ true) × Above k es

  abbrev pub Sorted : List (ℕ × A) → Type 0
  Sorted [] = Unit {0}
  Sorted (e ∷ es) = Above (key e.1) es × Sorted es

  -- The item whose key is `k`.
  abbrev pub at : K → List (ℕ × A) → Option (ℕ × A)
  at k [] = none
  at k (e ∷ es) = if same k (key e.1) then some e else at k es

  pub addresses-append :
      (ls rs : List (ℕ × A)) → addresses (ls ++ rs) ≡ addresses ls ++ addresses rs
  addresses-append [] rs = refl
  addresses-append (l ∷ ls) rs = ground (arith, addresses-append ls rs)

  pub length-addresses : (es : List (ℕ × A)) → length (addresses es) ≡ length es
  length-addresses [] = refl
  length-addresses (e ∷ es) = omega (arith, length-addresses es)

  -- A key that no item has stands between two parts of the items, and one that an item has stands
  -- at that item.
  pub record Gap (k : K) (es ls rs : List (ℕ × A)) : Type 0 where
    pub parts : es ≡ ls ++ rs
    pub below : Below k ls
    pub above : Above k rs

  pub record Spot (k : K) (es : List (ℕ × A)) (e : ℕ × A) (ls rs : List (ℕ × A)) : Type 0 where
    pub parts : es ≡ ls ++ e ∷ rs
    pub below : Below k ls
    pub above : Above k rs
    pub is_key : key e.1 ≡ k

  module _ (o : IsOrder kt) where
    pub Above-trans : (j k : K) (es : List (ℕ × A)) → kt.lt j k ≡ true → Above k es → Above j es
    Above-trans j k [] l h = tt
    Above-trans j k (e ∷ es) l h = (o.transitive j k (key e.1) l h.0, Above-trans j k es l h.1)

    -- No item among those above `k` has it.
    pub at-Above : (k : K) (es : List (ℕ × A)) → Above k es → at k es ≡ none
    at-Above k [] h = refl
    at-Above k (e ∷ es) h = ground (arith, h.0, at-Above k es h.1)

    pub at-Below : (k : K) (ls rs : List (ℕ × A)) → Below k ls → at k (ls ++ rs) ≡ at k rs
    at-Below k [] rs h = refl
    at-Below k (e ∷ ls) rs h = ground (arith, h.0, at-Below k ls rs h.1)

    pub place_none :
        (k : K) (es : List (ℕ × A))
        → Sorted es
        → at k es ≡ none
        → (ls : List (ℕ × A)) × (rs : List (ℕ × A)) × Gap k es ls rs
    place_none k [] s h = ([], [], record { parts = refl; below = tt; above = tt })
    place_none k (e ∷ es) s h = elim (Bool-cases (kt.lt (key e.1) k)) [
      | inl below ↦
          let (ls, rs, g) = place_none k es s.1 (ground arith) in
          (
            e ∷ ls,
            rs,
            record { parts = ground (arith, g.parts); below = (below, g.below); above = g.above },
          )
      | inr not_below ↦
          let above : kt.lt k (key e.1) ≡ true = ground arith in
          (
            [],
            e ∷ es,
            record {
              parts = refl;
              below = tt;
              above = (above, Above-trans k (key e.1) es above s.0);
            },
          )
    ]

    pub place_some :
        (k : K) (es : List (ℕ × A)) (e : ℕ × A)
        → Sorted es
        → at k es ≡ some e
        → (ls : List (ℕ × A)) × (rs : List (ℕ × A)) × Spot k es e ls rs
    place_some k [] e s h = absurd (ground arith)
    place_some k (x ∷ es) e s h = elim (Bool-cases (kt.lt (key x.1) k)) [
      | inl below ↦
          let (ls, rs, g) = place_some k es e s.1 (ground arith) in
          (
            x ∷ ls,
            rs,
            record {
              parts = ground (arith, g.parts);
              below = (below, g.below);
              above = g.above;
              is_key = g.is_key;
            },
          )
      | inr not_below ↦ elim (Bool-cases (kt.lt k (key x.1))) [
        | inl above ↦
            let gone : at k es ≡ none = at-Above k es (Above-trans k (key x.1) es above s.0) in
            absurd (ground (arith, gone))
        | inr not_above ↦
            let i : key x.1 ≡ k = o.total (key x.1) k not_below not_above in
            let here : x ≡ e = ground arith in
            subst (λ y. (ls : List (ℕ × A)) × (rs : List (ℕ × A)) × Spot k (x ∷ es) y ls rs) here
              (
                [],
                es,
                record {
                  parts = refl;
                  below = tt;
                  above = subst (λ j. Above j es) i s.0;
                  is_key = i;
                },
              )
      ]
    ]

    pub Above-insert :
        (j : K) (ls : List (ℕ × A)) (e : ℕ × A) (rs : List (ℕ × A))
        → kt.lt j (key e.1) ≡ true
        → Above j (ls ++ rs)
        → Above j (ls ++ e ∷ rs)
    Above-insert j [] e rs l h = (l, h)
    Above-insert j (x ∷ ls) e rs l h = (h.0, Above-insert j ls e rs l h.1)

    pub Above-remove :
        (j : K) (ls : List (ℕ × A)) (e : ℕ × A) (rs : List (ℕ × A))
        → Above j (ls ++ e ∷ rs)
        → Above j (ls ++ rs)
    Above-remove j [] e rs h = h.1
    Above-remove j (x ∷ ls) e rs h = (h.0, Above-remove j ls e rs h.1)

    pub Sorted-insert :
        (ls : List (ℕ × A)) (e : ℕ × A) (rs : List (ℕ × A))
        → Sorted (ls ++ rs)
        → Below (key e.1) ls
        → Above (key e.1) rs
        → Sorted (ls ++ e ∷ rs)
    Sorted-insert [] e rs s b a = (a, s)
    Sorted-insert (x ∷ ls) e rs s b a =
        (Above-insert (key x.1) ls e rs b.0 s.0, Sorted-insert ls e rs s.1 b.1 a)

    pub Sorted-remove :
        (ls : List (ℕ × A)) (e : ℕ × A) (rs : List (ℕ × A))
        → Sorted (ls ++ e ∷ rs)
        → Sorted (ls ++ rs)
    Sorted-remove [] e rs s = s.1
    Sorted-remove (x ∷ ls) e rs s = (Above-remove (key x.1) ls e rs s.0, Sorted-remove ls e rs s.1)

    -- One more item among the others is found by its own key.
    pub at-middle :
        (j : K) (ls : List (ℕ × A)) (e : ℕ × A) (rs : List (ℕ × A))
        → Below (key e.1) ls
        → at j (ls ++ e ∷ rs) ≡ (if same j (key e.1) then some e else at j (ls ++ rs))
    at-middle j [] e rs b = refl
    at-middle j (x ∷ ls) e rs b = elim (Bool-cases (same j (key x.1))) [
      | inl is_it ↦
          let i : j ≡ key x.1 = o.total j (key x.1) (ground arith) (ground arith) in
          let less : kt.lt j (key e.1) ≡ true = subst (λ y. kt.lt y (key e.1) ≡ true) (sym i) b.0 in
          ground (arith, is_it, less, o.irreflexive (key e.1))
      | inr other ↦ ground (arith, other, at-middle j ls e rs b.1)
    ]

    pub same_refl : (k : K) → same k k ≡ true
    same_refl k = ground (arith, o.irreflexive k)

    pub at-same :
        (k j : K) (es : List (ℕ × A)) (x : Option (ℕ × A))
        → at k es ≡ x
        → at j es ≡ (if same j k then x else at j es)
    at-same k j es x h = elim (Bool-cases (same j k)) [
      | inl is_it ↦
          let i : j ≡ k = o.total j k (ground arith) (ground arith) in
          rw is_it (subst (λ y. at y es ≡ x) (sym i) h)
      | inr other ↦ rw other refl
    ]
