-- ===== src/Variant/Valid.antt =====
-- Variants whose storage has the object that their index tells, and what is read of them.
use kl.Base.{
  ℕ, ◌≡◌, refl, subst, Bool-cases, inl, inr, true, false, none, some, List, [], ◌∷◌, arith, ◌==◌,
  ◌>>=◌,
}
use kl.Variant.{void, Data, Variant, object, place, destroy, copy, move}
use kl.Variant.Types.{contains}

module _ {V : Type 0} (types : List ℕ) where
  abbrev pub Fits : ℕ → Data V → Type 0
  Fits i none = i ≡ void
  Fits i (some e) = (e.0 ≡ i) × (contains i types ≡ true)

  pub record Valid (v : Variant V) : Type 0 where
    pub fits : Fits v.type_index v.m_data
    pub no_void : contains void types ≡ false

module _ {V : Type 0} where
  object_self : (t : ℕ) (x : V) → object t (some (t, x)) ≡ some x
  object_self t x = let e : (t == t) ≡ true = ground arith in rw e refl

  -- The helper's functions find the type of an object in the list, and do nothing for another type.
  pub destroy-contains :
      (t : ℕ) (types : List ℕ) (x : V)
      → contains t types ≡ true
      → destroy types t (some (t, x)) ≡ some none
  unfolding destroy contains
  destroy-contains t [] x h = absurd (ground arith)
  destroy-contains t (u ∷ us) x h = elim (Bool-cases (t == u)) [
    | inl is_it ↦
        let e : t ≡ u = ground arith in
        rw is_it (
          subst (λ y. ◌>>=◌ {B = Data V} (object y (some (t, x))) (λ z. some none) ≡ some none) e
            (rw (object_self t x, ◌>>=◌) refl))
    | inr other ↦ rw other (destroy-contains t us x (ground arith))
  ]

  pub destroy_absent :
      (t : ℕ) (types : List ℕ) (d : Data V) → contains t types ≡ false → destroy types t d ≡ some d
  unfolding destroy contains
  destroy_absent t [] d h = refl
  destroy_absent t (u ∷ us) d h =
      let other : (t == u) ≡ false = ground arith in rw other (destroy_absent t us d (ground arith))

  pub copy-contains :
      (t : ℕ) (types : List ℕ) (x : V)
      → contains t types ≡ true
      → copy types t (some (t, x)) none ≡ some (some (t, x))
  unfolding copy contains
  copy-contains t [] x h = absurd (ground arith)
  copy-contains t (u ∷ us) x h = elim (Bool-cases (t == u)) [
    | inl is_it ↦
        let e : t ≡ u = ground arith in
        rw is_it (
          subst (λ y. (object y (some (t, x)) >>= λ z. place y z none) ≡ some (some (t, x))) e
            (rw (object_self t x, ◌>>=◌) refl))
    | inr other ↦ rw other (copy-contains t us x (ground arith))
  ]

  pub copy_absent :
      (t : ℕ) (types : List ℕ) (old new : Data V)
      → contains t types ≡ false
      → copy types t old new ≡ some new
  unfolding copy contains
  copy_absent t [] old new h = refl
  copy_absent t (u ∷ us) old new h =
      let other : (t == u) ≡ false = ground arith in
      rw other (copy_absent t us old new (ground arith))

  pub copy_missing :
      (t : ℕ) (types : List ℕ) (new : Data V)
      → contains t types ≡ true
      → copy types t none new ≡ none
  unfolding copy contains
  copy_missing t [] new h = absurd (ground arith)
  copy_missing t (u ∷ us) new h = elim (Bool-cases (t == u)) [
    | inl is_it ↦ rw is_it refl
    | inr other ↦ rw other (copy_missing t us new (ground arith))
  ]

  module _ (moved_from : ℕ → V → V) where
    pub move-contains :
        (t : ℕ) (types : List ℕ) (x : V)
        → contains t types ≡ true
        → move moved_from types t (some (t, x)) none ≡ some (some (t, moved_from t x), some (t, x))
    unfolding move contains
    move-contains t [] x h = absurd (ground arith)
    move-contains t (u ∷ us) x h = elim (Bool-cases (t == u)) [
      | inl is_it ↦
          let e : t ≡ u = ground arith in
          rw is_it (
            subst
              (λ y.
                ◌>>=◌ {B = Data V × Data V} (object y (some (t, x))) (λ z.
                  ◌>>=◌ {B = Data V × Data V} (place y z none)
                    (λ new. some (some (y, moved_from y z), new)))
                ≡ some (some (t, moved_from t x), some (t, x)))
              e (rw (object_self t x, ◌>>=◌) refl))
      | inr other ↦ rw other (move-contains t us x (ground arith))
    ]

    pub move_absent :
        (t : ℕ) (types : List ℕ) (old new : Data V)
        → contains t types ≡ false
        → move moved_from types t old new ≡ some (old, new)
    unfolding move contains
    move_absent t [] old new h = refl
    move_absent t (u ∷ us) old new h =
        let other : (t == u) ≡ false = ground arith in
        rw other (move_absent t us old new (ground arith))

    pub move_missing :
        (t : ℕ) (types : List ℕ) (new : Data V)
        → contains t types ≡ true
        → move moved_from types t none new ≡ none
    unfolding move contains
    move_missing t [] new h = absurd (ground arith)
    move_missing t (u ∷ us) new h = elim (Bool-cases (t == u)) [
      | inl is_it ↦ rw is_it refl
      | inr other ↦ rw other (move_missing t us new (ground arith))
    ]
