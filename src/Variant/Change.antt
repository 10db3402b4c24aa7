-- ===== src/Variant/Change.antt =====
-- What assignment, construction and destruction do to variants, and what is then read of them.
use kl.Base.{
  ℕ, suc, ◌+◌, ◌<◌, ◌^◌, ◌≡◌, ◌∙◌, refl, sym, ap, subst, Bool-cases, inl, inr, true, false, none,
  some, List, [], ◌∷◌, length, arith, if◌then◌else◌, ◌==◌, ◌>>=◌,
}
use kl.Variant.{
  void, Data, Variant, got, bad_cast, construct_value, is, get, to, visit, destruct, construct_copy,
  construct_move, assign, assign_self, assign_move, assign_move_self, destroy, copy, move,
}
use kl.Variant.Types.{contains, index, position, index-position}
use kl.Variant.Valid.{
  Fits, destroy-contains, destroy_absent, copy-contains, copy_absent, copy_missing, move-contains,
  move_absent, move_missing,
}

module _ {V : Type 0} (moved_from : ℕ → V → V) where
  -- What moving leaves in a storage.
  abbrev pub left : Data V → Data V
  left none = none
  left (some e) = some (e.0, moved_from e.0 e.1)

module _ {V : Type 0} where
  read_get :
      (t u : ℕ) (x : V) → get u (construct_value t x) ≡ some (if t == u then got x else bad_cast)
  unfolding get is construct_value
  read_get t u x = elim (Bool-cases (t == u)) [
    | inl is_it ↦ let back : (u == t) ≡ true = ground arith in rw (is_it, back, ◌>>=◌) refl
    | inr other ↦ rw other refl
  ]

  read_to :
      (t u : ℕ) (x def : V)
      → to u def (construct_value t x) ≡ some (if t == u then (x, true) else (def, false))
  unfolding to is construct_value
  read_to t u x def = elim (Bool-cases (t == u)) [
    | inl is_it ↦ let back : (u == t) ≡ true = ground arith in rw (is_it, back, ◌>>=◌) refl
    | inr other ↦ rw other refl
  ]

module _ {V : Type 0} (moved_from : ℕ → V → V) (types : List ℕ)
    (no_void : contains void types ≡ false) where
  destroy-Fits : (i : ℕ) (d : Data V) → Fits types i d → destroy types i d ≡ some none
  destroy-Fits i none f = rw f (destroy_absent void types none no_void)
  destroy-Fits i (some (t, x)) f = rw (sym f.0) (destroy-contains t types x (rw f.0 f.1))

  copy-Fits : (i : ℕ) (d : Data V) → Fits types i d → copy types i d none ≡ some d
  copy-Fits i none f = rw f (copy_absent void types none none no_void)
  copy-Fits i (some (t, x)) f = rw (sym f.0) (copy-contains t types x (rw f.0 f.1))

  move-Fits :
      (i : ℕ) (d : Data V)
      → Fits types i d
      → move moved_from types i d none ≡ some (left moved_from d, d)
  move-Fits i none f = rw f (move_absent moved_from void types none none no_void)
  move-Fits i (some (t, x)) f = rw (sym f.0) (move-contains moved_from t types x (rw f.0 f.1))

  left-Fits : (i : ℕ) (d : Data V) → Fits types i d → Fits types i (left moved_from d)
  left-Fits i none f = f
  left-Fits i (some e) f = f

  -- Copies of one variant: the other's object is destroyed, and the variant is then as the one copied.
  -- Both are valid, and they are two.
  pub assign-copies :
      (v old : Variant V)
      → Fits types v.type_index v.m_data
      → Fits types old.type_index old.m_data
      → (assign moved_from types v old ≡ some old)
        × (construct_copy moved_from types old ≡ some old)
        × (destruct moved_from types old ≡ some none)
  unfolding assign construct_copy destruct
  assign-copies v old f g =
      let d = destroy-Fits v.type_index v.m_data f in
      let c = copy-Fits old.type_index old.m_data g in
      (rw (d, ◌>>=◌, c, ◌>>=◌) refl, rw (c, ◌>>=◌) refl, destroy-Fits old.type_index old.m_data g)

  -- Moves: the new value is the other's, and the other keeps its type with an object that was moved
  -- from, which its own end destroys.
  pub assign_move-moves :
      (v old : Variant V)
      → Fits types v.type_index v.m_data
      → Fits types old.type_index old.m_data
      → let rest = record old { m_data = left moved_from old.m_data } in
        (assign_move moved_from types v old ≡ some (old, rest))
        × (construct_move moved_from types old ≡ some (old, rest))
        × (destruct moved_from types rest ≡ some none)
  unfolding assign_move construct_move destruct
  assign_move-moves v old f g =
      let d = destroy-Fits v.type_index v.m_data f in
      let m = move-Fits old.type_index old.m_data g in
      (
        rw (d, ◌>>=◌, m, ◌>>=◌) refl,
        rw (m, ◌>>=◌) refl,
        destroy-Fits old.type_index (left moved_from old.m_data)
            (left-Fits old.type_index old.m_data g),
      )

  -- Assigned to itself, a valid variant that is not empty copies, or moves, from an object that it has
  -- destroyed.
  pub assign_self_faults :
      (v : Variant V) (t : ℕ) (x : V)
      → Fits types v.type_index v.m_data
      → v.m_data ≡ some (t, x)
      → (assign_self moved_from types v ≡ none) × (assign_move_self moved_from types v ≡ none)
  unfolding assign_self assign_move_self
  assign_self_faults v t x f e =
      let d = destroy-Fits v.type_index v.m_data f in
      let inside = (subst (Fits types v.type_index) e f).1 in
      (
        rw (d, ◌>>=◌, copy_missing v.type_index types none inside, ◌>>=◌) refl,
        rw (d, ◌>>=◌, move_missing moved_from v.type_index types none inside, ◌>>=◌) refl,
      )

  -- A value of one of the types, put in a variant and copied to another, which is valid, is read by
  -- `Get` and by `To` of its type; `Get` of another type throws, and `To` gives its default.
  pub get-assign :
      (v : Variant V) (t u : ℕ) (x def : V)
      → Fits types v.type_index v.m_data
      → contains t types ≡ true
      → (v' : Variant V) × (assign moved_from types v (construct_value t x) ≡ some v')
        × (get u v' ≡ some (if t == u then got x else bad_cast))
        × (to u def v' ≡ some (if t == u then (x, true) else (def, false)))
  unfolding get to is construct_value
  get-assign v t u x def f inside =
      let made = construct_value t x in
      (made, (assign-copies v made f (refl, inside)).0, read_get t u x, read_to t u x def)

module _ {V : Type 0} where
  visit-position :
      (i t : ℕ) (ts : List ℕ) (x : V)
      → visit i ts (record { type_index = t; m_data = some (t, x) })
        ≡ some (if contains t ts then some (i + position t ts, x) else none)
  unfolding visit is contains
  visit-position i t [] x = refl
  visit-position i t (u ∷ us) x = elim (Bool-cases (t == u)) [
    | inl is_it ↦
        let back : (u == t) ≡ true = ground arith in
        let at_once : i ≡ i + 0 = omega arith in
        rw (is_it, back, ◌>>=◌) (ap (λ n. some (some (n, x))) at_once)
    | inr other ↦
        let onward : i + 1 + position t us ≡ i + suc (position t us) = omega arith in
        rw other (
          visit-position (i + 1) t us x
          ∙ ap (λ n. some (if contains t us then some (n, x) else none)) onward)
  ]

  -- `Visit` with functions of fewer than 2 ^ 31 argument types calls, with the value of the variant,
  -- the first that takes its type, which is the one at `Index`, and no other; if none takes it, none is
  -- called.
  pub visit-index :
      (t : ℕ) (ts : List ℕ) (x : V)
      → length ts < 2 ^ 31
      → visit 0 ts (construct_value t x)
        ≡ some (if contains t ts then some (index t ts, x) else none)
  unfolding construct_value
  visit-index t ts x few =
      let from_zero : 0 + position t ts ≡ index t ts =
        sym (index-position t ts few ∙ omega arith) in
      visit-position 0 t ts x
      ∙ ap (λ n. some (if contains t ts then some (n, x) else none)) from_zero
