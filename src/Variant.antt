-- ===== src/Variant.antt =====
-- sl/Variant.hpp: `Variant`, a value of one of several types, with the type's index beside it. A type
-- is its `type_index`, a number; that of `void` is 0.
pub mod Types
pub mod Valid
pub mod Change
mod Tests
use kl.Base.{
  ℕ, ◌+◌, Bool, true, false, Option, none, some, List, [], ◌∷◌, ◌>>=◌, if◌then◌else◌, ◌==◌, ltb,
}

abbrev pub void : ℕ
void = 0

-- What stands in the storage of a variant: an object, its type and its value, or none.
abbrev pub Data : Type 0 → Type 0
Data V = Option (ℕ × V)

pub record Variant (V : Type 0) : Type 0 where
  pub type_index : ℕ
  pub m_data : Data V

-- What `Get` does: it returns, or throws `std::bad_cast`.
pub data Got (V : Type 0) : Type 0 where
  got : V → Got V
  bad_cast : Got V

module _ {V : Type 0} where
  -- The object of a type in a storage; `none` means that no such object is there.
  abbrev pub object : ℕ → Data V → Option V
  object t none = none
  object t (some (u, x)) = if t == u then some x else none

  -- An object is constructed in an empty storage; `none` means that it would be put over another.
  abbrev pub place : ℕ → V → Data V → Option (Data V)
  place t x none = some (some (t, x))
  place t x (some old) = none

  -- `VariantHelper<Types...>`
  unfoldable pub destroy : List ℕ → ℕ → Data V → Option (Data V)
  destroy [] id storage = some storage
  destroy (t ∷ types) id storage =
      let rest = destroy types id storage in
      if id == t then (object t storage >>= λ x. some none) else rest

  -- `moved_from` is what moving from an object leaves of it.
  unfoldable pub move : (ℕ → V → V) → List ℕ → ℕ → Data V → Data V → Option (Data V × Data V)
  move moved_from [] old_t old_v new_v = some (old_v, new_v)
  move moved_from (t ∷ types) old_t old_v new_v =
      let rest = move moved_from types old_t old_v new_v in
      if old_t == t
      then (object t old_v >>= λ x. place t x new_v >>= λ new. some (some (t, moved_from t x), new))
      else rest

  unfoldable pub copy : List ℕ → ℕ → Data V → Data V → Option (Data V)
  copy [] old_t old_v new_v = some new_v
  copy (t ∷ types) old_t old_v new_v =
      let rest = copy types old_t old_v new_v in
      if old_t == t then (object t old_v >>= λ x. place t x new_v) else rest

  unfoldable pub construct : Variant V
  construct = record { type_index = void; m_data = none }

  -- `Variant(T&& value)`, for a type that is one of the variant's.
  unfoldable pub construct_value : ℕ → V → Variant V
  construct_value t x = record { type_index = t; m_data = some (t, x) }

  unfoldable pub is : ℕ → Variant V → Bool
  is t v = v.type_index == t

  unfoldable pub empty : Variant V → Bool
  empty v = v.type_index == void

  unfoldable pub type_of : Variant V → ℕ
  type_of v = v.type_index

  unfoldable pub get : ℕ → Variant V → Option (Got V)
  unfolding is
  get t v = if is t v then (object t v.m_data >>= λ x. some (got x)) else some bad_cast

  -- `To(def, &ok)`: the value and `ok`
  unfoldable pub to : ℕ → V → Variant V → Option (V × Bool)
  unfolding is
  to t def v = if is t v then (object t v.m_data >>= λ x. some (x, true)) else some (def, false)

  -- `Visit(f, rest...)`: the number of the function that is called, from `i`, and what it is called with.
  unfoldable pub visit : ℕ → List ℕ → Variant V → Option (Option (ℕ × V))
  unfolding is
  visit i [] v = some none
  visit i (t ∷ ts) v =
      let rest = visit (i + 1) ts v in
      if is t v then (object t v.m_data >>= λ x. some (some (i, x))) else rest

  unfoldable pub equal : Variant V → Variant V → Bool
  equal v rhs = v.type_index == rhs.type_index

  unfoldable pub less : Variant V → Variant V → Bool
  less v rhs = ltb v.type_index rhs.type_index

module _ {V : Type 0} (moved_from : ℕ → V → V) (types : List ℕ) where
  unfoldable pub destruct : Variant V → Option (Data V)
  destruct v = destroy types v.type_index v.m_data

  unfoldable pub construct_copy : Variant V → Option (Variant V)
  construct_copy old = copy types old.type_index old.m_data none >>= λ d.
      some (record { type_index = old.type_index; m_data = d })

  -- The new variant, and what is left of the other.
  unfoldable pub construct_move : Variant V → Option (Variant V × Variant V)
  construct_move old = move moved_from types old.type_index old.m_data none >>= λ r.
      some (record { type_index = old.type_index; m_data = r.1 }, record old { m_data = r.0 })

  -- `*this = old` of two variants, and of one with itself.
  unfoldable pub assign : Variant V → Variant V → Option (Variant V)
  assign v old = destroy types v.type_index v.m_data >>= λ d.
      copy types old.type_index old.m_data d >>= λ d'.
      some (record { type_index = old.type_index; m_data = d' })

  unfoldable pub assign_self : Variant V → Option (Variant V)
  assign_self v = destroy types v.type_index v.m_data >>= λ d.
      copy types v.type_index d d >>= λ d'. some (record v { m_data = d' })

  -- `*this = std::move(old)` of two variants, with what is left of the other, and of one with itself.
  unfoldable pub assign_move : Variant V → Variant V → Option (Variant V × Variant V)
  assign_move v old = destroy types v.type_index v.m_data >>= λ d.
      move moved_from types old.type_index old.m_data d >>= λ r.
      some (record { type_index = old.type_index; m_data = r.1 }, record old { m_data = r.0 })

  unfoldable pub assign_move_self : Variant V → Option (Variant V)
  assign_move_self v = destroy types v.type_index v.m_data >>= λ d.
      move moved_from types v.type_index d d >>= λ r. some (record v { m_data = r.1 })
