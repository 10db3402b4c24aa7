-- ===== src/Variant/Types.antt =====
-- What sl/Variant.hpp computes of a list of types: the greatest of some sizes, and at which place of
-- the list a type stands.
use kl.Base.{
  ℕ, zero, suc, ◌+◌, ◌-◌, ◌<◌, ◌≤◌, ◌^◌, ◌%◌, ◌≡◌, ◌⊎◌, refl, Bool, Bool-cases, inl, inr, true,
  false, Option, none, some, List, [], ◌∷◌, length, take, subst, sym, arith, if◌then◌else◌, ◌==◌,
  leb, ltb,
}

-- `IntegerMax<arg, rest...>`
unfoldable pub integer_max : ℕ → List ℕ → ℕ
integer_max arg1 [] = arg1
integer_max arg1 (arg2 ∷ rest) =
    let first = integer_max arg1 rest in
    let second = integer_max arg2 rest in if leb arg2 arg1 then first else second

-- `Contains<T, List...>`
unfoldable pub contains : ℕ → List ℕ → Bool
contains t [] = false
contains t (head ∷ rest) = let inside = contains t rest in if t == head then true else inside

-- `GetLeftSize<Type, Types...>`: the bits of an `int`, which is -1 if the type is not there.
unfoldable pub get_left_size : ℕ → List ℕ → ℕ
get_left_size t [] = 2 ^ 32 - 1
get_left_size t (first ∷ types) =
    let left = get_left_size t types in if t == first then length types else left

-- An `int` as a `size_t` of 64 bits.
abbrev as_size : ℕ → ℕ
as_size bits = if leb (2 ^ 31) bits then bits + (2 ^ 64 - 2 ^ 32) else bits

-- `Index<T, Types...>`: the difference of `size_t`s, as an `int`.
unfoldable pub index : ℕ → List ℕ → ℕ
index t types =
    (length types + 2 ^ 64 - as_size (get_left_size t types) + 2 ^ 64 - 1) % 2 ^ 64 % 2 ^ 32

-- `IndexType<index, Types...>::DataType`; there is none past the last type.
unfoldable pub index_type : ℕ → List ℕ → Option ℕ
index_type i [] = none
index_type zero (first ∷ types) = some first
index_type (suc i) (first ∷ types) = index_type i types

-- All of a list are at most `m`.
abbrev pub AtMost : ℕ → List ℕ → Type 0
AtMost m [] = Unit {0}
AtMost m (x ∷ xs) = (x ≤ m) × AtMost m xs

abbrev pub Mem : ℕ → List ℕ → Type 0
Mem x [] = ⊥
Mem x (y ∷ ys) = (x ≡ y) ⊎ Mem x ys

-- The place of a type in the list, from 0; the length if it is not there.
abbrev pub position : ℕ → List ℕ → ℕ
position t [] = 0
position t (u ∷ us) = let rest = position t us in if t == u then 0 else suc rest

left-position :
    (t : ℕ) (types : List ℕ)
    → length types < 2 ^ 31
    → contains t types ≡ true
    → (get_left_size t types + position t types + 1 ≡ length types)
unfolding get_left_size contains
left-position t [] few there = absurd (ground arith)
left-position t (u ∷ us) few there = ground (arith, left-position t us)

left_absent :
    (t : ℕ) (types : List ℕ)
    → contains t types ≡ false
    → (get_left_size t types ≡ 2 ^ 32 - 1) × (position t types ≡ length types)
unfolding get_left_size contains
left_absent t [] gone = (refl, refl)
left_absent t (u ∷ us) gone = ground (arith, left_absent t us)

pub index-position :
    (t : ℕ) (types : List ℕ) → length types < 2 ^ 31 → index t types ≡ position t types
unfolding index
index-position t types few = elim (Bool-cases (contains t types)) [
  | inl there ↦
      let left = left-position t types few there in
      let small : leb (2 ^ 31) (get_left_size t types) ≡ false = ground arith in
      rw small (omega (arith, left, few))
  | inr gone ↦ let (left, place) = left_absent t types gone in rw (left, place) (omega (arith, few))
]

abbrev Greatest : ℕ → ℕ → List ℕ → ℕ → Type 0
Greatest a b rest m = AtMost m (a ∷ b ∷ rest) × Mem m (a ∷ b ∷ rest)

le_of-leb : (a b : ℕ) → leb a b ≡ true → a ≤ b
le_of-leb a b e = ground arith

skip_second : (a b : ℕ) (rest : List ℕ) (m : ℕ) → Mem m (a ∷ rest) → Mem m (a ∷ b ∷ rest)
skip_second a b rest m (inl e) = inl e
skip_second a b rest m (inr h) = inr (inr h)

-- `IntegerMax` is the greatest of its arguments: none is above it, and it is one of them.
pub integer_max-Mem :
    (arg : ℕ) (rest : List ℕ)
    → AtMost (integer_max arg rest) (arg ∷ rest) × Mem (integer_max arg rest) (arg ∷ rest)
unfolding integer_max
integer_max-Mem arg [] = ((omega arith, tt), inl refl)
integer_max-Mem arg1 (arg2 ∷ rest) = elim (Bool-cases (leb arg2 arg1)) [
  | inl first ↦
      let ((l, all), mem) = integer_max-Mem arg1 rest in
      let same : integer_max arg1 (arg2 ∷ rest) ≡ integer_max arg1 rest = rw first refl in
      subst (Greatest arg1 arg2 rest) (sym same)
        ((l, (omega (arith, l, le_of-leb arg2 arg1 first), all)), skip_second arg1 arg2 rest _ mem)
  | inr second ↦
      let ((l, all), mem) = integer_max-Mem arg2 rest in
      let same : integer_max arg1 (arg2 ∷ rest) ≡ integer_max arg2 rest = rw second refl in
      subst (Greatest arg1 arg2 rest) (sym same) ((ground (arith, l), (l, all)), inr mem)
]

at-position :
    (t : ℕ) (types : List ℕ)
    → (index_type (position t types) types ≡ (if contains t types then some t else none))
      × (contains t (take (position t types) types) ≡ false)
      × (ltb (position t types) (length types) ≡ contains t types)
unfolding contains index_type
at-position t [] = (refl, refl, refl)
at-position t (u ∷ us) = elim (Bool-cases (t == u)) [
  | inl is_it ↦ rw is_it (ground arith, refl, ground arith)
  | inr other ↦
      let (a, b, c) = at-position t us in
      let skip : position t (u ∷ us) ≡ suc (position t us) = rw other refl in
      rw (skip, other) (a, b, ground (arith, c))
]

-- `Index` of fewer than 2 ^ 31 types is the first place at which the type stands: it is a place of the
-- list exactly if the list contains the type, `IndexType` of it is then the type, and no place before
-- it has that. For a type that is not there it is past the end.
pub index-index_type :
    (t : ℕ) (types : List ℕ)
    → length types < 2 ^ 31
    → (index_type (index t types) types ≡ (if contains t types then some t else none))
      × (contains t (take (index t types) types) ≡ false)
      × (ltb (index t types) (length types) ≡ contains t types)
index-index_type t types few = rw (index-position t types few) (at-position t types)
