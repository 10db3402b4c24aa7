-- ===== src/Vector/Transfer.antt =====
-- The constructors and assignments of `class vector` that take another vector, or a list.
use kl.Base.{ℕ, ◌*◌, ◌^◌, ◌<◌, ◌≡◌, refl, Option, none, some, List, []}
use kl.Base.{◌>>=◌, mul32, copy_block}
use kl.Vector.{outside_range, Vector, block, swap, copy, insert_range}
use kl.Vector.Inv.{IsValid, items, IsPool}
use kl.Vector.Append.{Copied, copy-keeps}

module _ {A : Type 0} (pool : ℕ → Option (List A)) (width : ℕ) where
  abbrev no_data : Vector A
  no_data = record { cells = none; capacity = 0; size = 0 }

  -- `vector(std::initializer_list<_Ty>)`
  unfoldable pub construct_list : List A → Option (Vector A)
  construct_list xs = insert_range pool width no_data 0 (outside_range xs) >>= λ r. some r.1

  -- `vector(vector<_Ty, opoolType>&& r)`: the new object, and `r` after it.
  unfoldable pub move_across : Vector A → Option (Vector A × Vector A)
  move_across r = elim (pool (mul32 r.capacity width)) [
    | none ↦ some (no_data, r)
    | some b ↦ do
      b' ← copy_block b 0 (block r) 0 r.size
      some (record { cells = some b'; capacity = r.capacity; size = r.size }, no_data)
  ]

  -- `operator=(const vector&)`: the temporary and `this` change places.
  unfoldable pub assign : Vector A → Vector A → Option (Vector A)
  assign this r = copy pool width r >>= λ temp. some (swap temp this).1

  -- `operator=(vector&&)`: `this` and `r`.
  unfoldable pub assign_move : Vector A → Vector A → Vector A × Vector A
  assign_move this r = let (r', this') = swap r this in (this', r')

-- What is left of the other after a move to another pool, by the block that the pool gave.
abbrev pub Left : {A : Type 0} → Vector A → Vector A → Option (List A) → Type 0
Left r r' none = r' ≡ r
Left r r' (some b) = (items r' ≡ []) × (r'.cells ≡ none)

module _ {A : Type 0} (pool : ℕ → Option (List A)) (width : ℕ) (law : IsPool pool width)
    (r : Vector A) (ok : IsValid r) (small : r.capacity * width < 2 ^ 32) where
  -- Assignment of a valid vector whose bytes do not wrap never leaves its blocks, and gives, whatever
  -- the vector was, a valid one: with the list and the capacity of the other, or empty where the pool
  -- has no room.
  pub assign-Copied :
      (this : Vector A)
      → (v' : Vector A) × (assign pool width this r ≡ some v')
        × IsValid v'
        × Copied r v' (pool (mul32 r.capacity width))
  unfolding assign swap
  assign-Copied this =
      let (v', run, valid, made) = copy-keeps pool width law r ok small in
      (v', rw (run, ◌>>=◌) refl, valid, made)
