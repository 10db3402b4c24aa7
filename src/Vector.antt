-- ===== src/Vector.antt =====
-- skl/vector.hpp: `class vector`, a growing array in a pool block. A block is the list of its
-- cells, and an element is the value of a cell: construction stores it, and a destructor leaves no
-- trace in the model. A member that writes the object returns its new value. `none` is an access
-- outside a block.
pub mod Inv
pub mod Splice
pub mod Grow
pub mod Placed
pub mod Own
pub mod Insert
pub mod Erase
pub mod Append
pub mod Between
pub mod Range
pub mod Walk
pub mod Transfer
mod Tests
use kl.Base.{
  ℕ, zero, suc, ◌+◌, ◌-◌, ◌*◌, Bool, true, false, ◌&&◌, Option, none, some, List, [], ◌∷◌, ◌++◌,
}
use kl.Base.{
  if◌then◌else◌, ltb, leb, ◌==◌, ◌>>=◌, length, get_elem?, take, drop, add32, sub32, mul32,
  copy_block,
}

pub record Vector (A : Type 0) : Type 0 where
  pub cells : Option (List A)
  pub capacity : ℕ
  pub size : ℕ

-- `const _Ty& value`: an element elsewhere, or the cell of the vector's own block at an index.
pub data Ref (A : Type 0) : Type 0 where
  outside : A → Ref A
  own : ℕ → Ref A

-- The range of two pointers `_First` and `_Last`: elements elsewhere, or as many cells of the
-- vector's own block from an index on.
pub data Span (A : Type 0) : Type 0 where
  outside_range : List A → Span A
  own_range : ℕ → ℕ → Span A

-- The capacity of the next block.
unfoldable pub next_capacity : ℕ → ℕ
next_capacity c = if ltb 0 c then if ltb 1024 c then add32 c 1024 else mul32 c 2 else 10

-- The same without the wrap-around of an `unsigned`.
abbrev pub grown_capacity : ℕ → ℕ
grown_capacity c = if ltb 0 c then if ltb 1024 c then c + 1024 else c * 2 else 10

-- `ns > new_allocCount ? ns : new_allocCount`
abbrev pub larger : ℕ → ℕ → ℕ
larger ns next = if ltb next ns then ns else next

module _ {A : Type 0} where
  -- `_data`, which is `cells`, as a pointer.
  abbrev pub block : Vector A → List A
  block v = elim v.cells [ none ↦ [] | some b ↦ b ]

  -- The object after a write through `_data`.
  abbrev pub with_block : Vector A → List A → Vector A
  with_block v b = elim v.cells [ none ↦ v | some _ ↦ record v { cells = some b } ]

  -- `new(_data + i)_Ty(value)`
  unfoldable pub store : List A → ℕ → A → Option (List A)
  store b i x = copy_block b i (x ∷ []) 0 1

  -- The loop that constructs the elements of a range from index `i` on.
  unfoldable pub store_all : List A → ℕ → List A → Option (List A)
  store_all b i [] = some b
  store_all b i (x ∷ xs) = do b' ← store b i x; store_all b' (add32 i 1) xs

  -- `new(_data + i)_Ty(value)` in the block that the vector has had.
  unfoldable pub store_ref : List A → ℕ → Ref A → Option (List A)
  store_ref b i (outside x) = store b i x
  store_ref b i (own j) = do x ← get_elem? b j; store b i x

  -- The same in a new block. The old one is freed, and to read an own element is a fault.
  unfoldable pub store_moved : List A → ℕ → Ref A → Option (List A)
  store_moved b i (outside x) = store b i x
  store_moved b i (own j) = none

  -- The loop of constructions for `n` own cells from index `j` on.
  unfoldable pub store_own : List A → ℕ → ℕ → ℕ → Option (List A)
  store_own b i j zero = some b
  store_own b i j (suc n) = do
    x ← get_elem? b j
    b' ← store b i x
    store_own b' (add32 i 1) (j + 1) n

  -- The loop for a range, in the block that the vector has had.
  unfoldable pub store_range : List A → ℕ → Span A → Option (List A)
  store_range b i (outside_range xs) = store_all b i xs
  store_range b i (own_range j n) = store_own b i j n

  -- The same in a new block: the first own element that is read is a fault.
  unfoldable pub store_range_moved : List A → ℕ → Span A → Option (List A)
  store_range_moved b i (outside_range xs) = store_all b i xs
  store_range_moved b i (own_range j n) = if ltb 0 n then none else some b

  -- `_Last - _First`
  abbrev pub range_length : Span A → ℕ
  range_length (outside_range xs) = length xs
  range_length (own_range j n) = n

  unfoldable pub pop_back : Vector A → Bool × Vector A
  pop_back v = (false, if ltb 0 v.size then record v { size = v.size - 1 } else v)

  unfoldable pub clear : Vector A → Vector A
  clear v = record v { size = 0 }

  -- `at(pos, o)`: the result, and `o` after it.
  unfoldable pub at : Vector A → ℕ → A → Option (Bool × A)
  at v pos o =
      if ltb v.size pos && ltb 0 v.size
      then (get_elem? (block v) pos >>= λ x. some (true, x))
      else some (false, o)

  unfoldable pub get_at : Vector A → ℕ → Option A
  get_at v pos = get_elem? (block v) pos

  unfoldable pub erase : Vector A → ℕ → Option (Bool × Vector A)
  erase v pos =
      if ltb pos v.size
      then (do
        b ← copy_block (block v) pos (block v) (pos + 1) (v.size - 1 - pos)
        some (true, record v { cells = some b; size = v.size - 1 }))
      else some (false, v)

  -- `vector(vector&& r)`: the new object, and `r` after it.
  unfoldable pub move : Vector A → Vector A × Vector A
  move r = (r, record { cells = none; capacity = 0; size = 0 })

  unfoldable pub swap : Vector A → Vector A → Vector A × Vector A
  swap this other = (other, this)

-- `pool` is `ExAllocatePoolWithTag`, by the bytes asked for, and `width` is `sizeof(_Ty)`.
module _ {A : Type 0} (pool : ℕ → Option (List A)) (width : ℕ) where
  unfoldable pub construct : ℕ → Vector A
  construct size = elim (pool (mul32 size width)) [
    | none ↦ record { cells = none; capacity = 0; size = 0 }
    | some b ↦ record { cells = some b; capacity = size; size = 0 }
  ]

  -- The steps that `push_back` and `insert` share where the block is full: a block of `n` cells, with
  -- the elements moved away from index `pos`, and the value there.
  unfoldable pub regrow : Vector A → ℕ → ℕ → Ref A → Option (Bool × Vector A)
  regrow v n pos value = elim (pool (mul32 n width)) [
    | none ↦ some (false, v)
    | some b ↦ do
      b1 ← copy_block b 0 (block v) 0 pos
      b2 ← copy_block b1 (pos + 1) (block v) pos (v.size - pos)
      b3 ← store_moved b2 pos value
      some (true, record { cells = some b3; capacity = n; size = add32 v.size 1 })
  ]

  -- `push_back`: the way where the block has room falls through to `return false`.
  unfoldable pub push_back : Vector A → Ref A → Option (Bool × Vector A)
  push_back v value =
      if ltb v.size v.capacity
      then (do
        b ← store_ref (block v) v.size value
        some (false, record v { cells = some b; size = add32 v.size 1 }))
      else if v.capacity == v.size
      then elim (pool (mul32 (next_capacity v.capacity) width)) [
        | none ↦ some (false, v)
        | some b ↦ do
          b1 ← copy_block b 0 (block v) 0 v.size
          b2 ← store_moved b1 v.size value
          some (
            true,
            record { cells = some b2; capacity = next_capacity v.capacity; size = add32 v.size 1 },
          )
      ]
      else some (false, v)

  unfoldable pub insert : Vector A → ℕ → Ref A → Option (Bool × Vector A)
  insert v pos value =
      if ltb v.size pos
      then some (false, v)
      else if pos == v.size
      then push_back v value
      else if ltb v.size v.capacity
      then (do
        b ← copy_block (block v) (pos + 1) (block v) pos (v.size - pos)
        b' ← store_ref b pos value
        some (false, record v { cells = some b'; size = add32 v.size 1 }))
      else if v.size == v.capacity
      then regrow v (next_capacity v.capacity) pos value
      else some (false, v)

  unfoldable pub reserve : Vector A → ℕ → Option (Bool × Vector A)
  reserve v ns =
      if ltb v.capacity ns
      then elim (pool (mul32 ns width)) [
        | none ↦ some (false, v)
        | some b ↦ do
          b' ← copy_block b 0 (block v) 0 v.size
          some (true, record { cells = some b'; capacity = ns; size = v.size })
      ]
      else some (true, v)

  -- The rest of `insert(pos, first, last)`, for the size `n` to make room for.
  unfoldable pub range_in : Vector A → ℕ → Span A → ℕ → Option (Bool × Vector A)
  range_in v pos range n =
      let count = range_length range in
      if ltb v.capacity n
      then elim (pool (mul32 n width)) [
        | none ↦ some (false, v)
        | some b ↦ do
          b1 ← copy_block b 0 (block v) 0 pos
          b2 ← copy_block b1 (pos + count) (block v) pos (sub32 v.size pos)
          b3 ← store_range_moved b2 pos range
          some (true, record { cells = some b3; capacity = n; size = add32 v.size count })
      ]
      else (do
        b ← copy_block (block v) (pos + count) (block v) pos (sub32 v.size pos)
        b' ← store_range b pos range
        some (true, record (with_block v b') { size = add32 v.size count }))

  -- `insert(pos, first, last)` by pointers, as of a list.
  unfoldable pub insert_range : Vector A → ℕ → Span A → Option (Bool × Vector A)
  insert_range v pos range =
      if ltb 0 (range_length range)
      then range_in v pos range
          (larger (add32 v.size (range_length range)) (next_capacity v.capacity))
      else some (false, v)

  -- `append(const vector& r)` of another vector: a copy of the bytes, then the loop of constructions.
  unfoldable pub append : Vector A → Vector A → Option (Bool × Vector A)
  append v r = do
    (ok, v') ← reserve v (add32 v.size r.size)
    if ok
        then (do
          b ← copy_block (block v') v'.size (block r) 0 r.size
          b' ← store_all b v'.size (take r.size (block r))
          some (true, record (with_block v' b') { size = add32 v'.size r.size }))
        else some (false, v')

  -- `vector(const vector& r)`
  unfoldable pub copy : Vector A → Option (Vector A)
  copy r = elim (pool (mul32 r.capacity width)) [
    | none ↦ some (record { cells = none; capacity = 0; size = 0 })
    | some b ↦ do
      b1 ← copy_block b 0 (block r) 0 r.size
      b2 ← store_all b1 0 (take r.size (block r))
      some (record { cells = some b2; capacity = r.capacity; size = r.size })
  ]
