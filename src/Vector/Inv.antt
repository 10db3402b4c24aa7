-- ===== src/Vector/Inv.antt =====
-- The representation invariant of `class vector`, and the list that it stands for.
use kl.Base.{ℕ, ◌*◌, ◌^◌, ◌≤◌, ◌<◌, ◌≡◌, ◌∙◌, ap, sym, Option, some, List, arith}
use kl.Base.{length, take, length-take, mul32}
use native.Mathlib.Nat.{mod-eq_of_lt}
use kl.Vector.{Vector, block}

-- The capacity is inside the block, and is an `unsigned`; there is none without a block.
pub record IsValid {A : Type 0} (v : Vector A) : Type 0 where
  pub filled : v.size ≤ v.capacity
  pub inside : v.capacity ≤ length (block v)
  pub word : v.capacity < 2 ^ 32

-- The elements.
abbrev pub items : {A : Type 0} → Vector A → List A
items v = take v.size (block v)

pub length-items : {A : Type 0} (v : Vector A) → IsValid v → length (items v) ≡ v.size
length-items v ok = omega (arith, length-take v.size (block v), ok.filled, ok.inside)

-- `pool` gives a block of `n` cells for `n` times `width` bytes, unless the product wraps.
abbrev pub IsPool : {A : Type 0} → (ℕ → Option (List A)) → ℕ → Type 0
IsPool {A} pool width =
    (n : ℕ) (b : List A) → n * width < 2 ^ 32 → pool (n * width) ≡ some b → length b ≡ n

pub length-pool :
    {A : Type 0} (pool : ℕ → Option (List A)) (width n : ℕ) {b : List A}
    → IsPool pool width
    → n * width < 2 ^ 32
    → pool (mul32 n width) ≡ some b
    → length b ≡ n
length-pool pool width n law small e = law n _ small (ap pool (sym (mod-eq_of_lt small)) ∙ e)
