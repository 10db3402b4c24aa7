-- ===== src/Vector/Erase.antt =====
-- `erase` and `reserve`.
use kl.Base.{
  ◌⊎◌, ltb→le, ℕ, ◌*◌, ◌^◌, ◌≤◌, ◌<◌, ◌≡◌, refl, Bool, Bool-cases, inl, inr, true, false, Option,
  none, some, List, arith,
}
use kl.Base.{
  ltb, ltb→lt, lt→ltb, ◌>>=◌, length, mul32, copied, copy_block-some, length-copied, take-copied,
}
use kl.Vector.{Vector, block, reserve}
use kl.Vector.Inv.{IsValid, items, IsPool, length-pool}

module _ {A : Type 0} (pool : ℕ → Option (List A)) (width : ℕ) (law : IsPool pool width)
    (v : Vector A) (ok : IsValid v) where
  reserve_more :
      (ns : ℕ) (got : Option (List A))
      → ns < 2 ^ 32
      → ns * width < 2 ^ 32
      → v.capacity < ns
      → pool (mul32 ns width) ≡ got
      → (r : Bool) × (v' : Vector A) × (reserve pool width v ns ≡ some (r, v'))
        × IsValid v'
        × (items v' ≡ items v)
        × (((r ≡ true) × (ns ≤ v'.capacity))
            ⊎ ((r ≡ false) × (v' ≡ v) × (pool (mul32 ns width) ≡ none)))
  unfolding reserve
  reserve_more ns none word small less e =
      (false, v, rw (lt→ltb v.capacity ns less, e, reserve), ok, refl, inr (refl, refl, e))
  reserve_more ns (some b) word small less e =
      let len = length-pool pool width ns law small e in
      let o = block v in
      let fits : v.size ≤ length b = omega (arith, ok.filled) in
      let held : v.size ≤ length o = omega (arith, ok.filled, ok.inside) in
      let same = length-copied b 0 o 0 v.size (omega arith) (omega arith) in
      (
        true,
        record { cells = some (copied b 0 o 0 v.size); capacity = ns; size = v.size },
        rw (
          lt→ltb v.capacity ns less,
          e,
          reserve,
          copy_block-some b 0 o 0 v.size (omega arith) (omega arith),
          ◌>>=◌,
        ),
        record { filled = omega (arith, ok.filled); inside = omega arith; word = word },
        take-copied b o v.size held,
        inl (refl, omega arith),
      )

  -- `reserve` of a number whose bytes do not wrap, on a valid vector, never leaves its blocks, gives
  -- a valid vector and keeps the list: it says true and the capacity is at least the number, or it
  -- says false, nothing changes, and the pool has no room for so many elements.
  pub reserve-keeps :
      (ns : ℕ)
      → ns < 2 ^ 32
      → ns * width < 2 ^ 32
      → (r : Bool) × (v' : Vector A) × (reserve pool width v ns ≡ some (r, v'))
        × IsValid v'
        × (items v' ≡ items v)
        × (((r ≡ true) × (ns ≤ v'.capacity))
            ⊎ ((r ≡ false) × (v' ≡ v) × (pool (mul32 ns width) ≡ none)))
  unfolding reserve
  reserve-keeps ns word small = elim (Bool-cases (ltb v.capacity ns)) [
    | inl less ↦ reserve_more ns (pool (mul32 ns width)) word small (ltb→lt v.capacity ns less) refl
    | inr more ↦ (true, v, rw (more, reserve), ok, refl, inl (refl, ltb→le v.capacity ns more))
  ]
