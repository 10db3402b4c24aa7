-- ===== src/Vector/Walk.antt =====
-- `vector::iterator` of skl/vector.hpp, and a loop by iterators. The vector is passed along.
use kl.Base.{
  ℕ, zero, suc, ◌+◌, ◌<◌, ◌≤◌, ◌≡◌, ◌∙◌, sym, ap, Bool, Bool-cases, inl, inr, not, Option, none,
  some, List, [], ◌∷◌, arith,
}
use kl.Base.{
  drop_all, if◌then◌else◌, ltb, ◌==◌, ◌>>=◌, length, get_elem?, drop, add32, sub32, get_elem?-take,
  get_elem?-some,
}
use kl.Vector.{Vector, block, get_at}
use kl.Vector.Inv.{IsValid, items, length-items}

-- `_pos`
pub record Iterator : Type 0 where
  pub pos : ℕ

module _ {A : Type 0} where
  unfoldable pub begin : Vector A → Iterator
  begin v = record { pos = 0 }

  unfoldable pub end : Vector A → Iterator
  end v = record { pos = v.size }

  -- `*it`
  unfoldable pub deref : Vector A → Iterator → Option A
  unfolding get_at
  deref v it = get_at v it.pos

unfoldable pub increment : Iterator → Iterator
increment it = record { pos = add32 it.pos 1 }

unfoldable pub equal : Iterator → Iterator → Bool
equal it r = it.pos == r.pos

unfoldable pub less : Iterator → Iterator → Bool
less it r = ltb it.pos r.pos

unfoldable pub difference : Iterator → Iterator → ℕ
difference it r = sub32 it.pos r.pos

module _ {A : Type 0} where
  drop-cons :
      (xs : List A) (n : ℕ) (x : A) → get_elem? xs n ≡ some x → drop n xs ≡ x ∷ drop (suc n) xs
  drop-cons [] n x e = absurd (ground arith)
  drop-cons (y ∷ ys) zero x e = let same : y ≡ x = ground arith in ap (λ z. z ∷ ys) same
  drop-cons (y ∷ ys) (suc n) x e = drop-cons ys n x e

module _ {A : Type 0} (v : Vector A) where
  -- The loop `for (; it != last; ++it)`: the elements met. `none` means that the fuel ran out, or an
  -- access outside the block.
  unfoldable pub visit : ℕ → Iterator → Iterator → Option (List A)
  unfolding deref increment equal
  visit zero it last = none
  visit (suc fuel) it last =
      let rest = deref v it >>= λ x. visit fuel (increment it) last >>= λ xs. some (x ∷ xs) in
      if not (equal it last) then rest else some []

  unfoldable pub for_each : ℕ → Option (List A)
  unfolding begin end
  for_each fuel = visit fuel (begin v) (end v)

  visit-drop :
      (fuel pos : ℕ)
      → IsValid v
      → pos ≤ v.size
      → v.size < fuel + pos
      → visit fuel (record { pos = pos }) (record { pos = v.size }) ≡ some (drop pos (items v))
  unfolding visit deref increment equal get_at
  visit-drop zero pos ok h l = absurd (omega (arith, h, l))
  visit-drop (suc fuel) pos ok h l = elim (Bool-cases (pos == v.size)) [
    | inl at_end ↦
        let whole : length (items v) ≤ pos = ground (arith, length-items v ok) in
        rw at_end (ap some (sym (drop_all pos (items v) whole)))
    | inr before ↦
        let inside : pos < v.size = ground arith in
        let (x, here) = get_elem?-some (items v) pos (omega (arith, inside, length-items v ok)) in
        let cell : get_elem? (block v) pos ≡ some x =
          sym (get_elem?-take v.size (block v) pos inside) ∙ here in
        let next : add32 pos 1 ≡ pos + 1 = omega (arith, inside, ok.word, ok.filled) in
        let one : suc pos ≡ pos + 1 = omega arith in
        let rest = visit-drop fuel (pos + 1) ok (omega (arith, inside)) (omega (arith, l)) in
        rw (before, cell, ◌>>=◌, next, rest, ◌>>=◌)
          (ap some (sym (drop-cons (items v) pos x here ∙ ap (λ i. x ∷ drop i (items v)) one)))
  ]

  -- A loop over a valid vector by its iterators, with more fuel than it has elements: it ends, never
  -- leaves the block, and meets the elements in their order.
  pub for_each-items : (fuel : ℕ) → IsValid v → v.size < fuel → for_each fuel ≡ some (items v)
  unfolding for_each begin end
  for_each-items fuel ok h = visit-drop fuel 0 ok (omega arith) (omega (arith, h))
