-- ===== src/Text/Prefix.antt =====
-- `startwith` and `endwith` decide whether the characters begin or end with those of another string.
use mathlib.Core.List.{map}
use kl.Base.{
  ℕ, zero, suc, ◌/◌, ◌≤◌, ◌<◌, ◌≡◌, ◌↔◌, ◌≢◌, refl, ap, ap₂, sym, Bool, Bool-cases, inl, inr, true,
  false, Option, none, some, List, [], ◌∷◌, ◌++◌, arith,
}
use kl.Base.{length, take, ltb, ◌==◌, ltb→lt, ltb→le, length-take}
use kl.Text.Inv.{Held, chars_of}
use kl.Text.Build.{NoNul}
use kl.Text.Affix.{prefix_loop, startwith_by, member_loop}

module _ (key : ℕ → ℕ) where
  unfoldable pub is_prefix : List ℕ → List ℕ → Bool
  is_prefix [] xs = true
  is_prefix (y ∷ ys) [] = false
  is_prefix (y ∷ ys) (x ∷ xs) = elim (key x == key y) [ true ↦ is_prefix ys xs | false ↦ false ]

  is_prefix_sound :
      (ys xs : List ℕ)
      → is_prefix ys xs ≡ true
      → (rest : List ℕ) × (map key xs ≡ map key ys ++ rest)
  unfolding is_prefix
  is_prefix_sound [] xs h = (map key xs, refl)
  is_prefix_sound (y ∷ ys) [] h = cc
  is_prefix_sound (y ∷ ys) (x ∷ xs) h = elim (Bool-cases (key x == key y)) [
    | inl same ↦
        let (rest, e) = is_prefix_sound ys xs (ground (arith, h, same)) in
        (rest, ap₂ ◌∷◌ (ground (arith, same)) e)
    | inr differ ↦ absurd (ground (arith, h, differ))
  ]

  is_prefix_complete :
      (ys xs rest : List ℕ) → map key xs ≡ map key ys ++ rest → is_prefix ys xs ≡ true
  unfolding is_prefix
  is_prefix_complete [] xs rest e = refl
  is_prefix_complete (y ∷ ys) [] rest e = cc
  is_prefix_complete (y ∷ ys) (x ∷ xs) rest e =
      let head : key x ≡ key y = cc in
      let tail : map key xs ≡ map key ys ++ rest = cc in
      ground (arith, head, is_prefix_complete ys xs rest tail)

  -- `is_prefix` decides it.
  pub is_prefix_iff :
      (ys xs : List ℕ)
      → (is_prefix ys xs ≡ true) ↔ ((rest : List ℕ) × (map key xs ≡ map key ys ++ rest))
  is_prefix_iff ys xs = (is_prefix_sound ys xs, λ (rest, e). is_prefix_complete ys xs rest e)

  pub prefix_loop-is_prefix :
      (n : ℕ) (xs ys : List ℕ)
      → n ≤ length xs
      → n ≤ length ys
      → prefix_loop key n xs ys ≡ some (is_prefix (take n ys) xs)
  unfolding prefix_loop is_prefix
  prefix_loop-is_prefix zero xs ys h k = refl
  prefix_loop-is_prefix (suc n) [] ys h k = absurd (omega arith)
  prefix_loop-is_prefix (suc n) (x ∷ xs) [] h k = absurd (omega arith)
  prefix_loop-is_prefix (suc n) (x ∷ xs) (y ∷ ys) h k =
      ground (arith, prefix_loop-is_prefix n xs ys)

  -- Only the first characters matter, and a longer text is no prefix.
  pub is_prefix-take :
      (m : ℕ) (ys xs : List ℕ) → length ys ≤ m → is_prefix ys (take m xs) ≡ is_prefix ys xs
  unfolding is_prefix
  is_prefix-take m [] xs h = refl
  is_prefix-take zero (y ∷ ys) xs h = absurd (omega arith)
  is_prefix-take (suc m) (y ∷ ys) [] h = refl
  is_prefix-take (suc m) (y ∷ ys) (x ∷ xs) h = ground (arith, is_prefix-take m ys xs)

  is_prefix_longer : (ys xs : List ℕ) → length xs < length ys → is_prefix ys xs ≡ false
  unfolding is_prefix
  is_prefix_longer [] xs h = absurd (omega arith)
  is_prefix_longer (y ∷ ys) [] h = refl
  is_prefix_longer (y ∷ ys) (x ∷ xs) h = ground (arith, is_prefix_longer ys xs)

  -- The static `startwith` of two blocks.
  pub startwith_by-is_prefix :
      (o p : Option (List ℕ)) (l m k r : ℕ)
      → Held o l m
      → Held p k r
      → o ≢ none
      → p ≢ none
      → startwith_by key o (l / 2) p (k / 2) ≡ some (is_prefix (chars_of p k) (chars_of o l))
  unfolding startwith_by
  startwith_by-is_prefix none p l m k r h w a b = absurd (a refl)
  startwith_by-is_prefix (some xs) none l m k r h w a b = absurd (b refl)
  startwith_by-is_prefix (some xs) (some ys) l m k r h w a b =
      elim (Bool-cases (ltb (l / 2) (k / 2))) [
        | inl long ↦ rw (long, is_prefix_longer (take (k / 2) ys) (take (l / 2) xs) (longer long))
        | inr fits ↦
            rw (fits, prefix_loop-is_prefix (k / 2) xs ys (shorter fits) (omega arith))
              (ap some (sym (is_prefix-take (l / 2) (take (k / 2) ys) xs (inside fits))))
      ]
    where
      lengths : (length (take (k / 2) ys) ≡ k / 2) × (length (take (l / 2) xs) ≡ l / 2)
      lengths = omega (arith, length-take (k / 2) ys, length-take (l / 2) xs)

      longer : ltb (l / 2) (k / 2) ≡ true → length (take (l / 2) xs) < length (take (k / 2) ys)
      longer e = omega (arith, lengths, ltb→lt (l / 2) (k / 2) e)

      shorter : ltb (l / 2) (k / 2) ≡ false → k / 2 ≤ length xs
      shorter e = omega (arith, ltb→le (l / 2) (k / 2) e)

      inside : ltb (l / 2) (k / 2) ≡ false → length (take (k / 2) ys) ≤ l / 2
      inside e = omega (arith, lengths, ltb→le (l / 2) (k / 2) e)

  pub member_loop-is_prefix :
      (n m : ℕ) (xs text rest : List ℕ)
      → m ≤ length xs
      → length text ≤ n
      → NoNul text
      → member_loop key n m xs (text ++ (0 ∷ rest)) ≡ some (is_prefix text (take m xs))
  unfolding member_loop is_prefix
  member_loop-is_prefix zero m xs [] rest h k clean = refl
  member_loop-is_prefix (suc n) m xs [] rest h k clean = refl
  member_loop-is_prefix zero m xs (c ∷ cs) rest h k clean = absurd (omega arith)
  member_loop-is_prefix (suc n) m xs (zero ∷ cs) rest h k clean = absurd (clean.0 refl)
  member_loop-is_prefix (suc n) zero xs (suc c ∷ cs) rest h k clean = refl
  member_loop-is_prefix (suc n) (suc m) [] (suc c ∷ cs) rest h k clean = absurd (omega arith)
  member_loop-is_prefix (suc n) (suc m) (x ∷ xs) (suc c ∷ cs) rest h k clean =
      ground (arith, member_loop-is_prefix n m xs cs rest)
