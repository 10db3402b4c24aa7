-- ===== src/Text/Order.antt =====
-- The comparisons of `class string` are the lexicographic order of the characters.
use Prim.Native.Nat.{compare, Ordering}
use kl.Base.{
  ℕ, zero, suc, ◌+◌, ◌≤◌, ◌≡◌, ◌≢◌, ◌∙◌, refl, ap, Option, none, some, List, [], ◌∷◌, ◌++◌, arith,
}
use mathlib.Core.List.{map}
use kl.Base.{length, take, ◌>>=◌}
use kl.Text.{UnicodeString, cells, char_count}
use kl.Text.Inv.{IsValid, chars, cells-chars}
use kl.Text.Build.{NoNul}
use kl.Text.Compare.{compare_loop, by_length, compare_by, compare_raw_loop}

module _ (key : ℕ → ℕ) where
  unfoldable pub lex : List ℕ → List ℕ → Ordering
  lex [] [] = Ordering.eq
  lex [] (y ∷ ys) = Ordering.lt
  lex (x ∷ xs) [] = Ordering.gt
  lex (x ∷ xs) (y ∷ ys) = elim (compare (key x) (key y)) [
    | Ordering.lt ↦ Ordering.lt
    | Ordering.gt ↦ Ordering.gt
    | Ordering.eq ↦ lex xs ys
  ]

  finish : ℕ → ℕ → Option Ordering → Ordering
  finish s t r = elim r [ none ↦ by_length key s t | some o ↦ o ]

  -- One round, by the outcome of the test.
  branch :
      (s t : ℕ) (o : Ordering) (r : Option (Option Ordering)) (l : Ordering)
      → (r >>= λ r. some (finish s t r)) ≡ some l
      → ((elim o [
        | Ordering.lt ↦ some (some Ordering.lt)
        | Ordering.gt ↦ some (some Ordering.gt)
        | Ordering.eq ↦ r
      ])
          >>= λ r. some (finish s t r))
        ≡ some (elim o [ Ordering.lt ↦ Ordering.lt | Ordering.gt ↦ Ordering.gt | Ordering.eq ↦ l ])
  unfolding finish
  branch s t Ordering.lt r l e = refl
  branch s t Ordering.gt r l e = refl
  branch s t Ordering.eq r l e = e

  compare_loop-lex :
      (s t m n : ℕ) (xs ys : List ℕ)
      → m ≤ length xs
      → n ≤ length ys
      → s + n ≡ t + m
      → (compare_loop key m n xs ys >>= λ r. some (finish s t r))
        ≡ some (lex (take m xs) (take n ys))
  unfolding compare_loop finish by_length lex
  compare_loop-lex s t zero zero xs ys hm hn e = ground arith
  compare_loop-lex s t zero (suc n) xs [] hm hn e = absurd (omega arith)
  compare_loop-lex s t zero (suc n) xs (y ∷ ys) hm hn e = ground arith
  compare_loop-lex s t (suc m) zero [] ys hm hn e = absurd (omega arith)
  compare_loop-lex s t (suc m) zero (x ∷ xs) ys hm hn e = ground arith
  compare_loop-lex s t (suc m) (suc n) [] ys hm hn e = absurd (omega arith)
  compare_loop-lex s t (suc m) (suc n) (x ∷ xs) [] hm hn e = absurd (omega arith)
  compare_loop-lex s t (suc m) (suc n) (x ∷ xs) (y ∷ ys) hm hn e =
      branch s t (compare (key x) (key y)) (compare_loop key m n xs ys)
        (lex (take m xs) (take n ys))
        (compare_loop-lex s t m n xs ys (omega arith) (omega arith) (omega arith))

  -- `compare` and `icompare` with a count.
  pub compare_by-lex :
      (s : UnicodeString) (str : List ℕ) (n : ℕ)
      → IsValid s
      → n ≤ length str
      → compare_by key s str n ≡ some (lex (chars s) (take n str))
  unfolding compare_by finish
  compare_by-lex s str n v h =
      let (text, inside, _, _) = cells-chars s v in
      compare_loop-lex (char_count s) n (char_count s) n (cells s) str inside h (omega arith)
      ∙ ap (λ t. some (lex t (take n str))) text

  raw_branch :
      (o : Ordering) (r : Option Ordering) (l : Ordering)
      → r ≡ some l
      → (elim o [
        | Ordering.lt ↦ some Ordering.lt
        | Ordering.gt ↦ some Ordering.gt
        | Ordering.eq ↦ r
      ])
        ≡ some (elim o [ Ordering.lt ↦ Ordering.lt | Ordering.gt ↦ Ordering.gt | Ordering.eq ↦ l ])
  raw_branch Ordering.lt r l e = refl
  raw_branch Ordering.gt r l e = refl
  raw_branch Ordering.eq r l e = e

  pub compare_raw_loop-lex :
      (m : ℕ) (xs text rest : List ℕ)
      → m ≤ length xs
      → NoNul text
      → compare_raw_loop key m xs (text ++ (0 ∷ rest)) ≡ some (lex (take m xs) text)
  unfolding compare_raw_loop lex
  compare_raw_loop-lex zero xs [] rest h clean = refl
  compare_raw_loop-lex (suc m) [] [] rest h clean = absurd (omega arith)
  compare_raw_loop-lex (suc m) (x ∷ xs) [] rest h clean = ground arith
  compare_raw_loop-lex m xs (zero ∷ cs) rest h clean = absurd (clean.0 refl)
  compare_raw_loop-lex zero xs (suc c ∷ cs) rest h clean = refl
  compare_raw_loop-lex (suc m) [] (suc c ∷ cs) rest h clean = absurd (omega arith)
  compare_raw_loop-lex (suc m) (x ∷ xs) (suc c ∷ cs) rest h clean =
      raw_branch (compare (key x) (key (suc c))) (compare_raw_loop key m xs (cs ++ (0 ∷ rest)))
        (lex (take m xs) cs) (compare_raw_loop-lex m xs cs rest (omega arith) clean.1)

  pub lex_refl : (xs : List ℕ) → lex xs xs ≡ Ordering.eq
  unfolding lex
  lex_refl [] = refl
  lex_refl (x ∷ xs) = ground (arith, lex_refl xs)

  pub lex_trans :
      (xs ys zs : List ℕ)
      → lex xs ys ≡ Ordering.lt
      → lex ys zs ≡ Ordering.lt
      → lex xs zs ≡ Ordering.lt
  unfolding lex
  lex_trans [] [] zs p q = cc
  lex_trans [] (y ∷ ys) [] p q = cc
  lex_trans [] (y ∷ ys) (z ∷ zs) p q = refl
  lex_trans (x ∷ xs) [] zs p q = cc
  lex_trans (x ∷ xs) (y ∷ ys) [] p q = cc
  lex_trans (x ∷ xs) (y ∷ ys) (z ∷ zs) p q = ground (arith, lex_trans xs ys zs)

  pub lex_connected :
      (xs ys : List ℕ) → lex xs ys ≢ Ordering.lt → lex ys xs ≢ Ordering.lt → map key xs ≡ map key ys
  unfolding lex
  lex_connected [] [] p q = refl
  lex_connected [] (y ∷ ys) p q = absurd (p refl)
  lex_connected (x ∷ xs) [] p q = absurd (q refl)
  lex_connected (x ∷ xs) (y ∷ ys) p q = ground (arith, lex_connected xs ys)
