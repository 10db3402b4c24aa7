-- ===== src/Text/Less.antt =====
-- The comparisons of whole strings, and `operator<` as a strict total order, which is what a map or
-- a set with string keys relies on.
use Prim.Native.Nat.{Ordering}
use mathlib.Core.List.{map}
use kl.Base.{ℕ, ◌/◌, ◌≡◌, ◌≢◌, ◌∙◌, refl, ap, sym, true, false, some, List, [], ◌∷◌, ◌++◌, arith}
use kl.Util.{tolower}
use kl.Text.{UnicodeString, char_count, cells}
use kl.Text.Inv.{IsValid, chars, cells-chars}
use kl.Text.Build.{NoNul}
use kl.Text.Compare.{
  plain, compare_count, icompare_count, compare_string, icompare_string, compare_raw, icompare_raw,
  less,
}
use kl.Text.Order.{lex, compare_by-lex, compare_raw_loop-lex, lex_refl, lex_trans, lex_connected}

module _ (s t : UnicodeString) (v : IsValid s) (w : IsValid t) where
  -- `compare` and `icompare` of two valid strings never leave their blocks, and are the lexicographic
  -- orders of the characters and of their lower case.
  pub compare_string-lex :
      (compare_string s t ≡ some (lex plain (chars s) (chars t)))
      × (icompare_string s t ≡ some (lex tolower (chars s) (chars t)))
  unfolding compare_string compare_count icompare_string icompare_count
  compare_string-lex =
      let (_, _, text, inside) = cells-chars t w in
      (
        compare_by-lex plain s (cells t) (t.length_bytes / 2) v inside
            ∙ ap (λ u. some (lex plain (chars s) u)) text,
        compare_by-lex tolower s (cells t) (t.length_bytes / 2) v inside
            ∙ ap (λ u. some (lex tolower (chars s) u)) text,
      )

  less-lex :
      less s t ≡ some (elim (lex plain (chars s) (chars t)) [ Ordering.lt ↦ true | _ ↦ false ])
  unfolding less
  less-lex = rw compare_string-lex.0

  less-true : less s t ≡ some true → lex plain (chars s) (chars t) ≡ Ordering.lt
  less-true h = ground (arith, less-lex)

  less-false : less s t ≡ some false → lex plain (chars s) (chars t) ≢ Ordering.lt
  less-false h = ground (arith, less-lex)

-- `compare` and `icompare` of a valid string with a text that a 0 ends stop there, and are the
-- lexicographic order with that text, the latter in lower case.
pub compare_raw-lex :
    (s : UnicodeString) (text rest : List ℕ)
    → IsValid s
    → NoNul text
    → (compare_raw s (text ++ (0 ∷ rest)) ≡ some (lex plain (chars s) text))
      × (icompare_raw s (text ++ (0 ∷ rest)) ≡ some (lex tolower (chars s) text))
unfolding compare_raw icompare_raw
compare_raw-lex s text rest v clean =
    let (read, inside, _, _) = cells-chars s v in
    (
      compare_raw_loop-lex plain (char_count s) (cells s) text rest inside clean
          ∙ ap (λ u. some (lex plain u text)) read,
      compare_raw_loop-lex tolower (char_count s) (cells s) text rest inside clean
          ∙ ap (λ u. some (lex tolower u text)) read,
    )

map-plain : (xs : List ℕ) → map plain xs ≡ xs
map-plain [] = refl
map-plain (x ∷ xs) = ap (λ t. x ∷ t) (map-plain xs)

-- `operator<` of a valid string and itself returns false.
pub less_irrefl : (s : UnicodeString) → IsValid s → less s s ≡ some false
less_irrefl s v = less-lex s s v v ∙ rw (lex_refl plain (chars s))

-- `operator<` is transitive on valid strings.
pub less_trans :
    (s t u : UnicodeString)
    → IsValid s
    → IsValid t
    → IsValid u
    → less s t ≡ some true
    → less t u ≡ some true
    → less s u ≡ some true
less_trans s t u v w x p q =
    less-lex s u v x
    ∙ rw (lex_trans plain (chars s) (chars t) (chars u) (less-true s t v w p) (less-true t u w x q))

-- Two valid strings of which neither is less have the same characters.
pub less_connected :
    (s t : UnicodeString)
    → IsValid s
    → IsValid t
    → less s t ≡ some false
    → less t s ≡ some false
    → chars s ≡ chars t
less_connected s t v w p q =
    sym (map-plain (chars s))
    ∙ lex_connected plain (chars s) (chars t) (less-false s t v w p) (less-false t s w v q)
    ∙ map-plain (chars t)
