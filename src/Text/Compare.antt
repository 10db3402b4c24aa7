-- ===== src/Text/Compare.antt =====
-- skl/string.hpp: the comparisons. A pointer that walks a block is the list of the cells from it
-- on; `key` is the identity, or `tolower` in the functions whose names begin with `i`. The `int`
-- results -1, 0 and 1 are `lt`, `eq` and `gt`.
use Prim.Native.Nat.{compare, Ordering}
use kl.Base.{ℕ, zero, suc, ◌+◌, ◌/◌, Bool, true, false, Option, none, some, List, [], ◌∷◌}
use kl.Base.{if◌then◌else◌, ltb, ◌==◌, ◌>>=◌}
use kl.Util.{tolower}
use kl.Text.{UnicodeString, cells, char_count}

abbrev pub plain : ℕ → ℕ
plain c = c

module _ (key : ℕ → ℕ) where
  -- `for (; i < strlen && i < thislen; ++i)`, with what is left of both lengths. `some none` is the
  -- end of the loop.
  unfoldable pub compare_loop : ℕ → ℕ → List ℕ → List ℕ → Option (Option Ordering)
  compare_loop zero n xs ys = some none
  compare_loop (suc m) zero xs ys = some none
  compare_loop (suc m) (suc n) [] ys = none
  compare_loop (suc m) (suc n) (x ∷ xs) [] = none
  compare_loop (suc m) (suc n) (x ∷ xs) (y ∷ ys) = elim (compare (key x) (key y)) [
    | Ordering.lt ↦ some (some Ordering.lt)
    | Ordering.gt ↦ some (some Ordering.gt)
    | Ordering.eq ↦ compare_loop m n xs ys
  ]

  unfoldable pub by_length : ℕ → ℕ → Ordering
  by_length m n = if ltb n m then Ordering.gt else if ltb m n then Ordering.lt else Ordering.eq

  unfoldable pub compare_by : UnicodeString → List ℕ → ℕ → Option Ordering
  compare_by s str n = do
    r ← compare_loop (char_count s) n (cells s) str
    some (elim r [ none ↦ by_length (char_count s) n | some o ↦ o ])

  -- `for (; str[i] && i < thislen; ++i)` on a text that a 0 ends.
  unfoldable pub compare_raw_loop : ℕ → List ℕ → List ℕ → Option Ordering
  compare_raw_loop m xs [] = none
  compare_raw_loop m xs (zero ∷ ys) = some (if ltb 0 m then Ordering.gt else Ordering.eq)
  compare_raw_loop zero xs (suc c ∷ ys) = some Ordering.lt
  compare_raw_loop (suc m) [] (suc c ∷ ys) = none
  compare_raw_loop (suc m) (x ∷ xs) (suc c ∷ ys) = elim (compare (key x) (key (suc c))) [
    | Ordering.lt ↦ some Ordering.lt
    | Ordering.gt ↦ some Ordering.gt
    | Ordering.eq ↦ compare_raw_loop m xs ys
  ]

  -- The loop of `comparemem`: how many characters agree.
  unfoldable pub agree : ℕ → List ℕ → List ℕ → Option ℕ
  agree zero xs ys = some 0
  agree (suc n) [] ys = none
  agree (suc n) (x ∷ xs) [] = none
  agree (suc n) (x ∷ xs) (y ∷ ys) = elim (key y == key x) [
    | true ↦ agree n xs ys >>= λ r. some (r + 1)
    | false ↦ some 0
  ]

unfoldable pub compare_count : UnicodeString → List ℕ → ℕ → Option Ordering
unfolding compare_by
compare_count = compare_by plain

unfoldable pub icompare_count : UnicodeString → List ℕ → ℕ → Option Ordering
unfolding compare_by
icompare_count = compare_by tolower

unfoldable pub compare_raw : UnicodeString → List ℕ → Option Ordering
unfolding compare_raw_loop
compare_raw s str = compare_raw_loop plain (char_count s) (cells s) str

unfoldable pub icompare_raw : UnicodeString → List ℕ → Option Ordering
unfolding compare_raw_loop
icompare_raw s str = compare_raw_loop tolower (char_count s) (cells s) str

-- `compare(const string&)`, and `compare(const UNICODE_STRING&)`, which reads the same fields.
unfoldable pub compare_string : UnicodeString → UnicodeString → Option Ordering
unfolding compare_count
compare_string s t = compare_count s (cells t) (t.length_bytes / 2)

unfoldable pub icompare_string : UnicodeString → UnicodeString → Option Ordering
unfolding icompare_count
icompare_string s t = icompare_count s (cells t) (t.length_bytes / 2)

-- `operator<`
unfoldable pub less : UnicodeString → UnicodeString → Option Bool
unfolding compare_string
less s t = do o ← compare_string s t; some (elim o [ Ordering.lt ↦ true | _ ↦ false ])

unfoldable pub comparemem : List ℕ → List ℕ → ℕ → Option ℕ
unfolding agree
comparemem str str2 n = agree plain n str str2

unfoldable pub icomparemem : List ℕ → List ℕ → ℕ → Option ℕ
unfolding agree
icomparemem str str2 n = agree tolower n str str2
