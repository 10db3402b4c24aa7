-- ===== src/Text/Find.antt =====
-- skl/string.hpp: `find`, `rfind` and the variants that ignore case, for characters and for texts,
-- and `replace` of a character. `key` is as in `Compare`.
use kl.Base.{ℕ, zero, suc, ◌+◌, ◌-◌, ◌&&◌, Bool, true, false, Option, none, some, List, [], ◌∷◌}
use kl.Base.{if◌then◌else◌, ltb, leb, ◌==◌, ◌>>=◌, drop, length, get_elem?, add32, mul32}
use kl.Util.{tolower}
use kl.Text.{UnicodeString, cells, char_count, rawlen, npos}
use kl.Text.Compare.{plain, icomparemem}

module _ (key : ℕ → ℕ) where
  -- `for (; pos < thislen; ++pos)`, with the rounds that are left and the cells from `pos` on.
  unfoldable pub find_char_loop : ℕ → ℕ → ℕ → List ℕ → Option ℕ
  find_char_loop c zero pos xs = some npos
  find_char_loop c (suc n) pos [] = none
  find_char_loop c (suc n) pos (x ∷ xs) = elim (c == key x) [
    | true ↦ some pos
    | false ↦ find_char_loop c n (pos + 1) xs
  ]

  unfoldable pub find_char_by : UnicodeString → ℕ → ℕ → Option ℕ
  find_char_by s c pos = find_char_loop c (char_count s - pos) pos (drop pos (cells s))

  -- `for (pos = thislen; pos > 0; --pos)`, which reads the cell before `pos`.
  unfoldable pub rfind_char_loop : ℕ → ℕ → List ℕ → Option ℕ
  rfind_char_loop c zero xs = some npos
  rfind_char_loop c (suc p) xs =
      get_elem? xs p >>= λ x. elim (c == key x) [ true ↦ some p | false ↦ rfind_char_loop c p xs ]

  unfoldable pub rfind_char_by : UnicodeString → ℕ → Option ℕ
  rfind_char_by s c = rfind_char_loop c (char_count s) (cells s)

-- `find(wchar_t, pos)` and its variants.
unfoldable pub find_char : UnicodeString → ℕ → ℕ → Option ℕ
unfolding find_char_by
find_char = find_char_by plain

unfoldable pub ifind_char : UnicodeString → ℕ → ℕ → Option ℕ
unfolding find_char_by
ifind_char s c pos = find_char_by tolower s (tolower c) pos

unfoldable pub rfind_char : UnicodeString → ℕ → Option ℕ
unfolding rfind_char_by
rfind_char = rfind_char_by plain

unfoldable pub rifind_char : UnicodeString → ℕ → Option ℕ
unfolding rfind_char_by
rifind_char s c = rfind_char_by tolower s (tolower c)

-- `RtlCompareMemory(xs, ys, 2 * n) == 2 * n`, with that routine of the system a parameter. It reads
-- `n` cells of both.
unfoldable pub same_memory : (List ℕ → List ℕ → ℕ → ℕ) → List ℕ → List ℕ → ℕ → Option Bool
same_memory compare_memory xs ys n =
    if leb n (length xs) && leb n (length ys)
    then some (compare_memory xs ys (mul32 2 n) == mul32 2 n)
    else none

-- `icomparemem(xs, ys, n) == n`
unfoldable pub same_ignoring_case : List ℕ → List ℕ → ℕ → Option Bool
same_ignoring_case xs ys n = icomparemem xs ys n >>= λ r. some (r == n)

module _ (same : List ℕ → List ℕ → ℕ → Option Bool) where
  -- `for (; pos + matchlen <= thislen; ++pos)`, on fuel.
  unfoldable pub find_text_loop : List ℕ → ℕ → ℕ → ℕ → ℕ → List ℕ → Option ℕ
  find_text_loop ys n m zero pos xs = none
  find_text_loop ys n m (suc fuel) pos xs = elim (leb (add32 pos n) m) [
    | false ↦ some npos
    | true ↦ same (drop pos xs) ys n >>= λ b. elim b [
      | true ↦ some pos
      | false ↦ find_text_loop ys n m fuel (add32 pos 1) xs
    ]
  ]

  unfoldable pub find_text_by : UnicodeString → List ℕ → ℕ → ℕ → Option ℕ
  find_text_by s ys count pos = if count == 0 then some npos else do
    n ← if count == npos then rawlen ys else some count
    find_text_loop ys n (char_count s) (char_count s + 1) pos (cells s)

  -- `for (pos = thislen - matchlen; pos > 0; --pos)`
  unfoldable pub rfind_text_loop : List ℕ → ℕ → ℕ → List ℕ → Option ℕ
  rfind_text_loop ys n zero xs = some npos
  rfind_text_loop ys n (suc p) xs = same (drop (suc p) xs) ys n >>= λ b. elim b [
    | true ↦ some (suc p)
    | false ↦ rfind_text_loop ys n p xs
  ]

  unfoldable pub rfind_text_by : UnicodeString → List ℕ → ℕ → Option ℕ
  rfind_text_by s ys count = do
    n ← if count == npos then rawlen ys else some count
    if ltb (char_count s) n then some npos else rfind_text_loop ys n (char_count s - n) (cells s)

unfoldable pub find : (List ℕ → List ℕ → ℕ → ℕ) → UnicodeString → List ℕ → ℕ → ℕ → Option ℕ
unfolding find_text_by same_memory
find compare_memory = find_text_by (same_memory compare_memory)

unfoldable pub ifind : UnicodeString → List ℕ → ℕ → ℕ → Option ℕ
unfolding find_text_by same_ignoring_case
ifind = find_text_by same_ignoring_case

unfoldable pub rfind : (List ℕ → List ℕ → ℕ → ℕ) → UnicodeString → List ℕ → ℕ → Option ℕ
unfolding rfind_text_by same_memory
rfind compare_memory = rfind_text_by (same_memory compare_memory)

unfoldable pub rifind : UnicodeString → List ℕ → ℕ → Option ℕ
unfolding rfind_text_by same_ignoring_case
rifind = rfind_text_by same_ignoring_case

-- `replace(WCHAR, WCHAR)`: `for (i = 0; i < len; ++i)` over the block.
unfoldable pub replace_loop : ℕ → ℕ → ℕ → List ℕ → Option (List ℕ)
replace_loop old new zero xs = some xs
replace_loop old new (suc n) [] = none
replace_loop old new (suc n) (x ∷ xs) =
    replace_loop old new n xs >>= λ r. some ((if x == old then new else x) ∷ r)

unfoldable pub replace : UnicodeString → ℕ → ℕ → Option UnicodeString
replace s old new = elim s.buffer [
  | none ↦ some s
  | some b ↦
      if char_count s == 0
      then some s
      else replace_loop old new (char_count s) b >>= λ b'. some (record s { buffer = some b' })
]
