-- ===== src/Text/Affix.antt =====
-- skl/string.hpp: `startwith`, `endwith` and the variants that ignore case. A pointer argument may be
-- null, which is `none`. `key` is the identity, or `tolower` in the functions that begin with `i`.
use kl.Base.{ℕ, zero, suc, ◌-◌, ◌/◌, Bool, true, false, Option, none, some, List, [], ◌∷◌}
use kl.Base.{if◌then◌else◌, ltb, ◌==◌, ◌>>=◌, drop}
use kl.Util.{tolower}
use kl.Text.{UnicodeString, cells, rawlen, npos}
use kl.Text.Compare.{plain}

module _ (key : ℕ → ℕ) where
  -- `for (; i < sLen; ++i) if (str[i] != start[i]) return false;` and `return true`.
  unfoldable pub prefix_loop : ℕ → List ℕ → List ℕ → Option Bool
  prefix_loop zero xs ys = some true
  prefix_loop (suc n) [] ys = none
  prefix_loop (suc n) (x ∷ xs) [] = none
  prefix_loop (suc n) (x ∷ xs) (y ∷ ys) = elim (key x == key y) [
    | true ↦ prefix_loop n xs ys
    | false ↦ some false
  ]

  -- The static `startwith(str, strLen, start, sLen)`.
  unfoldable pub startwith_by : Option (List ℕ) → ℕ → Option (List ℕ) → ℕ → Option Bool
  startwith_by none m start n = some false
  startwith_by (some xs) m none n = some false
  startwith_by (some xs) m (some ys) n = if ltb m n then some false else prefix_loop n xs ys

  -- The loop of the member `startwith(start, strLen)`, with what is left of `strLen` and of the
  -- string: it stops at a 0 in `start`.
  unfoldable pub member_loop : ℕ → ℕ → List ℕ → List ℕ → Option Bool
  member_loop zero m xs ys = some true
  member_loop (suc n) m xs [] = none
  member_loop (suc n) m xs (zero ∷ ys) = some true
  member_loop (suc n) zero xs (suc y ∷ ys) = some false
  member_loop (suc n) (suc m) [] (suc y ∷ ys) = none
  member_loop (suc n) (suc m) (x ∷ xs) (suc y ∷ ys) = elim (key x == key (suc y)) [
    | true ↦ member_loop n m xs ys
    | false ↦ some false
  ]

  unfoldable pub member_startwith_by : UnicodeString → Option (List ℕ) → ℕ → Option Bool
  member_startwith_by s none n = some false
  member_startwith_by s (some ys) n = member_loop n (s.length_bytes / 2) (cells s) ys

  -- The static `endwith`: for `i` from `startLen` down to 1 the indices `strLen - i` and
  -- `startLen - i` go up.
  unfoldable pub endwith_by : Option (List ℕ) → ℕ → Option (List ℕ) → ℕ → Option Bool
  endwith_by none m start n = some false
  endwith_by (some xs) m none n = some false
  endwith_by (some xs) m (some ys) n =
      if ltb m n then some false else prefix_loop n (drop (m - n) xs) ys

  -- The member `endwith(s, strLen)`.
  unfoldable pub member_endwith_by : UnicodeString → Option (List ℕ) → ℕ → Option Bool
  member_endwith_by s none n = some false
  member_endwith_by s (some ys) n = do
    k ← if n == npos then rawlen ys else some n
    if ltb (s.length_bytes / 2) k
        then some false
        else prefix_loop k (drop (s.length_bytes / 2 - k) (cells s)) ys

-- The friends of two strings.
unfoldable pub startwith : UnicodeString → UnicodeString → Option Bool
unfolding startwith_by
startwith s t = startwith_by plain s.buffer (s.length_bytes / 2) t.buffer (t.length_bytes / 2)

unfoldable pub istartwith : UnicodeString → UnicodeString → Option Bool
unfolding startwith_by
istartwith s t = startwith_by tolower s.buffer (s.length_bytes / 2) t.buffer (t.length_bytes / 2)

unfoldable pub endwith : UnicodeString → UnicodeString → Option Bool
unfolding endwith_by
endwith s t = endwith_by plain s.buffer (s.length_bytes / 2) t.buffer (t.length_bytes / 2)

unfoldable pub iendwith : UnicodeString → UnicodeString → Option Bool
unfolding endwith_by
iendwith s t = endwith_by tolower s.buffer (s.length_bytes / 2) t.buffer (t.length_bytes / 2)

-- The members.
unfoldable pub startwith_raw : UnicodeString → Option (List ℕ) → ℕ → Option Bool
unfolding member_startwith_by
startwith_raw = member_startwith_by plain

unfoldable pub istartwith_raw : UnicodeString → Option (List ℕ) → ℕ → Option Bool
unfolding member_startwith_by
istartwith_raw = member_startwith_by tolower

unfoldable pub endwith_raw : UnicodeString → Option (List ℕ) → ℕ → Option Bool
unfolding member_endwith_by
endwith_raw = member_endwith_by plain

unfoldable pub iendwith_raw : UnicodeString → Option (List ℕ) → ℕ → Option Bool
unfolding member_endwith_by
iendwith_raw = member_endwith_by tolower
