-- ===== src/Text/Substitute.antt =====
-- skl/string.hpp: `repalce` and `irepalce`, which put a text for each occurrence of another. `same_count`
-- is `comparemem` or `icomparemem`.
use kl.Base.{ℕ, zero, suc, ◌*◌, ◌/◌, Bool, true, false, not, Option, none, some, List}
use kl.Base.{if◌then◌else◌, ltb, ◌==◌, ◌>>=◌, drop, add32, sub32, mul32, u16, copy_block}
use kl.Text.{UnicodeString, cells, null_string, with_size, from_raw, is_valid, rawlen}
use kl.Text.Compare.{comparemem, icomparemem}

module _ (same_count : List ℕ → List ℕ → ℕ → Option ℕ) (str : List ℕ) (str_len : ℕ) (old : List ℕ)
    (osl : ℕ) where
  -- `osl == comparemem(str + i, old, osl)`
  unfoldable pub matches : ℕ → Option Bool
  matches i = same_count (drop i str) old osl >>= λ r. some (osl == r)

  -- The loop that counts, on fuel: `i += osl - 1` and `++i`.
  unfoldable pub count_loop : ℕ → ℕ → ℕ → Option ℕ
  count_loop zero i count = none
  count_loop (suc fuel) i count = elim (ltb (add32 i osl) str_len) [
    | false ↦ some count
    | true ↦ matches i >>= λ b. elim b [
      | true ↦ count_loop fuel (add32 (add32 i (sub32 osl 1)) 1) (add32 count 1)
      | false ↦ count_loop fuel (add32 i 1) count
    ]
  ]

  -- The loop that copies, on fuel: `pre`, `copy_len` and the block at its end.
  unfoldable pub copy_loop : List ℕ → ℕ → ℕ → ℕ → ℕ → ℕ → List ℕ → Option (ℕ × ℕ × List ℕ)
  copy_loop ns nsl zero i pre copy_len b = none
  copy_loop ns nsl (suc fuel) i pre copy_len b = elim (ltb (add32 i osl) str_len) [
    | false ↦ some (pre, copy_len, b)
    | true ↦ matches i >>= λ found. elim found [
      | true ↦ copy_block b copy_len str pre (sub32 i pre) >>= λ b1.
          copy_block b1 (add32 copy_len (sub32 i pre)) ns 0 nsl >>= λ b2.
          copy_loop ns nsl fuel (add32 (add32 i (sub32 osl 1)) 1) (add32 i osl)
            (add32 (add32 copy_len (sub32 i pre)) nsl) b2
      | false ↦ copy_loop ns nsl fuel (add32 i 1) pre copy_len b
    ]
  ]

  -- What follows the loop: the rest of the text, and the new length.
  unfoldable pub finish : UnicodeString → ℕ × ℕ × List ℕ → Option UnicodeString
  finish rt (pre, copy_len, b) =
      if ltb pre str_len
      then (copy_block b copy_len str pre (sub32 str_len pre) >>= λ b'. some (record rt {
        buffer = some b';
        length_bytes = u16 (u16 (add32 copy_len (sub32 str_len pre)) * 2);
      }))
      else some (record rt { buffer = some b; length_bytes = u16 (u16 copy_len * 2) })

  -- The branch for a count that is not 0, where the new string is made with `size`.
  unfoldable pub build_with : (ℕ → Option (List ℕ)) → ℕ → List ℕ → ℕ → ℕ → Option UnicodeString
  build_with pool fuel ns nsl size =
      let rt = with_size pool size in
      if not (is_valid rt)
      then some rt
      else (copy_loop ns nsl fuel 0 0 0 (cells rt) >>= λ r. finish rt r)

  unfoldable pub build : (ℕ → Option (List ℕ)) → ℕ → List ℕ → ℕ → ℕ → Option UnicodeString
  build pool fuel ns nsl count =
      build_with pool fuel ns nsl (add32 str_len (mul32 count (sub32 nsl osl)))

module _ (same_count : List ℕ → List ℕ → ℕ → Option ℕ) (pool : ℕ → Option (List ℕ)) where
  -- The static function of a text, its length, and the two other texts; a null pointer is `none`.
  unfoldable pub repalce_by :
      ℕ → Option (List ℕ) → ℕ → Option (List ℕ) → Option (List ℕ) → Option UnicodeString
  repalce_by fuel none str_len old ns = some null_string
  repalce_by fuel (some str) str_len none ns = some null_string
  repalce_by fuel (some str) str_len (some old) none = some null_string
  repalce_by fuel (some str) str_len (some old) (some ns) = do
    osl ← rawlen old
    count ← count_loop same_count str str_len old osl fuel 0 0
    if ltb 0 count
        then (rawlen ns >>= λ nsl. build same_count str str_len old osl pool fuel ns nsl count)
        else from_raw pool str str_len

unfoldable pub repalce :
    (ℕ → Option (List ℕ))
    → ℕ
    → Option (List ℕ)
    → ℕ
    → Option (List ℕ)
    → Option (List ℕ)
    → Option UnicodeString
unfolding repalce_by
repalce = repalce_by comparemem

unfoldable pub irepalce :
    (ℕ → Option (List ℕ))
    → ℕ
    → Option (List ℕ)
    → ℕ
    → Option (List ℕ)
    → Option (List ℕ)
    → Option UnicodeString
unfolding repalce_by
irepalce = repalce_by icomparemem

-- The members, on the string's own characters.
unfoldable pub repalce_string :
    (ℕ → Option (List ℕ))
    → ℕ
    → UnicodeString
    → Option (List ℕ)
    → Option (List ℕ)
    → Option UnicodeString
unfolding repalce
repalce_string pool fuel s old ns = repalce pool fuel s.buffer (s.length_bytes / 2) old ns

unfoldable pub irepalce_string :
    (ℕ → Option (List ℕ))
    → ℕ
    → UnicodeString
    → Option (List ℕ)
    → Option (List ℕ)
    → Option UnicodeString
unfolding irepalce
irepalce_string pool fuel s old ns = irepalce pool fuel s.buffer (s.length_bytes / 2) old ns
