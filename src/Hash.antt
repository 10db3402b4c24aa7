-- ===== src/Hash.antt =====
-- skl/hash.hpp and skl/hashstring.hpp: the three functions `BKDRHash`, on bytes, on a `UNICODE_STRING`
-- and on wide characters. A pointer is the list of the cells from it on, and `none` is an access
-- outside the block.
pub mod Sum
mod Tests
use kl.Base.{
  ℕ, zero, suc, ◌+◌, ◌*◌, ◌/◌, ◌%◌, ◌^◌, Bool, true, false, Option, none, some, List, [], ◌∷◌,
  if◌then◌else◌,
}
use kl.Util.{tolower}
use kl.Text.{UnicodeString, cells}

-- The loop, with the rounds left and `hash`, which has 64 bits; `key` is what is done to a character.
unfoldable pub hash_loop : (ℕ → ℕ) → ℕ → ℕ → List ℕ → Option ℕ
hash_loop key zero hash str = some hash
hash_loop key (suc n) hash [] = none
hash_loop key (suc n) hash (c ∷ str) = hash_loop key n ((hash * 131 + key c) % 2 ^ 64) str

-- `lowercase ? skl::tolower(c) : c`
abbrev pub letter : Bool → ℕ → ℕ
letter lowercase c = if lowercase then tolower c else c

unfoldable pub bkdr_hash_bytes : List ℕ → ℕ → Option ℕ
unfolding hash_loop
bkdr_hash_bytes str len = hash_loop (λ c. c) len 0 str

unfoldable pub bkdr_hash_string : UnicodeString → Bool → Option ℕ
unfolding hash_loop
bkdr_hash_string str lowercase = hash_loop (letter lowercase) (str.length_bytes / 2) 0 (cells str)

unfoldable pub bkdr_hash_wide : List ℕ → ℕ → Bool → Option ℕ
unfolding hash_loop
bkdr_hash_wide str wlen lowercase = hash_loop (letter lowercase) wlen 0 str
