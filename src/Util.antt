-- ===== src/Util.antt =====
-- skl/util.hpp: the case of ASCII letters.
use kl.Base.{ℕ, ◌+◌, ◌-◌, ◌≡◌, ◌&&◌, if◌then◌else◌, leb, arith}

unfoldable pub tolower : ℕ → ℕ
tolower c = if leb b'A' c && leb c b'Z' then c + 32 else c

unfoldable pub toupper : ℕ → ℕ
toupper c = if leb b'a' c && leb c b'z' then c - 32 else c

-- A lower case is its own lower case.
pub tolower-tolower : (c : ℕ) → tolower (tolower c) ≡ tolower c
unfolding tolower
tolower-tolower c = ground arith

-- The lower case of a character has the same upper case.
pub toupper-tolower : (c : ℕ) → toupper (tolower c) ≡ toupper c
unfolding tolower toupper
toupper-tolower c = ground arith
