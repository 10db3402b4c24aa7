-- ===== src/Hash/Tests.antt =====
-- The hashes of "aB" in a block of three cells, and of a string that holds it.
use kl.Base.{ℕ, ◌%◌, ◌^◌, ◌≡◌, refl, true, some, List, [], ◌∷◌, arith}
use kl.Util.{tolower}
use kl.Text.{UnicodeString}
use kl.Text.Inv.{IsValid}
use kl.Hash.{letter, bkdr_hash_bytes, bkdr_hash_wide, bkdr_hash_string}
use kl.Hash.Sum.{weighted, bkdr_hash-weighted}

abbrev block : List ℕ
block = 97 ∷ 66 ∷ 0 ∷ []

abbrev name : UnicodeString
name = record { buffer = some block; length_bytes = 4; maximum_bytes = 6 }

name-IsValid : IsValid name
name-IsValid = omega arith

bkdr_hash-weighted_example :
    (bkdr_hash_bytes block 2 ≡ some (weighted (λ c. c) (97 ∷ 66 ∷ []) % 2 ^ 64))
    × (bkdr_hash_wide block 2 true ≡ some (weighted (letter true) (97 ∷ 66 ∷ []) % 2 ^ 64))
    × (bkdr_hash_string name true ≡ some (weighted (letter true) (97 ∷ 66 ∷ []) % 2 ^ 64))
bkdr_hash-weighted_example = bkdr_hash-weighted block 2 name true (omega arith) name-IsValid

hash_of_name : bkdr_hash_string name true ≡ some 12805
unfolding bkdr_hash_string tolower
hash_of_name = refl
