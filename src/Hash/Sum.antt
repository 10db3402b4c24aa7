-- ===== src/Hash/Sum.antt =====
-- What the hashes are.
use kl.Base.{
  ℕ, zero, suc, ◌+◌, ◌*◌, ◌/◌, ◌%◌, ◌^◌, ◌≤◌, ◌≡◌, ◌∙◌, ap, Bool, some, List, [], ◌∷◌, arith,
  length, take,
}
use kl.Text.{UnicodeString, cells}
use kl.Text.Inv.{IsValid, chars, cells-chars}
use kl.Hash.{hash_loop, letter, bkdr_hash_bytes, bkdr_hash_string, bkdr_hash_wide}

-- The number 131 times itself.
abbrev pub power : ℕ → ℕ
power zero = 1
power (suc n) = 131 * power n

-- The sum of the characters, each times the power of 131 by the characters after it.
abbrev pub weighted : (ℕ → ℕ) → List ℕ → ℕ
weighted key [] = 0
weighted key (c ∷ cs) = key c * power (length cs) + weighted key cs

module _ (key : ℕ → ℕ) where
  hash_loop-weighted :
      (n h : ℕ) (cs : List ℕ)
      → n ≤ length cs
      → hash_loop key n (h % 2 ^ 64) cs
        ≡ some ((h * power (length (take n cs)) + weighted key (take n cs)) % 2 ^ 64)
  unfolding hash_loop
  hash_loop-weighted zero h cs k = ap (λ t. some t) (omega arith)
  hash_loop-weighted (suc n) h [] k = absurd (omega (arith, k))
  hash_loop-weighted (suc n) h (c ∷ cs) k =
      let word : (h % 2 ^ 64 * 131 + key c) % 2 ^ 64 ≡ (h * 131 + key c) % 2 ^ 64 = omega arith in
      let p = power (length (take n cs)) in
      let w = weighted key (take n cs) in
      let spread : (h * 131 + key c) * p + w ≡ h * (131 * p) + (key c * p + w) = grind arith in
      ap (λ t. hash_loop key n t cs) word
      ∙ hash_loop-weighted n (h * 131 + key c) cs (omega (arith, k))
      ∙ ap (λ t. some (t % 2 ^ 64)) spread

  hash_loop-start :
      (n : ℕ) (cs : List ℕ)
      → n ≤ length cs
      → hash_loop key n 0 cs ≡ some (weighted key (take n cs) % 2 ^ 64)
  hash_loop-start n cs k =
      hash_loop-weighted n 0 cs k
      ∙ ap (λ t. some (t % 2 ^ 64))
          (let p = power (length (take n cs)) in
            let gone : 0 * p + weighted key (take n cs) ≡ weighted key (take n cs) = omega arith in
            gone)

-- The three hashes never leave the block, and are the remainder by 2 ^ 64 of the sum of the characters,
-- each times the power of 131 by the characters after it: of the first bytes or characters of a
-- block that has so many, and of all characters of a valid string; with `lowercase`, of the
-- characters in lower case.
pub bkdr_hash-weighted :
    (block : List ℕ) (n : ℕ) (s : UnicodeString) (lowercase : Bool)
    → n ≤ length block
    → IsValid s
    → (bkdr_hash_bytes block n ≡ some (weighted (λ c. c) (take n block) % 2 ^ 64))
      × (bkdr_hash_wide block n lowercase
          ≡ some (weighted (letter lowercase) (take n block) % 2 ^ 64))
      × (bkdr_hash_string s lowercase ≡ some (weighted (letter lowercase) (chars s) % 2 ^ 64))
unfolding bkdr_hash_bytes bkdr_hash_wide bkdr_hash_string
bkdr_hash-weighted block n s lowercase k v =
    let (_, _, whole, held) = cells-chars s v in
    (
      hash_loop-start (λ c. c) n block k,
      hash_loop-start (letter lowercase) n block k,
      hash_loop-start (letter lowercase) (s.length_bytes / 2) (cells s) held
          ∙ ap (λ t. some (weighted (letter lowercase) t % 2 ^ 64)) whole,
    )
