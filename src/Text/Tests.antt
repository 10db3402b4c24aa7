-- ===== src/Text/Tests.antt =====
-- skl/string.hpp: runs at concrete inputs, and the theorems at them.
use kl.Base.{
  ℕ, zero, suc, ◌*◌, ◌/◌, ◌≤◌, ◌<◌, ◌≡◌, ◌≢◌, ◌⊎◌, ◌∙◌, refl, ap, ap₂, sym, false, Option, none,
  some, List, [], ◌∷◌, arith,
}
use kl.Base.{
  length, take, replicate, length-replicate, length-take, some-injective, if◌then◌else◌, ◌==◌,
}
use native.Mathlib.Decide.{ℕ_discrete}
use kl.Util.{tolower}
use kl.Text.{
  UnicodeString, null_string, npos, copy, assign, clear, initialize, initialize_from, from_raw,
  rawlen,
}
use kl.Text.Inv.{IsValid, chars}
use kl.Text.Build.{IsPool, NoNul}
use kl.Text.Assign.{assign-chars}
use kl.Text.Compare.{plain, compare_string, icompare_string}
use kl.Text.Order.{lex}
use kl.Text.Less.{compare_string-lex}
use kl.Text.Find.{find, ifind}
use kl.Text.Search.{First}
use kl.Text.FindText.{occurs}
use kl.Text.Occurrences.{IsCompareMemory, find-First}
use kl.Text.Prefix.{is_prefix}
use kl.Text.Substitute.{repalce_by}
use kl.Text.Substituted.{by_count, substituted}
use kl.Text.Repalce.{repalce_by-chars}

-- "AbA", with room for a fourth character, "ab" and "B".
abbrev mixed : UnicodeString
mixed = record { buffer = some (65 ∷ 98 ∷ 65 ∷ 0 ∷ []); length_bytes = 6; maximum_bytes = 8 }

abbrev lower : UnicodeString
lower = record { buffer = some (97 ∷ 98 ∷ 0 ∷ []); length_bytes = 4; maximum_bytes = 6 }

abbrev single : UnicodeString
single = record { buffer = some (66 ∷ 0 ∷ []); length_bytes = 2; maximum_bytes = 4 }

-- What `lower` is in another block.
abbrev other : UnicodeString
other = record { buffer = some (97 ∷ 98 ∷ 1 ∷ 2 ∷ []); length_bytes = 4; maximum_bytes = 8 }

abbrev stale : UnicodeString
stale = record { buffer = none; length_bytes = 0; maximum_bytes = 8 }

mixed-IsValid : IsValid mixed
mixed-IsValid = record { even = refl; word = omega arith; held = (omega arith, omega arith) }

lower-IsValid : IsValid lower
lower-IsValid = record { even = refl; word = omega arith; held = (omega arith, omega arith) }

single-IsValid : IsValid single
single-IsValid = record { even = refl; word = omega arith; held = (omega arith, omega arith) }

other-IsValid : IsValid other
other-IsValid = record { even = refl; word = omega arith; held = (omega arith, omega arith) }

has_block : {b : List ℕ} → some b ≢ none
has_block e = cc

-- A pool that gives zeroed blocks.
zeroed : ℕ → Option (List ℕ)
zeroed n = some (replicate n 0)

zeroed-IsPool : IsPool zeroed
unfolding zeroed
zeroed-IsPool n b e = ap length (sym (some-injective e)) ∙ length-replicate n 0

ab-NoNul : NoNul (97 ∷ 98 ∷ [])
ab-NoNul = ((λ e. absurd (omega arith)), ((λ e. absurd (omega arith)), tt))

assign-chars_example :
    (t : UnicodeString) × (assign zeroed single mixed ≡ some t)
    × IsValid t
    × (chars t ≡ 65 ∷ 98 ∷ 65 ∷ [])
unfolding zeroed
assign-chars_example =
    assign-chars zeroed zeroed-IsPool mixed mixed-IsValid single single-IsValid
      (λ e. absurd (has_block e)) refl

compare_string-lex_example :
    (compare_string mixed lower ≡ some (lex plain (65 ∷ 98 ∷ 65 ∷ []) (97 ∷ 98 ∷ [])))
    × (icompare_string mixed lower ≡ some (lex tolower (65 ∷ 98 ∷ 65 ∷ []) (97 ∷ 98 ∷ [])))
compare_string-lex_example = compare_string-lex mixed lower mixed-IsValid lower-IsValid

-- The bytes before the first difference, counted by characters.
common : List ℕ → List ℕ → ℕ
common [] ys = 0
common (x ∷ xs) [] = 0
common (x ∷ xs) (y ∷ ys) = let rest = common xs ys in if x == y then suc rest else 0

memory : List ℕ → List ℕ → ℕ → ℕ
memory xs ys bytes = 2 * common (take (bytes / 2) xs) (take (bytes / 2) ys)

common_le : (n : ℕ) (xs ys : List ℕ) → common (take n xs) (take n ys) ≤ n
unfolding common
common_le zero xs ys = omega arith
common_le (suc n) [] ys = omega arith
common_le (suc n) (x ∷ xs) [] = omega arith
common_le (suc n) (x ∷ xs) (y ∷ ys) = ground (arith, common_le n xs ys)

common_all : (xs : List ℕ) → common xs xs ≡ length xs
unfolding common
common_all [] = refl
common_all (x ∷ xs) = ground (arith, common_all xs)

eq_of_common :
    (n : ℕ) (xs ys : List ℕ)
    → n ≤ length xs
    → n ≤ length ys
    → common (take n xs) (take n ys) ≡ n
    → take n xs ≡ take n ys
unfolding common
eq_of_common zero xs ys h k e = refl
eq_of_common (suc n) [] ys h k e = absurd (omega arith)
eq_of_common (suc n) (x ∷ xs) [] h k e = absurd (omega arith)
eq_of_common (suc n) (x ∷ xs) (y ∷ ys) h k e = elim (ℕ_discrete x y) [
  | yes same ↦
      let tail : take n xs ≡ take n ys =
        eq_of_common n xs ys (omega arith) (omega arith) (ground (arith, same, e)) in
      ap₂ ◌∷◌ same tail
  | no differ ↦ absurd (ground (arith, differ, e))
]

memory-IsCompareMemory : IsCompareMemory memory
unfolding memory
memory-IsCompareMemory xs ys n h k = (sound, complete)
  where
    half : 2 * n / 2 ≡ n
    half = omega arith

    sound : memory xs ys (2 * n) ≡ 2 * n → take n xs ≡ take n ys
    sound e =
        eq_of_common n xs ys h k
          (omega (arith, sym (ap (λ q. 2 * common (take q xs) (take q ys)) half) ∙ e))

    complete : take n xs ≡ take n ys → memory xs ys (2 * n) ≡ 2 * n
    complete e =
        ap (λ q. 2 * common (take q xs) (take q ys)) half
        ∙ ap (λ u. 2 * common u (take n ys)) e
        ∙ omega (arith, common_all (take n ys), length-take n ys)

rawlen_two : rawlen (98 ∷ 65 ∷ 0 ∷ []) ≡ some 2
unfolding rawlen
rawlen_two = refl

find-First_example :
    ((r : ℕ) × (find memory mixed (98 ∷ 65 ∷ 0 ∷ []) npos 0 ≡ some r)
      × First (occurs plain (98 ∷ 65 ∷ []) (65 ∷ 98 ∷ 65 ∷ [])) 0 r)
    × ((r : ℕ) × (ifind mixed (98 ∷ 65 ∷ 0 ∷ []) npos 0 ≡ some r)
        × First (occurs tolower (98 ∷ 65 ∷ []) (65 ∷ 98 ∷ 65 ∷ [])) 0 r)
find-First_example =
    find-First memory memory-IsCompareMemory mixed mixed-IsValid (98 ∷ 65 ∷ 0 ∷ []) npos 2
      (omega arith) (omega arith) (omega arith) (omega arith) rawlen_two 0 (omega arith)

nowhere : (j : ℕ) → 0 < j → occurs plain (65 ∷ 98 ∷ []) (65 ∷ 98 ∷ 65 ∷ []) j ≡ false
unfolding kl.Text.Prefix.is_prefix
nowhere zero h = absurd (omega arith)
nowhere (suc zero) h = refl
nowhere (suc (suc zero)) h = refl
nowhere (suc (suc (suc zero))) h = refl
nowhere (suc (suc (suc (suc j)))) h = refl

-- "ab" in "abcab" for "x": the one at the end stays.
abbrev abcab : List ℕ
abcab = 97 ∷ 98 ∷ 99 ∷ 97 ∷ 98 ∷ []

substituted-abcab :
    substituted plain abcab 5 (97 ∷ 98 ∷ 0 ∷ []) 2 (120 ∷ []) 6 0 ≡ 120 ∷ 99 ∷ 97 ∷ 98 ∷ []
unfolding substituted is_prefix
substituted-abcab = refl

repalce_by-chars_example :
    (s : UnicodeString) × (repalce_by
        (by_count plain)
        zeroed
        6
        (some abcab)
        5
        (some (97 ∷ 98 ∷ 0 ∷ []))
        (some (120 ∷ 0 ∷ []))
      ≡ some s)
    × IsValid s
    × ((chars s ≡ substituted plain abcab 5 (97 ∷ 98 ∷ 0 ∷ []) 2 (120 ∷ []) 6 0)
        ⊎ ((s ≡ null_string)
            × ((zeroed (length (substituted plain abcab 5 (97 ∷ 98 ∷ 0 ∷ []) 2 (120 ∷ []) 6 0))
                  ≡ none)
                ⊎ (zeroed 6 ≡ none))))
repalce_by-chars_example =
    repalce_by-chars plain zeroed zeroed-IsPool abcab 5 (omega arith) (omega arith) (97 ∷ 98 ∷ [])
      [] (omega arith) (omega arith) (omega arith) (120 ∷ []) [] (omega arith) (omega arith) 6
      (omega arith) (omega (arith, ap (length {A = ℕ}) substituted-abcab))
