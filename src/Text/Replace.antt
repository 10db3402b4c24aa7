-- ===== src/Text/Replace.antt =====
-- `replace` of a character.
use mathlib.Core.List.{map}
use kl.Base.{
  ℕ, zero, suc, ◌/◌, ◌≤◌, ◌≡◌, ◌∙◌, refl, ap, sym, false, Option, none, some, List, [], ◌∷◌, arith,
}
use kl.Base.{length, take, if◌then◌else◌, ◌==◌, ◌>>=◌}
use native.Mathlib.Decide.{ℕ_discrete}
use kl.Text.{UnicodeString, char_count}
use kl.Text.Inv.{IsValid, chars}
use kl.Text.Find.{replace_loop, replace}

abbrev pub exchange : ℕ → ℕ → ℕ → ℕ
exchange old new x = if x == old then new else x

replace_loop-map :
    (old new n : ℕ) (xs : List ℕ)
    → n ≤ length xs
    → (b : List ℕ) × (replace_loop old new n xs ≡ some b)
      × (length b ≡ length xs)
      × (take n b ≡ map (exchange old new) (take n xs))
unfolding replace_loop
replace_loop-map old new zero xs h = (xs, refl, refl, refl)
replace_loop-map old new (suc n) [] h = absurd (omega arith)
replace_loop-map old new (suc n) (x ∷ xs) h =
    let (b, run, len, same) = replace_loop-map old new n xs (omega arith) in
    (exchange old new x ∷ b, rw (run, ◌>>=◌), omega arith, ap (λ u. exchange old new x ∷ u) same)

abbrev Replaced : ℕ → ℕ → UnicodeString → Type 0
Replaced old new s =
    (s' : UnicodeString) × (replace s old new ≡ some s')
    × IsValid s'
    × (s'.length_bytes ≡ s.length_bytes)
    × (chars s' ≡ map (exchange old new) (chars s))

Replaced-parts :
    (old new : ℕ) (o : Option (List ℕ)) (l m : ℕ)
    → IsValid (record { buffer = o; length_bytes = l; maximum_bytes = m })
    → Replaced old new (record { buffer = o; length_bytes = l; maximum_bytes = m })
unfolding replace char_count
Replaced-parts old new none l m v =
    (record { buffer = none; length_bytes = l; maximum_bytes = m }, refl, v, refl, refl)
Replaced-parts old new (some b) l m v = elim (ℕ_discrete (l / 2) 0) [
  | yes e ↦
      let nothing : (u : List ℕ) → take (l / 2) u ≡ [] = λ u. ap (λ n. take n u) e in
      (
        record { buffer = some b; length_bytes = l; maximum_bytes = m },
        ground (arith, e),
        v,
        refl,
        nothing b ∙ sym (ap (map (exchange old new)) (nothing b)),
      )
  | no ne ↦
      let (b', run, len, same) = replace_loop-map old new (l / 2) b (omega (arith, v.held)) in
      let some_left : (l / 2 == 0) ≡ false = ground arith in
      (
        record { buffer = some b'; length_bytes = l; maximum_bytes = m },
        rw (some_left, run, ◌>>=◌),
        record { even = v.even; word = v.word; held = omega (arith, v.held) },
        refl,
        same,
      )
]

-- `replace` of a character in a valid string never leaves the block, exchanges every occurrence of the old character
-- and keeps the others, the length and the invariant.
pub replace-map :
    (old new : ℕ) (s : UnicodeString)
    → IsValid s
    → (s' : UnicodeString) × (replace s old new ≡ some s')
      × IsValid s'
      × (s'.length_bytes ≡ s.length_bytes)
      × (chars s' ≡ map (exchange old new) (chars s))
replace-map old new s v = Replaced-parts old new s.buffer s.length_bytes s.maximum_bytes v
