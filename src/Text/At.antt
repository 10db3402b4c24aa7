-- ===== src/Text/At.antt =====
-- Reading one character.
use kl.Base.{
  ℕ, zero, suc, ◌/◌, ◌≤◌, ◌<◌, ◌≡◌, ◌∙◌, refl, sym, Bool, Bool-cases, inl, inr, false, Option, none,
  some, List, [], ◌∷◌, arith,
}
use kl.Base.{
  length, take, get_or, get_elem?, ltb, leb, if◌then◌else◌, length-take, lt→ltb, leb→le, leb→lt,
  ◌>>=◌, get_elem?-get_or, get_elem?-take,
}
use mathlib.Core.Option
use kl.Text.{UnicodeString, char_at, at}
use kl.Text.Inv.{IsValid, Held, chars, chars_of}

get_or-past : (xs : List ℕ) (i : ℕ) → length xs ≤ i → get_or xs i 0 ≡ 0
get_or-past [] i h = refl
get_or-past (x ∷ xs) zero h = absurd (omega arith)
get_or-past (x ∷ xs) (suc i) h = get_or-past xs i (omega arith)

-- What `operator[]` and `at` answer about the text `xs`.
abbrev pub Reads : UnicodeString → ℕ → Option Bool → List ℕ → Type 0
Reads s pos ok xs =
    (char_at s pos ≡ some (get_or xs pos 0))
    × (at s pos ok
        ≡ some (get_or xs pos 0, if ltb pos (length xs) then ok else Option.map (λ _. false) ok))

Reads-parts :
    (o : Option (List ℕ)) (l m pos : ℕ) (ok : Option Bool)
    → Held o l m
    → Reads (record { buffer = o; length_bytes = l; maximum_bytes = m }) pos ok (chars_of o l)
unfolding char_at at
Reads-parts none l m pos ok h = (refl, rw nothing)
  where
    nothing : ltb pos 0 ≡ false
    nothing = ground arith
Reads-parts (some b) l m pos ok h = elim (Bool-cases (leb (l / 2) pos)) [
  | inl past ↦
      let out : length (take (l / 2) b) ≤ pos = omega (arith, leb→le (l / 2) pos past, len) in
      let zero_read = get_or-past (take (l / 2) b) pos out in
      let none_there : ltb pos (length (take (l / 2) b)) ≡ false = ground arith in
      (rw (past, zero_read), rw (past, zero_read, none_there))
  | inr inside ↦
      let lt : pos < length (take (l / 2) b) = omega (arith, leb→lt (l / 2) pos inside, len) in
      let read : get_elem? b pos ≡ some (get_or (take (l / 2) b) pos 0) =
        sym (get_elem?-take (l / 2) b pos (leb→lt (l / 2) pos inside))
        ∙ get_elem?-get_or (take (l / 2) b) pos 0 lt in
      (rw (inside, read), rw (inside, read, lt→ltb pos (length (take (l / 2) b)) lt, ◌>>=◌))
]
  where
    len : length (take (l / 2) b) ≡ l / 2
    len = omega (arith, length-take (l / 2) b)

-- `operator[]` and `at` of a valid string never leave the block: they read the character at `pos`, or
-- 0 where there is none, and `at` then writes false to `*ok`, which it leaves otherwise.
pub at-chars :
    (s : UnicodeString) (pos : ℕ) (ok : Option Bool) → IsValid s → Reads s pos ok (chars s)
at-chars s pos ok v = Reads-parts s.buffer s.length_bytes s.maximum_bytes pos ok v.held
