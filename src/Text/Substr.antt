-- ===== src/Text/Substr.antt =====
-- skl/string.hpp: `substr`.
use kl.Base.{
  ℕ, zero, suc, ◌+◌, ◌-◌, ◌^◌, ◌≤◌, ◌<◌, ◌≡◌, ◌⊎◌, inl, inr, ◌∙◌, refl, sym, ap, subst, Bool-cases,
  false, Option, none, some, List, [], ◌∷◌, arith, if◌then◌else◌, ◌==◌, ltb, ◌>>=◌, length, take,
  drop, length-take, length-drop, take-drop, take_all,
}
use kl.Text.{UnicodeString, cells, null_string, char_count, from_raw, npos}
use kl.Text.Inv.{IsValid, chars, cells-chars, char_count-chars, null_string-IsValid}
use kl.Text.Build.{IsPool, Made, initialize_from-Made}

-- The macro `min`.
abbrev min_of : ℕ → ℕ → ℕ
min_of a b = if ltb a b then a else b

unfoldable pub substr : (ℕ → Option (List ℕ)) → UnicodeString → ℕ → ℕ → Option UnicodeString
substr pool s pos count =
    let this_len = char_count s in
    let copy_len = min_of (if ltb pos this_len then this_len - pos else 0) count in
    if ltb copy_len 1 then some null_string else from_raw pool (drop pos (cells s)) copy_len

take-take_le : {A : Type 0} (a b : ℕ) (xs : List A) → b ≤ a → take b (take a xs) ≡ take b xs
take-take_le a zero xs h = refl
take-take_le zero (suc b) xs h = absurd (omega (arith, h))
take-take_le (suc a) (suc b) [] h = refl
take-take_le (suc a) (suc b) (x ∷ xs) h = ap (λ t. x ∷ t) (take-take_le a b xs (omega (arith, h)))

take-take : {A : Type 0} (a b : ℕ) (xs : List A) → take b (take a xs) ≡ take (min_of a b) xs
take-take a b xs = elim (Bool-cases (ltb a b)) [
  | inl below ↦ rw below (take_all b (take a xs) (ground (arith, length-take a xs)))
  | inr above ↦ rw above (take-take_le a b xs (ground arith))
]

-- A string that holds a text, or null where the pool has no room for it.
abbrev Outcome : (ℕ → Option (List ℕ)) → List ℕ → UnicodeString → Type 0
Outcome pool text t = (chars t ≡ text) ⊎ ((t ≡ null_string) × (pool (length text + 1) ≡ none))

outcome :
    (pool : ℕ → Option (List ℕ)) (got : Option (List ℕ)) (text : List ℕ) (t : UnicodeString)
    → pool (length text + 1) ≡ got
    → Made got text t
    → Outcome pool text t
outcome pool none text t e made = inr (made, e)
outcome pool (some b) text t e made = inl made.0

-- `substr` of a valid string of fewer than 32767 characters never leaves its blocks and gives a valid
-- string. It has the characters from `pos` on, `count` at most, or is the null string where the pool
-- has no room for them.
pub substr-chars :
    (pool : ℕ → Option (List ℕ)) (s : UnicodeString) (pos count : ℕ)
    → IsPool pool
    → IsValid s
    → length (chars s) + 1 < 2 ^ 15
    → let text = take count (drop pos (chars s)) in
      (t : UnicodeString) × (substr pool s pos count ≡ some t)
      × IsValid t
      × ((chars t ≡ text) ⊎ ((t ≡ null_string) × (pool (length text + 1) ≡ none)))
unfolding substr from_raw
substr-chars pool s pos count law v short =
    let small : char_count s + 1 < 2 ^ 15 = omega (arith, short, char_count-chars s v) in
    let (whole, held, _, _) = cells-chars s v in
    let n = char_count s in
    let m = min_of (if ltb pos n then n - pos else 0) count in
    let left : (if ltb pos n then n - pos else 0) ≡ n - pos = ground arith in
    let text : take m (drop pos (cells s)) ≡ take count (drop pos (chars s)) =
      ap (λ k. take (min_of k count) (drop pos (cells s))) left
      ∙ sym (take-take (n - pos) count (drop pos (cells s)))
      ∙ ap (take count) (take-drop pos n (cells s) ∙ ap (drop pos) whole) in
    let within : m ≤ n - pos = ground arith in
    elim (Bool-cases (ltb m 1)) [
      | inl nothing ↦
          let zero_long : m ≡ 0 = ground arith in
          (
            null_string,
            rw nothing refl,
            null_string-IsValid,
            inl (sym (ap (λ k. take k (drop pos (cells s))) zero_long) ∙ text),
          )
      | inr more ↦
          let cut = drop pos (cells s) in
          let fits : m ≤ length cut = omega (arith, length-drop pos (cells s), held, within) in
          let counted : (m == npos) ≡ false = ground (arith, within, small) in
          let (t, run, ok, made) =
            initialize_from-Made pool law cut m (omega (arith, within, small)) fits in
          let size : m ≡ length (take m cut) = omega (arith, length-take m cut, fits) in
          (
            t,
            rw (more, counted, ◌>>=◌) run,
            ok,
            subst (λ u. Outcome pool u t) text
                (outcome pool (pool (m + 1)) (take m cut) t (ap (λ k. pool (k + 1)) (sym size))
                  made),
          )
    ]
