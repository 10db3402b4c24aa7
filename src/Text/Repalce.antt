-- ===== src/Text/Repalce.antt =====
-- `repalce` and `irepalce` of a text that is not empty.
use kl.Base.{
  ℕ, ◌+◌, ◌-◌, ◌*◌, ◌^◌, ◌≤◌, ◌<◌, ◌≡◌, ◌⊎◌, ◌∙◌, refl, sym, ap, subst, Bool-cases, inl, inr, true,
  false, Option, none, some, List, ◌∷◌, ◌++◌, arith,
}
use kl.Base.{ltb, ◌==◌, ◌>>=◌, length, take, length-append, length-take, take-append_exact}
use kl.Text.{UnicodeString, null_string, from_raw, npos, initialize_from}
use kl.Text.Inv.{IsValid, chars}
use kl.Text.Build.{IsPool, NoNul, rawlen-NoNul, Made, initialize_from-Made}
use kl.Text.Substitute.{count_loop, build, repalce_by}
use kl.Text.Substituted.{by_count, substituted, count_loop-length}
use kl.Text.Rebuilt.{build-chars}
use kl.Text.Compare.{plain, comparemem, icomparemem}
use kl.Util.{tolower}
use kl.Text.Substitute.{repalce, irepalce}

module _ (key : ℕ → ℕ) (pool : ℕ → Option (List ℕ)) (law : IsPool pool) (str : List ℕ) (n : ℕ)
    (fits : n ≤ length str) (short : n + 1 < 2 ^ 15) (old_text rest : List ℕ)
    (clean : NoNul old_text) (some_old : 0 < length old_text) (old_short : length old_text < 2 ^ 31)
    (new_text rest2 : List ℕ) (clean2 : NoNul new_text) (new_short : length new_text < 2 ^ 32) where
  abbrev pub old_block : List ℕ
  old_block = old_text ++ 0 ∷ rest

  abbrev pub new_block : List ℕ
  new_block = new_text ++ 0 ∷ rest2

  abbrev result_of : List ℕ → ℕ → List ℕ
  result_of new fuel = substituted key str n old_block (length old_text) new fuel 0

  abbrev OutcomeOf : List ℕ → ℕ → UnicodeString → Type 0
  OutcomeOf new fuel s =
      (chars s ≡ result_of new fuel)
      ⊎ ((s ≡ null_string) × ((pool (length (result_of new fuel)) ≡ none) ⊎ (pool (n + 1) ≡ none)))

  -- The text with the new text for the old one.
  abbrev pub result : ℕ → List ℕ
  result fuel = substituted key str n old_block (length old_text) new_text fuel 0

  -- The two outcomes: the text, or the null string for want of a block.
  abbrev pub Outcome : ℕ → UnicodeString → Type 0
  Outcome fuel s =
      (chars s ≡ result fuel)
      ⊎ ((s ≡ null_string) × ((pool (length (result fuel)) ≡ none) ⊎ (pool (n + 1) ≡ none)))

  run : ℕ → Option UnicodeString
  run fuel = repalce_by (by_count key) pool fuel (some str) n (some old_block) (some new_block)

  run-found :
      (fuel k : ℕ)
      → count_loop (by_count key) str n old_block (length old_text) fuel 0 0 ≡ some k
      → ltb 0 k ≡ true
      → run fuel
        ≡ build
            (by_count key)
            str
            n
            old_block
            (length old_text)
            pool
            fuel
            new_block
            (length new_text)
            k
  unfolding run repalce_by
  run-found fuel k e found =
      rw
        (
          rawlen-NoNul old_text rest clean,
          ◌>>=◌,
          e,
          ◌>>=◌,
          found,
          rawlen-NoNul new_text rest2 clean2,
          ◌>>=◌,
        )
        refl

  run-never :
      (fuel k : ℕ)
      → count_loop (by_count key) str n old_block (length old_text) fuel 0 0 ≡ some k
      → ltb 0 k ≡ false
      → run fuel ≡ initialize_from pool (some str) n
  unfolding run repalce_by from_raw
  run-never fuel k e never =
      let counted : (n == npos) ≡ false = ground (arith, short) in
      rw (rawlen-NoNul old_text rest clean, ◌>>=◌, e, ◌>>=◌, never, counted, ◌>>=◌) refl

  of_Made :
      (got : Option (List ℕ)) (t : List ℕ) (s : UnicodeString)
      → pool (n + 1) ≡ got
      → Made got t s
      → (chars s ≡ t) ⊎ ((s ≡ null_string) × (pool (n + 1) ≡ none))
  of_Made none t s e m = inr (m, e)
  of_Made (some b) t s e m = inl m.0

  sub_zero : (m : ℕ) → m - 0 ≡ m
  sub_zero m = omega arith

  zero_add : (k : ℕ) → 0 + k ≡ k
  zero_add k = omega arith

  weaken :
      (s : UnicodeString) (new : List ℕ) (fuel : ℕ)
      → (chars s ≡ result_of new fuel)
        ⊎ ((s ≡ null_string) × (pool (length (result_of new fuel)) ≡ none))
      → OutcomeOf new fuel s
  weaken s new fuel (inl e) = inl e
  weaken s new fuel (inr (e, none_left)) = inr (e, inl none_left)

  copied_out :
      (s : UnicodeString) (new : List ℕ) (fuel : ℕ)
      → result_of new fuel ≡ take n str
      → (chars s ≡ take n str) ⊎ ((s ≡ null_string) × (pool (n + 1) ≡ none))
      → OutcomeOf new fuel s
  copied_out s new fuel same (inl e) = inl (e ∙ sym same)
  copied_out s new fuel same (inr (e, none_left)) = inr (e, inr none_left)

  abbrev Fine : List ℕ → ℕ → Type 0
  Fine new fuel = (s : UnicodeString) × (run fuel ≡ some s) × IsValid s × OutcomeOf new fuel s

  run-Fine :
      (fuel : ℕ)
      → n < fuel
      → length (result_of (take (length new_text) new_block) fuel) < 2 ^ 15
      → Fine (take (length new_text) new_block) fuel
  run-Fine fuel enough small =
      let osl = length old_text in
      let nsl = length new_text in
      let new = take nsl new_block in
      let has : osl ≤ length old_block = omega (arith, length-append old_text (0 ∷ rest)) in
      let new_has : nsl ≤ length new_block = omega (arith, length-append new_text (0 ∷ rest2)) in
      let size : length new ≡ nsl = omega (arith, length-take nsl new_block, new_has) in
      let word : n + osl < 2 ^ 32 = omega (arith, short, old_short) in
      let (k, ran, sum, few, unchanged) =
        count_loop-length key str n old_block osl fits has some_old word new fuel 0 0
          (omega (arith, enough)) (omega arith) (omega (arith, short)) in
      let counted = ran ∙ ap some (zero_add k) in
      elim (Bool-cases (ltb 0 k)) [
        | inl found ↦
            let (s, made, valid, outcome) =
              build-chars key str n old_block osl new_block nsl fits has some_old word new_has pool
                law fuel enough k (omega (arith, sum, ap (λ m. k * m) size)) small
                (omega (arith, old_short)) new_short in
            (s, run-found fuel k counted found ∙ made, valid, weaken s new fuel outcome)
        | inr never ↦
            let (s, made, valid, outcome) = initialize_from-Made pool law str n short fits in
            let same : result_of new fuel ≡ take n str =
              unchanged (ground (arith, never)) ∙ ap (λ m. take m str) (sub_zero n) in
            (
              s,
              run-never fuel k counted never ∙ made,
              valid,
              copied_out s new fuel same (of_Made (pool (n + 1)) (take n str) s refl outcome),
            )
      ]

  -- With more fuel than the text has characters, and a result of fewer than 2 ^ 15: `repalce` of a
  -- text that is not empty never leaves its blocks and gives a valid string, which is the text with the
  -- new text for each occurrence of the old one, from the left, that ends before the last character; or
  -- it is the null string, and the pool has no block. (The text has fewer than 2 ^ 15 - 1 characters,
  -- the old one fewer than 2 ^ 31 and the new one fewer than 2 ^ 32, and these two end with a 0.)
  pub repalce_by-chars :
      (fuel : ℕ)
      → n < fuel
      → length (result fuel) < 2 ^ 15
      → (s : UnicodeString) × (repalce_by
            (by_count key)
            pool
            fuel
            (some str)
            n
            (some old_block)
            (some new_block)
          ≡ some s)
        × IsValid s
        × Outcome fuel s
  unfolding run
  repalce_by-chars fuel enough small =
      let exact = take-append_exact (length new_text) new_text (0 ∷ rest2) refl in
      subst (λ u. length (result_of u fuel) < 2 ^ 15 → Fine u fuel) exact (run-Fine fuel enough)
        small

-- The two functions of the source, by what they compare of a character.
repalce-by_count :
    (repalce ≡ repalce_by (by_count plain)) × (irepalce ≡ repalce_by (by_count tolower))
unfolding repalce irepalce comparemem icomparemem repalce_by
repalce-by_count = (refl, refl)
