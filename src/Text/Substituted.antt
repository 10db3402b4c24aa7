-- ===== src/Text/Substituted.antt =====
-- The text that `repalce` and `irepalce` make.
use native.Mathlib.Nat.{add-mul}
use kl.Base.{
  ℕ, zero, suc, ◌+◌, ◌-◌, ◌*◌, ◌^◌, ◌≤◌, ◌<◌, ◌≡◌, ◌∙◌, refl, sym, ap, Bool, Bool-cases, inl, inr,
  true, false, Option, none, some, List, [], ◌∷◌, ◌++◌, arith,
}
use kl.Base.{
  if◌then◌else◌, ltb, ◌==◌, ◌>>=◌, length, take, drop, add32, sub32, length-append, length-take,
  length-drop, take_all,
}
use kl.Text.Compare.{agree}
use kl.Text.Prefix.{is_prefix}
use kl.Text.FindText.{agree-is_prefix}
use kl.Text.Substitute.{matches, count_loop}

module _ {A : Type 0} where
  drop_nil : (n : ℕ) → drop {A = A} n [] ≡ []
  drop_nil zero = refl
  drop_nil (suc n) = refl

  pub take-add : (a b : ℕ) (xs : List A) → take (a + b) xs ≡ take a xs ++ take b (drop a xs)
  take-add zero b xs = ap (λ k. take k xs) (omega arith)
  take-add (suc a) b [] = take_all (suc a + b) [] (omega arith) ∙ sym (take_all b [] (omega arith))
  take-add (suc a) b (x ∷ xs) =
      let e : suc a + b ≡ suc (a + b) = omega arith in
      ap (λ k. take k (x ∷ xs)) e ∙ ap (λ t. x ∷ t) (take-add a b xs)

  pub drop-add : (a b : ℕ) (xs : List A) → drop (a + b) xs ≡ drop b (drop a xs)
  drop-add zero b xs = ap (λ k. drop k xs) (omega arith)
  drop-add (suc a) b [] = drop_nil (suc a + b) ∙ sym (drop_nil b)
  drop-add (suc a) b (x ∷ xs) =
      let e : suc a + b ≡ suc (a + b) = omega arith in ap (λ k. drop k (x ∷ xs)) e ∙ drop-add a b xs

-- `comparemem`, or `icomparemem`, by what they compare of a character.
abbrev pub by_count : (ℕ → ℕ) → List ℕ → List ℕ → ℕ → Option ℕ
by_count key xs ys m = agree key m xs ys

module _ (key : ℕ → ℕ) (str : List ℕ) (n : ℕ) (old : List ℕ) (osl : ℕ) where
  -- The old text stands at an index.
  abbrev pub hit : ℕ → Bool
  hit i = is_prefix key (take osl old) (drop i str)

  abbrev pub part : ℕ → ℕ → List ℕ
  part i k = take k (drop i str)

  pub part-add : (i a k : ℕ) → part i (a + k) ≡ part i a ++ part (i + a) k
  part-add i a k =
      take-add a k (drop i str) ∙ ap (λ t. part i a ++ take k t) (sym (drop-add i a str))

  -- The text from index `i` on with the new text for each occurrence of the old one, from the left,
  -- that ends before the last character. The first number is fuel.
  unfoldable pub substituted : List ℕ → ℕ → ℕ → List ℕ
  substituted new zero i = []
  substituted new (suc fuel) i =
      let found = new ++ substituted new fuel (i + osl) in
      let onward = part i 1 ++ substituted new fuel (i + 1) in
      if ltb (i + osl) n then if hit i then found else onward else part i (n - i)

  module _ (fits : n ≤ length str) (has : osl ≤ length old) (some_old : 0 < osl)
      (word : n + osl < 2 ^ 32) where
    pub matches-hit : (i : ℕ) → i + osl < n → matches (by_count key) str n old osl i ≡ some (hit i)
    unfolding matches
    matches-hit i l =
        let (r, run, same) =
          agree-is_prefix key osl (drop i str) old (omega (arith, length-drop i str)) has in
        let turned : (osl == r) ≡ hit i = ground (arith, same) in rw (run, ◌>>=◌) (ap some turned)

    pub more32 : (i : ℕ) → i + osl < n → ltb (add32 i osl) n ≡ true
    more32 i l =
        let here : add32 i osl ≡ i + osl = omega (arith, l, word) in
        let less : ltb (i + osl) n ≡ true = ground arith in ap (λ x. ltb x n) here ∙ less

    -- One round of the loop that counts.
    count_found :
        (fuel i c : ℕ)
        → i + osl < n
        → c + 1 < 2 ^ 32
        → hit i ≡ true
        → count_loop (by_count key) str n old osl (suc fuel) i c
          ≡ count_loop (by_count key) str n old osl fuel (i + osl) (c + 1)
    unfolding count_loop
    count_found fuel i c l w found =
        let next : add32 (add32 i (sub32 osl 1)) 1 ≡ i + osl = omega (arith, some_old, l, word) in
        let up : add32 c 1 ≡ c + 1 = omega (arith, w) in
        rw (more32 i l, count_loop, matches-hit i l, ◌>>=◌, found, next, up) refl

    count_other :
        (fuel i c : ℕ)
        → i + osl < n
        → hit i ≡ false
        → count_loop (by_count key) str n old osl (suc fuel) i c
          ≡ count_loop (by_count key) str n old osl fuel (i + 1) c
    unfolding count_loop
    count_other fuel i c l other =
        let next : add32 i 1 ≡ i + 1 = omega (arith, l, word) in
        rw (more32 i l, count_loop, matches-hit i l, ◌>>=◌, other, next) refl

    -- The count says how long the new text is.
    pub count_loop-length :
        (new : List ℕ) (fuel i c : ℕ)
        → n < fuel + i
        → i ≤ n
        → c + (n - i) < 2 ^ 32
        → (k : ℕ) × (count_loop (by_count key) str n old osl fuel i c ≡ some (c + k))
          × (length (substituted new fuel i) + k * osl ≡ (n - i) + k * length new)
          × (k ≤ n - i)
          × (k ≡ 0 → substituted new fuel i ≡ part i (n - i))
    unfolding count_loop substituted
    count_loop-length new zero i c h l w = absurd (omega (arith, h, l))
    count_loop-length new (suc fuel) i c h l w =
        let here : add32 i osl ≡ i + osl = omega (arith, l, word) in
        elim (Bool-cases (ltb (i + osl) n)) [
          | inl more ↦
              let less : i + osl < n = ground (arith, more) in
              elim (Bool-cases (hit i)) [
                | inl found ↦
                    let (k, run, sum, small, unchanged) =
                      count_loop-length new fuel (i + osl) (c + 1) (omega (arith, h, some_old))
                        (omega (arith, less)) (omega (arith, w, less, some_old)) in
                    let one_more : c + 1 + k ≡ c + (k + 1) = omega arith in
                    (
                      k + 1,
                      count_found fuel i c less (omega (arith, w, less)) found
                          ∙ run
                          ∙ ap some one_more,
                      rw (more, found)
                          (omega (
                            arith,
                            sum,
                            length-append new (substituted new fuel (i + osl)),
                            add-mul k 1 osl,
                            add-mul k 1 (length new),
                            less,
                          )),
                      omega (arith, small, less, some_old),
                      λ z. absurd (omega (arith, z)),
                    )
                | inr other ↦
                    let (k, run, sum, small, unchanged) =
                      count_loop-length new fuel (i + 1) c (omega (arith, h)) (omega (arith, less))
                        (omega (arith, w)) in
                    (
                      k,
                      count_other fuel i c less other ∙ run,
                      rw (more, other)
                          (omega (
                            arith,
                            sum,
                            length-append (part i 1) (substituted new fuel (i + 1)),
                            length-take 1 (drop i str),
                            length-drop i str,
                            fits,
                            less,
                          )),
                      omega (arith, small),
                      λ z.
                          let onward : n - i ≡ 1 + (n - (i + 1)) = omega (arith, less) in
                          rw (more, other)
                            (ap (λ u. part i 1 ++ u) (unchanged z)
                              ∙ sym (part-add i 1 (n - (i + 1)))
                              ∙ ap (part i) (sym onward)),
                    )
              ]
          | inr over ↦ (
            0,
            rw (ap (λ x. ltb x n) here ∙ over, count_loop) (ap some (omega arith)),
            rw over (omega (arith, length-take (n - i) (drop i str), length-drop i str, fits)),
            omega arith,
            λ z. rw over refl,
          )
        ]

-- An empty text to look for is found again and again at the same index: before the end of the text the
-- loop that counts never ends, whatever the fuel.
pub count_loop_endless :
    (key : ℕ → ℕ) (str : List ℕ) (n : ℕ) (old : List ℕ) (fuel i c : ℕ)
    → i < n
    → n < 2 ^ 32
    → count_loop (by_count key) str n old 0 fuel i c ≡ none
unfolding count_loop matches agree
count_loop_endless key str n old zero i c l w = refl
count_loop_endless key str n old (suc fuel) i c l w =
    let here : add32 i 0 ≡ i = omega (arith, l, w) in
    let less : ltb i n ≡ true = ground (arith, l) in
    let more : ltb (add32 i 0) n ≡ true = ap (λ x. ltb x n) here ∙ less in
    let next : add32 (add32 i (sub32 0 1)) 1 ≡ i = omega (arith, l, w) in
    rw (more, count_loop, ◌>>=◌, next) (count_loop_endless key str n old fuel i (add32 c 1) l w)
