-- ===== src/Text/Pieces.antt =====
-- The loop of `repalce` that copies: what stands in the new block.
use kl.Base.{
  ℕ, suc, ◌+◌, ◌-◌, ◌^◌, ◌≤◌, ◌<◌, ◌≡◌, ◌∙◌, refl, ap, true, false, Option, List, ◌++◌, arith,
}
use kl.Base.{
  ◌>>=◌, length, take, drop, add32, sub32, copied, copy_block-some, length-copied, length-take,
  length-drop, take-copied_through,
}
use kl.Text.Substitute.{copy_loop}
use kl.Text.Substituted.{by_count, hit, part, substituted, matches-hit, more32, part-add}

module _ (key : ℕ → ℕ) (str : List ℕ) (n : ℕ) (old : List ℕ) (osl : ℕ) (ns : List ℕ) (nsl : ℕ)
    (fits : n ≤ length str) (has : osl ≤ length old) (some_old : 0 < osl) (word : n + osl < 2 ^ 32)
    (new_has : nsl ≤ length ns) where
  abbrev run : ℕ → ℕ → ℕ → ℕ → List ℕ → Option (ℕ × ℕ × List ℕ)
  run fuel i pre c b = copy_loop (by_count key) str n old osl ns nsl fuel i pre c b

  abbrev new : List ℕ
  new = take nsl ns

  abbrev piece : ℕ → ℕ → List ℕ
  piece = part key str n old osl

  abbrev rest : ℕ → ℕ → List ℕ
  rest fuel i = substituted key str n old osl new fuel i

  -- The block after the text before an occurrence, and after the new text too.
  abbrev first : List ℕ → ℕ → ℕ → ℕ → List ℕ
  first b c i pre = copied b c str pre (i - pre)

  abbrev second : List ℕ → ℕ → ℕ → ℕ → List ℕ
  second b c i pre = copied (first b c i pre) (c + (i - pre)) ns 0 nsl

  pub copy_found :
      (fuel i pre c : ℕ) (b : List ℕ)
      → i + osl < n
      → pre ≤ i
      → c + (i - pre) + nsl ≤ length b
      → length b < 2 ^ 32
      → hit key str n old osl i ≡ true
      → run (suc fuel) i pre c b
        ≡ run fuel (i + osl) (i + osl) (c + (i - pre) + nsl) (second b c i pre)
  unfolding copy_loop
  copy_found fuel i pre c b l p room small found =
      let next : add32 (add32 i (sub32 osl 1)) 1 ≡ i + osl = omega (arith, some_old, l, word) in
      let onto : add32 i osl ≡ i + osl = omega (arith, l, word) in
      let gap : sub32 i pre ≡ i - pre = omega (arith, p, l, word) in
      let up : add32 c (i - pre) ≡ c + (i - pre) = omega (arith, room, small) in
      let up2 : add32 (c + (i - pre)) nsl ≡ c + (i - pre) + nsl = omega (arith, room, small) in
      let one =
        copy_block-some b c str pre (i - pre) (omega (arith, room)) (omega (arith, p, l, fits)) in
      let len =
        length-copied b c str pre (i - pre) (omega (arith, room)) (omega (arith, p, l, fits)) in
      let two =
        copy_block-some (first b c i pre) (c + (i - pre)) ns 0 nsl (omega (arith, len, room))
          (omega (arith, new_has)) in
      rw
        (
          more32 key str n old osl fits has some_old word i l,
          copy_loop,
          matches-hit key str n old osl fits has some_old word i l,
          ◌>>=◌,
          found,
          gap,
          one,
          ◌>>=◌,
          up,
          two,
          ◌>>=◌,
          next,
          onto,
          up2,
        )
        refl

  pub copy_other :
      (fuel i pre c : ℕ) (b : List ℕ)
      → i + osl < n
      → hit key str n old osl i ≡ false
      → run (suc fuel) i pre c b ≡ run fuel (i + 1) pre c b
  unfolding copy_loop
  copy_other fuel i pre c b l other =
      let next : add32 i 1 ≡ i + 1 = omega (arith, l, word) in
      rw
        (
          more32 key str n old osl fits has some_old word i l,
          copy_loop,
          matches-hit key str n old osl fits has some_old word i l,
          ◌>>=◌,
          other,
          next,
        )
        refl

  pub length-piece : (i k : ℕ) → i + k ≤ length str → length (piece i k) ≡ k
  length-piece i k h = omega (arith, length-take k (drop i str), length-drop i str, h)

  pub piece-split :
      (pre i m : ℕ) → pre ≤ i → i ≤ m → piece pre (m - pre) ≡ piece pre (i - pre) ++ piece i (m - i)
  piece-split pre i m p l =
      let sum : m - pre ≡ (i - pre) + (m - i) = omega (arith, p, l) in
      let there : pre + (i - pre) ≡ i = omega (arith, p) in
      ap (piece pre) sum
      ∙ part-add key str n old osl pre (i - pre) (m - i)
      ∙ ap (λ j. piece pre (i - pre) ++ piece j (m - i)) there

  -- The block after an occurrence has the text before it and the new text.
  pub take-second :
      (i pre c : ℕ) (b : List ℕ)
      → i + osl < n
      → pre ≤ i
      → c + (i - pre) + nsl ≤ length b
      → (take (c + (i - pre) + nsl) (second b c i pre) ≡ take c b ++ piece pre (i - pre) ++ new)
        × (length (second b c i pre) ≡ length b)
  take-second i pre c b l p room =
      let len =
        length-copied b c str pre (i - pre) (omega (arith, room)) (omega (arith, p, l, fits)) in
      (
        take-copied_through (first b c i pre) (c + (i - pre)) ns 0 nsl (omega (arith, len, room))
              (omega (arith, new_has))
            ∙ ap (λ u. u ++ new)
                (take-copied_through b c str pre (i - pre) (omega (arith, room))
                  (omega (arith, p, l, fits))),
        length-copied (first b c i pre) (c + (i - pre)) ns 0 nsl (omega (arith, len, room))
              (omega (arith, new_has))
            ∙ len,
      )
