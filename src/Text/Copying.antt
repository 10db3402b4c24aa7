-- ===== src/Text/Copying.antt =====
-- The whole loop of `repalce` that copies: what it leaves when it ends.
use mathlib.Core.List.{append_assoc, append-nil}
use kl.Base.{
  ℕ, zero, suc, ◌+◌, ◌-◌, ◌^◌, ◌≤◌, ◌<◌, ◌≡◌, ◌∙◌, refl, sym, ap, Bool-cases, inl, inr, true, false,
  Option, some, List, ◌++◌, arith,
}
use kl.Base.{ltb, length, take, add32, copied, length-append, length-take}
use kl.Text.Substitute.{copy_loop}
use kl.Text.Substituted.{by_count, hit, part, substituted}
use kl.Text.Pieces.{copy_found, copy_other, length-piece, piece-split, take-second}

module _ (key : ℕ → ℕ) (str : List ℕ) (n : ℕ) (old : List ℕ) (osl : ℕ) (ns : List ℕ) (nsl : ℕ)
    (fits : n ≤ length str) (has : osl ≤ length old) (some_old : 0 < osl) (word : n + osl < 2 ^ 32)
    (new_has : nsl ≤ length ns) where
  abbrev run : ℕ → ℕ → ℕ → ℕ → List ℕ → Option (ℕ × ℕ × List ℕ)
  run fuel i pre c b = copy_loop (by_count key) str n old osl ns nsl fuel i pre c b

  abbrev new : List ℕ
  new = take nsl ns

  abbrev piece : ℕ → ℕ → List ℕ
  piece = part key str n old osl

  abbrev rest : ℕ → ℕ → List ℕ
  rest fuel i = substituted key str n old osl new fuel i

  -- The block after the text before an occurrence, and after the new text too.
  abbrev first : List ℕ → ℕ → ℕ → ℕ → List ℕ
  first b c i pre = copied b c str pre (i - pre)

  abbrev second : List ℕ → ℕ → ℕ → ℕ → List ℕ
  second b c i pre = copied (first b c i pre) (c + (i - pre)) ns 0 nsl

  nothing_more : (c i : ℕ) (b : List ℕ) → take c b ++ piece i (i - i) ≡ take c b
  nothing_more c i b =
      let none_left : i - i ≡ 0 = omega arith in
      ap (λ k. take c b ++ piece i k) none_left ∙ append-nil (take c b)

  -- What the loop leaves: the block, and where the rest of the text goes.
  pub record Done (fuel i pre c : ℕ) (b : List ℕ) (pre' c' : ℕ) (b' : List ℕ) : Type 0 where
    pub ran : run fuel i pre c b ≡ some (pre', c', b')
    pub block : length b' ≡ length b
    pub inside : pre' ≤ n
    pub total : c' + (n - pre') ≡ c + (i - pre) + length (rest fuel i)
    pub text : take c' b' ++ piece pre' (n - pre') ≡ take c b ++ piece pre (i - pre) ++ rest fuel i

  rest-found :
      (fuel i : ℕ)
      → ltb (i + osl) n ≡ true
      → hit key str n old osl i ≡ true
      → (rest (suc fuel) i ≡ new ++ rest fuel (i + osl))
        × (length (rest (suc fuel) i) ≡ nsl + length (rest fuel (i + osl)))
  unfolding substituted
  rest-found fuel i more found =
      let e : rest (suc fuel) i ≡ new ++ rest fuel (i + osl) = rw (more, found) refl in
      (
        e,
        omega (
          arith,
          ap (length {A = ℕ}) e,
          length-append new (rest fuel (i + osl)),
          length-take nsl ns,
          new_has,
        ),
      )

  rest-other :
      (fuel i : ℕ)
      → ltb (i + osl) n ≡ true
      → hit key str n old osl i ≡ false
      → (rest (suc fuel) i ≡ piece i 1 ++ rest fuel (i + 1))
        × (length (rest (suc fuel) i) ≡ 1 + length (rest fuel (i + 1)))
  unfolding substituted
  rest-other fuel i more other =
      let e : rest (suc fuel) i ≡ piece i 1 ++ rest fuel (i + 1) = rw (more, other) refl in
      let less : i + osl < n = ground (arith, more) in
      (
        e,
        omega (
          arith,
          ap (length {A = ℕ}) e,
          length-append (piece i 1) (rest fuel (i + 1)),
          length-piece key str n old osl ns nsl fits has some_old word new_has i 1
              (omega (arith, less, fits)),
        ),
      )

  Done-found :
      (fuel i pre c : ℕ) (b : List ℕ) {pre' c' : ℕ} {b' : List ℕ}
      → ltb (i + osl) n ≡ true
      → hit key str n old osl i ≡ true
      → pre ≤ i
      → c + (i - pre) + nsl ≤ length b
      → length b < 2 ^ 32
      → Done fuel (i + osl) (i + osl) (c + (i - pre) + nsl) (second b c i pre) pre' c' b'
      → Done (suc fuel) i pre c b pre' c' b'
  Done-found fuel i pre c b more found p held small d =
      let less : i + osl < n = ground (arith, more) in
      let (e, count) = rest-found fuel i more found in
      let (text, len) =
        take-second key str n old osl ns nsl fits has some_old word new_has i pre c b less p held in
      record {
        ran =
            copy_found key str n old osl ns nsl fits has some_old word new_has fuel i pre c b less p
              held small found
            ∙ d.ran;
        block = d.block ∙ len;
        inside = d.inside;
        total = omega (arith, d.total, count);
        text =
            d.text
            ∙ ap (λ u. u ++ rest fuel (i + osl))
                (nothing_more (c + (i - pre) + nsl) (i + osl) (second b c i pre) ∙ text)
            ∙ append_assoc (take c b ++ piece pre (i - pre)) new (rest fuel (i + osl))
            ∙ ap (λ u. take c b ++ piece pre (i - pre) ++ u) (sym e);
      }

  Done-other :
      (fuel i pre c : ℕ) (b : List ℕ) {pre' c' : ℕ} {b' : List ℕ}
      → ltb (i + osl) n ≡ true
      → hit key str n old osl i ≡ false
      → pre ≤ i
      → Done fuel (i + 1) pre c b pre' c' b'
      → Done (suc fuel) i pre c b pre' c' b'
  Done-other fuel i pre c b more other p d =
      let less : i + osl < n = ground (arith, more) in
      let (e, count) = rest-other fuel i more other in
      let one : i + 1 - i ≡ 1 = omega arith in
      let longer : piece pre (i + 1 - pre) ≡ piece pre (i - pre) ++ piece i 1 =
        piece-split key str n old osl ns nsl fits has some_old word new_has pre i (i + 1) p
          (omega arith)
        ∙ ap (λ k. piece pre (i - pre) ++ piece i k) one in
      record {
        ran =
            copy_other key str n old osl ns nsl fits has some_old word new_has fuel i pre c b less
              other
            ∙ d.ran;
        block = d.block;
        inside = d.inside;
        total = omega (arith, d.total, count, p);
        text =
            d.text
            ∙ ap (λ u. take c b ++ u ++ rest fuel (i + 1)) longer
            ∙ ap (λ u. u ++ rest fuel (i + 1))
                (sym (append_assoc (take c b) (piece pre (i - pre)) (piece i 1)))
            ∙ append_assoc (take c b ++ piece pre (i - pre)) (piece i 1) (rest fuel (i + 1))
            ∙ ap (λ u. take c b ++ piece pre (i - pre) ++ u) (sym e);
      }

  Done-end :
      (fuel i pre c : ℕ) (b : List ℕ)
      → ltb (i + osl) n ≡ false
      → pre ≤ i
      → i ≤ n
      → Done (suc fuel) i pre c b pre c b
  unfolding substituted copy_loop
  Done-end fuel i pre c b over p l =
      let here : add32 i osl ≡ i + osl = omega (arith, l, word) in
      let end : rest (suc fuel) i ≡ piece i (n - i) = rw over refl in
      let count =
        length-piece key str n old osl ns nsl fits has some_old word new_has i (n - i)
          (omega (arith, l, fits)) in
      record {
        ran = rw (ap (λ x. ltb x n) here ∙ over, copy_loop) refl;
        block = refl;
        inside = omega (arith, p, l);
        total = omega (arith, ap (length {A = ℕ}) end, count, p, l);
        text =
            ap (λ u. take c b ++ u)
              (piece-split key str n old osl ns nsl fits has some_old word new_has pre i n p l)
            ∙ sym (append_assoc (take c b) (piece pre (i - pre)) (piece i (n - i)))
            ∙ ap (λ u. take c b ++ piece pre (i - pre) ++ u) (sym end);
      }

  pub copy_loop-Done :
      (fuel i pre c : ℕ) (b : List ℕ)
      → n < fuel + i
      → i ≤ n
      → pre ≤ i
      → c + (i - pre) + length (rest fuel i) ≤ length b
      → length b < 2 ^ 32
      → (pre' c' : ℕ) × (b' : List ℕ) × Done fuel i pre c b pre' c' b'
  copy_loop-Done zero i pre c b h l p room small = absurd (omega (arith, h, l))
  copy_loop-Done (suc fuel) i pre c b h l p room small = elim (Bool-cases (ltb (i + osl) n)) [
    | inl more ↦
        let less : i + osl < n = ground (arith, more) in
        elim (Bool-cases (hit key str n old osl i)) [
          | inl found ↦
              let (e, count) = rest-found fuel i more found in
              let held : c + (i - pre) + nsl ≤ length b = omega (arith, room, count) in
              let (text, len) =
                take-second key str n old osl ns nsl fits has some_old word new_has i pre c b less p
                  held in
              let (pre', c', b', d) =
                copy_loop-Done fuel (i + osl) (i + osl) (c + (i - pre) + nsl) (second b c i pre)
                  (omega (arith, h, some_old)) (omega (arith, less)) (omega arith)
                  (omega (arith, room, count, len)) (omega (arith, small, len)) in
              (pre', c', b', Done-found fuel i pre c b more found p held small d)
          | inr other ↦
              let (e, count) = rest-other fuel i more other in
              let (pre', c', b', d) =
                copy_loop-Done fuel (i + 1) pre c b (omega (arith, h)) (omega (arith, less))
                  (omega (arith, p)) (omega (arith, room, count, p)) small in
              (pre', c', b', Done-other fuel i pre c b more other p d)
        ]
    | inr over ↦ (pre, c, b, Done-end fuel i pre c b over p l)
  ]
