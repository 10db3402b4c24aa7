-- ===== src/Text/Rebuilt.antt =====
-- What `repalce` makes once it has counted: a block of the right size, and the text in it.
use native.Mathlib.Nat.{mul-add}
use mathlib.Core.List.{append-nil}
use kl.Base.{
  ℕ, ◌+◌, ◌-◌, ◌*◌, ◌/◌, ◌%◌, ◌^◌, ◌≤◌, ◌<◌, ◌≡◌, ◌⊎◌, ◌∙◌, refl, sym, ap, Bool-cases, inl, inr,
  true, false, Option, none, some, List, [], ◌++◌, arith,
}
use kl.Base.{
  ltb, leb, ◌==◌, ◌>>=◌, length, take, add32, sub32, mul32, u16, copied, copy_block-some,
  length-copied, eq-nil_of_length, take-copied_through,
}
use kl.Text.{UnicodeString, null_string, with_size, is_valid}
use kl.Text.Inv.{IsValid, chars, null_string-IsValid}
use kl.Text.Build.{IsPool}
use kl.Text.Substitute.{copy_loop, finish, build, build_with}
use kl.Text.Substituted.{by_count, part, substituted}
use kl.Text.Copying.{copy_loop-Done}

finish_mod : (n x l k : ℕ) → n + x ≡ l + k * 2 ^ 32 → l < 2 ^ 32 → (n + x % 2 ^ 32) % 2 ^ 32 ≡ l
finish_mod n x l k e small = omega (arith, e, small)

-- The size that is asked for, whose factor wraps when the new text is the shorter.
size-length :
    (n k osl nsl l : ℕ)
    → l + k * osl ≡ n + k * nsl
    → l < 2 ^ 32
    → osl < 2 ^ 32
    → nsl < 2 ^ 32
    → add32 n (mul32 k (sub32 nsl osl)) ≡ l
size-length n k osl nsl l sum small o s = elim (Bool-cases (leb osl nsl)) [
  | inl more ↦
      let le : osl ≤ nsl = ground (arith, more) in
      let d : sub32 nsl osl ≡ nsl - osl = omega (arith, le, s) in
      let split = mul-add k (nsl - osl) osl in
      let whole : nsl - osl + osl ≡ nsl = omega (arith, le) in
      let product : k * nsl ≡ k * (nsl - osl) + k * osl = ap (λ x. k * x) (sym whole) ∙ split in
      ap (λ x. add32 n (mul32 k x)) d
      ∙ finish_mod n (k * (nsl - osl)) l 0 (omega (arith, product, sum)) small
  | inr less ↦
      let lt : nsl < osl = ground (arith, less) in
      let d : sub32 nsl osl ≡ nsl + 2 ^ 32 - osl = omega (arith, lt, o) in
      let split = mul-add k (nsl + 2 ^ 32 - osl) osl in
      let wrapped = mul-add k nsl (2 ^ 32) in
      let whole : nsl + 2 ^ 32 - osl + osl ≡ nsl + 2 ^ 32 = omega (arith, o) in
      let product : k * nsl + k * 2 ^ 32 ≡ k * (nsl + 2 ^ 32 - osl) + k * osl =
        sym wrapped ∙ ap (λ x. k * x) (sym whole) ∙ split in
      ap (λ x. add32 n (mul32 k x)) d
      ∙ finish_mod n (k * (nsl + 2 ^ 32 - osl)) l k (omega (arith, product, sum)) small
]

module _ (key : ℕ → ℕ) (str : List ℕ) (n : ℕ) (old : List ℕ) (osl : ℕ) (ns : List ℕ) (nsl : ℕ)
    (fits : n ≤ length str) (has : osl ≤ length old) (some_old : 0 < osl) (word : n + osl < 2 ^ 32)
    (new_has : nsl ≤ length ns) (pool : ℕ → Option (List ℕ)) (law : IsPool pool) (fuel : ℕ)
    (enough : n < fuel) where
  abbrev text : List ℕ
  text = substituted key str n old osl (take nsl ns) fuel 0

  -- What a constructor with the length of the text makes: the text, or the null string.
  abbrev pub Result : UnicodeString → Type 0
  Result s = (chars s ≡ text) ⊎ (s ≡ null_string)

  -- The rest of the text is copied behind what the loop made.
  finish-chars :
      (b0 : List ℕ) (maximum pre c : ℕ) (b : List ℕ)
      → length b ≡ length text
      → length text < 2 ^ 15
      → pre ≤ n
      → c + (n - pre) ≡ length text
      → take c b ++ part key str n old osl pre (n - pre) ≡ text
      → maximum ≤ 2 * length text
      → (s : UnicodeString) × (finish
            (by_count key)
            str
            n
            old
            osl
            (record { buffer = some b0; length_bytes = 0; maximum_bytes = maximum })
            (pre, c, b)
          ≡ some s)
        × IsValid s
        × (chars s ≡ text)
  unfolding finish
  finish-chars b0 maximum pre c b len small inside total whole max = elim (Bool-cases (ltb pre n)) [
    | inl more ↦
        let b' = copied b c str pre (n - pre) in
        let gap : sub32 n pre ≡ n - pre = omega (arith, inside, word) in
        let room : c + (n - pre) ≤ length b = omega (arith, total, len) in
        let source : pre + (n - pre) ≤ length str = omega (arith, inside, fits) in
        let bytes = u16 (u16 (add32 c (n - pre)) * 2) in
        let twice : bytes ≡ 2 * length text = omega (arith, total, small) in
        let half : bytes / 2 ≡ c + (n - pre) = omega (arith, twice, total) in
        let held : length b' ≡ length text =
          length-copied b c str pre (n - pre) room source ∙ len in
        (
          record { buffer = some b'; length_bytes = bytes; maximum_bytes = maximum },
          rw (more, gap, copy_block-some b c str pre (n - pre) room source, ◌>>=◌) refl,
          record {
            even = omega (arith, twice);
            word = omega (arith, twice, small);
            held = (omega (arith, twice, held), omega (arith, max, held));
          },
          ap (λ m. take m b') half ∙ take-copied_through b c str pre (n - pre) room source ∙ whole,
        )
    | inr at_end ↦
        let bytes = u16 (u16 c * 2) in
        let over : n - pre ≡ 0 = ground (arith, at_end) in
        let twice : bytes ≡ 2 * length text = omega (arith, total, small, over) in
        let half : bytes / 2 ≡ c = omega (arith, twice, total, over) in
        let nothing : part key str n old osl pre (n - pre) ≡ [] =
          ap (part key str n old osl pre) over in
        (
          record { buffer = some b; length_bytes = bytes; maximum_bytes = maximum },
          rw at_end refl,
          record {
            even = omega (arith, twice);
            word = omega (arith, twice, small);
            held = (omega (arith, twice, len), omega (arith, max, len));
          },
          ap (λ m. take m b) half
              ∙ sym (append-nil (take c b))
              ∙ ap (λ u. take c b ++ u) (sym nothing)
              ∙ whole,
        )
  ]

  -- The text in a new block, or no block.
  filled :
      (b : List ℕ) (maximum : ℕ)
      → length b ≡ length text
      → length text < 2 ^ 15
      → maximum ≤ 2 * length text
      → (s : UnicodeString) × ((copy_loop (by_count key) str n old osl ns nsl fuel 0 0 0 b >>= λ r.
            finish
              (by_count key)
              str
              n
              old
              osl
              (record { buffer = some b; length_bytes = 0; maximum_bytes = maximum })
              r)
          ≡ some s)
        × IsValid s
        × (chars s ≡ text)
  filled b maximum len small max =
      let (pre, c, b', d) =
        copy_loop-Done key str n old osl ns nsl fits has some_old word new_has fuel 0 0 0 b
          (omega (arith, enough)) (omega arith) (omega arith) (omega (arith, len))
          (omega (arith, len, small)) in
      let (s, ran, valid, same) =
        finish-chars b maximum pre c b' (d.block ∙ len) small d.inside (omega (arith, d.total))
          d.text max in
      (s, rw (d.ran, ◌>>=◌) ran, valid, same)

  made : ℕ → Option UnicodeString
  made size = build_with (by_count key) str n old osl pool fuel ns nsl size

  made_empty : (m : ℕ) → (m == 0) ≡ true → made m ≡ some null_string
  unfolding made build_with with_size is_valid
  made_empty m e = rw e refl

  made-none : (m : ℕ) → (m == 0) ≡ false → pool m ≡ none → made m ≡ some null_string
  unfolding made build_with with_size is_valid
  made-none m more e = rw (more, e) refl

  made-some :
      (m : ℕ) (b : List ℕ)
      → (m == 0) ≡ false
      → pool m ≡ some b
      → made m ≡ (
          copy_loop (by_count key) str n old osl ns nsl fuel 0 0 0 b >>= λ r.
          finish
            (by_count key)
            str
            n
            old
            osl
            (record { buffer = some b; length_bytes = 0; maximum_bytes = u16 (m * 2) })
            r)
  unfolding made build_with with_size is_valid
  made-some m b more e = rw (more, e) refl

  abbrev Built : Type 0
  Built =
      (s : UnicodeString) × (made (length text) ≡ some s)
      × IsValid s
      × ((chars s ≡ text) ⊎ ((s ≡ null_string) × (pool (length text) ≡ none)))

  made-block :
      (got : Option (List ℕ))
      → (length text == 0) ≡ false
      → length text < 2 ^ 15
      → pool (length text) ≡ got
      → Built
  made-block none more small e =
      (null_string, made-none (length text) more e, null_string-IsValid, inr (refl, e))
  made-block (some b) more small e =
      let len = law (length text) b e in
      let (s, ran, valid, same) =
        filled b (u16 (length text * 2)) len small (omega (arith, small)) in
      (s, made-some (length text) b more e ∙ ran, valid, inl same)

  made-chars : length text < 2 ^ 15 → Built
  made-chars small = elim (Bool-cases (length text == 0)) [
    | inl empty ↦
        let nil : text ≡ [] = eq-nil_of_length text (ground (arith, empty)) in
        (null_string, made_empty (length text) empty, null_string-IsValid, inl (sym nil))
    | inr more ↦ made-block (pool (length text)) more small refl
  ]

  -- The call of `build` with the count of the first loop.
  pub build-chars :
      (count : ℕ)
      → length text + count * osl ≡ n + count * nsl
      → length text < 2 ^ 15
      → osl < 2 ^ 32
      → nsl < 2 ^ 32
      → (s : UnicodeString) × (build (by_count key) str n old osl pool fuel ns nsl count ≡ some s)
        × IsValid s
        × ((chars s ≡ text) ⊎ ((s ≡ null_string) × (pool (length text) ≡ none)))
  unfolding build made
  build-chars count sum small o w =
      let (s, ran, valid, outcome) = made-chars small in
      (
        s,
        ap made (size-length n count osl nsl (length text) sum (omega (arith, small)) o w) ∙ ran,
        valid,
        outcome,
      )
