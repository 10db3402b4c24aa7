-- ===== src/Text/FindChar.antt =====
-- `find` and `rfind` of a character.
use kl.Base.{
  ℕ, zero, suc, ◌+◌, ◌-◌, ◌≤◌, ◌<◌, ◌≡◌, ◌∙◌, refl, ap, sym, Bool, Bool-cases, inl, inr, false,
  none, some, List, [], ◌∷◌, arith,
}
use kl.Base.{
  ◌>>=◌, length, take, drop, get_elem?, ◌==◌, length-drop, take-drop, get_elem?-drop,
  get_elem?-take, get_elem?-none, get_elem?-some,
}
use native.Mathlib.Decide.{ℕ_discrete}
use kl.Util.{tolower}
use kl.Text.{UnicodeString, cells, char_count, npos}
use kl.Text.Inv.{char_count-eq, IsValid, chars, cells-chars, length-chars}
use kl.Text.Compare.{plain}
use kl.Text.Find.{
  find_char_loop, find_char_by, rfind_char_loop, rfind_char_by, find_char, ifind_char, rfind_char,
  rifind_char,
}
use kl.Text.Search.{First, First-here, First-next, Last}

module _ (key : ℕ → ℕ) (c : ℕ) where
  -- Whether the text has the character at an index.
  abbrev pub char_is : List ℕ → ℕ → Bool
  char_is xs j = elim (get_elem? xs j) [ none ↦ false | some x ↦ c == key x ]

  find_char_loop-First :
      (P : ℕ → Bool) (n pos : ℕ) (xs : List ℕ)
      → n ≤ length xs
      → ((k : ℕ) → P (pos + k) ≡ char_is (take n xs) k)
      → (r : ℕ) × (find_char_loop key c n pos xs ≡ some r) × First P pos r
  unfolding find_char_loop
  find_char_loop-First P zero pos xs h p = (npos, refl, inl (refl, nowhere))
    where
      nowhere : (j : ℕ) → pos ≤ j → P j ≡ false
      nowhere j le = let e : j ≡ pos + (j - pos) = omega arith in ap P e ∙ p (j - pos)
  find_char_loop-First P (suc n) pos [] h p = absurd (omega arith)
  find_char_loop-First P (suc n) pos (x ∷ xs) h p = elim (Bool-cases (c == key x)) [
    | inl hit ↦ (pos, rw (hit, find_char_loop), First-here P pos (here ∙ hit))
    | inr miss ↦
        let (r, run, found) =
          find_char_loop-First P n (pos + 1) xs (omega arith)
            (λ k. let e : pos + 1 + k ≡ pos + suc k = omega arith in ap P e ∙ p (suc k)) in
        (r, rw (miss, find_char_loop) run, First-next P pos r (here ∙ miss) found)
  ]
    where
      here : P pos ≡ (c == key x)
      here = let e : pos ≡ pos + 0 = omega arith in ap P e ∙ p 0

  -- The cells that the loops read are the characters.
  char_is-chars :
      (s : UnicodeString) (pos k : ℕ)
      → IsValid s
      → char_is (chars s) (pos + k) ≡ char_is (take (char_count s - pos) (drop pos (cells s))) k
  char_is-chars s pos k v =
      let (read, _, _, _) = cells-chars s v in
      let same : drop pos (chars s) ≡ take (char_count s - pos) (drop pos (cells s)) =
        ap (drop pos) (sym read) ∙ sym (take-drop pos (char_count s) (cells s)) in
      ap (λ o. elim o [ none ↦ false | some x ↦ c == key x ]) (sym (get_elem?-drop pos (chars s) k))
      ∙ ap (λ u. char_is u k) same

  find_char_by-First :
      (s : UnicodeString) (pos : ℕ)
      → IsValid s
      → (r : ℕ) × (find_char_by key s c pos ≡ some r) × First (char_is (chars s)) pos r
  unfolding find_char_by
  find_char_by-First s pos v =
      let (_, inside, _, _) = cells-chars s v in
      find_char_loop-First (char_is (chars s)) (char_count s - pos) pos (drop pos (cells s))
        (omega (arith, length-drop pos (cells s))) (λ k. char_is-chars s pos k v)

  rfind_char_loop-Last :
      (P : ℕ → Bool) (p : ℕ) (xs : List ℕ)
      → p ≤ length xs
      → ((j : ℕ) → j < p → P j ≡ char_is xs j)
      → ((j : ℕ) → p ≤ j → P j ≡ false)
      → (r : ℕ) × (rfind_char_loop key c p xs ≡ some r) × Last P 0 r
  unfolding rfind_char_loop
  rfind_char_loop-Last P zero xs h same above = (npos, refl, inl (refl, above))
  rfind_char_loop-Last P (suc p) xs h same above =
      let (x, read) = get_elem?-some xs p h in
      elim (Bool-cases (c == key x)) [
        | inl hit ↦
            (p, rw (read, ◌>>=◌, hit), inr (omega arith, here x read ∙ hit, λ j l. above j l))
        | inr miss ↦
            let (r, run, found) =
              rfind_char_loop-Last P p xs (omega arith) (λ j l. same j (omega arith))
                (λ j l. later (here x read ∙ miss) j l) in
            (r, rw (read, ◌>>=◌, miss) run, found)
      ]
    where
      here : (x : ℕ) → get_elem? xs p ≡ some x → P p ≡ (c == key x)
      here x e = same p (omega arith) ∙ rw (e, char_is)

      later : P p ≡ false → (j : ℕ) → p ≤ j → P j ≡ false
      later miss j l = elim (ℕ_discrete p j) [
        | yes e ↦ rw (← e) miss
        | no ne ↦ above j (omega arith)
      ]

  rfind_char_by-Last :
      (s : UnicodeString)
      → IsValid s
      → (r : ℕ) × (rfind_char_by key s c ≡ some r) × Last (char_is (chars s)) 0 r
  unfolding rfind_char_by
  rfind_char_by-Last s v =
      let (_, inside, _, _) = cells-chars s v in
      rfind_char_loop-Last (char_is (chars s)) (char_count s) (cells s) inside (λ j l. inner j l)
        (λ j l. outer j l)
    where
      inner : (j : ℕ) → j < char_count s → char_is (chars s) j ≡ char_is (cells s) j
      inner j l =
          let (read, _, _, _) = cells-chars s v in
          ap (λ u. char_is u j) (sym read)
          ∙ ap (λ o. elim o [ none ↦ false | some x ↦ c == key x ])
              (get_elem?-take (char_count s) (cells s) j l)

      outer : (j : ℕ) → char_count s ≤ j → char_is (chars s) j ≡ false
      outer j l =
          rw (
            get_elem?-none (chars s) j (omega (arith, length-chars s v, char_count-eq s v)),
            char_is,
          )

module _ (s : UnicodeString) (c : ℕ) (v : IsValid s) where
  -- `find` and `ifind` of a character in a valid string return, without leaving the block, the first index from `pos`
  -- on where the string has it, or `npos` where there is none; `ifind` ignores the case.
  pub find_char-First :
      (pos : ℕ)
      → ((r : ℕ) × (find_char s c pos ≡ some r) × First (char_is plain c (chars s)) pos r)
        × ((r : ℕ) × (ifind_char s c pos ≡ some r)
            × First (char_is tolower (tolower c) (chars s)) pos r)
  unfolding find_char ifind_char
  find_char-First pos =
      (find_char_by-First plain c s pos v, find_char_by-First tolower (tolower c) s pos v)

  -- `rfind` and `rifind` of a character in a valid string return, without leaving the block, the last index where the string has it, or `npos`
  -- where there is none; `rifind` ignores the case.
  pub rfind_char-Last :
      ((r : ℕ) × (rfind_char s c ≡ some r) × Last (char_is plain c (chars s)) 0 r)
      × ((r : ℕ) × (rifind_char s c ≡ some r) × Last (char_is tolower (tolower c) (chars s)) 0 r)
  unfolding rfind_char rifind_char
  rfind_char-Last = (rfind_char_by-Last plain c s v, rfind_char_by-Last tolower (tolower c) s v)
