-- ===== src/Text/FindText.antt =====
-- `find` and `rfind` of a text.
use kl.Base.{
  ℕ, zero, suc, ◌+◌, ◌-◌, ◌^◌, ◌≤◌, ◌<◌, ◌≡◌, ◌∙◌, refl, ap, sym, Bool, Bool-cases, inl, inr, false,
  Option, some, List, [], ◌∷◌, arith,
}
use kl.Base.{
  length, take, drop, if◌then◌else◌, ltb, leb, ◌==◌, ◌>>=◌, add32, ltb→lt, ltb→le, leb→le, leb→lt,
  length-take, length-drop, drop-take,
}
use native.Mathlib.Decide.{ℕ_discrete}
use kl.Text.{UnicodeString, cells, char_count, rawlen, npos}
use kl.Text.Inv.{IsValid, chars, cells-chars, length-chars, char_count-eq}
use kl.Text.Compare.{agree}
use kl.Text.Prefix.{is_prefix, is_prefix-take}
use kl.Text.Find.{find_text_loop, find_text_by, rfind_text_loop, rfind_text_by}
use kl.Text.Search.{First, First-here, First-next, Last}

-- `same` tells of two blocks whether their first `n` cells agree by `key`.
abbrev pub IsTest : (ℕ → ℕ) → (List ℕ → List ℕ → ℕ → Option Bool) → ℕ → Type 0
IsTest key same n =
    (xs ys : List ℕ)
    → n ≤ length xs
    → n ≤ length ys
    → same xs ys n ≡ some (is_prefix key (take n ys) xs)

-- Whether a text occurs at an index of another.
abbrev pub occurs : (ℕ → ℕ) → List ℕ → List ℕ → ℕ → Bool
occurs key text xs j = is_prefix key text (drop j xs)

module _ (key : ℕ → ℕ) where
  pub agree-is_prefix :
      (n : ℕ) (xs ys : List ℕ)
      → n ≤ length xs
      → n ≤ length ys
      → (r : ℕ) × (agree key n xs ys ≡ some r) × ((r == n) ≡ is_prefix key (take n ys) xs)
  unfolding agree is_prefix
  agree-is_prefix zero xs ys h k = (0, refl, refl)
  agree-is_prefix (suc n) [] ys h k = absurd (omega arith)
  agree-is_prefix (suc n) (x ∷ xs) [] h k = absurd (omega arith)
  agree-is_prefix (suc n) (x ∷ xs) (y ∷ ys) h k =
      let (r, run, same) = agree-is_prefix n xs ys (omega arith) (omega arith) in
      elim (Bool-cases (key x == key y)) [
        | inl e ↦ (r + 1, ground (arith, e, run), ground (arith, e, same))
        | inr e ↦ (0, ground (arith, e), ground (arith, e))
      ]

  is_prefix-longer : (ys xs : List ℕ) → length xs < length ys → is_prefix key ys xs ≡ false
  unfolding is_prefix
  is_prefix-longer [] xs h = absurd (omega arith)
  is_prefix-longer (y ∷ ys) [] h = refl
  is_prefix-longer (y ∷ ys) (x ∷ xs) h = ground (arith, is_prefix-longer ys xs)

  module _ (same : List ℕ → List ℕ → ℕ → Option Bool) (n : ℕ) (law : IsTest key same n) where
    module _ (ys : List ℕ) (P : ℕ → Bool) (m : ℕ) (xs : List ℕ) where
      find_text_loop-First :
          (fuel pos : ℕ)
          → m < 2 ^ 16
          → pos + n < 2 ^ 32
          → m < fuel + pos
          → 0 < fuel
          → m ≤ length xs
          → n ≤ length ys
          → ((j : ℕ) → j + n ≤ m → P j ≡ occurs key (take n ys) xs j)
          → ((j : ℕ) → m < j + n → P j ≡ false)
          → 0 < n
          → (r : ℕ) × (find_text_loop same ys n m fuel pos xs ≡ some r) × First P pos r
      unfolding find_text_loop
      find_text_loop-First zero pos small word enough some_fuel h k inside outside pos_n =
          absurd (omega arith)
      find_text_loop-First (suc fuel) pos small word enough some_fuel h k inside outside pos_n =
          elim (Bool-cases (leb (add32 pos n) m)) [
            | inl fits ↦
                let le : pos + n ≤ m = omega (arith, leb→le (add32 pos n) m fits) in
                elim (Bool-cases (P pos)) [
                  | inl hit ↦
                      (pos, rw (fits, find_text_loop, test le, ◌>>=◌, hit), First-here P pos hit)
                  | inr miss ↦
                      let (r, run, found) =
                        find_text_loop-First fuel (pos + 1) small (omega arith) (omega arith)
                          (omega arith) h k inside outside pos_n in
                      (
                        r,
                        rw (fits, find_text_loop, test le, ◌>>=◌, miss) (next le run),
                        First-next P pos r miss found,
                      )
                ]
            | inr over ↦
                let gt : m < pos + n = omega (arith, leb→lt (add32 pos n) m over) in
                (npos, rw (over, find_text_loop), inl (refl, λ j l. outside j (omega arith)))
          ]
        where
          test : pos + n ≤ m → same (drop pos xs) ys n ≡ some (P pos)
          test le =
              law (drop pos xs) ys (omega (arith, length-drop pos xs)) k
              ∙ ap some (sym (inside pos le))

          next :
              pos + n ≤ m
              → {r : ℕ} → find_text_loop same ys n m fuel (pos + 1) xs ≡ some r
              → find_text_loop same ys n m fuel (add32 pos 1) xs ≡ some r
          next le run =
              let e : add32 pos 1 ≡ pos + 1 = omega arith in
              ap (λ q. find_text_loop same ys n m fuel q xs) e ∙ run

      rfind_text_loop-Last :
          (p : ℕ)
          → p + n ≤ length xs
          → n ≤ length ys
          → ((j : ℕ) → j ≤ p → P j ≡ occurs key (take n ys) xs j)
          → ((j : ℕ) → p < j → P j ≡ false)
          → (r : ℕ) × (rfind_text_loop same ys n p xs ≡ some r) × Last P 1 r
      unfolding rfind_text_loop
      rfind_text_loop-Last zero h k inside outside = (npos, refl, inl (refl, λ j l. outside j l))
      rfind_text_loop-Last (suc p) h k inside outside = elim (Bool-cases (P (suc p))) [
        | inl hit ↦ (suc p, rw (test, ◌>>=◌, hit), inr (omega arith, hit, λ j l. outside j l))
        | inr miss ↦
            let (r, run, found) =
              rfind_text_loop-Last p (omega arith) k (λ j l. inside j (omega arith))
                (λ j l. later miss j l) in
            (r, rw (test, ◌>>=◌, miss) run, found)
      ]
        where
          test : same (drop (suc p) xs) ys n ≡ some (P (suc p))
          test =
              law (drop (suc p) xs) ys (omega (arith, length-drop (suc p) xs)) k
              ∙ ap some (sym (inside (suc p) (omega arith)))

          later : P (suc p) ≡ false → (j : ℕ) → p < j → P j ≡ false
          later miss j l = elim (ℕ_discrete (suc p) j) [
            | yes e ↦ rw (← e) miss
            | no ne ↦ outside j (omega arith)
          ]

    -- Where the text can occur in the characters, and where it cannot.
    module _ (s : UnicodeString) (v : IsValid s) (ys : List ℕ) (k : n ≤ length ys) where
      inside_chars :
          (j : ℕ)
          → j + n ≤ char_count s
          → occurs key (take n ys) (chars s) j ≡ occurs key (take n ys) (cells s) j
      inside_chars j h =
          let (read, _, _, _) = cells-chars s v in
          let split : char_count s ≡ j + (char_count s - j) = omega arith in
          ap (λ u. is_prefix key (take n ys) (drop j u)) (sym read)
          ∙ ap (λ q. is_prefix key (take n ys) (drop j (take q (cells s)))) split
          ∙ ap (is_prefix key (take n ys)) (drop-take j (char_count s - j) (cells s))
          ∙ is_prefix-take key (char_count s - j) (take n ys) (drop j (cells s))
              (omega (arith, length-take n ys))

      outside_chars :
          (j : ℕ) → 0 < n → char_count s < j + n → occurs key (take n ys) (chars s) j ≡ false
      outside_chars j pos h = is_prefix-longer (take n ys) (drop j (chars s)) (
          omega
            (arith, length-take n ys, length-drop j (chars s), length-chars s v, char_count-eq s v))

    -- A count, or `npos` for a text that a 0 ends, which comes to `n` characters.
    module _ (s : UnicodeString) (v : IsValid s) (ys : List ℕ) (count : ℕ) (k : n ≤ length ys)
        (pos_n : 0 < n) where
      module _ (asked : 0 < count)
          (resolved : (if count == npos then rawlen ys else some count) ≡ some n) where
        pub find_text_by-First :
            (pos : ℕ)
            → pos + n < 2 ^ 32
            → (r : ℕ) × (find_text_by same s ys count pos ≡ some r)
              × First (occurs key (take n ys) (chars s)) pos r
        unfolding find_text_by
        find_text_by-First pos word =
            let (_, inside, _, _) = cells-chars s v in
            let (r, run, found) =
              find_text_loop-First ys (occurs key (take n ys) (chars s)) (char_count s) (cells s)
                (char_count s + 1) pos (omega (arith, v.word, char_count-eq s v)) word (omega arith)
                (omega arith) inside k (λ j h. inside_chars s v ys k j h)
                (λ j h. outside_chars s v ys k j pos_n h) pos_n in
            (r, rw (not_zero, resolved, ◌>>=◌) run, found)
          where
            not_zero : (count == 0) ≡ false
            not_zero = ground arith

        pub rfind_text_by-Last :
            (r : ℕ) × (rfind_text_by same s ys count ≡ some r)
            × Last (occurs key (take n ys) (chars s)) 1 r
        unfolding rfind_text_by
        rfind_text_by-Last = elim (Bool-cases (ltb (char_count s) n)) [
          | inl long ↦
              let gt = ltb→lt (char_count s) n long in
              (
                npos,
                rw (resolved, ◌>>=◌, long),
                inl (refl, λ j h. outside_chars s v ys k j pos_n (omega arith)),
              )
          | inr fits ↦
              let le = ltb→le (char_count s) n fits in
              let (_, inside, _, _) = cells-chars s v in
              let (r, run, found) =
                rfind_text_loop-Last ys (occurs key (take n ys) (chars s)) 0 (cells s)
                  (char_count s - n) (omega arith) k (λ j h. inside_chars s v ys k j (omega arith))
                  (λ j h. outside_chars s v ys k j pos_n (omega arith)) in
              (r, rw (resolved, ◌>>=◌, fits) run, found)
        ]
