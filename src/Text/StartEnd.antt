-- ===== src/Text/StartEnd.antt =====
-- What `startwith`, `endwith` and their variants answer about two strings.
use mathlib.Core.List.{map, map-append, append-nil}
use kl.Base.{
  ℕ, ◌+◌, ◌-◌, ◌/◌, ◌≤◌, ◌≡◌, ◌↔◌, ◌≢◌, ◌∙◌, refl, ap, sym, Bool, Bool-cases, inl, inr, true, false,
  Option, none, some, List, [], ◌∷◌, ◌++◌, arith,
}
use kl.Base.{
  length, take, drop, if◌then◌else◌, ltb, ltb→le, take-append-drop, length-take, length-drop,
  length-append, eq-nil_of_length, drop-append_exact, drop-take, length-map, drop-map,
}
use kl.Util.{tolower}
use kl.Text.{UnicodeString, cells, npos}
use kl.Text.Inv.{IsValid, Held, chars, chars_of, cells-chars}
use kl.Text.Build.{NoNul}
use kl.Text.Compare.{plain}
use kl.Text.Affix.{
  prefix_loop, startwith_by, member_startwith_by, startwith, istartwith, startwith_raw,
  istartwith_raw, endwith_by, endwith, iendwith,
}
use kl.Text.Prefix.{
  is_prefix, is_prefix_iff, startwith_by-is_prefix, member_loop-is_prefix, prefix_loop-is_prefix,
  is_prefix-take,
}

-- `xs` begins, or ends, with `ys`, where `key` makes characters equal.
abbrev pub StartsWith : (ℕ → ℕ) → List ℕ → List ℕ → Type 0
StartsWith key xs ys = (rest : List ℕ) × (map key xs ≡ map key ys ++ rest)

abbrev pub EndsWith : (ℕ → ℕ) → List ℕ → List ℕ → Type 0
EndsWith key xs ys = (front : List ℕ) × (map key xs ≡ front ++ map key ys)

-- A call that returns, and returns `true` exactly if `P` holds.
abbrev pub Decides : Option Bool → Type 0 → Type 0
Decides run P = (b : Bool) × (run ≡ some b) × ((b ≡ true) ↔ P)

module _ (s t : UnicodeString) (v : IsValid s) (w : IsValid t) (a : s.buffer ≢ none)
    (b : t.buffer ≢ none) where
  -- `startwith` and `istartwith` of two valid strings that have a block decide whether the first begins
  -- with the second, by the characters or by their lower case.
  pub startwith_iff :
      Decides (startwith s t) (StartsWith plain (chars s) (chars t))
      × Decides (istartwith s t) (StartsWith tolower (chars s) (chars t))
  unfolding startwith istartwith
  startwith_iff = (decide plain, decide tolower)
    where
      decide :
          (key : ℕ → ℕ)
          → Decides
              (startwith_by key s.buffer (s.length_bytes / 2) t.buffer (t.length_bytes / 2))
              (StartsWith key (chars s) (chars t))
      decide key = (
        is_prefix key (chars t) (chars s),
        startwith_by-is_prefix key s.buffer t.buffer s.length_bytes s.maximum_bytes t.length_bytes
            t.maximum_bytes v.held w.held a b,
        is_prefix_iff key (chars t) (chars s),
      )

-- The members `startwith` and `istartwith`, for a text of at most `npos` characters that a 0 ends and
-- no count, decide whether a valid string begins with the text, by the characters or by their lower
-- case.
pub startwith_raw_iff :
    (s : UnicodeString) (text rest : List ℕ)
    → IsValid s
    → NoNul text
    → length text ≤ npos
    → Decides (startwith_raw s (some (text ++ (0 ∷ rest))) npos) (StartsWith plain (chars s) text)
      × Decides
          (istartwith_raw s (some (text ++ (0 ∷ rest))) npos)
          (StartsWith tolower (chars s) text)
unfolding startwith_raw istartwith_raw
startwith_raw_iff s text rest v clean small = (decide plain, decide tolower)
  where
    decide :
        (key : ℕ → ℕ)
        → Decides
            (member_startwith_by key s (some (text ++ (0 ∷ rest))) npos)
            (StartsWith key (chars s) text)
    decide key =
        let (_, _, read, inside) = cells-chars s v in
        (
          is_prefix key text (chars s),
          member_loop-is_prefix key npos (s.length_bytes / 2) (cells s) text rest inside small clean
              ∙ ap (λ u. some (is_prefix key text u)) read,
          is_prefix_iff key text (chars s),
        )

module _ (key : ℕ → ℕ) where
  is_suffix : List ℕ → List ℕ → Bool
  is_suffix ys xs =
      if ltb (length xs) (length ys)
      then false
      else is_prefix key ys (drop (length xs - length ys) xs)

  is_suffix_sound : (ys xs : List ℕ) → is_suffix ys xs ≡ true → EndsWith key xs ys
  unfolding is_suffix
  is_suffix_sound ys xs h = elim (Bool-cases (ltb (length xs) (length ys))) [
    | inl long ↦ absurd (ground (arith, h, long))
    | inr fits ↦
        let d = length xs - length ys in
        let (rest, e) = (is_prefix_iff key ys (drop d xs)).0 (ground (arith, h, fits)) in
        let none_left : rest ≡ [] = eq-nil_of_length rest (
          omega (
            arith,
            ap length e,
            length-append (map key ys) rest,
            length-map key ys,
            length-map key (drop d xs),
            length-drop d xs,
            ltb→le (length xs) (length ys) fits,
          )) in
        (
          map key (take d xs),
          ap (map key) (sym (take-append-drop d xs))
              ∙ map-append key (take d xs) (drop d xs)
              ∙ ap (λ u. map key (take d xs) ++ u)
                  (e ∙ ap (λ r. map key ys ++ r) none_left ∙ append-nil (map key ys)),
        )
  ]

  is_suffix_complete : (ys xs : List ℕ) → EndsWith key xs ys → is_suffix ys xs ≡ true
  unfolding is_suffix
  is_suffix_complete ys xs (front, e) = ground (arith, lengths, prefix)
    where
      lengths : length xs ≡ length front + length ys
      lengths = omega (
        arith,
        ap length e,
        length-append front (map key ys),
        length-map key xs,
        length-map key ys,
      )

      prefix : is_prefix key ys (drop (length xs - length ys) xs) ≡ true
      prefix = (is_prefix_iff key ys (drop (length xs - length ys) xs)).1 (
        [],
        sym (drop-map key (length xs - length ys) xs)
            ∙ ap (drop (length xs - length ys)) e
            ∙ drop-append_exact (length xs - length ys) front (map key ys) (omega (arith, lengths))
            ∙ sym (append-nil (map key ys)),
      )

  endwith_by-is_suffix :
      (o p : Option (List ℕ)) (l m k r : ℕ)
      → Held o l m
      → Held p k r
      → o ≢ none
      → p ≢ none
      → endwith_by key o (l / 2) p (k / 2) ≡ some (is_suffix (chars_of p k) (chars_of o l))
  unfolding endwith_by is_suffix
  endwith_by-is_suffix none p l m k r h w a b = absurd (a refl)
  endwith_by-is_suffix (some xs) none l m k r h w a b = absurd (b refl)
  endwith_by-is_suffix (some xs) (some ys) l m k r h w a b =
      rw (lengths.0, lengths.1)
        (elim (Bool-cases (ltb (l / 2) (k / 2))) [
          | inl long ↦ rw long
          | inr fits ↦
              rw (fits, loop (ltb→le (l / 2) (k / 2) fits))
                (ap some (same (ltb→le (l / 2) (k / 2) fits)))
        ])
    where
      lengths : (length (take (l / 2) xs) ≡ l / 2) × (length (take (k / 2) ys) ≡ k / 2)
      lengths = omega (arith, length-take (k / 2) ys, length-take (l / 2) xs)

      loop :
          k / 2 ≤ l / 2
          → prefix_loop key (k / 2) (drop (l / 2 - k / 2) xs) ys
            ≡ some (is_prefix key (take (k / 2) ys) (drop (l / 2 - k / 2) xs))
      loop e =
          prefix_loop-is_prefix key (k / 2) (drop (l / 2 - k / 2) xs) ys
            (omega (arith, length-drop (l / 2 - k / 2) xs)) (omega arith)

      same :
          k / 2 ≤ l / 2
          → is_prefix key (take (k / 2) ys) (drop (l / 2 - k / 2) xs)
            ≡ is_prefix key (take (k / 2) ys) (drop (l / 2 - k / 2) (take (l / 2) xs))
      same e =
          let split : l / 2 ≡ l / 2 - k / 2 + k / 2 = omega arith in
          sym (
            ap (λ n. is_prefix key (take (k / 2) ys) (drop (l / 2 - k / 2) (take n xs))) split
            ∙ ap (is_prefix key (take (k / 2) ys)) (drop-take (l / 2 - k / 2) (k / 2) xs)
            ∙ is_prefix-take key (k / 2) (take (k / 2) ys) (drop (l / 2 - k / 2) xs)
                (omega (arith, lengths.1)))

module _ (s t : UnicodeString) (v : IsValid s) (w : IsValid t) (a : s.buffer ≢ none)
    (b : t.buffer ≢ none) where
  -- `endwith` and `iendwith` of two valid strings that have a block decide whether the first ends with the
  -- second, by the characters or by their lower case.
  pub endwith_iff :
      Decides (endwith s t) (EndsWith plain (chars s) (chars t))
      × Decides (iendwith s t) (EndsWith tolower (chars s) (chars t))
  unfolding endwith iendwith
  endwith_iff = (decide plain, decide tolower)
    where
      decide :
          (key : ℕ → ℕ)
          → Decides
              (endwith_by key s.buffer (s.length_bytes / 2) t.buffer (t.length_bytes / 2))
              (EndsWith key (chars s) (chars t))
      decide key = (
        is_suffix key (chars t) (chars s),
        endwith_by-is_suffix key s.buffer t.buffer s.length_bytes s.maximum_bytes t.length_bytes
            t.maximum_bytes v.held w.held a b,
        (is_suffix_sound key (chars t) (chars s), is_suffix_complete key (chars t) (chars s)),
      )
