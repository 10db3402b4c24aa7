-- ===== src/Text/Occurrences.antt =====
-- What `find` and `rfind` of a text return.
use kl.Base.{
  ℕ, zero, suc, ◌+◌, ◌*◌, ◌^◌, ◌≤◌, ◌<◌, ◌≡◌, ◌↔◌, ◌∙◌, refl, ap, ap₂, Bool-cases, inl, inr, true,
  false, some, List, [], ◌∷◌, arith,
}
use kl.Base.{length, take, if◌then◌else◌, ◌==◌, ◌>>=◌, mul32, le→leb}
use native.Mathlib.Decide.{ℕ_discrete}
use kl.Util.{tolower}
use kl.Text.{UnicodeString, rawlen, npos}
use kl.Text.Inv.{IsValid, chars}
use kl.Text.Compare.{plain, icomparemem}
use kl.Text.Prefix.{is_prefix}
use kl.Text.Find.{same_memory, same_ignoring_case, find, ifind, rfind, rifind}
use kl.Text.Search.{First, Last}
use kl.Text.FindText.{IsTest, occurs, agree-is_prefix, find_text_by-First, rfind_text_by-Last}

-- `RtlCompareMemory` returns the count that it was given exactly where all those bytes agree.
abbrev pub IsCompareMemory : (List ℕ → List ℕ → ℕ → ℕ) → Type 0
IsCompareMemory compare_memory =
    (xs ys : List ℕ) (n : ℕ)
    → n ≤ length xs
    → n ≤ length ys
    → (compare_memory xs ys (2 * n) ≡ 2 * n) ↔ (take n xs ≡ take n ys)

prefix_of_same :
    (n : ℕ) (xs ys : List ℕ) → take n xs ≡ take n ys → is_prefix plain (take n ys) xs ≡ true
unfolding is_prefix
prefix_of_same zero xs ys e = refl
prefix_of_same (suc n) xs [] e = refl
prefix_of_same (suc n) [] (y ∷ ys) e = cc
prefix_of_same (suc n) (x ∷ xs) (y ∷ ys) e =
    let head : x ≡ y = cc in
    let tail : take n xs ≡ take n ys = cc in ground (arith, head, prefix_of_same n xs ys tail)

same_of_prefix :
    (n : ℕ) (xs ys : List ℕ)
    → n ≤ length ys
    → is_prefix plain (take n ys) xs ≡ true
    → take n xs ≡ take n ys
unfolding is_prefix
same_of_prefix zero xs ys h e = refl
same_of_prefix (suc n) xs [] h e = absurd (omega arith)
same_of_prefix (suc n) [] (y ∷ ys) h e = cc
same_of_prefix (suc n) (x ∷ xs) (y ∷ ys) h e = elim (ℕ_discrete x y) [
  | yes same ↦
      let tail : take n xs ≡ take n ys =
        same_of_prefix n xs ys (omega arith) (ground (arith, same, e)) in
      ap₂ ◌∷◌ same tail
  | no differ ↦ absurd (ground (arith, differ, e))
]

same_memory-IsTest :
    (cm : List ℕ → List ℕ → ℕ → ℕ) (n : ℕ)
    → IsCompareMemory cm
    → n < 2 ^ 31
    → IsTest plain (same_memory cm) n
unfolding same_memory
same_memory-IsTest cm n law small xs ys h k =
    rw (le→leb n (length xs) h, le→leb n (length ys) k)
      (elim (Bool-cases (is_prefix plain (take n ys) xs)) [
        | inl same ↦
            let all = (law xs ys n h k).1 (same_of_prefix n xs ys k same) in
            ground (arith, same, ap (cm xs ys) bytes ∙ all)
        | inr differ ↦ elim (ℕ_discrete (cm xs ys (2 * n)) (2 * n)) [
          | yes all ↦
              absurd (ground (arith, prefix_of_same n xs ys ((law xs ys n h k).0 all), differ))
          | no part ↦ ground (arith, differ, part, ap (cm xs ys) bytes)
        ]
      ])
  where
    bytes : mul32 2 n ≡ 2 * n
    bytes = omega arith

same_ignoring_case-IsTest : (n : ℕ) → IsTest tolower same_ignoring_case n
unfolding same_ignoring_case icomparemem
same_ignoring_case-IsTest n xs ys h k =
    let (r, run, same) = agree-is_prefix tolower n xs ys h k in rw (run, ◌>>=◌, same)

module _ (cm : List ℕ → List ℕ → ℕ → ℕ) (law : IsCompareMemory cm) (s : UnicodeString)
    (v : IsValid s) where
  module _ (ys : List ℕ) (count n : ℕ) (k : n ≤ length ys) (positive : 0 < n) (small : n < 2 ^ 31)
      (asked : 0 < count)
      (resolved : (if count == npos then rawlen ys else some count) ≡ some n) where
    -- `find` and `ifind` of a text, given by a count or ended by a 0, that has `n` characters return,
    -- without leaving the block, the first index from `pos` on where it occurs, or `npos` where there
    -- is none; `ifind` ignores the case.
    pub find-First :
        (pos : ℕ)
        → pos + n < 2 ^ 32
        → ((r : ℕ) × (find cm s ys count pos ≡ some r)
            × First (occurs plain (take n ys) (chars s)) pos r)
          × ((r : ℕ) × (ifind s ys count pos ≡ some r)
              × First (occurs tolower (take n ys) (chars s)) pos r)
    unfolding find ifind
    find-First pos word = (
      find_text_by-First plain (same_memory cm) n (same_memory-IsTest cm n law small) s v ys count k
          positive asked resolved pos word,
      find_text_by-First tolower same_ignoring_case n (same_ignoring_case-IsTest n) s v ys count k
          positive asked resolved pos word,
    )

    -- `rfind` and `rifind` of such a text return the last index from 1 on where it occurs, or `npos`
    -- where there is none; `rifind` ignores the case.
    pub rfind-Last :
        ((r : ℕ) × (rfind cm s ys count ≡ some r) × Last (occurs plain (take n ys) (chars s)) 1 r)
        × ((r : ℕ) × (rifind s ys count ≡ some r) × Last (occurs tolower (take n ys) (chars s)) 1 r)
    unfolding rfind rifind
    rfind-Last = (
      rfind_text_by-Last plain (same_memory cm) n (same_memory-IsTest cm n law small) s v ys count k
          positive asked resolved,
      rfind_text_by-Last tolower same_ignoring_case n (same_ignoring_case-IsTest n) s v ys count k
          positive asked resolved,
    )

    -- A text that occurs at the start of the string only is not found by `rfind`.
    pub rfind_skips_start :
        occurs plain (take n ys) (chars s) 0 ≡ true
        → ((j : ℕ) → 0 < j → occurs plain (take n ys) (chars s) j ≡ false)
        → rfind cm s ys count ≡ some npos
    rfind_skips_start here nowhere =
        let (r, run, found) = rfind-Last.0 in
        elim found [
          | inl (e, none_there) ↦ run ∙ ap some e
          | inr (le, hit, after) ↦ absurd (ground (arith, nowhere r (omega arith), hit))
        ]
