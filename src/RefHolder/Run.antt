-- ===== src/RefHolder/Run.antt =====
-- Holders under any sequence of copies, moves, assignments and destructions.
use kl.Base.{
  ℕ, ◌+◌, ◌<◌, ◌≤◌, ◌^◌, ◌≡◌, ◌∙◌, refl, Bool-cases, inl, inr, Option, some, List, [], ◌∷◌, ◌++◌,
  length, length-append, get_or, arith, ◌==◌, ◌>>=◌,
}
use kl.RefHolder.{Counted, construct_copy, construct_move, assign, assign_move, destroy}
use kl.RefHolder.Counts.{Counts, Counts-same, retain_if-Counts, release_if-Counts}
use kl.RefHolder.Owners.{
  occurrences, set, length-set, get_or-set_other, occurrences-append, occurrences-le-length,
  occurrences-set, occurrences_pos, set_same,
}

-- What a program does with its holders, each named by its place in the list of them.
pub data Action : Type 0 where
  copy : ℕ → Action
  move : ℕ → Action
  assign_copy : ℕ → ℕ → Action
  assign_moved : ℕ → ℕ → Action
  leave : ℕ → Action

-- The objects, and the `_ptr` of each holder. One that is gone counts as empty.
pub record Program : Type 0 where
  pub objects : Counted
  pub holders : List ℕ

pub step : Action → Program → Option Program
step (copy i) s = construct_copy (get_or s.holders i 0) s.objects >>= λ r.
    some (record { objects = r.1; holders = s.holders ++ (r.0 ∷ []) })
step (move i) s =
    let (new, old) = construct_move (get_or s.holders i 0) in
    some (record s { holders = set s.holders i old ++ (new ∷ []) })
step (assign_copy i j) s =
    assign (i == j) (get_or s.holders i 0) (get_or s.holders j 0) s.objects >>= λ r.
    some (record { objects = r.1; holders = set s.holders i r.0 })
step (assign_moved i j) s =
    assign_move (i == j) (get_or s.holders i 0) (get_or s.holders j 0) s.objects >>= λ r.
    some (record { objects = r.2; holders = set (set s.holders j r.1) i r.0 })
step (leave i) s = destroy (get_or s.holders i 0) s.objects >>= λ objects.
    some (record { objects = objects; holders = set s.holders i 0 })

pub run : List Action → Program → Option Program
run [] s = some s
run (a ∷ rest) s = step a s >>= λ s'. run rest s'

-- Each action names holders that there are.
abbrev pub Names : ℕ → Action → Type 0
Names n (copy i) = i < n
Names n (move i) = i < n
Names n (assign_copy i j) = (i < n) × (j < n)
Names n (assign_moved i j) = (i < n) × (j < n)
Names n (leave i) = i < n

abbrev pub grown : Action → ℕ → ℕ
grown (copy i) n = n + 1
grown (move i) n = n + 1
grown a n = n

abbrev pub AllName : ℕ → List Action → Type 0
AllName n [] = Unit {0}
AllName n (a ∷ rest) = Names n a × AllName (grown a n) rest

-- An object is there exactly while a holder has its address, and its count is the number of those.
abbrev pub Owned : Program → Type 0
Owned s = Counts s.objects (occurrences s.holders)

-- One action.
abbrev Stepped : Action → Program → Type 0
Stepped a s =
    (s' : Program) × (step a s ≡ some s')
    × Owned s'
    × (length s'.holders ≡ grown a (length s.holders))

module _ (s : Program) (h : Owned s) where
  copy-Owned : (i : ℕ) → i < length s.holders → length s.holders + 1 < 2 ^ 31 → Stepped (copy i) s
  unfolding step construct_copy
  copy-Owned i k small =
      let x = get_or s.holders i 0 in
      let (c, e, counts) = retain_if-Counts s.objects (occurrences s.holders) x h (λ n.
        (occurrences_pos s.holders i k, omega (arith, occurrences-le-length s.holders x, small))) in
      (
        record { objects = c; holders = s.holders ++ (x ∷ []) },
        rw (e, ◌>>=◌) refl,
        Counts-same c _ _ (λ p n. occurrences-append s.holders (x ∷ []) p ∙ omega arith) counts,
        length-append s.holders (x ∷ []) ∙ omega arith,
      )

  move-Owned : (i : ℕ) → i < length s.holders → length s.holders + 1 < 2 ^ 31 → Stepped (move i) s
  unfolding step construct_move
  move-Owned i k small =
      let x = get_or s.holders i 0 in
      (
        record s { holders = set s.holders i 0 ++ (x ∷ []) },
        refl,
        Counts-same s.objects _ _
            (λ p n. ground (
              arith,
              occurrences-append (set s.holders i 0) (x ∷ []) p,
              occurrences-set s.holders i 0 p k,
            ))
            h,
        omega (arith, length-append (set s.holders i 0) (x ∷ []), length-set s.holders i 0),
      )

  leave-Owned : (i : ℕ) → i < length s.holders → Stepped (leave i) s
  unfolding step destroy
  leave-Owned i k =
      let x = get_or s.holders i 0 in
      let (c, e, counts) =
        release_if-Counts s.objects (occurrences (set s.holders i 0)) x (
          Counts-same s.objects _ _ (λ p n. ground (arith, occurrences-set s.holders i 0 p k)) h) in
      (
        record { objects = c; holders = set s.holders i 0 },
        rw (e, ◌>>=◌) refl,
        counts,
        length-set s.holders i 0,
      )

  assign_copy-Owned :
      (i j : ℕ)
      → i < length s.holders
      → j < length s.holders
      → length s.holders + 1 < 2 ^ 31
      → Stepped (assign_copy i j) s
  unfolding step assign
  assign_copy-Owned i j k l small =
      let x = get_or s.holders i 0 in
      let y = get_or s.holders j 0 in
      elim (Bool-cases (i == j)) [
        | inl same ↦ (
          record s { holders = set s.holders i x },
          rw (same, ◌>>=◌) refl,
          Counts-same s.objects _ _ (λ p n. ground (arith, occurrences-set s.holders i x p k)) h,
          length-set s.holders i x,
        )
        | inr other ↦
            let m = occurrences (set s.holders i 0) in
            let (c, e, counts) = release_if-Counts s.objects m x (
              Counts-same s.objects _ _ (λ p n. ground (arith, occurrences-set s.holders i 0 p k))
                h) in
            let there : get_or (set s.holders i 0) j 0 ≡ y =
              get_or-set_other s.holders i j 0 0 (ground arith) in
            let kept : 0 < m y =
              rw (← there)
                (occurrences_pos (set s.holders i 0) j (omega (arith, length-set s.holders i 0))) in
            let (c', e', counts') = retain_if-Counts c m y counts (λ n. (
              kept,
              omega (
                arith,
                occurrences-le-length (set s.holders i 0) y,
                length-set s.holders i 0,
                small,
              ),
            )) in
            (
              record { objects = c'; holders = set s.holders i y },
              rw (other, e, ◌>>=◌, e', ◌>>=◌) refl,
              Counts-same c' _ _
                  (λ p n.
                    ground
                      (arith, occurrences-set s.holders i y p k, occurrences-set s.holders i 0 p k))
                  counts',
              length-set s.holders i y,
            )
      ]

  assign_moved-Owned :
      (i j : ℕ) → i < length s.holders → j < length s.holders → Stepped (assign_moved i j) s
  unfolding step assign_move
  assign_moved-Owned i j k l =
      let x = get_or s.holders i 0 in
      let y = get_or s.holders j 0 in
      elim (Bool-cases (i == j)) [
        | inl same ↦ (s, rw (same, ◌>>=◌, set_same s.holders j, set_same s.holders i) refl, h, refl)
        | inr other ↦
            let hs = set (set s.holders j 0) i y in
            let there : get_or (set s.holders j 0) i 0 ≡ x =
              get_or-set_other s.holders j i 0 0 (λ e. ground (arith, e)) in
            let within : i < length (set s.holders j 0) = omega (arith, length-set s.holders j 0) in
            let (c, e, counts) = release_if-Counts s.objects (occurrences hs) x (
              Counts-same s.objects _ _
                (λ p n. ground (
                  arith,
                  there,
                  occurrences-set s.holders j 0 p l,
                  occurrences-set (set s.holders j 0) i y p within,
                ))
                h) in
            (
              record { objects = c; holders = hs },
              rw (other, e, ◌>>=◌) refl,
              counts,
              length-set (set s.holders j 0) i y ∙ length-set s.holders j 0,
            )
      ]

  step-Owned :
      (a : Action) → Names (length s.holders) a → length s.holders + 1 < 2 ^ 31 → Stepped a s
  step-Owned (copy i) k small = copy-Owned i k small
  step-Owned (move i) k small = move-Owned i k small
  step-Owned (assign_copy i j) k small = assign_copy-Owned i j k.0 k.1 small
  step-Owned (assign_moved i j) k small = assign_moved-Owned i j k.0 k.1
  step-Owned (leave i) k small = leave-Owned i k

grown_le : (a : Action) (n : ℕ) → grown a n ≤ n + 1
grown_le (copy i) n = omega arith
grown_le (move i) n = omega arith
grown_le (assign_copy i j) n = omega arith
grown_le (assign_moved i j) n = omega arith
grown_le (leave i) n = omega arith

-- Whatever is done with holders, each named by its place among those there are, and fewer than 2 ^
-- 31 of them altogether, from a state in which each object is there exactly while a holder has its
-- address, with their number as its count: no object is used after it is deleted, and that still
-- holds.
pub run-Owned :
    (actions : List Action) (s : Program)
    → Owned s
    → AllName (length s.holders) actions
    → length s.holders + length actions < 2 ^ 31
    → (s' : Program) × (run actions s ≡ some s') × Owned s'
unfolding run
run-Owned [] s h names small = (s, refl, h)
run-Owned (a ∷ rest) s h names small =
    let (s1, e, owned, size) = step-Owned s h a names.0 (omega (arith, small)) in
    let (s', done, last) =
      run-Owned rest s1 owned (rw size names.1)
        (omega (arith, size, grown_le a (length s.holders), small)) in
    (s', rw (e, ◌>>=◌) done, last)
