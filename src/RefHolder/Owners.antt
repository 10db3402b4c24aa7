-- ===== src/RefHolder/Owners.antt =====
-- How often each address stands in a list of pointers.
use kl.Base.{
  ℕ, zero, suc, ◌+◌, ◌<◌, ◌≤◌, ◌≡◌, ◌≢◌, refl, ap, List, [], ◌∷◌, ◌++◌, length, get_or, arith, ◌==◌,
}
use kl.RefHolder.Counts.{one}

abbrev pub occurrences : List ℕ → ℕ → ℕ
occurrences [] p = 0
occurrences (x ∷ xs) p = occurrences xs p + one (p == x)

-- A write out of range changes nothing.
abbrev pub set : {A : Type 0} → List A → ℕ → A → List A
set [] i v = []
set (x ∷ xs) zero v = v ∷ xs
set (x ∷ xs) (suc i) v = x ∷ set xs i v

pub length-set : (xs : List ℕ) (i v : ℕ) → length (set xs i v) ≡ length xs
length-set [] i v = refl
length-set (x ∷ xs) zero v = refl
length-set (x ∷ xs) (suc i) v = omega (arith, length-set xs i v)

pub get_or-set_other : (xs : List ℕ) (i j v d : ℕ) → i ≢ j → get_or (set xs i v) j d ≡ get_or xs j d
get_or-set_other [] i j v d n = refl
get_or-set_other (x ∷ xs) zero zero v d n = absurd (n refl)
get_or-set_other (x ∷ xs) zero (suc j) v d n = refl
get_or-set_other (x ∷ xs) (suc i) zero v d n = refl
get_or-set_other (x ∷ xs) (suc i) (suc j) v d n =
    get_or-set_other xs i j v d (λ e. n (ground (arith, e)))

pub occurrences-append :
    (xs ys : List ℕ) (p : ℕ) → occurrences (xs ++ ys) p ≡ occurrences xs p + occurrences ys p
occurrences-append [] ys p = omega arith
occurrences-append (x ∷ xs) ys p = omega (arith, occurrences-append xs ys p)

pub occurrences-le-length : (xs : List ℕ) (p : ℕ) → occurrences xs p ≤ length xs
occurrences-le-length [] p = omega arith
occurrences-le-length (x ∷ xs) p = ground (arith, occurrences-le-length xs p)

pub occurrences-set :
    (xs : List ℕ) (i v p : ℕ)
    → i < length xs
    → occurrences (set xs i v) p + one (p == get_or xs i 0) ≡ occurrences xs p + one (p == v)
occurrences-set [] i v p k = absurd (omega (arith, k))
occurrences-set (x ∷ xs) zero v p k = omega arith
occurrences-set (x ∷ xs) (suc i) v p k = omega (arith, occurrences-set xs i v p (omega (arith, k)))

pub occurrences_pos : (xs : List ℕ) (i : ℕ) → i < length xs → 0 < occurrences xs (get_or xs i 0)
occurrences_pos [] i k = absurd (omega (arith, k))
occurrences_pos (x ∷ xs) zero k = ground arith
occurrences_pos (x ∷ xs) (suc i) k = omega (arith, occurrences_pos xs i (omega (arith, k)))

pub set_same : (xs : List ℕ) (i : ℕ) → set xs i (get_or xs i 0) ≡ xs
set_same [] i = refl
set_same (x ∷ xs) zero = refl
set_same (x ∷ xs) (suc i) = ap (λ t. x ∷ t) (set_same xs i)
