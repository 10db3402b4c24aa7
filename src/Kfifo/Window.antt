-- ===== src/Kfifo/Window.antt =====
-- The bytes of a circular block: `window b size s n` holds the `n` bytes from offset `s` on.
use kl.Base.{ℕ, zero, suc, ◌+◌, ◌-◌, ◌%◌, ◌≤◌, ◌<◌, ◌≡◌, refl, ap, ◌∙◌, ◌⊎◌, inl, inr}
use kl.Base.{List, [], ◌∷◌, arith, length, get_or}
use native.Mathlib.Nat.{mod-eq_of_lt, mod-eq-sub-mod}
use native.Mathlib.Decide.{dec_lt}

abbrev pub window : List ℕ → ℕ → ℕ → ℕ → List ℕ
window b size s zero = []
window b size s (suc n) = get_or b (s % size) 0 ∷ window b size (s + 1) n

pub length-window : (b : List ℕ) (size s n : ℕ) → length (window b size s n) ≡ n
length-window b size s zero = refl
length-window b size s (suc n) = ap suc (length-window b size (s + 1) n)

pub get_or-window :
    (b : List ℕ) (size s n i : ℕ)
    → i < n
    → get_or (window b size s n) i 0 ≡ get_or b ((s + i) % size) 0
get_or-window b size s zero i h = absurd (omega arith)
get_or-window b size s (suc n) zero h = ap (λ k. get_or b (k % size) 0) (omega arith)
get_or-window b size s (suc n) (suc i) h =
    get_or-window b size (s + 1) n i (omega arith) ∙ ap (λ k. get_or b (k % size) 0) (omega arith)

-- An offset less than two rounds on.
pub wrap_cases :
    (x size : ℕ)
    → x < size + size
    → ((x < size) × (x % size ≡ x)) ⊎ ((size ≤ x) × (x % size ≡ x - size))
wrap_cases x size h = elim (dec_lt x size) [
  | yes p ↦ inl (p, mod-eq_of_lt p)
  | no p ↦ inr (
    omega arith,
    mod-eq-sub-mod {n = x} {m = size} (omega arith)
        ∙ mod-eq_of_lt {n = x - size} {m = size} (omega arith),
  )
]
