-- ===== src/Text/Search.antt =====
-- What the searches of `class string` find.
use kl.Base.{ℕ, ◌+◌, ◌≤◌, ◌<◌, ◌≡◌, ◌⊎◌, Bool, inl, inr, true, false, arith}
use native.Mathlib.Decide.{ℕ_discrete}
use kl.Text.{npos}

-- `r` is the first index from `pos` on at which `P` holds, or `npos`.
abbrev pub First : (ℕ → Bool) → ℕ → ℕ → Type 0
First P pos r =
    ((r ≡ npos) × ((j : ℕ) → pos ≤ j → P j ≡ false))
    ⊎ ((pos ≤ r) × (P r ≡ true) × ((j : ℕ) → pos ≤ j → j < r → P j ≡ false))

-- `r` is the last index from `low` on at which `P` holds, or `npos`.
abbrev pub Last : (ℕ → Bool) → ℕ → ℕ → Type 0
Last P low r =
    ((r ≡ npos) × ((j : ℕ) → low ≤ j → P j ≡ false))
    ⊎ ((low ≤ r) × (P r ≡ true) × ((j : ℕ) → r < j → P j ≡ false))

module _ (P : ℕ → Bool) where
  pub First-here : (pos : ℕ) → P pos ≡ true → First P pos pos
  First-here pos h = inr (omega arith, h, λ j p q. absurd (omega arith))

  pub First-next : (pos r : ℕ) → P pos ≡ false → First P (pos + 1) r → First P pos r
  First-next pos r miss (inl (e, rest)) = inl (e, λ j h. later j h)
    where
      later : (j : ℕ) → pos ≤ j → P j ≡ false
      later j h = elim (ℕ_discrete pos j) [ yes e ↦ rw (← e) miss | no ne ↦ rest j (omega arith) ]
  First-next pos r miss (inr (le, hit, before)) = inr (omega arith, hit, λ j h l. later j h l)
    where
      later : (j : ℕ) → pos ≤ j → j < r → P j ≡ false
      later j h l = elim (ℕ_discrete pos j) [
        | yes e ↦ rw (← e) miss
        | no ne ↦ before j (omega arith) l
      ]
