-- ===== src/Base/Bits.antt =====
-- `n & (n - 1)` and `x & (2 ^ k - 1)` as arithmetic.
use Prim.Native.Nat.{
  ℕ, zero, suc, ◌+◌, ◌-◌, ◌*◌, ◌/◌, ◌%◌, ◌^◌, ◌≤◌, ◌<◌, min, bit_and, digits, bit_and-bitwise,
}
use mathlib.Core.Path.{◌≡◌, refl, sym, ap, ◌∙◌}
use mathlib.Core.WellFounded
use native.Mathlib.Nat.{
  pow-suc, one-le-pow, mul-add-mod_self_left, mod-eq_of_lt, mod-lt, div-add-mod,
}
use native.Mathlib.Omega.{arith}
use native.Mathlib.Decide.{ℕ_discrete}
use kl.Base.Order.{lt_wf}

-- `bit_and` on a count of digits to go. A digit more than the first number has changes nothing.
abbrev shared : ℕ → ℕ → ℕ → ℕ
shared left x y = digits (λ t. zero) min left x y

shared-suc : (left x y : ℕ) → x ≤ left → shared (suc left) x y ≡ shared left x y
shared-suc zero zero y le = refl
shared-suc zero (suc x) y le = absurd (omega arith)
shared-suc (suc left) zero y le = refl
shared-suc (suc left) (suc x) y le =
    omega (arith, shared-suc left (suc x / 2) (y / 2) (omega arith))

shared-enough : (left x y : ℕ) → x ≤ left → shared left x y ≡ shared x x y
shared-enough zero zero y le = refl
shared-enough (suc left) zero y le = refl
shared-enough zero (suc x) y le = absurd (omega arith)
shared-enough (suc left) (suc x) y le = elim (ℕ_discrete x left) [
  | yes e ↦ ap (λ n. shared (suc n) (suc x) y) (sym e)
  | no ne ↦ shared-suc left (suc x) y (omega arith) ∙ shared-enough left (suc x) y (omega arith)
]

shared-bit_and : (left x y : ℕ) → x ≤ left → shared left x y ≡ bit_and x y
shared-bit_and left x y le = shared-enough left x y le ∙ sym (bit_and-bitwise x y)

-- The lowest digit of both numbers, apart from the others.
low_digit : (x y : ℕ) → bit_and x y ≡ 2 * bit_and (x / 2) (y / 2) + min (x % 2) (y % 2)
low_digit zero y = omega (arith, bit_and-bitwise 0 y, bit_and-bitwise 0 (y / 2))
low_digit (suc x) y =
    omega (arith, bit_and-bitwise (suc x) y, shared-bit_and x (suc x / 2) (y / 2) (omega arith))

-- `x & 0` and `x & x`, for the numbers up to a bound.
constant_masks : (bound x : ℕ) → x ≤ bound → (bit_and x 0 ≡ 0) × (bit_and x x ≡ x)
constant_masks bound zero le = (refl, refl)
constant_masks zero (suc x) le = absurd (omega arith)
constant_masks (suc bound) (suc x) le =
    let (none_kept, all_kept) = constant_masks bound (suc x / 2) (omega arith) in
    (omega (arith, low_digit (suc x) 0), omega (arith, low_digit (suc x) (suc x)))

mod_double : (p a : ℕ) → 0 < p → a % (2 * p) ≡ 2 * (a / 2 % p) + a % 2
mod_double p a h =
    ap (λ (t : ℕ). t % (2 * p)) split
    ∙ mul-add-mod_self_left (2 * p) (a / 2 / p) (2 * (a / 2 % p) + a % 2)
    ∙ mod-eq_of_lt (omega (arith, mod-lt (a / 2) h))
  where
    split : a ≡ 2 * p * (a / 2 / p) + (2 * (a / 2 % p) + a % 2)
    split = omega (arith, div-add-mod (a / 2) p)

-- Masking with `k` ones leaves the remainder by `2 ^ k`.
pub bit_and_mask : (k a : ℕ) → bit_and a (2 ^ k - 1) ≡ a % 2 ^ k
bit_and_mask zero a = omega (arith, (constant_masks a a (omega arith)).0)
bit_and_mask (suc k) a = ground (
  arith,
  pow-suc 2 k,
  one-le-pow k 2,
  low_digit a (2 ^ suc k - 1),
  bit_and_mask k (a / 2),
  mod_double (2 ^ k) a,
)

-- An odd number greater than one shares a digit with its predecessor.
mask_odd : (n : ℕ) → n % 2 ≡ 1 → bit_and n (n - 1) ≡ 0 → n ≡ 1
mask_odd n odd shared = omega (
  arith,
  low_digit n (n - 1),
  ap (bit_and (n / 2)) half,
  (constant_masks (n / 2) (n / 2) (omega arith)).1,
)
  where
    half : (n - 1) / 2 ≡ n / 2
    half = omega arith

mask_even : (n : ℕ) → n % 2 ≡ 0 → bit_and n (n - 1) ≡ 0 → bit_and (n / 2) (n / 2 - 1) ≡ 0
mask_even n even shared = omega (arith, low_digit n (n - 1), ap (bit_and (n / 2)) half)
  where
    half : (n - 1) / 2 ≡ n / 2 - 1
    half = omega arith

-- A positive number that shares no digit with its predecessor is a power of two.
pub Pow2_of_mask : (n : ℕ) → 0 < n → bit_and n (n - 1) ≡ 0 → (k : ℕ) × (n ≡ 2 ^ k)
Pow2_of_mask n = WellFounded.induction lt_wf {C = Claim} n step
  where
    Claim : ℕ → Type 0
    Claim n = 0 < n → bit_and n (n - 1) ≡ 0 → (k : ℕ) × (n ≡ 2 ^ k)

    step : (n : ℕ) → ((m : ℕ) → m < n → Claim m) → Claim n
    step n ih pos shared = elim (ℕ_discrete (n % 2) 0) [
      | yes even ↦
          let (k, e) = ih (n / 2) (omega arith) (omega arith) (mask_even n even shared) in
          (suc k, omega (arith, pow-suc 2 k))
      | no odd ↦ (0, mask_odd n (omega arith) shared)
    ]
