-- ===== src/Base/Pow.antt =====
-- Powers of two that divide the range of a 32-bit word.
use Prim.Native.Nat.{ℕ, zero, suc, ◌*◌, ◌%◌, ◌^◌, ◌≤◌, ◌<◌, ◌∣◌}
use mathlib.Core.Path.{◌≡◌, subst, sym}
use native.Mathlib.Decide.{dec_lt, ℕ_discrete}
use native.Mathlib.Nat.{
  pow-suc, one-le-pow, pow-le-pow_right, dvd_refl, dvd-mul_right_of_dvd, mod-mod_of_dvd,
}
use native.Mathlib.Omega.{arith}

pow-dvd : (k n : ℕ) → k ≤ n → 2 ^ k ∣ 2 ^ n
pow-dvd k zero h = let e : k ≡ 0 = omega arith in subst (λ m. 2 ^ m ∣ 1) (sym e) (dvd_refl 1)
pow-dvd k (suc n) h = elim (ℕ_discrete k (suc n)) [
  | yes e ↦ subst (λ m. 2 ^ m ∣ 2 ^ suc n) (sym e) (dvd_refl (2 ^ suc n))
  | no ne ↦
      subst (λ m. 2 ^ k ∣ m) (sym (pow-suc 2 n))
        (dvd-mul_right_of_dvd (2 ^ k) (pow-dvd k n (omega arith)) 2)
]

pub pow_mono : (k n : ℕ) → k ≤ n → 2 ^ k ≤ 2 ^ n
pow_mono k n h = pow-le-pow_right {n = 2} (omega arith) h

double_pow-le : (k n : ℕ) → k < n → 2 * 2 ^ k ≤ 2 ^ n
double_pow-le k n h = omega (arith, pow_mono (suc k) n h, pow-suc 2 k)

pub le_of_pow-le : (k n : ℕ) → 2 ^ k ≤ 2 ^ n → k ≤ n
le_of_pow-le k n h = elim (dec_lt n k) [
  | yes more ↦ absurd (omega (arith, double_pow-le n k more, one-le-pow n 2))
  | no less ↦ omega arith
]

pub lt_of_pow-lt : (k n : ℕ) → 2 ^ k < 2 ^ n → k < n
lt_of_pow-lt k n h = elim (dec_lt k n) [
  | yes less ↦ less
  | no more ↦ absurd (omega (arith, pow_mono n k (omega arith)))
]

-- The wrap-around of a 32-bit offset does not show in its remainder by a smaller power of two.
pub mod_word : (k x : ℕ) → k ≤ 32 → x % 2 ^ 32 % 2 ^ k ≡ x % 2 ^ k
mod_word k x h = mod-mod_of_dvd (2 ^ k) x (pow-dvd k 32 h)
