-- ===== src/Kfifo/Inv.antt =====
-- The representation invariant of `struct kfifo`, and the bytes that it holds, oldest first.
use kl.Base.{ℕ, ◌-◌, ◌%◌, ◌^◌, ◌≤◌, ◌<◌, bit_and, ◌≡◌, ◌∙◌, ap, List, arith, length, sub32}
use kl.Base.{bit_and_mask, le_of_pow-le, mod_word}
use native.Mathlib.Nat.{one-le-pow}
use kl.Kfifo.{Kfifo}
use kl.Kfifo.Window.{window, length-window}

pub record IsValid (f : Kfifo) : Type 0 where
  pub width : ℕ
  pub pow : f.size ≡ 2 ^ width
  pub small : f.size ≤ 2 ^ 31
  pub stored : length f.buffer ≡ f.size
  pub in_word : f.in_pos < 2 ^ 32
  pub out_word : f.out_pos < 2 ^ 32
  pub fits : sub32 f.in_pos f.out_pos ≤ f.size

abbrev pub contents : Kfifo → List ℕ
contents f = window f.buffer f.size f.out_pos (sub32 f.in_pos f.out_pos)

pub length-contents : (f : Kfifo) → length (contents f) ≡ sub32 f.in_pos f.out_pos
length-contents f = length-window f.buffer f.size f.out_pos (sub32 f.in_pos f.out_pos)

module _ {f : Kfifo} (v : IsValid f) where
  pub size-pos : 0 < f.size
  size-pos = omega (arith, v.pow, one-le-pow v.width 2)

  -- `x & (size - 1)` is the index of offset `x`.
  pub mask-mod : (x : ℕ) → bit_and x (sub32 f.size 1) ≡ x % f.size
  mask-mod x = ap (bit_and x) less ∙ bit_and_mask v.width x ∙ ap (λ m. x % m) (omega (arith, v.pow))
    where
      less : sub32 f.size 1 ≡ 2 ^ v.width - 1
      less = omega (arith, v.pow, v.small, size-pos)

  pub word-mod : (x : ℕ) → x % 2 ^ 32 % f.size ≡ x % f.size
  word-mod x =
      ap (λ m. x % 2 ^ 32 % m) v.pow
      ∙ mod_word v.width x width_le
      ∙ ap (λ m. x % m) (omega (arith, v.pow))
    where
      width_le : v.width ≤ 32
      width_le = omega (arith, le_of_pow-le v.width 31 (omega (arith, v.pow, v.small)))
