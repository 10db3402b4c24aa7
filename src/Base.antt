-- ===== src/Base.antt =====
-- The names that the modules of every component share: the libraries', passed on, and those of
-- the children (Boolean tests, lists with native indices, block copies, machine words, bits).
mod Tests
mod Lists
mod Words
mod Order
mod Blocks
mod Bits
mod Pow
mod Faults
pub use Tests.*
pub use Lists.*
pub use Words.*
pub use Pow.{pow_mono, le_of_pow-le, lt_of_pow-lt, mod_word}
pub use Faults.*
unfoldable pub use Order.{lt_wf}
unfoldable pub use Blocks.{copy_block}
pub use Blocks.{
  copied, copy_block-some, copy_block-none, length-copied, get_or-copied, take-copied,
  take-copied_before, take-copied_through,
}
pub use Bits.{bit_and_mask, Pow2_of_mask}
pub use Prim.Native.Nat.{ℕ, zero, suc, ◌+◌, ◌-◌, ◌*◌, ◌/◌, ◌%◌, ◌^◌, ◌≤◌, ◌<◌, min, bit_and}
pub use mathlib.Core.Path.{◌≡◌, refl, sym, ap, ap₂, ◌∙◌, subst}
pub use mathlib.Core.Logic.{◌≢◌, ◌↔◌, ◌⊎◌, inl, inr}
pub use mathlib.Core.Bool.{Bool, true, false, not, ◌&&◌, ◌||◌}
pub use mathlib.Core.Option.{Option, none, some}
pub use mathlib.Core.List.{List, [], ◌∷◌, ◌++◌}
pub use native.Mathlib.Omega.{arith}
