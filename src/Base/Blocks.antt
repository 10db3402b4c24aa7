-- ===== src/Base/Blocks.antt =====
-- `memcpy`, `RtlCopyMemory` and `RtlMoveMemory` on blocks: `n` cells of `src` from index `j` go to
-- index `i` of `dst`. `none` is an access outside one of the blocks.
use Prim.Native.Nat.{ℕ, ◌+◌, ◌-◌, ◌≤◌, ◌<◌}
use mathlib.Core.Path.{◌≡◌, ◌∙◌, ap, sym}
use mathlib.Core.Logic.{◌⊎◌}
use mathlib.Core.Bool.{◌&&◌}
use mathlib.Core.Option.{Option, none, some}
use mathlib.Core.List.{List, ◌++◌, append_assoc}
use native.Mathlib.Omega.{arith}
use kl.Base.Tests.{ltb, leb, if◌then◌else◌}
use kl.Base.Lists.{length, get_or, take, drop, length-append, length-take, length-drop}
use kl.Base.Lists.{take-append_exact, get_or-append, get_or-take, get_or-drop}

module _ {A : Type 0} (dst : List A) (i : ℕ) (src : List A) (j n : ℕ) where
  pub copied : List A
  copied = take i dst ++ (take n (drop j src) ++ drop (i + n) dst)

  unfoldable pub copy_block : Option (List A)
  unfolding copied
  copy_block = if leb (i + n) (length dst) && leb (j + n) (length src) then some copied else none

  pub copy_block-some : i + n ≤ length dst → j + n ≤ length src → copy_block ≡ some copied
  unfolding copy_block
  copy_block-some h k = ground arith

  pub copy_block-none : (length dst < i + n) ⊎ (length src < j + n) → copy_block ≡ none
  unfolding copy_block
  copy_block-none h = ground arith

  pub length-copied : i + n ≤ length dst → j + n ≤ length src → length copied ≡ length dst
  unfolding copied
  length-copied h k = omega (
    arith,
    length-append (take i dst) (take n (drop j src) ++ drop (i + n) dst),
    length-append (take n (drop j src)) (drop (i + n) dst),
    length-take i dst,
    length-take n (drop j src),
    length-drop j src,
    length-drop (i + n) dst,
  )

  -- What stands at index `p` afterwards.
  pub get_or-copied :
      (p : ℕ) (d : A)
      → i + n ≤ length dst
      → j + n ≤ length src
      → get_or copied p d ≡ (
          if ltb p i
          then get_or dst p d
          else if ltb p (i + n)
          then get_or src (j + (p - i)) d
          else get_or dst p d)
  unfolding copied
  get_or-copied p d h k = ground (
    arith,
    get_or-append (take i dst) (take n (drop j src) ++ drop (i + n) dst) p d,
    get_or-append (take n (drop j src)) (drop (i + n) dst) (p - i) d,
    length-take i dst,
    length-take n (drop j src),
    length-drop j src,
    get_or-take i dst p d,
    get_or-take n (drop j src) (p - i) d,
    get_or-drop j src (p - i) d,
    get_or-drop (i + n) dst (p - i - n) d,
  )

-- A copy to the start of a block puts the cells there.
pub take-copied :
    {A : Type 0} (dst src : List A) (n : ℕ)
    → n ≤ length src
    → take n (copied dst 0 src 0 n) ≡ take n src
unfolding copied
take-copied dst src n h =
    take-append_exact n (take n src) (drop (0 + n) dst) (omega (arith, length-take n src))

-- The cells before the range stay.
pub take-copied_before :
    {A : Type 0} (dst : List A) (i : ℕ) (src : List A) (j n : ℕ)
    → i ≤ length dst
    → take i (copied dst i src j n) ≡ take i dst
unfolding copied
take-copied_before dst i src j n h =
    take-append_exact i (take i dst) (take n (drop j src) ++ drop (i + n) dst)
      (omega (arith, length-take i dst))

-- A copy behind the first cells.
pub take-copied_through :
    {A : Type 0} (dst : List A) (i : ℕ) (src : List A) (j n : ℕ)
    → i + n ≤ length dst
    → j + n ≤ length src
    → take (i + n) (copied dst i src j n) ≡ take i dst ++ take n (drop j src)
unfolding copied
take-copied_through dst i src j n h k =
    let front = take i dst ++ take n (drop j src) in
    let whole = sym (append_assoc (take i dst) (take n (drop j src)) (drop (i + n) dst)) in
    ap (take (i + n)) whole
    ∙ take-append_exact (i + n) front (drop (i + n) dst) (
        omega (
          arith,
          length-append (take i dst) (take n (drop j src)),
          length-take i dst,
          length-take n (drop j src),
          length-drop j src,
        ))
