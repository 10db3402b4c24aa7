-- ===== src/Kfifo/Tests.antt =====
-- skl/kfifo.hpp: runs at concrete inputs, and the theorems at them.
use kl.Base.{ℕ, ◌-◌, min, ◌≡◌, refl, sym, ap, ◌∙◌, true, Option, some}
use kl.Base.{
  List, [], ◌∷◌, ◌++◌, arith, length, take, drop, replicate, length-replicate, copy_block,
  some-injective,
}
use kl.Kfifo.{Kfifo, alloc, alloc_size, highest_bit, roundup_pow_of_two, put, get}
use kl.Kfifo.Inv.{IsValid, contents}
use kl.Kfifo.Put.{put-append}
use kl.Kfifo.Get.{get-drop}
use kl.Kfifo.Alloc.{Allocated, alloc-Allocated}

-- Two bytes, 8 and 9, across the end of the block, with offsets that are about to wrap.
abbrev wrapped : Kfifo
wrapped = record { buffer = 9 ∷ 0 ∷ 7 ∷ 8 ∷ []; size = 4; in_pos = 1; out_pos = 0xffff_ffff }

wrapped-IsValid : IsValid wrapped
wrapped-IsValid = record {
  width = 2;
  pow = refl;
  small = omega arith;
  stored = refl;
  in_word = omega arith;
  out_word = omega arith;
  fits = omega arith;
}

contents-wrapped : contents wrapped ≡ 8 ∷ 9 ∷ []
contents-wrapped = refl

sizes : (roundup_pow_of_two 120 ≡ some 128) × (alloc_size 64 ≡ some 64) × (alloc_size 65 ≡ some 128)
unfolding roundup_pow_of_two alloc_size highest_bit kl.Kfifo.halvings kl.Kfifo.shift_one
sizes = (refl, refl, refl)

put_stops_when_full :
    put wrapped (1 ∷ 2 ∷ 3 ∷ []) 3
    ≡ some (2, record { buffer = 9 ∷ 1 ∷ 2 ∷ 8 ∷ []; size = 4; in_pos = 3; out_pos = 0xffff_ffff })
unfolding put copy_block
put_stops_when_full = refl

put-append_example :
    (n : ℕ) × (f' : Kfifo) × (put wrapped (1 ∷ 2 ∷ 3 ∷ []) 3 ≡ some (n, f'))
    × (n ≡ min 3 (4 - 2))
    × (contents f' ≡ (8 ∷ 9 ∷ []) ++ take n (1 ∷ 2 ∷ 3 ∷ []))
    × (f'.size ≡ 4)
    × IsValid f'
put-append_example = put-append wrapped (1 ∷ 2 ∷ 3 ∷ []) 3 wrapped-IsValid (omega arith)

get-drop_example :
    (n : ℕ) × (dst' : List ℕ) × (f' : Kfifo) × (get wrapped (0 ∷ 0 ∷ 0 ∷ []) 3 ≡ some (n, dst', f'))
    × (n ≡ min 3 2)
    × (take n dst' ≡ take n (8 ∷ 9 ∷ []))
    × (drop n dst' ≡ drop n (0 ∷ 0 ∷ 0 ∷ []))
    × (contents f' ≡ drop n (8 ∷ 9 ∷ []))
    × (f'.size ≡ 4)
    × IsValid f'
get-drop_example = get-drop wrapped (0 ∷ 0 ∷ 0 ∷ []) 3 wrapped-IsValid (omega arith)

-- A pool that gives zeroed blocks.
zeroed : ℕ → Option (List ℕ)
zeroed n = some (replicate n 0)

zeroed-length : (m : ℕ) (b : List ℕ) → zeroed m ≡ some b → length b ≡ m
unfolding zeroed
zeroed-length m b e = ap length (sym (some-injective e)) ∙ length-replicate m 0

alloc-Allocated_example :
    (r : Option Kfifo × ℕ) × (alloc zeroed true 120 7 ≡ some r) × Allocated zeroed true 120 7 r
alloc-Allocated_example =
    alloc-Allocated zeroed 120 7 zeroed-length (omega arith) (omega arith) true
