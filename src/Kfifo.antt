-- ===== src/Kfifo.antt =====
-- skl/kfifo.hpp: the byte FIFO with free-running 32-bit offsets, its allocation, and the typed
-- wrapper `Fifo<T>`. A function that writes `*fifo` or the caller's buffer returns the new value.
-- `none` is an access outside a block, or a shift that C++ leaves undefined.
pub mod Window
pub mod Inv
pub mod Put
pub mod Get
pub mod Alloc
mod Tests
use kl.Base.{ℕ, zero, suc, ◌+◌, ◌-◌, ◌/◌, ◌^◌, min, bit_and, Bool, Option, none}
use kl.Base.{some, List, if◌then◌else◌, ltb, ◌==◌, add32, sub32, copy_block, ◌>>=◌}

-- `highest_bit`: `for (i = n >> 1; i != 0; ++pos) i >>= 1` on fuel.
halvings : ℕ → ℕ → ℕ → Option ℕ
halvings zero i pos = none
halvings (suc fuel) i pos =
    let rest = halvings fuel (i / 2) (add32 pos 1) in if i == 0 then some pos else rest

-- An `unsigned` has 32 digits, so 32 rounds are enough for `n >> 1`.
pub highest_bit : ℕ → Option ℕ
highest_bit n = if n == 0 then some 0 else do pos ← halvings 32 (n / 2) 0; some (add32 pos 1)

-- `1UL << k` on the 32-bit `unsigned long`.
pub shift_one : ℕ → Option ℕ
shift_one k = if ltb k 32 then some (2 ^ k) else none

pub roundup_pow_of_two : ℕ → Option ℕ
roundup_pow_of_two n = do k ← highest_bit (sub32 n 1); shift_one k

-- `struct kfifo`; `in` is a reserved word.
pub record Kfifo : Type 0 where
  pub buffer : List ℕ
  pub size : ℕ
  pub in_pos : ℕ
  pub out_pos : ℕ

-- The size that `kfifo_alloc` asks for.
pub alloc_size : ℕ → Option ℕ
alloc_size size = if bit_and size (sub32 size 1) == 0 then some size else roundup_pow_of_two size

-- `kfifo_alloc`. `pool` is `ExAllocatePoolWithTag` for the buffer and `room` says whether it finds
-- room for the struct; `live` counts the pool blocks that are not freed.
pub alloc : (ℕ → Option (List ℕ)) → Bool → ℕ → ℕ → Option (Option Kfifo × ℕ)
alloc pool room size live = do
  n ← alloc_size size
  elim (pool n) [
    | none ↦ some (none, live)
    | some b ↦
        if room
        then some (some (record { buffer = b; size = n; in_pos = 0; out_pos = 0 }), live + 2)
        else some (none, live + 1 - 1)
  ]

-- `kfifo_free`: both blocks go back.
pub free : Kfifo → ℕ → ℕ
free f live = live - 1 - 1

-- `__kfifo_put`: the count, and the FIFO after it.
pub put : Kfifo → List ℕ → ℕ → Option (ℕ × Kfifo)
put f src len = do
  let n = min len (add32 (sub32 f.size f.in_pos) f.out_pos)
  let at = bit_and f.in_pos (sub32 f.size 1)
  let l = min n (sub32 f.size at)
  b ← copy_block f.buffer at src 0 l
  b' ← copy_block b 0 src l (sub32 n l)
  some (n, record f { buffer = b'; in_pos = add32 f.in_pos n })

-- `__kfifo_get`: the count, the caller's buffer and the FIFO after it.
pub get : Kfifo → List ℕ → ℕ → Option (ℕ × List ℕ × Kfifo)
get f dst len = do
  let n = min len (sub32 f.in_pos f.out_pos)
  let at = bit_and f.out_pos (sub32 f.size 1)
  let l = min n (sub32 f.size at)
  d ← copy_block dst 0 f.buffer at l
  d' ← copy_block d l f.buffer 0 (sub32 n l)
  some (n, d', record f { out_pos = add32 f.out_pos n })

pub reset : Kfifo → Kfifo
reset f = record f { in_pos = 0; out_pos = 0 }

pub len : Kfifo → ℕ
len f = sub32 f.in_pos f.out_pos
