-- ===== src/Fifo.antt =====
-- skl/kfifo.hpp, `class Fifo<T>`: values of `T` as the bytes of their representation. The member
-- `_kfifo` may be null. The bytes of a value number `sizeof(T)`.
pub mod Laws
mod Tests
use kl.Base.{ℕ, ◌^◌, Bool, true, false, ◌&&◌, not, Option, none, some, List, length}
use kl.Base.{if◌then◌else◌, ltb, ◌==◌, ◌>>=◌, mul32}
use kl.Kfifo
use kl.Kfifo.{Kfifo}

abbrev pub Fifo : Type 0
Fifo = Option Kfifo

-- `int len = n; len > 0`
abbrev pub positive_int : ℕ → Bool
positive_int n = ltb 0 n && ltb n (2 ^ 31)

-- `push(T data)`: the result, and the FIFO after it.
pub push : Fifo → List ℕ → Option (Bool × Fifo)
push none bytes = some (false, none)
push (some f) bytes = do (n, f') ← Kfifo.put f bytes (length bytes); some (positive_int n, some f')

-- `pop(T& data)`: the result, `data` and the FIFO after it.
pub pop : Fifo → List ℕ → Option (Bool × List ℕ × Fifo)
pop none bytes = some (false, bytes, none)
pop (some f) bytes = do
  (n, bytes', f') ← Kfifo.get f bytes (length bytes)
  some (positive_int n, bytes', some f')

pub empty : Fifo → Bool
empty none = true
empty (some f) = 0 == Kfifo.len f

-- `length` is declared to return `bool`: a number other than 0 becomes `true`.
pub length_bool : Fifo → Bool
length_bool none = false
length_bool (some f) = not (Kfifo.len f == 0)

-- `Fifo()`: `kfifo_alloc(size * sizeof(T))` into the member.
pub construct : (ℕ → Option (List ℕ)) → Bool → ℕ → ℕ → ℕ → Option (Fifo × ℕ)
construct pool room size width live = Kfifo.alloc pool room (mul32 size width) live

-- `~Fifo()`
pub destroy : Fifo → ℕ → ℕ
destroy none live = live
destroy (some f) live = Kfifo.free f live

-- `Fifo(Fifo&& r)`: the new object, and `r` after it.
pub move : Fifo → Fifo × Fifo
move r = (r, none)

-- `swap`: this object and `r` after it.
pub swap : Fifo → Fifo → Fifo × Fifo
swap this r = (r, this)
