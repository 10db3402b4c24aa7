-- ===== src/Fifo/Tests.antt =====
-- skl/kfifo.hpp, `Fifo<T>`: the theorems at concrete inputs.
use kl.Base.{◌≡◌, refl, true, some, [], ◌∷◌, arith}
use kl.Kfifo.{Kfifo}
use kl.Fifo.{push}
use kl.Fifo.Laws.{Holds, Popped, push-Holds, pop-Holds}

-- Room for two values of two bytes; one is held.
abbrev one_value : Kfifo
one_value = record { buffer = 0 ∷ 7 ∷ 8 ∷ 0 ∷ []; size = 4; in_pos = 3; out_pos = 1 }

one_value-Holds : Holds 2 2 ((7 ∷ 8 ∷ []) ∷ []) one_value
one_value-Holds = record {
  valid = record {
    width = 2;
    pow = refl;
    small = omega arith;
    stored = refl;
    in_word = omega arith;
    out_word = omega arith;
    fits = omega arith;
  };
  room = refl;
  bytes = refl;
  widths = (refl, tt);
}

push-Holds_example :
    (f' : Kfifo) × (push (some one_value) (5 ∷ 6 ∷ []) ≡ some (true, some f'))
    × Holds 2 2 ((7 ∷ 8 ∷ []) ∷ (5 ∷ 6 ∷ []) ∷ []) f'
push-Holds_example =
    push-Holds 2 2 one_value (omega arith) (omega arith) ((7 ∷ 8 ∷ []) ∷ []) (5 ∷ 6 ∷ [])
      one_value-Holds refl

pop-Holds_example : (f' : Kfifo) × Popped 2 2 ((7 ∷ 8 ∷ []) ∷ []) one_value (0 ∷ 0 ∷ []) f'
pop-Holds_example =
    pop-Holds 2 2 one_value (omega arith) (omega arith) ((7 ∷ 8 ∷ []) ∷ []) (0 ∷ 0 ∷ [])
      one_value-Holds refl
