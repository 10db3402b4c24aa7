-- ===== src/RefHolder/Tests.antt =====
-- Two objects: the one at address 8 has two holders and that at 9 has one.
use kl.Base.{◌≡◌, true, false, some, List, [], ◌∷◌, arith, if◌then◌else◌, ◌==◌}
use kl.RefHolder.Run.{
  Program, Action, copy, move, assign_copy, assign_moved, leave, run, Owned, run-Owned,
}

abbrev two : Program
two = record {
  objects = record {
    count = λ p. if p == 8 then 2 else if p == 9 then 1 else 0;
    live = λ p. if p == 8 then true else if p == 9 then true else false;
  };
  holders = 8 ∷ 9 ∷ 8 ∷ [];
}

two-Owned : Owned two
two-Owned = record {
  live = λ p k. ground arith;
  count = λ p k l. ground arith;
  small = λ p k. ground arith;
}

abbrev actions : List Action
actions = copy 1 ∷ assign_copy 1 0 ∷ move 3 ∷ assign_moved 0 4 ∷ leave 1 ∷ leave 2 ∷ leave 0 ∷ []

run-Owned_example : (s : Program) × (run actions two ≡ some s) × Owned s
run-Owned_example = run-Owned actions two two-Owned (omega arith) (omega arith)
