-- ===== src/SharedPtr/Tests.antt =====
-- A state after `make_shared` of one object.
use kl.Base.{◌≡◌, refl, if◌then◌else◌, ◌==◌, some, [], ◌∷◌, true, false, arith}
use kl.SharedPtr.{make_shared}
use kl.SharedPtr.Actions.{Action, make, Program, step}
use kl.SharedPtr.Steps.{Owned, Allowed}
use kl.SharedPtr.Run.{Reachable, start, then_step, Reachable-safe}

abbrev made : Program
made = record {
  shared = record {
    counters = record {
      count = λ q. if q == 7 then 1 else 0;
      live = λ q. if q == 7 then true else false;
    };
    object = λ q. if q == 9 then true else false;
  };
  pointers = record { ptr = 9; pn = 7 } ∷ [];
}

made-Reachable : Reachable made
unfolding step make_shared
made-Reachable =
    then_step (make (some 7) (some 9)) _ _ start (omega arith, omega arith, refl, refl) refl

Reachable-safe_example :
    Owned made × ((a : Action) → Allowed a made → (t : Program) × (step a made ≡ some t))
Reachable-safe_example = Reachable-safe made made-Reachable
