-- ===== src/SharedPtr/Run.antt =====
-- Shared pointers in every state that a program can reach.
use kl.Base.{◌≡◌, ◌∙◌, refl, sym, subst, false, some, some-injective, [], arith}
use kl.SharedPtr.{}
use kl.SharedPtr.Actions.{Action, Program, step}
use kl.SharedPtr.Steps.{Owned, Allowed, step-Owned}

-- No pointer, no counter and no object.
abbrev pub empty_program : Program
empty_program = record {
  shared = record { counters = record { count = λ p. 0; live = λ p. false }; object = λ p. false };
  pointers = [];
}

pub data Reachable : Program → Type 0 where
  start : Reachable empty_program
  then_step :
      (a : Action) (s t : Program) → Reachable s → Allowed a s → step a s ≡ some t → Reachable t

Reachable-Owned : (s : Program) → Reachable s → Owned s
Reachable-Owned _ start = record {
  obj = λ q. 0;
  owner = λ a. 0;
  shares = record {
    counts = record {
      live = λ q k. refl;
      count = λ q k l. absurd (omega (arith, l));
      small = λ q k. omega arith;
    };
    objects = λ q k l. absurd (omega (arith, l));
    owned = λ a k. cc;
  };
  good = tt;
}
Reachable-Owned _ (then_step a s t r k e) =
    let (t', e', owned) = step-Owned s (Reachable-Owned s r) a k in
    subst Owned (some-injective (sym e' ∙ e)) owned

-- In every state that a program can reach with shared pointers, naming those that there are, fewer
-- than 2 ^ 31, and with `new` giving addresses at which nothing is: a counter is there exactly while a
-- pointer has it, with the number of those as its value, its pointers have one object, which is there
-- and no other counter's, and there is no object besides. And each further action that is so allowed
-- can be done: nothing is used or deleted that is not there.
pub Reachable-safe :
    (s : Program)
    → Reachable s
    → Owned s × ((a : Action) → Allowed a s → (t : Program) × (step a s ≡ some t))
Reachable-safe s r =
    let owned = Reachable-Owned s r in
    (owned, λ a k. let (t, e, _) = step-Owned s owned a k in (t, e))
