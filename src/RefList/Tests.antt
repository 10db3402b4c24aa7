-- ===== src/RefList/Tests.antt =====
-- Lists of numbers at addresses 1 and 2, with links as the routines of `Links.Tests` make them. The
-- list at 1 has 50 and 60 in the items at 4 and 5, and one holder has the item at 4; the list at 2
-- has 70 in the item at 6.
use kl.Base.{ℕ, ◌≡◌, refl, Bool, true, false, none, some, [], ◌∷◌, arith, if◌then◌else◌, ◌==◌}
use kl.Links.{Links}
use kl.Links.Tests.{plain}
use kl.RefList.{RefItems, push_back, remove, for_each}
use kl.RefList.Keeps.{Keeps}
use kl.RefList.Ends.{push_back-Keeps}
use kl.RefList.Whole.{remove-Keeps}
use kl.RefList.Loop.{for_each-Keeps}

abbrev cells : Links
cells = record {
  flink = λ p.
      if p == 1
      then 4
      else if p == 4
      then 5
      else if p == 5
      then 1
      else if p == 2
      then 6
      else if p == 6
      then 2
      else 0;
  blink = λ p.
      if p == 1
      then 5
      else if p == 4
      then 1
      else if p == 5
      then 4
      else if p == 2
      then 6
      else if p == 6
      then 2
      else 0;
}

abbrev lists : RefItems ℕ
lists = record {
  links = cells;
  value =
      λ p. if p == 4 then some 50 else if p == 5 then some 60 else if p == 6 then some 70 else none;
  objects = record {
    count = λ p. if p == 4 then 2 else if p == 5 then 1 else if p == 6 then 1 else 0;
    live = λ p. if p == 4 then true else if p == 5 then true else if p == 6 then true else false;
  };
}

lists-Keeps : Keeps lists 1 (4 ∷ 5 ∷ []) (50 ∷ 60 ∷ []) (6 ∷ 4 ∷ [])
lists-Keeps = record {
  ring = record {
    inner = (refl, refl, (refl, refl, tt));
    forward = refl;
    backward = refl;
    distinct = omega arith;
  };
  values = (refl, (refl, tt));
  alive = omega arith;
  counts = record {
    live = λ p k. ground arith;
    count = λ p k l. ground arith;
    small = λ p k. ground arith;
  };
}

other-Keeps : Keeps lists 2 (6 ∷ []) (70 ∷ []) (4 ∷ 5 ∷ 4 ∷ [])
other-Keeps = record {
  ring = record {
    inner = (refl, refl, tt);
    forward = refl;
    backward = refl;
    distinct = omega arith;
  };
  values = (refl, tt);
  alive = omega arith;
  counts = record {
    live = λ p k. ground arith;
    count = λ p k l. ground arith;
    small = λ p k. ground arith;
  };
}

abbrev any : ℕ → Bool
any v = true

push_back-Keeps_example :
    (s' : RefItems ℕ) × (push_back plain any 1 (some 7) 80 lists ≡ some (7, s'))
    × Keeps s' 1 (4 ∷ 5 ∷ 7 ∷ []) (50 ∷ 60 ∷ 80 ∷ []) (7 ∷ 6 ∷ 4 ∷ [])
push_back-Keeps_example =
    push_back-Keeps plain any lists 1 7 80 (4 ∷ 5 ∷ []) (50 ∷ 60 ∷ []) (6 ∷ 4 ∷ []) lists-Keeps
      (omega arith) refl (omega arith) refl

remove-Keeps_example :
    (s' : RefItems ℕ) × (remove 5 lists ≡ some (true, s'))
    × Keeps s' 1 (4 ∷ []) (50 ∷ []) (6 ∷ 4 ∷ [])
    × (s'.links.flink 5 ≡ 0)
    × (s'.links.blink 5 ≡ 0)
remove-Keeps_example =
    remove-Keeps lists 1 5 (4 ∷ []) [] 60 (50 ∷ []) [] (6 ∷ 4 ∷ []) (omega arith) lists-Keeps refl

for_each-Keeps_example :
    (s' : RefItems ℕ) × (for_each 3 1 lists ≡ some (50 ∷ 60 ∷ [], s'))
    × Keeps s' 1 (4 ∷ 5 ∷ []) (50 ∷ 60 ∷ []) (6 ∷ 4 ∷ [])
for_each-Keeps_example =
    for_each-Keeps 3 1 lists (4 ∷ 5 ∷ []) (50 ∷ 60 ∷ []) (6 ∷ 4 ∷ []) lists-Keeps (omega arith)
      (omega arith)
