-- ===== src/KeySet/Tests.antt =====
-- A set of numbers in a list: 10 is in the item at 4, and 20 in that at 5. One holder has the item at 4.
use kl.Base.{ℕ, ◌≡◌, refl, true, false, none, some, inr, List, [], ◌∷◌, arith, if◌then◌else◌, ◌==◌}
use kl.Keyed.{TreeItems}
use kl.Keyed.Tests.{lists, numbers, numbers-IsOrder}
use kl.KeySet.{Grants, find, insert}
use kl.KeySet.Laws.{SetKeeps, find-SetKeeps, insert_set_faults}

abbrev two : TreeItems (List ℕ) ℕ
two = record {
  table = 4 ∷ 5 ∷ [];
  value = λ p. if p == 4 then some 10 else if p == 5 then some 20 else none;
  objects = record {
    count = λ p. if p == 4 then 2 else if p == 5 then 1 else 0;
    live = λ p. if p == 4 then true else if p == 5 then true else false;
  };
}

abbrev items : List (ℕ × ℕ)
items = (4, 10) ∷ (5, 20) ∷ []

two-SetKeeps : SetKeeps numbers lists numbers-IsOrder two items (4 ∷ [])
two-SetKeeps = record {
  elements = refl;
  sorted = ((refl, tt), (tt, tt));
  stored = (refl, (refl, tt));
  real = omega arith;
  counts = record {
    live = λ p k. ground arith;
    count = λ p k l. ground arith;
    small = λ p k. ground arith;
  };
}

find-SetKeeps_example :
    (s' : TreeItems (List ℕ) ℕ) × (find numbers lists 9 true 20 two ≡ some (5, false, s'))
    × SetKeeps numbers lists numbers-IsOrder s' items (5 ∷ 4 ∷ [])
find-SetKeeps_example =
    find-SetKeeps numbers lists numbers-IsOrder 9 20 two items (4 ∷ []) two-SetKeeps (omega arith)
      true refl (omega arith)

-- The item gets a block, and its copy of the key does not.
abbrev no_key : Grants
no_key = record { temp_key = true; node = true; item = some 6; item_key = false }

insert_set_faults_example : insert numbers lists 9 no_key 15 two ≡ none
insert_set_faults_example =
    insert_set_faults numbers lists numbers-IsOrder 9 15 two items (4 ∷ []) two-SetKeeps
      (omega arith) no_key refl refl refl (inr refl) (λ p e. ground arith)
