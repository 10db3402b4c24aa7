-- ===== src/KeyMap/Tests.antt =====
-- A map of numbers in a list: 10 is in the item at 4 with the value 71, and 20 in that at 5 with 72.
-- One holder has the item at 4. A copy of a value that gets no memory is 0.
use kl.Base.{
  ℕ, ◌≡◌, refl, Bool, true, false, Option, none, some, inl, List, [], ◌∷◌, arith, if◌then◌else◌,
  ◌==◌,
}
use kl.Keyed.{TreeItems, for_each}
use kl.Keyed.Loop.{for_each-contents}
use kl.Keyed.Insert.{Next}
use kl.Keyed.Tests.{lists, numbers, numbers-IsOrder}
use kl.KeyMap.{Grants, first, find, insert, remove}
use kl.KeyMap.Laws.{MapKeeps, map_at, map_same, remove-MapKeeps, insert-MapKeeps, insert_faults}
use kl.KeyMap.RoundTrip.{find-insert, remove-insert}

abbrev copy_number : Bool → ℕ → ℕ
copy_number got v = if got then v else 0

abbrev two : TreeItems (List ℕ) (ℕ × ℕ)
two = record {
  table = 4 ∷ 5 ∷ [];
  value = λ p. if p == 4 then some (10, 71) else if p == 5 then some (20, 72) else none;
  objects = record {
    count = λ p. if p == 4 then 2 else if p == 5 then 1 else 0;
    live = λ p. if p == 4 then true else if p == 5 then true else false;
  };
}

abbrev items : List (ℕ × (ℕ × ℕ))
items = (4, (10, 71)) ∷ (5, (20, 72)) ∷ []

two-Keeps : MapKeeps numbers copy_number lists numbers-IsOrder two items (4 ∷ [])
two-Keeps = record {
  elements = refl;
  sorted = ((refl, tt), (tt, tt));
  stored = (refl, (refl, tt));
  real = omega arith;
  counts = record {
    live = λ p k. ground arith;
    count = λ p k l. ground arith;
    small = λ p k. ground arith;
  };
}

-- All the memory that `insert` asks for, where `item` is what `new` gives.
abbrev all : Option ℕ → Grants
all item = record { temp_key = true; node = true; item = item; item_key = true; item_value = true }

insert-MapKeeps_example :
    (s' : TreeItems (List ℕ) (ℕ × ℕ)) × (es' : List (ℕ × (ℕ × ℕ))) × (insert numbers copy_number
        lists 9
        (all (some 6))
        15
        90
        two
      ≡ some (6, true, s'))
    × MapKeeps numbers copy_number lists numbers-IsOrder s' es' (6 ∷ 4 ∷ [])
    × ((j : ℕ)
        → map_at numbers copy_number lists numbers-IsOrder j es' ≡ (
            if map_same numbers copy_number lists numbers-IsOrder j 15
            then some (6, (15, 90))
            else map_at numbers copy_number lists numbers-IsOrder j items))
    × Next numbers lists (first numbers copy_number lists) 6 items es'
insert-MapKeeps_example =
    insert-MapKeeps numbers copy_number lists numbers-IsOrder 9 15 two items (4 ∷ []) two-Keeps
      (omega arith) (all (some 6)) 90 refl 6 refl refl (omega arith) refl (omega arith)

insert_faults_example : insert numbers copy_number lists 9 (all none) 15 90 two ≡ none
insert_faults_example =
    insert_faults numbers copy_number lists numbers-IsOrder 9 15 two items (4 ∷ []) two-Keeps
      (omega arith) (all none) 90 refl refl refl (inl refl) (λ p e. absurd (ground arith))

remove-MapKeeps_example :
    (s' : TreeItems (List ℕ) (ℕ × ℕ)) × (es' : List (ℕ × (ℕ × ℕ))) × (remove numbers copy_number
        lists 9 true 20 two
      ≡ some (5, true, s'))
    × MapKeeps numbers copy_number lists numbers-IsOrder s' es' (5 ∷ 4 ∷ [])
    × ((j : ℕ)
        → map_at numbers copy_number lists numbers-IsOrder j es' ≡ (
            if map_same numbers copy_number lists numbers-IsOrder j 20
            then none
            else map_at numbers copy_number lists numbers-IsOrder j items))
remove-MapKeeps_example =
    remove-MapKeeps numbers copy_number lists numbers-IsOrder 9 20 two items (4 ∷ []) two-Keeps
      (omega arith) true refl (omega arith)

find-insert_example :
    (s1 : TreeItems (List ℕ) (ℕ × ℕ)) × (s2 : TreeItems (List ℕ) (ℕ × ℕ)) × (insert numbers
        copy_number lists 9
        (all (some 6))
        15
        90
        two
      ≡ some (6, true, s1))
    × (find numbers copy_number lists 8 true 15 s1 ≡ some (6, true, s2))
    × (s2.value 6 ≡ some (15, 90))
find-insert_example =
    find-insert numbers copy_number lists numbers-IsOrder 9 15 two items (4 ∷ []) two-Keeps
      (omega arith) (all (some 6)) 90 6 8 refl (refl, refl, refl, refl) (omega arith) refl refl
      (omega arith) (omega arith) (omega arith)

remove-insert_example :
    (s1 : TreeItems (List ℕ) (ℕ × ℕ)) × (s2 : TreeItems (List ℕ) (ℕ × ℕ)) × (es2 : List
      (ℕ × (ℕ × ℕ)))
    × (insert numbers copy_number lists 9 (all (some 6)) 15 90 two ≡ some (6, true, s1))
    × (remove numbers copy_number lists 8 true 15 s1 ≡ some (6, true, s2))
    × MapKeeps numbers copy_number lists numbers-IsOrder s2 es2 (6 ∷ 6 ∷ 4 ∷ [])
    × ((j : ℕ)
        → map_at numbers copy_number lists numbers-IsOrder j es2
          ≡ map_at numbers copy_number lists numbers-IsOrder j items)
remove-insert_example =
    remove-insert numbers copy_number lists numbers-IsOrder 9 15 two items (4 ∷ []) two-Keeps
      (omega arith) (all (some 6)) 90 6 8 refl (refl, refl, refl, refl) (omega arith) refl refl
      (omega arith) (omega arith) (omega arith)

for_each-contents_example :
    (s' : TreeItems (List ℕ) (ℕ × ℕ)) × (for_each lists 3 two ≡ some ((10, 71) ∷ (20, 72) ∷ [], s'))
    × MapKeeps numbers copy_number lists numbers-IsOrder s' items (4 ∷ [])
    × (s'.table ≡ 4 ∷ 5 ∷ [])
for_each-contents_example =
    for_each-contents numbers lists (first numbers copy_number lists) 3 two items (4 ∷ []) two-Keeps
      (omega arith) (omega arith)
