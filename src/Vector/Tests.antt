-- ===== src/Vector/Tests.antt =====
-- skl/vector.hpp: runs at concrete inputs, and the theorems at them.
use kl.Base.{ℕ, ◌*◌, ◌/◌, ◌≡◌, ◌∙◌, ap, sym, Option, some, List, [], ◌∷◌, arith}
use kl.Base.{length, replicate, length-replicate, some-injective, mul32}
use kl.Vector.{larger, Vector, next_capacity, insert, insert_range, own, outside_range}
use kl.Vector.Inv.{IsValid, IsPool}
use kl.Vector.Insert.{Inserted, insert-Inserted}
use kl.Vector.Range.{Ranged, insert_range-splices}
use kl.Vector.Append.{Copied}
use kl.Vector.Walk.{for_each, for_each-items}
use kl.Vector.Transfer.{assign, assign-Copied}

-- The elements 5 and 6 in a block of three.
abbrev two : Vector ℕ
two = record { cells = some (5 ∷ 6 ∷ 0 ∷ []); capacity = 3; size = 2 }

two-IsValid : IsValid two
two-IsValid = record { filled = omega arith; inside = omega arith; word = omega arith }

-- A pool that gives zeroed blocks for elements of four bytes.
zeroed : ℕ → Option (List ℕ)
zeroed bytes = some (replicate (bytes / 4) 0)

zeroed-IsPool : IsPool zeroed 4
unfolding zeroed
zeroed-IsPool n b small e =
    ap length (sym (some-injective e)) ∙ length-replicate (n * 4 / 4) 0 ∙ omega arith

insert-Inserted_example : Inserted two zeroed 4 (own 1) 0 (insert zeroed 4 two 0 (own 1))
insert-Inserted_example =
    insert-Inserted zeroed 4 two zeroed-IsPool two-IsValid (omega arith) (λ full. omega arith)
      (own 1) (λ i e. ground arith) 0 (omega arith)

insert_range-splices_example :
    Ranged two
      (outside_range (8 ∷ 9 ∷ []))
      1
      (zeroed (larger 4 (next_capacity 3) * 4))
      (insert_range zeroed 4 two 1 (outside_range (8 ∷ 9 ∷ [])))
insert_range-splices_example =
    insert_range-splices zeroed 4 zeroed-IsPool two two-IsValid (outside_range (8 ∷ 9 ∷ [])) 1
      (omega arith) (omega arith) (omega arith) (omega arith) (omega arith)

for_each-items_example : for_each two 3 ≡ some (5 ∷ 6 ∷ [])
for_each-items_example = for_each-items two 3 two-IsValid (omega arith)

assign-Copied_example :
    (v' : Vector ℕ) × (assign zeroed 4 two two ≡ some v')
    × IsValid v'
    × Copied two v' (zeroed (mul32 3 4))
assign-Copied_example = assign-Copied zeroed 4 zeroed-IsPool two two-IsValid (omega arith) two
