-- ===== src/Variant/Tests.antt =====
-- Variants of the types 3, 5 and 8, whose values are numbers. What moving leaves of a number is 0.
use kl.Base.{ℕ, ◌≡◌, refl, true, false, none, some, List, [], ◌∷◌, arith, if◌then◌else◌}
use kl.Variant.{
  Variant, got, get, to, visit, construct_value, assign, assign_self, assign_move, assign_move_self,
  construct_copy, construct_move, destruct,
}
use kl.Variant.Types.{
  AtMost, Mem, contains, index, get_left_size, index_type, integer_max, integer_max-Mem,
  index-index_type,
}
use kl.Variant.Change.{
  assign-copies, assign_move-moves, assign_self_faults, get-assign, visit-index,
}

abbrev types : List ℕ
types = 3 ∷ 5 ∷ 8 ∷ []

abbrev moved_from : ℕ → ℕ → ℕ
moved_from t x = 0

abbrev five : Variant ℕ
five = record { type_index = 5; m_data = some (5, 70) }

abbrev eight : Variant ℕ
eight = record { type_index = 8; m_data = some (8, 90) }

integer_max-Mem_example :
    AtMost (integer_max 4 (9 ∷ 2 ∷ [])) (4 ∷ 9 ∷ 2 ∷ [])
    × Mem (integer_max 4 (9 ∷ 2 ∷ [])) (4 ∷ 9 ∷ 2 ∷ [])
integer_max-Mem_example = integer_max-Mem 4 (9 ∷ 2 ∷ [])

index-index_type_example :
    (index_type (index 5 types) types ≡ (if contains 5 types then some 5 else none))
    × (contains 5 (3 ∷ []) ≡ false)
    × (true ≡ contains 5 types)
unfolding contains index get_left_size
index-index_type_example = index-index_type 5 types (omega arith)

assign-copies_example :
    (assign moved_from types five eight ≡ some eight)
    × (construct_copy moved_from types eight ≡ some eight)
    × (destruct moved_from types eight ≡ some none)
unfolding contains
assign-copies_example = assign-copies moved_from types refl five eight (refl, refl) (refl, refl)

assign_move-moves_example :
    (assign_move moved_from types five eight
      ≡ some (eight, record { type_index = 8; m_data = some (8, 0) }))
    × (construct_move moved_from types eight
        ≡ some (eight, record { type_index = 8; m_data = some (8, 0) }))
    × (destruct moved_from types (record { type_index = 8; m_data = some (8, 0) }) ≡ some none)
unfolding contains
assign_move-moves_example =
    assign_move-moves moved_from types refl five eight (refl, refl) (refl, refl)

assign_self_faults_example :
    (assign_self moved_from types five ≡ none) × (assign_move_self moved_from types five ≡ none)
unfolding contains
assign_self_faults_example = assign_self_faults moved_from types refl five 5 70 (refl, refl) refl

get-assign_example :
    (v' : Variant ℕ) × (assign moved_from types five (construct_value 3 40) ≡ some v')
    × (get 3 v' ≡ some (got 40))
    × (to 3 1 v' ≡ some (40, true))
unfolding contains
get-assign_example = get-assign moved_from types refl five 3 3 40 1 (refl, refl) refl

visit-index_example :
    visit {V = ℕ} 0 (3 ∷ 8 ∷ []) (construct_value 8 90)
    ≡ some (if contains 8 (3 ∷ 8 ∷ []) then some (index 8 (3 ∷ 8 ∷ []), 90) else none)
visit-index_example = visit-index 8 (3 ∷ 8 ∷ []) 90 (omega arith)
