-- ===== src/Uint64Table/Tests.antt =====
-- Tables that meet the laws of `AvlRoutines`: lists without a number twice.
use kl.Base.{
  ℕ, ◌+◌, ◌≡◌, refl, ap, Bool, Bool-cases, inl, inr, true, false, not, ◌&&◌, ◌||◌, Option, none,
  some, List, [], ◌∷◌, length, arith, if◌then◌else◌, ◌==◌,
}
use kl.Uint64Table.Avl.{AvlRoutines}
use kl.Uint64Table.{construct, ir_ok, ir_existed, ir_error}
use kl.Uint64Table.Run.{
  Call, insert_call, remove_call, find_call, count_call, empty_call, inserted, removed, found,
  counted, is_empty, expected, run, run-expected_set,
}

abbrev mem : ℕ → List ℕ → Bool
mem v [] = false
mem v (x ∷ xs) = v == x || mem v xs

abbrev is_set : List ℕ → Bool
is_set [] = true
is_set (x ∷ xs) = not (mem x xs) && is_set xs

abbrev erase : ℕ → List ℕ → List ℕ
erase v [] = []
erase v (x ∷ xs) = if v == x then xs else x ∷ erase v xs

mem-erase :
    (w v : ℕ) (xs : List ℕ) → is_set xs ≡ true → mem w (erase v xs) ≡ (not (w == v) && mem w xs)
mem-erase w v [] h = ground arith
mem-erase w v (x ∷ xs) h = elim (Bool-cases (v == x)) [
  | inl same ↦ rw same (elim (Bool-cases (w == v)) [
    | inl e ↦ let here : w ≡ x = ground arith in ground (arith, ap (λ t. mem t xs) here)
    | inr n ↦ ground arith
  ])
  | inr other ↦ rw other (ground (arith, mem-erase w v xs))
]

length-erase : (v : ℕ) (xs : List ℕ) → mem v xs ≡ true → length (erase v xs) + 1 ≡ length xs
length-erase v [] h = cc
length-erase v (x ∷ xs) h = elim (Bool-cases (v == x)) [
  | inl same ↦ rw same (omega arith)
  | inr other ↦
      rw other (let k : mem v xs ≡ true = ground arith in omega (arith, length-erase v xs k))
]

is_set-erase : (v : ℕ) (xs : List ℕ) → is_set xs ≡ true → is_set (erase v xs) ≡ true
is_set-erase v [] h = refl
is_set-erase v (x ∷ xs) h = elim (Bool-cases (v == x)) [
  | inl same ↦ rw same (ground arith)
  | inr other ↦
      let rest : is_set xs ≡ true = ground arith in
      rw other (ground (arith, is_set-erase v xs rest, mem-erase x v xs rest))
]

abbrev insert_list : Bool → List ℕ → ℕ → Option ℕ × Bool × List ℕ
insert_list got xs v =
    if mem v xs
    then (some v, false, xs)
    else if got
    then (some v, true, v ∷ xs)
    else (none, false, xs)

abbrev delete_list : List ℕ → ℕ → Bool × List ℕ
delete_list xs v = if mem v xs then (true, erase v xs) else (false, xs)

abbrev lists : AvlRoutines (List ℕ)
lists = record {
  initialize_table = λ compare. [];
  lookup_element = λ xs v. if mem v xs then some v else none;
  insert_element = insert_list;
  delete_element = delete_list;
  number_elements = length;
  is_table_empty = λ xs. length xs == 0;
  member = λ xs v. mem v xs;
  ordered = is_set;
  initialize_lem = λ compare o. (refl, λ v. refl, refl);
  lookup_lem = λ t v o. refl;
  insert_old = λ got t v o m. rw m refl;
  insert_no_block = λ t v o m. rw m refl;
  insert_new = λ t v o m. (v ∷ t, rw m refl, rw (m, o) refl, λ w. refl, omega arith);
  delete_absent = λ t v o m. rw m refl;
  delete_present = λ t v o m.
      (erase v t, rw m refl, is_set-erase v t o, λ w. mem-erase w v t o, length-erase v t m);
  is_empty_lem = λ t o. refl;
}

abbrev calls : List Call
calls =
    insert_call true 5
    ∷ insert_call true 7
    ∷ insert_call true 5
    ∷ insert_call false 9
    ∷ count_call
    ∷ remove_call 5
    ∷ find_call 5
    ∷ find_call 7
    ∷ remove_call 5
    ∷ empty_call
    ∷ []

run-expected_set_example :
    run lists (construct lists) calls ≡ expected (record { has = λ v. false; size = 0 }) calls
run-expected_set_example = run-expected_set lists calls

expected-calls_set :
    expected (record { has = λ v. false; size = 0 }) calls
    ≡ inserted ir_ok
      ∷ inserted ir_ok
      ∷ inserted ir_existed
      ∷ inserted ir_error
      ∷ counted 2
      ∷ removed true
      ∷ found none
      ∷ found (some 7)
      ∷ removed false
      ∷ is_empty false
      ∷ []
unfolding expected
expected-calls_set = refl
