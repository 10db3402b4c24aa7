-- ===== src/Keyed/Tests.antt =====
-- Tables that meet the laws of `AvlRoutines`: sorted lists, where the restart key is the number of the
-- elements that were met. Keys that are numbers.
use kl.Base.{
  ℕ, ◌+◌, ◌≡◌, refl, sym, ap, ◌∙◌, Bool, true, false, Option, none, some, List, [], ◌∷◌, ◌++◌,
  length, length-append, get_elem?, arith, if◌then◌else◌, ◌==◌, ltb,
}
use kl.Links.{Absent}
use kl.Uint64Table.Avl.{Compared, generic_less_than, generic_greater_than, generic_equal}
use kl.Keyed.Avl.{Compare, Between, AvlRoutines}
use kl.Keyed.Sorted.{IsOrder}
use kl.Keyed.{KeyType}

abbrev step : {A : Type 0} → Option Compared → Option A → Option A → Option A → Option A
step none equal less greater = none
step (some generic_equal) equal less greater = equal
step (some generic_less_than) equal less greater = less
step (some generic_greater_than) equal less greater = greater

abbrev lookup_list : Compare → List ℕ → ℕ → Option (Option ℕ)
lookup_list cmp [] v = some none
lookup_list cmp (x ∷ xs) v =
    let rest = lookup_list cmp xs v in step (cmp v x) (some (some x)) (some none) rest

abbrev add_front : ℕ → Option (Option ℕ × Bool × List ℕ) → Option (Option ℕ × Bool × List ℕ)
add_front x none = none
add_front x (some r) = some (r.0, r.1, x ∷ r.2)

abbrev new_element : Bool → ℕ → List ℕ → Option (Option ℕ × Bool × List ℕ)
new_element true v xs = some (some v, true, v ∷ xs)
new_element false v xs = some (none, false, xs)

abbrev insert_list : Bool → Compare → List ℕ → ℕ → Option (Option ℕ × Bool × List ℕ)
insert_list got cmp [] v = new_element got v []
insert_list got cmp (x ∷ xs) v =
    let rest = insert_list got cmp xs v in
    step (cmp v x) (some (some x, false, x ∷ xs)) (new_element got v (x ∷ xs)) (add_front x rest)

abbrev keep_front : ℕ → Option (Bool × List ℕ) → Option (Bool × List ℕ)
keep_front x none = none
keep_front x (some r) = some (r.0, x ∷ r.1)

abbrev delete_list : Compare → List ℕ → ℕ → Option (Bool × List ℕ)
delete_list cmp [] v = some (false, [])
delete_list cmp (x ∷ xs) v =
    let rest = delete_list cmp xs v in
    step (cmp v x) (some (true, xs)) (some (false, x ∷ xs)) (keep_front x rest)

abbrev set_list : List ℕ → ℕ → ℕ → List ℕ
set_list [] a b = []
set_list (x ∷ xs) a b = let rest = set_list xs a b in if x == a then b ∷ xs else x ∷ rest

module _ (cmp : Compare) (v : ℕ) where
  pub lookup_present :
      (y : ℕ) (ls rs : List ℕ)
      → Between cmp v ls rs
      → cmp v y ≡ some generic_equal
      → lookup_list cmp (ls ++ y ∷ rs) v ≡ some (some y)
  lookup_present y [] rs b e = rw e refl
  lookup_present y (l ∷ ls) rs b e = rw b.0.0 (lookup_present y ls rs (b.0.1, b.1) e)

  pub lookup_absent :
      (ls rs : List ℕ) → Between cmp v ls rs → lookup_list cmp (ls ++ rs) v ≡ some none
  lookup_absent [] [] b = refl
  lookup_absent [] (r ∷ rs) b = rw b.1.0 refl
  lookup_absent (l ∷ ls) rs b = rw b.0.0 (lookup_absent ls rs (b.0.1, b.1))

  pub insert_old :
      (got : Bool) (y : ℕ) (ls rs : List ℕ)
      → Between cmp v ls rs
      → cmp v y ≡ some generic_equal
      → insert_list got cmp (ls ++ y ∷ rs) v ≡ some (some y, false, ls ++ y ∷ rs)
  insert_old got y [] rs b e = rw e refl
  insert_old got y (l ∷ ls) rs b e = rw (b.0.0, insert_old got y ls rs (b.0.1, b.1) e) refl

  pub insert_no_block :
      (ls rs : List ℕ)
      → Between cmp v ls rs
      → insert_list false cmp (ls ++ rs) v ≡ some (none, false, ls ++ rs)
  insert_no_block [] [] b = refl
  insert_no_block [] (r ∷ rs) b = rw b.1.0 refl
  insert_no_block (l ∷ ls) rs b = rw (b.0.0, insert_no_block ls rs (b.0.1, b.1)) refl

  pub insert_new :
      (ls rs : List ℕ)
      → Between cmp v ls rs
      → insert_list true cmp (ls ++ rs) v ≡ some (some v, true, ls ++ v ∷ rs)
  insert_new [] [] b = refl
  insert_new [] (r ∷ rs) b = rw b.1.0 refl
  insert_new (l ∷ ls) rs b = rw (b.0.0, insert_new ls rs (b.0.1, b.1)) refl

  pub delete_present :
      (y : ℕ) (ls rs : List ℕ)
      → Between cmp v ls rs
      → cmp v y ≡ some generic_equal
      → delete_list cmp (ls ++ y ∷ rs) v ≡ some (true, ls ++ rs)
  delete_present y [] rs b e = rw e refl
  delete_present y (l ∷ ls) rs b e = rw (b.0.0, delete_present y ls rs (b.0.1, b.1) e) refl

  pub delete_absent :
      (ls rs : List ℕ) → Between cmp v ls rs → delete_list cmp (ls ++ rs) v ≡ some (false, ls ++ rs)
  delete_absent [] [] b = refl
  delete_absent [] (r ∷ rs) b = rw b.1.0 refl
  delete_absent (l ∷ ls) rs b = rw (b.0.0, delete_absent ls rs (b.0.1, b.1)) refl

  pub delete_fault :
      (y : ℕ) (ls rs : List ℕ)
      → Between cmp v ls rs
      → cmp v y ≡ none
      → delete_list cmp (ls ++ y ∷ rs) v ≡ none
  delete_fault y [] rs b e = rw e refl
  delete_fault y (l ∷ ls) rs b e = rw (b.0.0, delete_fault y ls rs (b.0.1, b.1) e) refl

pub set_list_lem :
    (a b : ℕ) (ls rs : List ℕ) → Absent a ls → set_list (ls ++ a ∷ rs) a b ≡ ls ++ b ∷ rs
set_list_lem a b [] rs n = ground arith
set_list_lem a b (l ∷ ls) rs n = ground (arith, n.0, set_list_lem a b ls rs n.1)

pub get_elem?-middle : (p : ℕ) (ls rs : List ℕ) → get_elem? (ls ++ p ∷ rs) (length ls) ≡ some p
get_elem?-middle p [] rs = refl
get_elem?-middle p (l ∷ ls) rs = get_elem?-middle p ls rs

pub get_elem?-length : (xs : List ℕ) → get_elem? xs (length xs) ≡ none
get_elem?-length [] = refl
get_elem?-length (x ∷ xs) = get_elem?-length xs

abbrev pub lists : AvlRoutines (List ℕ)
lists = record {
  elements = λ t. t;
  initialize_table = [];
  lookup_element = λ cmp t v. lookup_list cmp t v;
  insert_element = λ got cmp t v. insert_list got cmp t v;
  delete_element = λ cmp t v. delete_list cmp t v;
  set_item = λ t a b. set_list t a b;
  number_elements = λ t. length t;
  is_table_empty = λ t. length t == 0;
  enumerate_without_splaying = λ t h. (get_elem? t h, if ltb h (length t) then h + 1 else h);
  restart_key = λ t i. i;
  initialize_lem = refl;
  number_lem = λ t. refl;
  is_empty_lem = λ t. refl;
  set_item_lem = λ t a b ls rs e n. ap (λ x. set_list x a b) e ∙ set_list_lem a b ls rs n;
  lookup_present =
      λ cmp t v y ls rs e b q. ap (λ x. lookup_list cmp x v) e ∙ lookup_present cmp v y ls rs b q;
  lookup_absent =
      λ cmp t v ls rs e b. ap (λ x. lookup_list cmp x v) e ∙ lookup_absent cmp v ls rs b;
  insert_old = λ got cmp t v y ls rs e b q.
      ap (λ x. insert_list got cmp x v) e
      ∙ insert_old cmp v got y ls rs b q
      ∙ ap (λ x. some (some y, false, x)) (sym e);
  insert_no_block = λ cmp t v ls rs e b.
      ap (λ x. insert_list false cmp x v) e
      ∙ insert_no_block cmp v ls rs b
      ∙ ap (λ x. some (none, false, x)) (sym e);
  insert_new = λ cmp t v ls rs e b.
      (ls ++ v ∷ rs, ap (λ x. insert_list true cmp x v) e ∙ insert_new cmp v ls rs b, refl);
  delete_present = λ cmp t v y ls rs e b q.
      (ls ++ rs, ap (λ x. delete_list cmp x v) e ∙ delete_present cmp v y ls rs b q, refl);
  delete_absent = λ cmp t v ls rs e b.
      ap (λ x. delete_list cmp x v) e
      ∙ delete_absent cmp v ls rs b
      ∙ ap (λ x. some (false, x)) (sym e);
  delete_fault =
      λ cmp t v y ls rs e b q. ap (λ x. delete_list cmp x v) e ∙ delete_fault cmp v y ls rs b q;
  restart_null = λ t. refl;
  restart_address = λ t i l few. omega (arith, l, few);
  enumerate_lem = λ t p ls rs e.
      let inside : ltb (length ls) (length t) ≡ true =
        ground (arith, ap (length {A = ℕ}) e, length-append ls (p ∷ rs)) in
      rw inside (
        ap (λ x. (x, length ls + 1))
          (ap (λ x. get_elem? x (length ls)) e ∙ get_elem?-middle p ls rs));
  enumerate_end = λ t.
      let over : ltb (length t) (length t) ≡ false = ground arith in
      rw over (ap (λ x. (x, length t)) (get_elem?-length t));
}

-- Numbers below 100 are valid, and a copy that gets no memory is 100.
abbrev pub numbers : KeyType ℕ
numbers = record { lt = ltb; check_valid = λ k. ltb k 100; copy = λ got k. if got then k else 100 }

pub numbers-IsOrder : IsOrder numbers
numbers-IsOrder = record {
  irreflexive = λ a. ground arith;
  transitive = λ a b c p q. ground arith;
  total = λ a b p q. ground arith;
  copy_valid = λ got k e. ground arith;
  copy_got = λ k e. refl;
}
