-- ===== src/Uint64Table/Run.antt =====
-- `Uint64GenericTable` under any sequence of calls is a finite set.
use kl.Base.{
  ℕ, ◌+◌, ◌-◌, ◌≡◌, ◌∙◌, refl, ap, Bool, Bool-cases, inl, inr, true, false, not, ◌&&◌, ◌||◌, Option,
  none, some, List, [], ◌∷◌, arith, if◌then◌else◌, ◌==◌,
}
use kl.Uint64Table.Avl.{IsTotalOrder, AvlRoutines}
use kl.Uint64Table.{
  compare, InsertResult, ir_error, ir_ok, ir_existed, construct, find, count, empty, insert, remove,
}

-- The table's comparison is one that the system can use.
pub compare-IsTotalOrder : IsTotalOrder compare
unfolding compare
compare-IsTotalOrder = record {
  equal_iff = λ a b. (λ e. ground arith, λ e. ground arith);
  opposite = λ a b. (λ e. ground arith, λ e. ground arith);
  transitive = λ a b c p q. ground arith;
}

pub data Call : Type 0 where
  insert_call : Bool → ℕ → Call
  remove_call : ℕ → Call
  find_call : ℕ → Call
  count_call : Call
  empty_call : Call

pub data Answer : Type 0 where
  inserted : InsertResult → Answer
  removed : Bool → Answer
  found : Option ℕ → Answer
  counted : ℕ → Answer
  is_empty : Bool → Answer

-- A set: its members and how many they are.
pub record FinSet : Type 0 where
  pub has : ℕ → Bool
  pub size : ℕ

abbrev add : ℕ → FinSet → FinSet
add v m = record { has = λ w. w == v || m.has w; size = m.size + 1 }

abbrev take_out : ℕ → FinSet → FinSet
take_out v m = record { has = λ w. not (w == v) && m.has w; size = m.size - 1 }

-- The answers of a set. A number that it has is not added again, and one that it has not is added
-- unless there is no room.
unfoldable pub expected : FinSet → List Call → List Answer
expected m [] = []
expected m (insert_call got v ∷ calls) =
    let old = inserted ir_existed ∷ expected m calls in
    let full = inserted ir_error ∷ expected m calls in
    let new = inserted ir_ok ∷ expected (add v m) calls in
    if m.has v then old else if got then new else full
expected m (remove_call v ∷ calls) =
    let gone = removed true ∷ expected (take_out v m) calls in
    let absent = removed false ∷ expected m calls in if m.has v then gone else absent
expected m (find_call v ∷ calls) = found (if m.has v then some v else none) ∷ expected m calls
expected m (count_call ∷ calls) = counted m.size ∷ expected m calls
expected m (empty_call ∷ calls) = is_empty (m.size == 0) ∷ expected m calls

module _ {Table : Type 0} (rt : AvlRoutines Table) where
  pub run : Table → List Call → List Answer
  run t [] = []
  run t (insert_call got v ∷ calls) =
      let (result, t') = insert rt got v t in inserted result ∷ run t' calls
  run t (remove_call v ∷ calls) = let (ok, t') = remove rt v t in removed ok ∷ run t' calls
  run t (find_call v ∷ calls) = found (find rt v t) ∷ run t calls
  run t (count_call ∷ calls) = counted (count rt t) ∷ run t calls
  run t (empty_call ∷ calls) = is_empty (empty rt t) ∷ run t calls

  -- The table has the set's members.
  record Same (t : Table) (m : FinSet) : Type 0 where
    order : rt.ordered t ≡ true
    members : (v : ℕ) → rt.member t v ≡ m.has v
    number : rt.number_elements t ≡ m.size

  run-Same :
      (t : Table) (m : FinSet) (calls : List Call) → Same t m → run t calls ≡ expected m calls
  unfolding run expected insert remove find count empty
  run-Same t m [] s = refl
  run-Same t m (insert_call got v ∷ calls) s = elim (Bool-cases (m.has v)) [
    | inl has ↦
        rw (has, rt.insert_old got t v s.order (s.members v ∙ has))
          (ap (λ a. inserted ir_existed ∷ a) (run-Same t m calls s))
    | inr free ↦ elim (Bool-cases got) [
      | inl room ↦
          let (t', e, o, members, number) = rt.insert_new t v s.order (s.members v ∙ free) in
          let next : Same t' (add v m) = record {
            order = o;
            members = λ w. members w ∙ ap (λ b. w == v || b) (s.members w);
            number = number ∙ ap (λ n. n + 1) s.number;
          } in
          rw (free, room, e) (ap (λ a. inserted ir_ok ∷ a) (run-Same t' (add v m) calls next))
      | inr full ↦
          rw (free, full, rt.insert_no_block t v s.order (s.members v ∙ free))
            (ap (λ a. inserted ir_error ∷ a) (run-Same t m calls s))
    ]
  ]
  run-Same t m (remove_call v ∷ calls) s = elim (Bool-cases (m.has v)) [
    | inl has ↦
        let (t', e, o, members, number) = rt.delete_present t v s.order (s.members v ∙ has) in
        let next : Same t' (take_out v m) = record {
          order = o;
          members = λ w. members w ∙ ap (λ b. not (w == v) && b) (s.members w);
          number = omega (arith, number, s.number);
        } in
        rw (has, e) (ap (λ a. removed true ∷ a) (run-Same t' (take_out v m) calls next))
    | inr free ↦
        rw (free, rt.delete_absent t v s.order (s.members v ∙ free))
          (ap (λ a. removed false ∷ a) (run-Same t m calls s))
  ]
  run-Same t m (find_call v ∷ calls) s =
      rw (rt.lookup_lem t v s.order, s.members v, run-Same t m calls s) refl
  run-Same t m (count_call ∷ calls) s = rw (s.number, run-Same t m calls s) refl
  run-Same t m (empty_call ∷ calls) s =
      rw (rt.is_empty_lem t s.order, s.number, run-Same t m calls s) refl

  -- Whatever calls are made of a new table, it answers as a finite set that is empty at first, for any
  -- outcomes of the allocations.
  pub run-expected_set :
      (calls : List Call)
      → run (construct rt) calls ≡ expected (record { has = λ v. false; size = 0 }) calls
  unfolding construct
  run-expected_set calls =
      let (o, members, number) = rt.initialize_lem compare compare-IsTotalOrder in
      run-Same _ _ calls (record { order = o; members = members; number = number })
