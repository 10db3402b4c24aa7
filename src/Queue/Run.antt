-- ===== src/Queue/Run.antt =====
-- `queue` under any sequence of calls.
use kl.Base.{
  ℕ, ◌<◌, ◌≡◌, ◌≢◌, refl, Bool, true, false, Option, none, some, List, [], ◌∷◌, ◌++◌, length, ◌>>=◌,
}
use kl.Links.{ListRoutines, Absent}
use kl.Items.{Items}
use kl.Items.Holds.{Holds}
use kl.Heads.Swap.{not_empty}
use kl.Queue.{push_back, pop_front, empty, clear}
use kl.Queue.Laws.{
  push_back-Holds, pop_front-Holds, pop_front_empty, push_back-none, push_back-some, clear-Holds,
}

-- A call of `push_back`, with what `new` gives, of `pop_front`, of `empty`, or of `clear` with the fuel
-- of its loop.
pub data Call (A : Type 0) : Type 0 where
  push : Option ℕ → A → Call A
  pop : Call A
  ask : Call A
  drop_all : ℕ → Call A

-- What the calls return.
pub data Answer (A : Type 0) : Type 0 where
  pushed : Bool → Answer A
  popped : A → Answer A
  nothing : Answer A
  is_empty : Bool → Answer A
  cleared : Answer A

module _ {A : Type 0} where
  answer : Bool → A → Answer A
  answer true x = popped x
  answer false x = nothing

  abbrev pub is_nil : List A → Bool
  is_nil [] = true
  is_nil (x ∷ xs) = false

  -- The answers of a plain list that has an element added at its end, unless `new` gave nothing, and
  -- its first taken away.
  unfoldable pub expected : List A → List (Call A) → List (Answer A)
  expected xs [] = []
  expected xs (push none v ∷ calls) = pushed false ∷ expected xs calls
  expected xs (push (some p) v ∷ calls) = pushed true ∷ expected (xs ++ (v ∷ [])) calls
  expected [] (pop ∷ calls) = nothing ∷ expected [] calls
  expected (x ∷ xs) (pop ∷ calls) = popped x ∷ expected xs calls
  expected xs (ask ∷ calls) = is_empty (is_nil xs) ∷ expected xs calls
  expected xs (drop_all n ∷ calls) = cleared ∷ expected [] calls

  -- `new` gives addresses that are in no item of the queue at the call, and `clear` gets more fuel than
  -- it has items then.
  abbrev pub Fresh : ℕ → List ℕ → List (Call A) → Type 0
  Fresh q cells [] = Unit {0}
  Fresh q cells (push none v ∷ calls) = Fresh q cells calls
  Fresh q cells (push (some p) v ∷ calls) =
      Absent p (q ∷ cells) × (0 ≢ p) × Fresh q (cells ++ (p ∷ [])) calls
  Fresh q [] (pop ∷ calls) = Fresh q [] calls
  Fresh q (c ∷ cells) (pop ∷ calls) = Fresh q cells calls
  Fresh q cells (ask ∷ calls) = Fresh q cells calls
  Fresh q cells (drop_all n ∷ calls) = (length cells < n) × Fresh q [] calls

empty_lem :
    (rt : ListRoutines) {A : Type 0} (q : ℕ) (s : Items A) (cells : List ℕ) (xs : List A)
    → Holds s q cells xs
    → empty rt q s ≡ is_nil xs
unfolding empty
empty_lem rt q s [] [] h = (rt.is_list_empty_iff s.links q [] h.ring).1 refl
empty_lem rt q s [] (x ∷ xs) h = absurd h.values
empty_lem rt q s (c ∷ cells) [] h = absurd h.values
empty_lem rt q s (c ∷ cells) (x ∷ xs) h = not_empty rt s.links q c cells h.ring

module _ (rt : ListRoutines) {A : Type 0} (q : ℕ) where
  -- The calls one after another; `v` is the variable that receives elements.
  pub run : A → Items A → List (Call A) → Option (List (Answer A))
  run v s [] = some []
  run v s (push got x ∷ calls) =
      let (s', ok) = push_back rt q got x s in
      (run v s' calls >>= λ answers. some (pushed ok ∷ answers))
  run v s (pop ∷ calls) =
      (pop_front rt q v s >>= λ r. run r.1 r.2 calls >>= λ answers. some (answer r.0 r.1 ∷ answers))
  run v s (ask ∷ calls) = (run v s calls >>= λ answers. some (is_empty (empty rt q s) ∷ answers))
  run v s (drop_all n ∷ calls) =
      (clear rt n q s >>= λ s'. run v s' calls >>= λ answers. some (cleared ∷ answers))

  -- Whatever calls are made of a queue that holds `xs`, where `new` does not give an address that is in
  -- use and `clear` has more fuel than there are items: every loop ends, no call reads an item that is
  -- not there, and the answers are those of the list.
  pub run-expected :
      (v : A) (s : Items A) (cells : List ℕ) (xs : List A) (calls : List (Call A))
      → Holds s q cells xs
      → Fresh q cells calls
      → run v s calls ≡ some (expected xs calls)
  unfolding run expected answer
  run-expected v s cells xs [] h fresh = refl
  run-expected v s cells xs (push none x ∷ calls) h fresh =
      rw (push_back-none rt q x s, run-expected v s cells xs calls h fresh, ◌>>=◌) refl
  run-expected v s cells xs (push (some p) x ∷ calls) h fresh =
      let next = push_back-Holds rt q p x s cells xs h fresh.0 fresh.1 in
      rw (push_back-some rt q p x s, run-expected v _ _ _ calls next fresh.2, ◌>>=◌) refl
  run-expected v s [] [] (pop ∷ calls) h fresh =
      rw (run, pop_front_empty rt q v s h, ◌>>=◌, run-expected v s [] [] calls h fresh, ◌>>=◌) refl
  run-expected v s [] (x ∷ xs) (pop ∷ calls) h fresh = absurd h.values
  run-expected v s (c ∷ cells) [] (pop ∷ calls) h fresh = absurd h.values
  run-expected v s (c ∷ cells) (x ∷ xs) (pop ∷ calls) h fresh =
      let (s', e, next, gone) = pop_front-Holds rt q c v x s cells xs h in
      rw (run, e, ◌>>=◌, run-expected x s' cells xs calls next fresh, ◌>>=◌) refl
  run-expected v s cells xs (ask ∷ calls) h fresh =
      rw (run, run-expected v s cells xs calls h fresh, empty_lem rt q s cells xs h, ◌>>=◌) refl
  run-expected v s cells xs (drop_all n ∷ calls) h fresh =
      let (s', done, next, freed, same) = clear-Holds rt n q s cells xs h fresh.0 in
      rw (run, done, ◌>>=◌, run-expected v s' [] [] calls next fresh.1, ◌>>=◌) refl
