-- ===== src/Stack/Run.antt =====
-- `stack` under any sequence of calls.
use kl.Base.{
  ℕ, zero, suc, ◌<◌, ◌≡◌, ◌≢◌, refl, Bool, true, false, Option, none, some, List, [], ◌∷◌, length,
  arith, ◌==◌, ◌>>=◌,
}
use kl.Links.{Absent}
use kl.Links.Single.{SingleRoutines, Chain}
use kl.Items.Holds.{Values}
use kl.Stack.{Cells, push, pop, empty, begin, visit, clear}
use kl.Stack.Laws.{
  Stacked, push-Stacked, push-none, push-some, pop-Stacked, pop_empty, clear-Stacked,
}

-- A call of `push`, with what `new` gives, of `pop` or of `empty`, a loop over all elements from
-- `begin` to `end`, or a call of `clear`; the last two with the fuel of the loop.
pub data Call (A : Type 0) : Type 0 where
  push_call : Option ℕ → A → Call A
  pop_call : Call A
  empty_call : Call A
  visit_all : ℕ → Call A
  clear_call : ℕ → Call A

pub data Answer (A : Type 0) : Type 0 where
  flag : Bool → Answer A
  popped : A → Answer A
  visited : List A → Answer A
  cleared : Answer A

abbrev answer : {A : Type 0} → Bool → A → Answer A
answer true x = popped x
answer false x = flag false

abbrev is_nil : {A : Type 0} → List A → Bool
is_nil [] = true
is_nil (x ∷ xs) = false

module _ {A : Type 0} where
  -- The answers of a plain list whose front is the top.
  unfoldable pub as_list : List A → List (Call A) → List (Answer A)
  as_list xs [] = []
  as_list xs (push_call none v ∷ calls) = flag false ∷ as_list xs calls
  as_list xs (push_call (some p) v ∷ calls) = flag true ∷ as_list (v ∷ xs) calls
  as_list [] (pop_call ∷ calls) = flag false ∷ as_list [] calls
  as_list (x ∷ xs) (pop_call ∷ calls) = popped x ∷ as_list xs calls
  as_list xs (empty_call ∷ calls) = flag (is_nil xs) ∷ as_list xs calls
  as_list xs (visit_all n ∷ calls) = visited xs ∷ as_list xs calls
  as_list xs (clear_call n ∷ calls) = cleared ∷ as_list [] calls

  -- `new` gives addresses that are in no item of the stack at the call, and the loops get more fuel
  -- than it has items then.
  abbrev pub Fits : ℕ → List ℕ → List (Call A) → Type 0
  Fits head cells [] = Unit {0}
  Fits head cells (push_call none v ∷ calls) = Fits head cells calls
  Fits head cells (push_call (some p) v ∷ calls) =
      Absent p (head ∷ cells) × (p ≢ 0) × Fits head (p ∷ cells) calls
  Fits head [] (pop_call ∷ calls) = Fits head [] calls
  Fits head (c ∷ cells) (pop_call ∷ calls) = Fits head cells calls
  Fits head cells (empty_call ∷ calls) = Fits head cells calls
  Fits head cells (visit_all n ∷ calls) = (length cells < n) × Fits head cells calls
  Fits head cells (clear_call n ∷ calls) = (length cells < n) × Fits head [] calls

  empty_lem :
      (head : ℕ) (s : Cells A) (cells : List ℕ) (xs : List A)
      → Stacked s head cells xs
      → empty head s ≡ is_nil xs
  unfolding empty
  empty_lem head s [] [] h = ground (arith, h.chain)
  empty_lem head s [] (x ∷ xs) h = absurd h.values
  empty_lem head s (c ∷ cells) [] h = absurd h.values
  empty_lem head s (c ∷ cells) (x ∷ xs) h = ground (arith, h.chain.0, h.chain.1)

  visit_lem :
      (fuel p : ℕ) (s : Cells A) (cells : List ℕ) (xs : List A)
      → Chain s.next p cells
      → Values s.value cells xs
      → length cells < fuel
      → visit fuel (s.next p) s ≡ some xs
  unfolding visit
  visit_lem zero p s cells xs c v k = absurd (omega (arith, k))
  visit_lem (suc fuel) p s [] [] c v k = rw c refl
  visit_lem (suc fuel) p s [] (x ∷ xs) c v k = absurd v
  visit_lem (suc fuel) p s (y ∷ cells) [] c v k = absurd v
  visit_lem (suc fuel) p s (y ∷ cells) (x ∷ xs) c v k =
      let real : (y == 0) ≡ false = ground (arith, c.1) in
      let rest = visit_lem fuel y s cells xs c.3 v.1 (omega (arith, k)) in
      rw (c.0, real, v.0, ◌>>=◌, rest) refl

module _ (rt : SingleRoutines) {A : Type 0} (head : ℕ) where
  -- The calls one after another; `v` is the variable that receives elements.
  pub run : A → Cells A → List (Call A) → Option (List (Answer A))
  run v s [] = some []
  run v s (push_call got x ∷ calls) =
      let (s', ok) = push rt head got x s in
      (run v s' calls >>= λ answers. some (flag ok ∷ answers))
  run v s (pop_call ∷ calls) =
      (pop rt head v s >>= λ r. run r.1 r.2 calls >>= λ answers. some (answer r.0 r.1 ∷ answers))
  run v s (empty_call ∷ calls) = (run v s calls >>= λ answers. some (flag (empty head s) ∷ answers))
  run v s (visit_all n ∷ calls) =
      (visit n (begin head s) s >>= λ xs. run v s calls >>= λ answers. some (visited xs ∷ answers))
  run v s (clear_call n ∷ calls) =
      (clear rt n head s >>= λ s'. run v s' calls >>= λ answers. some (cleared ∷ answers))

  -- Whatever calls are made of a stack that holds `xs`, where `new` does not give an address that is in
  -- use and the loops have more fuel than there are items: every loop ends, no call reads an item that
  -- is not there, and the answers are those of the list.
  pub run-as_list :
      (v : A) (s : Cells A) (cells : List ℕ) (xs : List A) (calls : List (Call A))
      → Stacked s head cells xs
      → Fits head cells calls
      → run v s calls ≡ some (as_list xs calls)
  unfolding run as_list begin
  run-as_list v s cells xs [] h fits = refl
  run-as_list v s cells xs (push_call none x ∷ calls) h fits =
      rw (push-none rt head x s, run-as_list v s cells xs calls h fits, ◌>>=◌) refl
  run-as_list v s cells xs (push_call (some p) x ∷ calls) h fits =
      let next = push-Stacked rt head p x s cells xs h fits.0 fits.1 in
      rw (push-some rt head p x s, run-as_list v _ _ _ calls next fits.2, ◌>>=◌) refl
  run-as_list v s [] [] (pop_call ∷ calls) h fits =
      let (s', e, next) = pop_empty rt head v s h in
      rw (run, e, ◌>>=◌, run-as_list v s' [] [] calls next fits, ◌>>=◌) refl
  run-as_list v s [] (x ∷ xs) (pop_call ∷ calls) h fits = absurd h.values
  run-as_list v s (c ∷ cells) [] (pop_call ∷ calls) h fits = absurd h.values
  run-as_list v s (c ∷ cells) (x ∷ xs) (pop_call ∷ calls) h fits =
      let (s', e, next, gone) = pop-Stacked rt head c v x s cells xs h in
      rw (run, e, ◌>>=◌, run-as_list x s' cells xs calls next fits, ◌>>=◌) refl
  run-as_list v s cells xs (empty_call ∷ calls) h fits =
      rw (run, run-as_list v s cells xs calls h fits, empty_lem head s cells xs h, ◌>>=◌) refl
  run-as_list v s cells xs (visit_all n ∷ calls) h fits =
      rw
        (
          run,
          visit_lem n head s cells xs h.chain h.values fits.0,
          ◌>>=◌,
          run-as_list v s cells xs calls h fits.1,
          ◌>>=◌,
        )
        refl
  run-as_list v s cells xs (clear_call n ∷ calls) h fits =
      let (s', done, next, freed, same) = clear-Stacked rt head n s cells xs h fits.0 in
      rw (run, done, ◌>>=◌, run-as_list v s' [] [] calls next fits.1, ◌>>=◌) refl
