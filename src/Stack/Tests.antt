-- ===== src/Stack/Tests.antt =====
-- Routines that meet the laws of `SingleRoutines`, and a stack of numbers at address 1.
use kl.Base.{
  ℕ, ◌≡◌, ◌≢◌, refl, sym, subst, true, false, none, some, List, [], ◌∷◌, arith, if◌then◌else◌, ◌==◌,
}
use kl.Links.{update, Absent}
use kl.Links.Single.{SingleRoutines, Chain}
use kl.Stack.{Cells, construct}
use kl.Stack.Laws.{Stacked}
use kl.Stack.Run.{
  Call, push_call, pop_call, empty_call, visit_all, clear_call, flag, popped, visited, cleared, run,
  as_list, run-as_list,
}

abbrev push_entry : (ℕ → ℕ) → ℕ → ℕ → ℕ → ℕ
push_entry next head e = update (update next e (next head)) head e

abbrev pop_entry : (ℕ → ℕ) → ℕ → ℕ × (ℕ → ℕ)
pop_entry next head =
    let first = next head in (first, if first == 0 then next else update next head (next first))

Chain-update :
    (next : ℕ → ℕ) (p q v : ℕ) (xs : List ℕ)
    → Chain next p xs
    → q ≢ p
    → Absent q xs
    → Chain (update next q v) p xs
Chain-update next p q v [] c n a = ground arith
Chain-update next p q v (x ∷ xs) c n a =
    (ground (arith, c.0), c.1, c.2, Chain-update next x q v xs c.3 a.0 a.1)

push_entry-Chain :
    (next : ℕ → ℕ) (head e : ℕ) (xs : List ℕ)
    → Chain next head xs
    → Absent head xs
    → Absent e (head ∷ xs)
    → e ≢ 0
    → Chain (push_entry next head e) head (e ∷ xs)
push_entry-Chain next head e [] c a fresh real =
    (ground arith, real, tt, ground (arith, c, fresh.0))
push_entry-Chain next head e (x ∷ xs) c a fresh real = (
  ground arith,
  real,
  fresh.1,
  (
    ground (arith, c.0, fresh.0),
    c.1,
    c.2,
    Chain-update (update next e (next head)) x head e xs
        (Chain-update next x e (next head) xs c.3 fresh.1.0 fresh.1.1) a.0 a.1,
  ),
)

pop_entry-Chain :
    (next : ℕ → ℕ) (head x : ℕ) (xs : List ℕ)
    → Chain next head (x ∷ xs)
    → Absent head (x ∷ xs)
    → ((pop_entry next head).0 ≡ x) × Chain (pop_entry next head).1 head xs
pop_entry-Chain next head x [] c a =
    let real : (next head == 0) ≡ false = ground (arith, c.0, c.1) in
    (c.0, rw real (ground (arith, c.0, c.3)))
pop_entry-Chain next head x (y ∷ ys) c a =
    let real : (next head == 0) ≡ false = ground (arith, c.0, c.1) in
    let result : (pop_entry next head).1 ≡ update next head (next (next head)) = rw real refl in
    (
      c.0,
      subst (λ f. Chain f head (y ∷ ys)) (sym result)
          (
            ground (arith, c.0, c.3.0),
            c.3.1,
            c.3.2,
            Chain-update next y head (next (next head)) ys c.3.3 a.1.0 a.1.1,
          ),
    )

pop_entry_empty :
    (next : ℕ → ℕ) (head : ℕ)
    → Chain next head []
    → ((pop_entry next head).0 ≡ 0) × Chain (pop_entry next head).1 head []
pop_entry_empty next head c = (c, ground (arith, c))

abbrev single : SingleRoutines
single = record {
  push_entry_list = push_entry;
  pop_entry_list = pop_entry;
  push_entry-Chain = push_entry-Chain;
  pop_entry-Chain = pop_entry-Chain;
  pop_entry_empty = pop_entry_empty;
}

abbrev blank : Cells ℕ
blank = record { next = λ p. 0; value = λ p. none }

abbrev calls : List (Call ℕ)
calls =
    push_call (some 2) 50
    ∷ push_call (some 3) 60
    ∷ visit_all 3
    ∷ pop_call
    ∷ empty_call
    ∷ push_call (some 3) 70
    ∷ clear_call 3
    ∷ pop_call
    ∷ []

blank-Stacked : Stacked (construct 1 blank) 1 [] []
unfolding construct
blank-Stacked = record { chain = refl; apart = tt; values = tt }

run-as_list_example : run single 1 0 (construct 1 blank) calls ≡ some (as_list [] calls)
run-as_list_example =
    run-as_list single 1 0 (construct 1 blank) [] [] calls blank-Stacked (omega arith)

as_list-calls :
    as_list [] calls
    ≡ flag true
      ∷ flag true
      ∷ visited (60 ∷ 50 ∷ [])
      ∷ popped 60
      ∷ flag false
      ∷ flag true
      ∷ cleared
      ∷ flag false
      ∷ []
unfolding as_list
as_list-calls = refl
