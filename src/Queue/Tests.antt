-- ===== src/Queue/Tests.antt =====
-- A queue of numbers at address 1 and a run of calls.
use kl.Base.{ℕ, ◌≡◌, refl, none, some, List, [], ◌∷◌, true, false, arith}
use kl.Links.Tests.{plain, null_links}
use kl.Items.{Items}
use kl.Queue.{construct}
use kl.Queue.Laws.{construct-Holds}
use kl.Queue.Run.{
  Call, push, pop, ask, drop_all, pushed, popped, nothing, is_empty, cleared, run, expected,
  run-expected,
}

abbrev blank : Items ℕ
blank = record { links = null_links; value = λ p. none }

abbrev calls : List (Call ℕ)
calls =
    push (some 2) 50
    ∷ push (some 3) 60
    ∷ push none 70
    ∷ pop
    ∷ push (some 2) 80
    ∷ pop
    ∷ pop
    ∷ pop
    ∷ ask
    ∷ push (some 4) 90
    ∷ drop_all 2
    ∷ ask
    ∷ []

run-expected_example : run plain 1 0 (construct plain 1 blank) calls ≡ some (expected [] calls)
run-expected_example =
    run-expected plain 1 0 (construct plain 1 blank) [] [] calls (construct-Holds plain 1 blank)
      (omega arith)

expected-calls :
    expected [] calls
    ≡ pushed true
      ∷ pushed true
      ∷ pushed false
      ∷ popped 50
      ∷ pushed true
      ∷ popped 60
      ∷ popped 80
      ∷ nothing
      ∷ is_empty true
      ∷ pushed true
      ∷ cleared
      ∷ is_empty true
      ∷ []
unfolding expected
expected-calls = refl
