-- ===== src/WorkQueue/Tests.antt =====
-- A state of a work queue of numbers with two elements in it, after `goExit`, and one that can be
-- reached in a few steps.
use kl.Base.{ℕ, ◌≡◌, refl, true, false, some, [], ◌∷◌}
use kl.WorkQueue.{
  System, at_lock, e_exit, construct, enque, empty_enque, go_exit, enques, empties, Reachable,
  start, then_step,
}
use kl.WorkQueue.Order.{Placed, Kept, Reachable-Placed, Reachable-Kept}
use kl.WorkQueue.Drain.{solo, solo-drains}
use kl.WorkQueue.Lost.{Later, exit_may_lose}

abbrev two : System ℕ
two = record {
  q = 5 ∷ 6 ∷ [];
  locked = false;
  exit = true;
  signaled = false;
  notices = 1;
  worker = at_lock;
  accepted = 4 ∷ 5 ∷ 6 ∷ [];
  taken = 4 ∷ [];
  dropped = [];
}

solo-drains_example : solo 8 two ≡ some (record two { q = []; taken = 4 ∷ 5 ∷ 6 ∷ [] })
solo-drains_example = solo-drains two refl refl

-- 5 is dropped by an `emptyEnque` of 6.
abbrev replaced : System ℕ
replaced = (empty_enque true 6 (enque true 5 construct).1).1

replaced-Reachable : Reachable replaced
unfolding construct enque
replaced-Reachable =
    then_step _ _ (then_step _ _ start (enques true 5 construct refl))
      (empties true 6 (enque true 5 construct).1 refl)

Reachable-Placed_example : Placed replaced
Reachable-Placed_example = Reachable-Placed replaced replaced-Reachable

Reachable-Kept_example : Kept replaced
Reachable-Kept_example = Reachable-Kept replaced replaced-Reachable

exit_may_lose_example :
    (s : System ℕ) × (t : System ℕ) × Reachable s
    × (s.exit ≡ false)
    × (s.accepted ≡ 5 ∷ 6 ∷ [])
    × Later (go_exit s).1 t
    × (t.worker ≡ e_exit)
    × (t.taken ≡ [])
    × (t.q ≡ 5 ∷ 6 ∷ [])
exit_may_lose_example = exit_may_lose (5 ∷ 6 ∷ [])
