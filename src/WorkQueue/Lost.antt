-- ===== src/WorkQueue/Lost.antt =====
-- What `goExit` may leave behind.
use kl.Base.{ℕ, ◌+◌, ◌≡◌, refl, sym, true, false, List, [], ◌∷◌, ◌++◌, subst}
use mathlib.Core.List.{append_assoc, append-nil}
use kl.WorkQueue.{
  System, at_wait, e_exit, construct, enque, go_exit, deque_step, Step, works, enques, Reachable,
  start, then_step,
}

-- Any number of steps.
pub data Later {T : Type 0} : System T → System T → Type 0 where
  now : (s : System T) → Later s s
  later : (s t u : System T) → Later s t → Step t u → Later s u

module _ {T : Type 0} where
  -- The worker waits, and the other threads have put these elements into the queue.
  abbrev waiting : ℕ → List T → System T
  waiting n xs = record {
    q = xs;
    locked = false;
    exit = false;
    signaled = true;
    notices = n;
    worker = at_wait;
    accepted = xs;
    taken = [];
    dropped = [];
  }

  waits : Reachable (waiting 0 [])
  unfolding construct deque_step
  waits = then_step _ _ (then_step _ _ start (works false _ _ refl)) (works false _ _ refl)

  filled :
      (xs ys : List T) (n : ℕ)
      → Reachable (waiting n xs)
      → (m : ℕ) × Reachable (waiting m (xs ++ ys))
  unfolding enque
  filled xs [] n r = (n, subst (λ t. Reachable (waiting n t)) (sym (append-nil xs)) r)
  filled [] (y ∷ ys) n r =
      filled (y ∷ []) ys (n + 1) (then_step _ _ r (enques true y (waiting n []) refl))
  filled (x ∷ xs) (y ∷ ys) n r =
      let (m, done) =
        filled ((x ∷ xs) ++ (y ∷ [])) ys n
          (then_step _ _ r (enques true y (waiting n (x ∷ xs)) refl)) in
      (m, subst (λ t. Reachable (waiting m t)) (append_assoc (x ∷ xs) (y ∷ []) ys) done)

  -- For any elements, there is a run in which the queue has accepted them, then `goExit` is called, and
  -- then `deque` returns `E_EXIT` with all of them in the queue: nothing was taken out.
  pub exit_may_lose :
      (vs : List T)
      → (s : System T) × (t : System T) × Reachable s
        × (s.exit ≡ false)
        × (s.accepted ≡ vs)
        × Later (go_exit s).1 t
        × (t.worker ≡ e_exit)
        × (t.taken ≡ [])
        × (t.q ≡ vs)
  unfolding go_exit deque_step
  exit_may_lose vs =
      let (n, r) = filled [] vs 0 waits in
      let s = waiting n vs in
      (
        s,
        record s { exit = true; signaled = false; worker = e_exit },
        r,
        refl,
        refl,
        later _ _ _ (later _ _ _ (now (record s { exit = true })) (works false _ _ refl))
            (works false _ _ refl),
        refl,
        refl,
        refl,
      )
