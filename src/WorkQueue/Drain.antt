-- ===== src/WorkQueue/Drain.antt =====
-- The worker left to itself empties the queue.
use kl.Base.{
  ℕ, zero, suc, ◌*◌, ◌≡◌, ◌∙◌, refl, sym, ap, Bool, false, Option, some, List, [], ◌∷◌, ◌++◌,
  length, arith, ◌>>=◌,
}
use mathlib.Core.List.{append_assoc, append-nil}
use kl.WorkQueue.{System, at_lock, deque_step}

module _ {T : Type 0} where
  -- So many steps of the worker and of no other thread, in which no wait runs out.
  pub solo : ℕ → System T → Option (System T)
  solo zero s = some s
  solo (suc n) s = deque_step false s >>= λ t. solo n t

  rounds : List T → ℕ
  rounds [] = 0
  rounds (x ∷ xs) = suc (suc (suc (suc (rounds xs))))

  rounds_lem : (xs : List T) → rounds xs ≡ 4 * length xs
  unfolding rounds
  rounds_lem [] = refl
  rounds_lem (x ∷ xs) = omega (arith, rounds_lem xs)

  module _ (exit signaled : Bool) (notices : ℕ) (accepted dropped : List T) where
    -- The worker is before the lock, with these elements in the queue and those taken out.
    abbrev before : List T → List T → System T
    before xs taken = record {
      q = xs;
      locked = false;
      exit = exit;
      signaled = signaled;
      notices = notices;
      worker = at_lock;
      accepted = accepted;
      taken = taken;
      dropped = dropped;
    }

    solo-rounds :
        (xs taken : List T) → solo (rounds xs) (before xs taken) ≡ some (before [] (taken ++ xs))
    unfolding solo rounds deque_step
    solo-rounds [] taken = ap (λ t. some (before [] t)) (sym (append-nil taken))
    solo-rounds (x ∷ xs) taken =
        solo-rounds xs (taken ++ (x ∷ []))
        ∙ ap (λ t. some (before [] t)) (append_assoc taken (x ∷ []) xs)

  -- From any state in which the worker is about to take the lock and no thread has it, also after
  -- `goExit`, four steps of the worker for each element take all of them out of the queue, in their
  -- order, and it is back where it was.
  pub solo-drains :
      (s : System T)
      → s.worker ≡ at_lock
      → s.locked ≡ false
      → solo (4 * length s.q) s ≡ some (record s { q = []; taken = s.taken ++ s.q })
  solo-drains s p free =
      let before_s = before s.exit s.signaled s.notices s.accepted s.dropped in
      let same : s ≡ before_s s.q s.taken = ground arith in
      let done = solo-rounds s.exit s.signaled s.notices s.accepted s.dropped s.q s.taken in
      let ends : before_s [] (s.taken ++ s.q) ≡ record s { q = []; taken = s.taken ++ s.q } =
        ground arith in
      ap (λ n. solo n s) (sym (rounds_lem s.q))
      ∙ ap (solo (rounds s.q)) same
      ∙ done
      ∙ ap (λ t. some t) ends
