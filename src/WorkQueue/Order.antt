-- ===== src/WorkQueue/Order.antt =====
-- In every state that can be reached: what the worker's place says of the lock, the queue and the
-- flag, and what became of the elements.
use mathlib.Core.List.{append-nil, append_assoc}
use kl.Base.{
  ◌≡◌, ◌∙◌, refl, sym, ap, subst, Bool, Bool-cases, inl, inr, true, false, not, ◌&&◌, some,
  some-injective, List, [], ◌∷◌, ◌++◌, arith,
}
use kl.WorkQueue.{
  System, Place, at_lock, at_test, at_pop, at_wait, at_check, e_ok, e_false, e_exit, is_nil,
  construct, go_exit, push, drop_all, enque, empty_enque, clear, notify, pop, step_at, deque_step,
  Step, works, enques, empties, clears, notifies, pushes, stops, push_a_async_call, stop, exits,
  Reachable, start, then_step,
}

module _ {T : Type 0} where
  -- The third list is made of the other two, each in its order.
  pub data Merge : List T → List T → List T → Type 0 where
    both_nil : Merge [] [] []
    left : (x : T) (xs ys zs : List T) → Merge xs ys zs → Merge (x ∷ xs) ys (x ∷ zs)
    right : (x : T) (xs ys zs : List T) → Merge xs ys zs → Merge xs (x ∷ ys) (x ∷ zs)

  Merge_rights : (ys : List T) → Merge [] ys ys
  Merge_rights [] = both_nil
  Merge_rights (y ∷ ys) = right y [] ys ys (Merge_rights ys)

  Merge-append_left :
      (x : T) (xs ys zs : List T) → Merge xs ys zs → Merge (xs ++ (x ∷ [])) ys (zs ++ (x ∷ []))
  Merge-append_left x xs ys zs both_nil = left x [] [] [] both_nil
  Merge-append_left x xs ys zs (left y xs' ys' zs' m) =
      left y _ _ _ (Merge-append_left x xs' ys' zs' m)
  Merge-append_left x xs ys zs (right y xs' ys' zs' m) =
      right y _ _ _ (Merge-append_left x xs' ys' zs' m)

  Merge-append_right :
      (us : List T) (xs ys zs : List T) → Merge xs ys zs → Merge xs (ys ++ us) (zs ++ us)
  Merge-append_right us xs ys zs both_nil = Merge_rights us
  Merge-append_right us xs ys zs (left y xs' ys' zs' m) =
      left y _ _ _ (Merge-append_right us xs' ys' zs' m)
  Merge-append_right us xs ys zs (right y xs' ys' zs' m) =
      right y _ _ _ (Merge-append_right us xs' ys' zs' m)

  -- Where the worker has the lock, and its two ways to have ended a call without an element.
  abbrev pub has_lock : Place T → Bool
  has_lock at_test = true
  has_lock at_pop = true
  has_lock p = false

  abbrev pub before_pop : Place T → Bool
  before_pop at_pop = true
  before_pop p = false

  abbrev pub has_failed : Place T → Bool
  has_failed e_false = true
  has_failed p = false

  abbrev pub has_ended : Place T → Bool
  has_ended e_exit = true
  has_ended p = false

  pub record Placed (s : System T) : Type 0 where
    pub lock : s.locked ≡ has_lock s.worker
    pub ready : before_pop s.worker && is_nil s.q ≡ false
    pub works : has_failed s.worker ≡ false
    pub asked : has_ended s.worker && not s.exit ≡ false

  -- The elements that went into the queue are those that were taken out and dropped, mixed, and then
  -- those that it has now.
  pub record Kept (s : System T) : Type 0 where
    pub gone : List T
    pub split : s.accepted ≡ gone ++ s.q
    pub merged : Merge s.taken s.dropped gone

  pop-Placed : (xs : List T) (s : System T) → is_nil xs ≡ false → Placed (pop xs s)
  unfolding pop
  pop-Placed [] s h = cc
  pop-Placed (x ∷ xs) s h = ground arith

  step_at-Placed :
      (p : Place T) (expired : Bool) (s t : System T)
      → s.worker ≡ p
      → Placed s
      → step_at p expired s ≡ some t
      → Placed t
  unfolding step_at
  step_at-Placed at_lock expired s t p h e = ground arith
  step_at-Placed at_test expired s t p h e = ground arith
  step_at-Placed at_pop expired s t p h e =
      subst Placed (some-injective e) (pop-Placed s.q s (ground (arith, h.ready)))
  step_at-Placed at_wait expired s t p h e = ground arith
  step_at-Placed at_check expired s t p h e = ground arith
  step_at-Placed (e_ok x) expired s t p h e = ground arith
  step_at-Placed e_false expired s t p h e = ground arith
  step_at-Placed e_exit expired s t p h e = ground arith

  Step-Placed : (s t : System T) → Step s t → Placed s → Placed t
  unfolding deque_step
  Step-Placed _ _ (works expired s t e) h = step_at-Placed s.worker expired s t refl h e
  Step-Placed _ _ (enques got v s free) h = unfold enque in ground arith
  Step-Placed _ _ (empties got v s free) h = unfold empty_enque in ground arith
  Step-Placed _ _ (clears s free) h = unfold clear in ground arith
  Step-Placed _ _ (notifies s more) h = unfold notify in ground arith
  Step-Placed _ _ (pushes valid got c s free) h = unfold push_a_async_call in ground arith
  Step-Placed _ _ (stops s) h = unfold stop in ground arith
  Step-Placed _ _ (exits s) h = unfold go_exit in ground arith

  push-Kept : (got : Bool) (v : T) (s : System T) → Kept s → Kept (push got v s)
  unfolding push
  push-Kept true v s k = record {
    gone = k.gone;
    split = ap (λ t. t ++ (v ∷ [])) k.split ∙ append_assoc k.gone s.q (v ∷ []);
    merged = k.merged;
  }
  push-Kept false v s k = k

  drop_all-Kept : (s : System T) → Kept s → Kept (drop_all s)
  unfolding drop_all
  drop_all-Kept s k = record {
    gone = k.gone ++ s.q;
    split = k.split ∙ sym (append-nil (k.gone ++ s.q));
    merged = Merge-append_right s.q s.taken s.dropped k.gone k.merged;
  }

  -- Only the queue and the three histories matter.
  Kept-same :
      (s t : System T)
      → t.q ≡ s.q
      → t.accepted ≡ s.accepted
      → t.taken ≡ s.taken
      → t.dropped ≡ s.dropped
      → Kept s
      → Kept t
  Kept-same s t a b c d k = record {
    gone = k.gone;
    split = b ∙ k.split ∙ ap (λ u. k.gone ++ u) (sym a);
    merged = rw (c, d) k.merged;
  }

  pop-Kept :
      (xs : List T) (s : System T) (gone : List T)
      → s.accepted ≡ gone ++ xs
      → s.q ≡ xs
      → Merge s.taken s.dropped gone
      → Kept (pop xs s)
  unfolding pop
  pop-Kept [] s gone e same m = record {
    gone = gone;
    split = e ∙ ap (λ u. gone ++ u) (sym same);
    merged = m;
  }
  pop-Kept (x ∷ xs) s gone e same m = record {
    gone = gone ++ (x ∷ []);
    split = e ∙ sym (append_assoc gone (x ∷ []) xs);
    merged = Merge-append_left x s.taken s.dropped gone m;
  }

  step_at-Kept :
      (p : Place T) (expired : Bool) (s t : System T)
      → Kept s
      → step_at p expired s ≡ some t
      → Kept t
  unfolding step_at
  step_at-Kept at_pop expired s t k e =
      subst Kept (some-injective e) (pop-Kept s.q s k.gone k.split refl k.merged)
  step_at-Kept at_lock expired s t k e =
      Kept-same s t (ground arith) (ground arith) (ground arith) (ground arith) k
  step_at-Kept at_test expired s t k e =
      Kept-same s t (ground arith) (ground arith) (ground arith) (ground arith) k
  step_at-Kept at_wait expired s t k e =
      Kept-same s t (ground arith) (ground arith) (ground arith) (ground arith) k
  step_at-Kept at_check expired s t k e =
      Kept-same s t (ground arith) (ground arith) (ground arith) (ground arith) k
  step_at-Kept (e_ok x) expired s t k e =
      Kept-same s t (ground arith) (ground arith) (ground arith) (ground arith) k
  step_at-Kept e_false expired s t k e =
      Kept-same s t (ground arith) (ground arith) (ground arith) (ground arith) k
  step_at-Kept e_exit expired s t k e = cc

  enque-Kept : (got : Bool) (v : T) (s : System T) → Kept s → Kept (enque got v s).1
  unfolding enque
  enque-Kept got v s k =
      Kept-same (push got v s) _ (ground arith) (ground arith) (ground arith) (ground arith)
        (push-Kept got v s k)

  empty_enque-Kept : (got : Bool) (v : T) (s : System T) → Kept s → Kept (empty_enque got v s).1
  unfolding empty_enque
  empty_enque-Kept got v s k =
      Kept-same (push got v (drop_all s)) _ (ground arith) (ground arith) (ground arith)
        (ground arith) (push-Kept got v (drop_all s) (drop_all-Kept s k))

  clear-Kept : (s : System T) → Kept s → Kept (clear s)
  unfolding clear
  clear-Kept s k =
      Kept-same (drop_all s) _ (ground arith) (ground arith) (ground arith) (ground arith)
        (drop_all-Kept s k)

  push_a_async_call-Kept :
      (valid : T → Bool) (got : Bool) (c : T) (s : System T)
      → Kept s
      → Kept (push_a_async_call valid got c s).1
  unfolding push_a_async_call
  push_a_async_call-Kept valid got c s k = elim (Bool-cases (valid c)) [
    | inl good ↦ rw good (enque-Kept got c s k)
    | inr bad ↦ rw bad k
  ]

  Step-Kept : (s t : System T) → Step s t → Kept s → Kept t
  unfolding deque_step notify go_exit stop
  Step-Kept _ _ (works expired s t e) k = step_at-Kept s.worker expired s t k e
  Step-Kept _ _ (enques got v s free) k = enque-Kept got v s k
  Step-Kept _ _ (empties got v s free) k = empty_enque-Kept got v s k
  Step-Kept _ _ (clears s free) k = clear-Kept s k
  Step-Kept _ _ (notifies s more) k = Kept-same s _ refl refl refl refl k
  Step-Kept _ _ (pushes valid got c s free) k = push_a_async_call-Kept valid got c s k
  Step-Kept _ _ (stops s) k = Kept-same s _ refl refl refl refl k
  Step-Kept _ _ (exits s) k = Kept-same s _ refl refl refl refl k

  -- In every state that can be reached, whatever other threads do between the worker's steps: the
  -- worker has the lock exactly when it is at the queue; it calls `pop_front` only while the queue has
  -- an element, so `deque` never returns `E_FALSE`; and it returns `E_EXIT` only after `goExit`.
  pub Reachable-Placed : (s : System T) → Reachable s → Placed s
  unfolding construct
  Reachable-Placed _ start = ground arith
  Reachable-Placed _ (then_step s t r next) = Step-Placed s t next (Reachable-Placed s r)

  -- In every state that can be reached, the elements that went into the queue are those that `deque`
  -- took out and those that `clear` and `emptyEnque` dropped, mixed but each in their order, and then
  -- those that are still in it: none is lost, taken twice or overtaken.
  pub Reachable-Kept : (s : System T) → Reachable s → Kept s
  unfolding construct
  Reachable-Kept _ start = record { gone = []; split = refl; merged = both_nil }
  Reachable-Kept _ (then_step s t r next) = Step-Kept s t next (Reachable-Kept s r)
