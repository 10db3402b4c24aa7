-- ===== src/WorkQueue.antt =====
-- skl/work_queue.hpp: `WorkQueue`, and the thread of `simple_worker` and `interface_worker` that takes
-- elements out of it, with other threads between any two of its steps. The `queue` inside is the
-- list that `Queue.Run` shows it to be.
pub mod Order
pub mod Drain
pub mod Lost
mod Tests
use kl.Base.{
  ℕ, zero, suc, ◌+◌, ◌-◌, ◌≡◌, ◌≢◌, Bool, true, false, not, ◌&&◌, Option, none, some, List, [], ◌∷◌,
  ◌++◌, if◌then◌else◌, ◌==◌,
}

-- Where the worker is: before `_lock.lock()`, at `_q.empty()` and at `_q.pop_front(o)` with the lock,
-- at `_e.wait_for`, and at the test of `_exit`; or `deque` has returned `E_OK` with an element,
-- `E_FALSE` or `E_EXIT`.
pub data Place (T : Type 0) : Type 0 where
  at_lock : Place T
  at_test : Place T
  at_pop : Place T
  at_wait : Place T
  at_check : Place T
  e_ok : T → Place T
  e_false : Place T
  e_exit : Place T

-- `_q`, whether the worker has `_lock`, `_exit`, whether `_e` is signaled, the calls of `_e.notify`
-- that other threads have still to make, and the worker. Besides, what the program cannot see: the
-- elements that went into the queue, those that were taken out by `deque`, and those dropped.
pub record System (T : Type 0) : Type 0 where
  pub q : List T
  pub locked : Bool
  pub exit : Bool
  pub signaled : Bool
  pub notices : ℕ
  pub worker : Place T
  pub accepted : List T
  pub taken : List T
  pub dropped : List T

module _ {T : Type 0} where
  abbrev pub is_nil : List T → Bool
  is_nil [] = true
  is_nil (x ∷ xs) = false

  -- The constructor. An event is created signaled.
  unfoldable pub construct : System T
  construct = record {
    q = [];
    locked = false;
    exit = false;
    signaled = true;
    notices = 0;
    worker = at_lock;
    accepted = [];
    taken = [];
    dropped = [];
  }

  unfoldable pub go_exit : System T → Bool × System T
  go_exit s = (s.exit, record s { exit = true })

  -- `_q.push_back(v)`, where `got` says if `new` gives an item.
  unfoldable pub push : Bool → T → System T → System T
  push got v s =
      if got then record s { q = s.q ++ (v ∷ []); accepted = s.accepted ++ (v ∷ []) } else s

  -- `_q.swap(ept)`, and the destruction of `ept`
  unfoldable pub drop_all : System T → System T
  drop_all s = record s { q = []; dropped = s.dropped ++ s.q }

  -- The three calls of other threads, up to their `_e.notify()`.
  unfoldable pub enque : Bool → T → System T → Bool × System T
  unfolding push
  enque got v s =
      let empty = is_nil s.q in
      let s' = push got v s in
      (got, if empty && got then record s' { notices = s'.notices + 1 } else s')

  unfoldable pub empty_enque : Bool → T → System T → Bool × System T
  unfolding push drop_all
  empty_enque got v s =
      let s' = push got v (drop_all s) in
      (got, if got then record s' { notices = s'.notices + 1 } else s')

  unfoldable pub clear : System T → System T
  unfolding drop_all
  clear s = let s' = drop_all s in record s' { notices = s'.notices + 1 }

  unfoldable pub notify : System T → System T
  notify s = record s { notices = s.notices - 1; signaled = true }

  -- `_q.pop_front(o)` and what `deque` returns.
  unfoldable pub pop : List T → System T → System T
  pop [] s = record s { locked = false; worker = e_false }
  pop (x ∷ rest) s = record s {
    q = rest;
    locked = false;
    worker = e_ok x;
    taken = s.taken ++ (x ∷ []);
  }

  -- The worker's loop, after a call of `deque`: it runs what it got and calls again, or it ends.
  unfoldable pub after_deque : Place T → System T → Option (System T)
  after_deque e_exit s = none
  after_deque (e_ok x) s = some (record s { worker = at_lock })
  after_deque p s = some (record s { worker = at_lock })

  -- One step of `deque`, or of the worker's loop between two calls of it; `expired` says if the time
  -- that it waits is over. `none`: it has to wait, or it has ended.
  unfoldable pub step_at : Place T → Bool → System T → Option (System T)
  unfolding pop after_deque
  step_at at_lock expired s =
      if s.locked then none else some (record s { locked = true; worker = at_test })
  step_at at_test expired s = some (
      if is_nil s.q
      then record s { locked = false; worker = at_wait }
      else record s { worker = at_pop })
  step_at at_pop expired s = some (pop s.q s)
  step_at at_wait expired s =
      if s.signaled
      then some (record s { signaled = false; worker = at_check })
      else if expired
      then some (record s { worker = at_check })
      else none
  step_at at_check expired s =
      some (if s.exit then record s { worker = e_exit } else record s { worker = at_lock })
  step_at (e_ok x) expired s = after_deque (e_ok x) s
  step_at e_false expired s = after_deque e_false s
  step_at e_exit expired s = after_deque e_exit s

  unfoldable pub deque_step : Bool → System T → Option (System T)
  unfolding step_at
  deque_step expired s = step_at s.worker expired s

  -- `simple_worker`'s members: `valid` is the test of the call that is pushed, its `operator bool`.
  unfoldable pub push_a_async_call : (T → Bool) → Bool → T → System T → Bool × System T
  unfolding enque
  push_a_async_call valid got c s = if not (valid c) then (false, s) else enque got c s

  unfoldable pub stop : System T → Bool × System T
  unfolding go_exit
  stop s = go_exit s

-- What can happen next. The calls with the lock can be made only while the worker has not got it.
pub data Step {T : Type 0} : System T → System T → Type 0 where
  works : (expired : Bool) (s t : System T) → deque_step expired s ≡ some t → Step s t
  enques : (got : Bool) (v : T) (s : System T) → s.locked ≡ false → Step s (enque got v s).1
  empties : (got : Bool) (v : T) (s : System T) → s.locked ≡ false → Step s (empty_enque got v s).1
  clears : (s : System T) → s.locked ≡ false → Step s (clear s)
  notifies : (s : System T) → s.notices ≢ 0 → Step s (notify s)
  pushes :
      (valid : T → Bool) (got : Bool) (c : T) (s : System T)
      → s.locked ≡ false
      → Step s (push_a_async_call valid got c s).1
  stops : (s : System T) → Step s (stop s).1
  exits : (s : System T) → Step s (go_exit s).1

pub data Reachable {T : Type 0} : System T → Type 0 where
  start : Reachable construct
  then_step : (s t : System T) → Reachable s → Step s t → Reachable t
