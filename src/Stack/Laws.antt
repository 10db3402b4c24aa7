-- ===== src/Stack/Laws.antt =====
-- `stack` under any sequence of calls is last in, first out.
use kl.Base.{
  ℕ, zero, suc, ◌<◌, ◌≡◌, ◌≢◌, ◌∙◌, refl, sym, true, false, none, some, List, [], ◌∷◌, length,
  arith, ◌==◌, ◌>>=◌,
}
use kl.Links.{update, Absent}
use kl.Links.Single.{SingleRoutines, Chain}
use kl.Items.Holds.{Values, Values-update}
use kl.Queue.Laws.{Freed}
use kl.Stack.{Cells, push, pop, clear}

module _ {A : Type 0} where
  -- The stack at `head` holds `xs`, the top first, in the items at `cells`.
  pub record Stacked (s : Cells A) (head : ℕ) (cells : List ℕ) (xs : List A) : Type 0 where
    pub chain : Chain s.next head cells
    pub apart : Absent head cells
    pub values : Values s.value cells xs

module _ (rt : SingleRoutines) {A : Type 0} (head : ℕ) where
  pub push-Stacked :
      (item : ℕ) (v : A) (s : Cells A) (cells : List ℕ) (xs : List A)
      → Stacked s head cells xs
      → Absent item (head ∷ cells)
      → item ≢ 0
      → Stacked (push rt head (some item) v s).0 head (item ∷ cells) (v ∷ xs)
  unfolding push
  push-Stacked item v s cells xs h fresh real = record {
    chain = rt.push_entry-Chain s.next head item cells h.chain h.apart fresh real;
    apart = ((λ e. fresh.0 (sym e)), h.apart);
    values = (ground arith, Values-update s.value item (some v) cells xs fresh.1 h.values);
  }

  pub push-none : (v : A) (s : Cells A) → push rt head none v s ≡ (s, false)
  unfolding push
  push-none v s = refl

  pub push-some : (item : ℕ) (v : A) (s : Cells A) → (push rt head (some item) v s).1 ≡ true
  unfolding push
  push-some item v s = refl

  pub pop-Stacked :
      (c : ℕ) (v x : A) (s : Cells A) (cells : List ℕ) (xs : List A)
      → Stacked s head (c ∷ cells) (x ∷ xs)
      → (s' : Cells A) × (pop rt head v s ≡ some (true, x, s'))
        × Stacked s' head cells xs
        × (s'.value c ≡ none)
  unfolding pop
  pop-Stacked c v x s cells xs h =
      let (first, chain) = rt.pop_entry-Chain s.next head c cells h.chain h.apart in
      let real : (c == 0) ≡ false = ground (arith, h.chain.1) in
      (
        record { next = (rt.pop_entry_list s.next head).1; value = update s.value c none },
        rw (first, real, h.values.0, ◌>>=◌) refl,
        record {
          chain = chain;
          apart = h.apart.1;
          values = Values-update s.value c none cells xs h.chain.2 h.values.1;
        },
        ground arith,
      )

  pub pop_empty :
      (v : A) (s : Cells A)
      → Stacked s head [] []
      → (s' : Cells A) × (pop rt head v s ≡ some (false, v, s')) × Stacked s' head [] []
  unfolding pop
  pop_empty v s h =
      let (first, chain) = rt.pop_entry_empty s.next head h.chain in
      (
        record s { next = (rt.pop_entry_list s.next head).1 },
        rw first refl,
        record { chain = chain; apart = tt; values = tt },
      )

  -- `clear` of a stack, given more fuel than it has items, ends with the stack empty and every one
  -- of its items deleted, and leaves the elements of all other items as they were.
  pub clear-Stacked :
      (fuel : ℕ) (s : Cells A) (cells : List ℕ) (xs : List A)
      → Stacked s head cells xs
      → length cells < fuel
      → (s' : Cells A) × (clear rt fuel head s ≡ some s')
        × Stacked s' head [] []
        × Freed s'.value cells
        × ((p : ℕ) → Absent p cells → s'.value p ≡ s.value p)
  unfolding clear
  clear-Stacked zero s cells xs h k = absurd (omega (arith, k))
  clear-Stacked (suc fuel) s [] xs h k =
      let (first, chain) = rt.pop_entry_empty s.next head h.chain in
      (
        record s { next = (rt.pop_entry_list s.next head).1 },
        rw first refl,
        record { chain = chain; apart = tt; values = tt },
        tt,
        λ p away. refl,
      )
  clear-Stacked (suc fuel) s (c ∷ cells) [] h k = absurd h.values
  clear-Stacked (suc fuel) s (c ∷ cells) (x ∷ xs) h k =
      let (first, chain) = rt.pop_entry-Chain s.next head c cells h.chain h.apart in
      let real : (c == 0) ≡ false = ground (arith, h.chain.1) in
      let next : Cells A = record {
        next = (rt.pop_entry_list s.next head).1;
        value = update s.value c none;
      } in
      let (s', done, holds, freed, same) =
        clear-Stacked fuel next cells xs
          (record {
            chain = chain;
            apart = h.apart.1;
            values = Values-update s.value c none cells xs h.chain.2 h.values.1;
          })
          (omega (arith, k)) in
      (
        s',
        rw (first, real) done,
        holds,
        (same c h.chain.2 ∙ ground arith, freed),
        λ p away. same p away.1 ∙ ground (arith, away.0),
      )
