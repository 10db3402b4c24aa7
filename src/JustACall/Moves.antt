-- ===== src/JustACall/Moves.antt =====
-- What copies, assignments and moves of a `just_a_call` do to the count of its item.
use kl.Base.{ℕ, ◌+◌, ◌<◌, ◌^◌, ◌≡◌, ◌≢◌, refl, true, some, arith, ◌==◌, ◌>>=◌}
use kl.RefHolder.{Counted, release_if}
use kl.RefHolder.Counts.{Counts, Counts-same, one, retain_if-Counts, release_if-Counts}
use kl.JustACall.{JustACall, null_call, construct_copy, construct_move, destroy, assign}

module _ (c : Counted) (n : ℕ → ℕ) where
  -- `assign` moves the reference of `this` from its old item to that of `r`, also where the two are one.
  pub assign-Counts :
      (this r : JustACall)
      → Counts c (λ q. n q + one (q == this.param))
      → (r.param ≢ 0
          → (0 < n r.param + one (r.param == this.param))
            × (n r.param + one (r.param == this.param) + 1 < 2 ^ 31))
      → (c' : Counted) × (assign this r c ≡ some (r, c'))
        × Counts c' (λ q. n q + one (q == r.param))
  unfolding assign construct_copy destroy
  assign-Counts this r h held =
      let (c1, e1, counts1) = retain_if-Counts c _ r.param h held in
      let (c2, e2, counts2) =
        release_if-Counts c1 (λ q. n q + one (q == r.param)) this.param
          (Counts-same c1 _ _ (λ q k. omega arith) counts1) in
      (c2, rw (e1, ◌>>=◌, e2, ◌>>=◌) refl, counts2)

  -- The move constructor takes the item over and counts one reference more. So where a call that has
  -- the only reference to its item is moved, and both calls are destroyed, the item stays, with a
  -- count of 1 and no reference to it.
  pub move_leaks :
      (r : JustACall)
      → Counts c n
      → r.param ≢ 0
      → n r.param ≡ 1
      → (c1 : Counted) × (c2 : Counted) × (construct_move r c ≡ some (r, null_call, c1))
        × (destroy r c1 ≡ some c2)
        × (destroy null_call c2 ≡ some c2)
        × (c2.live r.param ≡ true)
        × (c2.count r.param ≡ 1)
  unfolding construct_move destroy null_call release_if
  move_leaks r h real only =
      let (c1, e1, counts1) =
        retain_if-Counts c n r.param h (λ k. (omega (arith, only), ground (arith, only))) in
      let (c2, e2, counts2) = release_if-Counts c1 n r.param counts1 in
      (
        c1,
        c2,
        rw (e1, ◌>>=◌) refl,
        e2,
        refl,
        ground (arith, counts2.live r.param real),
        ground (arith, counts2.count r.param real),
      )
