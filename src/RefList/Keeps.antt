-- ===== src/RefList/Keeps.antt =====
-- What a `list` keeps: its elements in order, and every item's count of the references to it.
use kl.Base.{ℕ, ◌+◌, ◌<◌, ◌^◌, ◌≡◌, ◌≢◌, refl, some, List, [], ◌∷◌, ◌++◌, arith, ◌==◌, ◌>>=◌}
use kl.Links.{Absent, IsRing}
use kl.Items.Holds.{Values}
use kl.RefHolder.{Counted}
use kl.RefHolder.Counts.{Counts, one, release-one, retain_if-Counts}
use kl.RefHolder.Owners.{occurrences}
use kl.RefList.{RefItems, hold, let_go}
use kl.RefHolder

-- The list at `l` has the elements `xs`, in the items at `cells`; each item there is has one
-- reference for each place in `cells` and one for each in `held`, the holders outside the list.
pub record Keeps {A : Type 0} (s : RefItems A) (l : ℕ) (cells : List ℕ) (xs : List A)
    (held : List ℕ) : Type 0 where
  pub ring : IsRing s.links l cells
  pub values : Values s.value cells xs
  pub alive : Absent 0 cells
  pub counts : Counts s.objects (occurrences (cells ++ held))

pub occurrences-Absent : (p : ℕ) (xs : List ℕ) → Absent p xs → occurrences xs p ≡ 0
occurrences-Absent p [] h = refl
occurrences-Absent p (x ∷ xs) h = ground (arith, h.0, occurrences-Absent p xs h.1)

module _ {A : Type 0} (s : RefItems A) (n : ℕ → ℕ) (p : ℕ) where
  pub let_go-Counts :
      Counts s.objects (λ q. n q + one (q == p))
      → p ≢ 0
      → (c : Counted) × (let_go p s ≡ some (record s { objects = c })) × Counts c n
  unfolding let_go
  let_go-Counts h real =
      let (c, e, counts) = release-one s.objects n p h real in (c, rw (e, ◌>>=◌) refl, counts)

  pub hold-Counts :
      Counts s.objects n
      → 0 < n p
      → n p + 1 < 2 ^ 31
      → (c : Counted) × (hold p s ≡ some (p, record s { objects = c }))
        × Counts c (λ q. n q + one (q == p))
  unfolding hold RefHolder.construct
  hold-Counts h held small =
      let (c, e, counts) = retain_if-Counts s.objects n p h (λ k. (held, small)) in
      (c, rw (e, ◌>>=◌) refl, counts)
