-- ===== src/RefHolder/Counts.antt =====
-- Counts that agree with the number of references to each object.
use kl.Base.{
  ℕ, ◌+◌, ◌-◌, ◌<◌, ◌^◌, ◌%◌, ◌≡◌, ◌≢◌, refl, subst, Bool, Bool-cases, inl, inr, true, false, some,
  arith, if◌then◌else◌, ◌==◌, ltb, ◌>>=◌,
}
use kl.Links.{update}
use kl.RefHolder.{Counted, below_one, retain, release, retain_if, release_if}

-- `n p` references to the object at `p`: it is there exactly if there is one, and counts them.
pub record Counts (c : Counted) (n : ℕ → ℕ) : Type 0 where
  pub live : (p : ℕ) → p ≢ 0 → c.live p ≡ ltb 0 (n p)
  pub count : (p : ℕ) → p ≢ 0 → 0 < n p → c.count p ≡ n p
  pub small : (p : ℕ) → p ≢ 0 → n p < 2 ^ 31

pub Counts-same :
    (c : Counted) (n m : ℕ → ℕ) → ((p : ℕ) → p ≢ 0 → m p ≡ n p) → Counts c n → Counts c m
Counts-same c n m e h = record {
  live = λ p k. ground (arith, e p k, h.live p k);
  count = λ p k l. ground (arith, e p k, h.count p k);
  small = λ p k. ground (arith, e p k, h.small p k);
}

module _ (c : Counted) (n : ℕ → ℕ) (p : ℕ) where
  -- `retain` of an object to which there is a reference makes one more.
  pub retain-Counts :
      Counts c n
      → p ≢ 0
      → 0 < n p
      → n p + 1 < 2 ^ 31
      → (c' : Counted) × (retain p c ≡ some (n p + 1, c')) × Counts c' (update n p (n p + 1))
  unfolding retain
  retain-Counts h real held small =
      let live : c.live p ≡ true = ground (arith, h.live p real) in
      let word : (c.count p + 1) % 2 ^ 32 ≡ n p + 1 = omega (arith, h.count p real held) in
      (
        record c { count = update c.count p (n p + 1) },
        rw (live, word) refl,
        record {
          live = λ q k. ground (arith, h.live q k, live);
          count = λ q k l. ground (arith, h.count q k);
          small = λ q k. ground (arith, h.small q k);
        },
      )

  -- `release` takes one away, and with the last the object.
  pub release-Counts :
      Counts c n
      → p ≢ 0
      → 0 < n p
      → (c' : Counted) × (release p c ≡ some (n p - 1, c')) × Counts c' (update n p (n p - 1))
  unfolding release
  release-Counts h real held =
      let live : c.live p ≡ true = ground (arith, h.live p real) in
      let fits = h.small p real in
      let word : (c.count p + 2 ^ 32 - 1) % 2 ^ 32 ≡ n p - 1 = omega (arith, h.count p real held) in
      (
        record {
          count = update c.count p (n p - 1);
          live = if below_one (n p - 1) then update c.live p false else c.live;
        },
        rw (live, word) refl,
        record {
          live = λ q k. ground (arith, h.live q k, live);
          count = λ q k l. ground (arith, h.count q k);
          small = λ q k. ground (arith, h.small q k);
        },
      )

abbrev pub one : Bool → ℕ
one b = if b then 1 else 0

module _ (c : Counted) (n : ℕ → ℕ) (p : ℕ) where
  pub retain_if-Counts :
      Counts c n
      → (p ≢ 0 → (0 < n p) × (n p + 1 < 2 ^ 31))
      → (c' : Counted) × (retain_if p c ≡ some c') × Counts c' (λ q. n q + one (q == p))
  unfolding retain_if
  retain_if-Counts h held = elim (Bool-cases (p == 0)) [
    | inl null ↦ (c, rw null refl, Counts-same c n _ (λ q k. ground arith) h)
    | inr real ↦
        let k : p ≢ 0 = ground arith in
        let (c', e, counts) = retain-Counts c n p h k (held k).0 (held k).1 in
        (c', rw (real, e, ◌>>=◌) refl, Counts-same c' _ _ (λ q z. ground arith) counts)
  ]

  pub release_if-Counts :
      Counts c (λ q. n q + one (q == p)) → (c' : Counted) × (release_if p c ≡ some c') × Counts c' n
  unfolding release_if
  release_if-Counts h = elim (Bool-cases (p == 0)) [
    | inl null ↦ (c, rw null refl, Counts-same c _ n (λ q k. ground arith) h)
    | inr real ↦
        let k : p ≢ 0 = ground arith in
        let (c', e, counts) = release-Counts c (λ q. n q + one (q == p)) p h k (ground arith) in
        (c', rw (real, e, ◌>>=◌) refl, Counts-same c' _ n (λ q z. ground arith) counts)
  ]

  pub release-one :
      Counts c (λ q. n q + one (q == p))
      → p ≢ 0
      → (c' : Counted) × (release p c ≡ some (n p, c')) × Counts c' n
  release-one h real =
      let (c', e, counts) = release-Counts c (λ q. n q + one (q == p)) p h real (ground arith) in
      let same : n p + one (p == p) - 1 ≡ n p = ground arith in
      (
        c',
        subst (λ k. release p c ≡ some (k, c')) same e,
        Counts-same c' _ n (λ q z. ground arith) counts,
      )

  -- A new object with a count of 1.
  abbrev pub born : Counted
  born = record { count = update c.count p 1; live = update c.live p true }

  pub born-Counts : Counts c n → n p ≡ 0 → Counts born (λ q. n q + one (q == p))
  born-Counts h none_yet = record {
    live = λ q k. ground (arith, h.live q k);
    count = λ q k l. ground (arith, h.count q k);
    small = λ q k. ground (arith, h.small q k);
  }
