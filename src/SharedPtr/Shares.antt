-- ===== src/SharedPtr/Shares.antt =====
-- Counters that agree with the number of pointers, and objects that are there exactly while one has
-- them.
use kl.Base.{
  ℕ, ◌+◌, ◌-◌, ◌<◌, ◌^◌, ◌%◌, ◌≡◌, ◌≢◌, ◌∙◌, refl, sym, ap, Bool, Bool-cases, inl, inr, true, false,
  some, arith, ◌==◌, ◌>>=◌,
}
use kl.Links.{update}
use kl.RefHolder.Counts.{Counts, Counts-same, one}
use kl.SharedPtr.{Shared, SharedPtr, delete_object, dec, inc}

-- `n q` pointers have the counter at `q`, `obj q` is its object, and `owner a` is the counter of the
-- object at `a`.
pub record Shares (s : Shared) (n obj owner : ℕ → ℕ) : Type 0 where
  pub counts : Counts s.counters n
  pub objects :
      (q : ℕ) → q ≢ 0 → 0 < n q → (obj q ≢ 0) × (s.object (obj q) ≡ true) × (owner (obj q) ≡ q)
  pub owned : (a : ℕ) → s.object a ≡ true → (owner a ≢ 0) × (0 < n (owner a)) × (obj (owner a) ≡ a)

-- A pointer with a counter has its object.
abbrev pub Good : (ℕ → ℕ) → SharedPtr → Type 0
Good obj h = h.pn ≢ 0 → h.ptr ≡ obj h.pn

pub Shares-same :
    (s : Shared) (n m obj owner : ℕ → ℕ)
    → ((q : ℕ) → q ≢ 0 → m q ≡ n q)
    → Shares s n obj owner
    → Shares s m obj owner
Shares-same s n m obj owner e h = record {
  counts = Counts-same s.counters n m e h.counts;
  objects = λ q k l. h.objects q k (omega (arith, e q k, l));
  owned = λ a k. let (x, y, z) = h.owned a k in (x, omega (arith, e (owner a) x, y), z);
}

split_update : (f : ℕ → Bool) (p a : ℕ) → update f p false a ≡ true → (a ≢ p) × (f a ≡ true)
split_update f p a h = ground arith

module _ (s : Shared) (n obj owner : ℕ → ℕ) (h : SharedPtr) where
  pub inc-Shares :
      Shares s n obj owner
      → (h.pn ≢ 0 → (0 < n h.pn) × (n h.pn + 1 < 2 ^ 31))
      → (s' : Shared) × (inc h s ≡ some s') × Shares s' (λ q. n q + one (q == h.pn)) obj owner
  unfolding inc
  inc-Shares k held = elim (Bool-cases (h.pn == 0)) [
    | inl null ↦ (s, rw null refl, Shares-same s n _ obj owner (λ q z. ground arith) k)
    | inr real ↦
        let z : h.pn ≢ 0 = ground arith in
        let (some_one, small) = held z in
        let live : s.counters.live h.pn ≡ true = ground (arith, k.counts.live h.pn z) in
        let word : (s.counters.count h.pn + 1) % 2 ^ 32 ≡ n h.pn + 1 =
          omega (arith, k.counts.count h.pn z some_one) in
        (
          record s {
            counters = record s.counters { count = update s.counters.count h.pn (n h.pn + 1) };
          },
          rw (real, live, word) refl,
          record {
            counts = record {
              live = λ q y. ground (arith, k.counts.live q y, live);
              count = λ q y l. ground (arith, k.counts.count q y);
              small = λ q y. ground (arith, k.counts.small q y);
            };
            objects = λ q y l. k.objects q y (ground (arith, some_one));
            owned = λ a y. let (o, p, e) = k.owned a y in (o, omega (arith, p), e);
          },
        )
  ]

  -- `dec` gives up one pointer; with the last one the object is deleted.
  pub dec-Shares :
      Shares s (λ q. n q + one (q == h.pn)) obj owner
      → Good obj h
      → (s' : Shared) × (dec h s ≡ some s') × Shares s' n obj owner
  unfolding dec delete_object
  dec-Shares k good = elim (Bool-cases (h.pn == 0)) [
    | inl null ↦ (s, rw null refl, Shares-same s _ n obj owner (λ q z. ground arith) k)
    | inr real ↦
        let z : h.pn ≢ 0 = ground arith in
        let held : 0 < n h.pn + one (h.pn == h.pn) = ground arith in
        let live : s.counters.live h.pn ≡ true = ground (arith, k.counts.live h.pn z) in
        let count : s.counters.count h.pn ≡ n h.pn + 1 = ground (arith, k.counts.count h.pn z) in
        let small : n h.pn + 1 < 2 ^ 31 = ground (arith, k.counts.small h.pn z) in
        let word : (s.counters.count h.pn + 2 ^ 32 - 1) % 2 ^ 32 ≡ n h.pn =
          omega (arith, count, small) in
        let (there, alive, mine) = k.objects h.pn z held in
        let lowered = update s.counters.count h.pn (n h.pn) in
        elim (Bool-cases (n h.pn == 0)) [
          | inl last ↦
              let shown : (h.ptr == 0) ≡ false = ground (arith, good z) in
              let here : s.object h.ptr ≡ true = ground (arith, good z) in
              (
                record {
                  counters = record { count = lowered; live = update s.counters.live h.pn false };
                  object = update s.object h.ptr false;
                },
                rw (real, live, word, last, shown, here, ◌>>=◌) refl,
                record {
                  counts = record {
                    live = λ q y. ground (arith, k.counts.live q y, live);
                    count = λ q y l. ground (arith, k.counts.count q y);
                    small = λ q y. ground (arith, k.counts.small q y);
                  };
                  objects = λ q y l.
                      let (a, b, c) = k.objects q y (omega (arith, l)) in
                      let off : obj q ≢ h.ptr = λ e.
                        let back : q ≡ h.pn = sym c ∙ ap owner (e ∙ good z) ∙ mine in
                        ground (arith, ap n back) in
                      (a, ground (arith, off), c);
                  owned = λ a y.
                      let (away, still) = split_update s.object h.ptr a y in
                      let (o, p, e) = k.owned a still in
                      let off : owner a ≢ h.pn = λ r. away (sym e ∙ ap obj r ∙ sym (good z)) in
                      (o, ground (arith, off), e);
                },
              )
          | inr more ↦ (
            record s { counters = record s.counters { count = lowered } },
            rw (real, live, word, more) refl,
            record {
              counts = record {
                live = λ q y. ground (arith, k.counts.live q y, live);
                count = λ q y l. ground (arith, k.counts.count q y);
                small = λ q y. ground (arith, k.counts.small q y);
              };
              objects = λ q y l. k.objects q y (omega (arith, l));
              owned = λ a y. let (o, p, e) = k.owned a y in (o, ground (arith, p), e);
            },
          )
        ]
  ]
