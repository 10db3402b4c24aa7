-- ===== src/Kfifo/Alloc.antt =====
-- `highest_bit`, `roundup_pow_of_two` and `kfifo_alloc`.
use kl.Base.{
  ℕ, zero, suc, ◌+◌, ◌-◌, ◌*◌, ◌/◌, ◌^◌, ◌≤◌, ◌<◌, ◌≡◌, ◌∙◌, ap, refl, ◌⊎◌, inl, inr, ◌≢◌,
}
use kl.Base.{
  List, [], Bool, true, false, Option, none, some, arith, length, sub32, add32, bit_and, ◌==◌,
}
use kl.Base.{◌>>=◌, Bool-cases, Pow2_of_mask, lt_of_pow-lt, pow_mono}
use native.Mathlib.Nat.{pow-suc}
use native.Mathlib.Decide.{ℕ_discrete}
use kl.Kfifo.{Kfifo, halvings, highest_bit, shift_one, roundup_pow_of_two, alloc_size, alloc, free}
use kl.Kfifo.Inv.{IsValid, contents}

-- `k` is the number of binary digits of `n`.
record IsWidth (n k : ℕ) : Type 0 where
  above : n < 2 ^ k
  below : 0 < n → 2 ^ k ≤ 2 * n
  bare : n ≡ 0 → 2 ^ k ≡ 1

halvings-suc :
    (f i pos : ℕ) → i ≢ 0 → pos + 1 < 2 ^ 32 → halvings (suc f) i pos ≡ halvings f (i / 2) (pos + 1)
unfolding halvings
halvings-suc f i pos ne w = let e : add32 pos 1 ≡ pos + 1 = omega arith in rw e (ground arith)

IsWidth-suc : (i k : ℕ) → i ≢ 0 → IsWidth (i / 2) k → IsWidth i (suc k)
IsWidth-suc i k ne w = elim (ℕ_discrete (i / 2) 0) [
  | yes e ↦ omega (arith, pow-suc 2 k, w.bare e)
  | no more ↦ omega (arith, pow-suc 2 k, w.above, w.below (omega arith))
]

abbrev Counted : ℕ → ℕ → ℕ → Type 0
Counted f i pos = (k : ℕ) × (halvings (suc f) i pos ≡ some (pos + k)) × (k ≤ f) × IsWidth i k

Counted-suc :
    (f i pos : ℕ) → i ≢ 0 → pos + 1 < 2 ^ 32 → Counted f (i / 2) (pos + 1) → Counted (suc f) i pos
Counted-suc f i pos ne w (k, run, small, width) = (
  suc k,
  halvings-suc (suc f) i pos ne w ∙ run ∙ ap some (omega arith),
  omega arith,
  IsWidth-suc i k ne width,
)

halvings-IsWidth : (f i pos : ℕ) → i < 2 ^ f → pos + f < 2 ^ 32 → Counted f i pos
unfolding halvings
halvings-IsWidth zero i pos h w = (0, ground arith, omega arith, omega arith)
halvings-IsWidth (suc f) i pos h w = elim (ℕ_discrete i 0) [
  | yes e ↦ (0, ground arith, omega arith, omega arith)
  | no ne ↦
      Counted-suc f i pos ne (omega arith)
        (halvings-IsWidth f (i / 2) (pos + 1) (omega (arith, pow-suc 2 f)) (omega arith))
]

-- `highest_bit` terminates on every `unsigned`, and is the number of binary digits.
highest_bit-IsWidth :
    (n : ℕ) → n < 2 ^ 32 → (k : ℕ) × (highest_bit n ≡ some k) × (k ≤ 32) × IsWidth n k
unfolding highest_bit
highest_bit-IsWidth n h = elim (ℕ_discrete n 0) [
  | yes e ↦ (0, ground arith, omega arith, omega arith)
  | no ne ↦ count (halvings-IsWidth 31 (n / 2) 0 (omega arith) (omega arith)) ne
]
  where
    count :
        Counted 31 (n / 2) 0 → n ≢ 0 → (k : ℕ) × (highest_bit n ≡ some k) × (k ≤ 32) × IsWidth n k
    count (k, run, small, width) ne =
        (suc k, ground (arith, run), omega arith, IsWidth-suc n k ne width)

-- `m` is the least power of two that is not below `n`.
pub record IsLeastPow2 (n m : ℕ) : Type 0 where
  pub width : ℕ
  pub pow : m ≡ 2 ^ width
  pub enough : n ≤ m
  pub least : (j : ℕ) → n ≤ 2 ^ j → m ≤ 2 ^ j

abbrev CountedBit : ℕ → Type 0
CountedBit n = (k : ℕ) × (highest_bit n ≡ some k) × (k ≤ 32) × IsWidth n k

roundup-none : (n : ℕ) → 2 ^ 31 ≤ sub32 n 1 → CountedBit (sub32 n 1) → roundup_pow_of_two n ≡ none
unfolding roundup_pow_of_two shift_one
roundup-none n h (k, run, small, width) =
    rw run (ground (arith, lt_of_pow-lt 31 k (omega (arith, width.above))))

roundup-some :
    (n : ℕ)
    → 0 < n
    → n ≤ 2 ^ 31
    → CountedBit (sub32 n 1)
    → (m : ℕ) × (roundup_pow_of_two n ≡ some m) × IsLeastPow2 n m
unfolding roundup_pow_of_two shift_one
roundup-some n pos top (k, run, small, width) = (
  2 ^ k,
  rw run (ground (arith, under 32 (omega arith))),
  record {
    width = k;
    pow = refl;
    enough = omega (arith, width.above);
    least = λ j h. pow_mono k j (omega (arith, under (suc j) (omega (arith, pow-suc 2 j))));
  },
)
  where
    -- A power of two above `n - 1` is not below `2 ^ k`.
    under : (j : ℕ) → 2 * n ≤ 2 ^ j → k < j
    under j h = lt_of_pow-lt k j (elim (ℕ_discrete (sub32 n 1) 0) [
      | yes e ↦ omega (arith, width.bare e)
      | no ne ↦ omega (arith, width.below (omega arith))
    ])

-- Up to `2 ^ 31` the size is rounded up to the least power of two; above, the shift by 32 digits is
-- undefined, and so it is for 0.
pub roundup-IsLeastPow2 :
    (n : ℕ)
    → n < 2 ^ 32
    → ((n ≡ 0) ⊎ (2 ^ 31 < n) → roundup_pow_of_two n ≡ none)
      × (0 < n → n ≤ 2 ^ 31 → (m : ℕ) × (roundup_pow_of_two n ≡ some m) × IsLeastPow2 n m)
roundup-IsLeastPow2 n h =
    let bits : CountedBit (sub32 n 1) = highest_bit-IsWidth (sub32 n 1) (omega arith) in
    (λ out. roundup-none n (omega arith) bits, λ pos top. roundup-some n pos top bits)

-- For a size from 1 to `2 ^ 31` the block asked for is the least power of two that holds it.
pub alloc_size-IsLeastPow2 :
    (n : ℕ) → 0 < n → n ≤ 2 ^ 31 → (m : ℕ) × (alloc_size n ≡ some m) × IsLeastPow2 n m
unfolding alloc_size
alloc_size-IsLeastPow2 n pos top = elim (Bool-cases (bit_and n (sub32 n 1) == 0)) [
  | inl alone ↦ rw alone (exact (Pow2_of_mask n pos (shared alone)))
  | inr more ↦ rw more ((roundup-IsLeastPow2 n (omega arith)).1 pos top)
]
  where
    shared : (bit_and n (sub32 n 1) == 0) ≡ true → bit_and n (n - 1) ≡ 0
    shared e = let less : n - 1 ≡ sub32 n 1 = omega arith in ap (bit_and n) less ∙ ground arith

    exact : (k : ℕ) × (n ≡ 2 ^ k) → (m : ℕ) × (some n ≡ some m) × IsLeastPow2 n m
    exact (k, e) = (n, refl, record { width = k; pow = e; enough = omega arith; least = λ j h. h })

-- What `kfifo_alloc` returns when it asks for a block of `m` bytes, by what the pool gives: with both
-- blocks an empty FIFO, which has the first and from which `kfifo_free` gives both back; with the
-- first alone, or none, nothing, and no block stays allocated.
abbrev pub Answer : Option (List ℕ) → Bool → ℕ → ℕ → Option Kfifo × ℕ → Type 0
Answer (some b) true m live (r, l) =
    (f : Kfifo) × (r ≡ some f)
    × IsValid f
    × (contents f ≡ [])
    × (f.size ≡ m)
    × (f.buffer ≡ b)
    × (l ≡ live + 2)
    × (free f l ≡ live)
Answer (some b) false m live (r, l) = (r ≡ none) × (l ≡ live)
Answer none room m live (r, l) = (r ≡ none) × (l ≡ live)

abbrev pub Allocated : (ℕ → Option (List ℕ)) → Bool → ℕ → ℕ → Option Kfifo × ℕ → Type 0
Allocated pool room n live r = (m : ℕ) × IsLeastPow2 n m × Answer (pool m) room m live r

module _ (pool : ℕ → Option (List ℕ)) (n live : ℕ)
    (pool_length : (m : ℕ) (b : List ℕ) → pool m ≡ some b → length b ≡ m) (pos : 0 < n)
    (top : n ≤ 2 ^ 31) where
  abbrev Returned : Bool → ℕ → Option (List ℕ) → Type 0
  Returned room m found =
      (r : Option Kfifo × ℕ) × (alloc pool room n live ≡ some r) × Answer found room m live r

  fresh-IsValid :
      (m : ℕ) (b : List ℕ)
      → IsLeastPow2 n m
      → pool m ≡ some b
      → IsValid (record { buffer = b; size = m; in_pos = 0; out_pos = 0 })
  fresh-IsValid m b p found = record {
    width = p.width;
    pow = p.pow;
    small = p.least 31 top;
    stored = pool_length m b found;
    in_word = omega arith;
    out_word = omega arith;
    fits = omega arith;
  }

  alloc-pool :
      (room : Bool) (m : ℕ) (found : Option (List ℕ))
      → alloc_size n ≡ some m
      → IsLeastPow2 n m
      → pool m ≡ found
      → Returned room m found
  unfolding alloc free
  alloc-pool room m none e p got = ((none, live), rw (e, ◌>>=◌, got), (refl, refl))
  alloc-pool true m (some b) e p got =
      let f : Kfifo = record { buffer = b; size = m; in_pos = 0; out_pos = 0 } in
      (
        (some f, live + 2),
        rw (e, ◌>>=◌, got),
        (f, refl, fresh-IsValid m b p got, refl, refl, refl, refl, omega arith),
      )
  alloc-pool false m (some b) e p got =
      ((none, live), rw (e, ◌>>=◌, got) (ground arith), (refl, refl))

  -- `kfifo_alloc` of 1 to `2 ^ 31` bytes returns, and asks the pool for the least power of two that
  -- holds them. If the pool gives it both blocks the result is a valid and empty FIFO of that size
  -- in the first block, and `kfifo_free` gives both back; if not, the result is null and no block
  -- stays allocated.
  pub alloc-Allocated :
      (room : Bool)
      → (r : Option Kfifo × ℕ) × (alloc pool room n live ≡ some r) × Allocated pool room n live r
  alloc-Allocated room =
      let (m, e, p) = alloc_size-IsLeastPow2 n pos top in
      let (r, run, answer) = alloc-pool room m (pool m) e p refl in (r, run, (m, p, answer))
