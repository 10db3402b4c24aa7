-- ===== src/SharedPtr/Steps.antt =====
-- Each action on shared pointers keeps counters and objects right.
use kl.Base.{
  ℕ, ◌+◌, ◌<◌, ◌^◌, ◌≡◌, ◌≢◌, refl, false, Option, none, some, [], ◌∷◌, ◌++◌, length, arith, ◌>>=◌,
}
use kl.Links.{update}
use kl.RefHolder.Owners.{set}
use kl.SharedPtr.{
  Shared, SharedPtr, null_ptr, construct_copy, construct_move, assign, assign_move, assign_child,
  use_count, make_shared,
}
use kl.SharedPtr.Shares.{Shares, Shares-same, inc-Shares, dec-Shares}
use kl.SharedPtr.Actions.{
  Action, make, copy, move, assign_copy, exchange, take_child, leave, Program, at, step, AllGood,
  AllGood-get, AllGood-set, AllGood-append, AllGood-update, Good-null, sharers, sharers-set,
  sharers-append, sharers_pos, sharers-le-length, sharers-exchange, sharers-taken,
}

-- Each counter is there exactly while a pointer has it, with the number of those as its value; each of
-- them has an object of its own, which its pointers have; and there is no other object.
pub record Owned (s : Program) : Type 0 where
  pub obj : ℕ → ℕ
  pub owner : ℕ → ℕ
  pub shares : Shares s.shared (sharers s.pointers) obj owner
  pub good : AllGood obj s.pointers

-- The pointers that an action names are there, there are fewer than 2 ^ 31, and `new` gives addresses
-- at which nothing is.
abbrev pub Allowed : Action → Program → Type 0
Allowed (make none got_object) s = Unit {0}
Allowed (make (some ref) none) s = (ref ≢ 0) × (s.shared.counters.live ref ≡ false)
Allowed (make (some ref) (some p)) s =
    (ref ≢ 0) × (p ≢ 0) × (s.shared.counters.live ref ≡ false) × (s.shared.object p ≡ false)
Allowed (copy i) s = (i < length s.pointers) × (length s.pointers + 1 < 2 ^ 31)
Allowed (move i) s = i < length s.pointers
Allowed (assign_copy i j) s =
    (i < length s.pointers) × (j < length s.pointers) × (length s.pointers + 1 < 2 ^ 31)
Allowed (exchange i j) s = (i < length s.pointers) × (j < length s.pointers)
Allowed (take_child i j) s = (i < length s.pointers) × (j < length s.pointers) × (i ≢ j)
Allowed (leave i) s = i < length s.pointers

abbrev pub Stepped : Action → Program → Type 0
Stepped a s = (s' : Program) × (step a s ≡ some s') × Owned s'

module _ (s : Program) (h : Owned s) where
  copy-Owned : (i : ℕ) → Allowed (copy i) s → Stepped (copy i) s
  unfolding step construct_copy
  copy-Owned i k =
      let x = at s.pointers i in
      let (shared, e, shares) =
        inc-Shares s.shared (sharers s.pointers) h.obj h.owner x h.shares (λ z.
          (sharers_pos s.pointers i k.0, omega (arith, sharers-le-length s.pointers x.pn, k.1))) in
      (
        record { shared = shared; pointers = s.pointers ++ (x ∷ []) },
        rw (e, ◌>>=◌) refl,
        record {
          obj = h.obj;
          owner = h.owner;
          shares =
              Shares-same shared _ _ h.obj h.owner (λ q z. sharers-append s.pointers x q) shares;
          good = AllGood-append h.obj s.pointers x h.good (AllGood-get h.obj s.pointers i h.good);
        },
      )

  move-Owned : (i : ℕ) → Allowed (move i) s → Stepped (move i) s
  unfolding step construct_move null_ptr
  move-Owned i k =
      let x = at s.pointers i in
      let hs = set s.pointers i null_ptr in
      (
        record s { pointers = hs ++ (x ∷ []) },
        refl,
        record {
          obj = h.obj;
          owner = h.owner;
          shares =
              Shares-same s.shared _ _ h.obj h.owner
                (λ q z.
                  ground (arith, sharers-append hs x q, sharers-set s.pointers null_ptr q i k))
                h.shares;
          good =
              AllGood-append h.obj hs x
                (AllGood-set h.obj s.pointers i null_ptr h.good (Good-null h.obj))
                (AllGood-get h.obj s.pointers i h.good);
        },
      )

  leave-Owned : (i : ℕ) → Allowed (leave i) s → Stepped (leave i) s
  unfolding step null_ptr
  leave-Owned i k =
      let x = at s.pointers i in
      let hs = set s.pointers i null_ptr in
      let (shared, e, shares) =
        dec-Shares s.shared (sharers hs) h.obj h.owner x
          (Shares-same s.shared _ _ h.obj h.owner
            (λ q z. ground (arith, sharers-set s.pointers null_ptr q i k)) h.shares)
          (AllGood-get h.obj s.pointers i h.good) in
      (
        record { shared = shared; pointers = hs },
        rw (e, ◌>>=◌) refl,
        record {
          obj = h.obj;
          owner = h.owner;
          shares = shares;
          good = AllGood-set h.obj s.pointers i null_ptr h.good (Good-null h.obj);
        },
      )

  assign_copy-Owned : (i j : ℕ) → Allowed (assign_copy i j) s → Stepped (assign_copy i j) s
  unfolding step assign construct_copy
  assign_copy-Owned i j k =
      let x = at s.pointers i in
      let y = at s.pointers j in
      let hs = set s.pointers i y in
      let (one_more, e, shares) =
        inc-Shares s.shared (sharers s.pointers) h.obj h.owner y h.shares (λ z.
          (sharers_pos s.pointers j k.1, omega (arith, sharers-le-length s.pointers y.pn, k.2))) in
      let (shared, e', shares') =
        dec-Shares one_more (sharers hs) h.obj h.owner x
          (Shares-same one_more _ _ h.obj h.owner
            (λ q z. omega (arith, sharers-set s.pointers y q i k.0)) shares)
          (AllGood-get h.obj s.pointers i h.good) in
      (
        record { shared = shared; pointers = hs },
        rw (e, ◌>>=◌, e', ◌>>=◌) refl,
        record {
          obj = h.obj;
          owner = h.owner;
          shares = shares';
          good = AllGood-set h.obj s.pointers i y h.good (AllGood-get h.obj s.pointers j h.good);
        },
      )

  exchange-Owned : (i j : ℕ) → Allowed (exchange i j) s → Stepped (exchange i j) s
  unfolding step assign_move
  exchange-Owned i j k =
      let x = at s.pointers i in
      let y = at s.pointers j in
      (
        record s { pointers = set (set s.pointers j x) i y },
        refl,
        record {
          obj = h.obj;
          owner = h.owner;
          shares =
              Shares-same s.shared _ _ h.obj h.owner
                (λ q z. sharers-exchange s.pointers i j q k.0 k.1) h.shares;
          good =
              AllGood-set h.obj (set s.pointers j x) i y
                (AllGood-set h.obj s.pointers j x h.good (AllGood-get h.obj s.pointers i h.good))
                (AllGood-get h.obj s.pointers j h.good);
        },
      )

  take_child-Owned : (i j : ℕ) → Allowed (take_child i j) s → Stepped (take_child i j) s
  unfolding step assign_child null_ptr
  take_child-Owned i j k =
      let x = at s.pointers i in
      let y = at s.pointers j in
      let hs = set (set s.pointers j null_ptr) i y in
      let (shared, e, shares) =
        dec-Shares s.shared (sharers hs) h.obj h.owner x
          (Shares-same s.shared _ _ h.obj h.owner
            (λ q z. ground (arith, sharers-taken s.pointers i j q k.0 k.1 k.2)) h.shares)
          (AllGood-get h.obj s.pointers i h.good) in
      (
        record { shared = shared; pointers = hs },
        rw (e, ◌>>=◌) refl,
        record {
          obj = h.obj;
          owner = h.owner;
          shares = shares;
          good =
              AllGood-set h.obj (set s.pointers j null_ptr) i y
                (AllGood-set h.obj s.pointers j null_ptr h.good (Good-null h.obj))
                (AllGood-get h.obj s.pointers j h.good);
        },
      )

  -- `use_count` of a pointer with a counter is the number of pointers that share it.
  pub use_count_lem :
      (i : ℕ)
      → i < length s.pointers
      → (at s.pointers i).pn ≢ 0
      → use_count (at s.pointers i) s.shared ≡ sharers s.pointers (at s.pointers i).pn
  unfolding use_count
  use_count_lem i k z =
      ground (arith, h.shares.counts.count (at s.pointers i).pn z, sharers_pos s.pointers i k)

  -- A null pointer more.
  null-Owned :
      (shared : Shared)
      → Shares shared (sharers s.pointers) h.obj h.owner
      → Owned (record { shared = shared; pointers = s.pointers ++ (null_ptr ∷ []) })
  unfolding null_ptr
  null-Owned shared shares = record {
    obj = h.obj;
    owner = h.owner;
    shares =
        Shares-same shared _ _ h.obj h.owner
          (λ q z. ground (arith, sharers-append s.pointers null_ptr q)) shares;
    good = AllGood-append h.obj s.pointers null_ptr h.good (Good-null h.obj);
  }

  make-Owned :
      (got_ref got_object : Option ℕ)
      → Allowed (make got_ref got_object) s
      → Stepped (make got_ref got_object) s
  unfolding step make_shared
  make-Owned none got_object k = (_, refl, null-Owned s.shared h.shares)
  make-Owned (some ref) none k =
      let unused : sharers s.pointers ref ≡ 0 = ground (arith, h.shares.counts.live ref k.0) in
      (
        _,
        refl,
        null-Owned _ (record {
          counts = record {
            live = λ q z. ground (arith, h.shares.counts.live q z);
            count = λ q z l. ground (arith, h.shares.counts.count q z, unused);
            small = h.shares.counts.small;
          };
          objects = h.shares.objects;
          owned = h.shares.owned;
        }),
      )
  make-Owned (some ref) (some p) k =
      let unused : sharers s.pointers ref ≡ 0 = ground (arith, h.shares.counts.live ref k.0) in
      let new : SharedPtr = record { ptr = p; pn = ref } in
      let hs = s.pointers ++ (new ∷ []) in
      (
        _,
        refl,
        record {
          obj = update h.obj ref p;
          owner = update h.owner p ref;
          shares =
              Shares-same _ _ _ _ _ (λ q z. sharers-append s.pointers new q)
                (record {
                  counts = record {
                    live = λ q z. ground (arith, h.shares.counts.live q z);
                    count = λ q z l. ground (arith, h.shares.counts.count q z, unused);
                    small = λ q z. ground (arith, h.shares.counts.small q z, unused);
                  };
                  objects = λ q z l. ground (arith, h.shares.objects q z);
                  owned = λ a y. ground (arith, h.shares.owned a);
                });
          good =
              AllGood-append _ s.pointers new (AllGood-update h.obj s.pointers ref p unused h.good)
                (λ z. ground arith);
        },
      )

  pub step-Owned : (a : Action) → Allowed a s → Stepped a s
  step-Owned (make got_ref got_object) k = make-Owned got_ref got_object k
  step-Owned (copy i) k = copy-Owned i k
  step-Owned (move i) k = move-Owned i k
  step-Owned (assign_copy i j) k = assign_copy-Owned i j k
  step-Owned (exchange i j) k = exchange-Owned i j k
  step-Owned (take_child i j) k = take_child-Owned i j k
  step-Owned (leave i) k = leave-Owned i k
