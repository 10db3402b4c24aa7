-- ===== src/SharedPtr/Actions.antt =====
-- What a program does with shared pointers, and the number of pointers with each counter.
use kl.Base.{
  ℕ, zero, suc, ◌+◌, ◌<◌, ◌≤◌, ◌≡◌, ◌≢◌, ◌∙◌, refl, ap, Option, some, List, [], ◌∷◌, ◌++◌, length,
  get_or, arith, ◌==◌, ◌>>=◌,
}
use kl.Links.{update}
use kl.RefHolder.Counts.{one}
use kl.RefHolder.Owners.{
  occurrences, set, occurrences-append, occurrences-le-length, occurrences-set, occurrences_pos,
}
use kl.SharedPtr.{
  Shared, SharedPtr, null_ptr, construct_copy, construct_move, assign, assign_move, assign_child,
  dec, make_shared,
}
use kl.SharedPtr.Shares.{Good}

pub data Action : Type 0 where
  make : Option ℕ → Option ℕ → Action
  copy : ℕ → Action
  move : ℕ → Action
  assign_copy : ℕ → ℕ → Action
  exchange : ℕ → ℕ → Action
  take_child : ℕ → ℕ → Action
  leave : ℕ → Action

-- The counters and objects, and the pointers. One that is gone counts as null.
pub record Program : Type 0 where
  pub shared : Shared
  pub pointers : List SharedPtr

abbrev pub at : List SharedPtr → ℕ → SharedPtr
at hs i = get_or hs i null_ptr

unfoldable pub step : Action → Program → Option Program
step (make got_ref got_object) s =
    let (h, shared) = make_shared got_ref got_object s.shared in
    some (record { shared = shared; pointers = s.pointers ++ (h ∷ []) })
step (copy i) s = construct_copy (at s.pointers i) s.shared >>= λ r.
    some (record { shared = r.1; pointers = s.pointers ++ (r.0 ∷ []) })
step (move i) s =
    let (new, old) = construct_move (at s.pointers i) in
    some (record s { pointers = set s.pointers i old ++ (new ∷ []) })
step (assign_copy i j) s = assign (at s.pointers i) (at s.pointers j) s.shared >>= λ r.
    some (record { shared = r.1; pointers = set s.pointers i r.0 })
step (exchange i j) s =
    let (this, other) = assign_move (at s.pointers i) (at s.pointers j) in
    some (record s { pointers = set (set s.pointers j other) i this })
step (take_child i j) s = assign_child (at s.pointers i) (at s.pointers j) s.shared >>= λ r.
    some (record { shared = r.2; pointers = set (set s.pointers j r.1) i r.0 })
step (leave i) s = dec (at s.pointers i) s.shared >>= λ shared.
    some (record { shared = shared; pointers = set s.pointers i null_ptr })

abbrev pub pns : List SharedPtr → List ℕ
pns [] = []
pns (h ∷ hs) = h.pn ∷ pns hs

abbrev pub AllGood : (ℕ → ℕ) → List SharedPtr → Type 0
AllGood obj [] = Unit {0}
AllGood obj (h ∷ hs) = Good obj h × AllGood obj hs

pns-set : (hs : List SharedPtr) (i : ℕ) (h : SharedPtr) → pns (set hs i h) ≡ set (pns hs) i h.pn
pns-set [] i h = refl
pns-set (x ∷ hs) zero h = refl
pns-set (x ∷ hs) (suc i) h = ap (λ t. x.pn ∷ t) (pns-set hs i h)

pns-append : (hs ks : List SharedPtr) → pns (hs ++ ks) ≡ pns hs ++ pns ks
pns-append [] ks = refl
pns-append (x ∷ hs) ks = ap (λ t. x.pn ∷ t) (pns-append hs ks)

pub length-pns : (hs : List SharedPtr) → length (pns hs) ≡ length hs
length-pns [] = refl
length-pns (x ∷ hs) = omega (arith, length-pns hs)

pub get_or-pns : (hs : List SharedPtr) (i : ℕ) → get_or (pns hs) i 0 ≡ (at hs i).pn
unfolding null_ptr
get_or-pns [] i = refl
get_or-pns (x ∷ hs) zero = refl
get_or-pns (x ∷ hs) (suc i) = get_or-pns hs i

pub length-set_ptr : (hs : List SharedPtr) (i : ℕ) (h : SharedPtr) → length (set hs i h) ≡ length hs
length-set_ptr [] i h = refl
length-set_ptr (x ∷ hs) zero h = refl
length-set_ptr (x ∷ hs) (suc i) h = omega (arith, length-set_ptr hs i h)

module _ (obj : ℕ → ℕ) where
  pub AllGood-get : (hs : List SharedPtr) (i : ℕ) → AllGood obj hs → Good obj (at hs i)
  unfolding null_ptr
  AllGood-get [] i g = λ k. absurd (k refl)
  AllGood-get (x ∷ hs) zero g = g.0
  AllGood-get (x ∷ hs) (suc i) g = AllGood-get hs i g.1

  pub AllGood-set :
      (hs : List SharedPtr) (i : ℕ) (h : SharedPtr)
      → AllGood obj hs
      → Good obj h
      → AllGood obj (set hs i h)
  AllGood-set [] i h g k = tt
  AllGood-set (x ∷ hs) zero h g k = (k, g.1)
  AllGood-set (x ∷ hs) (suc i) h g k = (g.0, AllGood-set hs i h g.1 k)

  pub AllGood-append :
      (hs : List SharedPtr) (h : SharedPtr)
      → AllGood obj hs
      → Good obj h
      → AllGood obj (hs ++ (h ∷ []))
  AllGood-append [] h g k = (k, tt)
  AllGood-append (x ∷ hs) h g k = (g.0, AllGood-append hs h g.1 k)

  pub AllGood-update :
      (hs : List SharedPtr) (ref p : ℕ)
      → occurrences (pns hs) ref ≡ 0
      → AllGood obj hs
      → AllGood (update obj ref p) hs
  AllGood-update [] ref p e g = tt
  AllGood-update (x ∷ hs) ref p e g =
      (λ k. ground (arith, e, g.0 k), AllGood-update hs ref p (omega (arith, e)) g.1)

  pub Good-null : Good obj null_ptr
  unfolding null_ptr
  Good-null k = absurd (k refl)

-- The number of pointers with each counter.
abbrev pub sharers : List SharedPtr → ℕ → ℕ
sharers hs = occurrences (pns hs)

module _ (hs : List SharedPtr) (h : SharedPtr) (q : ℕ) where
  pub sharers-set :
      (i : ℕ)
      → i < length hs
      → sharers (set hs i h) q + one (q == (at hs i).pn) ≡ sharers hs q + one (q == h.pn)
  sharers-set i k =
      rw (pns-set hs i h, ← get_or-pns hs i)
        (occurrences-set (pns hs) i h.pn q (omega (arith, length-pns hs, k)))

  pub sharers-append : sharers (hs ++ (h ∷ [])) q ≡ sharers hs q + one (q == h.pn)
  sharers-append =
      rw (pns-append hs (h ∷ [])) (occurrences-append (pns hs) (h.pn ∷ []) q ∙ omega arith)

pub sharers_pos : (hs : List SharedPtr) (i : ℕ) → i < length hs → 0 < sharers hs (at hs i).pn
sharers_pos hs i k =
    rw (← get_or-pns hs i) (occurrences_pos (pns hs) i (omega (arith, length-pns hs, k)))

pub sharers-le-length : (hs : List SharedPtr) (q : ℕ) → sharers hs q ≤ length hs
sharers-le-length hs q = omega (arith, occurrences-le-length (pns hs) q, length-pns hs)

-- A place keeps what it has when a copy of that is written anywhere.
at-set_copy :
    (hs : List SharedPtr) (i j : ℕ) (d : SharedPtr)
    → get_or (set hs j (get_or hs i d)) i d ≡ get_or hs i d
at-set_copy [] i j d = refl
at-set_copy (x ∷ hs) zero zero d = refl
at-set_copy (x ∷ hs) zero (suc j) d = refl
at-set_copy (x ∷ hs) (suc i) zero d = refl
at-set_copy (x ∷ hs) (suc i) (suc j) d = at-set_copy hs i j d

pub sharers-exchange :
    (hs : List SharedPtr) (i j q : ℕ)
    → i < length hs
    → j < length hs
    → sharers (set (set hs j (at hs i)) i (at hs j)) q ≡ sharers hs q
sharers-exchange hs i j q k l =
    let ks = set hs j (at hs i) in
    let kept : at ks i ≡ at hs i = at-set_copy hs i j null_ptr in
    let first = sharers-set hs (at hs i) q j l in
    let second = sharers-set ks (at hs j) q i (omega (arith, length-set_ptr hs j (at hs i), k)) in
    omega (arith, first, second, ap (λ (h : SharedPtr). one (q == h.pn)) kept)

at-set_other :
    (hs : List SharedPtr) (i j : ℕ) (h d : SharedPtr)
    → i ≢ j
    → get_or (set hs j h) i d ≡ get_or hs i d
at-set_other [] i j h d n = refl
at-set_other (x ∷ hs) zero zero h d n = absurd (n refl)
at-set_other (x ∷ hs) zero (suc j) h d n = refl
at-set_other (x ∷ hs) (suc i) zero h d n = refl
at-set_other (x ∷ hs) (suc i) (suc j) h d n = at-set_other hs i j h d (λ e. n (ground (arith, e)))

pub sharers-taken :
    (hs : List SharedPtr) (i j q : ℕ)
    → i < length hs
    → j < length hs
    → i ≢ j
    → sharers (set (set hs j null_ptr) i (at hs j)) q + one (q == (at hs i).pn)
      ≡ sharers hs q + one (q == null_ptr.pn)
sharers-taken hs i j q k l n =
    let ks = set hs j null_ptr in
    let kept : at ks i ≡ at hs i = at-set_other hs i j null_ptr null_ptr n in
    let first = sharers-set hs null_ptr q j l in
    let second = sharers-set ks (at hs j) q i (omega (arith, length-set_ptr hs j null_ptr, k)) in
    omega (arith, first, second, ap (λ (h : SharedPtr). one (q == h.pn)) kept)
