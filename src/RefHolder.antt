-- ===== src/RefHolder.antt =====
-- skl/refholder.hpp: objects that count the references to them (`ref_item`), and the handles that
-- count as references (`ref_holder`).
pub mod Counts
pub mod Owners
pub mod Run
mod Tests
use kl.Base.{
  ℕ, ◌^◌, Bool, true, false, ◌||◌, Option, none, some, ◌>>=◌, if◌then◌else◌, ◌==◌, leb, add32,
  sub32,
}
use kl.Links.{update}

-- `_pn` of the object at each address, the bits of a 32-bit `long`, and whether the object is there.
-- Null is address 0.
pub record Counted : Type 0 where
  pub count : ℕ → ℕ
  pub live : ℕ → Bool

-- `r < 1` for the bits of a signed `long`.
abbrev pub below_one : ℕ → Bool
below_one r = r == 0 || leb (2 ^ 31) r

-- `ref_item::retain` and `ref_item::release`; `none` is a call on an object that is not there.
unfoldable pub retain : ℕ → Counted → Option (ℕ × Counted)
retain p c =
    if c.live p
    then (let r = add32 (c.count p) 1 in some (r, record c { count = update c.count p r }))
    else none

unfoldable pub release : ℕ → Counted → Option (ℕ × Counted)
release p c =
    if c.live p
    then (let r = sub32 (c.count p) 1 in
        some (
          r,
          record c {
            count = update c.count p r;
            live = if below_one r then update c.live p false else c.live;
          },
        ))
    else none

-- `if (_ptr) _ptr->retain()` and the same with `release`
unfoldable pub retain_if : ℕ → Counted → Option Counted
retain_if p c = if p == 0 then some c else (retain p c >>= λ r. some r.1)

unfoldable pub release_if : ℕ → Counted → Option Counted
release_if p c = if p == 0 then some c else (release p c >>= λ r. some r.1)

-- A holder is its `_ptr`. Constructors give that of the new holder; those that move, and the
-- assignment that moves, give that of the other holder too.
unfoldable pub construct : ℕ → Counted → Option (ℕ × Counted)
construct ptr c = retain_if ptr c >>= λ c'. some (ptr, c')

unfoldable pub construct_copy : ℕ → Counted → Option (ℕ × Counted)
construct_copy r c = retain_if r c >>= λ c'. some (r, c')

unfoldable pub construct_move : ℕ → ℕ × ℕ
construct_move r = (r, 0)

-- `same` is `this == &r`.
unfoldable pub assign : Bool → ℕ → ℕ → Counted → Option (ℕ × Counted)
assign same ptr r c =
    if same
    then some (ptr, c)
    else (release_if ptr c >>= λ c1. retain_if r c1 >>= λ c2. some (r, c2))

unfoldable pub assign_move : Bool → ℕ → ℕ → Counted → Option (ℕ × ℕ × Counted)
assign_move same ptr r c =
    if same then some (ptr, r, c) else (release_if ptr c >>= λ c1. some (r, 0, c1))

unfoldable pub destroy : ℕ → Counted → Option Counted
destroy ptr c = release_if ptr c
