-- ===== src/SharedPtr.antt =====
-- skl/shared_ptr.hpp: `shared_ptr`, whose copies share an object and a counter of them, and
-- `helper::make_shared`.
pub mod Shares
pub mod Actions
pub mod Steps
pub mod Run
mod Tests
use kl.Base.{ℕ, Bool, true, false, Option, none, some, ◌>>=◌, if◌then◌else◌, ◌==◌, add32, sub32}
use kl.Links.{update}
use kl.RefHolder.{Counted}

-- The counters, by their addresses, and whether there is an object at each address.
pub record Shared : Type 0 where
  pub counters : Counted
  pub object : ℕ → Bool

-- `_ptr` and `_pn`
pub record SharedPtr : Type 0 where
  pub ptr : ℕ
  pub pn : ℕ

unfoldable pub null_ptr : SharedPtr
null_ptr = record { ptr = 0; pn = 0 }

-- `if (_ptr) checked_delete(_ptr)`; `none` is a delete of what is not there.
unfoldable pub delete_object : ℕ → Shared → Option Shared
delete_object p s =
    if p == 0
    then some s
    else if s.object p
    then some (record s { object = update s.object p false })
    else none

-- `dec`
unfoldable pub dec : SharedPtr → Shared → Option Shared
dec h s =
    if h.pn == 0
    then some s
    else if s.counters.live h.pn
    then (let r = sub32 (s.counters.count h.pn) 1 in
        let lower = record s {
          counters = record s.counters { count = update s.counters.count h.pn r };
        } in
        if r == 0
        then (delete_object h.ptr lower >>= λ s'. some (record s' {
          counters = record s'.counters { live = update s'.counters.live h.pn false };
        }))
        else some lower)
    else none

-- `if (_pn) (*_pn)++`
unfoldable pub inc : SharedPtr → Shared → Option Shared
inc h s =
    if h.pn == 0
    then some s
    else if s.counters.live h.pn
    then some (record s {
      counters = record s.counters {
        count = update s.counters.count h.pn (add32 (s.counters.count h.pn) 1);
      };
    })
    else none

unfoldable pub construct_copy : SharedPtr → Shared → Option (SharedPtr × Shared)
unfolding inc
construct_copy r s = inc r s >>= λ s'. some (r, s')

-- The new pointer, and what `r` is then.
unfoldable pub construct_move : SharedPtr → SharedPtr × SharedPtr
unfolding null_ptr
construct_move r = (r, null_ptr)

unfoldable pub swap : SharedPtr → SharedPtr → SharedPtr × SharedPtr
swap this r = (r, this)

-- `this_type(r).swap(*this)`: the temporary goes away with what `this` had.
unfoldable pub assign : SharedPtr → SharedPtr → Shared → Option (SharedPtr × Shared)
unfolding construct_copy swap
assign this r s = construct_copy r s >>= λ temp.
    let (left, this') = swap temp.0 this in dec left temp.1 >>= λ s'. some (this', s')

-- `r.swap(*this)`, and the assignment from a pointer to another type.
unfoldable pub assign_move : SharedPtr → SharedPtr → SharedPtr × SharedPtr
unfolding swap
assign_move this r = let (r', this') = swap r this in (this', r')

unfoldable pub assign_child :
    SharedPtr → SharedPtr → Shared → Option (SharedPtr × SharedPtr × Shared)
unfolding null_ptr
assign_child this r s = dec this s >>= λ s'. some (r, null_ptr, s')

unfoldable pub use_count : SharedPtr → Shared → ℕ
use_count h s = if h.pn == 0 then 0 else s.counters.count h.pn

-- `make_shared`, where `got_ref` and `got_object` are what the two uses of `new` give.
unfoldable pub make_shared : Option ℕ → Option ℕ → Shared → SharedPtr × Shared
unfolding null_ptr
make_shared none got_object s = (null_ptr, s)
make_shared (some ref) none s = (
  null_ptr,
  record s {
    counters = record {
      count = update s.counters.count ref 1;
      live = update (update s.counters.live ref true) ref false;
    };
  },
)
make_shared (some ref) (some p) s = (
  record { ptr = p; pn = ref },
  record {
    counters = record {
      count = update s.counters.count ref 1;
      live = update s.counters.live ref true;
    };
    object = update s.object p true;
  },
)
