-- ===== src/JustACall.antt =====
-- skl/work_queue.hpp: `just_a_call`, a function to run later, whose copies share one counted item.
pub mod Moves
use kl.Base.{ℕ, Bool, true, false, not, Option, none, some, ◌>>=◌, if◌then◌else◌, ◌==◌}
use kl.Links.{update}
use kl.RefHolder.{Counted, retain_if, release_if}

-- `_routing` and `_param`, 0 where they are null.
pub record JustACall : Type 0 where
  pub routing : ℕ
  pub param : ℕ

unfoldable pub null_call : JustACall
null_call = record { routing = 0; param = 0 }

-- The constructor from a function: `proc` is `Proc<_Fn>`, `got_ptr` says if `make_shared` gives a
-- pointer, and `got_holder` is what `new` gives. The item's count is 1.
unfoldable pub construct : ℕ → Bool → Option ℕ → Counted → JustACall × Counted
unfolding null_call
construct proc false got_holder c = (null_call, c)
construct proc true none c = (null_call, c)
construct proc true (some holder) c = (
  record { routing = proc; param = holder },
  record { count = update c.count holder 1; live = update c.live holder true },
)

unfoldable pub construct_copy : JustACall → Counted → Option (JustACall × Counted)
construct_copy r c = retain_if r.param c >>= λ c'. some (r, c')

-- The new call, and what `r` is then.
unfoldable pub construct_move : JustACall → Counted → Option (JustACall × JustACall × Counted)
unfolding null_call
construct_move r c = let this = r in retain_if this.param c >>= λ c'. some (this, null_call, c')

unfoldable pub destroy : JustACall → Counted → Option Counted
destroy this c = release_if this.param c

-- `this->swap(r)`
unfoldable pub swap : JustACall → JustACall → JustACall × JustACall
swap this r = (r, this)

-- `just_a_call(r).swap(*this)`: the temporary goes away with what `this` had.
unfoldable pub assign : JustACall → JustACall → Counted → Option (JustACall × Counted)
unfolding construct_copy swap destroy
assign this r c = construct_copy r c >>= λ temp.
    let (left, this') = swap temp.0 this in destroy left temp.1 >>= λ c'. some (this', c')

unfoldable pub assign_move : JustACall → JustACall → JustACall × JustACall
unfolding swap
assign_move this r = let (r', this') = swap r this in (this', r')

-- `operator bool`, and `check_valid<just_a_call>`
unfoldable pub is_valid : JustACall → Bool
is_valid this = not (this.routing == 0)
