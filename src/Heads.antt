-- ===== src/Heads.antt =====
-- skl/list.hpp: what its containers do to the links themselves: `queue::swap`, and the static `swap`
-- and `append` and the unlinking in `remove` of `list`.
pub mod Swap
pub mod Append
pub mod Unlink
use kl.Base.{ℕ, Bool, true, false, if◌then◌else◌, ◌==◌}
use kl.Links.{Links, set_flink, set_blink, ListRoutines}

-- The head `l` takes over a list from its first cell `f` to its last `b`.
unfoldable pub adopt : ℕ → ℕ → ℕ → Links → Links
adopt l f b h = set_flink b l (set_blink f l (set_blink l b (set_flink l f h)))

module _ (rt : ListRoutines) where
  -- `swap(PLIST_ENTRY l, PLIST_ENTRY r)`, and `queue::swap` likewise.
  unfoldable pub swap : ℕ → ℕ → Links → Links
  swap l r h =
      if l == r
      then h
      else let this_empty = rt.is_list_empty h l in
        let other_empty = rt.is_list_empty h r in
        let h1 =
          if other_empty then rt.initialize_list_head h l else adopt l (h.flink r) (h.blink r) h in
        if this_empty then rt.initialize_list_head h1 r else adopt r (h.flink l) (h.blink l) h1

  -- `append(PLIST_ENTRY l, PLIST_ENTRY r)`
  unfoldable pub append : ℕ → ℕ → Links → Bool × Links
  append l r h =
      if rt.is_list_empty h r
      then (true, h)
      else if l == r
      then (false, h)
      else let front = h.flink l in
        let f = h.flink r in
        let b = h.blink r in
        (
          true,
          rt.initialize_list_head
              (set_blink f l (set_flink l f (set_flink b front (set_blink front b h)))) r,
        )

-- The links of `e` are both null once it is in no list.
unfoldable pub clear_entry : ℕ → Links → Links
clear_entry e h = set_blink e 0 (set_flink e 0 h)

-- The links in `remove`, and their test.
unfoldable pub linked : ℕ → Links → Bool
linked e h = if h.flink e == 0 then false else if h.blink e == 0 then false else true

unfoldable pub unlink : ℕ → Links → Links
unfolding clear_entry
unlink e h =
    let next = h.flink e in
    let prev = h.blink e in clear_entry e (set_blink next prev (set_flink prev next h))
