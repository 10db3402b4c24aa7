-- ===== src/Keyed/Faults.antt =====
-- `insert` of a new key when `new` gives no item, or one whose key is not valid.
use kl.Base.{ℕ, ◌≡◌, ◌≢◌, refl, true, false, Option, none, some, List, ◌++◌, arith, ◌>>=◌}
use kl.Links.{Absent}
use kl.RefHolder.Counts.{born-Counts}
use kl.RefHolder.Owners.{occurrences, occurrences-append}
use kl.Keyed.Avl.{AvlRoutines}
use kl.Keyed.Sorted.{IsOrder, addresses, at, place_none}
use kl.Keyed.Keeps.{Stored-update, compare_dead, Keeps, Reads-Counts, Gap-Between}
use kl.Keyed.Calls.{let_go-Counts}
use kl.Keyed.Insert.{element_placed, Absent-of_occurrences}
use kl.Keyed.{KeyType, TreeItems, compare, create, settle, insert_item}

pub bind-none : {A B : Type 0} (x : Option A) → ◌>>=◌ {B = B} x (λ a. none) ≡ none
bind-none none = refl
bind-none (some a) = refl

module _ {K A Table : Type 0} (kt : KeyType K) (rt : AvlRoutines Table) (key : A → K)
    (o : IsOrder kt) (temp : ℕ) (k : K) (s : TreeItems Table A) (es : List (ℕ × A)) (held : List ℕ)
    (h : Keeps kt rt key s es held) (away : Absent temp (addresses kt key es)) where
  -- When `new` fails, the null `result` is dereferenced.
  pub insert_no_item :
      kt.check_valid k ≡ true
      → at kt key k es ≡ none
      → insert_item kt rt key temp k true none s ≡ none
  unfolding insert_item settle
  insert_no_item valid absent =
      let (ls, rs, g) = place_none kt key o k es h.sorted absent in
      let (t, done, elements) = element_placed kt rt key o temp k s es held h away 0 ls rs g in
      rw (valid, done, ◌>>=◌) (bind-none _)

  -- When the key of the new item is not valid, the table compares the item that was just deleted.
  pub insert_bad_item :
      (p : ℕ) (a : A)
      → p ≢ 0
      → p ≢ temp
      → occurrences (addresses kt key es ++ held) p ≡ 0
      → kt.check_valid k ≡ true
      → kt.check_valid (key a) ≡ false
      → at kt key k es ≡ none
      → insert_item kt rt key temp k true (some (p, a)) s ≡ none
  unfolding insert_item settle
  insert_bad_item p a real other fresh valid bad absent =
      let (ls, rs, g) = place_none kt key o k es h.sorted absent in
      let (t, done, elements) = element_placed kt rt key o temp k s es held h away p ls rs g in
      let n = occurrences (addresses kt key es ++ held) in
      let made = create kt rt key p a (record s { table = rt.set_item t temp p }) in
      let (c, dropped, counts) =
        let_go-Counts kt rt key o made n p (born-Counts s.objects n p h.counts fresh) real in
      let gone = record made { objects = c } in
      let clear =
        Absent-of_occurrences p (addresses kt key es)
          (omega (arith, fresh, occurrences-append (addresses kt key es) held p)) in
      let stored = Stored-update kt rt key s.value p (some a) es clear h.stored in
      let all =
        Reads-Counts kt rt key temp k gone n es counts
          (λ q l. omega (arith, l, occurrences-append (addresses kt key es) held q)) stored h.real
          away in
      let between = Gap-Between kt rt key temp k gone o es ls rs g all in
      let dead : c.live p ≡ false = ground (arith, counts.live p real, fresh) in
      let fault =
        rt.delete_fault (compare kt rt key temp k gone) gone.table temp p (addresses kt key ls)
          (addresses kt key rs) elements between
          (compare_dead kt rt key temp k gone p other dead) in
      rw (valid, done, ◌>>=◌, bad, dropped, ◌>>=◌, fault, ◌>>=◌) refl
