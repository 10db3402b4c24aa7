-- ===== src/Text/Assign.antt =====
-- The copy constructor of `class string` and `operator=`.
use kl.Base.{
  ℕ, ◌+◌, ◌*◌, ◌/◌, ◌%◌, ◌^◌, ◌≤◌, ◌<◌, ◌≡◌, ◌∙◌, refl, sym, Bool-cases, true, false, Option, none,
  some, List, [], arith,
}
use kl.Base.{eq-nil_of_length, length, take, u16, inl, inr, ltb, leb, lt→ltb, ltb→lt, ltb→le}
use kl.Text.{
  UnicodeString, null_string, copy_bytes, copy, assign, overwrite, reallocate, clear, char_count,
}
use kl.Text.Inv.{IsValid, Held, chars, chars_of, null_string-IsValid, length-chars, char_count-eq}
use kl.Text.Build.{IsPool, copy_bytes_lem}

-- What a copy of `s` holds, by the block that the pool gave it.
abbrev pub Copied : Option (List ℕ) → UnicodeString → UnicodeString → Type 0
Copied none s t = t ≡ null_string
Copied (some b) s t = chars t ≡ chars s

Held-zero : (o : Option (List ℕ)) (l m : ℕ) → Held o l m → Held o 0 m
Held-zero none l m h = refl
Held-zero (some b) l m h = omega arith

chars_of-zero : (o : Option (List ℕ)) → chars_of o 0 ≡ []
chars_of-zero none = refl
chars_of-zero (some b) = refl

-- A copy of a non-empty block of characters into a block with room for one more.
refill :
    (o : Option (List ℕ)) (bytes maximum m : ℕ) (b : List ℕ)
    → Held o bytes maximum
    → bytes % 2 ≡ 0
    → bytes < 2 ^ 16
    → 0 < bytes
    → bytes ≤ 2 * length b
    → m ≤ 2 * length b
    → (b' : List ℕ) × (copy_bytes b o bytes ≡ some b')
      × IsValid (record { buffer = some b'; length_bytes = bytes; maximum_bytes = m })
      × (take (bytes / 2) b' ≡ chars_of o bytes)
refill none bytes maximum m b h even word pos room spare = absurd (omega arith)
refill (some src) bytes maximum m b h even word pos room spare =
    let (b', run, len, same) = copy_bytes_lem b src bytes even room h.0 in
    (b', run, record { even = even; word = word; held = omega arith }, same)

module _ (pool : ℕ → Option (List ℕ)) (law : IsPool pool) (s : UnicodeString) (v : IsValid s) where
  maximum_fits :
      (b : List ℕ)
      → length b ≡ s.length_bytes / 2 + 1
      → u16 (u16 (s.length_bytes / 2 + 1) * 2) ≤ 2 * length b
  maximum_fits b e = omega (arith, v.word)

  Copied-nonempty :
      (got : Option (List ℕ))
      → 0 < char_count s
      → pool (s.length_bytes / 2 + 1) ≡ got
      → (t : UnicodeString) × (copy pool s ≡ some t) × IsValid t × Copied got s t
  unfolding copy
  Copied-nonempty none pos e =
      (null_string, rw (lt→ltb 0 (char_count s) pos, e), null_string-IsValid, refl)
  Copied-nonempty (some b) pos e =
      let len = law (s.length_bytes / 2 + 1) b e in
      let (b', run, ok, same) =
        refill s.buffer s.length_bytes s.maximum_bytes (u16 (u16 (s.length_bytes / 2 + 1) * 2)) b
          v.held v.even v.word (omega (arith, char_count-eq s v)) (omega arith)
          (maximum_fits b len) in
      (
        record {
          buffer = some b';
          length_bytes = s.length_bytes;
          maximum_bytes = u16 (u16 (s.length_bytes / 2 + 1) * 2);
        },
        rw (lt→ltb 0 (char_count s) pos, e, run),
        ok,
        same,
      )

  chars-empty : ltb 0 (char_count s) ≡ false → chars s ≡ []
  chars-empty e =
      eq-nil_of_length (chars s)
        (omega (arith, length-chars s v, char_count-eq s v, ltb→le 0 (char_count s) e))

  Copied-empty : (got : Option (List ℕ)) → chars s ≡ [] → Copied got s null_string
  Copied-empty none e = refl
  Copied-empty (some b) e = sym e

  -- The copy constructor, of a valid string, never leaves its blocks and gives a valid one; where the pool has room the copy holds the same
  -- characters, and where it has not the copy is the null string.
  pub copy-Copied :
      (t : UnicodeString) × (copy pool s ≡ some t)
      × IsValid t
      × Copied (pool (s.length_bytes / 2 + 1)) s t
  copy-Copied = elim (Bool-cases (ltb 0 (char_count s))) [
    | inl more ↦ Copied-nonempty (pool (s.length_bytes / 2 + 1)) (ltb→lt 0 (char_count s) more) refl
    | inr empty ↦
        (null_string, copy_null empty, null_string-IsValid, Copied-empty _ (chars-empty empty))
  ]
    where
      copy_null : ltb 0 (char_count s) ≡ false → copy pool s ≡ some null_string
      copy_null e = unfold copy in rw e

  -- The copy into a block that is there.
  overwrite-some :
      (b : List ℕ) (m : ℕ)
      → 0 < char_count s
      → s.length_bytes ≤ 2 * length b
      → m ≤ 2 * length b
      → (t : UnicodeString) × (overwrite
            (record { buffer = some b; length_bytes = 0; maximum_bytes = m })
            s
          ≡ some t)
        × IsValid t
        × (chars t ≡ chars s)
  unfolding overwrite
  overwrite-some b m pos room spare =
      let (b', run, ok, same) =
        refill s.buffer s.length_bytes s.maximum_bytes m b v.held v.even v.word
          (omega (arith, char_count-eq s v)) room spare in
      (
        record { buffer = some b'; length_bytes = s.length_bytes; maximum_bytes = m },
        rw run,
        ok,
        same,
      )

  abbrev Assigned : UnicodeString → Type 0
  Assigned this =
      (t : UnicodeString) × (assign pool this s ≡ some t) × IsValid t × (chars t ≡ chars s)

  assign_new :
      (o : Option (List ℕ)) (l m : ℕ) (b : List ℕ)
      → 0 < char_count s
      → leb m s.length_bytes ≡ true
      → pool (s.length_bytes / 2 + 1) ≡ some b
      → assign pool (record { buffer = o; length_bytes = l; maximum_bytes = m }) s
        ≡ overwrite
            (record {
              buffer = some b;
              length_bytes = 0;
              maximum_bytes = u16 (u16 (s.length_bytes / 2 + 1) * 2);
            })
            s
  unfolding assign reallocate clear
  assign_new o l m b pos more e = rw (lt→ltb 0 (char_count s) pos, more, e, reallocate)

  assign_old :
      (o : Option (List ℕ)) (l m : ℕ)
      → 0 < char_count s
      → leb m s.length_bytes ≡ false
      → assign pool (record { buffer = o; length_bytes = l; maximum_bytes = m }) s
        ≡ overwrite (record { buffer = o; length_bytes = 0; maximum_bytes = m }) s
  unfolding assign clear
  assign_old o l m pos less = rw (lt→ltb 0 (char_count s) pos, less)

  Assigned-old :
      (o : Option (List ℕ)) (l m : ℕ)
      → Held o l m
      → (o ≡ none → m ≡ 0)
      → 0 < char_count s
      → leb m s.length_bytes ≡ false
      → Assigned (record { buffer = o; length_bytes = l; maximum_bytes = m })
  Assigned-old none l m h fresh pos less = absurd (ground (arith, fresh refl))
  Assigned-old (some b) l m h fresh pos less =
      let (t, run, ok, same) = overwrite-some b m pos (ground (arith, h.1)) h.1 in
      (t, assign_old (some b) l m pos less ∙ run, ok, same)

  Assigned-nonempty :
      (o : Option (List ℕ)) (l m : ℕ) (b : List ℕ)
      → Held o l m
      → (o ≡ none → m ≡ 0)
      → pool (s.length_bytes / 2 + 1) ≡ some b
      → 0 < char_count s
      → Assigned (record { buffer = o; length_bytes = l; maximum_bytes = m })
  Assigned-nonempty o l m b h fresh e pos = elim (Bool-cases (leb m s.length_bytes)) [
    | inl more ↦
        let len = law (s.length_bytes / 2 + 1) b e in
        let (t, run, ok, same) = overwrite-some b _ pos (omega arith) (maximum_fits b len) in
        (t, assign_new o l m b pos more e ∙ run, ok, same)
    | inr less ↦ Assigned-old o l m h fresh pos less
  ]

  Assigned-empty :
      (this : UnicodeString) → IsValid this → ltb 0 (char_count s) ≡ false → Assigned this
  Assigned-empty this ok e = (
    record this { length_bytes = 0 },
    unfold assign clear in rw e,
    record {
      even = refl;
      word = omega arith;
      held = Held-zero this.buffer this.length_bytes this.maximum_bytes ok.held;
    },
    chars_of-zero this.buffer ∙ sym (chars-empty e),
  )

  -- `operator=`, between valid strings, never leaves its blocks, and the object then is valid and
  -- holds the characters of `s`: where the pool has room for a copy, and the object, if it has no
  -- block, has a `MaximumLength` of 0.
  pub assign-chars :
      (this : UnicodeString) {b : List ℕ}
      → IsValid this
      → (this.buffer ≡ none → this.maximum_bytes ≡ 0)
      → pool (s.length_bytes / 2 + 1) ≡ some b
      → (t : UnicodeString) × (assign pool this s ≡ some t) × IsValid t × (chars t ≡ chars s)
  assign-chars this {b} ok fresh e = elim (Bool-cases (ltb 0 (char_count s))) [
    | inl more ↦
        Assigned-nonempty this.buffer this.length_bytes this.maximum_bytes b ok.held fresh e
          (ltb→lt 0 (char_count s) more)
    | inr empty ↦ Assigned-empty this ok empty
  ]

overwrite_gone :
    (o : Option (List ℕ)) (m : ℕ) (s : UnicodeString)
    → o ≡ none
    → overwrite (record { buffer = o; length_bytes = 0; maximum_bytes = m }) s
      ≡ some (record { buffer = o; length_bytes = 0; maximum_bytes = m })
unfolding overwrite
overwrite_gone none m s e = refl
overwrite_gone (some b) m s e = cc

-- An object without a block whose `MaximumLength` is not 0, as a failed reallocation leaves it: an
-- assignment of fewer bytes than that asks for no block and leaves the string empty, whatever the
-- pool has.
pub assign_stale :
    (pool : ℕ → Option (List ℕ)) (this s : UnicodeString)
    → this.buffer ≡ none
    → s.length_bytes < this.maximum_bytes
    → (assign pool this s ≡ some (clear this)) × (chars (clear this) ≡ [])
unfolding assign clear
assign_stale pool this s gone less = (
  ground (arith, overwrite_gone this.buffer this.maximum_bytes s gone),
  chars_of-zero this.buffer,
)
