-- ===== src/Text/Inv.antt =====
-- The representation invariant of `class string`, and the characters that it stands for.
use kl.Base.{ℕ, ◌*◌, ◌/◌, ◌%◌, ◌^◌, ◌≤◌, ◌<◌, ◌≡◌, refl, ap, Option, none, some, List, [], arith}
use kl.Base.{length, take, length-take}
use kl.Text.{UnicodeString, cells, null_string, char_count}

-- The lengths stay inside the block, and a string with no block is empty.
abbrev pub Held : Option (List ℕ) → ℕ → ℕ → Type 0
Held none bytes maximum = bytes ≡ 0
Held (some b) bytes maximum = (bytes ≤ 2 * length b) × (maximum ≤ 2 * length b)

pub record IsValid (s : UnicodeString) : Type 0 where
  pub even : s.length_bytes % 2 ≡ 0
  pub word : s.length_bytes < 2 ^ 16
  pub held : Held s.buffer s.length_bytes s.maximum_bytes

abbrev pub chars_of : Option (List ℕ) → ℕ → List ℕ
chars_of none bytes = []
chars_of (some b) bytes = take (bytes / 2) b

abbrev pub chars : UnicodeString → List ℕ
chars s = chars_of s.buffer s.length_bytes

pub null_string-IsValid : IsValid null_string
null_string-IsValid = omega arith

length-chars_of :
    (o : Option (List ℕ)) (bytes maximum : ℕ)
    → Held o bytes maximum
    → length (chars_of o bytes) ≡ bytes / 2
length-chars_of none bytes maximum h = omega arith
length-chars_of (some b) bytes maximum h = omega (arith, length-take (bytes / 2) b)

pub length-chars : (s : UnicodeString) → IsValid s → length (chars s) ≡ s.length_bytes / 2
length-chars s v = length-chars_of s.buffer s.length_bytes s.maximum_bytes v.held

char_count-parts :
    (o : Option (List ℕ)) (bytes maximum : ℕ)
    → Held o bytes maximum
    → char_count (record { buffer = o; length_bytes = bytes; maximum_bytes = maximum }) ≡ bytes / 2
unfolding char_count
char_count-parts none bytes maximum h = omega arith
char_count-parts (some b) bytes maximum h = refl

pub char_count-eq : (s : UnicodeString) → IsValid s → char_count s ≡ s.length_bytes / 2
char_count-eq s v = char_count-parts s.buffer s.length_bytes s.maximum_bytes v.held

-- `length()` is the number of characters.
pub char_count-chars : (s : UnicodeString) → IsValid s → char_count s ≡ length (chars s)
char_count-chars s v = omega (arith, length-chars s v, char_count-eq s v)

cells-parts :
    (o : Option (List ℕ)) (l m : ℕ)
    → Held o l m
    → let s : UnicodeString = record { buffer = o; length_bytes = l; maximum_bytes = m } in
      (take (char_count s) (cells s) ≡ chars s)
      × (char_count s ≤ length (cells s))
      × (take (l / 2) (cells s) ≡ chars s)
      × (l / 2 ≤ length (cells s))
unfolding char_count
cells-parts none l m h =
    let empty : l / 2 ≡ 0 = omega arith in
    (refl, omega arith, ap (λ n. take n []) empty, omega arith)
cells-parts (some b) l m h = (refl, omega arith, refl, omega arith)

-- The characters are the first cells of the block, by either way of counting them.
pub cells-chars :
    (s : UnicodeString)
    → IsValid s
    → (take (char_count s) (cells s) ≡ chars s)
      × (char_count s ≤ length (cells s))
      × (take (s.length_bytes / 2) (cells s) ≡ chars s)
      × (s.length_bytes / 2 ≤ length (cells s))
cells-chars s v = cells-parts s.buffer s.length_bytes s.maximum_bytes v.held
