-- ===== src/Text.antt =====
-- skl/string.hpp: `class string`, a counted string of 16-bit characters in a `UNICODE_STRING`.
-- A block is the list of its characters, a null pointer `none`. An operation that writes an object
-- returns its new value, and `none` is an access outside a block.
pub mod Inv
pub mod Build
pub mod Assign
pub mod Compare
pub mod Order
pub mod Less
pub mod Affix
pub mod Prefix
pub mod StartEnd
pub mod Find
pub mod Search
pub mod FindChar
pub mod FindText
pub mod Occurrences
pub mod Replace
pub mod Substr
pub mod Substitute
pub mod Substituted
pub mod Pieces
pub mod Copying
pub mod Rebuilt
pub mod Repalce
pub mod At
mod Tests
use kl.Base.{
  ℕ, zero, suc, ◌+◌, ◌*◌, ◌/◌, ◌%◌, Bool, true, false, ◌||◌, Option, none, some, List, [], ◌∷◌,
}
use mathlib.Core.Option
use kl.Base.{if◌then◌else◌, ltb, leb, ◌==◌, ◌>>=◌, u16, copy_block, get_elem?}

-- `UNICODE_STRING`: the lengths count bytes.
pub record UnicodeString : Type 0 where
  pub buffer : Option (List ℕ)
  pub length_bytes : ℕ
  pub maximum_bytes : ℕ

-- `_unicodeStr.Buffer` as a pointer: the cells from it on.
abbrev pub cells : UnicodeString → List ℕ
cells s = elim s.buffer [ none ↦ [] | some b ↦ b ]

abbrev pub null_string : UnicodeString
null_string = record { buffer = none; length_bytes = 0; maximum_bytes = 0 }

-- `RtlCopyMemory` of `bytes` bytes to the start of `dst`. A count that splits a character is not
-- modelled, and counts as a fault.
pub copy_bytes : List ℕ → Option (List ℕ) → ℕ → Option (List ℕ)
copy_bytes dst none bytes = if bytes == 0 then some dst else none
copy_bytes dst (some src) bytes =
    if bytes % 2 == 0 then copy_block dst 0 src 0 (bytes / 2) else none

-- The end of both `Initialize`: `bytes` is the clamped `realLen`, `pool` is `new WCHAR[n]`.
pub fill : (ℕ → Option (List ℕ)) → Option (List ℕ) → ℕ → Option UnicodeString
fill pool src bytes =
    let maximum = u16 (bytes + 2) in
    elim (pool (maximum / 2)) [
      | none ↦ some null_string
      | some b ↦ do
        b' ← if bytes == 0 then some b else copy_bytes b src bytes
        some (record { buffer = some b'; length_bytes = bytes; maximum_bytes = maximum })
    ]

-- `Initialize(const UNICODE_STRING&)`
pub initialize : (ℕ → Option (List ℕ)) → UnicodeString → Option UnicodeString
initialize pool us =
    let real = us.length_bytes / 2 * 2 in
    fill pool us.buffer (if ltb us.maximum_bytes real then us.maximum_bytes else real)

-- `Initialize(const wchar_t*, unsigned)`
pub initialize_from : (ℕ → Option (List ℕ)) → Option (List ℕ) → ℕ → Option UnicodeString
initialize_from pool buf count = fill pool buf (u16 (u16 count * 2))

-- `string(unsigned size)`
pub with_size : (ℕ → Option (List ℕ)) → ℕ → UnicodeString
with_size pool size = if size == 0 then null_string else elim (pool size) [
  | none ↦ null_string
  | some b ↦ record { buffer = some b; length_bytes = 0; maximum_bytes = u16 (size * 2) }
]

-- `rawlen`: the characters before the first 0. Without one the loop leaves the block.
pub rawlen : List ℕ → Option ℕ
rawlen [] = none
rawlen (c ∷ cs) = elim (c == 0) [ true ↦ some 0 | false ↦ rawlen cs >>= λ n. some (n + 1) ]

-- `string(const wchar_t*, unsigned)`; `npos`, the default, asks for `rawlen`.
abbrev pub npos : ℕ
npos = 0xffff_ffff

pub from_raw : (ℕ → Option (List ℕ)) → List ℕ → ℕ → Option UnicodeString
from_raw pool buf count = do
  n ← if count == npos then rawlen buf else some count
  initialize_from pool (some buf) n

pub is_valid : UnicodeString → Bool
is_valid s = elim s.buffer [ none ↦ false | some _ ↦ true ]

pub char_count : UnicodeString → ℕ
char_count s = elim s.buffer [ none ↦ 0 | some _ ↦ s.length_bytes / 2 ]

-- `string(const string&)`
pub copy : (ℕ → Option (List ℕ)) → UnicodeString → Option UnicodeString
copy pool s =
    if ltb 0 (char_count s)
    then elim (pool (s.length_bytes / 2 + 1)) [
      | none ↦ some null_string
      | some b ↦ do
        b' ← copy_bytes b s.buffer s.length_bytes
        some (record {
          buffer = some b';
          length_bytes = s.length_bytes;
          maximum_bytes = u16 (u16 (s.length_bytes / 2 + 1) * 2);
        })
    ]
    else some null_string

pub clear : UnicodeString → UnicodeString
clear s = record s { length_bytes = 0 }

-- The reallocation in `operator=`: `MaximumLength` keeps its value when the pool has no room.
pub reallocate : (ℕ → Option (List ℕ)) → UnicodeString → UnicodeString → UnicodeString
reallocate pool this s = elim (pool (s.length_bytes / 2 + 1)) [
  | none ↦ record this { buffer = none }
  | some b ↦ record this { buffer = some b; maximum_bytes = u16 (u16 (s.length_bytes / 2 + 1) * 2) }
]

-- The copy in `operator=`.
pub overwrite : UnicodeString → UnicodeString → Option UnicodeString
overwrite this s = elim this.buffer [
  | none ↦ some this
  | some b ↦ do
    b' ← copy_bytes b s.buffer s.length_bytes
    some (record this { buffer = some b'; length_bytes = s.length_bytes })
]

-- `operator=(const string&)` for two objects; one that is assigned to itself is left alone.
pub assign : (ℕ → Option (List ℕ)) → UnicodeString → UnicodeString → Option UnicodeString
assign pool this s =
    if ltb 0 (char_count s)
    then overwrite
        (if leb this.maximum_bytes s.length_bytes
          then reallocate pool (clear this) s
          else clear this)
        s
    else some (clear this)

-- `operator[]`: 0 where there is no character.
pub char_at : UnicodeString → ℕ → Option ℕ
char_at s pos = elim s.buffer [
  | none ↦ some 0
  | some b ↦ if leb (s.length_bytes / 2) pos then some 0 else get_elem? b pos
]

-- `at(pos, bool* ok)`: `*ok` is written only where there is no character.
pub at : UnicodeString → ℕ → Option Bool → Option (ℕ × Option Bool)
at s pos ok = elim s.buffer [
  | none ↦ some (0, Option.map (λ _. false) ok)
  | some b ↦
      if leb (s.length_bytes / 2) pos
      then some (0, Option.map (λ _. false) ok)
      else get_elem? b pos >>= λ c. some (c, ok)
]

-- `string(string&&)`: the new object, and `s` after it.
pub move : UnicodeString → UnicodeString × UnicodeString
move s = (s, null_string)

pub swap : UnicodeString → UnicodeString → UnicodeString × UnicodeString
swap this r = (r, this)
