-- ===== src/Text/Build.antt =====
-- The constructors of `class string` from another buffer.
use kl.Base.{
  ℕ, ◌+◌, ◌-◌, ◌*◌, ◌/◌, ◌%◌, ◌^◌, ◌≤◌, ◌<◌, ◌≡◌, ◌≢◌, ◌∙◌, refl, ap, sym, subst, Option, none,
  some, List, [], ◌∷◌, ◌++◌, arith,
}
use kl.Base.{
  take-copied, length, take, u16, copied, copy_block-some, copy_block-none, length-copied, inl,
  length-append, take-append_exact, if◌then◌else◌, ◌==◌,
}
use native.Mathlib.Decide.{ℕ_discrete}
use kl.Text.{
  UnicodeString, null_string, copy_bytes, fill, initialize, initialize_from, rawlen, from_raw, npos,
}
use kl.Text.Inv.{IsValid, Held, chars, chars_of, null_string-IsValid}

-- `pool` gives blocks of the size asked for.
abbrev pub IsPool : (ℕ → Option (List ℕ)) → Type 0
IsPool pool = (n : ℕ) (b : List ℕ) → pool n ≡ some b → length b ≡ n

-- What `copy_bytes` leaves.
pub copy_bytes_lem :
    (dst src : List ℕ) (bytes : ℕ)
    → bytes % 2 ≡ 0
    → bytes ≤ 2 * length dst
    → bytes ≤ 2 * length src
    → (b : List ℕ) × (copy_bytes dst (some src) bytes ≡ some b)
      × (length b ≡ length dst)
      × (take (bytes / 2) b ≡ take (bytes / 2) src)
unfolding copy_bytes
copy_bytes_lem dst src bytes even fits held = (
  copied dst 0 src 0 (bytes / 2),
  ground (arith, copy_block-some dst 0 src 0 (bytes / 2)),
  length-copied dst 0 src 0 (bytes / 2) (omega arith) (omega arith),
  take-copied dst src (bytes / 2) (omega arith),
)

-- The same where nothing is copied for a length of 0.
copy_if_lem :
    (dst src : List ℕ) (bytes : ℕ)
    → bytes % 2 ≡ 0
    → bytes ≤ 2 * length dst
    → bytes ≤ 2 * length src
    → (b : List ℕ) × ((if bytes == 0 then some dst else copy_bytes dst (some src) bytes) ≡ some b)
      × (length b ≡ length dst)
      × (take (bytes / 2) b ≡ take (bytes / 2) src)
copy_if_lem dst src bytes even fits held = elim (ℕ_discrete bytes 0) [
  | yes e ↦
      let none_taken : bytes / 2 ≡ 0 = omega arith in
      (
        dst,
        ground arith,
        refl,
        ap (λ n. take n dst) none_taken ∙ sym (ap (λ n. take n src) none_taken),
      )
  | no ne ↦
      let (b, run, len, same) = copy_bytes_lem dst src bytes even fits held in
      (b, ground (arith, run), len, same)
]

-- What a constructor makes of `text`, by the block that the pool gave it: nothing without one.
abbrev pub Made : Option (List ℕ) → List ℕ → UnicodeString → Type 0
Made none text s = s ≡ null_string
Made (some b) text s = (chars s ≡ text) × (s.buffer ≢ none)

module _ (pool : ℕ → Option (List ℕ)) (law : IsPool pool) where
  asked :
      (bytes : ℕ) {got : Option (List ℕ)}
      → bytes % 2 ≡ 0
      → bytes + 2 < 2 ^ 16
      → pool (bytes / 2 + 1) ≡ got
      → pool (u16 (bytes + 2) / 2) ≡ got
  asked bytes even small e =
      let size : u16 (bytes + 2) / 2 ≡ bytes / 2 + 1 = omega arith in ap pool size ∙ e

  -- `Initialize` for a length whose 2 more bytes do not wrap.
  fill-Made :
      (src : List ℕ) (bytes : ℕ) (got : Option (List ℕ))
      → bytes % 2 ≡ 0
      → bytes + 2 < 2 ^ 16
      → bytes ≤ 2 * length src
      → pool (bytes / 2 + 1) ≡ got
      → (s : UnicodeString) × (fill pool (some src) bytes ≡ some s)
        × IsValid s
        × Made got (take (bytes / 2) src) s
  unfolding fill
  fill-Made src bytes none even small held e =
      (null_string, rw (asked bytes even small e, fill), null_string-IsValid, refl)
  fill-Made src bytes (some b) even small held e =
      let size = law (bytes / 2 + 1) b e in
      let (b', run, len, same) = copy_if_lem b src bytes even (omega arith) held in
      (
        record { buffer = some b'; length_bytes = bytes; maximum_bytes = bytes + 2 },
        rw (asked bytes even small e, fill, run) (ground arith),
        record { even = even; word = omega arith; held = omega arith },
        (same, λ h. cc),
      )

  -- `string(buf, n)`, for `n` below 32767 and at most the length of `buf`, never leaves its blocks and
  -- is valid: it holds the first `n` characters, or is the null string where the pool has no room.
  pub initialize_from-Made :
      (buf : List ℕ) (n : ℕ)
      → n + 1 < 2 ^ 15
      → n ≤ length buf
      → (s : UnicodeString) × (initialize_from pool (some buf) n ≡ some s)
        × IsValid s
        × Made (pool (n + 1)) (take n buf) s
  unfolding initialize_from
  initialize_from-Made buf n small held =
      let bytes : u16 (u16 n * 2) ≡ n * 2 = omega arith in
      let half : n * 2 / 2 ≡ n = omega arith in
      let (s, run, ok, made) =
        fill-Made buf (n * 2) (pool (n + 1)) (omega arith) (omega arith) (omega arith)
          (ap (λ k. pool (k + 1)) half) in
      (
        s,
        ap (fill pool (some buf)) bytes ∙ run,
        ok,
        subst (λ k. Made (pool (n + 1)) (take k buf) s) half made,
      )

  filled :
      (o : Option (List ℕ)) (bytes maximum : ℕ)
      → Held o bytes maximum
      → bytes % 2 ≡ 0
      → bytes + 2 < 2 ^ 16
      → o ≢ none
      → (s : UnicodeString) × (fill pool o bytes ≡ some s)
        × IsValid s
        × Made (pool (bytes / 2 + 1)) (chars_of o bytes) s
  filled none bytes maximum h even small ne = absurd (ne refl)
  filled (some b) bytes maximum h even small ne = fill-Made b bytes _ even small h.0 refl

  initialize-fill :
      (us : UnicodeString)
      → IsValid us
      → us.length_bytes ≤ us.maximum_bytes
      → initialize pool us ≡ fill pool us.buffer us.length_bytes
  unfolding initialize
  initialize-fill us v fits = ap (fill pool us.buffer) (ground (arith, v.even))

  -- `string(const UNICODE_STRING&)`, of a valid string with a block, whose length is at most its
  -- `MaximumLength` and below 65534, never leaves its blocks and is valid: it holds the same
  -- characters, or is the null string where the pool has no room.
  pub initialize-Made :
      (us : UnicodeString)
      → IsValid us
      → us.length_bytes ≤ us.maximum_bytes
      → us.length_bytes + 2 < 2 ^ 16
      → us.buffer ≢ none
      → (s : UnicodeString) × (initialize pool us ≡ some s)
        × IsValid s
        × Made (pool (us.length_bytes / 2 + 1)) (chars us) s
  initialize-Made us v fits small ne =
      rw (initialize-fill us v fits)
        (filled us.buffer us.length_bytes us.maximum_bytes v.held v.even small ne)

-- The characters of a text that holds no 0.
abbrev pub NoNul : List ℕ → Type 0
NoNul [] = Unit
NoNul (c ∷ cs) = (c ≢ 0) × NoNul cs

pub rawlen-NoNul :
    (text rest : List ℕ) → NoNul text → rawlen (text ++ (0 ∷ rest)) ≡ some (length text)
unfolding rawlen
rawlen-NoNul [] rest h = refl
rawlen-NoNul (c ∷ cs) rest h = ground (arith, rawlen-NoNul cs rest h.1)

-- `string(buf)`, of a text of fewer than 32767 characters that a 0 ends, never leaves its blocks and
-- is valid: it holds the text, or is the null string where the pool has no room.
pub from_raw-Made :
    (pool : ℕ → Option (List ℕ)) (text rest : List ℕ)
    → IsPool pool
    → NoNul text
    → length text + 1 < 2 ^ 15
    → (s : UnicodeString) × (from_raw pool (text ++ (0 ∷ rest)) npos ≡ some s)
      × IsValid s
      × Made (pool (length text + 1)) text s
unfolding from_raw
from_raw-Made pool text rest law clean small =
    let (s, run, ok, made) =
      initialize_from-Made pool law (text ++ (0 ∷ rest)) (length text) small
        (omega (arith, length-append text (0 ∷ rest))) in
    (
      s,
      rw (rawlen-NoNul text rest clean) run,
      ok,
      subst (λ t. Made (pool (length text + 1)) t s)
          (take-append_exact (length text) text (0 ∷ rest) refl) made,
    )

fill_overflow :
    (pool : ℕ → Option (List ℕ)) (buf : List ℕ) {b : List ℕ}
    → IsPool pool
    → pool 0 ≡ some b
    → fill pool (some buf) 65534 ≡ none
unfolding fill copy_bytes
fill_overflow pool buf {b} law e =
    rw (e, fill, copy_block-none b 0 buf 0 32767 (inl (omega (arith, law 0 b e))))

-- For a count that is 32767 modulo 2 ^ 15 the two bytes for the end of the string wrap
-- `MaximumLength` to 0: the block that `string(buf, n)` then asks for has no room, and where the pool
-- gives it the copy leaves it.
pub initialize_from_overflow :
    (pool : ℕ → Option (List ℕ)) (buf : List ℕ) (n : ℕ) {b : List ℕ}
    → IsPool pool
    → n % 2 ^ 15 ≡ 2 ^ 15 - 1
    → pool 0 ≡ some b
    → initialize_from pool (some buf) n ≡ none
unfolding initialize_from
initialize_from_overflow pool buf n law wraps e =
    let bytes : u16 (u16 n * 2) ≡ 65534 = omega arith in
    ap (fill pool (some buf)) bytes ∙ fill_overflow pool buf law e
