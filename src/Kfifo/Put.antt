-- ===== src/Kfifo/Put.antt =====
-- `__kfifo_put` appends what fits.
use kl.Base.{
  ℕ, ◌+◌, ◌-◌, ◌%◌, ◌≤◌, ◌<◌, min, ◌≡◌, ◌∙◌, ap, refl, List, ◌++◌, arith, some, if◌then◌else◌,
}
use kl.Base.{
  length, get_or, take, ltb, sub32, add32, copied, copy_block-some, length-copied, get_or-copied,
}
use kl.Base.{length-append, length-take, get_or-append, get_or-take, eq_of_get_or, sym}
use native.Mathlib.Nat.{mod-add-mod, mod-lt}
use kl.Kfifo.{Kfifo, put}
use kl.Kfifo.Window.{get_or-window, wrap_cases}
use kl.Kfifo.Inv.{IsValid, contents, length-contents, size-pos, mask-mod, word-mod}

-- What the two copies leave at the index of the `i`-th byte, where `o` is the index of the oldest.
two_copies :
    (buf src : List ℕ) (size o m n at l i : ℕ)
    → o < size
    → m + n ≤ size
    → at ≡ (o + m) % size
    → l ≡ min n (size - at)
    → length buf ≡ size
    → n ≤ length src
    → i < m + n
    → get_or (copied (copied buf at src 0 l) 0 src l (n - l)) ((o + i) % size) 0
      ≡ (if ltb i m then get_or buf ((o + i) % size) 0 else get_or src (i - m) 0)
two_copies buf src size o m n at l i ho hm hat hl hb hs hi = ground (
  arith,
  wrap_cases (o + m) size,
  wrap_cases (o + i) size,
  length-copied buf at src 0 l,
  get_or-copied (copied buf at src 0 l) 0 src l (n - l) ((o + i) % size) 0,
  get_or-copied buf at src 0 l ((o + i) % size) 0,
)

module _ {f : Kfifo} (v : IsValid f) (src : List ℕ) (k : ℕ) (enough : k ≤ length src) where
  room : ℕ
  room = f.size - sub32 f.in_pos f.out_pos

  at : ℕ
  at = f.in_pos % f.size

  first : ℕ
  unfolding room at
  first = min (min k room) (f.size - at)

  once : List ℕ
  unfolding first
  once = copied f.buffer at src 0 first

  twice : List ℕ
  unfolding once
  twice = copied once 0 src first (min k room - first)

  after : Kfifo
  unfolding twice
  after = record f { buffer = twice; in_pos = add32 f.in_pos (min k room) }

  -- The free space, by the wrapping arithmetic of the code.
  room-eq : add32 (sub32 f.size f.in_pos) f.out_pos ≡ room
  unfolding room
  room-eq = omega arith

  at-lt : at < f.size
  unfolding at
  at-lt = mod-lt f.in_pos (size-pos v)

  length-once : length once ≡ f.size
  unfolding once
  length-once =
      length-copied f.buffer at src 0 first (omega (arith, at-lt, v.stored)) (omega arith)
      ∙ v.stored

  in-index : sub32 f.size at ≡ f.size - at
  in-index = omega (arith, at-lt, v.small)

  rest : sub32 (min k room) first ≡ min k room - first
  unfolding first room
  rest = omega (arith, v.small)

  -- Both copies stay inside their blocks.
  put-after : put f src k ≡ some (min k room, after)
  unfolding put after twice first at once
  put-after = ground (
    arith,
    room-eq,
    mask-mod v f.in_pos,
    in-index,
    rest,
    at-lt,
    length-once,
    v.stored,
    copy_block-some f.buffer at src 0 first,
    copy_block-some once 0 src first (min k room - first),
  )

  length-twice : length twice ≡ f.size
  unfolding twice first
  length-twice =
      length-copied once 0 src first (min k room - first) (omega (arith, length-once, at-lt))
        (omega arith)
      ∙ length-once

  in-out : sub32 (add32 f.in_pos (min k room)) f.out_pos ≡ sub32 f.in_pos f.out_pos + min k room
  unfolding room
  in-out = omega (arith, v.in_word, v.out_word, v.fits, v.small)

  after-IsValid : IsValid after
  unfolding after room
  after-IsValid = record {
    width = v.width;
    pow = v.pow;
    small = v.small;
    stored = length-twice;
    in_word = omega arith;
    out_word = v.out_word;
    fits = omega (arith, in-out, v.fits);
  }

  -- The new bytes start where the old ones end.
  at-eq : at ≡ (f.out_pos % f.size + sub32 f.in_pos f.out_pos) % f.size
  unfolding at
  at-eq =
      ap (λ x. x % f.size) (omega (arith, v.in_word, v.out_word))
      ∙ word-mod v (f.out_pos + sub32 f.in_pos f.out_pos)
      ∙ sym (mod-add-mod f.out_pos f.size (sub32 f.in_pos f.out_pos))

  length-after : length (contents after) ≡ sub32 f.in_pos f.out_pos + min k room
  unfolding after
  length-after = length-contents after ∙ in-out

  byte-after :
      (i : ℕ)
      → i < sub32 f.in_pos f.out_pos + min k room
      → get_or twice ((f.out_pos % f.size + i) % f.size) 0
        ≡ get_or (contents f ++ take (min k room) src) i 0
  unfolding twice once first room
  byte-after i h = ground (
    arith,
    two_copies f.buffer src f.size (f.out_pos % f.size) (sub32 f.in_pos f.out_pos) (min k room) at
        first i,
    mod-lt f.out_pos (size-pos v),
    at-eq,
    v.fits,
    v.stored,
    get_or-append (contents f) (take (min k room) src) i 0,
    length-contents f,
    get_or-window f.buffer f.size f.out_pos (sub32 f.in_pos f.out_pos) i,
    mod-add-mod f.out_pos f.size i,
    get_or-take (min k room) src (i - sub32 f.in_pos f.out_pos) 0,
  )

  shown :
      (i : ℕ)
      → i < sub32 f.in_pos f.out_pos + min k room
      → get_or (contents after) i 0 ≡ get_or twice ((f.out_pos % f.size + i) % f.size) 0
  unfolding after
  shown i h =
      get_or-window twice f.size f.out_pos (sub32 (add32 f.in_pos (min k room)) f.out_pos) i
        (omega (arith, in-out))
      ∙ ap (λ p. get_or twice p 0) (sym (mod-add-mod f.out_pos f.size i))

  contents-after : contents after ≡ contents f ++ take (min k room) src
  contents-after = eq_of_get_or _ _ 0 lengths λ i h.
      let within : i < sub32 f.in_pos f.out_pos + min k room = omega (arith, length-after) in
      shown i within ∙ byte-after i within
    where
      lengths : length (contents after) ≡ length (contents f ++ take (min k room) src)
      lengths = omega (
        arith,
        length-after,
        length-append (contents f) (take (min k room) src),
        length-contents f,
        length-take (min k room) src,
      )

-- `__kfifo_put` never leaves its blocks: it takes as many bytes as are free, at most `len`, returns
-- their number, appends exactly those bytes in order, and keeps the invariant.
pub put-append :
    (f : Kfifo) (src : List ℕ) (k : ℕ)
    → IsValid f
    → k ≤ length src
    → (n : ℕ) × (f' : Kfifo) × (put f src k ≡ some (n, f'))
      × (n ≡ min k (f.size - length (contents f)))
      × (contents f' ≡ contents f ++ take n src)
      × (f'.size ≡ f.size)
      × IsValid f'
unfolding room after
put-append f src k v enough = (
  min k (room v src k enough),
  after v src k enough,
  put-after v src k enough,
  ap (λ m. min k (f.size - m)) (sym (length-contents f)),
  contents-after v src k enough,
  refl,
  after-IsValid v src k enough,
)
