-- ===== src/Kfifo/Get.antt =====
-- `__kfifo_get` hands out what is there.
use kl.Base.{ℕ, ◌+◌, ◌-◌, ◌%◌, ◌≤◌, ◌<◌, min, ◌≡◌, ◌∙◌, ap, refl, List, arith, some, if◌then◌else◌}
use kl.Base.{
  length, get_or, take, drop, ltb, sub32, add32, copied, copy_block-some, length-copied,
  get_or-copied,
}
use kl.Base.{length-drop, length-take, get_or-drop, get_or-take, eq_of_get_or, sym}
use native.Mathlib.Nat.{mod-add-mod, mod-lt}
use kl.Kfifo.{Kfifo, get}
use kl.Kfifo.Window.{get_or-window, wrap_cases}
use kl.Kfifo.Inv.{IsValid, contents, length-contents, size-pos, mask-mod, word-mod}

-- What the two copies leave at index `p` of the caller's buffer.
two_copies :
    (dst buf : List ℕ) (size o n l p : ℕ)
    → o < size
    → n ≤ size
    → l ≡ min n (size - o)
    → length buf ≡ size
    → n ≤ length dst
    → get_or (copied (copied dst 0 buf o l) l buf 0 (n - l)) p 0
      ≡ (if ltb p n then get_or buf ((o + p) % size) 0 else get_or dst p 0)
two_copies dst buf size o n l p ho hn hl hb hd = ground (
  arith,
  wrap_cases (o + p) size,
  length-copied dst 0 buf o l,
  get_or-copied (copied dst 0 buf o l) l buf 0 (n - l) p 0,
  get_or-copied dst 0 buf o l p 0,
)

module _ {f : Kfifo} (v : IsValid f) (dst : List ℕ) (k : ℕ) (enough : k ≤ length dst) where
  count : ℕ
  count = min k (sub32 f.in_pos f.out_pos)

  at : ℕ
  at = f.out_pos % f.size

  first : ℕ
  unfolding count at
  first = min count (f.size - at)

  once : List ℕ
  unfolding first
  once = copied dst 0 f.buffer at first

  twice : List ℕ
  unfolding once
  twice = copied once first f.buffer 0 (count - first)

  after : Kfifo
  unfolding count
  after = record f { out_pos = add32 f.out_pos count }

  at-lt : at < f.size
  unfolding at
  at-lt = mod-lt f.out_pos (size-pos v)

  out-index : sub32 f.size at ≡ f.size - at
  out-index = omega (arith, at-lt, v.small)

  rest : sub32 count first ≡ count - first
  unfolding first count
  rest = omega (arith, v.small, v.fits)

  length-once : length once ≡ length dst
  unfolding once
  length-once =
      length-copied dst 0 f.buffer at first (omega (arith, enough)) (omega (arith, at-lt, v.stored))

  -- Both copies stay inside their blocks.
  get-after : get f dst k ≡ some (count, twice, after)
  unfolding get twice at after
  get-after = ground (
    arith,
    mask-mod v f.out_pos,
    out-index,
    rest,
    at-lt,
    length-once,
    v.stored,
    v.fits,
    copy_block-some dst 0 f.buffer at first,
    copy_block-some once first f.buffer 0 (count - first),
  )

  length-twice : length twice ≡ length dst
  unfolding twice
  length-twice =
      length-copied once first f.buffer 0 (count - first) (omega (arith, length-once, enough))
        (omega (arith, v.stored, v.fits, at-lt))
      ∙ length-once

  left : sub32 f.in_pos (add32 f.out_pos count) ≡ sub32 f.in_pos f.out_pos - count
  unfolding count
  left = omega (arith, v.in_word, v.out_word, v.fits, v.small)

  after-IsValid : IsValid after
  unfolding after
  after-IsValid = record {
    width = v.width;
    pow = v.pow;
    small = v.small;
    stored = v.stored;
    in_word = v.in_word;
    out_word = omega arith;
    fits = omega (arith, left, v.fits);
  }

  byte :
      (p : ℕ)
      → get_or twice p 0
        ≡ (if ltb p count then get_or f.buffer ((at + p) % f.size) 0 else get_or dst p 0)
  unfolding twice
  byte p =
      two_copies dst f.buffer f.size at count first p at-lt (omega (arith, v.fits)) refl v.stored
        (omega (arith, enough))

  handed_out : take count twice ≡ take count (contents f)
  unfolding count at
  handed_out =
      eq_of_get_or _ _ 0 lengths
        λ i h. let within : i < count = omega (arith, length-take count twice) in one i within
    where
      one :
          (i : ℕ) → i < count → get_or (take count twice) i 0 ≡ get_or (take count (contents f)) i 0
      one i h = ground (
        arith,
        get_or-take count twice i 0,
        get_or-take count (contents f) i 0,
        byte i,
        get_or-window f.buffer f.size f.out_pos (sub32 f.in_pos f.out_pos) i,
        mod-add-mod f.out_pos f.size i,
      )

      lengths : length (take count twice) ≡ length (take count (contents f))
      lengths = omega (
        arith,
        length-take count twice,
        length-take count (contents f),
        length-contents f,
        length-twice,
        enough,
      )

  untouched : drop count twice ≡ drop count dst
  untouched =
      eq_of_get_or _ _ 0
        (omega (arith, length-drop count twice, length-drop count dst, length-twice))
        λ i h.
          ground (arith, get_or-drop count twice i 0, get_or-drop count dst i 0, byte (count + i))

  -- Offset `i` of what is left, before and after the wrap-around.
  shifted : (i : ℕ) → (add32 f.out_pos count + i) % f.size ≡ (f.out_pos + (count + i)) % f.size
  shifted i =
      sym (mod-add-mod (add32 f.out_pos count) f.size i)
      ∙ ap (λ x. (x + i) % f.size) (word-mod v (f.out_pos + count))
      ∙ mod-add-mod (f.out_pos + count) f.size i
      ∙ ap (λ x. x % f.size) (omega arith)

  contents-after : contents after ≡ drop count (contents f)
  unfolding after
  contents-after = eq_of_get_or _ _ 0 lengths one
    where
      lengths : length (contents after) ≡ length (drop count (contents f))
      lengths =
          omega
            (arith, length-contents after, length-contents f, left, length-drop count (contents f))

      one :
          (i : ℕ)
          → i < length (contents after)
          → get_or (contents after) i 0 ≡ get_or (drop count (contents f)) i 0
      one i h = ground (
        arith,
        length-contents after,
        left,
        get_or-window f.buffer f.size (add32 f.out_pos count)
            (sub32 f.in_pos (add32 f.out_pos count)) i,
        shifted i,
        get_or-drop count (contents f) i 0,
        get_or-window f.buffer f.size f.out_pos (sub32 f.in_pos f.out_pos) (count + i),
      )

-- `__kfifo_get` never leaves its blocks: it hands out the oldest bytes, as many as are asked for
-- and there, returns their number, leaves the rest of the caller's buffer and the rest of the bytes
-- in order, and keeps the invariant.
pub get-drop :
    (f : Kfifo) (dst : List ℕ) (k : ℕ)
    → IsValid f
    → k ≤ length dst
    → (n : ℕ) × (dst' : List ℕ) × (f' : Kfifo) × (get f dst k ≡ some (n, dst', f'))
      × (n ≡ min k (length (contents f)))
      × (take n dst' ≡ take n (contents f))
      × (drop n dst' ≡ drop n dst)
      × (contents f' ≡ drop n (contents f))
      × (f'.size ≡ f.size)
      × IsValid f'
unfolding count after
get-drop f dst k v enough = (
  count v dst k enough,
  twice v dst k enough,
  after v dst k enough,
  get-after v dst k enough,
  ap (min k) (sym (length-contents f)),
  handed_out v dst k enough,
  untouched v dst k enough,
  contents-after v dst k enough,
  refl,
  after-IsValid v dst k enough,
)
