-- ===== src/Fifo/Laws.antt =====
-- `Fifo<T>` as a queue of values: it is one while the values fill the block without a remainder, and
-- loses the end of a value where they do not.
use kl.Base.{ℕ, ◌+◌, ◌-◌, ◌*◌, ◌^◌, ◌≤◌, ◌<◌, min, ◌≡◌, ◌∙◌, ap, sym}
use kl.Base.{true, false, some, List, [], ◌∷◌, ◌++◌, arith, length, take, drop}
use kl.Base.{
  length-append, ap₂, Bool-cases, inl, inr, ltb→lt, ltb→le, drop_all, take-append-drop, length-take,
  take_all, take-append_exact, drop-append_exact, ltb, if◌then◌else◌,
}
use mathlib.Core.List.{append_assoc, append-nil}
use kl.Kfifo.{Kfifo}
use kl.Kfifo.Inv.{IsValid, contents}
use kl.Kfifo.Put.{put-append}
use kl.Kfifo.Get.{get-drop}
use kl.Fifo.{push, pop}

-- The bytes of a list of values.
abbrev pub flatten : List (List ℕ) → List ℕ
flatten [] = []
flatten (v ∷ vs) = v ++ flatten vs

abbrev pub AllWidth : ℕ → List (List ℕ) → Type 0
AllWidth w [] = Unit
AllWidth w (v ∷ vs) = (length v ≡ w) × AllWidth w vs

-- A FIFO of room for `m` values of `w` bytes holds the values `vs`.
pub record Holds (w m : ℕ) (vs : List (List ℕ)) (f : Kfifo) : Type 0 where
  pub valid : IsValid f
  pub room : f.size ≡ m * w
  pub bytes : contents f ≡ flatten vs
  pub widths : AllWidth w vs

length-flatten : (w : ℕ) (vs : List (List ℕ)) → AllWidth w vs → length (flatten vs) ≡ length vs * w
length-flatten w [] h = omega arith
length-flatten w (v ∷ vs) h = omega (arith, length-append v (flatten vs), length-flatten w vs h.1)

flatten-append : (vs : List (List ℕ)) (v : List ℕ) → flatten (vs ++ (v ∷ [])) ≡ flatten vs ++ v
flatten-append [] v = append-nil v
flatten-append (u ∷ vs) v =
    ap (λ t. u ++ t) (flatten-append vs v) ∙ sym (append_assoc u (flatten vs) v)

AllWidth-append :
    (w : ℕ) (vs : List (List ℕ)) (v : List ℕ)
    → AllWidth w vs
    → length v ≡ w
    → AllWidth w (vs ++ (v ∷ []))
AllWidth-append w [] v h e = (e, tt)
AllWidth-append w (u ∷ vs) v h e = (h.0, AllWidth-append w vs v h.1 e)

-- `push` says `true` exactly if a byte was free, and appends the bytes that fit.
push-bytes :
    (f : Kfifo) (v : List ℕ)
    → IsValid f
    → length v < 2 ^ 31
    → (n : ℕ) × (f' : Kfifo) × (push (some f) v ≡ some (ltb 0 n, some f'))
      × (n ≡ min (length v) (f.size - length (contents f)))
      × (contents f' ≡ contents f ++ take n v)
      × (f'.size ≡ f.size)
      × IsValid f'
unfolding push
push-bytes f v ok short =
    let (n, f', run, count, bytes, size, ok') = put-append f v (length v) ok (omega arith) in
    (n, f', rw run (ground arith), count, bytes, size, ok')

-- `pop` says `true` exactly if a byte was there, and hands out the oldest bytes.
pop-bytes :
    (f : Kfifo) (d : List ℕ)
    → IsValid f
    → length d < 2 ^ 31
    → (n : ℕ) × (d' : List ℕ) × (f' : Kfifo) × (pop (some f) d ≡ some (ltb 0 n, d', some f'))
      × (n ≡ min (length d) (length (contents f)))
      × (take n d' ≡ take n (contents f))
      × (drop n d' ≡ drop n d)
      × (contents f' ≡ drop n (contents f))
      × (f'.size ≡ f.size)
      × IsValid f'
unfolding pop
pop-bytes f d ok short =
    let (n, d', f', run, count, front, back, left, size, ok') =
      get-drop f d (length d) ok (omega arith) in
    (n, d', f', rw run (ground arith), count, front, back, left, size, ok')

room_left : (w m k : ℕ) → k < m → w ≤ m * w - k * w
room_left w m k h = let below : (k + 1) * w ≤ m * w = grind arith in omega (arith, below)

room_full : (w m k : ℕ) → m ≤ k → m * w - k * w ≡ 0
room_full w m k h = let below : m * w ≤ k * w = grind arith in omega (arith, below)

-- What `pop` does, by the values held before: the result, `data`, and the values left.
abbrev pub Popped : ℕ → ℕ → List (List ℕ) → Kfifo → List ℕ → Kfifo → Type 0
Popped w m [] f d f' = (pop (some f) d ≡ some (false, d, some f')) × Holds w m [] f'
Popped w m (v ∷ vs) f d f' = (pop (some f) d ≡ some (true, v, some f')) × Holds w m vs f'

module _ (w m : ℕ) (f : Kfifo) (pos : 0 < w) (short : w < 2 ^ 31) where
  used : (vs : List (List ℕ)) → Holds w m vs f → length (contents f) ≡ length vs * w
  used vs h = ap length h.bytes ∙ length-flatten w vs h.widths

  -- Where the size is a multiple of `sizeof(T)`, which is below `2 ^ 31`, `push` appends the whole
  -- value, or says `false` at a full FIFO and changes nothing that it holds.
  pub push-Holds :
      (vs : List (List ℕ)) (v : List ℕ)
      → Holds w m vs f
      → length v ≡ w
      → (f' : Kfifo) × (push (some f) v ≡ some (ltb (length vs) m, some f'))
        × Holds w m (if ltb (length vs) m then vs ++ (v ∷ []) else vs) f'
  push-Holds vs v h e =
      let (n, f', run, count, bytes, size, ok) = push-bytes f v h.valid (omega arith) in
      elim (Bool-cases (ltb (length vs) m)) [
        | inl more ↦
            let whole : n ≡ length v =
              omega
                (arith, count, used vs h, h.room, room_left w m (length vs) (ltb→lt _ _ more), e) in
            rw more (
              f',
              run ∙ ap (λ b. some (b, some f')) (ground arith),
              record {
                valid = ok;
                room = size ∙ h.room;
                bytes =
                    bytes
                    ∙ ap₂ ◌++◌ h.bytes (take_all n v (omega arith))
                    ∙ sym (flatten-append vs v);
                widths = AllWidth-append w vs v h.widths e;
              },
            )
        | inr full ↦
            let none_taken : n ≡ 0 =
              omega
                (arith, count, used vs h, h.room, room_full w m (length vs) (ltb→le _ _ full)) in
            rw full (
              f',
              run ∙ ap (λ b. some (b, some f')) (ground arith),
              record {
                valid = ok;
                room = size ∙ h.room;
                bytes =
                    bytes
                    ∙ ap (λ k. contents f ++ take k v) none_taken
                    ∙ append-nil (contents f)
                    ∙ h.bytes;
                widths = h.widths;
              },
            )
      ]

  -- Where the size is a multiple of `sizeof(T)`, which is below `2 ^ 31`, `pop` hands out the oldest
  -- value, or says `false` at an empty FIFO and leaves the caller's buffer.
  pub pop-Holds :
      (vs : List (List ℕ)) (d : List ℕ)
      → Holds w m vs f
      → length d ≡ w
      → (f' : Kfifo) × Popped w m vs f d f'
  pop-Holds [] d h e =
      let (n, d', f', run, count, front, back, left, size, ok) =
        pop-bytes f d h.valid (omega arith) in
      let nothing : n ≡ 0 = omega (arith, count, used [] h) in
      let same : d' ≡ d = sym (ap (λ k. drop k d') nothing) ∙ back ∙ ap (λ k. drop k d) nothing in
      (
        f',
        (
          run ∙ ap₂ (λ b t. some (b, t, some f')) (ground arith) same,
          record {
            valid = ok;
            room = size ∙ h.room;
            bytes = left ∙ ap (λ k. drop k (contents f)) nothing ∙ h.bytes;
            widths = tt;
          },
        ),
      )
  pop-Holds (v ∷ vs) d h e =
      let (n, d', f', run, count, front, back, left, size, ok) =
        pop-bytes f d h.valid (omega arith) in
      let whole : n ≡ length v = omega (arith, count, used (v ∷ vs) h, h.widths.0) in
      let got : take n d' ≡ v =
        front ∙ ap (take n) h.bytes ∙ take-append_exact n v (flatten vs) whole in
      let rest : drop n d' ≡ [] = back ∙ drop_all n d (omega (arith, h.widths.0)) in
      let value : d' ≡ v = sym (take-append-drop n d') ∙ ap₂ ◌++◌ got rest ∙ append-nil v in
      (
        f',
        (
          run ∙ ap₂ (λ b t. some (b, t, some f')) (ground (arith, h.widths.0)) value,
          record {
            valid = ok;
            room = size ∙ h.room;
            bytes = left ∙ ap (drop n) h.bytes ∙ drop-append_exact n v (flatten vs) whole;
            widths = h.widths.1;
          },
        ),
      )

-- Where fewer bytes are free than a value has, `push` stores only its first bytes, and still says
-- `true`.
pub push_truncates :
    (f : Kfifo) (v : List ℕ)
    → IsValid f
    → length v < 2 ^ 31
    → length (contents f) < f.size
    → f.size < length (contents f) + length v
    → (f' : Kfifo) × (push (some f) v ≡ some (true, some f'))
      × (contents f' ≡ contents f ++ take (f.size - length (contents f)) v)
      × (length (contents f') ≡ f.size)
push_truncates f v ok short some_room too_long =
    let (n, f', run, count, bytes, size, ok') = push-bytes f v ok short in
    let cut : n ≡ f.size - length (contents f) = omega (arith, count) in
    let shown : contents f' ≡ contents f ++ take (f.size - length (contents f)) v =
      bytes ∙ ap (λ k. contents f ++ take k v) cut in
    (
      f',
      run ∙ ap (λ b. some (b, some f')) (ground (arith, cut)),
      shown,
      omega (
        arith,
        ap length shown,
        length-append (contents f) (take (f.size - length (contents f)) v),
        length-take (f.size - length (contents f)) v,
      ),
    )
