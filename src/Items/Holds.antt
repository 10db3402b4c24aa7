-- ===== src/Items/Holds.antt =====
-- What a container of items holds.
use kl.Base.{ℕ, ◌≡◌, refl, Option, some, List, [], ◌∷◌, ◌++◌, arith}
use kl.Links.{update, Absent, IsRing}
use kl.Items.{Items}

module _ {A : Type 0} where
  -- The items at the addresses `cells` have the elements `xs`.
  abbrev pub Values : (ℕ → Option A) → List ℕ → List A → Type 0
  Values value [] [] = Unit {0}
  Values value [] (x ∷ xs) = ⊥
  Values value (c ∷ cells) [] = ⊥
  Values value (c ∷ cells) (x ∷ xs) = (value c ≡ some x) × Values value cells xs

  -- The container at `head` holds `xs`, in this order, in the items at `cells`.
  pub record Holds (s : Items A) (head : ℕ) (cells : List ℕ) (xs : List A) : Type 0 where
    pub ring : IsRing s.links head cells
    pub values : Values s.value cells xs
    pub alive : Absent 0 cells

  pub Values-update :
      (v : ℕ → Option A) (p : ℕ) (o : Option A) (cells : List ℕ) (xs : List A)
      → Absent p cells
      → Values v cells xs
      → Values (update v p o) cells xs
  Values-update v p o [] [] k h = tt
  Values-update v p o [] (x ∷ xs) k h = h
  Values-update v p o (c ∷ cells) [] k h = h
  Values-update v p o (c ∷ cells) (x ∷ xs) k h =
      (ground (arith, k.0, h.0), Values-update v p o cells xs k.1 h.1)

  pub Values-append :
      (v : ℕ → Option A) (cells : List ℕ) (xs : List A) (bs : List ℕ) (ys : List A)
      → Values v cells xs
      → Values v bs ys
      → Values v (cells ++ bs) (xs ++ ys)
  Values-append v [] [] bs ys h k = k
  Values-append v [] (x ∷ xs) bs ys h k = absurd h
  Values-append v (c ∷ cells) [] bs ys h k = absurd h
  Values-append v (c ∷ cells) (x ∷ xs) bs ys h k = (h.0, Values-append v cells xs bs ys h.1 k)

  -- A container with no item holds nothing, and one with a first item has a first element.
  pub Values-nil : (v : ℕ → Option A) (xs : List A) → Values v [] xs → xs ≡ []
  Values-nil v [] h = refl
  Values-nil v (x ∷ xs) h = absurd h

  pub Values-cons :
      (v : ℕ → Option A) (c : ℕ) (cells : List ℕ) (xs : List A)
      → Values v (c ∷ cells) xs
      → (x : A) × (ys : List A) × (xs ≡ x ∷ ys) × (v c ≡ some x) × Values v cells ys
  Values-cons v c cells [] h = absurd h
  Values-cons v c cells (x ∷ xs) h = (x, xs, refl, h.0, h.1)
