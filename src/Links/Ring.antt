-- ===== src/Links/Ring.antt =====
-- Rings: what changes of other cells leave alone, and how a head takes over the cells of another.
use kl.Base.{ℕ, ◌≡◌, ◌≢◌, ◌∙◌, refl, sym, List, [], ◌∷◌, ◌++◌}
use kl.Links.{Links, Inner, last, Absent, Distinct, IsRing, SameOutside}

-- No cell of `xs` is one of `ps`.
abbrev pub Apart : List ℕ → List ℕ → Type 0
Apart [] ps = Unit {0}
Apart (x ∷ xs) ps = Absent x ps × Apart xs ps

module _ (p : ℕ) where
  pub Absent-append : (xs ys : List ℕ) → Absent p xs → Absent p ys → Absent p (xs ++ ys)
  Absent-append [] ys h k = k
  Absent-append (x ∷ xs) ys h k = (h.0, Absent-append xs ys h.1 k)

  pub Absent-left : (xs ys : List ℕ) → Absent p (xs ++ ys) → Absent p xs
  Absent-left [] ys h = tt
  Absent-left (x ∷ xs) ys h = (h.0, Absent-left xs ys h.1)

  pub Absent-right : (xs ys : List ℕ) → Absent p (xs ++ ys) → Absent p ys
  Absent-right [] ys h = h
  Absent-right (x ∷ xs) ys h = Absent-right xs ys h.1

  pub Absent-last : (x : ℕ) (xs : List ℕ) → Absent p (x ∷ xs) → p ≢ last x xs
  Absent-last x [] h = h.0
  Absent-last x (y ∷ ys) h = Absent-last y ys h.1

pub Apart-last : (x : ℕ) (xs ps : List ℕ) → Apart (x ∷ xs) ps → Absent (last x xs) ps
Apart-last x [] ps h = h.0
Apart-last x (y ∷ ys) ps h = Apart-last y ys ps h.1

pub Apart-append : (xs ys ps : List ℕ) → Apart xs ps → Apart ys ps → Apart (xs ++ ys) ps
Apart-append [] ys ps h k = k
Apart-append (x ∷ xs) ys ps h k = (h.0, Apart-append xs ys ps h.1 k)

pub last-append : (p : ℕ) (xs : List ℕ) (y : ℕ) (ys : List ℕ) → last p (xs ++ (y ∷ ys)) ≡ last y ys
last-append p [] y ys = refl
last-append p (x ∷ xs) y ys = last-append x xs y ys

module _ (h h' : Links) where
  -- Cells that a change spares.
  pub Inner-same :
      (x : ℕ) (xs ps : List ℕ)
      → Inner h x xs
      → SameOutside ps h h'
      → Apart (x ∷ xs) ps
      → Inner h' x xs
  Inner-same x [] ps c same apart = tt
  Inner-same x (y ∷ ys) ps c same apart =
      ((same x apart.0).0 ∙ c.0, (same y apart.1.0).1 ∙ c.1, Inner-same y ys ps c.2 same apart.1)

  pub IsRing-same :
      (head : ℕ) (xs ps : List ℕ)
      → IsRing h head xs
      → SameOutside ps h h'
      → Apart (head ∷ xs) ps
      → IsRing h' head xs
  IsRing-same head xs ps r same apart = record {
    inner = Inner-same head xs ps r.inner same apart;
    forward = (same (last head xs) (Apart-last head xs ps apart)).0 ∙ r.forward;
    backward = (same head apart.0).1 ∙ r.backward;
    distinct = r.distinct;
  }

  -- The same for a change of the last cell's forward link too, and of the first cell's backward link.
  pub Inner-ends :
      (x : ℕ) (xs fs bs : List ℕ)
      → Inner h x xs
      → Distinct (x ∷ xs)
      → Apart (x ∷ xs) fs
      → Apart xs bs
      → ((p : ℕ) → Absent p fs → p ≢ last x xs → h'.flink p ≡ h.flink p)
      → ((p : ℕ) → Absent p bs → h'.blink p ≡ h.blink p)
      → Inner h' x xs
  Inner-ends x [] fs bs c d a b forward backward = tt
  Inner-ends x (y ∷ ys) fs bs c d a b forward backward = (
    forward x a.0 (Absent-last x y ys d.0) ∙ c.0,
    backward y b.0 ∙ c.1,
    Inner-ends y ys fs bs c.2 d.1 a.1 b.1 forward backward,
  )

pub Inner-append :
    (h : Links) (x : ℕ) (xs : List ℕ) (z : ℕ) (zs : List ℕ)
    → Inner h x xs
    → (h.flink (last x xs) ≡ z)
    → (h.blink z ≡ last x xs)
    → Inner h z zs
    → Inner h x (xs ++ (z ∷ zs))
Inner-append h x [] z zs c f b d = (f, b, d)
Inner-append h x (y ∷ ys) z zs c f b d = (c.0, c.1, Inner-append h y ys z zs c.2 f b d)

pub Inner-split :
    (h : Links) (x : ℕ) (xs : List ℕ) (z : ℕ) (zs : List ℕ)
    → Inner h x (xs ++ (z ∷ zs))
    → Inner h x xs × (h.flink (last x xs) ≡ z) × (h.blink z ≡ last x xs) × Inner h z zs
Inner-split h x [] z zs c = (tt, c.0, c.1, c.2)
Inner-split h x (y ∷ ys) z zs c =
    let (a, f, b, d) = Inner-split h y ys z zs c.2 in ((c.0, c.1, a), f, b, d)

pub Apart-cons : (p : ℕ) (xs ps : List ℕ) → Absent p xs → Apart xs ps → Apart xs (p ∷ ps)
Apart-cons p [] ps a b = tt
Apart-cons p (x ∷ xs) ps a b = ((λ e. a.0 (sym e), b.0), Apart-cons p xs ps a.1 b.1)

pub Apart-tail : (xs : List ℕ) (p : ℕ) (ps : List ℕ) → Apart xs (p ∷ ps) → Absent p xs × Apart xs ps
Apart-tail [] p ps h = (tt, tt)
Apart-tail (x ∷ xs) p ps h =
    let (a, b) = Apart-tail xs p ps h.1 in ((λ e. h.0.0 (sym e), a), (h.0.1, b))

pub Apart-nil : (xs : List ℕ) → Apart xs []
Apart-nil [] = tt
Apart-nil (x ∷ xs) = (tt, Apart-nil xs)

pub Apart-sym : (xs ps : List ℕ) → Apart xs ps → Apart ps xs
Apart-sym xs [] h = tt
Apart-sym xs (p ∷ ps) h = let (a, b) = Apart-tail xs p ps h in (a, Apart-sym xs ps b)

pub SameOutside-trans :
    {h g k : Links} (ps qs : List ℕ)
    → SameOutside ps h g
    → SameOutside qs g k
    → SameOutside (ps ++ qs) h k
SameOutside-trans ps qs a b p away =
    let (f, s) = a p (Absent-left p ps qs away) in
    let (f', s') = b p (Absent-right p ps qs away) in (f' ∙ f, s' ∙ s)

pub Distinct-append :
    (xs ys : List ℕ) → Distinct xs → Distinct ys → Apart xs ys → Distinct (xs ++ ys)
Distinct-append [] ys a b c = b
Distinct-append (x ∷ xs) ys a b c = (Absent-append x xs ys a.0 c.0, Distinct-append xs ys a.1 b c.1)
