-- ===== src/StaticList/Links.antt =====
-- What the links of a static list say: the cells `xs`, in order, between two ends.
use queue_c.Base.{ℕ, ◌≡◌, ◌≢◌, refl, All, List, [], ◌∷◌, ◌++◌, arith, ℤ, pos, NotIn, Distinct}
use queue_c.StaticList.{Cell, update}

abbrev pub first_of : List ℕ → ℤ → ℤ
first_of [] n = n
first_of (x ∷ xs) n = pos x

abbrev pub last_of : ℤ → List ℕ → ℤ
last_of p [] = p
last_of p (x ∷ xs) = last_of (pos x) xs

-- `p` is the link back from the first cell, and `n` the link on from the last.
abbrev pub Links : (ℕ → Cell) → ℤ → List ℕ → ℤ → Type 0
Links c p [] n = Unit
Links c p (x ∷ xs) n = ((c x).previous ≡ p) × ((c x).next ≡ first_of xs n) × Links c (pos x) xs n

-- A write outside the list leaves it.
pub Links-update :
    (c : ℕ → Cell) (p : ℤ) (xs : List ℕ) (n : ℤ) (a : ℕ) (v : Cell)
    → NotIn a xs
    → Links c p xs n
    → Links (update c a v) p xs n
Links-update c p [] n a v out l = tt
Links-update c p (x ∷ xs) n a v out l = ground (arith, Links-update c (pos x) xs n a v out.1 l.2)

pub first_of-append : (xs ys : List ℕ) (n : ℤ) → first_of (xs ++ ys) n ≡ first_of xs (first_of ys n)
first_of-append [] ys n = refl
first_of-append (x ∷ xs) ys n = refl

pub last_of-append : (p : ℤ) (xs ys : List ℕ) → last_of p (xs ++ ys) ≡ last_of (last_of p xs) ys
last_of-append p [] ys = refl
last_of-append p (x ∷ xs) ys = last_of-append (pos x) xs ys

pub Links-left :
    (c : ℕ → Cell) (p : ℤ) (xs ys : List ℕ) (n : ℤ)
    → Links c p (xs ++ ys) n
    → Links c p xs (first_of ys n)
Links-left c p [] ys n l = tt
Links-left c p (x ∷ xs) ys n l =
    ground (arith, first_of-append xs ys n, Links-left c (pos x) xs ys n l.2)

pub Links-right :
    (c : ℕ → Cell) (p : ℤ) (xs ys : List ℕ) (n : ℤ)
    → Links c p (xs ++ ys) n
    → Links c (last_of p xs) ys n
Links-right c p [] ys n l = l
Links-right c p (x ∷ xs) ys n l = Links-right c (pos x) xs ys n l.2

pub Links-append :
    (c : ℕ → Cell) (p : ℤ) (xs ys : List ℕ) (n : ℤ)
    → Links c p xs (first_of ys n)
    → Links c (last_of p xs) ys n
    → Links c p (xs ++ ys) n
Links-append c p [] ys n l r = r
Links-append c p (x ∷ xs) ys n l r =
    ground (arith, first_of-append xs ys n, Links-append c (pos x) xs ys n l.2 r)

-- A new link back from the first cell.
pub Links-set_previous :
    (c : ℕ → Cell) (p q : ℤ) (x : ℕ) (xs : List ℕ) (n : ℤ)
    → NotIn x xs
    → Links c p (x ∷ xs) n
    → Links (update c x (record { previous = q; next = (c x).next })) q (x ∷ xs) n
Links-set_previous c p q x xs n out l =
    ground
      (arith, Links-update c (pos x) xs n x (record { previous = q; next = (c x).next }) out l.2)

-- The last cell of `x ∷ xs`.
abbrev pub last_cell : ℕ → List ℕ → ℕ
last_cell x [] = x
last_cell x (y ∷ ys) = last_cell y ys

pub last_of-cons : (p : ℤ) (x : ℕ) (xs : List ℕ) → last_of p (x ∷ xs) ≡ pos (last_cell x xs)
last_of-cons p x [] = refl
last_of-cons p x (y ∷ ys) = last_of-cons (pos x) y ys

pub All-last_cell {ℓ} : (P : ℕ → Type ℓ) (x : ℕ) (xs : List ℕ) → All P (x ∷ xs) → P (last_cell x xs)
All-last_cell P x [] h = h.0
All-last_cell P x (y ∷ ys) h = All-last_cell P y ys h.1

-- A new link on from the last cell.
pub Links-set_next :
    (c : ℕ → Cell) (p : ℤ) (x : ℕ) (xs : List ℕ) (n m : ℤ)
    → Distinct (x ∷ xs)
    → Links c p (x ∷ xs) n
    → let t = last_cell x xs in
      Links (update c t (record { previous = (c t).previous; next = m })) p (x ∷ xs) m
Links-set_next c p x [] n m d l = ground arith
Links-set_next c p x (y ∷ ys) n m d l =
    ground (arith, All-last_cell (λ z. x ≢ z) y ys d.0, Links-set_next c (pos x) y ys n m d.1 l.2)
