-- ===== src/StaticList/Rep.antt =====
-- The list of cell numbers that a static list stands for, and the two ways to relink a neighbour.
use queue_c.Base.{
  ℕ, ◌≡◌, ◌≢◌, arith, ◌<◌, refl, All, List, [], ◌∷◌, ◌++◌, some, ℤ, pos, NotIn, Distinct, length,
  if◌then◌else◌, NotIn-before, lt→ltb,
}
use queue_c.StaticList.{
  Cell, StaticList, update, invalid, is_invalid, set_next, set_previous, load, store,
}
use queue_c.StaticList.Links.{
  Links, first_of, last_of, last_cell, last_of-cons, All-last_cell, Links-update, Links-set_next,
  Links-set_previous,
}

-- `s` holds the cells `xs`, in this order and each once.
pub record Rep (s : StaticList) (xs : List ℕ) : Type 0 where
  pub links : Links s.cells invalid xs invalid
  pub head : s.head ≡ first_of xs invalid
  pub tail : s.tail ≡ last_of invalid xs
  pub num : s.num ≡ pos (length xs)
  pub limit : s.limit ≡ pos s.size
  pub inside : All (λ x. x < s.size) xs
  pub distinct : Distinct xs

-- The cells after the last cell of `ys` has got the next link `n`.
abbrev pub set_next_of : (ℕ → Cell) → List ℕ → ℤ → ℕ → Cell
set_next_of c [] n = c
set_next_of c (y ∷ ys) n =
    let t = last_cell y ys in update c t (record { previous = (c t).previous; next = n })

-- The cells after the first cell of `zs` has got the previous link `p`.
abbrev pub set_previous_of : (ℕ → Cell) → List ℕ → ℤ → ℕ → Cell
set_previous_of c [] p = c
set_previous_of c (z ∷ zs) p = update c z (record { previous = p; next = (c z).next })

abbrev pub if_empty {ℓ} : {A : Type ℓ} → List ℕ → A → A → A
if_empty [] a b = a
if_empty (x ∷ xs) a b = b

-- The write through the link to the last cell.
pub set_next-last :
    (s : StaticList) (y : ℕ) (ys : List ℕ) (n : ℤ)
    → All (λ z. z < s.size) (y ∷ ys)
    → set_next s (last_of invalid (y ∷ ys)) n
      ≡ some (record s { cells = set_next_of s.cells (y ∷ ys) n })
unfolding set_next load store
set_next-last s y ys n h = rw (
  last_of-cons invalid y ys,
  lt→ltb (last_cell y ys) s.size (All-last_cell (λ z. z < s.size) y ys h),
)

pub relink_next :
    (s : StaticList) (ys : List ℕ) (n : ℤ)
    → All (λ y. y < s.size) ys
    → (if is_invalid (last_of invalid ys)
        then some (record s { head = n })
        else set_next s (last_of invalid ys) n)
      ≡ some (record s { head = if_empty ys n s.head; cells = set_next_of s.cells ys n })
unfolding set_next load store
relink_next s [] n h = refl
relink_next s (y ∷ ys) n h = rw (
  last_of-cons invalid y ys,
  lt→ltb (last_cell y ys) s.size (All-last_cell (λ z. z < s.size) y ys h),
)

pub relink_previous :
    (s : StaticList) (zs : List ℕ) (p : ℤ)
    → All (λ z. z < s.size) zs
    → (if is_invalid (first_of zs invalid)
        then some (record s { tail = p })
        else set_previous s (first_of zs invalid) p)
      ≡ some (record s { tail = if_empty zs p s.tail; cells = set_previous_of s.cells zs p })
unfolding set_previous load store
relink_previous s [] p h = refl
relink_previous s (z ∷ zs) p h = rw (lt→ltb z s.size h.0)

pub Links-set_next_of :
    (c : ℕ → Cell) (p : ℤ) (ys : List ℕ) (m n : ℤ)
    → Distinct ys
    → Links c p ys m
    → Links (set_next_of c ys n) p ys n
Links-set_next_of c p [] m n d l = tt
Links-set_next_of c p (y ∷ ys) m n d l = Links-set_next c p y ys m n d l

pub Links-set_previous_of :
    (c : ℕ → Cell) (p q : ℤ) (zs : List ℕ) (n : ℤ)
    → Distinct zs
    → Links c p zs n
    → Links (set_previous_of c zs q) q zs n
Links-set_previous_of c p q [] n d l = tt
Links-set_previous_of c p q (z ∷ zs) n d l = Links-set_previous c p q z zs n d.0 l

-- The cells of a list are apart from those of another that follows it.
pub NotIn-last_cell :
    (y : ℕ) (ys zs : List ℕ) → Distinct (y ∷ (ys ++ zs)) → NotIn (last_cell y ys) zs
NotIn-last_cell y [] zs d = d.0
NotIn-last_cell y (x ∷ ys) zs d = NotIn-last_cell x ys zs d.1

pub Links-set_next_of-other :
    (c : ℕ → Cell) (p : ℤ) (ys zs : List ℕ) (n m : ℤ)
    → Distinct (ys ++ zs)
    → Links c p zs m
    → Links (set_next_of c ys n) p zs m
Links-set_next_of-other c p [] zs n m d l = l
Links-set_next_of-other c p (y ∷ ys) zs n m d l =
    Links-update c p zs m (last_cell y ys) _ (NotIn-last_cell y ys zs d) l

pub Links-set_previous_of-other :
    (c : ℕ → Cell) (p : ℤ) (ys zs : List ℕ) (q m : ℤ)
    → Distinct (ys ++ zs)
    → Links c p ys m
    → Links (set_previous_of c zs q) p ys m
Links-set_previous_of-other c p ys [] q m d l = l
Links-set_previous_of-other c p ys (z ∷ zs) q m d l =
    Links-update c p ys m z _ (NotIn-before ys zs z d) l

-- Relinking a neighbour leaves the cells of no list.
pub set_next_of-other :
    (c : ℕ → Cell) (ys : List ℕ) (n : ℤ) (x : ℕ) → NotIn x ys → set_next_of c ys n x ≡ c x
set_next_of-other c [] n x out = refl
set_next_of-other c (y ∷ ys) n x out = ground (arith, All-last_cell (λ z. x ≢ z) y ys out)

pub set_previous_of-other :
    (c : ℕ → Cell) (zs : List ℕ) (p : ℤ) (x : ℕ) → NotIn x zs → set_previous_of c zs p x ≡ c x
set_previous_of-other c [] p x out = refl
set_previous_of-other c (z ∷ zs) p x out = ground arith
