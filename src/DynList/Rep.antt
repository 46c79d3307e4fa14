-- ===== src/DynList/Rep.antt =====
-- The list of entries that a dynamic list stands for.
use queue_c.Base.{
  ℕ, ◌≡◌, refl, All, List, [], ◌∷◌, ◌++◌, arith, Option, none, some, NotIn, Distinct, length, true,
  Bool,
}
use queue_c.DynList.{DynList, set}

abbrev pub first_of : List ℕ → Option ℕ → Option ℕ
first_of [] n = n
first_of (x ∷ xs) n = some x

abbrev pub last_of : Option ℕ → List ℕ → Option ℕ
last_of p [] = p
last_of p (x ∷ xs) = last_of (some x) xs

-- `p` is the link back from the first entry, and `n` the link on from the last.
abbrev pub Linked : (prev next : ℕ → Option ℕ) → Option ℕ → List ℕ → Option ℕ → Type 0
Linked prev next p [] n = Unit
Linked prev next p (x ∷ xs) n =
    (prev x ≡ p) × (next x ≡ first_of xs n) × Linked prev next (some x) xs n

pub record Rep (l : DynList) (xs : List ℕ) : Type 0 where
  pub linked : Linked l.heap.prev l.heap.next none xs none
  pub alive : All (λ x. l.heap.live x ≡ true) xs
  pub head : l.head ≡ first_of xs none
  pub tail : l.tail ≡ last_of none xs
  pub count : l.count ≡ length xs
  pub distinct : Distinct xs

module _ (a : ℕ) (v : Option ℕ) (prev next : ℕ → Option ℕ) where
  -- A write to an entry that is not on the list leaves it.
  pub Linked-set_prev :
      (p : Option ℕ) (xs : List ℕ) (n : Option ℕ)
      → NotIn a xs
      → Linked prev next p xs n
      → Linked (set prev a v) next p xs n
  Linked-set_prev p [] n out l = tt
  Linked-set_prev p (x ∷ xs) n out l = ground (arith, Linked-set_prev (some x) xs n out.1 l.2)

  pub Linked-set_next :
      (p : Option ℕ) (xs : List ℕ) (n : Option ℕ)
      → NotIn a xs
      → Linked prev next p xs n
      → Linked prev (set next a v) p xs n
  Linked-set_next p [] n out l = tt
  Linked-set_next p (x ∷ xs) n out l = ground (arith, Linked-set_next (some x) xs n out.1 l.2)

pub alive-set :
    (live : ℕ → Bool) (a : ℕ) (b : Bool) (xs : List ℕ)
    → NotIn a xs
    → All (λ x. live x ≡ true) xs
    → All (λ x. set live a b x ≡ true) xs
alive-set live a b [] out h = tt
alive-set live a b (x ∷ xs) out h = ground (arith, alive-set live a b xs out.1 h.1)

module _ (prev next : ℕ → Option ℕ) where
  pub first_of-append :
      (xs ys : List ℕ) (n : Option ℕ) → first_of (xs ++ ys) n ≡ first_of xs (first_of ys n)
  first_of-append [] ys n = refl
  first_of-append (x ∷ xs) ys n = refl

  pub Linked-left :
      (p : Option ℕ) (xs ys : List ℕ) (n : Option ℕ)
      → Linked prev next p (xs ++ ys) n
      → Linked prev next p xs (first_of ys n)
  Linked-left p [] ys n l = tt
  Linked-left p (x ∷ xs) ys n l =
      ground (arith, first_of-append xs ys n, Linked-left (some x) xs ys n l.2)

  pub Linked-right :
      (p : Option ℕ) (xs ys : List ℕ) (n : Option ℕ)
      → Linked prev next p (xs ++ ys) n
      → Linked prev next (last_of p xs) ys n
  Linked-right p [] ys n l = l
  Linked-right p (x ∷ xs) ys n l = Linked-right (some x) xs ys n l.2

  pub Linked-append :
      (p : Option ℕ) (xs ys : List ℕ) (n : Option ℕ)
      → Linked prev next p xs (first_of ys n)
      → Linked prev next (last_of p xs) ys n
      → Linked prev next p (xs ++ ys) n
  Linked-append p [] ys n l r = r
  Linked-append p (x ∷ xs) ys n l r =
      ground (arith, first_of-append xs ys n, Linked-append (some x) xs ys n l.2 r)

pub last_of-append :
    (p : Option ℕ) (xs ys : List ℕ) → last_of p (xs ++ ys) ≡ last_of (last_of p xs) ys
last_of-append p [] ys = refl
last_of-append p (x ∷ xs) ys = last_of-append (some x) xs ys
