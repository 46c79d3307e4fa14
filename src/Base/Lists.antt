-- ===== src/Base/Lists.antt =====
-- Lists measured by native numbers, and membership by recursion.
use Prim.Native.Nat.{ℕ, zero, suc, ◌+◌, ◌<◌}
use mathlib.Core.Path.{◌≡◌, refl, ap, subst}
use mathlib.Core.Logic.{◌≢◌, ◌⊎◌, inl, inr}
use mathlib.Core.List.{List, [], ◌∷◌, ◌++◌, map}
use native.Mathlib.Omega.{arith}

module _ {ℓ} {A : Type ℓ} where
  abbrev pub length : List A → ℕ
  length [] = 0
  length (x ∷ xs) = suc (length xs)

  pub length-append : (xs ys : List A) → length (xs ++ ys) ≡ length xs + length ys
  length-append [] ys = omega arith
  length-append (x ∷ xs) ys = omega (arith, length-append xs ys)

pub length-map {ℓ κ} :
    {A : Type ℓ} {B : Type κ} (f : A → B) (xs : List A) → length (map f xs) ≡ length xs
length-map f [] = refl
length-map f (x ∷ xs) = ap suc (length-map f xs)

-- To split on a list and keep the equation.
pub List-cases {ℓ} : {A : Type ℓ} (l : List A) → (l ≡ []) ⊎ ((x : A) × (xs : List A) × (l ≡ x ∷ xs))
List-cases [] = inl refl
List-cases (x ∷ xs) = inr (x, xs, refl)

module _ {ℓ κ} {A : Type ℓ} where
  abbrev pub All : (A → Type κ) → List A → Type κ
  All P [] = Unit
  All P (x ∷ xs) = P x × All P xs

  pub All-append : (P : A → Type κ) (xs ys : List A) → All P xs → All P ys → All P (xs ++ ys)
  All-append P [] ys hx hy = hy
  All-append P (x ∷ xs) ys hx hy = (hx.0, All-append P xs ys hx.1 hy)

  pub All-left : (P : A → Type κ) (xs ys : List A) → All P (xs ++ ys) → All P xs
  All-left P [] ys h = tt
  All-left P (x ∷ xs) ys h = (h.0, All-left P xs ys h.1)

  pub All-right : (P : A → Type κ) (xs ys : List A) → All P (xs ++ ys) → All P ys
  All-right P [] ys h = h
  All-right P (x ∷ xs) ys h = All-right P xs ys h.1

-- `x` is not on the list; no entry of the list occurs twice.
abbrev pub NotIn : ℕ → List ℕ → Type 0
NotIn x xs = All (λ y. x ≢ y) xs

abbrev pub Distinct : List ℕ → Type 0
Distinct [] = Unit
Distinct (x ∷ xs) = NotIn x xs × Distinct xs

pub Distinct-left : (xs ys : List ℕ) → Distinct (xs ++ ys) → Distinct xs
Distinct-left [] ys d = tt
Distinct-left (x ∷ xs) ys d = (All-left _ xs ys d.0, Distinct-left xs ys d.1)

pub Distinct-right : (xs ys : List ℕ) → Distinct (xs ++ ys) → Distinct ys
Distinct-right [] ys d = d
Distinct-right (x ∷ xs) ys d = Distinct-right xs ys d.1

-- An entry in the middle occurs on neither side of it.
pub NotIn-before : (xs ys : List ℕ) (x : ℕ) → Distinct (xs ++ (x ∷ ys)) → NotIn x xs
NotIn-before [] ys x d = tt
NotIn-before (y ∷ xs) ys x d =
    (ground (arith, (All-right _ xs (x ∷ ys) d.0).0), NotIn-before xs ys x d.1)

pub Distinct-remove : (xs ys : List ℕ) (x : ℕ) → Distinct (xs ++ (x ∷ ys)) → Distinct (xs ++ ys)
Distinct-remove [] ys x d = d.1
Distinct-remove (y ∷ xs) ys x d = (
  All-append _ xs ys (All-left _ xs (x ∷ ys) d.0) (All-right _ xs (x ∷ ys) d.0).1,
  Distinct-remove xs ys x d.1,
)

pub Distinct-insert :
    (xs ys : List ℕ) (x : ℕ) → Distinct (xs ++ ys) → NotIn x (xs ++ ys) → Distinct (xs ++ (x ∷ ys))
Distinct-insert [] ys x d n = (n, d)
Distinct-insert (y ∷ xs) ys x d n = (
  All-append _ xs (x ∷ ys) (All-left _ xs ys d.0) (ground arith, All-right _ xs ys d.0),
  Distinct-insert xs ys x d.1 n.1,
)

-- 0, 1, …, n - 1 from `a` on.
abbrev pub count_from : ℕ → ℕ → List ℕ
count_from a zero = []
count_from a (suc n) = a ∷ count_from (suc a) n

-- Numbers below a bound are below an equal bound.
pub Below_of_eq : {n m : ℕ} (xs : List ℕ) → n ≡ m → All (λ x. x < m) xs → All (λ x. x < n) xs
Below_of_eq [] e h = tt
Below_of_eq (x ∷ xs) e h = (omega arith, Below_of_eq xs e h.1)

abbrev pub IsIn : ℕ → List ℕ → Type 0
IsIn a [] = ⊥
IsIn a (x ∷ xs) = (x ≡ a) ⊎ IsIn a xs

pub All-at {κ} : (P : ℕ → Type κ) (xs : List ℕ) (a : ℕ) → All P xs → IsIn a xs → P a
All-at P [] a h i = elim i [ ]
All-at P (x ∷ xs) a h (inl e) = subst P e h.0
All-at P (x ∷ xs) a h (inr i) = All-at P xs a h.1 i

pub All-imp {ℓ κ} :
    {A : Type ℓ} (P Q : A → Type κ) (xs : List A) → ((x : A) → P x → Q x) → All P xs → All Q xs
All-imp P Q [] f h = tt
All-imp P Q (x ∷ xs) f h = (f x h.0, All-imp P Q xs f h.1)

pub All-both {ℓ κ} :
    {A : Type ℓ} (P Q : A → Type κ) (xs : List A) → All P xs → All Q xs → All (λ x. P x × Q x) xs
All-both P Q [] h g = tt
All-both P Q (x ∷ xs) h g = ((h.0, g.0), All-both P Q xs h.1 g.1)
