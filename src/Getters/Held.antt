-- ===== src/Getters/Held.antt =====
-- Lists of addresses and the objects at them.
use queue_c.Base.{
  ℕ, ◌+◌, ◌≡◌, ◌≢◌, ◌≤◌, refl, sym, subst, ◌∙◌, inl, inr, List, [], ◌∷◌, ◌++◌, arith, length, All,
  NotIn, Distinct, IsIn, All-append, ◌==◌, Bool-cases,
}
use native.Mathlib.Decide.{ℕ_discrete}
use queue_c.DynList.{set}
use queue_c.Getters.{erase}

pub set_self {ℓ} : {A : Type ℓ} (f : ℕ → A) (a : ℕ) (v : A) → set f a v a ≡ v
set_self f a v = ground arith

pub set_other {ℓ} : {A : Type ℓ} (f : ℕ → A) (a : ℕ) (v : A) (k : ℕ) → k ≢ a → set f a v k ≡ f k
set_other f a v k ne = ground arith

-- What holds of the objects on a list still does when an object that is not on it changes.
pub All-set {ℓ κ} :
    {A : Type ℓ} (P : ℕ → A → Type κ) (f : ℕ → A) (a : ℕ) (v : A) (xs : List ℕ)
    → NotIn a xs
    → All (λ x. P x (f x)) xs
    → All (λ x. P x (set f a v x)) xs
All-set P f a v [] n h = tt
All-set P f a v (x ∷ xs) n h =
    (subst (P x) (sym (set_other f a v x (λ e. n.0 (sym e)))) h.0, All-set P f a v xs n.1 h.1)

-- What a change of one object keeps, it keeps on every list.
pub All-set_any {ℓ κ} :
    {A : Type ℓ} (P : ℕ → A → Type κ) (f : ℕ → A) (a : ℕ) (v : A) (xs : List ℕ)
    → (P a (f a) → P a v)
    → All (λ x. P x (f x)) xs
    → All (λ x. P x (set f a v x)) xs
All-set_any P f a v [] n h = tt
All-set_any P f a v (x ∷ xs) n h = (
  elim (ℕ_discrete x a) [
    | yes e ↦
        subst (λ y. P y (set f a v y)) (sym e)
          (subst (P a) (sym (set_self f a v)) (n (subst (λ y. P y (f y)) e h.0)))
    | no ne ↦ subst (P x) (sym (set_other f a v x ne)) h.0
  ],
  All-set_any P f a v xs n h.1,
)

pub All-erase {κ} : (P : ℕ → Type κ) (a : ℕ) (xs : List ℕ) → All P xs → All P (erase a xs)
All-erase P a [] h = tt
All-erase P a (x ∷ xs) h = elim (Bool-cases (x == a)) [
  | inl e ↦ rw e h.1
  | inr e ↦ rw e (h.0, All-erase P a xs h.1)
]

pub Distinct-erase : (a : ℕ) (xs : List ℕ) → Distinct xs → Distinct (erase a xs)
Distinct-erase a [] d = tt
Distinct-erase a (x ∷ xs) d = elim (Bool-cases (x == a)) [
  | inl e ↦ rw e d.1
  | inr e ↦ rw e (All-erase _ a xs d.0, Distinct-erase a xs d.1)
]

pub NotIn-erase : (a : ℕ) (xs : List ℕ) → Distinct xs → NotIn a (erase a xs)
NotIn-erase a [] d = tt
NotIn-erase a (x ∷ xs) d = elim (Bool-cases (x == a)) [
  | inl e ↦ rw e (subst (λ y. NotIn y xs) {x = x} (ground arith) d.0)
  | inr e ↦ rw e (ground arith, NotIn-erase a xs d.1)
]

pub length-erase : (a : ℕ) (xs : List ℕ) → IsIn a xs → length (erase a xs) + 1 ≡ length xs
length-erase a [] i = elim i [ ]
length-erase a (x ∷ xs) (inl e) = rw e (ground arith)
length-erase a (x ∷ xs) (inr i) = elim (Bool-cases (x == a)) [
  | inl e ↦ rw e (omega arith)
  | inr e ↦ rw e (omega (arith, length-erase a xs i))
]

pub length-erase_le : (a : ℕ) (xs : List ℕ) → length (erase a xs) ≤ length xs
length-erase_le a [] = omega arith
length-erase_le a (x ∷ xs) = elim (Bool-cases (x == a)) [
  | inl e ↦ rw e (omega arith)
  | inr e ↦ rw e (omega (arith, length-erase_le a xs))
]

-- A list without an address keeps every other.
pub IsIn-NotIn : (a b : ℕ) (xs : List ℕ) → IsIn a xs → NotIn b xs → a ≢ b
IsIn-NotIn a b [] i n = elim i [ ]
IsIn-NotIn a b (x ∷ xs) (inl e) n = λ q. n.0 (sym (e ∙ q))
IsIn-NotIn a b (x ∷ xs) (inr i) n = IsIn-NotIn a b xs i n.1

-- An address whose object differs from all those of a list is not on it.
pub NotIn-differs {ℓ κ} :
    {A : Type ℓ} (Q : A → Type κ) (f : ℕ → A) (a : ℕ) (xs : List ℕ)
    → All (λ x. Q (f x)) xs
    → ¬ Q (f a)
    → NotIn a xs
NotIn-differs Q f a [] h n = tt
NotIn-differs Q f a (x ∷ xs) h n =
    (λ e. n (subst (λ y. Q (f y)) (sym e) h.0), NotIn-differs Q f a xs h.1 n)

pub Distinct-snoc : (xs : List ℕ) (a : ℕ) → Distinct xs → NotIn a xs → Distinct (xs ++ (a ∷ []))
Distinct-snoc [] a d n = (tt, tt)
Distinct-snoc (x ∷ xs) a d n =
    (All-append _ xs (a ∷ []) d.0 (λ e. n.0 (sym e), tt), Distinct-snoc xs a d.1 n.1)

pub length-erase_none : (a : ℕ) (xs : List ℕ) → NotIn a xs → length (erase a xs) ≡ length xs
length-erase_none a [] n = refl
length-erase_none a (x ∷ xs) n = elim (Bool-cases (x == a)) [
  | inl e ↦ absurd (n.0 (ground arith))
  | inr e ↦ rw e (omega (arith, length-erase_none a xs n.1))
]
