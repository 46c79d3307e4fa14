-- ===== src/Base/Sums.antt =====
-- Sums of sizes over the indices below a bound.
use Prim.Native.Nat.{ℕ, zero, suc, ◌+◌, ◌≤◌, ◌<◌}
use mathlib.Core.Path.{◌≡◌, refl, sym, subst}
use mathlib.Core.Logic.{◌≢◌}
use native.Mathlib.Decide.{dec_lt, ℕ_discrete}
use native.Mathlib.Omega.{arith}

unfoldable pub sum : ℕ → (ℕ → ℕ) → ℕ
sum zero f = 0
sum (suc n) f = sum n f + f n

pub sum-congr : (n : ℕ) (f g : ℕ → ℕ) → ((k : ℕ) → k < n → f k ≡ g k) → sum n f ≡ sum n g
unfolding sum
sum-congr zero f g h = refl
sum-congr (suc n) f g h =
    omega (arith, h n (omega arith), sum-congr n f g (λ k lt. h k (omega arith)))

-- One of the sizes is larger.
pub sum-add :
    (n : ℕ) (f g : ℕ → ℕ) (i d : ℕ)
    → i < n
    → f i ≡ g i + d
    → ((k : ℕ) → k ≢ i → f k ≡ g k)
    → sum n f ≡ sum n g + d
unfolding sum
sum-add zero f g i d lt here others = absurd (omega arith)
sum-add (suc n) f g i d lt here others = elim (dec_lt i n) [
  | yes below ↦ omega (arith, sum-add n f g i d below here others, others n (λ e. omega arith))
  | no last ↦
      let e : n ≡ i = omega arith in
      let same : f n ≡ g n + d = subst (λ j. f j ≡ g j + d) (sym e) here in
      omega (arith, same, sum-congr n f g (λ k below. others k (λ q. omega arith)))
]

pub sum-grow :
    (n : ℕ) (f g : ℕ → ℕ) (i : ℕ)
    → i < n
    → f i ≡ g i + 1
    → ((k : ℕ) → k ≢ i → f k ≡ g k)
    → sum n f ≡ sum n g + 1
sum-grow n f g i = sum-add n f g i 1

pub le-sum : (n : ℕ) (f : ℕ → ℕ) (k : ℕ) → k < n → f k ≤ sum n f
unfolding sum
le-sum zero f k lt = absurd (omega arith)
le-sum (suc n) f k lt = elim (ℕ_discrete k n) [
  | yes e ↦ rw e (omega arith)
  | no ne ↦ omega (arith, le-sum n f k (omega arith))
]

pub sum-eq-zero : (n : ℕ) (f : ℕ → ℕ) → ((k : ℕ) → k < n → f k ≡ 0) → sum n f ≡ 0
unfolding sum
sum-eq-zero zero f h = refl
sum-eq-zero (suc n) f h =
    omega (arith, h n (omega arith), sum-eq-zero n f (λ k lt. h k (omega arith)))
