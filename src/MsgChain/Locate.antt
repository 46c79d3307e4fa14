-- ===== src/MsgChain/Locate.antt =====
-- The bucket at which `qc_msgchain_popmsg` begins.
use queue_c.Base.{
  sum-eq-zero, ℕ, zero, suc, ◌≡◌, ◌≤◌, ◌<◌, refl, ap, subst, inl, inr, false, Option, none, some,
  List, [], ◌∷◌, arith, length, ltb, lt→ltb, ltb→lt, Bool-cases,
}
use native.Mathlib.Decide.{ℕ_discrete, dec_lt}
use queue_c.Message.{Message}
use queue_c.MsgChain.{Bucket, MsgChain, pass, second_pass, locate, popmsg}
use queue_c.MsgChain.Inv.{IsChain, bucket_size}

-- What the search for the highest bucket with a message finds.
abbrev pub Located : (ℕ → Bucket) → ℕ → Option ℕ → Type 0
Located b n none = (k : ℕ) → k ≤ n → (b k).msgs ≡ []
Located b n (some sn) =
    (sn ≤ n) × (0 < bucket_size b sn) × ((k : ℕ) → sn < k → k ≤ n → (b k).msgs ≡ [])

empty_of_Size : (l : List Message) → ltb 0 (length l) ≡ false → l ≡ []
empty_of_Size [] h = refl
empty_of_Size (x ∷ l) h = ground arith

Located-suc :
    (b : ℕ → Bucket) (n : ℕ) (r : Option ℕ)
    → (b (suc n)).msgs ≡ []
    → Located b n r
    → Located b (suc n) r
Located-suc b n none e l =
    λ k h. elim (ℕ_discrete k (suc n)) [ yes q ↦ rw q e | no ne ↦ l k (omega arith) ]
Located-suc b n (some sn) e (low, full, above) = (
  omega arith,
  full,
  λ k h g. elim (ℕ_discrete k (suc n)) [ yes q ↦ rw q e | no ne ↦ above k h (omega arith) ],
)

pub locate-Located : (b : ℕ → Bucket) (n : ℕ) → Located b n (locate b n)
unfolding locate
locate-Located b zero = elim (Bool-cases (ltb 0 (length (b zero).msgs))) [
  | inl full ↦ rw full (omega arith, ltb→lt _ _ full, λ k h g. absurd (omega arith))
  | inr none_here ↦
      rw none_here (λ k h. subst (λ j. (b j).msgs ≡ []) (omega arith) (empty_of_Size _ none_here))
]
locate-Located b (suc n) = elim (Bool-cases (ltb 0 (length (b (suc n)).msgs))) [
  | inl full ↦ rw full (omega arith, ltb→lt _ _ full, λ k h g. absurd (omega arith))
  | inr none_here ↦
      rw none_here (Located-suc b n (locate b n) (empty_of_Size _ none_here) (locate-Located b n))
]

-- A chain with a message has one in the highest bucket that the search finds, and the loop starts
-- there; the chain with the cursor moved there is one as before.
pub record Starts (c : MsgChain) (sn : ℕ) : Type 0 where
  pub full : 0 < bucket_size c.buckets sn
  pub chain : IsChain (record c { cursor = sn })
  pub runs : popmsg c ≡ pass second_pass (record c { cursor = sn }) sn

pub popmsg-Starts : (c : MsgChain) → IsChain c → 0 < c.msg_count → (sn : ℕ) × Starts c sn
unfolding popmsg
popmsg-Starts c v h = go (locate c.buckets c.cursor) refl (locate-Located c.buckets c.cursor)
  where
    everywhere : Located c.buckets c.cursor none → (k : ℕ) → (c.buckets k).msgs ≡ []
    everywhere l k = elim (dec_lt c.cursor k) [ yes g ↦ v.above k g | no g ↦ l k (omega arith) ]

    go :
        (r : Option ℕ)
        → locate c.buckets c.cursor ≡ r
        → Located c.buckets c.cursor r
        → (sn : ℕ) × Starts c sn
    go none e l = absurd (
        omega (
          arith,
          v.counted,
          sum-eq-zero c.bucket_count (bucket_size c.buckets) (λ k _. ap length (everywhere l k)),
        ))
    go (some sn) e (low, full, above) = (
      sn,
      record {
        full = full;
        chain = record {
          cursor_in = omega (arith, v.cursor_in);
          counted = v.counted;
          limited = v.limited;
          above = λ k g. elim (dec_lt c.cursor k) [
            | yes q ↦ v.above k q
            | no q ↦ above k g (omega arith)
          ];
          turns = v.turns;
          placed = v.placed;
        };
        runs = rw (lt→ltb 0 c.msg_count h, e);
      },
    )
