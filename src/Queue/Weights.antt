-- ===== src/Queue/Weights.antt =====
-- The messages of the queue, each as often as it is there: a weight for each message, and the
-- weights of the messages together.
use queue_c.Base.{
  ℕ, ◌+◌, ◌≡◌, ◌<◌, refl, ap, sym, ◌∙◌, Option, List, [], ◌∷◌, ◌++◌, arith, ◌==◌, All, NotIn, IsIn,
  inl, inr, Bool-cases, sum, sum-add, length,
}
use native.Mathlib.Decide.{dec_lt}
use queue_c.Getters.{erase}
use queue_c.Message.{Message}
use queue_c.MsgChain.{Bucket, MsgChain}
use queue_c.MsgChain.Inv.{IsChain, pushed, update_self, update_other}
use queue_c.MsgChain.Pop.{Pops}
use queue_c.Putters.{PuttersChain}
use queue_c.Putters.Inv.{SameMessages}
use queue_c.Queue.{Queue}

abbrev pub weight : (Message → ℕ) → List Message → ℕ
weight f [] = 0
weight f (m ∷ ms) = f m + weight f ms

pub weight-append :
    (f : Message → ℕ) (xs ys : List Message) → weight f (xs ++ ys) ≡ weight f xs + weight f ys
weight-append f [] ys = omega arith
weight-append f (x ∷ xs) ys = omega (arith, weight-append f xs ys)

-- Of the messages in the buckets.
abbrev pub chain_weight : (Message → ℕ) → MsgChain → ℕ
chain_weight f c = sum c.bucket_count (λ k. weight f (c.buckets k).msgs)

-- Of those in the buckets and those set aside.
abbrev pub held : (Message → ℕ) → Queue → ℕ
held f q = chain_weight f q.chain + weight f q.chain.temp

-- Of the putters at some addresses.
abbrev pub owed : (Message → ℕ) → PuttersChain → List ℕ → ℕ
owed f c [] = 0
owed f c (p ∷ ps) = f (c.at p).message + owed f c ps

pub owed-append :
    (f : Message → ℕ) (c : PuttersChain) (s t : List ℕ)
    → owed f c (s ++ t) ≡ owed f c s + owed f c t
owed-append f c [] t = omega arith
owed-append f c (p ∷ s) t = omega (arith, owed-append f c s t)

pub owed-congr :
    (f : Message → ℕ) (c d : PuttersChain) (s : List ℕ)
    → All (λ x. (d.at x).message ≡ (c.at x).message) s
    → owed f d s ≡ owed f c s
owed-congr f c d [] h = refl
owed-congr f c d (p ∷ s) (e, h) = omega (arith, ap f e, owed-congr f c d s h)

everywhere : (P : ℕ → Type 0) (s : List ℕ) → ((x : ℕ) → P x) → All P s
everywhere P [] h = tt
everywhere P (x ∷ s) h = (h x, everywhere P s h)

pub owed-SameMessages :
    (f : Message → ℕ) (c d : PuttersChain) (s : List ℕ) → SameMessages c d → owed f d s ≡ owed f c s
owed-SameMessages f c d s h = owed-congr f c d s (everywhere _ s h)

pub owed-erase :
    (f : Message → ℕ) (c : PuttersChain) (p : ℕ) (s : List ℕ)
    → IsIn p s
    → owed f c (erase p s) + f (c.at p).message ≡ owed f c s
owed-erase f c p [] i = elim i [ ]
owed-erase f c p (x ∷ s) (inl e) = rw e (ground arith)
owed-erase f c p (x ∷ s) (inr i) = elim (Bool-cases (x == p)) [
  | inl e ↦ rw e (omega (arith, ap (λ y. f (c.at y).message) {x = x} {y = p} (ground arith)))
  | inr e ↦ rw e (omega (arith, owed-erase f c p s i))
]

pub owed-erase_none :
    (f : Message → ℕ) (c : PuttersChain) (p : ℕ) (s : List ℕ)
    → NotIn p s
    → owed f c (erase p s) ≡ owed f c s
owed-erase_none f c p [] n = refl
owed-erase_none f c p (x ∷ s) n = elim (Bool-cases (x == p)) [
  | inl e ↦ absurd (n.0 (ground arith))
  | inr e ↦ rw e (omega (arith, owed-erase_none f c p s n.1))
]

pub pushed-weight :
    (f : Message → ℕ) (c : MsgChain) (m : Message) (sn : ℕ)
    → sn < c.bucket_count
    → chain_weight f (pushed c m sn) ≡ chain_weight f c + f m
pushed-weight f c m sn lt =
    sum-add c.bucket_count _ (λ k. weight f (c.buckets k).msgs) sn (f m) lt
      (ap (λ (b : Bucket). weight f b.msgs) (update_self c.buckets sn _)
        ∙ omega (arith, weight-append f (c.buckets sn).msgs (m ∷ [])))
      (λ k ne. ap (λ (b : Bucket). weight f b.msgs) (update_other c.buckets sn _ k ne))

-- The cursor may have been moved before the pop.
module _ (f : Message → ℕ) (c d : MsgChain) (m : Option Message) (cursor : ℕ) (v : IsChain c)
    (y : Pops (record c { cursor = cursor }) d m) where
  popped_low : y.sn < c.bucket_count
  popped_low = elim (dec_lt c.cursor y.sn) [
    | yes above ↦ absurd (omega (arith, ap length y.front, ap length (v.above y.sn above)))
    | no inside ↦ omega (arith, v.cursor_in)
  ]

  pub popped-weight : chain_weight f c ≡ chain_weight f d + f y.message
  popped-weight =
      sum-add c.bucket_count (λ k. weight f (c.buckets k).msgs) (λ k. weight f (d.buckets k).msgs)
        y.sn (f y.message) popped_low (ap (weight f) y.front ∙ omega arith)
        (λ k ne. ap (weight f) (sym (y.others k ne)))
      ∙ ap (λ n. sum n (λ k. weight f (d.buckets k).msgs) + f y.message) (sym y.bucket_count)
