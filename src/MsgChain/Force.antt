-- ===== src/MsgChain/Force.antt =====
-- `qc_msgchain_forcepush`.
use queue_c.Base.{
  sum-eq-zero, ℕ, zero, suc, ◌+◌, ◌≡◌, ◌<◌, ◌≤◌, ◌≢◌, ap, inl, inr, Option, none, some, arith, ℤ,
  pos, length, ltb, lt→ltb, ltb→lt, ltb-false, Bool-cases,
}
use native.Mathlib.Decide.{ℕ_discrete}
use queue_c.Message.{Message}
use queue_c.MsgChain.{Bucket, MsgChain, take_from, evict, forcepush}
use queue_c.MsgChain.Inv.{
  IsChain, bucket_size, update_other, pushed, pushmsg-eq-pushed, pushed-IsChain,
}
use queue_c.MsgChain.Pop.{Pops, IsChain-IsReady, take_from-Pops, Pops-IsChain}

-- With room left the message is pushed and none goes.
pub forcepush-room :
    (c : MsgChain) (m : Message) (sn : ℕ)
    → IsChain c
    → m.priority ≡ pos (suc sn)
    → sn < c.bucket_count
    → c.msg_count < c.count_limit
    → forcepush c m ≡ some (pos 0, none, pushed c m sn)
unfolding forcepush
forcepush-room c m sn v e lt room =
    rw (lt→ltb c.msg_count c.count_limit room, pushmsg-eq-pushed c m sn v e lt room)

-- The outcome on a full chain: the oldest message of the lowest bucket that has one goes.
pub record Evicts (c : MsgChain) (m : Message) (sn : ℕ) (r : Option (ℤ × Option Message × MsgChain))
    : Type 0 where
  pub left : MsgChain
  pub old : Option Message
  pub result : r ≡ some (pos 0, old, pushed left m sn)
  pub popped : Pops c left old
  pub lowest : (k : ℕ) → k < popped.sn → bucket_size c.buckets k ≡ 0
  pub chain : IsChain (pushed left m sn)
  pub count : (pushed left m sn).msg_count ≡ c.msg_count

module _ (c : MsgChain) (m : Message) (sn : ℕ) (v : IsChain c) (e : m.priority ≡ pos (suc sn))
    (lt : sn < c.bucket_count) (left : 0 < c.msg_count) where
  below_suc :
      (i : ℕ)
      → ((k : ℕ) → k < i → bucket_size c.buckets k ≡ 0)
      → bucket_size c.buckets i ≡ 0
      → (k : ℕ) → k < suc i
      → bucket_size c.buckets k ≡ 0
  below_suc i low here k h = elim (ℕ_discrete k i) [
    | yes q ↦ rw q here
    | no ne ↦ low k (omega arith)
  ]

  -- Bucket `i` is the one that the pop took from.
  popped-sn :
      (i : ℕ) (d : MsgChain) (old : Option Message)
      → ((k : ℕ) → k ≢ i → (d.buckets k).msgs ≡ (c.buckets k).msgs)
      → (p : Pops c d old) → p.sn ≡ i
  popped-sn i d old same p = elim (ℕ_discrete p.sn i) [
    | yes q ↦ q
    | no ne ↦ absurd (omega (arith, ap length p.front, ap length (same p.sn ne)))
  ]

  evict-Evicts :
      (rounds i : ℕ)
      → ((k : ℕ) → k < i → bucket_size c.buckets k ≡ 0)
      → i + rounds ≡ c.bucket_count
      → Evicts c m sn (evict rounds c i m)
  unfolding evict
  evict-Evicts zero i low end = absurd (
      omega (
        arith,
        v.counted,
        sum-eq-zero c.bucket_count (bucket_size c.buckets) (λ k h. low k (omega arith)),
      ))
  evict-Evicts (suc rounds) i low end = elim (Bool-cases (ltb 0 (length (c.buckets i).msgs))) [
    | inl full ↦
        let (old, d) = take_from c i (c.buckets i).pop_counter in
        let popped : Pops c d old =
          take_from-Pops c i (c.buckets i).pop_counter (IsChain-IsReady c v left) (ltb→lt _ _ full)
            (v.turns i) in
        let w : IsChain d = Pops-IsChain c d old v popped in
        let room : d.msg_count < d.count_limit = omega (arith, v.limited) in
        record {
          left = d;
          old = old;
          result = rw (full, pushmsg-eq-pushed d m sn w e lt room);
          popped = popped;
          lowest = λ k h. low k (
              omega (
                arith,
                popped-sn i d old
                    (λ j ne. ap (λ (b : Bucket). b.msgs) (update_other c.buckets i _ j ne)) popped,
              ));
          chain = pushed-IsChain d m sn w e lt room;
          count = omega arith;
        }
    | inr none_here ↦
        rw none_here
          (evict-Evicts rounds (suc i) (λ k h. below_suc i low (ground arith) k h) (omega arith))
  ]

  -- On a full chain that satisfies the invariant and has a message, `forcepush` of a message whose
  -- priority is one of the chain's returns 0, gives up the oldest message of the lowest bucket that
  -- has one, puts the new message at the end of its bucket, keeps the count, and keeps the
  -- invariant.
  pub forcepush-Evicts : c.count_limit ≤ c.msg_count → Evicts c m sn (forcepush c m)
  unfolding forcepush
  forcepush-Evicts full =
      rw (ltb-false c.msg_count c.count_limit full)
        (evict-Evicts c.bucket_count 0 (λ k h. absurd (omega arith)) (omega arith))
