-- ===== src/MsgChain/Inv.antt =====
-- The invariant of the message chain, and `qc_msgchain_pushmsg`.
use queue_c.Base.{
  ℕ, suc, ◌+◌, ◌-◌, ◌≡◌, ◌≢◌, ◌≤◌, ◌<◌, refl, ap, sym, subst, ◌∙◌, true, All, All-append, some, [],
  ◌∷◌, ◌++◌, arith, ℤ, pos, ◌-ℤ◌, length, length-append, ltb, leb, if◌then◌else◌, ◌==◌, lt→ltb, sum,
  sum-grow, sum-eq-zero,
}
use mathlib.Core.List.{append-nil}
use native.Mathlib.Decide.{ℕ_discrete}
use queue_c.Message.{Message}
use queue_c.MsgChain.{Bucket, MsgChain, update, fresh, bucket_sn, pushmsg}

abbrev pub bucket_size : (ℕ → Bucket) → ℕ → ℕ
bucket_size b k = length (b k).msgs

-- The messages in the buckets below `n`.
abbrev pub total : ℕ → (ℕ → Bucket) → ℕ
total n b = sum n (bucket_size b)

-- The count is that of the buckets and within the limit, no bucket above the cursor has a message,
-- no bucket has had more turns than its priority, and a message lies in the bucket of its
-- priority.
pub record IsChain (c : MsgChain) : Type 0 where
  pub cursor_in : c.cursor < c.bucket_count
  pub counted : c.msg_count ≡ total c.bucket_count c.buckets
  pub limited : c.msg_count ≤ c.count_limit
  pub above : (k : ℕ) → c.cursor < k → (c.buckets k).msgs ≡ []
  pub turns : (k : ℕ) → (c.buckets k).pop_counter ≤ suc k
  pub placed : (k : ℕ) → All (λ m. m.priority ≡ pos (suc k)) (c.buckets k).msgs

-- A new chain.
pub fresh-IsChain : (l p : ℕ) → IsChain (fresh l (suc p))
fresh-IsChain l p = record {
  cursor_in = omega arith;
  counted = sym (sum-eq-zero (suc p) _ (λ k lt. refl));
  limited = omega arith;
  above = λ k h. refl;
  turns = λ k. omega arith;
  placed = λ k. tt;
}

pub update_self : (b : ℕ → Bucket) (i : ℕ) (v : Bucket) → update b i v i ≡ v
update_self b i v = ground arith

pub update_other : (b : ℕ → Bucket) (i : ℕ) (v : Bucket) (k : ℕ) → k ≢ i → update b i v k ≡ b k
update_other b i v k ne = ground arith

-- The chain after a message of priority `suc sn` is pushed.
abbrev pub pushed : MsgChain → Message → ℕ → MsgChain
pushed c m sn = record c {
  buckets =
      update c.buckets sn (record {
        msgs = (c.buckets sn).msgs ++ (m ∷ []);
        pop_counter = (c.buckets sn).pop_counter;
      });
  msg_count = c.msg_count + 1;
  cursor = if ltb c.cursor sn then sn else c.cursor;
}

-- The bucket of a message whose priority is one of the chain's.
bucket_sn_lem :
    (c : MsgChain) (m : Message) (sn : ℕ)
    → m.priority ≡ pos (suc sn)
    → sn < c.bucket_count
    → bucket_sn c m ≡ some sn
bucket_sn_lem c m sn e lt =
    let down : m.priority -ℤ pos 1 ≡ pos sn = ap (λ (p : ℤ). p -ℤ pos 1) e ∙ ground arith in
    let low : leb sn (c.bucket_count - 1) ≡ true = ground arith in rw (down, bucket_sn, low)

module _ (c : MsgChain) (m : Message) (sn : ℕ) (v : IsChain c) where
  -- A message whose priority is one of the chain's goes to the end of its bucket, while there is
  -- room.
  pub pushmsg-eq-pushed :
      m.priority ≡ pos (suc sn)
      → sn < c.bucket_count
      → c.msg_count < c.count_limit
      → pushmsg c m ≡ some (pos 0, pushed c m sn)
  unfolding pushmsg
  pushmsg-eq-pushed e lt room =
      rw (lt→ltb c.msg_count c.count_limit room, bucket_sn_lem c m sn e lt)

  pushed-placed :
      m.priority ≡ pos (suc sn)
      → (k : ℕ) → All (λ x. x.priority ≡ pos (suc k)) ((pushed c m sn).buckets k).msgs
  pushed-placed e k = elim (ℕ_discrete k sn) [
    | yes same ↦
        subst (λ j. All (λ x. x.priority ≡ pos (suc j)) ((pushed c m sn).buckets j).msgs) (sym same)
          (subst (All (λ x. x.priority ≡ pos (suc sn)))
            (sym (ap (λ (b : Bucket). b.msgs) (update_self c.buckets sn _)))
            (All-append _ (c.buckets sn).msgs (m ∷ []) (v.placed sn) (e, tt)))
    | no other ↦ rw (update_other c.buckets sn _ k other) (v.placed k)
  ]

  pub pushed-IsChain :
      m.priority ≡ pos (suc sn)
      → sn < c.bucket_count
      → c.msg_count < c.count_limit
      → IsChain (pushed c m sn)
  pushed-IsChain e lt room = record {
    cursor_in = ground arith;
    counted =
        ap (λ n. n + 1) v.counted
        ∙ sym (
            sum-grow c.bucket_count _ (bucket_size c.buckets) sn lt
              (ap (λ (b : Bucket). length b.msgs) (update_self c.buckets sn _)
                ∙ length-append (c.buckets sn).msgs (m ∷ []))
              (λ k ne. ap (λ (b : Bucket). length b.msgs) (update_other c.buckets sn _ k ne)));
    limited = ground arith;
    above = λ k h. ground (arith, v.above k);
    turns = λ k. ground (arith, v.turns k);
    placed = pushed-placed e;
  }

  -- A message whose priority is one of the chain's, pushed on a chain that satisfies the invariant
  -- and has room, goes to the end of the bucket of its priority; no other bucket changes, the count
  -- grows by one, 0 is returned, and the invariant is kept.
  pub pushmsg-IsChain :
      m.priority ≡ pos (suc sn)
      → sn < c.bucket_count
      → c.msg_count < c.count_limit
      → (d : MsgChain) × (pushmsg c m ≡ some (pos 0, d))
        × IsChain d
        × (d.msg_count ≡ c.msg_count + 1)
        × ((k : ℕ) → (d.buckets k).msgs ≡ (c.buckets k).msgs ++ (if k == sn then m ∷ [] else []))
  pushmsg-IsChain e lt room = (
    pushed c m sn,
    pushmsg-eq-pushed e lt room,
    pushed-IsChain e lt room,
    refl,
    λ k. elim (ℕ_discrete k sn) [
      | yes same ↦ rw same (ground arith)
      | no other ↦
          rw (update_other c.buckets sn _ k other) (ground (arith, append-nil (c.buckets k).msgs))
    ],
  )
