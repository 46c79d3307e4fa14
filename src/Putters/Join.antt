-- ===== src/Putters/Join.antt =====
-- A putter that joins a bucket, and one that leaves after its wait has timed out.
use queue_c.Base.{
  ℕ, suc, ◌+◌, ◌-◌, ◌≡◌, ◌≢◌, ◌<◌, ◌⊎◌, refl, ap, sym, subst, ◌∙◌, inl, inr, true, false, some,
  List, [], ◌∷◌, ◌++◌, arith, length, length-append, ltb, lt→ltb, All, All-append, All-at, All-imp,
  All-both, NotIn, Distinct, IsIn, sum, sum-grow, ℤ, pos, failed, if◌then◌else◌,
}
use native.Mathlib.Decide.{ℕ_discrete, dec_lt}
use queue_c.DynList.{set}
use queue_c.Getters.{erase}
use queue_c.Getters.Held.{
  set_self, set_other, All-set, All-erase, Distinct-erase, NotIn-erase, NotIn-differs,
  Distinct-snoc, length-erase,
}
use queue_c.Message.{Message}
use queue_c.Putters.{Putter, PutBucket, PuttersChain, putter_create, putter_destroy, push, remove}
use queue_c.Putters.Inv.{
  SameMessages, set-SameMessages, IsWaiting, IsPending, IsPutters, bucket_size, bucket_sn_lem,
  not_waiting, not_pending, elsewhere, IsPutters-set,
}

abbrev new_putter : Message → Putter
new_putter m = record {
  message = m;
  priority = m.priority;
  is_timedout = false;
  entry = false;
  ref_count = 1;
}

abbrev pub joined : PuttersChain → ℕ → Message → ℕ → PuttersChain
joined c p m sn = record c {
  buckets = set c.buckets sn (record {
    putters = (c.buckets sn).putters ++ (p ∷ []);
    pop_counter = (c.buckets sn).pop_counter;
  });
  at = set (set c.at p (new_putter m)) p (record (new_putter m) { entry = true });
  putter_count = c.putter_count + 1;
  cursor = if ltb c.cursor sn then sn else c.cursor;
}

abbrev left_to : PuttersChain → ℕ → ℕ → PuttersChain
left_to c p sn = record c {
  buckets = set c.buckets sn (record {
    putters = erase p (c.buckets sn).putters;
    pop_counter = (c.buckets sn).pop_counter;
  });
  putter_count = c.putter_count - 1;
}

-- The list of one bucket is replaced; `P` holds of the new one and of the others.
pub bucket-set {ℓ} :
    (P : ℕ → List ℕ → Type ℓ) (b : ℕ → PutBucket) (sn : ℕ) (v : PutBucket)
    → P sn v.putters
    → ((k : ℕ) → k ≢ sn → P k (b k).putters)
    → (k : ℕ) → P k (set b sn v k).putters
bucket-set P b sn v here others k = elim (ℕ_discrete k sn) [
  | yes e ↦
      subst (λ j. P j (set b sn v j).putters) (sym e)
        (subst (λ (x : PutBucket). P sn x.putters) (sym (set_self b sn v)) here)
  | no ne ↦ subst (λ (x : PutBucket). P k x.putters) (sym (set_other b sn v k ne)) (others k ne)
]

pub joined_message :
    (c : PuttersChain) (p : ℕ) (m : Message) (sn : ℕ) → ((joined c p m sn).at p).message ≡ m
joined_message c p m sn =
    ap (λ (o : Putter). o.message)
      (set_self (set c.at p (new_putter m)) p (record (new_putter m) { entry = true }))

pub joined_others :
    (c : PuttersChain) (p : ℕ) (m : Message) (sn : ℕ)
    → (x : ℕ) → x ≢ p
    → ((joined c p m sn).at x).message ≡ (c.at x).message
joined_others c p m sn x other =
    ap (λ (o : Putter). o.message)
      (set_other (set c.at p (new_putter m)) p (record (new_putter m) { entry = true }) x other
        ∙ set_other c.at p (new_putter m) x other)

module _ (F : Type 0) (c : PuttersChain) (s : List ℕ) (v : IsPutters F c s) where
  update-IsWaiting :
      (p : ℕ) (m : Message)
      → ((k : ℕ) → NotIn p (c.buckets k).putters)
      → (k : ℕ) → All (λ x. IsWaiting F k ((joined c p m 0).at x)) (c.buckets k).putters
  update-IsWaiting p m n k =
      All-set (λ _ x. IsWaiting F k x) _ p _ (c.buckets k).putters (n k)
        (All-set (λ _ x. IsWaiting F k x) c.at p _ (c.buckets k).putters (n k) (v.waiting k))

  -- A new putter joins the bucket of its message's priority.
  pub push-IsPutters :
      (p : ℕ) (m : Message) (sn : ℕ)
      → (c.at p).ref_count ≡ 0
      → m.priority ≡ pos (suc sn)
      → sn < c.bucket_count
      → F
      → (push (putter_create c p m) p ≡ some (joined c p m sn)) × IsPutters F (joined c p m sn) s
  unfolding push putter_create
  push-IsPutters p m sn free e lt f =
      let n : (k : ℕ) → NotIn p (c.buckets k).putters = not_waiting F c s v p (λ q. omega arith) in
      let u : NotIn p s = not_pending F c s v p (λ q. omega (arith, q.sole)) in
      (
        rw (
          set_self c.at p (new_putter m),
          bucket_sn_lem (putter_create c p m) (new_putter m) sn e lt,
        ),
        record {
          counted =
              ap (λ k. k + 1) v.counted
              ∙ sym (
                  sum-grow c.bucket_count (bucket_size (joined c p m sn).buckets)
                    (bucket_size c.buckets) sn lt
                    (ap (λ (b : PutBucket). length b.putters) (set_self c.buckets sn _)
                      ∙ length-append (c.buckets sn).putters (p ∷ []))
                    (λ k ne.
                      ap (λ (b : PutBucket). length b.putters) (set_other c.buckets sn _ k ne)));
          inside = λ k h.
              ap (λ (b : PutBucket). length b.putters)
                (set_other c.buckets sn _ k (λ q. omega arith))
              ∙ v.inside k h;
          distinct =
              bucket-set (λ _ l. Distinct l) c.buckets sn _
                (Distinct-snoc (c.buckets sn).putters p (v.distinct sn) (n sn))
                (λ k _. v.distinct k);
          waiting =
              bucket-set (λ k l. All (λ x. IsWaiting F k ((joined c p m sn).at x)) l) c.buckets sn _
                (All-append _ (c.buckets sn).putters (p ∷ []) (update-IsWaiting p m n sn) (
                  subst (IsWaiting F sn) (sym (set_self (set c.at p (new_putter m)) p _)) (record {
                    sole = refl;
                    listed = refl;
                    level = e;
                    message_level = e;
                    live = λ _. f;
                  }),
                  tt,
                ))
                (λ k _. update-IsWaiting p m n k);
          once = v.once;
          pending =
              All-set (λ _ x. IsPending x) _ p _ s u
                (All-set (λ _ x. IsPending x) c.at p _ s u v.pending);
          apart =
              bucket-set (λ _ l. All (λ x. NotIn x l) s) c.buckets sn _
                (All-imp _ _ s
                  (λ x q. All-append _ (c.buckets sn).putters (p ∷ []) q.0 (λ h. q.1 (sym h), tt))
                  (All-both _ _ s (v.apart sn) u))
                (λ k _. v.apart k);
        },
      )

  pub listed_below : (p k : ℕ) → IsIn p (c.buckets k).putters → k < c.bucket_count
  listed_below p k i = elim (dec_lt k c.bucket_count) [
    | yes h ↦ h
    | no h ↦
        absurd (omega (arith, v.inside k (omega arith), length-erase p (c.buckets k).putters i))
  ]

  left-IsPutters :
      (p sn : ℕ)
      → IsIn p (c.buckets sn).putters
      → IsPutters F (left_to c p sn) s × ((k : ℕ) → NotIn p ((left_to c p sn).buckets k).putters)
  left-IsPutters p sn i =
      let w : IsWaiting F sn (c.at p) =
        All-at (λ x. IsWaiting F sn (c.at x)) (c.buckets sn).putters p (v.waiting sn) i in
      let grown : sum c.bucket_count (bucket_size c.buckets)
          ≡ sum c.bucket_count (bucket_size (left_to c p sn).buckets) + 1 =
        sum-grow c.bucket_count (bucket_size c.buckets) (bucket_size (left_to c p sn).buckets) sn
          (listed_below p sn i)
          (sym (length-erase p (c.buckets sn).putters i)
            ∙ ap (λ (b : PutBucket). length b.putters + 1) (sym (set_self c.buckets sn _)))
          (λ k ne.
            ap (λ (b : PutBucket). length b.putters) (sym (set_other c.buckets sn _ k ne))) in
      (
        record {
          counted = omega (arith, v.counted, grown);
          inside = λ k h.
              ap (λ (b : PutBucket). length b.putters)
                (set_other c.buckets sn _ k (λ q. omega (arith, listed_below p sn i)))
              ∙ v.inside k h;
          distinct =
              bucket-set (λ _ l. Distinct l) c.buckets sn _
                (Distinct-erase p (c.buckets sn).putters (v.distinct sn)) (λ k _. v.distinct k);
          waiting =
              bucket-set (λ k l. All (λ x. IsWaiting F k (c.at x)) l) c.buckets sn _
                (All-erase _ p (c.buckets sn).putters (v.waiting sn)) (λ k _. v.waiting k);
          once = v.once;
          pending = v.pending;
          apart =
              bucket-set (λ _ l. All (λ x. NotIn x l) s) c.buckets sn _
                (All-imp _ _ s (λ x q. All-erase _ p (c.buckets sn).putters q) (v.apart sn))
                (λ k _. v.apart k);
        },
        bucket-set (λ _ l. NotIn p l) c.buckets sn _
            (NotIn-erase p (c.buckets sn).putters (v.distinct sn))
            (λ k ne. elsewhere F c s v p sn w.level k ne),
      )

-- An object that is neither listed nor signalled is released.
dropped-IsPutters :
    (F : Type 0) (c : PuttersChain) (s : List ℕ) (p : ℕ)
    → IsPutters F c s
    → 0 < (c.at p).ref_count
    → ((k : ℕ) → NotIn p (c.buckets k).putters)
    → NotIn p s
    → (d : PuttersChain) × (putter_destroy c p ≡ some d)
      × IsPutters F d s
      × (d.bucket_count ≡ c.bucket_count)
      × SameMessages c d
unfolding putter_destroy
dropped-IsPutters F c s p v h n m = (
  record c { at = set c.at p (record (c.at p) { ref_count = (c.at p).ref_count - 1 }) },
  rw (lt→ltb 0 (c.at p).ref_count h),
  IsPutters-set F c s v p _ n m,
  refl,
  set-SameMessages c p _ refl,
)

-- The thread of a putter that has timed out leaves, from the bucket it waits in, or after it has
-- been popped.
pub leaves-IsPutters :
    (F : Type 0) (c : PuttersChain) (s : List ℕ)
    → IsPutters F c s
    → (p sn : ℕ) → 0 < (c.at p).ref_count
    → (c.at p).is_timedout ≡ true
    → IsIn p (c.buckets sn).putters ⊎ ((c.at p).entry ≡ false)
    → (r : ℤ) × (c' d : PuttersChain) × (remove c p ≡ some (r, c'))
      × (putter_destroy c' p ≡ some d)
      × IsPutters F d s
      × (d.bucket_count ≡ c.bucket_count)
      × SameMessages c d
unfolding remove
leaves-IsPutters F c s v p sn held late (inl i) =
    let w : IsWaiting F sn (c.at p) =
      All-at (λ x. IsWaiting F sn (c.at x)) (c.buckets sn).putters p (v.waiting sn) i in
    let (left, gone) = left-IsPutters F c s v p sn i in
    let (d, e, u, b, kept) =
      dropped-IsPutters F (left_to c p sn) s p left held gone
        (not_pending F c s v p (λ q. cc (q.in_time, late))) in
    (
      pos 0,
      left_to c p sn,
      d,
      rw (
        lt→ltb 0 (c.at p).ref_count held,
        w.listed,
        bucket_sn_lem c (c.at p) sn w.level (listed_below F c s v p sn i),
      ),
      e,
      u,
      b,
      kept,
    )
leaves-IsPutters F c s v p sn held late (inr gone) =
    let n : (k : ℕ) → NotIn p (c.buckets k).putters = λ k.
      NotIn-differs (IsWaiting F k) c.at p (c.buckets k).putters (v.waiting k)
        (λ w. cc (w.listed, gone)) in
    let (d, e, u, b, kept) =
      dropped-IsPutters F c s p v held n (not_pending F c s v p (λ q. cc (q.in_time, late))) in
    (failed, c, d, rw (lt→ltb 0 (c.at p).ref_count held, gone), e, u, b, kept)
