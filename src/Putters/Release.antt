-- ===== src/Putters/Release.antt =====
-- A putter that has been popped, and its release by the thread that popped it.
use queue_c.Base.{
  ℕ, ◌+◌, ◌-◌, ◌≡◌, ◌<◌, refl, ap, sym, subst, ◌∙◌, true, false, Option, some, List, [], ◌∷◌, ◌++◌,
  arith, length, ltb, lt→ltb, All, All-append, All-imp, NotIn, Distinct, sum, sum-grow,
}
use native.Mathlib.Decide.{ℕ_discrete, dec_lt}
use queue_c.DynList.{set}
use queue_c.Getters.Held.{set_self, All-set, Distinct-snoc}
use queue_c.Putters.{Putter, PuttersChain, putter_destroy}
use queue_c.Putters.Inv.{
  IsWaiting, IsPending, IsPutters, bucket_size, elsewhere, SameMessages, set-SameMessages,
}
use queue_c.Putters.Pop.{Pops}

abbrev pub released : PuttersChain → ℕ → PuttersChain
released d p = record d { at = set d.at p (record (d.at p) { ref_count = (d.at p).ref_count - 1 }) }

module _ (F : Type 0) (c d : PuttersChain) (popped : Option ℕ) (s : List ℕ) (v : IsPutters F c s)
    (p : Pops c d popped) where
  pub popped_waits : IsWaiting F p.sn (c.at p.putter)
  popped_waits = (subst (All (λ x. IsWaiting F p.sn (c.at x))) p.front (v.waiting p.sn)).0

  popped_object :
      d.at p.putter
      ≡ record (c.at p.putter) { entry = false; ref_count = (c.at p.putter).ref_count + 1 }
  popped_object = ap (λ f. f p.putter) p.object ∙ set_self c.at p.putter _

  pub popped_held : ltb 0 (d.at p.putter).ref_count ≡ true
  popped_held = ap (λ (o : Putter). ltb 0 o.ref_count) popped_object ∙ lt→ltb 0 _ (omega arith)

  pub popped_in_time : (d.at p.putter).is_timedout ≡ (c.at p.putter).is_timedout
  popped_in_time = ap (λ (o : Putter). o.is_timedout) popped_object

  pub popped_message : (d.at p.putter).message ≡ (c.at p.putter).message
  popped_message = ap (λ (o : Putter). o.message) popped_object

  pub released-SameMessages : SameMessages c (released d p.putter)
  released-SameMessages x =
      set-SameMessages d p.putter _ refl x
      ∙ ap (λ (f : ℕ → Putter). (f x).message) p.object
      ∙ set-SameMessages c p.putter _ refl x

  pub popped_below : p.sn < c.bucket_count
  popped_below = elim (dec_lt p.sn c.bucket_count) [
    | yes h ↦ h
    | no h ↦ absurd (omega (arith, v.inside p.sn (omega arith), ap length p.front))
  ]

  gone : (k : ℕ) → NotIn p.putter (d.buckets k).putters
  gone k = elim (ℕ_discrete k p.sn) [
    | yes e ↦ rw e (subst Distinct p.front (v.distinct p.sn)).0
    | no ne ↦
        subst (NotIn p.putter) (sym (p.others k ne))
          (elsewhere F c s v p.putter p.sn popped_waits.level k ne)
  ]

  not_signalled : NotIn p.putter s
  not_signalled = All-imp _ _ s (λ x n q. (subst (NotIn x) p.front n).0 (sym q)) (v.apart p.sn)

  -- A property of the lists of `c` that the tail of a list inherits.
  inherited {ℓ} :
      (P : ℕ → List ℕ → Type ℓ)
      → ((k x : ℕ) (l : List ℕ) → P k (x ∷ l) → P k l)
      → ((k : ℕ) → P k (c.buckets k).putters)
      → (k : ℕ) → P k (d.buckets k).putters
  inherited P tail h k = elim (ℕ_discrete k p.sn) [
    | yes e ↦ rw e (tail p.sn p.putter _ (subst (P p.sn) p.front (h p.sn)))
    | no ne ↦ subst (P k) (sym (p.others k ne)) (h k)
  ]

  pub destroy-eq-released : putter_destroy d p.putter ≡ some (released d p.putter)
  unfolding putter_destroy
  destroy-eq-released = rw popped_held

  unchanged :
      (P : Putter → Type 0) (l : List ℕ)
      → NotIn p.putter l
      → All (λ x. P (c.at x)) l
      → All (λ x. P ((released d p.putter).at x)) l
  unchanged P l n h =
      All-set (λ _ x. P x) d.at p.putter _ l n
        (subst (λ (f : ℕ → Putter). All (λ x. P (f x)) l) (sym p.object)
          (All-set (λ _ x. P x) c.at p.putter _ l n h))

  -- One that has timed out is forgotten.
  pub released-IsPutters : IsPutters F (released d p.putter) s
  released-IsPutters =
      let grown : sum c.bucket_count (bucket_size c.buckets)
          ≡ sum c.bucket_count (bucket_size d.buckets) + 1 =
        sum-grow c.bucket_count (bucket_size c.buckets) (bucket_size d.buckets) p.sn popped_below
          (ap length p.front ∙ omega arith) (λ k ne. ap length (sym (p.others k ne))) in
      record {
        counted = omega (
          arith,
          v.counted,
          p.fewer,
          grown,
          ap (λ n. sum n (bucket_size d.buckets)) p.bucket_count,
        );
        inside = λ k h.
            ap length (p.others k (λ q. omega (arith, popped_below, p.bucket_count)))
            ∙ v.inside k (omega (arith, p.bucket_count));
        distinct = inherited (λ _ l. Distinct l) (λ k x l h. h.1) v.distinct;
        waiting = λ k.
            unchanged (IsWaiting F k) (d.buckets k).putters (gone k)
              (inherited (λ j l. All (λ x. IsWaiting F j (c.at x)) l) (λ j x l h. h.1) v.waiting k);
        once = v.once;
        pending = unchanged IsPending s not_signalled v.pending;
        apart =
            inherited (λ _ l. All (λ x. NotIn x l) s)
              (λ j y l h. All-imp (λ x. NotIn x (y ∷ l)) (λ x. NotIn x l) s (λ x n. n.1) h) v.apart;
      }

  -- One in time is signalled.
  pub signalled-IsPutters :
      (c.at p.putter).is_timedout ≡ false → IsPutters F (released d p.putter) (s ++ (p.putter ∷ []))
  signalled-IsPutters in_time = record {
    counted = released-IsPutters.counted;
    inside = released-IsPutters.inside;
    distinct = released-IsPutters.distinct;
    waiting = released-IsPutters.waiting;
    once = Distinct-snoc s p.putter v.once not_signalled;
    pending = All-append _ s (p.putter ∷ []) released-IsPutters.pending (
      subst IsPending (sym (set_self d.at p.putter _)) (record {
        sole = omega (arith, ap (λ (o : Putter). o.ref_count) popped_object, popped_waits.sole);
        unlisted = ap (λ (o : Putter). o.entry) popped_object;
        in_time = popped_in_time ∙ in_time;
      }),
      tt,
    );
    apart = λ k. All-append _ s (p.putter ∷ []) (released-IsPutters.apart k) (gone k, tt);
  }
