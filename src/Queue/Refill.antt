-- ===== src/Queue/Refill.antt =====
-- `pop_loop` of `qc_queue_msgget`.
use queue_c.Base.{
  ℕ, zero, suc, ◌+◌, ◌≡◌, ◌≢◌, ◌<◌, refl, ap, sym, subst, ◌∙◌, inl, inr, true, false, Option, none,
  some, List, [], ◌∷◌, ◌++◌, arith, Bool-cases, Option-cases, length, length-append, le-sum, All,
}
use native.Mathlib.Decide.{dec_lt}
use queue_c.Getters.Inv.{IsGetters-imp}
use queue_c.Message.{Message}
use queue_c.MsgChain.Inv.{pushed, pushmsg-eq-pushed, pushed-IsChain}
use queue_c.Putters.{PuttersChain, pop, putter_destroy}
use queue_c.Putters.Inv.{IsPutters, SameMessages, IsPutters-imp, bucket_size}
use queue_c.Putters.Pop.{Pops, Yields, pop-Yields, pop-no_putter}
use queue_c.Putters.Release.{
  released, released-SameMessages, popped_waits, popped_held, popped_in_time, popped_message,
  popped_below, destroy-eq-released, released-IsPutters, signalled-IsPutters,
}
use queue_c.Putters.Returns.{pop-one_level}
use queue_c.Queue.{Queue, pop_putter}
use queue_c.Queue.Weights.{held, owed, owed-append, owed-SameMessages, pushed-weight}
use queue_c.Queue.Inv.{IsSound, IsQueue, stored}

All-empty {κ} : (P : ℕ → Type κ) (l : List ℕ) → length l ≡ 0 → All P l
All-empty P [] h = tt
All-empty P (x ∷ l) h = absurd (omega arith)

no_putter :
    (F : Type 0) (c : PuttersChain) (s : List ℕ)
    → c.putter_count ≡ 0
    → IsPutters F c s
    → (k : ℕ) → bucket_size c.buckets k ≡ 0
no_putter F c s none_left v k = elim (dec_lt k c.bucket_count) [
  | yes h ↦ omega (arith, le-sum c.bucket_count (bucket_size c.buckets) k h, v.counted)
  | no h ↦ v.inside k (omega arith)
]

-- With no putter left, nothing is asked of them.
IsPutters-none :
    (E F : Type 0) (c : PuttersChain) (s : List ℕ)
    → c.putter_count ≡ 0
    → IsPutters E c s
    → IsPutters F c s
IsPutters-none E F c s none_left v = record {
  counted = v.counted;
  inside = v.inside;
  distinct = v.distinct;
  waiting = λ k. All-empty _ (c.buckets k).putters (no_putter E c s none_left v k);
  once = v.once;
  pending = v.pending;
  apart = v.apart;
}

-- What `pop_loop` has done, if it returns: it has stored the message of each putter it signalled.
abbrev pub Refilled : Queue → Option Queue → Type 0
Refilled q none = Unit
Refilled q (some q') =
    IsQueue q'
    × (stored q' + length q.signalled_putters ≡ stored q + length q'.signalled_putters)
    × ((f : Message → ℕ)
        → held f q' + owed f q.putters q.signalled_putters
          ≡ held f q + owed f q'.putters q'.signalled_putters)
    × SameMessages q.putters q'.putters

module _ (q : Queue) (v : IsSound ⊥ (q.chain.msg_count + 1 ≡ q.limit) q)
    (room : q.chain.msg_count < q.limit) (popped : Option ℕ) (d : PuttersChain)
    (e : pop q.putters ≡ some (popped, d)) (y : Pops q.putters d popped) where
  -- One that has timed out is released.
  late_step :
      (rounds : ℕ) (c : PuttersChain)
      → putter_destroy d y.putter ≡ some c
      → (q.putters.at y.putter).is_timedout ≡ true
      → pop_putter (suc rounds) q ≡ pop_putter rounds (record q { putters = c })
  unfolding pop_putter
  late_step rounds c destroyed late = rw (
    e,
    y.taken,
    popped_held _ q.putters d popped q.signalled_putters v.putters y,
    popped_in_time _ q.putters d popped q.signalled_putters v.putters y ∙ late,
    destroyed,
  )

  late-IsSound :
      IsSound ⊥ (q.chain.msg_count + 1 ≡ q.limit) (record q { putters = released d y.putter })
  late-IsSound = record {
    chain = v.chain;
    limit = v.limit;
    levels = y.bucket_count ∙ v.levels;
    getters = v.getters;
    putters = released-IsPutters _ q.putters d popped q.signalled_putters v.putters y;
    set_aside = v.set_aside;
  }

  -- One in time has its message pushed.
  live_step :
      (rounds : ℕ) (c : PuttersChain)
      → putter_destroy d y.putter ≡ some c
      → IsPutters (q.chain.msg_count + 1 ≡ q.limit) c (q.signalled_putters ++ (y.putter ∷ []))
      → c.bucket_count ≡ d.bucket_count
      → SameMessages q.putters c
      → (q.putters.at y.putter).is_timedout ≡ false
      → (q' : Queue) × (pop_putter (suc rounds) q ≡ some q') × Refilled q (some q')
  unfolding pop_putter
  live_step rounds c destroyed signalled levels same in_time =
      let u = v.putters in
      let w = popped_waits _ q.putters d popped q.signalled_putters u y in
      let lt : y.sn < q.chain.bucket_count =
        omega (arith, v.levels, popped_below _ q.putters d popped q.signalled_putters u y) in
      let below : q.chain.msg_count < q.chain.count_limit = omega (arith, v.limit) in
      let m : Message = (q.putters.at y.putter).message in
      (
        record q {
          chain = pushed q.chain m y.sn;
          putters = c;
          signalled_putters = q.signalled_putters ++ (y.putter ∷ []);
        },
        rw (
          e,
          y.taken,
          popped_held _ q.putters d popped q.signalled_putters u y,
          popped_in_time _ q.putters d popped q.signalled_putters u y ∙ in_time,
          popped_message _ q.putters d popped q.signalled_putters u y,
          pushmsg-eq-pushed q.chain m y.sn v.chain w.message_level lt below,
          destroyed,
        ),
        (
          record {
            chain = pushed-IsChain q.chain m y.sn v.chain w.message_level lt below;
            limit = v.limit;
            levels = levels ∙ y.bucket_count ∙ v.levels;
            getters = IsGetters-imp ⊥ _ q.getters q.signalled_getters (λ x. absurd x) v.getters;
            putters =
                IsPutters-imp _ _ c (q.signalled_putters ++ (y.putter ∷ [])) (λ _. w.live in_time)
                  signalled;
            set_aside = v.set_aside;
          },
          omega (arith, length-append q.signalled_putters (y.putter ∷ [])),
          λ f. omega (
            arith,
            pushed-weight f q.chain m y.sn lt,
            owed-append f c q.signalled_putters (y.putter ∷ []),
            owed-SameMessages f q.putters c q.signalled_putters same,
            ap f (same y.putter),
          ),
          same,
        ),
      )

-- After a putter that has timed out is released.
Refilled-released :
    (q : Queue) (c : PuttersChain) (o : Option Queue)
    → SameMessages q.putters c
    → Refilled (record q { putters = c }) o
    → Refilled q o
Refilled-released q c none same r = tt
Refilled-released q c (some q') same (w, ledger, weights, kept) = (
  w,
  ledger,
  λ f. omega (arith, weights f, owed-SameMessages f q.putters c q.signalled_putters same),
  λ x. kept x ∙ same x,
)

-- Before it, no getter in time waits, and a putter in time only if one message is missing.
pub pop_putter-Refilled :
    (rounds : ℕ) (q : Queue)
    → IsSound ⊥ (q.chain.msg_count + 1 ≡ q.limit) q
    → q.chain.msg_count < q.limit
    → Refilled q (pop_putter rounds q)
unfolding pop_putter
pop_putter-Refilled zero q v room = tt
pop_putter-Refilled (suc rounds) q v room = elim (dec_lt 0 q.putters.putter_count) [
  | no none_left ↦ rw (pop-no_putter q.putters (omega arith)) (
    record {
      chain = v.chain;
      limit = v.limit;
      levels = v.levels;
      getters = IsGetters-imp ⊥ _ q.getters q.signalled_getters (λ x. absurd x) v.getters;
      putters = IsPutters-none _ _ q.putters q.signalled_putters (omega arith) v.putters;
      set_aside = v.set_aside;
    },
    refl,
    λ f. refl,
    λ x. refl,
  )
  | yes some_left ↦ elim (Option-cases (pop q.putters)) [
    | inl stopped ↦ rw stopped tt
    | inr ((popped, d), e) ↦
        let y : Pops q.putters d popped =
          subst (Yields q.putters) e (pop-Yields q.putters some_left) in
        let destroyed = destroy-eq-released _ q.putters d popped q.signalled_putters v.putters y in
        elim (Bool-cases (q.putters.at y.putter).is_timedout) [
          | inl late ↦
              subst (Refilled q)
                (sym (late_step q v room popped d e y rounds (released d y.putter) destroyed late))
                (Refilled-released q (released d y.putter)
                  (pop_putter rounds (record q { putters = released d y.putter }))
                  (released-SameMessages _ q.putters d popped q.signalled_putters v.putters y)
                  (pop_putter-Refilled rounds (record q { putters = released d y.putter })
                    (late-IsSound q v room popped d e y) room))
          | inr in_time ↦
              let (q', run, done) =
                live_step q v room popped d e y rounds (released d y.putter) destroyed
                  (signalled-IsPutters _ q.putters d popped q.signalled_putters v.putters y in_time)
                  refl (released-SameMessages _ q.putters d popped q.signalled_putters v.putters y)
                  in_time in
              subst (Refilled q) (sym run) done
        ]
  ]
]

-- With one priority, as many rounds as putters and one more suffice.
pub pop_putter-returns :
    (rounds : ℕ) (q : Queue)
    → IsSound ⊥ (q.chain.msg_count + 1 ≡ q.limit) q
    → q.chain.msg_count < q.limit
    → q.putters.bucket_count ≡ 1
    → q.putters.putter_count < rounds
    → pop_putter rounds q ≢ none
unfolding pop_putter
pop_putter-returns zero q v room one h = absurd (omega arith)
pop_putter-returns (suc rounds) q v room one h = elim (dec_lt 0 q.putters.putter_count) [
  | no none_left ↦ rw (pop-no_putter q.putters (omega arith)) (λ x. cc)
  | yes some_left ↦ elim (Option-cases (pop q.putters)) [
    | inl stopped ↦
        absurd (pop-one_level _ q.putters q.signalled_putters v.putters one some_left stopped)
    | inr ((popped, d), e) ↦
        let y : Pops q.putters d popped =
          subst (Yields q.putters) e (pop-Yields q.putters some_left) in
        let destroyed = destroy-eq-released _ q.putters d popped q.signalled_putters v.putters y in
        elim (Bool-cases (q.putters.at y.putter).is_timedout) [
          | inl late ↦
              subst (λ (r : Option Queue). r ≢ none)
                (sym (late_step q v room popped d e y rounds (released d y.putter) destroyed late))
                (pop_putter-returns rounds (record q { putters = released d y.putter })
                  (late-IsSound q v room popped d e y) room (y.bucket_count ∙ one)
                  (omega (arith, y.fewer)))
          | inr in_time ↦
              let (q', run, done) =
                live_step q v room popped d e y rounds (released d y.putter) destroyed
                  (signalled-IsPutters _ q.putters d popped q.signalled_putters v.putters y in_time)
                  refl (released-SameMessages _ q.putters d popped q.signalled_putters v.putters y)
                  in_time in
              λ x. cc
        ]
  ]
]
