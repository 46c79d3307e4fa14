-- ===== src/Queue/Get.antt =====
-- `qc_queue_msgget`.
use queue_c.Base.{
  ℕ, suc, ◌+◌, ◌≡◌, ◌≢◌, ◌<◌, refl, ap, sym, subst, ◌∙◌, inl, inr, Option, none, some, arith,
  Option-cases, eqb_true, eqb_false, length,
}
use native.Mathlib.Decide.{ℕ_discrete}
use queue_c.Getters.Inv.{IsGetters-imp, push-IsGetters}
use queue_c.Message.{Message}
use queue_c.MsgChain.{MsgChain, popmsg}
use queue_c.MsgChain.Pop.{Pops, popmsg-Pops}
use queue_c.Putters.Inv.{SameMessages, IsPutters-imp}
use queue_c.Queue.{Queue, Outcome, returns, waits, pop_putter, msgget}
use queue_c.Queue.Refill.{Refilled, pop_putter-Refilled, pop_putter-returns}
use queue_c.MsgChain.Stuck.{popmsg-two_levels}
use queue_c.Queue.Weights.{weight, held, owed, popped-weight}
use queue_c.Queue.Inv.{IsSound, IsQueue, stored}

-- What `msgget` has done: it returns a message that was stored, and the message of each putter it
-- signalled is stored in turn; or the thread waits as the getter `g`, with no message.
abbrev pub Given : Queue → ℕ → Outcome (Option Message) → Queue → Type 0
Given q g (returns none) q' = ⊥
Given q g (returns (some m)) q' =
    (stored q' + 1 + length q.signalled_putters ≡ stored q + length q'.signalled_putters)
    × ((f : Message → ℕ)
        → held f q' + f m + owed f q.putters q.signalled_putters
          ≡ held f q + owed f q'.putters q'.signalled_putters)
    × SameMessages q.putters q'.putters
Given q g (waits a) q' =
    (a ≡ g)
    × (q.chain.msg_count ≡ 0)
    × (stored q' ≡ stored q)
    × (q'.signalled_putters ≡ q.signalled_putters)
    × (q'.chain ≡ q.chain)
    × (q'.putters ≡ q.putters)

-- If it returns or waits.
abbrev pub Gives : Queue → ℕ → Option (Outcome (Option Message) × Queue) → Type 0
Gives q g none = Unit
Gives q g (some (r, q')) = IsQueue q' × Given q g r q'

module _ (q : Queue) (g : ℕ) (v : IsQueue q) (free : (q.getters.at g).ref_count ≡ 0) where
  -- With no message the thread waits.
  pub msgget-waits :
      q.chain.msg_count ≡ 0
      → (q' : Queue) × (msgget q g ≡ some (waits g, q')) × IsQueue q' × Given q g (waits g) q'
  unfolding msgget
  msgget-waits empty =
      let (l, e, w) =
        push-IsGetters (q.chain.msg_count ≡ 0) q.getters q.signalled_getters v.getters g free
          empty in
      (
        record q { getters = l },
        rw (eqb_true q.chain.msg_count 0 empty, e),
        record {
          chain = v.chain;
          limit = v.limit;
          levels = v.levels;
          getters = w;
          putters = v.putters;
          set_aside = v.set_aside;
        },
        (refl, empty, refl, refl, refl, refl),
      )

  module _ (full : q.chain.msg_count ≢ 0) (m : Option Message) (c : MsgChain)
      (e : popmsg q.chain ≡ some (m, c)) where
    popped : Pops (record q.chain { cursor = c.cursor }) c m
    popped = (popmsg-Pops q.chain c m v.chain e).0

    abbrev after : Queue
    after = record q { chain = c }

    after-IsSound : IsSound ⊥ (c.msg_count + 1 ≡ q.limit) after
    after-IsSound = record {
      chain = (popmsg-Pops q.chain c m v.chain e).1;
      limit = popped.count_limit ∙ v.limit;
      levels = v.levels ∙ sym popped.bucket_count;
      getters = IsGetters-imp _ ⊥ q.getters q.signalled_getters full v.getters;
      putters =
          IsPutters-imp _ _ q.putters q.signalled_putters (λ f. omega (arith, popped.fewer))
            v.putters;
      set_aside = omega (arith, v.set_aside, ap length popped.temp);
    }

    has_room : c.msg_count < q.limit
    has_room = omega (arith, popped.fewer, v.chain.limited, v.limit)

    -- With a message, whatever `popmsg` gives.
    get_message : Gives q g (msgget q g)
    unfolding msgget
    get_message =
        let rounds : ℕ = suc q.putters.putter_count in
        let refilled = pop_putter-Refilled rounds after after-IsSound has_room in
        elim (Option-cases (pop_putter rounds after)) [
          | inl stopped ↦ rw (eqb_false q.chain.msg_count 0 full, e, stopped) tt
          | inr (q', run) ↦
              let (w, ledger, weights, kept) = subst (Refilled after) run refilled in
              rw (eqb_false q.chain.msg_count 0 full, e, run, popped.taken)
                (
                  w,
                  (
                    omega (arith, ledger, popped.fewer, ap length popped.temp),
                    λ f. omega (
                      arith,
                      weights f,
                      popped-weight f q.chain c m c.cursor v.chain popped,
                      ap (weight f) popped.temp,
                    ),
                    kept,
                  ),
                )
        ]

    get_returns : q.chain.bucket_count ≡ 1 → msgget q g ≢ none
    unfolding msgget
    get_returns one =
        let rounds : ℕ = suc q.putters.putter_count in
        elim (Option-cases (pop_putter rounds after)) [
          | inl stopped ↦ absurd (
              pop_putter-returns rounds after after-IsSound has_room (v.levels ∙ one) (omega arith)
                stopped)
          | inr (q', run) ↦ rw (eqb_false q.chain.msg_count 0 full, e, run) (λ x. cc)
        ]

  -- If `msgget` returns or waits, on a queue that satisfies its invariant and with an address for a
  -- getter that is not in use, the invariant is kept. It returns a message, and of the messages
  -- stored one is gone and one has come for each putter signalled: that message and those stored
  -- are, each as often, those stored before and those of the putters signalled; or its thread waits
  -- as the getter of that address, where there was no message, and the messages and the putters
  -- stay as they are.
  pub msgget-Gives : Gives q g (msgget q g)
  unfolding msgget
  msgget-Gives = elim (ℕ_discrete q.chain.msg_count 0) [
    | yes empty ↦ let (q', e, w, given) = msgget-waits empty in subst (Gives q g) (sym e) (w, given)
    | no full ↦ elim (Option-cases (popmsg q.chain)) [
      | inl stopped ↦ rw (eqb_false q.chain.msg_count 0 full, stopped) tt
      | inr ((m, c), e) ↦ get_message full m c e
    ]
  ]

  -- On a queue of one priority that satisfies its invariant, and with an address for a getter that
  -- is not in use, `msgget` returns or waits: it does not stop the program, and the rounds of its
  -- loop over the putters suffice.
  pub msgget-returns : q.chain.bucket_count ≡ 1 → msgget q g ≢ none
  unfolding msgget
  msgget-returns one = elim (ℕ_discrete q.chain.msg_count 0) [
    | yes empty ↦ let (q', e, w, given) = msgget-waits empty in λ x. cc
    | no full ↦ elim (Option-cases (popmsg q.chain)) [
      | inl stopped ↦ absurd (popmsg-two_levels q.chain v.chain (omega arith) (omega arith) stopped)
      | inr ((m, c), e) ↦ get_returns full m c e one
    ]
  ]
