-- ===== src/Queue/Force.antt =====
-- `qc_queue_forceput`.
use queue_c.Base.{
  ℕ, suc, ◌+◌, ◌≡◌, ◌<◌, refl, ap, sym, ◌∙◌, Option, none, some, List, [], ◌∷◌, arith, length, pos,
}
use native.Mathlib.Decide.{dec_lt}
use queue_c.Message.{Message}
use queue_c.MsgChain.{forcepush}
use queue_c.MsgChain.Inv.{pushed, pushed-IsChain}
use queue_c.MsgChain.Force.{forcepush-room, forcepush-Evicts, Evicts}
use queue_c.Putters.Inv.{IsPutters-imp}
use queue_c.Queue.{Queue, forceput}
use queue_c.Queue.Weights.{weight, held, pushed-weight, popped-weight}
use queue_c.Queue.Inv.{IsQueue, IsGetters-none, stored}

-- The message that had to go, counted.
abbrev pub given : Option Message → ℕ
given none = 0
given (some m) = 1

abbrev pub gone : Option Message → List Message
gone none = []
gone (some m) = m ∷ []

module _ (q : Queue) (m : Message) (sn : ℕ) (v : IsQueue q) (e : m.priority ≡ pos (suc sn))
    (lt : sn < q.chain.bucket_count) where
  -- On a queue that satisfies its invariant, with a limit above 0 and no getter listed, `forceput`
  -- of a message whose priority is one of the queue's returns 0 and keeps the invariant, and one
  -- message more is stored, less the one it gives back.
  pub forceput-IsQueue :
      q.getters.waiting ≡ []
      → 0 < q.limit
      → (old : Option Message) × (q' : Queue) × (forceput q m ≡ some (pos 0, old, q'))
        × IsQueue q'
        × (stored q' + given old ≡ stored q + 1)
        × (q'.signalled_putters ≡ q.signalled_putters)
        × (q'.putters ≡ q.putters)
        × ((f : Message → ℕ) → held f q' + weight f (gone old) ≡ held f q + f m)
  unfolding forceput
  forceput-IsQueue nobody limit = elim (dec_lt q.chain.msg_count q.chain.count_limit) [
    | yes room ↦ (
      none,
      record q { chain = pushed q.chain m sn },
      rw (forcepush-room q.chain m sn v.chain e lt room),
      record {
        chain = pushed-IsChain q.chain m sn v.chain e lt room;
        limit = v.limit;
        levels = v.levels;
        getters = IsGetters-none _ _ q.getters q.signalled_getters nobody v.getters;
        putters =
            IsPutters-imp _ _ q.putters q.signalled_putters (λ f. absurd (omega (arith, v.limit)))
              v.putters;
        set_aside = v.set_aside;
      },
      omega arith,
      refl,
      refl,
      λ f. omega (arith, pushed-weight f q.chain m sn lt),
    )
    | no full ↦
        let x : Evicts q.chain m sn (forcepush q.chain m) =
          forcepush-Evicts q.chain m sn v.chain e lt (omega (arith, v.limit)) (omega arith) in
        (
          x.old,
          record q { chain = pushed x.left m sn },
          rw x.result,
          record {
            chain = x.chain;
            limit = x.popped.count_limit ∙ v.limit;
            levels = v.levels ∙ sym x.popped.bucket_count;
            getters = IsGetters-none _ _ q.getters q.signalled_getters nobody v.getters;
            putters = IsPutters-imp _ _ q.putters q.signalled_putters (λ f. x.count ∙ f) v.putters;
            set_aside = omega (arith, v.set_aside, ap length x.popped.temp);
          },
          omega (arith, x.count, ap length x.popped.temp, ap given x.popped.taken),
          refl,
          refl,
          λ f. omega (
            arith,
            pushed-weight f x.left m sn (omega (arith, x.popped.bucket_count)),
            popped-weight f q.chain x.left x.old q.chain.cursor v.chain x.popped,
            ap (λ o. weight f (gone o)) x.popped.taken,
            ap (weight f) x.popped.temp,
          ),
        )
  ]
