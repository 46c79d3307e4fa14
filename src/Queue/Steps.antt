-- ===== src/Queue/Steps.antt =====
-- Any number of threads that put and get, with their waits, in any order of their steps.
use queue_c.Base.{
  agree, ℕ, suc, ◌+◌, ◌≡◌, refl, ap, sym, subst, ◌∙◌, inl, Option, none, some, List, [], ◌∷◌, arith,
  NotIn, All-imp, sum-eq-zero, eqb_false, ℤ, pos, failed,
}
use queue_c.Putters.Inv.{SameMessages, not_pending}
use queue_c.Queue.Weights.{
  weight, chain_weight, held, owed, owed-congr, owed-SameMessages, owed-erase, owed-erase_none,
}
use queue_c.Getters.Held.{IsIn-NotIn, set_self, set_other}
use queue_c.DynList.{set}
use native.Mathlib.Decide.{ℕ_discrete}
use queue_c.Message.{Message}
use queue_c.MsgChain.{fresh}
use queue_c.MsgChain
use queue_c.MsgChain.Inv.{fresh-IsChain}
use queue_c.Getters
use queue_c.Putters.{Putter, PuttersChain}
use queue_c.Putters
use queue_c.Queue.{Queue, Outcome, returns, waits, create}
use queue_c.Queue.Inv.{IsQueue}
use queue_c.Queue.Put.{Taken, msgput-returns}
use queue_c.Queue.Get.{Given, Gives, msgget-Gives}
use queue_c.Queue.Waits.{
  getter_woken-returns, getter_expires-returns, getter_leaves-returns, putter_woken-returns,
  putter_expires-returns, putter_leaves-returns,
}
use queue_c.Queue.Force.{gone, forceput-IsQueue}
use queue_c.Queue.Traces.{
  Traced, with_message, done_put, done_ask, done_get, Step, puts, gets, forces, getter_wakes,
  getter_times_out, getter_goes, putter_wakes, putter_times_out, putter_goes, Reaches, start, next,
  IsBalanced, IsAsked, IsTraced,
}

weight-with_message :
    (f : Message → ℕ) (o : Option Message) (ms : List Message)
    → weight f (with_message o ms) ≡ weight f (gone o) + weight f ms
weight-with_message f none ms = omega arith
weight-with_message f (some m) ms = omega arith

-- The chain and the messages of the putters signalled are what they were.
kept-IsBalanced :
    (s : Traced) (q : Queue)
    → q.chain ≡ s.queue.chain
    → ((f : Message → ℕ)
        → owed f q.putters q.signalled_putters ≡ owed f s.queue.putters s.queue.signalled_putters)
    → IsBalanced s
    → IsBalanced (record s { queue = q })
kept-IsBalanced s q same owing h f =
    omega (arith, h f, owing f, ap (λ c. chain_weight f c + weight f c.temp) same)

same_putters :
    (q q' : Queue)
    → q'.putters ≡ q.putters
    → q'.signalled_putters ≡ q.signalled_putters
    → (f : Message → ℕ)
    → owed f q'.putters q'.signalled_putters ≡ owed f q.putters q.signalled_putters
same_putters q q' putters same f =
    ap (λ c. owed f c q'.signalled_putters) putters ∙ ap (owed f q.putters) same

same_messages :
    (q q' : Queue)
    → SameMessages q.putters q'.putters
    → q'.signalled_putters ≡ q.signalled_putters
    → (f : Message → ℕ)
    → owed f q'.putters q'.signalled_putters ≡ owed f q.putters q.signalled_putters
same_messages q q' messages same f =
    owed-SameMessages f q.putters q'.putters q'.signalled_putters messages
    ∙ ap (owed f q.putters) same

put_ledger :
    (s : Traced) (m : Message) (p : ℕ) (r : Outcome ℤ) (q : Queue)
    → IsQueue s.queue
    → (s.queue.putters.at p).ref_count ≡ 0
    → Taken s.queue m p r q
    → IsBalanced s
    → IsBalanced (record s { queue = q; put = done_put m r s.put; asked = done_ask p m r s.asked })
put_ledger s m p (returns r) q v free (ret, more, same, putters, weights) h =
    λ f. omega (arith, h f, weights f, same_putters s.queue q putters same f)
put_ledger s m p (waits a) q v free (here, full, kept, same, chain, new, others) h =
    let apart : NotIn p s.queue.signalled_putters =
      not_pending _ s.queue.putters s.queue.signalled_putters v.putters p
        (λ w. omega (arith, w.sole)) in
    kept-IsBalanced s q chain
      (λ f.
        ap (owed f q.putters) same
        ∙ owed-congr f s.queue.putters q.putters s.queue.signalled_putters
            (All-imp _ _ s.queue.signalled_putters (λ x ne. others x (λ e. ne (sym e))) apart))
      h

get_ledger :
    (s : Traced) (g : ℕ) (r : Outcome (Option Message)) (q : Queue)
    → Given s.queue g r q
    → IsBalanced s
    → IsBalanced (record s { queue = q; got = done_get r s.got })
get_ledger s g (returns none) q given h = absurd given
get_ledger s g (returns (some m)) q (kept, weights, messages) h = λ f. omega (arith, h f, weights f)
get_ledger s g (waits a) q (here, empty, kept, same, chain, putters) h =
    kept-IsBalanced s q chain (same_putters s.queue q putters same) h

put_asked :
    (s : Traced) (m : Message) (p : ℕ) (r : Outcome ℤ) (q : Queue)
    → Taken s.queue m p r q
    → IsAsked s.queue s.asked
    → IsAsked q (done_ask p m r s.asked)
put_asked s m p (returns r) q (ret, more, same, putters, weights) h =
    λ x. ap (λ (c : PuttersChain). (c.at x).message) putters ∙ h x
put_asked s m p (waits a) q (here, full, kept, same, chain, new, others) h = λ x.
    elim (ℕ_discrete x p) [
      | yes e ↦
          subst (λ y. (q.putters.at y).message ≡ set s.asked p m y) (sym e)
            (new ∙ sym (set_self s.asked p m))
      | no ne ↦ others x ne ∙ h x ∙ sym (set_other s.asked p m x ne)
    ]

same_asked :
    (q q' : Queue) (asked : ℕ → Message)
    → q'.putters ≡ q.putters
    → IsAsked q asked
    → IsAsked q' asked
same_asked q q' asked putters h x = ap (λ (c : PuttersChain). (c.at x).message) putters ∙ h x

get_asked :
    (s : Traced) (g : ℕ) (r : Outcome (Option Message)) (q : Queue)
    → Given s.queue g r q
    → IsAsked s.queue s.asked
    → IsAsked q s.asked
get_asked s g (returns none) q given h = absurd given
get_asked s g (returns (some m)) q (kept, weights, messages) h = λ x. messages x ∙ h x
get_asked s g (waits a) q (here, empty, kept, same, chain, putters) h =
    same_asked s.queue q s.asked putters h

pub Step-IsTraced : (s t : Traced) → IsTraced s → Step s t → IsTraced t
Step-IsTraced s _ v (puts m p sn r q e lt free run) =
    let (r', q', run', w, taken) = msgput-returns s.queue m p sn v.queue e lt free in
    subst
      (λ (x : Outcome ℤ × Queue).
        IsTraced
          (record s { queue = x.1; put = done_put m x.0 s.put; asked = done_ask p m x.0 s.asked }))
      (agree _ (r', q') (r, q) run' run)
      (record {
        queue = w;
        ledger = put_ledger s m p r' q' v.queue free taken v.ledger;
        asked = put_asked s m p r' q' taken v.asked;
      })
Step-IsTraced s _ v (gets g r q free run) =
    let (w, given) = subst (Gives s.queue g) run (msgget-Gives s.queue g v.queue free) in
    record {
      queue = w;
      ledger = get_ledger s g r q given v.ledger;
      asked = get_asked s g r q given v.asked;
    }
Step-IsTraced s _ v (forces m sn ret old q e lt nobody limit run) =
    let (old', q', run', w, more, same, putters, weights) =
      forceput-IsQueue s.queue m sn v.queue e lt nobody limit in
    subst
      (λ (x : ℤ × Option Message × Queue).
        IsTraced (record s { queue = x.2; put = m ∷ s.put; got = with_message x.1 s.got }))
      (agree _ (pos 0, old', q') (ret, old, q) run' run)
      (record {
        queue = w;
        ledger = λ f. omega (
          arith,
          v.ledger f,
          weights f,
          weight-with_message f old' s.got,
          same_putters s.queue q' putters same f,
        );
        asked = same_asked s.queue q' s.asked putters v.asked;
      })
Step-IsTraced s _ v (getter_wakes g m q i run) =
    let (m', q', run', w, less, front, same, putters, weights) =
      getter_woken-returns s.queue v.queue g i in
    subst
      (λ (x : Option Message × Queue).
        IsTraced (record s { queue = x.1; got = with_message x.0 s.got }))
      (agree _ (some m', q') (m, q) run' run)
      (record {
        queue = w;
        ledger = λ f. omega (arith, v.ledger f, weights f, same_putters s.queue q' putters same f);
        asked = same_asked s.queue q' s.asked putters v.asked;
      })
Step-IsTraced s _ v (getter_times_out g q i run) =
    let (q', run', w, kept, same, chain, putters) = getter_expires-returns s.queue v.queue g i in
    subst (λ x. IsTraced (record s { queue = x })) (agree _ q' q run' run)
      (record {
        queue = w;
        ledger = kept-IsBalanced s q' chain (same_putters s.queue q' putters same) v.ledger;
        asked = same_asked s.queue q' s.asked putters v.asked;
      })
Step-IsTraced s _ v (getter_goes g m q held late run) =
    let (q', run', w, kept, same, chain, putters, still) =
      getter_leaves-returns s.queue v.queue g held late in
    subst (λ (x : Option Message × Queue). IsTraced (record s { queue = x.1 }))
      (agree _ (none, q') (m, q) run' run)
      (record {
        queue = w;
        ledger = kept-IsBalanced s q' chain (same_putters s.queue q' putters same) v.ledger;
        asked = same_asked s.queue q' s.asked putters v.asked;
      })
Step-IsTraced s _ v (putter_wakes p ret q i run) =
    let (q', run', w, kept, fewer, chain, messages) = putter_woken-returns s.queue v.queue p i in
    subst (λ (x : ℤ × Queue). IsTraced (record s { queue = x.1; put = s.asked p ∷ s.put }))
      (agree _ (pos 0, q') (ret, q) run' run)
      (record {
        queue = w;
        ledger = λ f. omega (
          arith,
          v.ledger f,
          ap f (v.asked p),
          ap (λ c. chain_weight f c + weight f c.temp) chain,
          owed-SameMessages f s.queue.putters q'.putters q'.signalled_putters messages,
          ap (owed f s.queue.putters) fewer,
          owed-erase f s.queue.putters p s.queue.signalled_putters i,
        );
        asked = λ x. messages x ∙ v.asked x;
      })
Step-IsTraced s _ v (putter_times_out p sn q i run) =
    let (q', run', w, kept, fewer, chain, messages) =
      putter_expires-returns s.queue v.queue p sn (inl i) in
    let apart : NotIn p s.queue.signalled_putters =
      All-imp _ _ s.queue.signalled_putters (λ x n. IsIn-NotIn p x _ i n)
        (v.queue.putters.apart sn) in
    subst (λ x. IsTraced (record s { queue = x })) (agree _ q' q run' run)
      (record {
        queue = w;
        ledger =
            kept-IsBalanced s q' chain
              (λ f.
                owed-SameMessages f s.queue.putters q'.putters q'.signalled_putters messages
                ∙ ap (owed f s.queue.putters) fewer
                ∙ owed-erase_none f s.queue.putters p s.queue.signalled_putters apart)
              v.ledger;
        asked = λ x. messages x ∙ v.asked x;
      })
Step-IsTraced s _ v (putter_goes p sn ret q held late i run) =
    let (q', run', w, kept, same, chain, messages) =
      putter_leaves-returns s.queue v.queue p sn held late i in
    subst (λ (x : ℤ × Queue). IsTraced (record s { queue = x.1 }))
      (agree _ (failed, q') (ret, q) run' run)
      (record {
        queue = w;
        ledger = kept-IsBalanced s q' chain (same_messages s.queue q' messages same) v.ledger;
        asked = λ x. messages x ∙ v.asked x;
      })

pub Reaches-IsTraced : (s t : Traced) → IsTraced s → Reaches s t → IsTraced t
Reaches-IsTraced s _ v start = v
Reaches-IsTraced s u v (next {t} r step) = Step-IsTraced t u (Reaches-IsTraced s t v r) step

-- A new queue, and no call that has returned.
abbrev pub created : ℕ → ℕ → (ℕ → Putter) → Traced
created l p at = record {
  queue = record {
    limit = suc l;
    chain = fresh (suc l) (suc p);
    getters = Getters.create;
    putters = Putters.create (suc p) at;
    signalled_getters = [];
    signalled_putters = [];
  };
  put = [];
  got = [];
  asked = λ x. (at x).message;
}

pub create-eq-created :
    (l p : ℕ) (at : ℕ → Putter) → create (suc l) (suc p) at ≡ some (created l p at).queue
unfolding create MsgChain.create
create-eq-created l p at = rw (eqb_false (suc l) 0 (omega arith))

pub created-IsTraced : (l p : ℕ) (at : ℕ → Putter) → IsTraced (created l p at)
unfolding Getters.create Putters.create
created-IsTraced l p at = record {
  queue = record {
    chain = fresh-IsChain (suc l) p;
    limit = refl;
    levels = refl;
    getters = record { distinct = tt; waiting = tt; once = tt; pending = tt; apart = tt };
    putters = record {
      counted = sym (sum-eq-zero (suc p) _ (λ k lt. refl));
      inside = λ k h. refl;
      distinct = λ k. tt;
      waiting = λ k. tt;
      once = tt;
      pending = tt;
      apart = λ k. tt;
    };
    set_aside = omega arith;
  };
  ledger = λ f. omega (arith, sum-eq-zero (suc p) (λ k. 0) (λ k lt. refl));
  asked = λ x. refl;
}

-- Any steps of threads that put, get and wait, from a new queue on, lead to a state that satisfies
-- the invariant of the queue: the message chain is well formed and within the limit, a getter whose
-- wait has not timed out is listed only while there is no message and a putter only while there is
-- no room, every getter and putter listed or signalled is still allocated, and a message is set
-- aside for each getter signalled. The messages stored together with those returned are, each as
-- often, those put together with those of the putters signalled that have not gone on: the two have
-- the same weight for every weight of a message. The object of a putter has the message that the
-- last put to wait there was called with. A message put has a priority of the queue, the address of
-- a new getter or putter is not in use, a wait ends by a signal or by its timeout and not by
-- another error or without a signal, a putter's wait does not time out once it is signalled, and a
-- put by force happens while no getter is listed and the limit is above 0.
pub run-IsTraced :
    (l p : ℕ) (at : ℕ → Putter) (t : Traced) → Reaches (created l p at) t → IsTraced t
run-IsTraced l p at t r = Reaches-IsTraced (created l p at) t (created-IsTraced l p at) r
