-- ===== src/Queue/Late.antt =====
-- A wait that times out after it has been signalled, before its thread has the condition's lock.
use queue_c.Base.{
  agree, ℕ, ◌+◌, ◌≡◌, ◌≤◌, ap, subst, ◌∙◌, inl, inr, List, ◌∷◌, List-cases, true, none, some, arith,
  length, lt→ltb, All-at, IsIn, failed,
}
use queue_c.DynList.{set}
use queue_c.Getters.{Getter, erase}
use queue_c.Getters
use queue_c.Getters.Held.{set_self, length-erase}
use queue_c.Getters.Inv as GettersInv
use queue_c.Putters.{Putter}
use queue_c.Putters
use queue_c.Putters.Inv as PuttersInv
use queue_c.Queue.{Queue, getter_expires, getter_leaves, putter_expires, putter_leaves}
use queue_c.Queue.Inv.{IsQueue}
use queue_c.Queue.Weights.{weight, chain_weight, held, owed-erase}
use queue_c.Queue.Traces.{Traced, Reaches}
use queue_c.Queue.Steps.{created, run-IsTraced}
use queue_c.Message.{Message}
use queue_c.Queue.Waits.{
  getter_expires-returns, getter_leaves-returns, putter_expires-returns, putter_leaves-returns,
}

abbrev late_getter : Queue → ℕ → Queue
late_getter q g = record q {
  getters = record (q.getters) {
    at = set q.getters.at g (record (q.getters.at g) { is_timedout = true });
  };
  signalled_getters = erase g q.signalled_getters;
}

abbrev late_putter : Queue → ℕ → Queue
late_putter q p = record q {
  putters = record (q.putters) {
    at = set q.putters.at p (record (q.putters.at p) { is_timedout = true });
  };
  signalled_putters = erase p q.signalled_putters;
}

late_getter_lem :
    (q : Queue) (g : ℕ)
    → (q.getters.at g).ref_count ≡ 1
    → getter_expires q g ≡ some (late_getter q g)
unfolding getter_expires Getters.expire
late_getter_lem q g h = rw (lt→ltb 0 (q.getters.at g).ref_count (omega arith))

late_putter_lem :
    (q : Queue) (p : ℕ)
    → (q.putters.at p).ref_count ≡ 1
    → putter_expires q p ≡ some (late_putter q p)
unfolding putter_expires Putters.expire
late_putter_lem q p h = rw (lt→ltb 0 (q.putters.at p).ref_count (omega arith))

-- On a queue that satisfies its invariant, the wait of a getter that has been signalled may still
-- time out: then its thread returns NULL, although there is a message set aside. The messages
-- stored and set aside stay as they are, so that more messages are set aside than threads are
-- signalled to take them; the invariant is kept.
pub getter_late :
    (q : Queue) (g : ℕ)
    → IsQueue q
    → IsIn g q.signalled_getters
    → (m : Message) × (ms : List Message) × (q1 q2 : Queue) × (q.chain.temp ≡ m ∷ ms)
      × (getter_expires q g ≡ some q1)
      × (getter_leaves q1 g ≡ some (none, q2))
      × IsQueue q2
      × (q2.chain ≡ q.chain)
      × (length q2.signalled_getters + 1 ≤ length q2.chain.temp)
getter_late q g v i = elim (List-cases q.chain.temp) [
  | inl e ↦ absurd (omega (arith, v.set_aside, ap length e, length-erase g q.signalled_getters i))
  | inr (m, ms, front) ↦
      let w =
        All-at (λ x. GettersInv.IsPending (q.getters.at x)) q.signalled_getters g v.getters.pending
          i in
      let object = set_self q.getters.at g (record (q.getters.at g) { is_timedout = true }) in
      let (q', run, u, kept, same, untouched, unchanged) = getter_expires-returns q v g (inr i) in
      let e : getter_expires q g ≡ some (late_getter q g) = late_getter_lem q g w.sole in
      let (q2, go, u2, kept2, same2, chain, putters, still) =
        getter_leaves-returns (late_getter q g) (subst IsQueue (agree _ q' _ run e) u) g
          (omega (arith, w.sole, ap (λ (o : Getter). o.ref_count) object))
          (ap (λ (o : Getter). o.is_timedout) object) in
      (
        m,
        ms,
        late_getter q g,
        q2,
        front,
        e,
        go,
        u2,
        chain,
        omega (
          arith,
          v.set_aside,
          length-erase g q.signalled_getters i,
          ap length still,
          ap (λ c. length c.temp) chain,
        ),
      )
]

-- In a state that any steps from a new queue on lead to, the wait of a putter that has been
-- signalled may still time out: then its thread returns -1 and the messages stored stay as they
-- are, although its message, beside all those put, is among those stored or returned: for every
-- weight of a message, these weigh as much at least. The invariant of the queue is kept.
pub putter_late :
    (l n : ℕ) (at : ℕ → Putter) (t : Traced) (p : ℕ)
    → Reaches (created l n at) t
    → IsIn p t.queue.signalled_putters
    → (q1 q2 : Queue) × (putter_expires t.queue p ≡ some q1)
      × (putter_leaves q1 p ≡ some (failed, q2))
      × IsQueue q2
      × (q2.chain ≡ t.queue.chain)
      × ((f : Message → ℕ) → weight f t.put + f (t.asked p) ≤ held f q2 + weight f t.got)
putter_late l n at t p r i =
    let traced = run-IsTraced l n at t r in
    let q : Queue = t.queue in
    let v : IsQueue q = traced.queue in
    let w =
      All-at (λ x. PuttersInv.IsPending (q.putters.at x)) q.signalled_putters p v.putters.pending
        i in
    let object = set_self q.putters.at p (record (q.putters.at p) { is_timedout = true }) in
    let (q', run, u, kept, same, untouched, unchanged) = putter_expires-returns q v p 0 (inr i) in
    let e : putter_expires q p ≡ some (late_putter q p) = late_putter_lem q p w.sole in
    let (q2, go, u2, kept2, same2, chain, messages) =
      putter_leaves-returns (late_putter q p) (subst IsQueue (agree _ q' _ run e) u) p 0
        (omega (arith, w.sole, ap (λ (o : Putter). o.ref_count) object))
        (ap (λ (o : Putter). o.is_timedout) object)
        (inr (ap (λ (o : Putter). o.entry) object ∙ w.unlisted)) in
    (
      late_putter q p,
      q2,
      e,
      go,
      u2,
      chain,
      λ f. omega (
        arith,
        traced.ledger f,
        ap f (traced.asked p),
        owed-erase f q.putters p q.signalled_putters i,
        ap (λ c. chain_weight f c + weight f c.temp) chain,
      ),
    )
