-- ===== src/QSystem/Messages.antt =====
-- Messages through the system.
use queue_c.Base.{ℕ, suc, ◌≡◌, ◌≢◌, ◌<◌, ◌∙◌, none, some, List, ℤ, pos}
use queue_c.DynList.{set}
use queue_c.Getters.Held.{set_self, set_other}
use queue_c.HashKey.Strings.{strcompare_self}
use queue_c.Message.{Message}
use queue_c.Queue.{Outcome, returns, msgput}
use queue_c.Queue.Inv.{IsQueue}
use queue_c.Queue.Put.{Taken, msgput-returns}
use queue_c.QSystem.{getqueue, QSystem, qsys_addqueue, qsys_putmsg, qsys_getmsg, queue_notexist}
use queue_c.QSystem.Names.{IsManager, addqueue-getqueue}

-- Under a name that has no queue, a put returns QC_ERR_QUEUE_NOTEXIST and a get NULL, and nothing
-- changes.
pub messages-missing :
    (s : QSystem) (name : List ℕ) (m : Message) (p g : ℕ)
    → getqueue s.manager name ≡ some none
    → (qsys_putmsg s name m p ≡ some (returns queue_notexist, s))
      × (qsys_getmsg s name g ≡ some (returns none, s))
unfolding qsys_putmsg qsys_getmsg
messages-missing s name m p g missing = (rw missing, rw missing)

-- After a queue that satisfies its invariant is added under a name, which returns 0, a put under
-- the name of a message whose priority is one of the queue's does what `msgput` of that message
-- into that queue does, with its result: the message is stored there, or the thread waits with it;
-- the invariant of the queue is kept, and every other queue stays as it is. The address of a new
-- putter is not in use.
pub addqueue-putmsg :
    (s : QSystem) (name : List ℕ) (a : ℕ) (m : Message) (p sn : ℕ)
    → IsManager s.manager
    → IsQueue (s.queues a)
    → m.priority ≡ pos (suc sn)
    → sn < (s.queues a).chain.bucket_count
    → ((s.queues a).putters.at p).ref_count ≡ 0
    → (s1 s2 : QSystem) × (r : Outcome ℤ) × (qsys_addqueue s name a ≡ some (pos 0, s1))
      × (qsys_putmsg s1 name m p ≡ some (r, s2))
      × (msgput (s.queues a) m p ≡ some (r, s2.queues a))
      × IsQueue (s2.queues a)
      × Taken (s.queues a) m p r (s2.queues a)
      × ((b : ℕ) → b ≢ a → s2.queues b ≡ s.queues b)
unfolding qsys_addqueue qsys_putmsg
addqueue-putmsg s name a m p sn v w e lt free =
    let (m1, added, v1, finds) = addqueue-getqueue s.manager v name a in
    let there : getqueue m1 name ≡ some (some a) = finds name ∙ rw (strcompare_self name) in
    let (r, q, put, w', taken) = msgput-returns (s.queues a) m p sn w e lt free in
    let here = set_self s.queues a q in
    (
      record s { manager = m1 },
      record s { manager = m1; queues = set s.queues a q },
      r,
      rw added,
      rw (there, put),
      rw here put,
      rw here w',
      rw here taken,
      λ b ne. set_other s.queues a q b ne,
    )
