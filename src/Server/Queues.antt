-- ===== src/Server/Queues.antt =====
-- The system of queues (src/qc_qsys/qc_qsystem.c) as the server's, where one thread runs at a time:
-- a wait is never signalled, and times out.
use queue_c.Base.{
  ℕ, suc, ◌+◌, ◌≡◌, ◌≢◌, ◌<◌, Option, none, some, List, ◌>>=◌, ◌>>◌, Bool, true, false, not, assert,
  negsuc, ℤ, pos, refl,
}
use queue_c.DynList.{set}
use queue_c.Getters.Held.{set_self}
use queue_c.Message.{Message}
use queue_c.Queue.{
  Queue, Outcome, returns, waits, msgput, getter_expires, getter_leaves, putter_expires,
  putter_leaves,
}
use queue_c.Queue.Weights.{held}
use queue_c.Queue.Inv.{IsQueue, stored}
use queue_c.Queue.Put.{Taken, msgput-returns}
use queue_c.QSystem.{QSystem, getqueue, qsys_putmsg, qsys_getmsg}
use queue_c.Server.{Service}
use queue_c.Thread.{timeout}

-- The next putter or getter is at `next`.
pub record Queues : Type 0 where
  pub system : QSystem
  pub next : ℕ

-- QC_ERR_RUNTIME, if there is no queue of that name.
abbrev find_error : Option ℕ → ℤ → ℤ
find_error none err = pos 20
find_error (some a) err = err

-- A wait without a limit would not end; `none` stands for it too.
abbrev is_unlimited : (wait_msec : ℤ) → Bool
is_unlimited (pos n) = false
is_unlimited (negsuc n) = true

abbrev put_waits : QSystem → Option ℕ → (wait_msec : ℤ) (p : ℕ) → Option (ℤ × QSystem)
put_waits s queue wait_msec p = do
  assert (not (is_unlimited wait_msec))
  a ← queue
  q ← putter_expires (s.queues a) p
  (ret, q') ← putter_leaves q p
  some (ret, record s { queues = set s.queues a q' })

abbrev get_waits : QSystem → Option ℕ → (wait_msec : ℤ) (g : ℕ) → Option (Option Message × QSystem)
get_waits s queue wait_msec g = do
  assert (not (is_unlimited wait_msec))
  a ← queue
  q ← getter_expires (s.queues a) g
  (ret, q') ← getter_leaves q g
  some (ret, record s { queues = set s.queues a q' })

unfoldable pub queues_put :
    Queues → List ℕ → Message → (wait_msec err : ℤ) → Option (ℤ × ℤ × Queues)
queues_put x qname m wait_msec err = do
  queue ← getqueue x.system.manager qname
  (outcome, s) ← qsys_putmsg x.system qname m x.next
  elim outcome [
    | returns ret ↦ some (ret, find_error queue err, record { system = s; next = suc x.next })
    | waits p ↦ (do
      (ret, s') ← put_waits s queue wait_msec p
      some (ret, timeout, record { system = s'; next = suc x.next }))
  ]

unfoldable pub queues_get :
    Queues → List ℕ → (wait_msec err : ℤ) → Option (Option Message × ℤ × Queues)
queues_get x qname wait_msec err = do
  queue ← getqueue x.system.manager qname
  (outcome, s) ← qsys_getmsg x.system qname x.next
  elim outcome [
    | returns m ↦ some (m, find_error queue err, record { system = s; next = suc x.next })
    | waits g ↦ (do
      (m, s') ← get_waits s queue wait_msec g
      some (m, timeout, record { system = s'; next = suc x.next }))
  ]

abbrev pub queues : Service Queues
queues = record { putmsg = queues_put; getmsg = queues_get }

-- A put under the name of a queue that has room returns 0 with a message more stored in it.
pub queues_put-stores :
    (x : Queues) (qname : List ℕ) (a : ℕ) (m : Message) (wait_msec err : ℤ) (sn : ℕ)
    → getqueue x.system.manager qname ≡ some (some a)
    → IsQueue (x.system.queues a)
    → (x.system.queues a).chain.msg_count ≢ (x.system.queues a).limit
    → m.priority ≡ pos (suc sn)
    → sn < (x.system.queues a).chain.bucket_count
    → ((x.system.queues a).putters.at x.next).ref_count ≡ 0
    → (x' : Queues) × (queues.putmsg x qname m wait_msec err ≡ some (pos 0, err, x'))
      × IsQueue (x'.system.queues a)
      × (stored (x'.system.queues a) ≡ stored (x.system.queues a) + 1)
      × ((f : Message → ℕ) → held f (x'.system.queues a) ≡ held f (x.system.queues a) + f m)
unfolding queues_put qsys_putmsg
queues_put-stores x qname a m wait_msec err sn there v room e lt free =
    let (r, q, put, w, taken) = msgput-returns (x.system.queues a) m x.next sn v e lt free in
    stores r q put w taken
  where
    stores :
        (r : Outcome ℤ) (q : Queue)
        → msgput (x.system.queues a) m x.next ≡ some (r, q)
        → IsQueue q
        → Taken (x.system.queues a) m x.next r q
        → (x' : Queues) × (queues.putmsg x qname m wait_msec err ≡ some (pos 0, err, x'))
          × IsQueue (x'.system.queues a)
          × (stored (x'.system.queues a) ≡ stored (x.system.queues a) + 1)
          × ((f : Message → ℕ) → held f (x'.system.queues a) ≡ held f (x.system.queues a) + f m)
    stores (returns ret) q put w taken =
        let here = set_self x.system.queues a q in
        (
          record {
            system = record x.system { queues = set x.system.queues a q };
            next = suc x.next;
          },
          rw (there, put, taken.0) refl,
          rw here w,
          rw here taken.1,
          rw here taken.4,
        )
    stores (waits p) q put w taken = absurd (room taken.1)
