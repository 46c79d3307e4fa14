-- ===== src/Queue/Traces.antt =====
-- The steps of threads that put, get and wait on a queue, with what they have put and got.
use queue_c.Base.{
  ℕ, suc, ◌+◌, ◌≡◌, ◌<◌, ◌⊎◌, true, false, Option, none, some, List, [], ◌∷◌, IsIn, ℤ, pos,
}
use queue_c.Queue.Weights.{weight, held, owed}
use queue_c.DynList.{set}
use queue_c.Message.{Message}
use queue_c.Queue.{
  Queue, Outcome, returns, waits, msgput, msgget, forceput, getter_woken, getter_expires,
  getter_leaves, putter_woken, putter_expires, putter_leaves,
}
use queue_c.Queue.Inv.{IsQueue}

-- The queue, the messages of the puts that have returned 0, the messages that have been returned,
-- and for each address the message of the last put that has waited as the putter there.
pub record Traced : Type 0 where
  pub queue : Queue
  pub put : List Message
  pub got : List Message
  pub asked : ℕ → Message

abbrev pub with_message : Option Message → List Message → List Message
with_message none ms = ms
with_message (some m) ms = m ∷ ms

abbrev pub done_put : Message → Outcome ℤ → List Message → List Message
done_put m (returns r) ms = m ∷ ms
done_put m (waits a) ms = ms

abbrev pub done_ask : ℕ → Message → Outcome ℤ → (ℕ → Message) → ℕ → Message
done_ask p m (returns r) asked = asked
done_ask p m (waits a) asked = set asked p m

abbrev pub done_get : Outcome (Option Message) → List Message → List Message
done_get (returns m) ms = with_message m ms
done_get (waits a) ms = ms

-- The priority of a message put is one of the queue's, and the address of a new getter or putter
-- is one that is not in use. A wait ends by a signal or by its timeout, and a putter's wait does
-- not time out once it has been signalled. A wait that ends otherwise, by an error of the timed
-- wait or without a signal, is no step. A put by force happens while no getter waits.
pub data Step : Traced → Traced → Type 0 where
  puts :
      {s : Traced} (m : Message) (p sn : ℕ) (r : Outcome ℤ) (q : Queue)
      → m.priority ≡ pos (suc sn)
      → sn < s.queue.chain.bucket_count
      → (s.queue.putters.at p).ref_count ≡ 0
      → msgput s.queue m p ≡ some (r, q)
      → Step s (record s { queue = q; put = done_put m r s.put; asked = done_ask p m r s.asked })
  gets :
      {s : Traced} (g : ℕ) (r : Outcome (Option Message)) (q : Queue)
      → (s.queue.getters.at g).ref_count ≡ 0
      → msgget s.queue g ≡ some (r, q)
      → Step s (record s { queue = q; got = done_get r s.got })
  forces :
      {s : Traced} (m : Message) (sn : ℕ) (ret : ℤ) (old : Option Message) (q : Queue)
      → m.priority ≡ pos (suc sn)
      → sn < s.queue.chain.bucket_count
      → s.queue.getters.waiting ≡ []
      → 0 < s.queue.limit
      → forceput s.queue m ≡ some (ret, old, q)
      → Step s (record s { queue = q; put = m ∷ s.put; got = with_message old s.got })
  getter_wakes :
      {s : Traced} (g : ℕ) (m : Option Message) (q : Queue)
      → IsIn g s.queue.signalled_getters
      → getter_woken s.queue g ≡ some (m, q)
      → Step s (record s { queue = q; got = with_message m s.got })
  getter_times_out :
      {s : Traced} (g : ℕ) (q : Queue)
      → IsIn g s.queue.getters.waiting ⊎ IsIn g s.queue.signalled_getters
      → getter_expires s.queue g ≡ some q
      → Step s (record s { queue = q })
  getter_goes :
      {s : Traced} (g : ℕ) (m : Option Message) (q : Queue)
      → 0 < (s.queue.getters.at g).ref_count
      → (s.queue.getters.at g).is_timedout ≡ true
      → getter_leaves s.queue g ≡ some (m, q)
      → Step s (record s { queue = q })
  putter_wakes :
      {s : Traced} (p : ℕ) (ret : ℤ) (q : Queue)
      → IsIn p s.queue.signalled_putters
      → putter_woken s.queue p ≡ some (ret, q)
      → Step s (record s { queue = q; put = s.asked p ∷ s.put })
  putter_times_out :
      {s : Traced} (p sn : ℕ) (q : Queue)
      → IsIn p (s.queue.putters.buckets sn).putters
      → putter_expires s.queue p ≡ some q
      → Step s (record s { queue = q })
  putter_goes :
      {s : Traced} (p sn : ℕ) (ret : ℤ) (q : Queue)
      → 0 < (s.queue.putters.at p).ref_count
      → (s.queue.putters.at p).is_timedout ≡ true
      → IsIn p (s.queue.putters.buckets sn).putters ⊎ ((s.queue.putters.at p).entry ≡ false)
      → putter_leaves s.queue p ≡ some (ret, q)
      → Step s (record s { queue = q })

pub data Reaches (s : Traced) : Traced → Type 0 where
  start : Reaches s s
  next : {t u : Traced} → Reaches s t → Step t u → Reaches s u

-- Whatever the messages weigh: those stored and those returned weigh what those put do, with those
-- of the putters that have been signalled and have not run. So each message is there as often.
abbrev pub IsBalanced : Traced → Type 0
IsBalanced s =
    (f : Message → ℕ)
    → held f s.queue + weight f s.got
      ≡ weight f s.put + owed f s.queue.putters s.queue.signalled_putters

-- The object of a putter has the message that was put.
abbrev pub IsAsked : Queue → (ℕ → Message) → Type 0
IsAsked q asked = (x : ℕ) → (q.putters.at x).message ≡ asked x

pub record IsTraced (s : Traced) : Type 0 where
  pub queue : IsQueue s.queue
  pub ledger : IsBalanced s
  pub asked : IsAsked s.queue s.asked
