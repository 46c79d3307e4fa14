-- ===== src/Queue/Inv.antt =====
-- The invariant of the queue.
use queue_c.Base.{ℕ, ◌+◌, ◌≡◌, ◌≤◌, List, [], length}
use queue_c.Getters.{GettersList}
use queue_c.Getters.Inv.{IsGetters}
use queue_c.Message.{Message}
use queue_c.MsgChain.{MsgChain}
use queue_c.MsgChain.Inv.{IsChain}
use queue_c.Putters.Inv.{IsPutters}
use queue_c.Queue.{Queue}

-- `E` holds if a getter in time waits, and `F` if a putter in time does. For each getter that has
-- been signalled and has not run, a message is set aside.
pub record IsSound (E F : Type 0) (q : Queue) : Type 0 where
  pub chain : IsChain q.chain
  pub limit : q.chain.count_limit ≡ q.limit
  pub levels : q.putters.bucket_count ≡ q.chain.bucket_count
  pub getters : IsGetters E q.getters q.signalled_getters
  pub putters : IsPutters F q.putters q.signalled_putters
  pub set_aside : length q.signalled_getters ≤ length q.chain.temp

-- A getter in time waits only while there is no message, and a putter in time only while there is
-- no room.
abbrev pub IsQueue : Queue → Type 0
IsQueue q = IsSound (q.chain.msg_count ≡ 0) (q.chain.msg_count ≡ q.limit) q

-- The messages that the queue has taken and not given.
abbrev pub stored : Queue → ℕ
stored q = q.chain.msg_count + length q.chain.temp

-- What is set aside is no part of the chain's invariant.
pub IsChain-temp : (c : MsgChain) (t : List Message) → IsChain c → IsChain (record c { temp = t })
IsChain-temp c t v = record {
  cursor_in = v.cursor_in;
  counted = v.counted;
  limited = v.limited;
  above = v.above;
  turns = v.turns;
  placed = v.placed;
}

-- On an empty list nothing waits.
pub IsGetters-none :
    (E F : Type 0) (l : GettersList) (s : List ℕ)
    → l.waiting ≡ []
    → IsGetters E l s
    → IsGetters F l s
IsGetters-none E F l s e v = record {
  distinct = v.distinct;
  waiting = rw e tt;
  once = v.once;
  pending = v.pending;
  apart = v.apart;
}
