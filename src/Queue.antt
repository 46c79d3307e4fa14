-- ===== src/Queue.antt =====
-- src/qc_mq/qc_queue.c: the queue. A thread that finds no message waits as a getter, and one that
-- finds no room as a putter. What a thread does under the lock of the queue is one step, and so is
-- what it does when its wait ends. The rounds of `put_loop` are one step, although the code releases
-- the lock in each.
pub mod Inv
pub mod Weights
pub mod Put
pub mod Refill
pub mod Get
pub mod Waits
pub mod Force
pub mod Traces
pub mod Steps
pub mod Late
mod Tests
use queue_c.Base.{
  ℕ, zero, suc, Bool, true, false, Option, none, some, List, [], ◌∷◌, ◌++◌, if◌then◌else◌, ◌==◌,
  ◌>>=◌, ◌>>◌, assert, ℤ, pos, negsuc, failed,
}
use queue_c.Getters.{Getter, GettersList, erase}
use queue_c.Getters
use queue_c.Message.{Message}
use queue_c.MsgChain.{MsgChain, pushmsg, popmsg, forcepush, puttemp, gettemp}
use queue_c.MsgChain
use queue_c.Putters.{Putter, PuttersChain}
use queue_c.Putters

-- `signalled_getters` and `signalled_putters` are the waits whose condition has been signalled
-- and whose thread has not run since, in the order of the signals.
pub record Queue : Type 0 where
  pub limit : ℕ
  pub chain : MsgChain
  pub getters : GettersList
  pub putters : PuttersChain
  pub signalled_getters : List ℕ
  pub signalled_putters : List ℕ

-- `none` is a NULL. Locks and memory are always given.
unfoldable pub create : ℕ → ℕ → (ℕ → Putter) → Option Queue
create limit priority_max at = if limit == 0 then none else (do
  c ← MsgChain.create (pos limit) (pos priority_max)
  some (record {
    limit = limit;
    chain = c;
    getters = Getters.create;
    putters = Putters.create priority_max at;
    signalled_getters = [];
    signalled_putters = [];
  }))

unfoldable pub msgcount : Queue → ℕ
msgcount q = q.chain.msg_count

-- The getters popped by `put_loop`: the first that has not timed out, and the list after it. The
-- ones before it are released.
unfoldable pub pop_getter : List ℕ → GettersList → Option (Option ℕ × GettersList)
pop_getter [] l = some (none, l)
pop_getter (w ∷ ws) l = do
  (popped, l') ← Getters.pop l
  elim popped [
    | none ↦ some (none, l')
    | some g ↦ (do
      o ← Getters.access l' g
      (if o.is_timedout
          then (do l'' ← Getters.getter_destroy l' g; pop_getter ws l'')
          else some (some g, l')))
  ]

-- What a call gives before its thread goes on: it returns, or waits with the object at an address.
pub data Outcome (A : Type 0) : Type 0 where
  returns : A → Outcome A
  waits : ℕ → Outcome A

-- No getter is there. `p` is the address at which a putter is created if there is no room.
abbrev put_here : Queue → Message → (p : ℕ) → Option (Outcome ℤ × Queue)
put_here q m p =
    if q.chain.msg_count == q.limit
    then (do
      c ← Putters.push (Putters.putter_create q.putters p m) p
      some (waits p, record q { putters = c }))
    else (do (ret, c) ← pushmsg q.chain m; some (returns (pos 0), record q { chain = c }))

unfoldable pub msgput : Queue → Message → (p : ℕ) → Option (Outcome ℤ × Queue)
msgput q m p = do
  (getter, l) ← pop_getter q.getters.waiting q.getters
  elim getter [
    | none ↦ put_here (record q { getters = l }) m p
    | some g ↦ (do
      l' ← Getters.getter_destroy l g
      some (
        returns (pos 0),
        record q {
          getters = l';
          chain = puttemp q.chain m;
          signalled_getters = q.signalled_getters ++ (g ∷ []);
        },
      ))
  ]

-- `pop_loop`: the first putter popped that has not timed out, if there is one, has its message
-- pushed and is signalled. It runs at most once for each putter that waits, and once more.
unfoldable pub pop_putter : (rounds : ℕ) → Queue → Option Queue
pop_putter zero q = none
pop_putter (suc rounds) q = do
  (popped, c) ← Putters.pop q.putters
  elim popped [
    | none ↦ some (record q { putters = c })
    | some p ↦ (do
      o ← Putters.access c p
      (if o.is_timedout
          then (do c' ← Putters.putter_destroy c p; pop_putter rounds (record q { putters = c' }))
          else (do
            (ret, d) ← pushmsg q.chain o.message
            c' ← Putters.putter_destroy c p
            some (record q {
              chain = d;
              putters = c';
              signalled_putters = q.signalled_putters ++ (p ∷ []);
            }))))
  ]

-- `g` is the address at which a getter is created if there is no message.
unfoldable pub msgget : Queue → (g : ℕ) → Option (Outcome (Option Message) × Queue)
msgget q g =
    if q.chain.msg_count == 0
    then (do
      l ← Getters.push (Getters.getter_create q.getters g) g
      some (waits g, record q { getters = l }))
    else (do
      (m, c) ← popmsg q.chain
      q' ← pop_putter (suc q.putters.putter_count) (record q { chain = c })
      some (returns m, q'))

unfoldable pub forceput : Queue → Message → Option (ℤ × Option Message × Queue)
forceput q m = do (ret, old, c) ← forcepush q.chain m; some (ret, old, record q { chain = c })

-- A getter's wait has ended without a timeout. Its thread takes a message, which the assertion
-- wants, and returns it.
unfoldable pub getter_woken : Queue → (g : ℕ) → Option (Option Message × Queue)
getter_woken q g = do
  let (message, c) = gettemp q.chain
  m ← message
  l ← Getters.getter_destroy q.getters g
  some
      (some m, record q { chain = c; getters = l; signalled_getters = erase g q.signalled_getters })

-- A getter's wait has timed out, whether it has been signalled or not.
unfoldable pub getter_expires : Queue → (g : ℕ) → Option Queue
getter_expires q g = do
  l ← Getters.expire q.getters g
  some (record q { getters = l; signalled_getters = erase g q.signalled_getters })

-- Its thread goes on and returns NULL.
unfoldable pub getter_leaves : Queue → (g : ℕ) → Option (Option Message × Queue)
getter_leaves q g = do
  o ← Getters.access q.getters g
  assert o.is_timedout
  (ret, l) ← Getters.remove q.getters g
  l' ← Getters.getter_destroy l g
  some (none, record q { getters = l' })

-- A putter's wait has ended without a timeout. Its thread returns 0.
unfoldable pub putter_woken : Queue → (p : ℕ) → Option (ℤ × Queue)
putter_woken q p = do
  c ← Putters.putter_destroy q.putters p
  some (pos 0, record q { putters = c; signalled_putters = erase p q.signalled_putters })

-- A putter's wait has timed out, whether it has been signalled or not.
unfoldable pub putter_expires : Queue → (p : ℕ) → Option Queue
putter_expires q p = do
  c ← Putters.expire q.putters p
  some (record q { putters = c; signalled_putters = erase p q.signalled_putters })

-- Its thread goes on and returns -1.
unfoldable pub putter_leaves : Queue → (p : ℕ) → Option (ℤ × Queue)
putter_leaves q p = do
  o ← Putters.access q.putters p
  assert o.is_timedout
  (ret, c) ← Putters.remove q.putters p
  c' ← Putters.putter_destroy c p
  some (failed, record q { putters = c' })
