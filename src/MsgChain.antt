-- ===== src/MsgChain.antt =====
-- src/qc_mq/qc_msgchain.c: the messages of a queue, in a bucket for each priority. A bucket is
-- served in turn with the others, the bucket of priority p up to p times in a round.
pub mod Inv
pub mod Locate
pub mod Pop
pub mod Turns
pub mod Stuck
pub mod Force
mod Tests
use queue_c.Base.{
  ℕ, zero, suc, ◌+◌, ◌-◌, ◌==◌, Bool, true, false, ◌&&◌, not, Option, none, some, List, [], ◌∷◌,
  ◌++◌, if◌then◌else◌, ltb, leb, ◌>>=◌, ◌>>◌, assert, ℤ, pos, negsuc, ◌-ℤ◌, failed, length,
}
use queue_c.Message.{Message}

-- The list of a bucket stands for its `QcList`, oldest first.
pub record Bucket : Type 0 where
  pub msgs : List Message
  pub pop_counter : ℕ

pub record MsgChain : Type 0 where
  pub count_limit : ℕ
  pub msg_count : ℕ
  pub bucket_count : ℕ
  pub buckets : ℕ → Bucket
  pub cursor : ℕ
  pub temp : List Message

abbrev pub update : (ℕ → Bucket) → ℕ → Bucket → ℕ → Bucket
update b i v k = if k == i then v else b k

-- A chain with no message.
abbrev pub fresh : ℕ → ℕ → MsgChain
fresh limit levels = record {
  count_limit = limit;
  msg_count = 0;
  bucket_count = levels;
  buckets = λ _. record { msgs = []; pop_counter = 0 };
  cursor = 0;
  temp = [];
}

-- Allocation does not fail here: `qc_malloc` stops the program. `none` is a NULL.
unfoldable pub create : ℤ → ℤ → Option MsgChain
create (pos (suc l)) (pos (suc p)) = some (fresh (suc l) (suc p))
create _ _ = none

-- `qc_list_pophead`, with `none` for the NULL of an empty list.
abbrev pub pophead : List Message → Option Message × List Message
pophead [] = (none, [])
pophead (m ∷ ms) = (some m, ms)

-- The bucket of a message: `qc_message_priority(message) - 1`, where the assertion wants a number
-- below `bucket_count`.
abbrev pub bucket_sn : MsgChain → Message → Option ℕ
bucket_sn c m = elim (m.priority -ℤ pos 1) [
  | pos sn ↦ assert (leb sn (c.bucket_count - 1)) >> some sn
  | negsuc n ↦ none
]

unfoldable pub pushmsg : MsgChain → Message → Option (ℤ × MsgChain)
pushmsg c m = do
  assert (ltb c.msg_count c.count_limit)
  sn ← bucket_sn c m
  let b = c.buckets sn
  some (
    pos 0,
    record c {
      buckets = update c.buckets sn (record b { msgs = b.msgs ++ (m ∷ []) });
      msg_count = c.msg_count + 1;
      cursor = if ltb c.cursor sn then sn else c.cursor;
    },
  )

-- The loop that finds the highest bucket with a message, from the cursor down.
unfoldable pub locate : (ℕ → Bucket) → ℕ → Option ℕ
locate b zero = if ltb 0 (length (b zero).msgs) then some zero else none
locate b (suc n) = if ltb 0 (length (b (suc n)).msgs) then some (suc n) else locate b n

abbrev pub Popped : Type 0
Popped = Option Message × MsgChain

-- Take the oldest message of bucket `sn`, whose counter becomes `counter`.
abbrev pub take_from : MsgChain → ℕ → ℕ → Popped
take_from c sn counter =
    let (m, rest) = pophead (c.buckets sn).msgs in
    (
      m,
      record c {
        buckets = update c.buckets sn (record { msgs = rest; pop_counter = counter });
        msg_count = c.msg_count - 1;
      },
    )

abbrev pub reset : MsgChain → ℕ → MsgChain
reset c sn = record c {
  buckets = update c.buckets sn (record { msgs = (c.buckets sn).msgs; pop_counter = 0 });
}

-- `try_loop` at bucket `sn`: `skip` goes on below a bucket that is empty, and `used_up` below one
-- that has had its turns, whose counter is reset.
abbrev pub visit : MsgChain → ℕ → (skip used_up : MsgChain → Option Popped) → Option Popped
visit c sn skip used_up =
    let b = c.buckets sn in
    if ltb b.pop_counter (suc sn)
    then if ltb 0 (length b.msgs) then some (take_from c sn (suc b.pop_counter)) else skip c
    else if length b.msgs == c.msg_count
    then some (take_from c sn b.pop_counter)
    else used_up (reset c sn)

-- `try_loop` from bucket `sn` down. Below bucket 0 an empty bucket fails the assertion, and a used
-- up one makes the loop start `again` at the last bucket.
unfoldable pub pass : (again : MsgChain → Option Popped) → MsgChain → ℕ → Option Popped
pass again c zero = visit c zero (λ _. none) again
pass again c (suc n) = let below = λ (d : MsgChain). pass again d n in visit c (suc n) below below

-- The second time round, `cycle` is 1, and there is no third.
unfoldable pub second_pass : MsgChain → Option Popped
second_pass c = pass (λ _. none) c (c.bucket_count - 1)

unfoldable pub popmsg : MsgChain → Option Popped
popmsg c = do
  assert (ltb 0 c.msg_count)
  sn ← locate c.buckets c.cursor
  pass second_pass (record c { cursor = sn }) sn

-- The loop of `qc_msgchain_forcepush` over the buckets from `sn` on, `rounds` of them. The result
-- has the message that had to go, or none.
unfoldable pub evict : ℕ → MsgChain → ℕ → Message → Option (ℤ × Option Message × MsgChain)
evict zero c sn m = some (failed, none, c)
evict (suc rounds) c sn m =
    if ltb 0 (length (c.buckets sn).msgs)
    then (do
      let b = c.buckets sn
      let (old, d) = take_from c sn b.pop_counter
      (ret, e) ← pushmsg d m
      some (ret, old, e))
    else evict rounds c (suc sn) m

unfoldable pub forcepush : MsgChain → Message → Option (ℤ × Option Message × MsgChain)
forcepush c m =
    if ltb c.msg_count c.count_limit
    then (do (ret, d) ← pushmsg c m; some (ret, none, d))
    else evict c.bucket_count c 0 m

unfoldable pub puttemp : MsgChain → Message → MsgChain
puttemp c m = record c { temp = c.temp ++ (m ∷ []) }

unfoldable pub gettemp : MsgChain → Popped
gettemp c = let (m, rest) = pophead c.temp in (m, record c { temp = rest })
