-- ===== src/Putters.antt =====
-- src/qc_mq/qc_putters.c: the threads that wait for room, in a bucket for each priority. The
-- buckets are served in turn like those of the message chain.

pub mod Inv
pub mod Join
pub mod Pop
pub mod Release
pub mod Returns
use queue_c.Base.{
  ℕ, zero, suc, ◌+◌, ◌-◌, Bool, true, false, Option, none, some, List, [], ◌∷◌, ◌++◌, if◌then◌else◌,
  ◌==◌, ◌>>=◌, ◌>>◌, assert, ltb, ℤ, pos, negsuc, ◌-ℤ◌, failed, length,
}
use queue_c.DynList.{set}
use queue_c.Getters.{erase}
use queue_c.Message.{Message}

-- `entry` tells whether `_entry` is not NULL. An object whose count is 0 has been freed.
pub record Putter : Type 0 where
  pub message : Message
  pub priority : ℤ
  pub is_timedout : Bool
  pub entry : Bool
  pub ref_count : ℕ

-- The list of a bucket stands for its `QcList` and holds addresses.
pub record PutBucket : Type 0 where
  pub putters : List ℕ
  pub pop_counter : ℕ

pub record PuttersChain : Type 0 where
  pub bucket_count : ℕ
  pub buckets : ℕ → PutBucket
  pub cursor : ℕ
  pub putter_count : ℕ
  pub at : ℕ → Putter

unfoldable pub create : ℕ → (ℕ → Putter) → PuttersChain
create levels at = record {
  bucket_count = levels;
  buckets = λ _. record { putters = []; pop_counter = 0 };
  cursor = 0;
  putter_count = 0;
  at = at;
}

-- A member that is read or written after the object has been freed is a fault, `none`.
abbrev pub access : PuttersChain → ℕ → Option Putter
access c p = assert (ltb 0 (c.at p).ref_count) >> some (c.at p)

-- `qc_putter_create`, at the address `p` that the allocator gives, and the two members that
-- `qc_queue_msgput` writes.
unfoldable pub putter_create : PuttersChain → ℕ → Message → PuttersChain
putter_create c p m = record c {
  at = set c.at p (record {
    message = m;
    priority = m.priority;
    is_timedout = false;
    entry = false;
    ref_count = 1;
  });
}

unfoldable pub putter_destroy : PuttersChain → ℕ → Option PuttersChain
putter_destroy c p = do
  o ← access c p
  some (record c { at = set c.at p (record o { ref_count = o.ref_count - 1 }) })

-- The bucket of a putter: `putter->priority - 1`. An index outside the array is a fault.
abbrev pub bucket_sn : PuttersChain → Putter → Option ℕ
bucket_sn c o = elim (o.priority -ℤ pos 1) [
  | pos sn ↦ assert (ltb sn c.bucket_count) >> some sn
  | negsuc n ↦ none
]

unfoldable pub push : PuttersChain → ℕ → Option PuttersChain
push c p = do
  o ← access c p
  sn ← bucket_sn c o
  let b = c.buckets sn
  some (record c {
    buckets = set c.buckets sn (record b { putters = b.putters ++ (p ∷ []) });
    at = set c.at p (record o { entry = true });
    putter_count = c.putter_count + 1;
    cursor = if ltb c.cursor sn then sn else c.cursor;
  })

-- The loop that finds the highest bucket with a putter, from the cursor down.
unfoldable pub locate : (ℕ → PutBucket) → ℕ → Option ℕ
locate b zero = if ltb 0 (length (b zero).putters) then some zero else none
locate b (suc n) = if ltb 0 (length (b (suc n)).putters) then some (suc n) else locate b n

abbrev pub Popped : Type 0
Popped = Option ℕ × PuttersChain

-- Take the putter that has waited longest in bucket `sn`, whose counter becomes `counter`.
abbrev pub take_from : PuttersChain → ℕ → ℕ → Option Popped
take_from c sn counter = elim (c.buckets sn).putters [
  | [] ↦ none
  | p ∷ rest ↦ (do
    o ← access c p
    some (
      some p,
      record c {
        buckets = set c.buckets sn (record { putters = rest; pop_counter = counter });
        putter_count = c.putter_count - 1;
        at = set c.at p (record o { entry = false; ref_count = o.ref_count + 1 });
      },
    ))
]

abbrev pub reset : PuttersChain → ℕ → PuttersChain
reset c sn = record c {
  buckets = set c.buckets sn (record { putters = (c.buckets sn).putters; pop_counter = 0 });
}

-- `try_loop` at bucket `sn`: `skip` goes on below a bucket that is empty, and `used_up` below one
-- that has had its turns, whose counter is reset.
abbrev pub visit : PuttersChain → ℕ → (skip used_up : PuttersChain → Option Popped) → Option Popped
visit c sn skip used_up =
    let b = c.buckets sn in
    if ltb b.pop_counter (suc sn)
    then if ltb 0 (length b.putters) then take_from c sn (suc b.pop_counter) else skip c
    else if length b.putters == c.putter_count
    then take_from c sn b.pop_counter
    else used_up (reset c sn)

-- `try_loop` from bucket `sn` down. Below bucket 0 an empty bucket fails the assertion, and a used
-- up one makes the loop start `again` at the last bucket.
unfoldable pub pass : (again : PuttersChain → Option Popped) → PuttersChain → ℕ → Option Popped
pass again c zero = visit c zero (λ _. none) again
pass again c (suc n) =
    let below = λ (d : PuttersChain). pass again d n in visit c (suc n) below below

-- The second time round, `cycle` is 1, and there is no third.
unfoldable pub second_pass : PuttersChain → Option Popped
second_pass c = pass (λ _. none) c (c.bucket_count - 1)

-- The putter, or NULL if none waits.
unfoldable pub pop : PuttersChain → Option Popped
pop c =
    if c.putter_count == 0
    then some (none, c)
    else (do sn ← locate c.buckets c.cursor; pass second_pass (record c { cursor = sn }) sn)

-- Nothing is done if the putter has been popped.
unfoldable pub remove : PuttersChain → ℕ → Option (ℤ × PuttersChain)
remove c p = do
  o ← access c p
  (if o.entry
      then (do
        sn ← bucket_sn c o
        let b = c.buckets sn
        some (
          pos 0,
          record c {
            buckets = set c.buckets sn (record b { putters = erase p b.putters });
            putter_count = c.putter_count - 1;
          },
        ))
      else some (failed, c))

-- `is_timedout = 1`.
unfoldable pub expire : PuttersChain → ℕ → Option PuttersChain
expire c p = do
  o ← access c p
  some (record c { at = set c.at p (record o { is_timedout = true }) })
