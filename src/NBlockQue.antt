-- ===== src/NBlockQue.antt =====
-- src/qc_rt/qc_utils.c, "No-Block Queue": a queue of pointers kept in a buffer of slots, whose
-- numbers go round between a list of free slots and a list of used ones. With its mutex each call
-- is one step; without it the caller sees to that.
pub mod Refine
mod Tests
use queue_c.Base.{
  ℕ, Bool, true, false, Option, none, some, List, [], ◌∷◌, if◌then◌else◌, ◌==◌, ◌>>=◌, ◌>>◌, assert,
  ℤ, pos, negsuc, ltb_ℤ, eqb_ℤ, is_negative, failed, not,
}
use queue_c.StaticList.{StaticList, is_invalid, invalid}
use queue_c.StaticList
use queue_c.Fifo.{Op, Reply, stored, full, got, empty}
use queue_c.Fifo

-- QC_FULLED, -100.
abbrev pub fulled : ℤ
fulled = negsuc 99

pub record NBlockQue : Type 0 where
  pub lst_free : StaticList
  pub lst_used : StaticList
  pub buff : ℕ → ℕ
  pub limit : ℤ

-- What the allocator gives: memory for the queue, for its two lists, for its slots, and the mutex.
pub record Memory : Type 0 where
  pub queue : Bool
  pub used : Bool
  pub free : Bool
  pub slots : Bool
  pub mutex : Bool

-- `none` outside the first option is a stop, by the assertion or by a fault; inside, it is the NULL
-- of a failed creation.
unfoldable pub create : ℤ → (with_rwlock : Bool) → Memory → Option (Option NBlockQue)
create limit with_rwlock m =
    assert (ltb_ℤ (pos 0) limit)
    >> (if not m.queue
        then some none
        else (let (r, used) = StaticList.init StaticList.zeroed limit m.used in
            if not (eqb_ℤ r (pos 0))
            then some none
            else (let (r', free) = StaticList.init StaticList.zeroed limit m.free in
                if not (eqb_ℤ r' (pos 0)) then some none else do
                  cleared ← StaticList.clear used
                  if not m.slots
                      then some none
                      else if (if with_rwlock then not m.mutex else false)
                      then some none
                      else some (
                          some (record {
                            lst_free = free;
                            lst_used = cleared;
                            buff = λ _. 0;
                            limit = limit;
                          })))))

-- `pp_data[index] = ptr`, and the read of `pp_data[index]`.
abbrev pub write_slot : (ℕ → ℕ) → ℤ → ℕ → ℕ → ℕ
write_slot b (pos i) ptr j = if j == i then ptr else b j
write_slot b (negsuc i) ptr j = b j

abbrev pub read_slot : (ℕ → ℕ) → ℤ → ℕ
read_slot b (pos i) = b i
read_slot b (negsuc i) = 0

unfoldable pub put : NBlockQue → ℕ → Option (ℤ × NBlockQue)
put q ptr = do
  (index, free) ← StaticList.get_head q.lst_free
  let q1 = record q { lst_free = free }
  if is_invalid index
      then some (fulled, q1)
      else if is_negative index
      then some (failed, q1)
      else do
        let q2 = record q1 { buff = write_slot q1.buff index ptr }
        (back, used) ← StaticList.add_tail q2.lst_used index
        let q3 = record q2 { lst_used = used }
        some (if is_negative back then failed else back, q3)

-- The result, what is written to `*pptr` (`none` if nothing is), and the queue.
unfoldable pub get : NBlockQue → Option (ℤ × Option ℕ × NBlockQue)
get q = if eqb_ℤ (StaticList.count q.lst_used) (pos 0) then some (invalid, none, q) else do
  (index, used) ← StaticList.get_head q.lst_used
  let q1 = record q { lst_used = used }
  if is_negative index then some (failed, none, q1) else do
    let item = read_slot q1.buff index
    (back, free) ← StaticList.add_tail q1.lst_free index
    let q2 = record q1 { lst_free = free }
    some (if is_negative back then (failed, none, q2) else (back, some item, q2))

-- A client's view of the results.
abbrev pub put_reply : ℤ → Reply
put_reply (pos i) = stored
put_reply (negsuc i) = full

abbrev pub get_reply : Option ℕ → Reply
get_reply none = empty
get_reply (some x) = got x

unfoldable pub step : NBlockQue → Op → Option (Reply × NBlockQue)
step q (Op.put x) = do (r, q') ← put q x; some (put_reply r, q')
step q Op.get = do (_, out, q') ← get q; some (get_reply out, q')

unfoldable pub run : NBlockQue → List Op → Option (List Reply)
run q [] = some []
run q (o ∷ ops) = do (r, q') ← step q o; rs ← run q' ops; some (r ∷ rs)
