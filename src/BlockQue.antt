-- ===== src/BlockQue.antt =====
-- src/qc_rt/qc_utils.c, "Block Queue": an index queue whose `get` waits for a pointer. A thread
-- that calls `get` holds `threads_mutex` until it goes on, so at most one of them sleeps.
pub mod Slots
pub mod Wake
mod Tests
use queue_c.Base.{
  ℕ, Bool, true, false, Option, none, some, if◌then◌else◌, ◌>>=◌, ◌>>◌, assert, ℤ, pos, ltb_ℤ,
  eqb_ℤ, is_negative, failed, not, ◌≡◌,
}
use queue_c.StaticList.{StaticList, is_invalid}
use queue_c.StaticList
use queue_c.NBlockQue.{fulled, write_slot, read_slot}

pub record BlockQue : Type 0 where
  pub ptr_array : ℕ → ℕ
  pub limit : ℤ
  pub lst_free : StaticList
  pub lst_used : StaticList

-- What the allocator and the threads library give.
pub record Resources : Type 0 where
  pub queue : Bool
  pub used : Bool
  pub free : Bool
  pub slots : Bool
  pub cond_lock : Bool
  pub cond : Bool
  pub threads_mutex : Bool

-- `none` inside is the NULL of a failed creation.
unfoldable pub create : ℤ → Resources → Option (Option BlockQue)
create limit m =
    assert (ltb_ℤ (pos 0) limit)
    >> (if not m.queue
        then some none
        else (let (r, used) = StaticList.init StaticList.zeroed limit m.used in
            if not (eqb_ℤ r (pos 0)) then some none else do
              cleared ← StaticList.clear used
              let (r', free) = StaticList.init StaticList.zeroed limit m.free
              if not (eqb_ℤ r' (pos 0))
                  then some none
                  else if not m.slots
                  then some none
                  else if not m.cond_lock
                  then some none
                  else if not m.cond
                  then some none
                  else if not m.threads_mutex
                  then some none
                  else some (
                      some (record {
                        ptr_array = λ _. 0;
                        limit = limit;
                        lst_free = free;
                        lst_used = cleared;
                      }))))

-- The result, whether `cond` is signalled, and the queue.
unfoldable pub put : BlockQue → ℕ → Option (ℤ × Bool × BlockQue)
put q ptr = do
  (index, free) ← StaticList.get_head q.lst_free
  let q1 = record q { lst_free = free }
  if is_invalid index
      then some (fulled, false, q1)
      else if is_negative index
      then some (failed, false, q1)
      else do
        let q2 = record q1 { ptr_array = write_slot q1.ptr_array index ptr }
        (back, used) ← StaticList.add_tail q2.lst_used index
        let q3 = record q2 { lst_used = used }
        some (if is_negative back then (failed, false, q3) else (pos 0, true, q3))

-- `qc_blockque_get` from where it has a pointer to take, or has been woken; `none` is NULL.
unfoldable pub take : BlockQue → Option (Option ℕ × BlockQue)
take q = do
  (index, used) ← StaticList.get_head q.lst_used
  let q1 = record q { lst_used = used }
  if is_negative index then some (none, q1) else do
    let ptr = read_slot q1.ptr_array index
    (back, free) ← StaticList.add_tail q1.lst_free index
    let q2 = record q1 { lst_free = free }
    some (if is_negative back then none else some ptr, q2)

-- The thread that holds `threads_mutex`: none does, or it waits for `cond`, or `cond` has been
-- signalled for it.
pub data Getter : Type 0 where
  absent : Getter
  asleep : Getter
  woken : Getter

pub record System : Type 0 where
  pub que : BlockQue
  pub getter : Getter

-- The next thing that happens: a thread calls `put` or `get`, or the woken thread goes on.
pub data Event : Type 0 where
  calls_put : ℕ → Event
  calls_get : Event
  resumes : Event

-- The answer that the thread sees; `blocked` if the event cannot happen now.
pub data Answer : Type 0 where
  result : ℤ → Answer
  pointer : Option ℕ → Answer
  waits : Answer
  blocked : Answer

abbrev pub signal : Getter → Getter
signal absent = absent
signal asleep = woken
signal woken = woken

abbrev pub finish : BlockQue → Option (Answer × System)
finish q = do (p, q') ← take q; some (pointer p, record { que = q'; getter = absent })

unfoldable pub step : System → Event → Option (Answer × System)
step s (calls_put x) = do
  (r, signalled, q) ← put s.que x
  some (result r, record { que = q; getter = if signalled then signal s.getter else s.getter })
step s calls_get = elim s.getter [
  | absent ↦
      if eqb_ℤ (StaticList.count s.que.lst_used) (pos 0)
      then some (waits, record s { getter = asleep })
      else finish s.que
  | asleep ↦ some (blocked, s)
  | woken ↦ some (blocked, s)
]
step s resumes = elim s.getter [
  | absent ↦ some (blocked, s)
  | asleep ↦ some (blocked, s)
  | woken ↦ finish s.que
]

-- The systems that a system comes to, event by event.
pub data Reaches (s : System) : System → Type 0 where
  start : Reaches s s
  next :
      {t u : System} (e : Event) (a : Answer) → Reaches s t → step t e ≡ some (a, u) → Reaches s u
