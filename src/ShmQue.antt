-- ===== src/ShmQue.antt =====
-- src/qc_shq/qc_shq_que.c: a queue in shared memory. A message is written in its slot between the
-- begin and the end of a push, and read there between the begin and the end of a pull. What is
-- done under `sem_lst` is one step; `sem_que` counts the messages to pull.
pub mod Slots
pub mod Steps
mod Tests
use queue_c.Base.{
  ℕ, zero, suc, ◌+◌, ◌-◌, ◌*◌, Bool, true, false, not, Option, none, some, if◌then◌else◌, ltb, ◌==◌,
  ◌>>=◌, ◌>>◌, assert, ℤ, pos, negsuc, eqb_ℤ, is_negative,
}
use queue_c.StaticList.{StaticList}
use queue_c.StaticList

-- `P_ShmQue` and its semaphores. `lengths` holds the length that stands before each slot's message.
-- `next_offset` is `none` for the -1 of the last queue. The sizes are not negative and no offset
-- wraps: the whole lies in one mapping.
pub record ShmQue : Type 0 where
  pub que_sn : ℕ
  pub que_size : ℕ
  pub msg_size : ℕ
  pub lst_used : StaticList
  pub lst_free : StaticList
  pub data_offset : ℕ
  pub next_offset : Option ℕ
  pub lengths : ℕ → ℕ
  pub sem_que : ℕ

-- Sizes of `P_ShmQue`, `_StaticCell` and `off_t`.
pub record Layout : Type 0 where
  pub header : ℕ
  pub cell : ℕ
  pub off_size : ℕ

-- QUEDATA_SAFE_MARGIN_SIZE.
abbrev pub margin : ℕ
margin = 512

-- The size of a slot: its length, then the message.
abbrev pub slot_size : Layout → ShmQue → ℕ
slot_size l q = l.off_size + q.msg_size

-- The offsets of the data and behind it, for a queue at `offset`.
abbrev pub data_start : Layout → (offset que_size : ℕ) → ℕ
data_start l offset que_size = offset + l.header + que_size * l.cell + que_size * l.cell + margin

abbrev pub data_end : Layout → (offset que_size msg_size : ℕ) → ℕ
data_end l offset que_size msg_size =
    data_start l offset que_size + que_size * (l.off_size + msg_size) + margin

abbrev pub laid_out :
    Layout → (offset que_size msg_size que_num sn : ℕ) → (used free : StaticList) → ShmQue
laid_out l offset que_size msg_size que_num sn used free = record {
  que_sn = sn;
  que_size = que_size;
  msg_size = msg_size;
  lst_used = used;
  lst_free = free;
  data_offset = data_start l offset que_size;
  next_offset = if sn + 1 == que_num then none else some (data_end l offset que_size msg_size);
  lengths = λ _. 0;
  sem_que = 0;
}

-- The new `*offset` and the queue, or NULL. The semaphores are given or not.
unfoldable pub init :
    Layout
    → (offset que_size msg_size que_num sn : ℕ) → (que_made lst_made : Bool)
    → Option (ℕ × Option ShmQue)
init l offset que_size msg_size que_num sn que_made lst_made =
    let (r, used) = StaticList.init StaticList.zeroed (pos que_size) true in
    if not (eqb_ℤ r (pos 0)) then some (offset + l.header, none) else do
      cleared ← StaticList.clear used
      let (r', free) = StaticList.init StaticList.zeroed (pos que_size) true
      if not (eqb_ℤ r' (pos 0))
          then some (offset + l.header + que_size * l.cell, none)
          else if not que_made
          then some (data_end l offset que_size msg_size, none)
          else if not lst_made
          then some (data_end l offset que_size msg_size, none)
          else some (
            data_end l offset que_size msg_size,
            some (laid_out l offset que_size msg_size que_num sn cleared free),
          )

-- What a begin gives the caller: `*idx`, `*pp_buff` as an offset in the mapping, `*p_bufflen`.
pub record Slot : Type 0 where
  pub idx : ℕ
  pub buff : ℕ
  pub bufflen : ℕ

abbrev pub set_length : (ℕ → ℕ) → ℕ → ℕ → ℕ → ℕ
set_length lengths i n k = if k == i then n else lengths k

-- Where the message of slot `i` begins.
abbrev pub buff_offset : Layout → ShmQue → ℕ → ℕ
buff_offset l q i = q.data_offset + i * slot_size l q + l.off_size

-- `none` inside is the -1 of a queue without a free slot.
unfoldable pub push_begin : Layout → ShmQue → Option (Option Slot × ShmQue)
push_begin l q = if eqb_ℤ (StaticList.count q.lst_free) (pos 0) then some (none, q) else do
  (index, free) ← StaticList.get_head q.lst_free
  elim index [
    | pos i ↦ some (
      some (record { idx = i; buff = buff_offset l q i; bufflen = q.msg_size }),
      record q { lst_free = free; lengths = set_length q.lengths i q.msg_size },
    )
    | negsuc n ↦ none
  ]

unfoldable pub push_end : ShmQue → (idx bufflen : ℕ) → Option ShmQue
push_end q idx bufflen = do
  (index, used) ← StaticList.add_tail q.lst_used (pos idx)
  assert (not (is_negative index))
  some (record q {
    lst_used = used;
    lengths = set_length q.lengths idx bufflen;
    sem_que = q.sem_que + 1;
  })

-- The wait of `shm_queue_pull_begin` for `sem_que`: `none` while there is nothing to wait for. A
-- wait that times out or fails changes nothing.
unfoldable pub pull_admit : ShmQue → Option ShmQue
pull_admit q = if ltb 0 q.sem_que then some (record q { sem_que = q.sem_que - 1 }) else none

-- The rest of it; `none` inside is the -1 of an empty list.
unfoldable pub pull_take : Layout → ShmQue → Option (Option Slot × ShmQue)
pull_take l q = do
  (index, used) ← StaticList.get_head q.lst_used
  let q1 = record q { lst_used = used }
  elim index [
    | pos i ↦
        some (some (record { idx = i; buff = buff_offset l q1 i; bufflen = q1.lengths i }), q1)
    | negsuc n ↦ some (none, q1)
  ]

unfoldable pub pull_end : ShmQue → (idx : ℕ) → Option ShmQue
pull_end q idx = do
  (index, free) ← StaticList.add_tail q.lst_free (pos idx)
  assert (not (is_negative index))
  some (record q { lst_free = free })
