-- ===== src/Psist.antt =====
-- src/qc_psist/qc_psist.c: the stored messages of a queue, with a pool of persist ids.
pub mod Load
pub mod Ids
mod Tests
use queue_c.Base.{
  ℕ, zero, suc, Bool, true, false, Option, none, some, if◌then◌else◌, ◌>>=◌, ◌>>◌, ℤ, pos, negsuc,
  failed, eqb_ℤ,
}
use queue_c.NumPool.{NumPool}
use queue_c.NumPool
use queue_c.Protocol.{Host}
use queue_c.PsistFile.{
  MsgRecord, PsistFile, OnDisk, Fetched, fetched, the_end, io_error, open_file, fetch_ready,
  do_fetch,
}
use queue_c.PsistFile
use queue_c.StaticList.{zeroed}

pub record Psist : Type 0 where
  pub qtbl : PsistFile
  pub ids : NumPool

-- NULL is `none`. The description starts with "file://", and the pool has its memory.
unfoldable pub open_psist : Host → (msgbuff_size msgcount_limit : ℕ) → OnDisk → Option Psist
open_psist host msgbuff_size msgcount_limit disk = do
  qtbl ← open_file host msgbuff_size msgcount_limit disk
  let (ret, ids) = NumPool.init (record { free_list = zeroed }) (pos msgcount_limit) true
  some (record { qtbl = qtbl; ids = ids })

-- The message gets its persist id. It is the record `m` otherwise. `none` is a fault of the pool.
unfoldable pub append : Host → Psist → MsgRecord → Option (ℤ × MsgRecord × Psist)
append host p m = do
  (id, ids) ← NumPool.get p.ids
  elim id [
    | negsuc n ↦ some (failed, m, record p { ids = ids })
    | pos n ↦
        let r : MsgRecord = record m { persist_id = n } in
        let (ret, qtbl) = PsistFile.append host p.qtbl r in
        let after : Psist = record { qtbl = qtbl; ids = ids } in
        some (if eqb_ℤ ret (pos 0) then pos 0 else failed, r, after)
  ]

unfoldable pub remove : Host → Psist → MsgRecord → Option (ℤ × Psist)
remove host p m =
    let (ret, qtbl) = PsistFile.remove host p.qtbl m.persist_id in
    if eqb_ℤ ret (pos 0)
    then (do
      (ret', ids) ← NumPool.put p.ids (pos m.persist_id)
      some (pos 0, record { qtbl = qtbl; ids = ids }))
    else some (failed, record p { qtbl = qtbl })

-- `put` is `qc_queue_msgput` into the queue without waiting, `none` where it does not return 0. It
-- is taken to leave the queue as it is then, and not to stop the program.
module _ {A : Type 0} (put : A → MsgRecord → Option A) where
  -- The loop, `rounds` times at most; `none` is a loop that needs more.
  unfoldable pub load_loop : Host → (rounds : ℕ) → PsistFile → A → Option (ℤ × A × PsistFile)
  load_loop host zero q a = none
  load_loop host (suc rounds) q a = do
    (r, q') ← do_fetch host q
    elim r [
      | fetched m ↦ elim (put a m) [
        | none ↦ some (failed, a, q')
        | some a' ↦ load_loop host rounds q' a'
      ]
      | the_end ↦ some (pos 0, a, q')
      | io_error ↦ some (failed, a, q')
    ]

  unfoldable pub loadqueue : Host → Psist → A → Option (ℤ × A × PsistFile)
  loadqueue host p a = load_loop host p.qtbl.info.msgcount_limit (fetch_ready p.qtbl) a
