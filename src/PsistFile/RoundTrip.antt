-- ===== src/PsistFile/RoundTrip.antt =====
-- What is appended is fetched, and what is removed is not.
use queue_c.Base.{
  agree, ℕ, zero, suc, ◌+◌, ◌-◌, ◌≡◌, ◌≢◌, ◌≤◌, ◌<◌, ap, sym, subst, ◌∙◌, false, Option, none, some,
  List, arith, length, ◌==◌, eqb_true, eqb_false, Bool-cases, inl, inr, if◌then◌else◌, pos,
}
use native.Mathlib.Decide.{ℕ_discrete}
use queue_c.Protocol.{Host}
use queue_c.PsistFile.{
  FileInfo, MsgInfo, MsgRecord, PsistFile, file_size, append, remove, Fetched, fetched, the_end,
  io_error, do_fetch, file_tell,
}
use queue_c.PsistFile.Records.{
  head_of, body_of, IsStore, Changes, RecordFits, append-Changes, remove-Changes,
}
use queue_c.PsistFile.Fetch.{
  at_record, next_used, stored_at, AllFit, outcome, at_the_end, gives, do_fetch-eq-outcome,
}

module _ (host : Host) (q q' : PsistFile) (id : ℕ) (head : MsgInfo) (body : List ℕ)
    (c : Changes host q q' id head body) where
  pub Changes-IsStore : IsStore q → IsStore q'
  Changes-IsStore v = record {
    some_records = subst (λ (i : FileInfo). 0 < i.msgcount_limit) (sym c.info) v.some_records;
    size = c.size ∙ v.size ∙ ap file_size (sym c.info);
  }

  room_kept : q'.info.msgbuff_size ≡ q.info.msgbuff_size
  room_kept = ap (λ (i : FileInfo). i.msgbuff_size) c.info

  pub limit_kept : q'.info.msgcount_limit ≡ q.info.msgcount_limit
  limit_kept = ap (λ (i : FileInfo). i.msgcount_limit) c.info

  pub Changes-AllFit : head.bufflen ≤ q.info.msgbuff_size → AllFit host q → AllFit host q'
  Changes-AllFit le fit = λ k lt used. elim (ℕ_discrete k id) [
    | yes e ↦
        let h : head_of host q' k ≡ head =
          subst (λ j. head_of host q' j ≡ head) (sym e) c.head_is in
        subst (λ n. n ≤ q'.info.msgbuff_size) (sym (ap (λ (i : MsgInfo). i.bufflen) h))
          (omega (arith, room_kept))
    | no ne ↦
        let h : head_of host q' k ≡ head_of host q k = c.heads k ne in
        let used' : (head_of host q k).flag ≢ 0 = λ z. used (ap (λ (i : MsgInfo). i.flag) h ∙ z) in
        subst (λ n. n ≤ q'.info.msgbuff_size) (sym (ap (λ (i : MsgInfo). i.bufflen) h))
          (subst (λ n. (head_of host q k).bufflen ≤ n) (sym room_kept)
            (fit k (omega (arith, limit_kept)) used'))
  ]

-- The record at a used head is the next one.
pub next_used-here :
    (host : Host) (q : PsistFile) (left k : ℕ)
    → ((head_of host q k).flag == 0) ≡ false
    → next_used host q (suc left) k ≡ some k
next_used-here host q left k used = rw used

-- A record that is not in use is not the next one.
never_next :
    (host : Host) (q : PsistFile) (id : ℕ)
    → (head_of host q id).flag ≡ 0
    → (left k : ℕ) → next_used host q left k ≢ some id
never_next host q id free zero k = λ e. cc
never_next host q id free (suc left) k = elim (Bool-cases ((head_of host q k).flag == 0)) [
  | inl skipped ↦ rw skipped (never_next host q id free left (suc k))
  | inr used ↦ rw used (λ e.
      let same : k ≡ id = ap (λ (o : Option ℕ). elim o [ none ↦ 0 | some x ↦ x ]) e in
      let empty =
        eqb_true (head_of host q k).flag 0
          (subst (λ j. (head_of host q j).flag ≡ 0) (sym same) free) in
      cc (used, empty))
]

-- A fetch whose next record is another gives that one, or the end.
fetches_other :
    (host : Host) (q : PsistFile) (next : Option ℕ) (id : ℕ)
    → next ≢ some id
    → (m : MsgRecord) (after : PsistFile) → outcome host q next ≡ (fetched m, after)
    → m.persist_id ≢ id
fetches_other host q none id ne m after e = absurd cc
fetches_other host q (some k) id ne m after e =
    let same : k ≡ m.persist_id =
      ap
        (λ (x : Fetched × PsistFile). elim x.0 [
          | fetched r ↦ r.persist_id
          | the_end ↦ 0
          | io_error ↦ 0
        ])
        e in
    λ z. ne (ap some (same ∙ z))

module _ (host : Host) (q : PsistFile) (r : MsgRecord) (v : IsStore q) (fit : AllFit host q)
    (w : RecordFits q r) where
  stored-eq :
      (q' : PsistFile)
      → head_of host q' r.persist_id
        ≡ record { flag = 1; priority = r.priority; bufflen = r.bufflen }
      → body_of q' r.persist_id (length r.buff) ≡ r.buff
      → stored_at host q' r.persist_id ≡ r
  stored-eq q' h b =
      ap
        (λ (i : MsgInfo). record {
          priority = i.priority;
          persist_id = r.persist_id;
          bufflen = i.bufflen;
          buff = body_of q' r.persist_id i.bufflen;
        })
        h
      ∙ ap
          (λ (l : List ℕ). record {
            priority = r.priority;
            persist_id = r.persist_id;
            bufflen = r.bufflen;
            buff = l;
          })
          (subst (λ n. body_of q' r.persist_id n ≡ r.buff) w.buffer b)

  -- On a file as long as its head says, whose records in use hold no more than their room,
  -- appending a message that fits its record returns 0, and then a fetch with the descriptor at the
  -- record gives the message back with its number, priority and bytes. At the last record of the
  -- file, however, the fetch gives the end.
  pub append-fetch :
      (q' : PsistFile) × (append host q r ≡ (pos 0, q'))
      × IsStore q'
      × AllFit host q'
      × (do_fetch host (at_record q' r.persist_id)
          ≡ some (
              if r.persist_id + 1 == q.info.msgcount_limit
              then (the_end, at_record q' (q'.info.msgcount_limit - 1))
              else (fetched r, at_record q' (suc r.persist_id))))
  unfolding do_fetch file_tell
  append-fetch =
      let (q', e, c) = append-Changes host q r v w in
      let v' : IsStore q' = Changes-IsStore host q q' _ _ _ c v in
      let fit' : AllFit host q' = Changes-AllFit host q q' _ _ _ c w.room fit in
      let kept = limit_kept host q q' _ _ _ c in
      (
        q',
        e,
        v',
        fit',
        elim (ℕ_discrete (r.persist_id + 1) q.info.msgcount_limit) [
          | yes last ↦
              rw (eqb_true (r.persist_id + 1) q.info.msgcount_limit last)
                (at_the_end host q' r.persist_id q'.info.msgcount_limit (omega arith))
          | no more ↦
              rw
                (
                  eqb_false (r.persist_id + 1) q.info.msgcount_limit more,
                  gives host q' v' fit' r.persist_id (omega (arith, w.number))
                      q'.info.msgcount_limit
                      (eqb_false _ 0 (λ z. omega (arith, ap (λ (i : MsgInfo). i.flag) c.head_is))),
                )
                (ap (λ m. some (fetched m, at_record q' (suc r.persist_id)))
                  (stored-eq q' c.head_is c.body_is))
        ],
      )

  -- On a file as long as its head says and of at most 2147483647 bytes, whose records in use hold
  -- no more than their room, removing a message that has a record returns 0, and afterwards no
  -- fetch with the descriptor at a record of the file gives a message of that record's number. The
  -- file stays as long as its head says, and its records in use within their room.
  pub remove-frees :
      file_size q.info < 2147483648
      → (q' : PsistFile) × (remove host q r.persist_id ≡ (pos 0, q'))
        × IsStore q'
        × AllFit host q'
        × ((k : ℕ) (m : MsgRecord) (after : PsistFile)
            → k < q.info.msgcount_limit
            → do_fetch host (at_record q' k) ≡ some (fetched m, after)
            → m.persist_id ≢ r.persist_id)
  remove-frees small =
      let (q', e, c) = remove-Changes host q r.persist_id v w.number in
      let v' : IsStore q' = Changes-IsStore host q q' _ _ _ c v in
      let fit' : AllFit host q' = Changes-AllFit host q q' _ _ _ c (omega arith) fit in
      let kept = limit_kept host q q' _ _ _ c in
      let small' : file_size q'.info < 2147483648 =
        subst (λ (i : FileInfo). file_size i < 2147483648) (sym c.info) small in
      (
        q',
        e,
        v',
        fit',
        λ k m after lt run.
            let left : ℕ = q'.info.msgcount_limit - k - 1 in
            fetches_other host q' (next_used host q' left k) r.persist_id
              (never_next host q' r.persist_id (ap (λ (i : MsgInfo). i.flag) c.head_is) left k) m
              after
              (agree _ _ _ (do_fetch-eq-outcome host q' v' fit' left k small' (omega arith)) run),
      )
