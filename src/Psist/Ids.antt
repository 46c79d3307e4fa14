-- ===== src/Psist/Ids.antt =====
-- `qc_psist_append` and `qc_psist_remove`: the persist ids and the records.
use queue_c.Base.{
  ℕ, suc, ◌≡◌, ◌<◌, ap, subst, true, Option, none, some, List, [], ◌∷◌, ◌++◌, length, eqb_true,
  ◌==◌, pos, failed, count_from, Option-cases, inl, inr,
}
use queue_c.NumPool.{NumPool}
use queue_c.NumPool.Ownership.{Owns, init-Owns, get-Owns, get-exhausted, put-Owns}
use queue_c.Protocol.{Host}
use queue_c.PsistFile.{MsgInfo, MsgRecord, PsistFile, OnDisk, open_file}
use queue_c.PsistFile
use queue_c.PsistFile.Records.{IsStore, Changes, RecordFits, append-Changes, unused, remove-Changes}
use queue_c.StaticList.{zeroed}
use queue_c.Psist.{Psist, open_psist, append, remove}

-- No byte is written, which the file takes for an error.
refused :
    (host : Host) (q : PsistFile) (r : MsgRecord)
    → r.buff ≡ []
    → (PsistFile.append host q r).0 ≡ failed
unfolding PsistFile.append PsistFile.file_write
refused host q r e =
    let none_written : (length r.buff == 0) ≡ true = eqb_true _ 0 (ap length e) in rw none_written

opened-Owns :
    (host : Host) (size limit : ℕ) (disk : OnDisk) (p : Psist)
    → open_psist host size (suc limit) disk ≡ some p
    → Owns p.ids (count_from 0 (suc limit)) []
unfolding open_psist
opened-Owns host size limit disk p = elim (Option-cases (open_file host size (suc limit) disk)) [
  | inl refused_file ↦ rw refused_file (λ e. cc)
  | inr (q, opened) ↦
      let (ids, made, o) = init-Owns (record { free_list = zeroed }) limit in
      rw (opened, made)
        (λ e.
          subst (λ (x : NumPool). Owns x (count_from 0 (suc limit)) [])
            (ap (λ (r : Option Psist). elim r [ none ↦ ids | some x ↦ x.ids ]) e) o)
]

module _ (host : Host) (p : Psist) (v : IsStore p.qtbl) where
  -- On a store whose file is as long as its head says, and whose pool has a free number, appending
  -- a message that fits returns 0; the message is in the record of the first free number, which it
  -- carries and which counts as held from then on, and no other record has changed.
  pub append-Owns :
      (m : MsgRecord) (x : ℕ) (free used : List ℕ)
      → Owns p.ids (x ∷ free) used
      → RecordFits p.qtbl (record m { persist_id = x })
      → (p' : Psist) × (append host p m ≡ some (pos 0, record m { persist_id = x }, p'))
        × Owns p'.ids free (x ∷ used)
        × Changes host p.qtbl p'.qtbl x
            (record { flag = 1; priority = m.priority; bufflen = m.bufflen })
            m.buff
  unfolding append
  append-Owns m x free used o w =
      let (ids, got, o') = get-Owns p.ids x free used o in
      let (qtbl, stored, c) = append-Changes host p.qtbl (record m { persist_id = x }) v w in
      (record { qtbl = qtbl; ids = ids }, rw (got, stored), o', c)

  -- With no number free, -1 is returned and nothing is stored.
  pub append-full :
      (m : MsgRecord) (used : List ℕ) → Owns p.ids [] used → append host p m ≡ some (failed, m, p)
  unfolding append
  append-full m used o = rw (get-exhausted p.ids used o)

  -- A message with no bytes is refused with -1, and a number is lost: it is counted as held.
  pub append-empty :
      (m : MsgRecord) (x : ℕ) (free used : List ℕ)
      → Owns p.ids (x ∷ free) used
      → m.buff ≡ []
      → (p' : Psist) × (append host p m ≡ some (failed, record m { persist_id = x }, p'))
        × Owns p'.ids free (x ∷ used)
  unfolding append
  append-empty m x free used o e =
      let (ids, got, o') = get-Owns p.ids x free used o in
      let r : MsgRecord = record m { persist_id = x } in
      (
        record { qtbl = (PsistFile.append host p.qtbl r).1; ids = ids },
        rw (got, refused host p.qtbl r e),
        o',
      )

  -- A stored message is removed: its record is not in use any more, no other record changes, its
  -- number is free again, and 0 is returned.
  pub remove-Owns :
      (m : MsgRecord) (free us vs : List ℕ)
      → Owns p.ids free (us ++ (m.persist_id ∷ vs))
      → m.persist_id < p.qtbl.info.msgcount_limit
      → (p' : Psist) × (remove host p m ≡ some (pos 0, p'))
        × Owns p'.ids (free ++ (m.persist_id ∷ [])) (us ++ vs)
        × Changes host p.qtbl p'.qtbl m.persist_id unused []
  unfolding remove
  remove-Owns m free us vs o lt =
      let (ids, back, o') = put-Owns p.ids m.persist_id free us vs o in
      let (qtbl, freed, c) = remove-Changes host p.qtbl m.persist_id v lt in
      (record { qtbl = qtbl; ids = ids }, rw (freed, back), o', c)

-- After a store has been opened on a file that is as long as its head says, the first message
-- appended that fits goes to record 0, whatever that record holds.
pub append-opened :
    (host : Host) (m : MsgRecord) (size limit : ℕ) (disk : OnDisk) (p : Psist)
    → open_psist host size (suc limit) disk ≡ some p
    → IsStore p.qtbl
    → RecordFits p.qtbl (record m { persist_id = 0 })
    → (p' : Psist) × (append host p m ≡ some (pos 0, record m { persist_id = 0 }, p'))
      × Changes host p.qtbl p'.qtbl 0
          (record { flag = 1; priority = m.priority; bufflen = m.bufflen })
          m.buff
append-opened host m size limit disk p e v w =
    let (p', run, o, c) =
      append-Owns host p v m 0 (count_from 1 limit) [] (opened-Owns host size limit disk p e) w in
    (p', run, c)
