-- ===== src/PsistFile/Tests.antt =====
-- Runs of the file of messages on concrete inputs.
use queue_c.Base.{ℕ, ◌≡◌, ◌≢◌, ◌<◌, refl, some, [], ◌∷◌, arith, pos}
use queue_c.Protocol.{little}
use queue_c.PsistFile.{
  MsgRecord, PsistFile, append, remove, fetched, do_fetch, a_file, no_file, open_file,
}
use queue_c.PsistFile.Bytes.{FileInfoFits}
use queue_c.PsistFile.Records.{IsStore, Changes, append-Changes}
use queue_c.PsistFile.Fetch.{at_record, next_used, outcome, AllFit, do_fetch-eq-outcome}
use queue_c.PsistFile.RoundTrip.{append-fetch, remove-frees}
use queue_c.PsistFile.Samples.{blank, blank-IsStore, blank-AllFit, letter, letter-RecordFits}
use queue_c.PsistFile.Open.{info_for, open-no_file}

append-Changes_example :
    (q : PsistFile) × (append little blank letter ≡ (pos 0, q))
    × Changes little blank q 1 (record { flag = 1; priority = 2; bufflen = 3 }) (7 ∷ 8 ∷ 9 ∷ [])
append-Changes_example = append-Changes little blank letter blank-IsStore letter-RecordFits

append-fetch_example :
    (q : PsistFile) × (append little blank letter ≡ (pos 0, q))
    × IsStore q
    × AllFit little q
    × (do_fetch little (at_record q 1) ≡ some (fetched letter, at_record q 2))
append-fetch_example = append-fetch little blank letter blank-IsStore blank-AllFit letter-RecordFits

remove-frees_example :
    (q : PsistFile) × (remove little blank 1 ≡ (pos 0, q))
    × IsStore q
    × AllFit little q
    × ((k : ℕ) (m : MsgRecord) (after : PsistFile)
        → k < 3
        → do_fetch little (at_record q k) ≡ some (fetched m, after)
        → m.persist_id ≢ 1)
remove-frees_example =
    remove-frees little blank letter blank-IsStore blank-AllFit letter-RecordFits (omega arith)

do_fetch-eq-outcome_example :
    do_fetch little (at_record blank 0) ≡ some (outcome little blank (next_used little blank 2 0))
do_fetch-eq-outcome_example =
    do_fetch-eq-outcome little blank blank-IsStore blank-AllFit 2 0 (omega arith) refl

sizes-FileInfoFits : FileInfoFits (info_for 4 3)
sizes-FileInfoFits = record {
  identity = omega arith;
  version = omega arith;
  msgbuff_size = omega arith;
  msgcount_limit = omega arith;
}

open-no_file_example :
    (q : PsistFile) × (open_file little 4 3 no_file ≡ some q)
    × IsStore q
    × (q.info ≡ info_for 4 3)
    × (open_file little 4 3 (a_file q.file.bytes q.file.size) ≡ some q)
open-no_file_example = open-no_file little 4 3 sizes-FileInfoFits (omega arith) (omega arith)
