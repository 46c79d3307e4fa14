-- ===== src/PsistFile/Samples.antt =====
-- A file of messages and a message, for the tests.
use queue_c.Base.{refl, [], ◌∷◌, arith}
use queue_c.Protocol.{little, ntohl}
use queue_c.PsistFile.{MsgRecord, PsistFile, msginfo_ntoh}
use queue_c.PsistFile.Records.{IsStore, RecordFits}
use queue_c.PsistFile.Fetch.{AllFit}

-- Three records of four bytes, none in use.
abbrev pub blank : PsistFile
blank = record {
  info = record { identity = 0; version = 1; msgbuff_size = 4; msgcount_limit = 3 };
  file = record { bytes = λ _. 0; size = 64; position = 16 };
}

pub blank-IsStore : IsStore blank
blank-IsStore = record { some_records = omega arith; size = refl }

pub blank-AllFit : AllFit little blank
unfolding msginfo_ntoh ntohl
blank-AllFit k lt used = absurd (used refl)

abbrev pub letter : MsgRecord
letter = record { priority = 2; persist_id = 1; bufflen = 3; buff = 7 ∷ 8 ∷ 9 ∷ [] }

pub letter-RecordFits : RecordFits blank letter
letter-RecordFits = record {
  number = omega arith;
  buffer = refl;
  not_empty = omega arith;
  room = omega arith;
  width = omega arith;
  priority = omega arith;
}
