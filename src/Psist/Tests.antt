-- ===== src/Psist/Tests.antt =====
-- Runs of the message store on concrete inputs.
use queue_c.Base.{
  ℕ, zero, suc, ◌≡◌, refl, ap, sym, subst, true, Option, none, some, [], ◌∷◌, arith, map, ℤ, pos,
  failed,
}
use queue_c.NumPool.{NumPool}
use queue_c.NumPool
use queue_c.NumPool.Ownership.{Owns, init-Owns}
use queue_c.Protocol.{little}
use queue_c.PsistFile.{MsgRecord, PsistFile, no_file}
use queue_c.PsistFile.Records.{Changes, RecordFits}
use queue_c.PsistFile.Bytes.{FileInfoFits}
use queue_c.PsistFile.Fetch.{stored_at}
use queue_c.PsistFile.Open.{open-made, info_for, new_bytes}
use queue_c.PsistFile.Samples.{blank, blank-IsStore, blank-AllFit, letter}
use queue_c.StaticList.{zeroed}
use queue_c.Psist.{Psist, open_psist, append, loadqueue}
use queue_c.Psist.Load.{put_all, used_records, loadqueue-eq-put_all}
use queue_c.Psist.Ids.{append-Owns, append-empty, append-opened}

abbrev pool : NumPool
pool = (NumPool.init (record { free_list = zeroed }) (pos 3) true).1

pool-Owns : Owns pool (0 ∷ 1 ∷ 2 ∷ []) []
pool-Owns =
    let (q, e, o) = init-Owns (record { free_list = zeroed }) 2 in
    subst (λ x. Owns x (0 ∷ 1 ∷ 2 ∷ []) []) (sym (ap (λ (r : ℤ × NumPool). r.1) e)) o

abbrev store : Psist
store = record { qtbl = blank; ids = pool }

fits_first : RecordFits blank (record letter { persist_id = 0 })
fits_first = record {
  number = omega arith;
  buffer = refl;
  not_empty = omega arith;
  room = omega arith;
  width = omega arith;
  priority = omega arith;
}

append-Owns_example :
    (p : Psist) × (append little store letter ≡ some (pos 0, record letter { persist_id = 0 }, p))
    × Owns p.ids (1 ∷ 2 ∷ []) (0 ∷ [])
    × Changes little blank p.qtbl 0
        (record { flag = 1; priority = 2; bufflen = 3 })
        (7 ∷ 8 ∷ 9 ∷ [])
append-Owns_example =
    append-Owns little store blank-IsStore letter 0 (1 ∷ 2 ∷ []) [] pool-Owns fits_first

empty_message :
    (p : Psist) × (append little store (record letter { bufflen = 0; buff = [] })
      ≡ some (failed, record { priority = 2; persist_id = 0; bufflen = 0; buff = [] }, p))
    × Owns p.ids (1 ∷ 2 ∷ []) (0 ∷ [])
empty_message =
    append-empty little store blank-IsStore (record letter { bufflen = 0; buff = [] }) 0
      (1 ∷ 2 ∷ []) [] pool-Owns refl

-- The queue takes a message if it has fewer than two.
abbrev put_two : ℕ → MsgRecord → Option ℕ
put_two zero m = some 1
put_two (suc zero) m = some 2
put_two _ m = none

loadqueue-eq-put_all_example :
    (q : PsistFile) × (loadqueue put_two little store 0
      ≡ some (
        (put_all put_two (map (stored_at little blank) (used_records little blank 2 0)) 0).0,
        (put_all put_two (map (stored_at little blank) (used_records little blank 2 0)) 0).1,
        q,
      ))
loadqueue-eq-put_all_example =
    loadqueue-eq-put_all put_two little store 0 blank-IsStore blank-AllFit (omega arith)

abbrev opened : Psist
opened = record {
  qtbl = record {
    info = info_for 4 3;
    file = record { bytes = new_bytes little (info_for 4 3); size = 64; position = 16 };
  };
  ids = pool;
}

open_first : open_psist little 4 3 no_file ≡ some opened
unfolding open_psist
open_first =
    let fits : FileInfoFits (info_for 4 3) = record {
      identity = omega arith;
      version = omega arith;
      msgbuff_size = omega arith;
      msgcount_limit = omega arith;
    } in
    rw (open-made little 4 3 fits (omega arith) (omega arith))

append-opened_example :
    (p : Psist) × (append little opened letter ≡ some (pos 0, record letter { persist_id = 0 }, p))
    × Changes little opened.qtbl p.qtbl 0
        (record { flag = 1; priority = 2; bufflen = 3 })
        (7 ∷ 8 ∷ 9 ∷ [])
append-opened_example =
    append-opened little letter 4 2 no_file opened open_first
      (record { some_records = omega arith; size = refl })
      (record {
        number = omega arith;
        buffer = refl;
        not_empty = omega arith;
        room = omega arith;
        width = omega arith;
        priority = omega arith;
      })
