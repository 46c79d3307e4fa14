-- ===== src/PsistFile.antt =====
-- src/qc_psist/qc_psist_file.c on src/qc_rt/qc_file.c: the file of stored messages, a record for
-- each persist id behind a head. No call of the system on the file fails.
pub mod Bytes
pub mod Records
pub mod Fetch
pub mod RoundTrip
pub mod Open
pub mod Samples
mod Tests
use queue_c.Base.{
  ℕ, zero, suc, ◌+◌, ◌-◌, ◌*◌, ◌/◌, ◌%◌, Bool, true, false, not, ◌&&◌, Option, none, some, List, [],
  ◌∷◌, ◌++◌, if◌then◌else◌, ltb, leb, ◌==◌, ◌>>=◌, ◌>>◌, assert, ℤ, pos, failed, eqb_ℤ, length,
}
use queue_c.Protocol.{Host, little, big, htonl, ntohl}
use queue_c.Protocol.Order.{memory32}

-- An open file: its bytes up to `size`, and the position of the descriptor.
pub record File : Type 0 where
  pub bytes : ℕ → ℕ
  pub size : ℕ
  pub position : ℕ

abbrev pub nth : List ℕ → ℕ → ℕ
nth [] i = 0
nth (x ∷ xs) zero = x
nth (x ∷ xs) (suc i) = nth xs i

-- The bytes with those of a list in their place from `o` on.
abbrev pub poke : (ℕ → ℕ) → ℕ → List ℕ → ℕ → ℕ
poke b o xs k = if leb o k && ltb k (o + length xs) then nth xs (k - o) else b k

-- The `n` bytes from `o` on.
abbrev pub slice : (ℕ → ℕ) → (o n : ℕ) → List ℕ
slice b o zero = []
slice b o (suc n) = b o ∷ slice b (suc o) n

unfoldable pub file_tell : File → ℕ
file_tell f = f.position

-- From the start of the file.
unfoldable pub file_seek : File → ℕ → File
file_seek f offset = record f { position = offset }

-- From the position on; the result is the new position.
unfoldable pub file_seek_on : File → ℕ → ℕ × File
file_seek_on f offset = (f.position + offset, record f { position = f.position + offset })

-- Whether an `off_t` that is not negative becomes a negative `int`.
abbrev pub negative_int : ℕ → Bool
negative_int offset = leb 2147483648 (offset % 4294967296)

-- The number of bytes read, which are those from the position on.
unfoldable pub file_read : File → (nbytes : ℕ) → ℕ × File
file_read f nbytes =
    let left = f.size - f.position in
    let count = if leb nbytes left then nbytes else left in
    (count, record f { position = f.position + count })

unfoldable pub file_write : File → List ℕ → ℕ × File
file_write f bs =
    let end = f.position + length bs in
    (
      length bs,
      record f {
        bytes = poke f.bytes f.position bs;
        size = if leb end f.size then f.size else end;
        position = end;
      },
    )

-- A structure in memory has its numbers in the byte order of the host.
abbrev pub number32 : Host → (a b c d : ℕ) → ℕ
number32 little a b c d = a + 256 * b + 65536 * c + 16777216 * d
number32 big a b c d = d + 256 * c + 65536 * b + 16777216 * a

abbrev pub number_at : Host → (ℕ → ℕ) → ℕ → ℕ
number_at host b o = number32 host (b o) (b (o + 1)) (b (o + 2)) (b (o + 3))

-- Every `int` is the unsigned number of its bits.
pub record FileInfo : Type 0 where
  pub identity : ℕ
  pub version : ℕ
  pub msgbuff_size : ℕ
  pub msgcount_limit : ℕ

pub record MsgInfo : Type 0 where
  pub flag : ℕ
  pub priority : ℕ
  pub bufflen : ℕ

abbrev pub fileinfo_size : ℕ
fileinfo_size = 16

abbrev pub msginfo_size : ℕ
msginfo_size = 12

unfoldable pub fileinfo_hton : Host → FileInfo → FileInfo
fileinfo_hton host i = record {
  identity = htonl host i.identity;
  version = htonl host i.version;
  msgbuff_size = htonl host i.msgbuff_size;
  msgcount_limit = htonl host i.msgcount_limit;
}

unfoldable pub fileinfo_ntoh : Host → FileInfo → FileInfo
fileinfo_ntoh host i = record {
  identity = ntohl host i.identity;
  version = ntohl host i.version;
  msgbuff_size = ntohl host i.msgbuff_size;
  msgcount_limit = ntohl host i.msgcount_limit;
}

unfoldable pub msginfo_hton : Host → MsgInfo → MsgInfo
msginfo_hton host i = record {
  flag = htonl host i.flag;
  priority = htonl host i.priority;
  bufflen = htonl host i.bufflen;
}

unfoldable pub msginfo_ntoh : Host → MsgInfo → MsgInfo
msginfo_ntoh host i = record {
  flag = ntohl host i.flag;
  priority = ntohl host i.priority;
  bufflen = ntohl host i.bufflen;
}

abbrev pub fileinfo_memory : Host → FileInfo → List ℕ
fileinfo_memory host i =
    memory32 host i.identity
    ++ (memory32 host i.version ++ (memory32 host i.msgbuff_size ++ memory32 host i.msgcount_limit))

abbrev pub msginfo_memory : Host → MsgInfo → List ℕ
msginfo_memory host i =
    memory32 host i.flag ++ (memory32 host i.priority ++ memory32 host i.bufflen)

-- The structure whose memory is the bytes from `o` on.
abbrev pub fileinfo_at : Host → (ℕ → ℕ) → ℕ → FileInfo
fileinfo_at host b o = record {
  identity = number_at host b o;
  version = number_at host b (o + 4);
  msgbuff_size = number_at host b (o + 8);
  msgcount_limit = number_at host b (o + 12);
}

abbrev pub msginfo_at : Host → (ℕ → ℕ) → ℕ → MsgInfo
msginfo_at host b o = record {
  flag = number_at host b o;
  priority = number_at host b (o + 4);
  bufflen = number_at host b (o + 8);
}

-- `buff` has `bufflen` bytes where a record is written. `buff_flag` takes no part here.
pub record MsgRecord : Type 0 where
  pub priority : ℕ
  pub persist_id : ℕ
  pub bufflen : ℕ
  pub buff : List ℕ

-- `filename` is not modelled.
pub record PsistFile : Type 0 where
  pub info : FileInfo
  pub file : File

unfoldable pub fileinfo_compare : FileInfo → FileInfo → ℤ
fileinfo_compare a b =
    if not (a.identity == b.identity)
    then failed
    else if not (a.version == b.version)
    then failed
    else if not (a.msgbuff_size == b.msgbuff_size)
    then failed
    else if not (a.msgcount_limit == b.msgcount_limit)
    then failed
    else pos 0

-- A record and the head before it.
abbrev pub record_size : FileInfo → ℕ
record_size i = msginfo_size + i.msgbuff_size

abbrev pub offset_of : FileInfo → ℕ → ℕ
offset_of i persist_id = fileinfo_size + persist_id * record_size i

abbrev pub file_size : FileInfo → ℕ
file_size i = fileinfo_size + record_size i * i.msgcount_limit

-- What lies at the path: nothing, or the bytes of a file and their number. A file made by
-- `qc_file_truncate` has zeros.
pub data OnDisk : Type 0 where
  no_file : OnDisk
  a_file : (ℕ → ℕ) → (size : ℕ) → OnDisk

-- NULL is `none`. The allocations do not fail, and the name is not too long.
unfoldable pub open_file : Host → (msgbuff_size msgcount_limit : ℕ) → OnDisk → Option PsistFile
open_file host msgbuff_size msgcount_limit no_file =
    let i : FileInfo = record {
      identity = 0;
      version = 1;
      msgbuff_size = msgbuff_size;
      msgcount_limit = msgcount_limit;
    } in
    do
      assert (ltb 0 msgbuff_size && ltb 0 msgcount_limit)
      let hton = fileinfo_hton host i
      let blank : File = record { bytes = λ _. 0; size = file_size i; position = 0 }
      let (sz, f) = file_write blank (fileinfo_memory host hton)
      some (record { info = fileinfo_hton host hton; file = f })
open_file host msgbuff_size msgcount_limit (a_file b size) =
    let i : FileInfo = record {
      identity = 0;
      version = 1;
      msgbuff_size = msgbuff_size;
      msgcount_limit = msgcount_limit;
    } in
    do
      assert (ltb 0 msgbuff_size && ltb 0 msgcount_limit)
      assert (size == file_size i)
      let (sz, f) = file_read (record { bytes = b; size = size; position = 0 }) fileinfo_size
      assert (ltb 0 sz)
      let found = fileinfo_ntoh host (fileinfo_at host b 0)
      (if eqb_ℤ (fileinfo_compare found i) (pos 0)
          then some (record { info = i; file = f })
          else none)

unfoldable pub append : Host → PsistFile → MsgRecord → ℤ × PsistFile
append host q r =
    let offset_msghead = offset_of q.info r.persist_id in
    let (sz, f) = file_write (file_seek q.file (offset_msghead + msginfo_size)) r.buff in
    let info : MsgInfo = record { flag = 1; priority = r.priority; bufflen = r.bufflen } in
    let (hsz, f') =
      file_write (file_seek f offset_msghead) (msginfo_memory host (msginfo_hton host info)) in
    if sz == 0 then (failed, record q { file = f }) else (pos 0, record q { file = f' })

unfoldable pub remove : Host → PsistFile → (persist_id : ℕ) → ℤ × PsistFile
remove host q persist_id =
    let info : MsgInfo = record { flag = 0; priority = 0; bufflen = 0 } in
    let (sz, f) =
      file_write (file_seek q.file (offset_of q.info persist_id))
        (msginfo_memory host (msginfo_hton host info)) in
    (pos 0, record q { file = f })

unfoldable pub fetch_ready : PsistFile → PsistFile
fetch_ready q = record q { file = file_seek q.file fileinfo_size }

-- The result of a fetch: 0 with a record, 1 at the end, and -1.
pub data Fetched : Type 0 where
  fetched : MsgRecord → Fetched
  the_end : Fetched
  io_error : Fetched

-- A negative length stops the program in `qc_malloc`: it is more than any file has that an `int`
-- can count. The record at `offset`, whose head has been read, with the position after the head.
abbrev pub fetch_body :
    PsistFile → File → (persist_id offset' : ℕ) → MsgInfo → Option (Fetched × PsistFile)
fetch_body q f persist_id offset' info =
    let (bsz, f') = file_read f info.bufflen in
    if bsz == info.bufflen
    then some (
      fetched (record {
        priority = info.priority;
        persist_id = persist_id;
        bufflen = info.bufflen;
        buff = slice f.bytes f.position info.bufflen;
      }),
      record q { file = file_seek f' offset' },
    )
    else if negative_int info.bufflen
    then none
    else some (io_error, record q { file = f' })

-- The loop, `rounds` times at most; `none` is a loop that needs more, or a stop. The position after
-- a record that is skipped is converted to an `int`.
unfoldable pub fetch_loop : Host → (rounds : ℕ) → PsistFile → ℕ → Option (Fetched × PsistFile)
fetch_loop host zero q offset = none
fetch_loop host (suc rounds) q offset =
    let (hsz, f) = file_read q.file msginfo_size in
    let info = msginfo_ntoh host (msginfo_at host q.file.bytes q.file.position) in
    let next = offset + record_size q.info in
    let (bsz, after) = file_seek_on f q.info.msgbuff_size in
    let skipped = record q { file = after } in
    let later = fetch_loop host rounds skipped next in
    if offset == offset_of q.info (q.info.msgcount_limit - 1)
    then some (the_end, q)
    else if not (hsz == msginfo_size)
    then some (io_error, record q { file = f })
    else if info.flag == 0
    then if negative_int bsz then some (io_error, skipped) else later
    else fetch_body q f ((offset - fileinfo_size) / record_size q.info) next info

-- The rounds suffice for a file that is as long as its head says.
unfoldable pub do_fetch : Host → PsistFile → Option (Fetched × PsistFile)
do_fetch host q = fetch_loop host (suc q.info.msgcount_limit) q (file_tell q.file)
