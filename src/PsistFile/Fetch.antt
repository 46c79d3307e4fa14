-- ===== src/PsistFile/Fetch.antt =====
-- `qc_psist_file_do_fetch` against the records of the file.
use queue_c.Base.{
  ℕ, zero, suc, ◌+◌, ◌-◌, ◌/◌, ◌%◌, ◌≡◌, ◌≢◌, ◌≤◌, ◌<◌, refl, ap, ◌∙◌, inl, inr, true, false,
  Option, none, some, arith, leb, ◌==◌, if◌then◌else◌, eqb_true, eqb_false, Bool-cases,
}
use native.Mathlib.Nat.{mul-div_cancel}
use queue_c.Protocol.{Host}
use queue_c.UnitPool.Units.{unit-le}
use queue_c.PsistFile.{
  File, FileInfo, MsgRecord, PsistFile, record_size, offset_of, file_size, negative_int, file_read,
  file_seek, file_seek_on, file_tell, Fetched, fetched, the_end, fetch_loop, do_fetch,
}
use queue_c.PsistFile.Records.{head_of, body_of, IsStore, inside}

-- The file with its descriptor at a record.
abbrev pub at_record : PsistFile → ℕ → PsistFile
at_record q k = record q { file = record q.file { position = offset_of q.info k } }

-- The next record in use among `left` from `k` on.
abbrev pub next_used : Host → PsistFile → (left k : ℕ) → Option ℕ
next_used host q zero k = none
next_used host q (suc left) k =
    let later = next_used host q left (suc k) in
    if (head_of host q k).flag == 0 then later else some k

-- The message in a record.
abbrev pub stored_at : Host → PsistFile → ℕ → MsgRecord
stored_at host q k =
    let h = head_of host q k in
    record {
      priority = h.priority;
      persist_id = k;
      bufflen = h.bufflen;
      buff = body_of q k h.bufflen;
    }

-- What a fetch gives, and where it leaves the descriptor: after the record, or at the last one.
abbrev pub outcome : Host → PsistFile → Option ℕ → Fetched × PsistFile
outcome host q none = (the_end, at_record q (q.info.msgcount_limit - 1))
outcome host q (some k) = (fetched (stored_at host q k), at_record q (suc k))

-- The messages in use fit their records.
abbrev pub AllFit : Host → PsistFile → Type 0
AllFit host q =
    (k : ℕ)
    → k < q.info.msgcount_limit
    → (head_of host q k).flag ≢ 0
    → (head_of host q k).bufflen ≤ q.info.msgbuff_size

pub read_inside :
    (f : File) (n : ℕ)
    → f.position + n ≤ f.size
    → file_read f n ≡ (n, record f { position = f.position + n })
unfolding file_read
read_inside f n h = let fits : leb n (f.size - f.position) ≡ true = ground arith in rw fits

offset-suc : (i : FileInfo) (k : ℕ) → offset_of i k + record_size i ≡ offset_of i (suc k)
offset-suc i k = grind arith

number_of : (i : FileInfo) (k : ℕ) → (offset_of i k - 16) / record_size i ≡ k
number_of i k =
    ap (λ n. n / record_size i) (omega arith) ∙ mul-div_cancel k {n = record_size i} (omega arith)

no_overflow : (n : ℕ) → n < 2147483648 → negative_int n ≡ false
no_overflow n h = let same : n % 4294967296 ≡ n = omega arith in rw same (ground arith)

-- Records have different offsets.
offset-differs : (i : FileInfo) (j k : ℕ) → j < k → offset_of i j ≢ offset_of i k
offset-differs i j k h e = omega (arith, unit-le 16 (record_size i) j k h)

-- At the last record the fetch ends.
pub at_the_end :
    (host : Host) (q : PsistFile) (k rounds : ℕ)
    → k ≡ q.info.msgcount_limit - 1
    → fetch_loop host (suc rounds) (at_record q k) (offset_of q.info k) ≡ some (outcome host q none)
unfolding fetch_loop
at_the_end host q k rounds last =
    rw (eqb_true _ _ (ap (offset_of q.info) last)) (ap (λ j. some (the_end, at_record q j)) last)

module _ (host : Host) (q : PsistFile) (v : IsStore q) (fit : AllFit host q) where
  module _ (k : ℕ) (lt : k + 1 < q.info.msgcount_limit) where
    not_last : (offset_of q.info k == offset_of q.info (q.info.msgcount_limit - 1)) ≡ false
    not_last = eqb_false _ _ (offset-differs q.info k (q.info.msgcount_limit - 1) (omega arith))

    read_head_here :
        file_read (at_record q k).file 12
        ≡ (12, record q.file { position = offset_of q.info k + 12 })
    read_head_here =
        read_inside (at_record q k).file 12 (omega (arith, v.size, inside q.info k (omega arith)))

    read_body_here :
        (n : ℕ)
        → n ≤ q.info.msgbuff_size
        → file_read (record q.file { position = offset_of q.info k + 12 }) n
          ≡ (n, record q.file { position = offset_of q.info k + 12 + n })
    read_body_here n le =
        read_inside (record q.file { position = offset_of q.info k + 12 }) n
          (omega (arith, v.size, inside q.info k (omega arith)))

    after_body : offset_of q.info k + 12 + q.info.msgbuff_size ≡ offset_of q.info (suc k)
    after_body = omega (arith, offset-suc q.info k)

    skips :
        (rounds : ℕ)
        → file_size q.info < 2147483648
        → ((head_of host q k).flag == 0) ≡ true
        → fetch_loop host (suc rounds) (at_record q k) (offset_of q.info k)
          ≡ fetch_loop host rounds (at_record q (suc k)) (offset_of q.info (suc k))
    unfolding fetch_loop file_seek_on
    skips rounds small free =
        let fits : negative_int (offset_of q.info (suc k)) ≡ false =
          no_overflow (offset_of q.info (suc k))
            (omega (arith, inside q.info k (omega arith), offset-suc q.info k)) in
        rw (not_last, read_head_here, free, after_body, fits, offset-suc q.info k)

    pub gives :
        (rounds : ℕ)
        → ((head_of host q k).flag == 0) ≡ false
        → fetch_loop host (suc rounds) (at_record q k) (offset_of q.info k)
          ≡ some (fetched (stored_at host q k), at_record q (suc k))
    unfolding fetch_loop file_seek
    gives rounds used =
        let n : ℕ = (head_of host q k).bufflen in
        let le : n ≤ q.info.msgbuff_size = fit k (omega arith) (ground arith) in
        rw (
          not_last,
          read_head_here,
          used,
          read_body_here n le,
          eqb_true n n refl,
          number_of q.info k,
          offset-suc q.info k,
        )

  pub fetch_loop-eq-outcome :
      (left k rounds : ℕ)
      → file_size q.info < 2147483648
      → k + left + 1 ≡ q.info.msgcount_limit
      → left < rounds
      → fetch_loop host rounds (at_record q k) (offset_of q.info k)
        ≡ some (outcome host q (next_used host q left k))
  fetch_loop-eq-outcome left k zero small e h = absurd (omega arith)
  fetch_loop-eq-outcome zero k (suc rounds) small e h = at_the_end host q k rounds (omega arith)
  fetch_loop-eq-outcome (suc left) k (suc rounds) small e h =
      elim (Bool-cases ((head_of host q k).flag == 0)) [
        | inl free ↦
            rw (skips k (omega arith) rounds small free, free)
              (fetch_loop-eq-outcome left (suc k) rounds small (omega arith) (omega arith))
        | inr used ↦ rw (gives k (omega arith) rounds used, used)
      ]

  -- On a file as long as its head says and of at most 2147483647 bytes, whose records in use hold
  -- no more than their room, a fetch with the descriptor at a record returns: with the message of
  -- the next record in use from there on, the last record of the file not counted, and the
  -- descriptor after it; or, if there is none, with the end and the descriptor at the last record.
  pub do_fetch-eq-outcome :
      (left k : ℕ)
      → file_size q.info < 2147483648
      → k + left + 1 ≡ q.info.msgcount_limit
      → do_fetch host (at_record q k) ≡ some (outcome host q (next_used host q left k))
  unfolding do_fetch file_tell
  do_fetch-eq-outcome left k small e =
      fetch_loop-eq-outcome left k (suc q.info.msgcount_limit) small e (omega arith)
