-- ===== src/PsistFile/Records.antt =====
-- The records of the file, and what `qc_psist_file_append` and `qc_psist_file_remove` make of them.
use queue_c.Base.{
  ℕ, ◌+◌, ◌≡◌, ◌≢◌, ◌≤◌, ◌<◌, ◌⊎◌, refl, ap, subst, ◌∙◌, inl, inr, true, List, [], arith, length,
  leb, pos, eqb_false,
}
use native.Mathlib.Decide.{dec_lt}
use queue_c.Protocol.{Host}
use queue_c.UnitPool.Units.{unit-le}
use queue_c.PsistFile.{
  poke, slice, number_at, File, FileInfo, MsgInfo, msginfo_hton, msginfo_ntoh, msginfo_memory,
  msginfo_at, MsgRecord, PsistFile, record_size, offset_of, file_size, append, remove, file_seek,
  file_write,
}
use queue_c.PsistFile.Bytes.{
  poke_in, poke_out, slice-congr, slice-poke, length-msginfo_memory, read_head,
}

-- The head of a record, and the first bytes of its body.
abbrev pub head_of : Host → PsistFile → ℕ → MsgInfo
head_of host q k = msginfo_ntoh host (msginfo_at host q.file.bytes (offset_of q.info k))

abbrev pub body_of : PsistFile → ℕ → (n : ℕ) → List ℕ
body_of q k n = slice q.file.bytes (offset_of q.info k + 12) n

-- The file is as long as its head says.
pub record IsStore (q : PsistFile) : Type 0 where
  pub some_records : 0 < q.info.msgcount_limit
  pub size : q.file.size ≡ file_size q.info

-- A write inside the file.
write_inside :
    (f : File) (p : ℕ) (bs : List ℕ)
    → p + length bs ≤ f.size
    → file_write (file_seek f p) bs
      ≡ (length bs, record { bytes = poke f.bytes p bs; size = f.size; position = p + length bs })
unfolding file_write file_seek
write_inside f p bs h = let fits : leb (p + length bs) f.size ≡ true = ground arith in rw fits

-- A record lies inside the file.
pub inside :
    (i : FileInfo) (k : ℕ) → k < i.msgcount_limit → offset_of i k + record_size i ≤ file_size i
inside i k h =
    subst (λ n. offset_of i k + record_size i ≤ 16 + n) (omega arith)
      (unit-le 16 (record_size i) k i.msgcount_limit h)

-- The bytes of another record.
pub apart :
    (i : FileInfo) (k id n : ℕ)
    → k ≢ id
    → n < record_size i
    → (offset_of i k + n < offset_of i id) ⊎ (offset_of i id + record_size i ≤ offset_of i k + n)
apart i k id n ne h = elim (dec_lt k id) [
  | yes below ↦ inl (omega (arith, unit-le 16 (record_size i) k id below))
  | no above ↦ inr (omega (arith, unit-le 16 (record_size i) id k (omega arith)))
]

number_at-congr :
    (host : Host) (a b : ℕ → ℕ) (o : ℕ)
    → ((i : ℕ) → i < 4 → a (o + i) ≡ b (o + i))
    → number_at host a o ≡ number_at host b o
number_at-congr host a b o h =
    let first : a o ≡ b o = subst (λ k. a k ≡ b k) {x = o + 0} (omega arith) (h 0 (omega arith)) in
    rw (first, h 1 (omega arith), h 2 (omega arith), h 3 (omega arith))

head-congr :
    (host : Host) (a b : ℕ → ℕ) (o : ℕ)
    → ((i : ℕ) → i < 12 → a (o + i) ≡ b (o + i))
    → msginfo_at host a o ≡ msginfo_at host b o
head-congr host a b o h = rw (
  number_at-congr host a b o (λ i lt. h i (omega arith)),
  number_at-congr host a b (o + 4)
      (λ i lt. subst (λ k. a k ≡ b k) {x = o + (4 + i)} (omega arith) (h (4 + i) (omega arith))),
  number_at-congr host a b (o + 8)
      (λ i lt. subst (λ k. a k ≡ b k) {x = o + (8 + i)} (omega arith) (h (8 + i) (omega arith))),
)

-- A change outside a record leaves it.
module _ (host : Host) (q : PsistFile) (f : File) (k id : ℕ) (ne : k ≢ id)
    (same : (j : ℕ)
      → (j < offset_of q.info id) ⊎ (offset_of q.info id + record_size q.info ≤ j)
      → f.bytes j ≡ q.file.bytes j) where
  head_kept : head_of host (record q { file = f }) k ≡ head_of host q k
  head_kept = ap (msginfo_ntoh host) (
      head-congr host f.bytes q.file.bytes (offset_of q.info k)
        (λ i h. same (offset_of q.info k + i) (apart q.info k id i ne (omega arith))))

  body_kept :
      (n : ℕ) → n ≤ q.info.msgbuff_size → body_of (record q { file = f }) k n ≡ body_of q k n
  body_kept n le = slice-congr f.bytes q.file.bytes (offset_of q.info k + 12) n (λ i h.
      subst (λ j. f.bytes j ≡ q.file.bytes j) {x = offset_of q.info k + (12 + i)} (omega arith)
        (same (offset_of q.info k + (12 + i)) (apart q.info k id (12 + i) ne (omega arith))))

-- The record `id` of the file has become `head` and `body`, and no other record has changed.
pub record Changes (host : Host) (q q' : PsistFile) (id : ℕ) (head : MsgInfo) (body : List ℕ)
    : Type 0 where
  pub info : q'.info ≡ q.info
  pub size : q'.file.size ≡ q.file.size
  pub head_is : head_of host q' id ≡ head
  pub body_is : body_of q' id (length body) ≡ body
  pub heads : (k : ℕ) → k ≢ id → head_of host q' k ≡ head_of host q k
  pub bodies : (k n : ℕ) → k ≢ id → n ≤ q.info.msgbuff_size → body_of q' k n ≡ body_of q k n

-- A message whose number is one of the file's, and which fits its record.
pub record RecordFits (q : PsistFile) (r : MsgRecord) : Type 0 where
  pub number : r.persist_id < q.info.msgcount_limit
  pub buffer : length r.buff ≡ r.bufflen
  pub not_empty : 0 < r.bufflen
  pub room : r.bufflen ≤ q.info.msgbuff_size
  pub width : r.bufflen < 4294967296
  pub priority : r.priority < 4294967296

module _ (host : Host) (q : PsistFile) (r : MsgRecord) (v : IsStore q) (w : RecordFits q r) where
  abbrev pub head : MsgInfo
  head = record { flag = 1; priority = r.priority; bufflen = r.bufflen }

  abbrev o : ℕ
  o = offset_of q.info r.persist_id

  abbrev with_body : ℕ → ℕ
  with_body = poke q.file.bytes (o + 12) r.buff

  abbrev head_bytes : List ℕ
  head_bytes = msginfo_memory host (msginfo_hton host head)

  abbrev with_head : ℕ → ℕ
  with_head = poke with_body o head_bytes

  abbrev appended : PsistFile
  appended = record q {
    file = record { bytes = with_head; size = q.file.size; position = o + length head_bytes };
  }

  append-eq-appended : append host q r ≡ (pos 0, appended)
  unfolding append
  append-eq-appended =
      let end : o + record_size q.info ≤ q.file.size =
        omega (arith, v.size, inside q.info r.persist_id w.number) in
      let f : File = record q.file { bytes = with_body; position = o + 12 + length r.buff } in
      rw (
        write_inside q.file (o + 12) r.buff (omega (arith, w.buffer, w.room)),
        write_inside f o head_bytes
            (omega (arith, length-msginfo_memory host (msginfo_hton host head))),
        eqb_false (length r.buff) 0 (λ e. omega (arith, w.buffer, w.not_empty)),
      )

  beyond :
      (j skip n : ℕ)
      → skip + n ≤ record_size q.info
      → (j < o) ⊎ (o + record_size q.info ≤ j)
      → (j < o + skip) ⊎ (o + skip + n ≤ j)
  beyond j skip n le (inl h) = inl (omega arith)
  beyond j skip n le (inr h) = inr (omega arith)

  outside : (j : ℕ) → (j < o) ⊎ (o + record_size q.info ≤ j) → with_head j ≡ q.file.bytes j
  outside j h =
      let short : length head_bytes ≡ 12 = length-msginfo_memory host (msginfo_hton host head) in
      poke_out with_body o head_bytes j (
        subst (λ k. (j < k) ⊎ (k + length head_bytes ≤ j)) {x = o + 0} (omega arith)
          (beyond j 0 (length head_bytes) (omega arith) h))
      ∙ poke_out q.file.bytes (o + 12) r.buff j
          (beyond j 12 (length r.buff) (omega (arith, w.buffer, w.room)) h)

  -- On a file as long as its head says, appending a message that fits its record returns 0 and
  -- changes that record only: its head has the priority and the length in the order of the network,
  -- its body the bytes, the heads and bodies of all the other records are what they were, and the
  -- file does not grow.
  pub append-Changes :
      (q' : PsistFile) × (append host q r ≡ (pos 0, q'))
      × Changes host q q' r.persist_id head r.buff
  append-Changes = (
    appended,
    append-eq-appended,
    record {
      info = refl;
      size = refl;
      head_is =
          read_head host with_head o head
            (record { flag = omega arith; priority = w.priority; bufflen = w.width })
            (λ k h.
              poke_in with_body o _ k
                (omega (arith, length-msginfo_memory host (msginfo_hton host head))));
      body_is =
          slice-congr with_head with_body (o + 12) (length r.buff) (λ i h.
            poke_out with_body o head_bytes (o + 12 + i)
              (inr (omega (arith, length-msginfo_memory host (msginfo_hton host head)))))
          ∙ slice-poke q.file.bytes (o + 12) r.buff;
      heads = λ k ne. head_kept host q appended.file k r.persist_id ne outside;
      bodies = λ k n ne le. body_kept host q appended.file k r.persist_id ne outside n le;
    },
  )

-- The head of a record that is not in use.
abbrev pub unused : MsgInfo
unused = record { flag = 0; priority = 0; bufflen = 0 }

module _ (host : Host) (q : PsistFile) (id : ℕ) (v : IsStore q)
    (lt : id < q.info.msgcount_limit) where
  abbrev unused_bytes : List ℕ
  unused_bytes = msginfo_memory host (msginfo_hton host unused)

  abbrev removed : PsistFile
  removed = record q {
    file = record {
      bytes = poke q.file.bytes (offset_of q.info id) unused_bytes;
      size = q.file.size;
      position = offset_of q.info id + length unused_bytes;
    };
  }

  remove-eq-removed : remove host q id ≡ (pos 0, removed)
  unfolding remove
  remove-eq-removed = rw (
      write_inside q.file (offset_of q.info id) unused_bytes (
        omega (
          arith,
          v.size,
          inside q.info id lt,
          length-msginfo_memory host (msginfo_hton host unused),
        )))

  kept_outside :
      (j : ℕ)
      → (j < offset_of q.info id) ⊎ (offset_of q.info id + record_size q.info ≤ j)
      → removed.file.bytes j ≡ q.file.bytes j
  kept_outside j (inl h) = poke_out q.file.bytes (offset_of q.info id) unused_bytes j (inl h)
  kept_outside j (inr h) =
      poke_out q.file.bytes (offset_of q.info id) unused_bytes j
        (inr (omega (arith, length-msginfo_memory host (msginfo_hton host unused))))

  pub remove-Changes :
      (q' : PsistFile) × (remove host q id ≡ (pos 0, q')) × Changes host q q' id unused []
  remove-Changes = (
    removed,
    remove-eq-removed,
    record {
      info = refl;
      size = refl;
      head_is =
          read_head host removed.file.bytes (offset_of q.info id) unused
            (record { flag = omega arith; priority = omega arith; bufflen = omega arith })
            (λ k h.
              poke_in q.file.bytes (offset_of q.info id) unused_bytes k
                (omega (arith, length-msginfo_memory host (msginfo_hton host unused))));
      body_is = refl;
      heads = λ k ne. head_kept host q removed.file k id ne kept_outside;
      bodies = λ k n ne le. body_kept host q removed.file k id ne kept_outside n le;
    },
  )
