-- ===== src/PsistFile/Open.antt =====
-- `qc_psist_file_open`: a new file, and one that is there.
use queue_c.Base.{
  ℕ, ◌+◌, ◌≡◌, ◌≢◌, ◌≤◌, ◌<◌, refl, ◌∙◌, inl, inr, true, ◌&&◌, none, some, List, ◌⊎◌, arith, length,
  ltb, leb, ◌==◌, lt→ltb, eqb_true, eqb_false, failed, Bool-cases,
}
use native.Mathlib.Decide.{ℕ_discrete}
use queue_c.Protocol.{Host, little, big, htonl, ntohl}
use queue_c.PsistFile.{
  poke, File, FileInfo, fileinfo_hton, fileinfo_ntoh, fileinfo_at, fileinfo_memory,
  fileinfo_compare, PsistFile, file_size, file_write, no_file, a_file, open_file,
}
use queue_c.PsistFile.Bytes.{
  poke_in, FileInfoFits, length-fileinfo_memory, read_fileinfo, fileinfo_ntoh-fileinfo_hton,
}
use queue_c.PsistFile.Records.{IsStore}
use queue_c.PsistFile.Fetch.{read_inside}

abbrev pub info_for : (msgbuff_size msgcount_limit : ℕ) → FileInfo
info_for msgbuff_size msgcount_limit = record {
  identity = 0;
  version = 1;
  msgbuff_size = msgbuff_size;
  msgcount_limit = msgcount_limit;
}

-- The bytes of a new file.
abbrev pub new_bytes : Host → FileInfo → ℕ → ℕ
new_bytes host i = poke (λ _. 0) 0 (fileinfo_memory host (fileinfo_hton host i))

-- The conversions are the same function.
hton_as_ntoh : (host : Host) (i : FileInfo) → fileinfo_hton host i ≡ fileinfo_ntoh host i
unfolding fileinfo_hton fileinfo_ntoh htonl ntohl
hton_as_ntoh little i = refl
hton_as_ntoh big i = refl

write_here :
    (f : File) (bs : List ℕ)
    → f.position + length bs ≤ f.size
    → file_write f bs ≡ (
      length bs,
      record {
        bytes = poke f.bytes f.position bs;
        size = f.size;
        position = f.position + length bs;
      },
    )
unfolding file_write
write_here f bs h = let fits : leb (f.position + length bs) f.size ≡ true = ground arith in rw fits

hton-hton :
    (host : Host) (i : FileInfo) → FileInfoFits i → fileinfo_hton host (fileinfo_hton host i) ≡ i
hton-hton host i w = hton_as_ntoh host (fileinfo_hton host i) ∙ fileinfo_ntoh-fileinfo_hton host i w

module _ (host : Host) (m l : ℕ) (w : FileInfoFits (info_for m l)) (some_room : 0 < m)
    (some_records : 0 < l) where
  abbrev i : FileInfo
  i = info_for m l

  abbrev made : PsistFile
  made = record {
    info = i;
    file = record { bytes = new_bytes host i; size = file_size i; position = 16 };
  }

  pub open-made : open_file host m l no_file ≡ some made
  unfolding open_file
  open-made =
      let long = length-fileinfo_memory host (fileinfo_hton host i) in
      rw (
        lt→ltb 0 m some_room,
        lt→ltb 0 l some_records,
        write_here (record { bytes = λ _. 0; size = file_size i; position = 0 })
            (fileinfo_memory host (fileinfo_hton host i)) (omega arith),
        hton-hton host i w,
        long,
      )

  read_back : fileinfo_ntoh host (fileinfo_at host (new_bytes host i) 0) ≡ i
  read_back = read_fileinfo host (new_bytes host i) i w (λ k h.
      poke_in (λ _. 0) 0 (fileinfo_memory host (fileinfo_hton host i)) k
        (omega (arith, length-fileinfo_memory host (fileinfo_hton host i))))

  reopen : open_file host m l (a_file (new_bytes host i) (file_size i)) ≡ some made
  unfolding open_file fileinfo_compare
  reopen = rw (
    lt→ltb 0 m some_room,
    lt→ltb 0 l some_records,
    eqb_true (file_size i) (file_size i) refl,
    read_inside (record { bytes = new_bytes host i; size = file_size i; position = 0 }) 16
        (omega arith),
    read_back,
    eqb_true m m refl,
    eqb_true l l refl,
  )

  -- With sizes above 0 that fit an `int`, a file that is not there is made as long as its head
  -- says, and opened again with the same sizes it is accepted with the same bytes and head.
  pub open-no_file :
      (q : PsistFile) × (open_file host m l no_file ≡ some q)
      × IsStore q
      × (q.info ≡ i)
      × (open_file host m l (a_file q.file.bytes q.file.size) ≡ some q)
  open-no_file =
      (made, open-made, record { some_records = some_records; size = refl }, refl, reopen)

  compare_differs : (m' l' : ℕ) → (m ≢ m') ⊎ (l ≢ l') → fileinfo_compare i (info_for m' l') ≡ failed
  unfolding fileinfo_compare
  compare_differs m' l' d = elim (ℕ_discrete m m') [
    | no ne ↦ rw (eqb_false m m' ne)
    | yes same ↦ rw (eqb_true m m' same, eqb_false l l' (other_limit same d))
  ]
    where
      other_limit : {m' l' : ℕ} → m ≡ m' → (m ≢ m') ⊎ (l ≢ l') → l ≢ l'
      other_limit same (inl ne) = absurd (ne same)
      other_limit same (inr ne) = ne

  -- A new file, made with sizes above 0 that fit an `int`, is refused when it is opened with
  -- another buffer size or another limit.
  pub reopen-none :
      (m' l' : ℕ)
      → (m ≢ m') ⊎ (l ≢ l')
      → open_file host m' l' (a_file (new_bytes host i) (file_size i)) ≡ none
  unfolding open_file
  reopen-none m' l' d = elim (Bool-cases (ltb 0 m' && ltb 0 l')) [
    | inr bad ↦ rw bad
    | inl good ↦ elim (Bool-cases (file_size i == file_size (info_for m' l'))) [
      | inr other ↦ rw (good, other)
      | inl same ↦ rw (
        good,
        same,
        read_inside (record { bytes = new_bytes host i; size = file_size i; position = 0 }) 16
            (omega arith),
        read_back,
        compare_differs m' l' d,
      )
    ]
  ]
