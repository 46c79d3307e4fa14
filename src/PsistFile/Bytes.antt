-- ===== src/PsistFile/Bytes.antt =====
-- Bytes written and read.
use queue_c.Base.{
  ℕ, zero, suc, ◌+◌, ◌/◌, ◌%◌, ◌≡◌, ap₂, ◌≤◌, ◌<◌, ◌⊎◌, refl, ap, subst, ◌∙◌, inl, inr, true, false,
  List, [], ◌∷◌, ◌++◌, arith, length, ltb, leb, lt→ltb, ltb-false,
}
use queue_c.Protocol.{Host, little, big}
use queue_c.Protocol.Order.{memory32, ntohl-htonl, htonl-lt, join-digits_back}
use queue_c.PsistFile.{
  nth, poke, slice, number_at, MsgInfo, msginfo_hton, msginfo_ntoh, msginfo_memory, msginfo_at,
  FileInfo, fileinfo_hton, fileinfo_ntoh, fileinfo_memory, fileinfo_at,
}

pub poke_in :
    (b : ℕ → ℕ) (o : ℕ) (xs : List ℕ) (i : ℕ) → i < length xs → poke b o xs (o + i) ≡ nth xs i
poke_in b o xs i h =
    let low : leb o (o + i) ≡ true = ground arith in
    let high : ltb (o + i) (o + length xs) ≡ true = lt→ltb _ _ (omega arith) in
    rw (low, high) (ap (nth xs) (omega arith))

pub poke_out :
    (b : ℕ → ℕ) (o : ℕ) (xs : List ℕ) (k : ℕ) → (k < o) ⊎ (o + length xs ≤ k) → poke b o xs k ≡ b k
poke_out b o xs k (inl h) = let low : leb o k ≡ false = ground arith in rw low
poke_out b o xs k (inr h) =
    let low : leb o k ≡ true = ground arith in
    let high : ltb k (o + length xs) ≡ false = ltb-false _ _ h in rw (low, high)

pub slice-congr :
    (a b : ℕ → ℕ) (o n : ℕ) → ((i : ℕ) → i < n → a (o + i) ≡ b (o + i)) → slice a o n ≡ slice b o n
slice-congr a b o zero h = refl
slice-congr a b o (suc n) h =
    ap₂ (λ (x : ℕ) l. x ∷ l) (subst (λ k. a k ≡ b k) {x = o + 0} (omega arith) (h 0 (omega arith)))
      (slice-congr a b (suc o) n
        (λ i lt. subst (λ k. a k ≡ b k) {x = o + suc i} (omega arith) (h (suc i) (omega arith))))

slice-eq :
    (f : ℕ → ℕ) (o : ℕ) (xs : List ℕ)
    → ((i : ℕ) → i < length xs → f (o + i) ≡ nth xs i)
    → slice f o (length xs) ≡ xs
slice-eq f o [] h = refl
slice-eq f o (x ∷ xs) h =
    ap₂ (λ (y : ℕ) l. y ∷ l) (subst (λ k. f k ≡ x) {x = o + 0} (omega arith) (h 0 (omega arith)))
      (slice-eq f (suc o) xs (λ i lt.
        subst (λ k. f k ≡ nth xs i) {x = o + suc i} (omega arith) (h (suc i) (omega arith))))

pub slice-poke : (b : ℕ → ℕ) (o : ℕ) (xs : List ℕ) → slice (poke b o xs) o (length xs) ≡ xs
slice-poke b o xs = slice-eq (poke b o xs) o xs (poke_in b o xs)

-- A number in the memory of the host is read back.
number-memory :
    (host : Host) (f : ℕ → ℕ) (y o : ℕ)
    → y < 4294967296
    → ((i : ℕ) → i < 4 → f (o + i) ≡ nth (memory32 host y) i)
    → number_at host f o ≡ y
number-memory little f y o h g =
    let first : f o ≡ y % 256 = ap f (omega arith) ∙ g 0 (omega arith) in
    rw (first, g 1 (omega arith), g 2 (omega arith), g 3 (omega arith)) (join-digits_back y h)
number-memory big f y o h g =
    let first : f o ≡ y / 16777216 % 256 = ap f (omega arith) ∙ g 0 (omega arith) in
    rw (first, g 1 (omega arith), g 2 (omega arith), g 3 (omega arith)) (join-digits_back y h)

nth-append_left : (xs ys : List ℕ) (i : ℕ) → i < length xs → nth (xs ++ ys) i ≡ nth xs i
nth-append_left [] ys i h = absurd (omega arith)
nth-append_left (x ∷ xs) ys zero h = refl
nth-append_left (x ∷ xs) ys (suc i) h = nth-append_left xs ys i (omega arith)

nth-append_right : (xs ys : List ℕ) (i : ℕ) → nth (xs ++ ys) (length xs + i) ≡ nth ys i
nth-append_right [] ys i = ap (nth ys) (omega arith)
nth-append_right (x ∷ xs) ys i =
    ap (nth (x ∷ (xs ++ ys))) {x = suc (length xs) + i} {y = suc (length xs + i)} (omega arith)
    ∙ nth-append_right xs ys i

length-memory32 : (host : Host) (x : ℕ) → length (memory32 host x) ≡ 4
length-memory32 little x = refl
length-memory32 big x = refl

pub length-msginfo_memory : (host : Host) (i : MsgInfo) → length (msginfo_memory host i) ≡ 12
length-msginfo_memory little i = refl
length-msginfo_memory big i = refl

-- The members fit an `int`.
pub record InfoFits (i : MsgInfo) : Type 0 where
  pub flag : i.flag < 4294967296
  pub priority : i.priority < 4294967296
  pub bufflen : i.bufflen < 4294967296

-- The bytes after a number.
after_number :
    (host : Host) (x : ℕ) (ys : List ℕ) (k : ℕ) → nth (memory32 host x ++ ys) (4 + k) ≡ nth ys k
after_number host x ys k =
    subst (λ n. nth (memory32 host x ++ ys) (n + k) ≡ nth ys k) (length-memory32 host x)
      (nth-append_right (memory32 host x) ys k)

in_number :
    (host : Host) (x : ℕ) (ys : List ℕ) (k : ℕ)
    → k < 4
    → nth (memory32 host x ++ ys) k ≡ nth (memory32 host x) k
in_number host x ys k h =
    nth-append_left (memory32 host x) ys k (omega (arith, length-memory32 host x))

-- A head is read back where it has been written.
msginfo-memory :
    (host : Host) (f : ℕ → ℕ) (o : ℕ) (i : MsgInfo)
    → InfoFits i
    → ((k : ℕ) → k < 12 → f (o + k) ≡ nth (msginfo_memory host i) k)
    → msginfo_at host f o ≡ i
msginfo-memory host f o i w g = rw (
  number-memory host f i.flag o w.flag (λ k h. g k (omega arith) ∙ in_number host i.flag _ k h),
  number-memory host f i.priority (o + 4) w.priority (λ k h.
      ap f {x = o + 4 + k} {y = o + (4 + k)} (omega arith)
      ∙ g (4 + k) (omega arith)
      ∙ after_number host i.flag _ k
      ∙ in_number host i.priority _ k h),
  number-memory host f i.bufflen (o + 8) w.bufflen (λ k h.
      ap f {x = o + 8 + k} {y = o + (4 + (4 + k))} (omega arith)
      ∙ g (4 + (4 + k)) (omega arith)
      ∙ after_number host i.flag _ (4 + k)
      ∙ after_number host i.priority _ k),
)

-- A head written in the order of the network is read back.
pub read_head :
    (host : Host) (f : ℕ → ℕ) (o : ℕ) (i : MsgInfo)
    → InfoFits i
    → ((k : ℕ) → k < 12 → f (o + k) ≡ nth (msginfo_memory host (msginfo_hton host i)) k)
    → msginfo_ntoh host (msginfo_at host f o) ≡ i
unfolding msginfo_hton msginfo_ntoh
read_head host f o i w g =
    ap (msginfo_ntoh host) (
      msginfo-memory host f o (msginfo_hton host i)
        (record {
          flag = htonl-lt host i.flag w.flag;
          priority = htonl-lt host i.priority w.priority;
          bufflen = htonl-lt host i.bufflen w.bufflen;
        })
        g)
    ∙ rw (
      ntohl-htonl host i.flag w.flag,
      ntohl-htonl host i.priority w.priority,
      ntohl-htonl host i.bufflen w.bufflen,
    )

-- The members fit an `int`.
pub record FileInfoFits (i : FileInfo) : Type 0 where
  pub identity : i.identity < 4294967296
  pub version : i.version < 4294967296
  pub msgbuff_size : i.msgbuff_size < 4294967296
  pub msgcount_limit : i.msgcount_limit < 4294967296

pub length-fileinfo_memory : (host : Host) (i : FileInfo) → length (fileinfo_memory host i) ≡ 16
length-fileinfo_memory little i = refl
length-fileinfo_memory big i = refl

fileinfo-memory :
    (host : Host) (f : ℕ → ℕ) (o : ℕ) (i : FileInfo)
    → FileInfoFits i
    → ((k : ℕ) → k < 16 → f (o + k) ≡ nth (fileinfo_memory host i) k)
    → fileinfo_at host f o ≡ i
fileinfo-memory host f o i w g = rw (
  number-memory host f i.identity o w.identity
      (λ k h. g k (omega arith) ∙ in_number host i.identity _ k h),
  number-memory host f i.version (o + 4) w.version (λ k h.
      ap f {x = o + 4 + k} {y = o + (4 + k)} (omega arith)
      ∙ g (4 + k) (omega arith)
      ∙ after_number host i.identity _ k
      ∙ in_number host i.version _ k h),
  number-memory host f i.msgbuff_size (o + 8) w.msgbuff_size (λ k h.
      ap f {x = o + 8 + k} {y = o + (4 + (4 + k))} (omega arith)
      ∙ g (4 + (4 + k)) (omega arith)
      ∙ after_number host i.identity _ (4 + k)
      ∙ after_number host i.version _ k
      ∙ in_number host i.msgbuff_size _ k h),
  number-memory host f i.msgcount_limit (o + 12) w.msgcount_limit (λ k h.
      ap f {x = o + 12 + k} {y = o + (4 + (4 + (4 + k)))} (omega arith)
      ∙ g (4 + (4 + (4 + k))) (omega arith)
      ∙ after_number host i.identity _ (4 + (4 + k))
      ∙ after_number host i.version _ (4 + k)
      ∙ after_number host i.msgbuff_size _ k),
)

pub fileinfo_ntoh-fileinfo_hton :
    (host : Host) (i : FileInfo) → FileInfoFits i → fileinfo_ntoh host (fileinfo_hton host i) ≡ i
unfolding fileinfo_ntoh fileinfo_hton
fileinfo_ntoh-fileinfo_hton host i w = rw (
  ntohl-htonl host i.identity w.identity,
  ntohl-htonl host i.version w.version,
  ntohl-htonl host i.msgbuff_size w.msgbuff_size,
  ntohl-htonl host i.msgcount_limit w.msgcount_limit,
)

-- The head of a file written in the order of the network is read back.
pub read_fileinfo :
    (host : Host) (f : ℕ → ℕ) (i : FileInfo)
    → FileInfoFits i
    → ((k : ℕ) → k < 16 → f (0 + k) ≡ nth (fileinfo_memory host (fileinfo_hton host i)) k)
    → fileinfo_ntoh host (fileinfo_at host f 0) ≡ i
unfolding fileinfo_hton
read_fileinfo host f i w g =
    ap (fileinfo_ntoh host) (
      fileinfo-memory host f 0 (fileinfo_hton host i)
        (record {
          identity = htonl-lt host i.identity w.identity;
          version = htonl-lt host i.version w.version;
          msgbuff_size = htonl-lt host i.msgbuff_size w.msgbuff_size;
          msgcount_limit = htonl-lt host i.msgcount_limit w.msgcount_limit;
        })
        g)
    ∙ fileinfo_ntoh-fileinfo_hton host i w
