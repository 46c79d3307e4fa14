-- ===== src/Protocol/Memory.antt =====
-- src/qc_net/qc_protocol.h: the packed structures in the memory of a host, read from bytes. `none`
-- is a read past their end.
use queue_c.Base.{
  ℕ, zero, suc, ◌+◌, ◌*◌, ◌≡◌, ◌<◌, refl, ap, sym, ◌∙◌, Option, none, some, List, [], ◌∷◌, ◌++◌,
  ◌>>=◌, arith, length, length-append,
}
use mathlib.Core.List.{append_assoc, append-nil}
use queue_c.Protocol.{
  Host, little, big, htons, htonl, Head, MsgPut, MsgGet, Reply, head_hton, msgput_hton, msgget_hton,
  reply_hton,
}
use queue_c.Protocol.Order.{
  memory16, memory32, wire16, wire32, head_memory, head_memory-head_hton, HeadFits, MsgPutFits,
  memory16-htons, memory32-htonl,
}

abbrev pub read16 : Host → List ℕ → Option (ℕ × List ℕ)
read16 little (a ∷ b ∷ bs) = some (a + 256 * b, bs)
read16 big (a ∷ b ∷ bs) = some (b + 256 * a, bs)
read16 _ _ = none

abbrev pub read32 : Host → List ℕ → Option (ℕ × List ℕ)
read32 little (a ∷ b ∷ c ∷ d ∷ bs) = some (a + 256 * b + 65536 * c + 16777216 * d, bs)
read32 big (a ∷ b ∷ c ∷ d ∷ bs) = some (d + 256 * c + 65536 * b + 16777216 * a, bs)
read32 _ _ = none

abbrev pub read_bytes : ℕ → List ℕ → Option (List ℕ × List ℕ)
read_bytes zero bs = some ([], bs)
read_bytes (suc n) [] = none
read_bytes (suc n) (b ∷ bs) = do (xs, rest) ← read_bytes n bs; some (b ∷ xs, rest)

unfoldable pub head_at : Host → List ℕ → Option Head
head_at host m0 = do
  (protocol, m1) ← read16 host m0
  (version, m2) ← read16 host m1
  (type, m3) ← read16 host m2
  (packsn, m4) ← read32 host m3
  (body_len, m5) ← read32 host m4
  (reserve, m6) ← read_bytes 16 m5
  some (record {
    protocol = protocol;
    version = version;
    type = type;
    packsn = packsn;
    body_len = body_len;
    reserve = reserve;
  })

-- And the bytes behind the structure.
unfoldable pub msgput_at : Host → List ℕ → Option (MsgPut × List ℕ)
msgput_at host m0 = do
  (qname, m1) ← read_bytes 32 m0
  (wait_msec, m2) ← read32 host m1
  (msg_prioriy, m3) ← read16 host m2
  (msg_len, m4) ← read32 host m3
  some (
    record { qname = qname; wait_msec = wait_msec; msg_prioriy = msg_prioriy; msg_len = msg_len },
    m4,
  )

unfoldable pub msgget_at : Host → List ℕ → Option MsgGet
msgget_at host m0 = do
  (qname, m1) ← read_bytes 32 m0
  (wait_msec, m2) ← read32 host m1
  some (record { qname = qname; wait_msec = wait_msec })

unfoldable pub reply_at : Host → List ℕ → Option Reply
reply_at host m0 = do
  (result, m1) ← read32 host m0
  (msg_len, m2) ← read32 host m1
  some (record { result = result; msg_len = msg_len })

abbrev pub msgput_memory : Host → MsgPut → List ℕ
msgput_memory host p =
    p.qname
    ++ (memory32 host p.wait_msec ++ (memory16 host p.msg_prioriy ++ memory32 host p.msg_len))

abbrev pub msgget_memory : Host → MsgGet → List ℕ
msgget_memory host g = g.qname ++ memory32 host g.wait_msec

abbrev pub reply_memory : Host → Reply → List ℕ
reply_memory host r = memory32 host r.result ++ memory32 host r.msg_len

read16-wire :
    (host : Host) (x : ℕ) (bs : List ℕ)
    → x < 65536
    → read16 host (wire16 x ++ bs) ≡ some (htons host x, bs)
unfolding htons
read16-wire little x bs h = ap (λ n. some (n, bs)) (omega arith)
read16-wire big x bs h = ap (λ n. some (n, bs)) (omega arith)

read32-wire :
    (host : Host) (x : ℕ) (bs : List ℕ)
    → x < 4294967296
    → read32 host (wire32 x ++ bs) ≡ some (htonl host x, bs)
unfolding htonl
read32-wire little x bs h = ap (λ n. some (n, bs)) (omega arith)
read32-wire big x bs h = ap (λ n. some (n, bs)) (omega arith)

pub read_bytes-append :
    (n : ℕ) (xs ys : List ℕ) → length xs ≡ n → read_bytes n (xs ++ ys) ≡ some (xs, ys)
read_bytes-append zero [] ys e = refl
read_bytes-append zero (x ∷ xs) ys e = absurd (omega arith)
read_bytes-append (suc n) [] ys e = absurd (omega arith)
read_bytes-append (suc n) (x ∷ xs) ys e = rw (read_bytes-append n xs ys (omega arith)) refl

pub read_bytes-all : (n : ℕ) (xs : List ℕ) → length xs ≡ n → read_bytes n xs ≡ some (xs, [])
read_bytes-all n xs e = ap (read_bytes n) (sym (append-nil xs)) ∙ read_bytes-append n xs [] e

-- A header sent by a host of one byte order is read by a host of another.
pub head_at-head_memory :
    (c s : Host) (h : Head)
    → HeadFits h
    → length h.reserve ≡ 16
    → head_at s (head_memory c (head_hton c h)) ≡ some (head_hton s h)
unfolding head_at head_hton
head_at-head_memory c s h f l =
    ap (head_at s) (head_memory-head_hton c h)
    ∙ rw
        (
          read16-wire s h.protocol _ f.protocol,
          read16-wire s h.version _ f.version,
          read16-wire s h.type _ f.type,
          read32-wire s h.packsn _ f.packsn,
          read32-wire s h.body_len _ f.body_len,
          read_bytes-all 16 h.reserve l,
        )
        refl

-- So it is with the body of a put, and the message's bytes behind it,
pub msgput_at-msgput_memory :
    (c s : Host) (p : MsgPut) (bs : List ℕ)
    → MsgPutFits p
    → length p.qname ≡ 32
    → msgput_at s (msgput_memory c (msgput_hton c p) ++ bs) ≡ some (msgput_hton s p, bs)
unfolding msgput_at msgput_hton
msgput_at-msgput_memory c s p bs f l =
    rw
      (
        memory32-htonl c p.wait_msec,
        memory16-htons c p.msg_prioriy,
        memory32-htonl c p.msg_len,
        append_assoc p.qname (wire32 p.wait_msec ++ (wire16 p.msg_prioriy ++ wire32 p.msg_len)) bs,
        read_bytes-append 32 p.qname
            ((wire32 p.wait_msec ++ (wire16 p.msg_prioriy ++ wire32 p.msg_len)) ++ bs) l,
        read32-wire s p.wait_msec ((wire16 p.msg_prioriy ++ wire32 p.msg_len) ++ bs) f.wait_msec,
        read16-wire s p.msg_prioriy (wire32 p.msg_len ++ bs) f.msg_prioriy,
        read32-wire s p.msg_len bs f.msg_len,
      )
      refl

-- with that of a get,
pub msgget_at-msgget_memory :
    (c s : Host) (g : MsgGet)
    → g.wait_msec < 4294967296
    → length g.qname ≡ 32
    → msgget_at s (msgget_memory c (msgget_hton c g)) ≡ some (msgget_hton s g)
unfolding msgget_at msgget_hton
msgget_at-msgget_memory c s g w l =
    rw
      (
        memory32-htonl c g.wait_msec,
        read_bytes-append 32 g.qname (wire32 g.wait_msec) l,
        read32-wire s g.wait_msec [] w,
      )
      refl

-- and with a reply.
pub reply_at-reply_memory :
    (c s : Host) (r : Reply)
    → r.result < 4294967296
    → r.msg_len < 4294967296
    → reply_at s (reply_memory c (reply_hton c r)) ≡ some (reply_hton s r)
unfolding reply_at reply_hton
reply_at-reply_memory c s r f l =
    rw
      (
        memory32-htonl c r.result,
        memory32-htonl c r.msg_len,
        read32-wire s r.result (wire32 r.msg_len) f,
        read32-wire s r.msg_len [] l,
      )
      refl

pub length-head_memory :
    (host : Host) (h : Head) → length h.reserve ≡ 16 → length (head_memory host h) ≡ 30
length-head_memory little h l =
    ap (λ n. suc (suc (suc (suc (suc (suc (suc (suc (suc (suc (suc (suc (suc (suc n)))))))))))))) l
length-head_memory big h l =
    ap (λ n. suc (suc (suc (suc (suc (suc (suc (suc (suc (suc (suc (suc (suc (suc n)))))))))))))) l

pub length-reply_memory : (host : Host) (r : Reply) → length (reply_memory host r) ≡ 8
length-reply_memory little r = refl
length-reply_memory big r = refl

length-msgput_rest :
    (host : Host) (a b c : ℕ)
    → length (memory32 host a ++ (memory16 host b ++ memory32 host c)) ≡ 10
length-msgput_rest little a b c = refl
length-msgput_rest big a b c = refl

pub length-msgput_memory :
    (host : Host) (p : MsgPut) → length p.qname ≡ 32 → length (msgput_memory host p) ≡ 42
length-msgput_memory host p l =
    length-append p.qname _
    ∙ omega (arith, l, length-msgput_rest host p.wait_msec p.msg_prioriy p.msg_len)

-- A header in the order of any host is read as some header.
pub head_at-some :
    (c s : Host) (h : Head)
    → length h.reserve ≡ 16
    → (h' : Head) × (head_at c (head_memory s h) ≡ some h')
unfolding head_at
head_at-some little little h l = rw (read_bytes-all 16 h.reserve l) (_, refl)
head_at-some little big h l = rw (read_bytes-all 16 h.reserve l) (_, refl)
head_at-some big little h l = rw (read_bytes-all 16 h.reserve l) (_, refl)
head_at-some big big h l = rw (read_bytes-all 16 h.reserve l) (_, refl)
