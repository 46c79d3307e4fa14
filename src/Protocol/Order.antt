-- ===== src/Protocol/Order.antt =====
-- The byte order of the packets.
use queue_c.Base.{ap, ℕ, ◌+◌, ◌*◌, ◌/◌, ◌%◌, ◌≡◌, ◌<◌, refl, ap₂, ◌∙◌, List, [], ◌∷◌, ◌++◌, arith}
use queue_c.Protocol.{
  Host, little, big, swap16, swap32, htons, ntohs, htonl, ntohl, Head, MsgPut, MsgGet, Reply,
  head_hton, head_ntoh, msgput_hton, msgput_ntoh, msgget_hton, msgget_ntoh, reply_hton, reply_ntoh,
}

swap16-swap16 : (x : ℕ) → x < 65536 → swap16 (swap16 x) ≡ x
swap16-swap16 x h = omega arith

-- The number of four bytes, the first the lowest.
abbrev join : ℕ → ℕ → ℕ → ℕ → ℕ
join a b c d = a + 256 * b + 65536 * c + 16777216 * d

swap32-join :
    (a b c d : ℕ) → a < 256 → b < 256 → c < 256 → d < 256 → swap32 (join a b c d) ≡ join d c b a
swap32-join a b c d ha hb hc hd =
    let b0 : join a b c d % 256 ≡ a = omega arith in
    let b1 : join a b c d / 256 % 256 ≡ b = omega arith in
    let b2 : join a b c d / 65536 % 256 ≡ c = omega arith in
    let b3 : join a b c d / 16777216 % 256 ≡ d = omega arith in rw (b0, b1, b2, b3) (omega arith)

join-digits :
    (x : ℕ)
    → x < 4294967296
    → join (x % 256) (x / 256 % 256) (x / 65536 % 256) (x / 16777216 % 256) ≡ x
join-digits x h = omega arith

swap32-as-join :
    (x : ℕ) → swap32 x ≡ join (x / 16777216 % 256) (x / 65536 % 256) (x / 256 % 256) (x % 256)
swap32-as-join x = omega arith

swap32-swap32 : (x : ℕ) → x < 4294967296 → swap32 (swap32 x) ≡ x
swap32-swap32 x h =
    ap swap32 (swap32-as-join x)
    ∙ swap32-join (x / 16777216 % 256) (x / 65536 % 256) (x / 256 % 256) (x % 256) (omega arith)
        (omega arith) (omega arith) (omega arith)
    ∙ join-digits x h

pub ntohs-htons : (host : Host) (x : ℕ) → x < 65536 → ntohs host (htons host x) ≡ x
unfolding ntohs htons
ntohs-htons little x h = swap16-swap16 x h
ntohs-htons big x h = refl

pub ntohl-htonl : (host : Host) (x : ℕ) → x < 4294967296 → ntohl host (htonl host x) ≡ x
unfolding ntohl htonl
ntohl-htonl little x h = swap32-swap32 x h
ntohl-htonl big x h = refl

pub htonl-lt : (host : Host) (x : ℕ) → x < 4294967296 → htonl host x < 4294967296
unfolding htonl
htonl-lt little x h = omega arith
htonl-lt big x h = h

-- A number is that of its bytes.
pub join-digits_back :
    (x : ℕ)
    → x < 4294967296
    → x % 256 + 256 * (x / 256 % 256) + 65536 * (x / 65536 % 256) + 16777216 * (x / 16777216 % 256)
      ≡ x
join-digits_back x h = join-digits x h

-- The fields are as wide as the packets declare them.
pub record HeadFits (h : Head) : Type 0 where
  pub protocol : h.protocol < 65536
  pub version : h.version < 65536
  pub type : h.type < 65536
  pub packsn : h.packsn < 4294967296
  pub body_len : h.body_len < 4294967296

pub record MsgPutFits (p : MsgPut) : Type 0 where
  pub wait_msec : p.wait_msec < 4294967296
  pub msg_prioriy : p.msg_prioriy < 65536
  pub msg_len : p.msg_len < 4294967296

-- For a header whose fields fit their widths, `head_ntoh` undoes `head_hton`.
pub head_ntoh-head_hton :
    (host : Host) (h : Head) → HeadFits h → head_ntoh host (head_hton host h) ≡ h
unfolding head_ntoh head_hton
head_ntoh-head_hton host h f = rw (
  ntohs-htons host h.protocol f.protocol,
  ntohs-htons host h.version f.version,
  ntohs-htons host h.type f.type,
  ntohl-htonl host h.packsn f.packsn,
  ntohl-htonl host h.body_len f.body_len,
)

-- For the bodies of a put, a get and a reply whose fields fit their widths, the conversion from
-- network order undoes the conversion to it.
pub bodies_ntoh-hton :
    (host : Host) (p : MsgPut) (g : MsgGet) (r : Reply)
    → MsgPutFits p
    → g.wait_msec < 4294967296
    → r.result < 4294967296
    → r.msg_len < 4294967296
    → (msgput_ntoh host (msgput_hton host p) ≡ p)
      × (msgget_ntoh host (msgget_hton host g) ≡ g)
      × (reply_ntoh host (reply_hton host r) ≡ r)
unfolding msgput_ntoh msgput_hton msgget_ntoh msgget_hton reply_ntoh reply_hton
bodies_ntoh-hton host p g r f w s l = (
  rw (
    ntohs-htons host p.msg_prioriy f.msg_prioriy,
    ntohl-htonl host p.wait_msec f.wait_msec,
    ntohl-htonl host p.msg_len f.msg_len,
  ),
  rw (ntohl-htonl host g.wait_msec w),
  rw (ntohl-htonl host r.result s, ntohl-htonl host r.msg_len l),
)

-- The bytes of a number in memory, and on the network.
abbrev pub memory16 : Host → ℕ → List ℕ
memory16 little x = x % 256 ∷ x / 256 % 256 ∷ []
memory16 big x = x / 256 % 256 ∷ x % 256 ∷ []

abbrev pub memory32 : Host → ℕ → List ℕ
memory32 little x = x % 256 ∷ x / 256 % 256 ∷ x / 65536 % 256 ∷ x / 16777216 % 256 ∷ []
memory32 big x = x / 16777216 % 256 ∷ x / 65536 % 256 ∷ x / 256 % 256 ∷ x % 256 ∷ []

abbrev pub wire16 : ℕ → List ℕ
wire16 x = x / 256 % 256 ∷ x % 256 ∷ []

abbrev pub wire32 : ℕ → List ℕ
wire32 x = x / 16777216 % 256 ∷ x / 65536 % 256 ∷ x / 256 % 256 ∷ x % 256 ∷ []

pub memory16-htons : (host : Host) (x : ℕ) → memory16 host (htons host x) ≡ wire16 x
unfolding htons
memory16-htons little x =
    let low : swap16 x % 256 ≡ x / 256 % 256 = omega arith in
    let high : swap16 x / 256 % 256 ≡ x % 256 = omega arith in rw (low, high)
memory16-htons big x = refl

join-low :
    (a b c d : ℕ)
    → a < 256
    → b < 256
    → c < 256
    → d < 256
    → memory32 little (join a b c d) ≡ a ∷ b ∷ c ∷ d ∷ []
join-low a b c d ha hb hc hd =
    let b0 : join a b c d % 256 ≡ a = omega arith in
    let b1 : join a b c d / 256 % 256 ≡ b = omega arith in
    let b2 : join a b c d / 65536 % 256 ≡ c = omega arith in
    let b3 : join a b c d / 16777216 % 256 ≡ d = omega arith in rw (b0, b1, b2, b3)

pub memory32-htonl : (host : Host) (x : ℕ) → memory32 host (htonl host x) ≡ wire32 x
unfolding htonl
memory32-htonl little x =
    ap (memory32 little) (swap32-as-join x)
    ∙ join-low (x / 16777216 % 256) (x / 65536 % 256) (x / 256 % 256) (x % 256) (omega arith)
        (omega arith) (omega arith) (omega arith)
memory32-htonl big x = refl

-- The packed structure in memory, and what goes over the network.
abbrev pub head_memory : Host → Head → List ℕ
head_memory host h =
    memory16 host h.protocol
    ++ (memory16 host h.version
        ++ (memory16 host h.type
            ++ (memory32 host h.packsn ++ (memory32 host h.body_len ++ h.reserve))))

abbrev pub head_wire : Head → List ℕ
head_wire h =
    wire16 h.protocol
    ++ (wire16 h.version
        ++ (wire16 h.type ++ (wire32 h.packsn ++ (wire32 h.body_len ++ h.reserve))))

-- After `head_hton` the packed header in the memory of a host of either byte order is the header in
-- network byte order.
pub head_memory-head_hton :
    (host : Host) (h : Head) → head_memory host (head_hton host h) ≡ head_wire h
unfolding head_hton
head_memory-head_hton host h = ap₂ ◌++◌ (memory16-htons host h.protocol) (
    ap₂ ◌++◌ (memory16-htons host h.version) (
      ap₂ ◌++◌ (memory16-htons host h.type) (
        ap₂ ◌++◌ (memory32-htonl host h.packsn)
          (ap (λ l. l ++ h.reserve) (memory32-htonl host h.body_len)))))
