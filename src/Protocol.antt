-- ===== src/Protocol.antt =====
-- src/qc_net/qc_protocol.c and qc_protocol.h: the packets, between the byte order of the host and
-- that of the network. Every field is the unsigned number of its bits, `int` ones too.
pub mod Order
pub mod Memory
use queue_c.Base.{ℕ, ◌+◌, ◌*◌, ◌/◌, ◌%◌, List}

-- Whether the host stores the low byte of a number first.
pub data Host : Type 0 where
  little : Host
  big : Host

abbrev pub swap16 : ℕ → ℕ
swap16 x = x % 256 * 256 + x / 256 % 256

abbrev pub swap32 : ℕ → ℕ
swap32 x = x % 256 * 16777216 + x / 256 % 256 * 65536 + x / 65536 % 256 * 256 + x / 16777216 % 256

unfoldable pub htons : Host → ℕ → ℕ
htons little x = swap16 x
htons big x = x

unfoldable pub ntohs : Host → ℕ → ℕ
ntohs little x = swap16 x
ntohs big x = x

unfoldable pub htonl : Host → ℕ → ℕ
htonl little x = swap32 x
htonl big x = x

unfoldable pub ntohl : Host → ℕ → ℕ
ntohl little x = swap32 x
ntohl big x = x

pub record Head : Type 0 where
  pub protocol : ℕ
  pub version : ℕ
  pub type : ℕ
  pub packsn : ℕ
  pub body_len : ℕ
  pub reserve : List ℕ

pub record MsgPut : Type 0 where
  pub qname : List ℕ
  pub wait_msec : ℕ
  pub msg_prioriy : ℕ
  pub msg_len : ℕ

pub record MsgGet : Type 0 where
  pub qname : List ℕ
  pub wait_msec : ℕ

pub record Reply : Type 0 where
  pub result : ℕ
  pub msg_len : ℕ

unfoldable pub head_hton : Host → Head → Head
head_hton host h = record h {
  protocol = htons host h.protocol;
  version = htons host h.version;
  type = htons host h.type;
  packsn = htonl host h.packsn;
  body_len = htonl host h.body_len;
}

unfoldable pub head_ntoh : Host → Head → Head
head_ntoh host h = record h {
  protocol = ntohs host h.protocol;
  version = ntohs host h.version;
  type = ntohs host h.type;
  packsn = ntohl host h.packsn;
  body_len = ntohl host h.body_len;
}

unfoldable pub msgput_hton : Host → MsgPut → MsgPut
msgput_hton host p = record p {
  msg_prioriy = htons host p.msg_prioriy;
  wait_msec = htonl host p.wait_msec;
  msg_len = htonl host p.msg_len;
}

unfoldable pub msgput_ntoh : Host → MsgPut → MsgPut
msgput_ntoh host p = record p {
  msg_prioriy = ntohs host p.msg_prioriy;
  wait_msec = ntohl host p.wait_msec;
  msg_len = ntohl host p.msg_len;
}

unfoldable pub msgget_hton : Host → MsgGet → MsgGet
msgget_hton host g = record g { wait_msec = htonl host g.wait_msec }

unfoldable pub msgget_ntoh : Host → MsgGet → MsgGet
msgget_ntoh host g = record g { wait_msec = ntohl host g.wait_msec }

unfoldable pub reply_hton : Host → Reply → Reply
reply_hton host r = record r { result = htonl host r.result; msg_len = htonl host r.msg_len }

unfoldable pub reply_ntoh : Host → Reply → Reply
reply_ntoh host r = record r { result = ntohl host r.result; msg_len = ntohl host r.msg_len }
