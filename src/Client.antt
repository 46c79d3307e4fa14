-- ===== src/Client.antt =====
-- src/qc_net/qc_client.c: the requests of a client to a server, over a connection that is there.
pub mod Requests
pub mod Calls
pub mod Stores
pub mod Empty
mod Tests
use queue_c.Base.{
  ℕ, zero, suc, ◌+◌, ◌%◌, Bool, true, false, not, Option, none, some, List, [], ◌∷◌, ◌++◌,
  if◌then◌else◌, ltb, ◌==◌, ◌>>=◌, ℤ, pos, pos_part, failed, eqb_ℤ, length,
}
use queue_c.Message.{Message, create}
use queue_c.Protocol.{
  Host, Head, MsgPut, MsgGet, Reply, head_hton, head_ntoh, msgput_hton, msgget_hton, reply_ntoh,
}
use queue_c.Protocol.Order.{head_memory}
use queue_c.Protocol.Memory.{head_at, reply_at, msgput_memory, msgget_memory}
use queue_c.Server.{type_msgput, type_msgget, result_timeout, contents, bits, int_of}
use queue_c.Socket.{Socket, drop, tcp_recvall, tcp_send}
use queue_c.Thread.{err_timeout}

-- The zero and the bytes behind it that were there; `none` is a write past the buffer.
abbrev pub strcpy : (buffer string : List ℕ) → Option (List ℕ)
strcpy buffer string =
    if ltb (length string) (length buffer)
    then some (string ++ (0 ∷ drop (suc (length string)) buffer))
    else none

abbrev zeros : List ℕ
zeros = 0 ∷ 0 ∷ 0 ∷ 0 ∷ 0 ∷ 0 ∷ 0 ∷ 0 ∷ 0 ∷ 0 ∷ 0 ∷ 0 ∷ 0 ∷ 0 ∷ 0 ∷ 0 ∷ []

-- QC_PROTOCOL_MQ and QC_PROTOCOL_VERSION.
abbrev pub request_head : (type body_len : ℕ) → Head
request_head type body_len = record {
  protocol = 55555;
  version = 1;
  type = type;
  packsn = 0;
  body_len = body_len % 4294967296;
  reserve = zeros;
}

-- Packets sent one after another, the rest not if one is not sent as a whole.
unfoldable pub send_all : List (List ℕ) → Socket → Bool × Socket
send_all [] s = (true, s)
send_all (packet ∷ packets) s =
    let (ret, s') = tcp_send packet s in
    let later = send_all packets s' in
    if eqb_ℤ ret (pos (length packet)) then later else (false, s')

-- What the server sends for the bytes sent to it arrives after what has arrived.
abbrev pub Peer : Type 0
Peer = List ℕ → List (List ℕ)

abbrev pub await : Peer → Socket → Socket
await peer s = record s { incoming = joined s.incoming (peer s.sent) }
  where
    joined : List (List ℕ) → List (List ℕ) → List (List ℕ)
    joined [] ys = ys
    joined (x ∷ xs) ys = x ∷ joined xs ys

-- The reply; `none` inside if it has not been received.
unfoldable pub recv_reply : Host → Socket → Option (Option Reply × Socket)
recv_reply host s = do
  (ret, head, s1) ← tcp_recvall 30 s
  (if not (ltb 0 (pos_part ret)) then some (none, s1) else (do
    h ← head_at host head
    (ret', reply, s2) ← tcp_recvall 8 s1
    (if not (ltb 0 (pos_part ret'))
        then some (none, s2)
        else (do r ← reply_at host reply; some (some (reply_ntoh host r), s2)))))

-- QC_ERR_UNKOWN and QC_ERR_SOCKET.
abbrev pub err_unkown : ℤ
err_unkown = pos 99

abbrev pub err_socket : ℤ
err_socket = pos 30

-- `stack` has the bytes that are in the buffer of the name before, and `err` the code of the error
-- before. The result, the code of the error and the connection.
unfoldable pub client_msgput :
    Host
    → Peer
    → (stack : List ℕ) (memory : ℕ → List ℕ) → Socket
    → (qname : List ℕ) → Message
    → (msec err : ℤ) → Option (ℤ × ℤ × Socket)
client_msgput host peer stack memory s qname m msec err = do
  name ← strcpy stack qname
  let put : MsgPut = record {
    qname = name;
    wait_msec = bits msec;
    msg_prioriy = bits m.priority % 65536;
    msg_len = bits m.buff_len;
  }
  let h = request_head type_msgput (42 + put.msg_len)
  (buff, behind) ← contents memory m
  let (is_sent, s1) =
      send_all
        (head_memory host (head_hton host h)
          ∷ msgput_memory host (msgput_hton host put)
          ∷ buff
          ∷ [])
        s
  (if not is_sent then some (failed, err, s1) else (do
    (reply, s2) ← recv_reply host (await peer s1)
    elim reply [
      | none ↦ some (failed, err, s2)
      | some r ↦
          if r.result == 0
          then some (pos 0, err, s2)
          else if r.result == result_timeout
          then some (failed, err_timeout, s2)
          else some (failed, err_unkown, s2)
    ]))

-- A message that is got has its buffer at `copy`, with the bytes; NULL otherwise.
unfoldable pub client_msgget :
    Host
    → Peer
    → (stack : List ℕ) → Socket
    → (qname : List ℕ) → (msec err : ℤ) → (copy : ℕ)
    → Option (Option (Message × List ℕ) × ℤ × Socket)
client_msgget host peer stack s qname msec err copy = do
  name ← strcpy stack qname
  let get : MsgGet = record { qname = name; wait_msec = bits msec }
  let h = request_head type_msgget 36
  let (is_sent, s1) =
      send_all
        (head_memory host (head_hton host h) ∷ msgget_memory host (msgget_hton host get) ∷ []) s
  (if not is_sent then some (none, err_socket, s1) else (do
    (reply, s2) ← recv_reply host (await peer s1)
    elim reply [
      | none ↦ some (none, err_socket, s2)
      | some r ↦
          if r.result == 0
          then (do
            (ret, buff, s3) ← tcp_recvall r.msg_len s2
            (if not (ltb 0 (pos_part ret))
                then some (none, err_socket, s3)
                else some (some (create (some copy) (int_of r.msg_len) 0 copy, buff), err, s3)))
          else if r.result == result_timeout
          then some (none, err_timeout, s2)
          else some (none, err_unkown, s2)
    ]))
