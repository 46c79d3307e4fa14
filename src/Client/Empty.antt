-- ===== src/Client/Empty.antt =====
-- A message with no bytes.
use queue_c.Base.{
  ℕ, ◌+◌, ◌≡◌, ◌≤◌, ◌<◌, refl, sym, ◌∙◌, none, some, List, [], ◌∷◌, arith, length, length-append,
  lt→ltb, eqb_true, ℤ, true,
}
use mathlib.Core.List.{append-nil}
use queue_c.Client.{request_head, send_all, Peer, await, client_msgget, err_socket}
use queue_c.Client.Requests.{name_in, length-name_in, recv_reply-reply_bytes}
use queue_c.Protocol.{Host, Head, head_hton, msgget_hton}
use queue_c.Protocol.Order.{head_memory, memory32}
use queue_c.Protocol.Memory.{msgget_memory, length-head_memory}
use queue_c.Server.{type_msgget, bits}
use queue_c.Server.Serve.{reply_bytes}
use queue_c.Socket.{Socket, stream}
use queue_c.Socket.Receive.{after_send, tcp_send-whole, tcp_recvall-zero}

send_both :
    (a b : List ℕ) (s : Socket)
    → length a + length b ≤ s.capacity
    → send_all (a ∷ b ∷ []) s ≡ (true, after_send b (after_send a s))
unfolding send_all
send_both a b s room =
    rw
      (
        tcp_send-whole a s (omega arith),
        tcp_send-whole b (after_send a s) (omega arith),
        eqb_true (length a) (length a) refl,
        eqb_true (length b) (length b) refl,
      )
      refl

length-memory32 : (host : Host) (x : ℕ) → length (memory32 host x) ≡ 4
length-memory32 Host.little x = refl
length-memory32 Host.big x = refl

-- The packets of a get.
abbrev pub get_head : Host → List ℕ
get_head c = head_memory c (head_hton c (request_head type_msgget 36))

abbrev pub get_body : Host → (stack qname : List ℕ) → (msec : ℤ) → List ℕ
get_body c stack qname msec =
    msgget_memory c (msgget_hton c (record { qname = name_in stack qname; wait_msec = bits msec }))

get_head-length : (c : Host) → length (get_head c) ≡ 30
unfolding head_hton
get_head-length c = length-head_memory c _ refl

get_body-length :
    (c : Host) (stack qname : List ℕ) (msec : ℤ)
    → length stack ≡ 32
    → length qname < 32
    → length (get_body c stack qname msec) ≡ 36
unfolding msgget_hton
get_body-length c stack qname msec l short =
    length-append (name_in stack qname) _
    ∙ omega (arith, length-name_in stack qname l short, length-memory32 c _)

-- If the reply to a get says that a message with no bytes has been got, `client_msgget` returns
-- NULL and the code of a socket's error, so that the message is lost. The name has less than 32
-- characters, nothing is left to receive, and the connection takes the request.
pub client_msgget-empty :
    (c s : Host) (peer : Peer) (stack : List ℕ) (k : Socket) (qname : List ℕ) (msec err : ℤ)
    (copy : ℕ) (h : Head)
    → length stack ≡ 32
    → length qname < 32
    → k.incoming ≡ []
    → 66 ≤ k.capacity
    → length h.reserve ≡ 16
    → stream (peer (after_send (get_body c stack qname msec) (after_send (get_head c) k)).sent)
      ≡ reply_bytes s h 0 0
    → (k' : Socket) × (client_msgget c peer stack k qname msec err copy
        ≡ some (none, err_socket, k'))
unfolding client_msgget
client_msgget-empty c s peer stack k qname msec err copy h l short quiet room lh e =
    let a : List ℕ = get_head c in
    let b : List ℕ = get_body c stack qname msec in
    let sent : Socket = after_send b (after_send a k) in
    let there : await peer sent ≡ record sent { incoming = peer sent.sent } = rw quiet refl in
    let (later, e1, f1) =
      recv_reply-reply_bytes c s h 0 0 [] (record sent { incoming = peer sent.sent }) lh
        (omega arith) (omega arith) (e ∙ sym (append-nil _)) in
    (
      record sent { incoming = later },
      rw
          (
            lt→ltb (length qname) (length stack) (omega (arith, l)),
            send_both a b k
                (omega (arith, get_head-length c, get_body-length c stack qname msec l short)),
            there,
            e1,
            tcp_recvall-zero (record sent { incoming = later }),
          )
          refl,
    )
