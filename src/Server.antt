-- ===== src/Server.antt =====
-- src/qc_net/qc_server.c: the server, which puts and gets messages for its clients. A thread serves
-- one connection. Memory that is released is not modelled.
pub mod Serve
pub mod Lost
pub mod Queues
pub mod Running
pub mod Samples
pub mod Ends
mod Tests
use queue_c.Base.{
  ℕ, zero, suc, ◌+◌, ◌-◌, ◌%◌, Bool, true, false, not, Option, none, some, List, [], ◌∷◌, ◌++◌,
  if◌then◌else◌, ltb, ◌==◌, ◌>>=◌, ℤ, pos, negsuc, pos_part, failed, is_negative, eqb_ℤ,
}
use queue_c.DynList.{set}
use queue_c.Message.{Message, create, flag_clone}
use queue_c.Protocol.{
  Host, Head, MsgPut, MsgGet, Reply, head_ntoh, msgput_ntoh, msgget_ntoh, reply_hton,
}
use queue_c.Protocol.Order.{head_memory}
use queue_c.Protocol.Memory.{read_bytes, head_at, msgput_at, msgget_at, reply_memory}
use queue_c.Socket.{Socket, tcp_recvall, tcp_send}
use queue_c.Thread.{timeout}

-- The system of queues, as the server uses it: a put gives its result and a get a message or NULL,
-- each with the code of the error behind it; `none` is a stop of the program.
pub record Service (S : Type 0) : Type 0 where
  pub putmsg : S → (qname : List ℕ) → Message → (wait_msec err : ℤ) → Option (ℤ × ℤ × S)
  pub getmsg : S → (qname : List ℕ) → (wait_msec err : ℤ) → Option (Option Message × ℤ × S)

-- What the thread of a connection works on. The allocator gives the addresses from `next` on.
pub record Work (S : Type 0) : Type 0 where
  pub system : S
  pub memory : ℕ → List ℕ
  pub next : ℕ
  pub socket : Socket
  pub err : ℤ

-- QC_TYPE_MSGPUT, QC_TYPE_MSGGET and QC_TYPE_REPLY.
abbrev pub type_msgput : ℕ
type_msgput = 120

abbrev pub type_msgget : ℕ
type_msgget = 121

abbrev pub type_reply : ℕ
type_reply = 130

-- QC_RESULT_TIMEOUT; QC_RESULT_SUCC is 0 and QC_RESULT_FAILED is -1.
abbrev pub result_timeout : ℕ
result_timeout = 100

-- An `int` and the number of its bits.
abbrev pub bits : ℤ → ℕ
bits (pos n) = n % 4294967296
bits (negsuc n) = 4294967295 - n % 4294967296

abbrev pub int_of : ℕ → ℤ
int_of x = if ltb x 2147483648 then pos x else negsuc (4294967295 - x)

-- The string in a buffer. `none` is a read past the buffer.
abbrev pub string_in : List ℕ → Option (List ℕ)
string_in [] = none
string_in (zero ∷ bs) = some []
string_in (suc c ∷ bs) = do s ← string_in bs; some (suc c ∷ s)

-- QC_ERR_RUNTIME and QC_ERR_SOCKET.
abbrev err_runtime : ℤ
err_runtime = pos 20

abbrev err_socket : ℤ
err_socket = pos 30

abbrev pub put_result : (ret err : ℤ) → ℕ
put_result ret err =
    if eqb_ℤ ret (pos 0) then 0 else if eqb_ℤ err timeout then result_timeout else bits failed

-- The bytes of a message, and what is behind them in its buffer.
abbrev pub contents : (ℕ → List ℕ) → Message → Option (List ℕ × List ℕ)
contents memory m = read_bytes (pos_part m.buff_len) (elim m.buff [ none ↦ [] | some a ↦ memory a ])

-- The reply to a request. The header is the request's, in the order of the host.
unfoldable pub send_reply : Host → Head → (result msg_len : ℕ) → Socket → Bool × Socket
send_reply host h result msg_len s =
    let (ret, s1) = tcp_send (head_memory host (record h { type = type_reply })) s in
    let reply : Reply = record { result = result; msg_len = msg_len } in
    let (ret', s2) = tcp_send (reply_memory host (reply_hton host reply)) s1 in
    if eqb_ℤ ret (pos 30) then (eqb_ℤ ret' (pos 8), s2) else (false, s1)

module _ {S : Type 0} (service : Service S) (host : Host) where
  -- The body is at `next`, and the message's copy of its bytes at the address after it.
  unfoldable pub proc_msgput : Work S → Head → (body : List ℕ) → Option (ℤ × Work S)
  proc_msgput w h body = do
    (p, bytes) ← msgput_at host body
    let put = msgput_ntoh host p
    (if not (h.type == type_msgput) then some (failed, record w { err = err_runtime }) else (do
      (buff, behind) ← read_bytes put.msg_len bytes
      qname ← string_in put.qname
      let message = create (some w.next) (pos put.msg_len) flag_clone (suc w.next)
      (ret, err, system) ← service.putmsg w.system qname message (int_of put.wait_msec) w.err
      let (is_sent, socket) = send_reply host h (put_result ret err) 0 w.socket
      some (
        if is_sent then pos 0 else failed,
        record {
          system = system;
          memory = set w.memory (suc w.next) buff;
          next = suc (suc w.next);
          socket = socket;
          err = if is_sent then err else err_socket;
        },
      )))

  -- `failed`: a message that has been got is put again, with an error of its own.
  unfoldable pub put_back : Work S → (qname : List ℕ) → Option Message → Option (ℤ × Work S)
  put_back w qname none = some (failed, record w { err = err_socket })
  put_back w qname (some m) = do
    (ret, err, system) ← service.putmsg w.system qname m (pos 1000) (pos 0)
    some (failed, record w { err = err_socket; system = system })

  -- The message's bytes are sent after the reply.
  unfoldable pub send_message : Work S → (qname : List ℕ) → Option Message → Option (ℤ × Work S)
  send_message w qname none = some (pos 0, w)
  send_message w qname (some m) =
      if ltb 0 (pos_part m.buff_len)
      then (do
        (buff, behind) ← contents w.memory m
        let (ret, socket) = tcp_send buff w.socket
        (if eqb_ℤ ret m.buff_len
            then some (pos 0, record w { socket = socket })
            else put_back (record w { socket = socket }) qname (some m)))
      else some (pos 0, w)

  abbrev pub get_result : Option Message → (err : ℤ) → ℕ
  get_result none err = if eqb_ℤ err timeout then result_timeout else bits failed
  get_result (some m) err = 0

  abbrev pub get_length : Option Message → ℤ
  get_length none = pos 0
  get_length (some m) = m.buff_len

  unfoldable pub proc_msgget : Work S → Head → (body : List ℕ) → Option (ℤ × Work S)
  proc_msgget w h body = do
    g ← msgget_at host body
    let get = msgget_ntoh host g
    (if not (h.type == type_msgget) then some (failed, record w { err = err_runtime }) else (do
      qname ← string_in get.qname
      (message, err, system) ← service.getmsg w.system qname (int_of get.wait_msec) w.err
      let (is_sent, socket) =
          send_reply host h (get_result message err) (bits (get_length message)) w.socket
      let w' : Work S = record w { system = system; socket = socket; err = err; next = suc w.next }
      if is_sent then send_message w' qname message else put_back w' qname message))

  -- One round of the thread's loop, and whether it goes on. Nothing is received into a body of
  -- negative length, which cannot be allocated.
  unfoldable pub serve_one : Work S → Option (Bool × Work S)
  serve_one w = do
    (ret, head_buff, s1) ← tcp_recvall 30 w.socket
    (if not (ltb 0 (pos_part ret)) then some (false, record w { socket = s1 }) else (do
      h' ← head_at host head_buff
      let h = head_ntoh host h'
      (if not (ltb h.body_len 2147483648) then some (false, record w { socket = s1 }) else (do
        (ret', body, s2) ← tcp_recvall h.body_len s1
        let w' : Work S = record w { socket = s2 }
        (if not (ltb 0 (pos_part ret'))
            then some (false, w')
            else if h.type == type_msgget
            then (do (r, w2) ← proc_msgget w' h body; some (not (is_negative r), w2))
            else if h.type == type_msgput
            then (do (r, w2) ← proc_msgput w' h body; some (not (is_negative r), w2))
            else some (true, record w' { next = suc w'.next }))))))

  -- Whether the loop has ended after so many rounds.
  unfoldable pub work_thread_routine : (rounds : ℕ) → Work S → Option (Bool × Work S)
  work_thread_routine zero w = some (false, w)
  work_thread_routine (suc rounds) w = do
    (continue, w') ← serve_one w
    let later = work_thread_routine rounds w'
    if continue then later else some (true, w')
