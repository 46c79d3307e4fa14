-- ===== src/Server/Serve.antt =====
-- One request and its reply.
use queue_c.Base.{
  ℕ, suc, ◌+◌, ◌≡◌, ◌≤◌, ◌<◌, refl, ap, sym, ◌∙◌, some, List, [], ◌++◌, arith, length,
  length-append, lt→ltb, eqb_false, eqb_true, pos, ℤ, true,
}
use mathlib.Core.List.{append_assoc}
use queue_c.DynList.{set}
use queue_c.Message.{create, flag_clone}
use queue_c.Protocol.{Host, Head, MsgPut, MsgGet, Reply, head_hton, msgput_hton, reply_hton}
use queue_c.Protocol.Order.{
  head_memory, HeadFits, MsgPutFits, head_ntoh-head_hton, bodies_ntoh-hton,
}
use queue_c.Protocol.Memory.{
  read_bytes-all, msgput_memory, reply_memory, length-head_memory, length-reply_memory,
  length-msgput_memory, head_at-head_memory, msgput_at-msgput_memory,
}
use queue_c.Server.{
  Service, Work, type_msgput, type_reply, int_of, string_in, put_result, send_reply, proc_msgput,
  serve_one,
}
use queue_c.Socket.{Socket, stream}
use queue_c.Socket.Receive.{after_send, tcp_send-whole, tcp_recvall-gets}

-- The bytes of a reply.
abbrev pub reply_bytes : Host → Head → (result msg_len : ℕ) → List ℕ
reply_bytes host h result msg_len =
    head_memory host (record h { type = type_reply })
    ++ reply_memory host (reply_hton host (record { result = result; msg_len = msg_len }))

abbrev pub replied : Host → Head → (result msg_len : ℕ) → Socket → Socket
replied host h result msg_len s =
    after_send (reply_memory host (reply_hton host (record { result = result; msg_len = msg_len })))
      (after_send (head_memory host (record h { type = type_reply })) s)

pub send_reply-whole :
    (host : Host) (h : Head) (result msg_len : ℕ) (s : Socket)
    → length h.reserve ≡ 16
    → 38 ≤ s.capacity
    → send_reply host h result msg_len s ≡ (true, replied host h result msg_len s)
unfolding send_reply
send_reply-whole host h result msg_len s l room =
    let h' : Head = record h { type = type_reply } in
    let r : Reply = reply_hton host (record { result = result; msg_len = msg_len }) in
    let m : length (head_memory host h') ≡ 30 = length-head_memory host h' l in
    let n : length (reply_memory host r) ≡ 8 = length-reply_memory host r in
    rw
      (
        tcp_send-whole (head_memory host h') s (omega (arith, m)),
        tcp_send-whole (reply_memory host r) (after_send (head_memory host h') s)
            (omega (arith, m, n)),
        eqb_true _ 30 m,
        eqb_true _ 8 n,
      )
      refl

-- The bytes of a request to put.
abbrev pub put_request : Host → Head → MsgPut → (buff : List ℕ) → List ℕ
put_request c h p buff =
    head_memory c (head_hton c h) ++ (msgput_memory c (msgput_hton c p) ++ buff)

hton_reserve : (host : Host) (h : Head) → (head_hton host h).reserve ≡ h.reserve
unfolding head_hton
hton_reserve host h = refl

hton_qname : (host : Host) (p : MsgPut) → (msgput_hton host p).qname ≡ p.qname
unfolding msgput_hton
hton_qname host p = refl

module _ {S : Type 0} (service : Service S) (c s : Host) (w : Work S) (h : Head) (p : MsgPut)
    (buff name rest : List ℕ) (fits : HeadFits h) (l : length h.reserve ≡ 16)
    (t : h.type ≡ type_msgput) (b : h.body_len ≡ 42 + length buff) (small : h.body_len < 2147483648)
    (pfits : MsgPutFits p) (pl : length p.qname ≡ 32) (ml : p.msg_len ≡ length buff)
    (named : string_in p.qname ≡ some name)
    (e : stream w.socket.incoming ≡ put_request c h p buff ++ rest) (room : 38 ≤ w.socket.capacity)
    (ret err : ℤ) (system : S)
    (put : service.putmsg w.system name
        (create (some w.next) (pos p.msg_len) flag_clone (suc w.next))
        (int_of p.wait_msec)
        w.err
      ≡ some (ret, err, system)) where
  abbrev pub served : List (List ℕ) → Work S
  served later = record {
    system = system;
    memory = set w.memory (suc w.next) buff;
    next = suc (suc w.next);
    socket = replied s h (put_result ret err) 0 (record w.socket { incoming = later });
    err = err;
  }

  proc_msgput-served :
      (later : List (List ℕ))
      → proc_msgput service s
          (record w { socket = record w.socket { incoming = later } })
          h
          (msgput_memory c (msgput_hton c p) ++ buff)
        ≡ some (pos 0, served later)
  unfolding proc_msgput
  proc_msgput-served later =
      let x : MsgGet = record { qname = []; wait_msec = 0 } in
      let r : Reply = record { result = 0; msg_len = 0 } in
      rw
        (
          msgput_at-msgput_memory c s p buff pfits pl,
          (bodies_ntoh-hton s p x r pfits (omega arith) (omega arith) (omega arith)).0,
          eqb_true h.type 120 t,
          read_bytes-all p.msg_len buff (sym ml),
          named,
          put,
          send_reply-whole s h (put_result ret err) 0 (record w.socket { incoming = later }) l room,
        )
        refl

  -- A put of a client is served, whatever the segments that it arrives in.
  pub serve_one-put :
      (later : List (List ℕ)) × (serve_one service s w ≡ some (true, served later))
      × (stream later ≡ rest)
  unfolding serve_one
  serve_one-put =
      let body : List ℕ = msgput_memory c (msgput_hton c p) ++ buff in
      let body_length : length body ≡ 42 + length buff =
        length-append (msgput_memory c (msgput_hton c p)) buff
        ∙ ap (λ n. n + length buff)
            (length-msgput_memory c (msgput_hton c p) (ap length (hton_qname c p) ∙ pl)) in
      let (l1, e1, f1) =
        tcp_recvall-gets w.socket 30 (head_memory c (head_hton c h)) (body ++ rest)
          (length-head_memory c (head_hton c h) (ap length (hton_reserve c h) ∙ l)) (omega arith)
          (e ∙ append_assoc (head_memory c (head_hton c h)) body rest) in
      let (l2, e2, f2) =
        tcp_recvall-gets (record w.socket { incoming = l1 }) h.body_len body rest
          (body_length ∙ sym b) (omega arith) f1 in
      (
        l2,
        rw
            (
              e1,
              head_at-head_memory c s h fits l,
              head_ntoh-head_hton s h fits,
              lt→ltb h.body_len 2147483648 small,
              e2,
              lt→ltb 0 h.body_len (omega arith),
              eqb_false h.type 121 (omega (arith, t)),
              eqb_true h.type 120 t,
              proc_msgput-served l2,
            )
            refl,
        f2,
      )
