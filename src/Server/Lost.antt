-- ===== src/Server/Lost.antt =====
-- A reply that cannot be sent.
use queue_c.Base.{
  ℕ, ◌≡◌, ◌≤◌, ◌<◌, refl, ap, some, List, [], arith, length, leb, eqb_true, pos, failed, ℤ, false,
  inl, inr, Bool-cases,
}
use queue_c.Message.{Message}
use queue_c.Protocol.{Host, Head, MsgPut, MsgGet, Reply, msgget_hton, reply_hton}
use queue_c.Protocol.Order.{head_memory, MsgPutFits, bodies_ntoh-hton}
use queue_c.Protocol.Memory.{
  msgget_memory, reply_memory, length-head_memory, length-reply_memory, msgget_at-msgget_memory,
}
use queue_c.Server.{
  Service, Work, type_msgget, type_reply, bits, int_of, string_in, send_reply, put_back,
  proc_msgget,
}
use queue_c.Socket.{Socket}
use queue_c.Socket.Receive.{after_send, tcp_send-whole, tcp_send-short}

-- A reply is 38 bytes.
send_reply-cut :
    (host : Host) (h : Head) (result msg_len : ℕ) (s : Socket)
    → length h.reserve ≡ 16
    → s.capacity < 38
    → (send_reply host h result msg_len s).0 ≡ false
unfolding send_reply
send_reply-cut host h result msg_len s l few =
    let h' : Head = record h { type = type_reply } in
    let r : Reply = reply_hton host (record { result = result; msg_len = msg_len }) in
    let m : length (head_memory host h') ≡ 30 = length-head_memory host h' l in
    let n : length (reply_memory host r) ≡ 8 = length-reply_memory host r in
    elim (Bool-cases (leb 30 s.capacity)) [
      | inl enough ↦
          let whole : length (head_memory host h') ≤ s.capacity = ground (arith, m) in
          rw (tcp_send-whole (head_memory host h') s whole, eqb_true _ 30 m)
            (tcp_send-short (reply_memory host r) (after_send (head_memory host h') s) 8 n
              (omega (arith, m)))
      | inr short ↦
          let lt : s.capacity < 30 = ground arith in
          rw (tcp_send-short (head_memory host h') s 30 m lt) refl
    ]

-- A message that has been got from the system, but whose reply the connection does not take, is put
-- into the system again under the same name, with a wait of a second, and `proc_msgget` returns -1.
-- The request is a get, with a name that ends in its buffer; the reply has 38 bytes, and the
-- system's get and put give results.
pub proc_msgget-put_back :
    {S : Type 0} (service : Service S) (c s : Host) (w : Work S) (h : Head) (g : MsgGet)
    (name : List ℕ) (m : Message) (err ret err' : ℤ) (got system : S)
    → length h.reserve ≡ 16
    → h.type ≡ type_msgget
    → g.wait_msec < 4294967296
    → length g.qname ≡ 32
    → string_in g.qname ≡ some name
    → w.socket.capacity < 38
    → service.getmsg w.system name (int_of g.wait_msec) w.err ≡ some (some m, err, got)
    → service.putmsg got name m (pos 1000) (pos 0) ≡ some (ret, err', system)
    → (w' : Work S) × (proc_msgget service s w h (msgget_memory c (msgget_hton c g))
        ≡ some (failed, w'))
      × (w'.system ≡ system)
unfolding proc_msgget put_back
proc_msgget-put_back service c s w h g name m err ret err' got system l t wl ql named few get put =
    let p : MsgPut = record { qname = []; wait_msec = 0; msg_prioriy = 0; msg_len = 0 } in
    let fits : MsgPutFits p = record {
      wait_msec = omega arith;
      msg_prioriy = omega arith;
      msg_len = omega arith;
    } in
    let sent = send_reply s h 0 (bits m.buff_len) w.socket in
    let cut : sent ≡ (false, sent.1) =
      ap (λ b. (b, sent.1)) (send_reply-cut s h 0 (bits m.buff_len) w.socket l few) in
    rw
      (
        msgget_at-msgget_memory c s g wl ql,
        (bodies_ntoh-hton s p g (record { result = 0; msg_len = 0 }) fits wl (omega arith)
            (omega arith)).1,
        eqb_true h.type type_msgget t,
        named,
        get,
        cut,
        put,
      )
      (_, refl, refl)
