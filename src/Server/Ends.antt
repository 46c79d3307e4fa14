-- ===== src/Server/Ends.antt =====
-- The thread of a connection ends.
use queue_c.Base.{
  ℕ, zero, suc, ◌≡◌, ◌<◌, refl, subst, ◌∙◌, Option, none, some, List, arith, ltb, ◌==◌, ◌>>=◌, pos,
  pos_part, negsuc, is_negative, ltb→lt, ℤ, eqb_ℤ, Bool, true, false, not, inl, inr, Bool-cases,
  Option-cases,
}
use queue_c.Message.{Message, create, flag_clone}
use queue_c.Protocol.{Host, Head, MsgPut, MsgGet, head_ntoh, msgput_ntoh, msgget_ntoh, reply_hton}
use queue_c.Protocol.Order.{head_memory}
use queue_c.Protocol.Memory.{read_bytes, head_at, msgput_at, msgget_at, reply_memory}
use queue_c.Server.{
  Service, Work, type_reply, type_msgput, type_msgget, int_of, bits, string_in, contents,
  put_result, get_result, get_length, send_reply, put_back, send_message, proc_msgput, proc_msgget,
  serve_one, work_thread_routine,
}
use queue_c.Socket.{Socket, tcp_recvall, tcp_send}
use queue_c.Socket.Left.{left, tcp_send-left, tcp_recvall-left}

send_reply-left :
    (host : Host) (h : Head) (result msg_len : ℕ) (s : Socket)
    → left (send_reply host h result msg_len s).1 ≡ left s
unfolding send_reply
send_reply-left host h result msg_len s =
    let a : List ℕ = head_memory host (record h { type = type_reply }) in
    let b : List ℕ =
      reply_memory host (reply_hton host (record { result = result; msg_len = msg_len })) in
    elim (Bool-cases (eqb_ℤ (tcp_send a s).0 (pos 30))) [
      | inl sent ↦ rw sent (tcp_send-left b (tcp_send a s).1 ∙ tcp_send-left a s)
      | inr cut ↦ rw cut (tcp_send-left a s)
    ]

module _ {S : Type 0} (service : Service S) (host : Host) where
  -- If the program does not stop, the bytes still to come are as many as before.
  abbrev Same : ℕ → Option (ℤ × Work S) → Type 0
  Same n none = Unit
  Same n (some (r, w)) = left w.socket ≡ n

  record Keeps (n : ℕ) (r : Option (ℤ × Work S)) : Type 0 where
    same : Same n r

  put_back-Keeps :
      (w : Work S) (qname : List ℕ) (m : Option Message)
      → Keeps (left w.socket) (put_back service host w qname m)
  unfolding put_back
  put_back-Keeps w qname none = record { same = refl }
  put_back-Keeps w qname (some m) =
      elim (Option-cases (service.putmsg w.system qname m (pos 1000) (pos 0))) [
        | inl stopped ↦ rw stopped (record { same = tt })
        | inr (r, run) ↦ rw run (record { same = refl })
      ]

  proc_msgput-Keeps :
      (w : Work S) (h : Head) (body : List ℕ)
      → Keeps (left w.socket) (proc_msgput service host w h body)
  unfolding proc_msgput
  proc_msgput-Keeps w h body = elim (Option-cases (msgput_at host body)) [
    | inl a ↦ rw a (record { same = tt })
    | inr ((p, bytes), a) ↦ elim (Bool-cases (h.type == type_msgput)) [
      | inr b ↦ rw (a, b) (record { same = refl })
      | inl b ↦
          let put : MsgPut = msgput_ntoh host p in
          elim (Option-cases (read_bytes put.msg_len bytes)) [
            | inl d ↦ rw (a, b, d) (record { same = tt })
            | inr ((buff, behind), d) ↦ elim (Option-cases (string_in put.qname)) [
              | inl e ↦ rw (a, b, d, e) (record { same = tt })
              | inr (qname, e) ↦
                  let m : Message =
                    create (some w.next) (pos put.msg_len) flag_clone (suc w.next) in
                  elim (Option-cases
                    (service.putmsg w.system qname m (int_of put.wait_msec) w.err)) [
                      | inl f ↦ rw (a, b, d, e, f) (record { same = tt })
                      | inr ((ret, err, system), f) ↦
                          rw (a, b, d, e, f)
                            (record {
                              same = send_reply-left host h (put_result ret err) 0 w.socket;
                            })
                    ]
            ]
          ]
    ]
  ]

  send_message-Keeps :
      (w : Work S) (qname : List ℕ) (m : Option Message)
      → Keeps (left w.socket) (send_message service host w qname m)
  unfolding send_message
  send_message-Keeps w qname none = record { same = refl }
  send_message-Keeps w qname (some m) = elim (Bool-cases (ltb 0 (pos_part m.buff_len))) [
    | inr a ↦ rw a (record { same = refl })
    | inl a ↦ elim (Option-cases (contents w.memory m)) [
      | inl b ↦ rw (a, b) (record { same = tt })
      | inr ((buff, behind), b) ↦
          let sent : left (tcp_send buff w.socket).1 ≡ left w.socket =
            tcp_send-left buff w.socket in
          elim (Bool-cases (eqb_ℤ (tcp_send buff w.socket).0 m.buff_len)) [
            | inl d ↦ rw (a, b, d) (record { same = sent })
            | inr d ↦
                rw (a, b, d)
                  (subst
                    (λ n. Keeps n (
                      put_back service host (record w { socket = (tcp_send buff w.socket).1 }) qname
                        (some m)))
                    sent
                    (put_back-Keeps (record w { socket = (tcp_send buff w.socket).1 }) qname
                      (some m)))
          ]
    ]
  ]

  proc_msgget-Keeps :
      (w : Work S) (h : Head) (body : List ℕ)
      → Keeps (left w.socket) (proc_msgget service host w h body)
  unfolding proc_msgget
  proc_msgget-Keeps w h body = elim (Option-cases (msgget_at host body)) [
    | inl a ↦ rw a (record { same = tt })
    | inr (g, a) ↦ elim (Bool-cases (h.type == type_msgget)) [
      | inr b ↦ rw (a, b) (record { same = refl })
      | inl b ↦
          let get : MsgGet = msgget_ntoh host g in
          elim (Option-cases (string_in get.qname)) [
            | inl d ↦ rw (a, b, d) (record { same = tt })
            | inr (qname, d) ↦
                elim (Option-cases (service.getmsg w.system qname (int_of get.wait_msec) w.err)) [
                  | inl e ↦ rw (a, b, d, e) (record { same = tt })
                  | inr ((m, err, system), e) ↦
                      let reply =
                        send_reply host h (get_result service host m err)
                          (bits (get_length service host m)) w.socket in
                      let now : Work S = record w {
                        system = system;
                        socket = reply.1;
                        err = err;
                        next = suc w.next;
                      } in
                      let same : left reply.1 ≡ left w.socket =
                        send_reply-left host h _ _ w.socket in
                      elim (Bool-cases reply.0) [
                        | inl f ↦
                            rw (a, b, d, e, f)
                              (subst (λ n. Keeps n (send_message service host now qname m)) same
                                (send_message-Keeps now qname m))
                        | inr f ↦
                            rw (a, b, d, e, f)
                              (subst (λ n. Keeps n (put_back service host now qname m)) same
                                (put_back-Keeps now qname m))
                      ]
                ]
          ]
    ]
  ]

  -- If a round is not the last, fewer bytes are still to come.
  abbrev Fewer : ℕ → Option (Bool × Work S) → Type 0
  Fewer n none = Unit
  Fewer n (some (false, w)) = Unit
  Fewer n (some (true, w)) = left w.socket < n

  served-Fewer :
      (k n : ℕ) (o : Option (ℤ × Work S))
      → Keeps k o
      → k < n
      → Fewer n (do (r, w) ← o; some (not (is_negative r), w))
  served-Fewer k n none h lt = tt
  served-Fewer k n (some (pos r, w)) h lt = let e : left w.socket ≡ k = h.same in omega arith
  served-Fewer k n (some (negsuc r, w)) h lt = tt

  serve_one-Fewer : (w : Work S) → Fewer (left w.socket) (serve_one service host w)
  unfolding serve_one
  serve_one-Fewer w = elim (Option-cases (tcp_recvall 30 w.socket)) [
    | inl a ↦ rw a tt
    | inr ((ret, head, s1), a) ↦ elim (Bool-cases (ltb 0 (pos_part ret))) [
      | inr b ↦ rw (a, b) tt
      | inl b ↦
          let fewer : left s1 < left w.socket =
            tcp_recvall-left 30 w.socket s1 ret head a (ltb→lt 0 (pos_part ret) b) in
          elim (Option-cases (head_at host head)) [
            | inl d ↦ rw (a, b, d) tt
            | inr (h', d) ↦
                let h : Head = head_ntoh host h' in
                elim (Bool-cases (ltb h.body_len 2147483648)) [
                  | inr e ↦ rw (a, b, d, e) tt
                  | inl e ↦ elim (Option-cases (tcp_recvall h.body_len s1)) [
                    | inl f ↦ rw (a, b, d, e, f) tt
                    | inr ((ret', body, s2), f) ↦ elim (Bool-cases (ltb 0 (pos_part ret'))) [
                      | inr g ↦ rw (a, b, d, e, f, g) tt
                      | inl g ↦
                          let few : left s2 < left s1 =
                            tcp_recvall-left h.body_len s1 s2 ret' body f
                              (ltb→lt 0 (pos_part ret') g) in
                          let now : Work S = record w { socket = s2 } in
                          elim (Bool-cases (h.type == type_msgget)) [
                            | inl i ↦
                                rw (a, b, d, e, f, g, i)
                                  (served-Fewer (left s2) (left w.socket) _
                                    (proc_msgget-Keeps now h body) (omega arith))
                            | inr i ↦ elim (Bool-cases (h.type == type_msgput)) [
                              | inl j ↦
                                  rw (a, b, d, e, f, g, i, j)
                                    (served-Fewer (left s2) (left w.socket) _
                                      (proc_msgput-Keeps now h body) (omega arith))
                              | inr j ↦ rw (a, b, d, e, f, g, i, j) (omega arith)
                            ]
                          ]
                    ]
                  ]
                ]
          ]
    ]
  ]

  -- The program stops, or the loop has ended.
  abbrev pub Ended : Option (Bool × Work S) → Type 0
  Ended none = Unit
  Ended (some (b, w)) = b ≡ true

  -- The thread of a connection ends, or stops the program, after no more rounds than bytes arrive
  -- and one: each round but the last takes some of the bytes that are still to come.
  pub work_thread-Ended :
      (rounds : ℕ) (w : Work S)
      → left w.socket < rounds
      → Ended (work_thread_routine service host rounds w)
  unfolding work_thread_routine
  work_thread-Ended zero w enough = absurd (omega arith)
  work_thread-Ended (suc rounds) w enough = elim (Option-cases (serve_one service host w)) [
    | inl a ↦ rw a tt
    | inr ((false, w'), a) ↦ rw a refl
    | inr ((true, w'), a) ↦
        let fewer : left w'.socket < left w.socket =
          subst (Fewer (left w.socket)) a (serve_one-Fewer w) in
        rw a (work_thread-Ended rounds w' (omega arith))
  ]
