-- ===== src/Client/Calls.antt =====
-- A call of a client that a server serves.
use queue_c.Base.{
  ℕ, suc, ◌+◌, ◌≡◌, ◌≢◌, ◌≤◌, ◌<◌, refl, ap, ap₂, sym, subst, ◌∙◌, some, List, [], ◌++◌, arith,
  length, pos, negsuc, ℤ, true, All, if◌then◌else◌, eqb_ℤ, inl, inr, Bool-cases,
}
use mathlib.Core.List.{append-nil}
use queue_c.Client.{request_head, Peer, client_msgput}
use queue_c.Client.Requests.{
  name_in, length-name_in, string_in-name, put_of, put_of-MsgPutFits, request_head-HeadFits,
  head_sent, body_sent, after_sends, put_returns, put_error, client_msgput-replied,
}
use queue_c.Message.{Message, create, flag_clone}
use queue_c.Protocol.{Host, Head, MsgPut, reply_hton}
use queue_c.Protocol.Order.{head_memory}
use queue_c.Protocol.Memory.{reply_memory, read_bytes-all}
use queue_c.Getters.Held.{set_self}
use queue_c.Server.{
  Service, Work, type_msgput, type_reply, contents, bits, int_of, put_result, serve_one,
}
use queue_c.Server.Serve.{reply_bytes, serve_one-put}
use queue_c.Thread.{timeout}
use queue_c.Socket.{Socket, stream}

put_result-lt : (ret err : ℤ) → put_result ret err < 4294967296
put_result-lt ret err = elim (Bool-cases (eqb_ℤ ret (pos 0))) [
  | inl y ↦ rw y (omega arith)
  | inr n ↦ elim (Bool-cases (eqb_ℤ err timeout)) [
    | inl y ↦ rw (n, y) (omega arith)
    | inr z ↦ rw (n, z) (omega arith)
  ]
]

-- The message that the server makes of a put: with priority 1, and a copy of the bytes.
abbrev pub put_message : {S : Type 0} → Work S → (len : ℕ) → Message
put_message w len = create (some w.next) (pos len) flag_clone (suc w.next)

-- The message that the caller of a put is to be given, by the result and the error of the put in the
-- server's system: 0 and its own error as it was; -1 and a timeout, QC_ERR_TIMEOUT; or -1 and an
-- unknown error.
abbrev pub outcome : (ret err client_err : ℤ) → ℤ × ℤ
outcome ret err client_err =
    if eqb_ℤ ret (pos 0)
    then (pos 0, client_err)
    else if eqb_ℤ err (negsuc 32)
    then (negsuc 0, pos 52)
    else (negsuc 0, pos 99)

outcome_lem :
    (ret err client_err : ℤ)
    → (put_returns (put_result ret err) ≡ (outcome ret err client_err).0)
      × (put_error (put_result ret err) client_err ≡ (outcome ret err client_err).1)
outcome_lem ret err client_err = elim (Bool-cases (eqb_ℤ ret (pos 0))) [
  | inl y ↦ rw y (refl, refl)
  | inr n ↦ elim (Bool-cases (eqb_ℤ err (negsuc 32))) [
    | inl y ↦ rw (n, y) (refl, refl)
    | inr z ↦ rw (n, z) (refl, refl)
  ]
]

pub priority_of : {S : Type 0} (w : Work S) (n : ℕ) → (put_message w n).priority ≡ pos 1
unfolding create
priority_of w n = refl

module _ {S : Type 0} (service : Service S) (c s : Host) (w : Work S) (stack qname : List ℕ)
    (memory : ℕ → List ℕ) (m : Message) (buff behind : List ℕ) (msec : ℤ) (l : length stack ≡ 32)
    (short : length qname < 32) (text : All (λ x. x ≢ 0) qname)
    (bytes : contents memory m ≡ some (buff, behind)) (len : m.buff_len ≡ pos (length buff))
    (small : length buff < 2147483606) (fresh : w.socket.sent ≡ []) (room : 38 ≤ w.socket.capacity)
    (ret err : ℤ) (system : S)
    (put : service.putmsg w.system qname (put_message w (length buff)) (int_of (bits msec)) w.err
      ≡ some (ret, err, system)) where
  sent_fits : bits m.buff_len ≡ length buff
  sent_fits = ap bits len ∙ omega arith

  -- The reply of the server, and the bytes that the client has sent.
  abbrev reply : List ℕ
  reply = reply_bytes s (request_head type_msgput (42 + bits m.buff_len)) (put_result ret err) 0

  abbrev request : Socket → List ℕ
  request k = (after_sends (head_sent c m) (body_sent c stack qname m msec) buff k).sent

  -- What the server does with the request.
  pub served :
      stream w.socket.incoming ≡ head_sent c m ++ (body_sent c stack qname m msec ++ buff)
      → (w' : Work S) × (serve_one service s w ≡ some (true, w'))
        × (w'.system ≡ system)
        × (contents w'.memory (put_message w (length buff)) ≡ some (buff, []))
        × (w'.socket.sent ≡ reply)
  unfolding create
  served e =
      let h : Head = request_head type_msgput (42 + bits m.buff_len) in
      let p : MsgPut = put_of (name_in stack qname) m msec in
      let (later, run, behind) =
        serve_one-put service c s w h p buff qname []
          (request_head-HeadFits type_msgput (42 + bits m.buff_len) (omega arith)) refl refl
          (omega (arith, sent_fits)) (omega (arith, sent_fits))
          (put_of-MsgPutFits (name_in stack qname) m msec) (length-name_in stack qname l short)
          sent_fits (string_in-name qname _ text) (e ∙ sym (append-nil _)) room ret err system
          (subst
            (λ n.
              service.putmsg w.system qname (put_message w n) (int_of (bits msec)) w.err
              ≡ some (ret, err, system))
            (sym sent_fits) put) in
      (
        _,
        run,
        refl,
        rw (set_self w.memory (suc w.next) buff, read_bytes-all (length buff) buff refl),
        ap
            (λ l.
              (l ++ head_memory s (record h { type = type_reply }))
              ++ reply_memory s
                  (reply_hton s (record { result = put_result ret err; msg_len = 0 })))
            fresh,
      )

  -- A put by a client, on a new connection to a server of any byte order, is what a put into the
  -- server's system is. Let the name have less than 32 characters, the message less than 2147483606
  -- bytes, nothing be left to receive at the client, the connections take all that is sent, the
  -- server receive what the client sends, and the client what the server sends, each in any
  -- segments. If a put into the system, under the name and for the wait of the client, of the
  -- message that the server makes gives a result, an error and a system, then the thread of the
  -- connection goes on with that system; the message has priority 1 and holds a copy of the
  -- client's bytes; and the client returns 0 with its error code as it was for the result 0, else
  -- -1 with the code of a timeout where the error is a timeout, and else -1 with that of an unknown
  -- error.
  pub msgput-served :
      (peer : Peer) (k : Socket) (client_err : ℤ)
      → k.incoming ≡ []
      → 72 + length buff ≤ k.capacity
      → stream w.socket.incoming ≡ head_sent c m ++ (body_sent c stack qname m msec ++ buff)
      → ((w' : Work S)
          → serve_one service s w ≡ some (true, w')
          → stream (peer (request k)) ≡ w'.socket.sent)
      → (w' : Work S) × (k' : Socket) × (serve_one service s w ≡ some (true, w'))
        × (w'.system ≡ system)
        × ((put_message w (length buff)).priority ≡ pos 1)
        × (contents w'.memory (put_message w (length buff)) ≡ some (buff, []))
        × (client_msgput c peer stack memory k qname m msec client_err
            ≡ some ((outcome ret err client_err).0, (outcome ret err client_err).1, k'))
  msgput-served peer k client_err quiet fits e answered =
      let (w', run, now, copied, sent) = served e in
      let h : Head = request_head type_msgput (42 + bits m.buff_len) in
      let (k', call) =
        client_msgput-replied c stack memory qname m buff _ l short bytes s peer k msec client_err h
          (put_result ret err) quiet fits refl (put_result-lt ret err) (answered w' run ∙ sent) in
      let (returned, error) = outcome_lem ret err client_err in
      (
        w',
        k',
        run,
        now,
        priority_of w (length buff),
        copied,
        call ∙ ap (λ (r : ℤ × ℤ). some (r.0, r.1, k')) (ap₂ (λ (x y : ℤ). (x, y)) returned error),
      )
