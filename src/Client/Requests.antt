-- ===== src/Client/Requests.antt =====
-- What the client sends, and what it makes of a reply.
use queue_c.Base.{
  ℕ, zero, suc, ◌+◌, ◌%◌, ◌≡◌, ◌≢◌, ◌≤◌, ◌<◌, refl, sym, ◌∙◌, Option, some, List, [], ◌∷◌, ◌++◌,
  arith, if◌then◌else◌, length, length-append, lt→ltb, eqb_true, pos, failed, ℤ, Bool, true, false,
  All, ◌==◌,
}
use mathlib.Core.List.{append_assoc, append-nil}
use queue_c.Client.{request_head, send_all, Peer, await, recv_reply, client_msgput, err_unkown}
use queue_c.Message.{Message}
use queue_c.Protocol.{Host, Head, MsgPut, MsgGet, Reply, head_hton, msgput_hton, reply_hton}
use queue_c.Protocol.Order.{head_memory, HeadFits, MsgPutFits, bodies_ntoh-hton}
use queue_c.Protocol.Memory.{
  msgput_memory, reply_memory, length-head_memory, length-reply_memory, length-msgput_memory,
  head_at-some, reply_at-reply_memory,
}
use queue_c.Server.{type_msgput, type_reply, result_timeout, contents, bits, string_in}
use queue_c.Server.Serve.{reply_bytes}
use queue_c.Socket.{Socket, drop, stream}
use queue_c.Socket.Receive.{after_send, tcp_send-whole, tcp_recvall-gets}
use queue_c.Thread.{err_timeout}

-- The name in its buffer.
abbrev pub name_in : (stack qname : List ℕ) → List ℕ
name_in stack qname = qname ++ (0 ∷ drop (suc (length qname)) stack)

length-drop : (n : ℕ) (xs : List ℕ) → n ≤ length xs → n + length (drop n xs) ≡ length xs
length-drop zero xs le = omega arith
length-drop (suc n) [] le = absurd (omega arith)
length-drop (suc n) (x ∷ xs) le = omega (arith, length-drop n xs (omega arith))

pub length-name_in :
    (stack qname : List ℕ)
    → length stack ≡ 32
    → length qname < 32
    → length (name_in stack qname) ≡ 32
length-name_in stack qname l short =
    length-append qname _ ∙ omega (arith, length-drop (suc (length qname)) stack (omega arith))

pub string_in-name :
    (qname bs : List ℕ) → All (λ x. x ≢ 0) qname → string_in (qname ++ (0 ∷ bs)) ≡ some qname
string_in-name [] bs h = refl
string_in-name (zero ∷ qname) bs h = absurd (h.0 refl)
string_in-name (suc x ∷ qname) bs h = rw (string_in-name qname bs h.1) refl

abbrev pub put_of : (name : List ℕ) → Message → (msec : ℤ) → MsgPut
put_of name m msec = record {
  qname = name;
  wait_msec = bits msec;
  msg_prioriy = bits m.priority % 65536;
  msg_len = bits m.buff_len;
}

bits-lt : (x : ℤ) → bits x < 4294967296
bits-lt (pos n) = omega arith
bits-lt (ℤ.negsuc n) = omega arith

pub put_of-MsgPutFits : (name : List ℕ) (m : Message) (msec : ℤ) → MsgPutFits (put_of name m msec)
put_of-MsgPutFits name m msec = record {
  wait_msec = bits-lt msec;
  msg_prioriy = omega arith;
  msg_len = bits-lt m.buff_len;
}

pub request_head-HeadFits :
    (type body_len : ℕ) → type < 65536 → HeadFits (request_head type body_len)
request_head-HeadFits type body_len h = record {
  protocol = omega arith;
  version = omega arith;
  type = h;
  packsn = omega arith;
  body_len = omega arith;
}

abbrev pub after_sends : (a b c : List ℕ) → Socket → Socket
after_sends a b c s = after_send c (after_send b (after_send a s))

send_all-whole :
    (a b c : List ℕ) (s : Socket)
    → length a + length b + length c ≤ s.capacity
    → send_all (a ∷ b ∷ c ∷ []) s ≡ (true, after_sends a b c s)
unfolding send_all
send_all-whole a b c s room =
    rw
      (
        tcp_send-whole a s (omega arith),
        tcp_send-whole b (after_send a s) (omega arith),
        tcp_send-whole c (after_send b (after_send a s)) (omega arith),
        eqb_true (length a) (length a) refl,
        eqb_true (length b) (length b) refl,
        eqb_true (length c) (length c) refl,
      )
      refl

-- A reply from a server of another byte order. Its header is not looked at.
pub recv_reply-reply_bytes :
    (c s : Host) (h : Head) (result msg_len : ℕ) (rest : List ℕ) (k : Socket)
    → length h.reserve ≡ 16
    → result < 4294967296
    → msg_len < 4294967296
    → stream k.incoming ≡ reply_bytes s h result msg_len ++ rest
    → (later : List (List ℕ)) × (recv_reply c k
        ≡ some
            (some (record { result = result; msg_len = msg_len }), record k { incoming = later }))
      × (stream later ≡ rest)
unfolding recv_reply
recv_reply-reply_bytes c s h result msg_len rest k l small few e =
    let h' : Head = record h { type = type_reply } in
    let r : Reply = record { result = result; msg_len = msg_len } in
    let g : MsgGet = record { qname = []; wait_msec = 0 } in
    let p : MsgPut = record { qname = []; wait_msec = 0; msg_prioriy = 0; msg_len = 0 } in
    let fits : MsgPutFits p = record {
      wait_msec = omega arith;
      msg_prioriy = omega arith;
      msg_len = omega arith;
    } in
    let (l1, e1, f1) =
      tcp_recvall-gets k 30 (head_memory s h') (reply_memory s (reply_hton s r) ++ rest)
        (length-head_memory s h' l) (omega arith)
        (e ∙ append_assoc (head_memory s h') (reply_memory s (reply_hton s r)) rest) in
    let (l2, e2, f2) =
      tcp_recvall-gets (record k { incoming = l1 }) 8 (reply_memory s (reply_hton s r)) rest
        (length-reply_memory s (reply_hton s r)) (omega arith) f1 in
    let (x, read) = head_at-some c s h' l in
    (
      l2,
      rw
          (
            e1,
            read,
            e2,
            reply_at-reply_memory s c r small few,
            (bodies_ntoh-hton c p g r fits (omega arith) small few).2,
          )
          refl,
      f2,
    )

-- What a put returns by the result in the reply, and the code of its error.
abbrev pub put_returns : (result : ℕ) → ℤ
put_returns result = if result == 0 then pos 0 else failed

abbrev pub put_error : (result : ℕ) (err : ℤ) → ℤ
put_error result err =
    if result == 0 then err else if result == result_timeout then err_timeout else err_unkown

outcome-some :
    (a b : Bool) (err : ℤ) (k : Socket)
    → if◌then◌else◌ {A = Option (ℤ × ℤ × Socket)} a
        (some (pos 0, err, k))
        (if b then some (failed, err_timeout, k) else some (failed, err_unkown, k))
      ≡ some
          (if a then pos 0 else failed, if a then err else if b then err_timeout else err_unkown, k)
outcome-some true b err k = refl
outcome-some false true err k = refl
outcome-some false false err k = refl

-- The packets of a put.
abbrev pub head_sent : Host → Message → List ℕ
head_sent c m = head_memory c (head_hton c (request_head type_msgput (42 + bits m.buff_len)))

abbrev pub body_sent : Host → (stack qname : List ℕ) → Message → (msec : ℤ) → List ℕ
body_sent c stack qname m msec =
    msgput_memory c (msgput_hton c (put_of (name_in stack qname) m msec))

module _ (c : Host) (stack : List ℕ) (memory : ℕ → List ℕ) (qname : List ℕ) (m : Message)
    (buff behind : List ℕ) (l : length stack ≡ 32) (short : length qname < 32)
    (bytes : contents memory m ≡ some (buff, behind)) where
  head_sent-length : length (head_sent c m) ≡ 30
  unfolding head_hton
  head_sent-length = length-head_memory c _ refl

  body_sent-length : (msec : ℤ) → length (body_sent c stack qname m msec) ≡ 42
  unfolding msgput_hton
  body_sent-length msec = length-msgput_memory c _ (length-name_in stack qname l short)

  pub client_msgput-replied :
      (s : Host) (peer : Peer) (k : Socket) (msec err : ℤ) (h : Head) (result : ℕ)
      → k.incoming ≡ []
      → 72 + length buff ≤ k.capacity
      → length h.reserve ≡ 16
      → result < 4294967296
      → stream (peer (after_sends (head_sent c m) (body_sent c stack qname m msec) buff k).sent)
        ≡ reply_bytes s h result 0
      → (k' : Socket) × (client_msgput c peer stack memory k qname m msec err
          ≡ some (put_returns result, put_error result err, k'))
  unfolding client_msgput
  client_msgput-replied s peer k msec err h result quiet room lh small e =
      let sent : Socket = after_sends (head_sent c m) (body_sent c stack qname m msec) buff k in
      let there : await peer sent ≡ record sent { incoming = peer sent.sent } = rw quiet refl in
      let (later, e1, f1) =
        recv_reply-reply_bytes c s h result 0 [] (record sent { incoming = peer sent.sent }) lh
          small (omega arith) (e ∙ sym (append-nil _)) in
      (
        record sent { incoming = later },
        rw
            (
              lt→ltb (length qname) (length stack) (omega (arith, l)),
              bytes,
              send_all-whole (head_sent c m) (body_sent c stack qname m msec) buff k
                  (omega (arith, head_sent-length, body_sent-length msec)),
              there,
              e1,
            )
            (outcome-some (result == 0) (result == result_timeout) err
              (record sent { incoming = later })),
      )
