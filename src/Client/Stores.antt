-- ===== src/Client/Stores.antt =====
-- A put by a client, down to the queue.
use queue_c.Base.{ℕ, ◌+◌, ◌≡◌, ◌≢◌, ◌≤◌, ◌<◌, some, List, [], ◌++◌, length, pos, ℤ, true, All}
use queue_c.Client.{Peer, client_msgput}
use queue_c.Client.Calls.{priority_of, msgput-served, put_message}
use queue_c.Client.Requests.{head_sent, body_sent, after_sends}
use queue_c.Message.{Message}
use queue_c.Protocol.{Host}
use queue_c.QSystem.{getqueue}
use queue_c.Queue.{Queue}
use queue_c.Queue.Weights.{held}
use queue_c.Queue.Inv.{IsQueue, stored}
use queue_c.Server.{Work, contents, bits, int_of, serve_one}
use queue_c.Server.Queues.{Queues, queues, queues_put-stores}
use queue_c.Socket.{Socket, stream}

module _ (c s : Host) (w : Work Queues) (stack qname : List ℕ) (memory : ℕ → List ℕ) (m : Message)
    (buff behind : List ℕ) (msec : ℤ) (l : length stack ≡ 32) (short : length qname < 32)
    (text : All (λ x. x ≢ 0) qname) (bytes : contents memory m ≡ some (buff, behind))
    (len : m.buff_len ≡ pos (length buff)) (small : length buff < 2147483606)
    (fresh : w.socket.sent ≡ []) (room : 38 ≤ w.socket.capacity) (a : ℕ)
    (there : getqueue w.system.system.manager qname ≡ some (some a)) where
  abbrev here : Queues → Queue
  here x = x.system.queues a

  -- A put by a client, on a new connection to a server whose system is that of QSystem where one
  -- thread runs at a time, stores a message in the queue of that name: the queue's invariant is
  -- kept, the server's message is stored beside those before, it holds a copy of the client's
  -- bytes, the thread of the connection goes on, and the client returns 0 with its error code as it
  -- was. The queue satisfies its invariant, has room and a priority 1, and the address of a new
  -- putter is not in use. The name has less than 32 characters and the message less than 2147483606
  -- bytes, nothing is left to receive at the client, and the connections take all that is sent: the
  -- server receives what the client sends and the client what the server sends, each in any
  -- segments, between hosts of any byte order.
  pub msgput-stores :
      (peer : Peer) (k : Socket) (client_err : ℤ)
      → IsQueue (here w.system)
      → (here w.system).chain.msg_count ≢ (here w.system).limit
      → 0 < (here w.system).chain.bucket_count
      → ((here w.system).putters.at w.system.next).ref_count ≡ 0
      → k.incoming ≡ []
      → 72 + length buff ≤ k.capacity
      → stream w.socket.incoming ≡ head_sent c m ++ (body_sent c stack qname m msec ++ buff)
      → ((w' : Work Queues)
          → serve_one queues s w ≡ some (true, w')
          → stream (peer (after_sends (head_sent c m) (body_sent c stack qname m msec) buff k).sent)
            ≡ w'.socket.sent)
      → (w' : Work Queues) × (k' : Socket) × (serve_one queues s w ≡ some (true, w'))
        × IsQueue (here w'.system)
        × (stored (here w'.system) ≡ stored (here w.system) + 1)
        × ((f : Message → ℕ)
            → held f (here w'.system) ≡ held f (here w.system) + f (put_message w (length buff)))
        × (contents w'.memory (put_message w (length buff)) ≡ some (buff, []))
        × (client_msgput c peer stack memory k qname m msec client_err
            ≡ some (pos 0, client_err, k'))
  msgput-stores peer k client_err v free levels unused quiet fits e answered =
      let (x, put, v', more, weights) =
        queues_put-stores w.system qname a (put_message w (length buff)) (int_of (bits msec)) w.err
          0 there v free (priority_of w (length buff)) levels unused in
      let (w', k', run, now, level, copied, call) =
        msgput-served queues c s w stack qname memory m buff behind msec l short text bytes len
          small fresh room (pos 0) w.err x put peer k client_err quiet fits e answered in
      (w', k', run, rw now v', rw now more, rw now weights, copied, call)
