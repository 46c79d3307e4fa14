-- ===== src/Client/Tests.antt =====
-- A client on concrete bytes.
use queue_c.Base.{ℕ, ◌≡◌, refl, true, none, some, List, [], ◌∷◌, ◌++◌, arith, pos}
use queue_c.Base.{agree, Bool, sym, ap, ◌+◌, false, if◌then◌else◌, ◌∙◌}
use queue_c.Client.Stores.{msgput-stores}
use queue_c.HashKey.{hashstring, strcompare}
use queue_c.HashKey.Strings.{strcompare_self}
use queue_c.Putters
use queue_c.Putters.{Putter}
use queue_c.Queue.Weights.{held}
use queue_c.Queue.Inv.{IsQueue, stored}
use queue_c.Queue.Steps.{created, created-IsTraced}
use queue_c.QSystem.{QManager, addqueue, getqueue}
use queue_c.QSystem.Names.{IsManager, same_name, addqueue-getqueue}
use queue_c.Server.Queues.{Queues, queues, queues_put-stores}
use mathlib.Core.List.{append-nil}
use queue_c.Client.{request_head, Peer, client_msgput, client_msgget, err_socket}
use queue_c.Client.Calls.{priority_of, served, msgput-served, put_message}
use queue_c.Client.Empty.{client_msgget-empty}
use queue_c.Client.Requests.{head_sent, body_sent}
use queue_c.Message.{Message}
use queue_c.Protocol.{Host}
use queue_c.Server.{Work, contents, type_msgput, serve_one}
use queue_c.Server.Samples.{keeper, message, connection, work, buffer}
use queue_c.Server.Serve.{reply_bytes}
use queue_c.Socket.{Socket, stream}

-- The name "q" of a queue, and a server that sends a reply of success.
abbrev name : List ℕ
name = 113 ∷ []

abbrev success : List ℕ
success = reply_bytes Host.big (request_head type_msgput 44) 0 0

abbrev answers : List ℕ → Peer
answers bytes sent = bytes ∷ []

abbrev quiet : Socket
quiet = record (connection [] 100) { incoming = [] }

abbrev asked : Work (List Message)
asked = work [] (
    connection
      (head_sent Host.little message
        ++ (body_sent Host.little buffer name message (pos 9) ++ (5 ∷ 6 ∷ [])))
      100)

-- The client receives what the server sends.
put_is_answered :
    (w' : Work (List Message))
    → serve_one keeper Host.big asked ≡ some (true, w')
    → stream (success ∷ []) ≡ w'.socket.sent
put_is_answered w' run =
    let (w0, run0, now, copied, sent) =
      served keeper Host.little Host.big asked buffer name (λ a. 5 ∷ 6 ∷ []) message (5 ∷ 6 ∷ []) []
        (pos 9) refl (omega arith) (omega arith, tt) refl refl (omega arith) refl (omega arith)
        (pos 0) (pos 0) (put_message asked 2 ∷ []) refl (append-nil _) in
    append-nil _
    ∙ sym sent
    ∙ ap (λ (x : Bool × Work (List Message)). x.1.socket.sent)
        (agree _ (true, w0) (true, w') run0 run)

msgput-served_example :
    (w' : Work (List Message)) × (k' : Socket) × (serve_one keeper Host.big asked ≡ some (true, w'))
    × (w'.system ≡ put_message asked 2 ∷ [])
    × ((put_message asked 2).priority ≡ pos 1)
    × (contents w'.memory (put_message asked 2) ≡ some (5 ∷ 6 ∷ [], []))
    × (client_msgput Host.little
          (answers success)
          buffer
          (λ a. 5 ∷ 6 ∷ [])
          quiet
          name
          message
          (pos 9)
          (pos 0)
        ≡ some (pos 0, pos 0, k'))
msgput-served_example =
    msgput-served keeper Host.little Host.big asked buffer name (λ a. 5 ∷ 6 ∷ []) message
      (5 ∷ 6 ∷ []) [] (pos 9) refl (omega arith) (omega arith, tt) refl refl (omega arith) refl
      (omega arith) (pos 0) (pos 0) (put_message asked 2 ∷ []) refl (answers success) quiet (pos 0)
      refl (omega arith) (append-nil _) put_is_answered

client_msgget-empty_example :
    (k' : Socket) × (client_msgget Host.little (answers success) buffer quiet name (pos 9) (pos 0) 3
      ≡ some (none, err_socket, k'))
client_msgget-empty_example =
    client_msgget-empty Host.little Host.big (answers success) buffer quiet name (pos 9) (pos 0) 3
      (request_head type_msgput 44) refl (omega arith) refl (omega arith) refl (append-nil _)

-- The same server over a queue of one message with that name.
abbrev nobody : ℕ → Putter
nobody _ = record {
  message = message;
  priority = pos 0;
  is_timedout = false;
  entry = false;
  ref_count = 0;
}

abbrev no_queues : QManager
no_queues = record {
  queue_table = record {
    buckets = λ _. [];
    bucket_count = 1000;
    entry_count = 0;
    cur_bucket_no = 0;
    cur_entry = [];
    hash = hashstring;
    compare = strcompare;
    destroys = false;
  };
}

one_queue :
    (m : QManager) × (addqueue no_queues name 5 ≡ some (pos 0, m))
    × IsManager m
    × ((b : List ℕ)
        → getqueue m b ≡ (if same_name name b then some (some 5) else getqueue no_queues b))
one_queue =
    addqueue-getqueue no_queues (record { hash = refl; compare = refl; bucket_count = refl }) name 5

abbrev over_queues : Work Queues
over_queues = record {
  system = record {
    system = record { manager = one_queue.0; queues = λ _. (created 0 0 nobody).queue };
    next = 3;
  };
  memory = λ a. [];
  next = 0;
  socket = asked.socket;
  err = pos 0;
}

stored_put :
    (x : Queues) × (queues.putmsg over_queues.system name
        (put_message over_queues 2)
        (pos 9)
        (pos 0)
      ≡ some (pos 0, pos 0, x))
unfolding Putters.create
stored_put =
    let (x, put, v, more, weights) =
      queues_put-stores over_queues.system name 5 (put_message over_queues 2) (pos 9) (pos 0) 0
        (one_queue.3 name ∙ rw (strcompare_self name)) (created-IsTraced 0 0 nobody).queue
        (omega arith) (priority_of over_queues 2) (omega arith) refl in
    (x, put)

store_is_answered :
    (w' : Work Queues)
    → serve_one queues Host.big over_queues ≡ some (true, w')
    → stream (success ∷ []) ≡ w'.socket.sent
store_is_answered w' run =
    let (x, put) = stored_put in
    let (w0, run0, now, copied, sent) =
      served queues Host.little Host.big over_queues buffer name (λ a. 5 ∷ 6 ∷ []) message
        (5 ∷ 6 ∷ []) [] (pos 9) refl (omega arith) (omega arith, tt) refl refl (omega arith) refl
        (omega arith) (pos 0) (pos 0) x put (append-nil _) in
    append-nil _
    ∙ sym sent
    ∙ ap (λ (x : Bool × Work Queues). x.1.socket.sent) (agree _ (true, w0) (true, w') run0 run)

msgput-stores_example :
    (w' : Work Queues) × (k' : Socket) × (serve_one queues Host.big over_queues ≡ some (true, w'))
    × IsQueue (w'.system.system.queues 5)
    × (stored (w'.system.system.queues 5) ≡ 1)
    × ((f : Message → ℕ)
        → held f (w'.system.system.queues 5)
          ≡ held f (created 0 0 nobody).queue + f (put_message over_queues 2))
    × (contents w'.memory (put_message over_queues 2) ≡ some (5 ∷ 6 ∷ [], []))
    × (client_msgput Host.little
          (answers success)
          buffer
          (λ a. 5 ∷ 6 ∷ [])
          quiet
          name
          message
          (pos 9)
          (pos 0)
        ≡ some (pos 0, pos 0, k'))
unfolding Putters.create
msgput-stores_example =
    msgput-stores Host.little Host.big over_queues buffer name (λ a. 5 ∷ 6 ∷ []) message
      (5 ∷ 6 ∷ []) [] (pos 9) refl (omega arith) (omega arith, tt) refl refl (omega arith) refl
      (omega arith) 5 (one_queue.3 name ∙ rw (strcompare_self name)) (answers success) quiet (pos 0)
      (created-IsTraced 0 0 nobody).queue (omega arith) (omega arith) refl refl (omega arith)
      (append-nil _) store_is_answered
