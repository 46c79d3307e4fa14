-- ===== src/Server/Running.antt =====
-- src/qc_net/qc_server.c: the start and the stop of a server. Whether a call of the system is
-- successful is a parameter, and threads are numbered.
use queue_c.Base.{
  ℕ, ◌≡◌, refl, Bool, true, false, not, Option, none, some, List, [], ◌∷◌, ◌++◌, if◌then◌else◌,
  ◌>>=◌, ℤ, pos, failed,
}

pub record QueueSrv : Type 0 where
  pub is_running : Bool
  pub accept_thread : Option ℕ
  pub work_thread_list : List ℕ

unfoldable pub queuesrv_create : QueueSrv
queuesrv_create = record { is_running = false; accept_thread = none; work_thread_list = [] }

-- A connection has been accepted, and `thread` serves it.
unfoldable pub accepted : QueueSrv → (thread : ℕ) → QueueSrv
accepted q thread = record q { work_thread_list = q.work_thread_list ++ (thread ∷ []) }

-- The threads that are canceled and joined. `none` is a fault, the cancel of no thread.
unfoldable pub queuesrv_stop : QueueSrv → Option (List ℕ × QueueSrv)
queuesrv_stop q = if q.is_running then some ([], q) else (do
  accept ← q.accept_thread
  some (accept ∷ q.work_thread_list, record q { is_running = false; work_thread_list = [] }))

-- `thread` accepts the connections. The result, and the threads joined by the stop that follows if
-- the call is not asynchronous.
unfoldable pub queuesrv_start :
    QueueSrv
    → (is_async has_socket is_bound listens : Bool) (thread : ℕ) → Option (ℤ × List ℕ × QueueSrv)
queuesrv_start q is_async has_socket is_bound listens thread =
    let started : QueueSrv = record q { accept_thread = some thread; is_running = true } in
    let stopped = queuesrv_stop started in
    if not has_socket
    then some (failed, [], q)
    else if not is_bound
    then some (failed, [], q)
    else if not listens
    then some (failed, [], q)
    else if not is_async
    then (do (joined, q') ← stopped; some (pos 0, joined, q'))
    else some (pos 0, [], started)

-- Where the calls of the system are successful, `queuesrv_start` returns 0, asynchronous or not,
-- and `queuesrv_stop` then joins no thread and changes nothing: the server goes on.
pub start-stop :
    (q : QueueSrv) (is_async : Bool) (thread : ℕ)
    → (q' : QueueSrv) × (queuesrv_start q is_async true true true thread ≡ some (pos 0, [], q'))
      × (queuesrv_stop q' ≡ some ([], q'))
      × (q'.accept_thread ≡ some thread)
      × (q'.work_thread_list ≡ q.work_thread_list)
unfolding queuesrv_start queuesrv_stop
start-stop q true thread = (_, refl, refl, refl, refl)
start-stop q false thread = (_, refl, refl, refl, refl)
