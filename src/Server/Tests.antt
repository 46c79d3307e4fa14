-- ===== src/Server/Tests.antt =====
-- A server on concrete bytes.
use queue_c.Base.{◌≡◌, refl, some, List, [], ◌∷◌, arith, failed, true, false, pos}
use queue_c.Client.{request_head}
use queue_c.Message.{Message}
use queue_c.Protocol.{Host, MsgGet, msgget_hton}
use queue_c.Protocol.Memory.{msgget_memory}
use queue_c.Server.{Work, type_msgget, proc_msgget, work_thread_routine}
use queue_c.Server.Ends.{Ended, work_thread-Ended}
use queue_c.Server.Lost.{proc_msgget-put_back}
use queue_c.Server.Running.{QueueSrv, queuesrv_create, queuesrv_start, queuesrv_stop, start-stop}
use queue_c.Server.Samples.{keeper, message, connection, work, buffer}

abbrev get : MsgGet
get = record { qname = buffer; wait_msec = 100 }

proc_msgget-put_back_example :
    (w' : Work (List Message)) × (proc_msgget keeper Host.little
        (work (message ∷ []) (connection [] 10))
        (request_head type_msgget 36)
        (msgget_memory Host.big (msgget_hton Host.big get))
      ≡ some (failed, w'))
    × (w'.system ≡ message ∷ [])
proc_msgget-put_back_example =
    proc_msgget-put_back keeper Host.big Host.little (work (message ∷ []) (connection [] 10))
      (request_head type_msgget 36) get (113 ∷ []) message (pos 0) (pos 0) (pos 0) [] (message ∷ [])
      refl refl (omega arith) refl refl (omega arith) refl refl

work_thread-Ended_example :
    Ended keeper Host.little
      (work_thread_routine keeper Host.little 4 (work [] (connection (1 ∷ 2 ∷ 3 ∷ []) 100)))
work_thread-Ended_example =
    work_thread-Ended keeper Host.little 4 (work [] (connection (1 ∷ 2 ∷ 3 ∷ []) 100)) (omega arith)

start-stop_example :
    (q' : QueueSrv) × (queuesrv_start queuesrv_create false true true true 1 ≡ some (pos 0, [], q'))
    × (queuesrv_stop q' ≡ some ([], q'))
    × (q'.accept_thread ≡ some 1)
    × (q'.work_thread_list ≡ queuesrv_create.work_thread_list)
start-stop_example = start-stop queuesrv_create false 1
